-- ===== src/Downloads.antt =====
-- The actions on downloads of src/api/services/dashboard_actions.py: one download at a time, and
-- `batch_update`. What is deleted in the file system and in the table `media_summaries` is left out. A
-- request is one step, and selected rows come in the order of their keys.
pub mod Selected
mod Tests
use getoffline.Base.{
  ℕ, String, Bool, true, false, not, ◌&&◌, ◌||◌, Option, none, some, List, [], ◌∷◌, ◌++◌, ◌==◌,
  nat_eq, any, keep, first, update_where, Text, codes, text_eq, is_empty, is_digits, strip, decimal,
  pos_part, parse_int, Value, null, bool, str, Dict, if◌then◌else◌,
}
use getoffline.Domain.{missing, download_status_value}
use getoffline.Jobs.{Job, Db, create_job}
use getoffline.Routing.{Publication, publish_job}
use getoffline.Discovery.Scan.{message_of}
use getoffline.Library.{Download}
use getoffline.Actions.{Form, field}
use getoffline.Sources.Edits.{posted_source_ids}

-- The tables, and the messages published so far.
pub record State : Type 0 where
  pub downloads : List Download
  pub db : Db
  pub published : List Publication

abbrev pub is_own : String → ℕ → Download → Bool
is_own profile id d = nat_eq d.id id && d.profile_id == profile

-- the rows that an action changes, and how
abbrev pub marked_played : ℕ → Download → Download
marked_played now d = record d { played = true; played_at = some now; last_seen_at = now }

abbrev pub marked_unplayed : ℕ → Download → Download
marked_unplayed now d = record d { played = false; played_at = none; last_seen_at = now }

abbrev pub with_favorite : Bool → ℕ → Download → Download
with_favorite f now d = record d { favorite = f; last_seen_at = now }

abbrev pub without_file : ℕ → Download → Download
without_file now d = record d {
  download_status = codes (download_status_value missing);
  last_seen_at = now;
}

-- What a single request does: `none` is Http404.
abbrev change_own : (Download → Download) → String → ℕ → List Download → Option (List Download)
change_own f profile id rows =
    if any (is_own profile id) rows then some (update_where (is_own profile id) f rows) else none

unfoldable pub mark_played : ℕ → String → ℕ → List Download → Option (List Download)
mark_played now profile id rows = change_own (marked_played now) profile id rows

unfoldable pub mark_unplayed : ℕ → String → ℕ → List Download → Option (List Download)
mark_unplayed now profile id rows = change_own (marked_unplayed now) profile id rows

unfoldable pub favorite : ℕ → String → ℕ → List Download → Option (List Download)
favorite now profile id rows = change_own (with_favorite true now) profile id rows

unfoldable pub unfavorite : ℕ → String → ℕ → List Download → Option (List Download)
unfavorite now profile id rows = change_own (with_favorite false now) profile id rows

unfoldable pub delete_file : ℕ → String → ℕ → List Download → Option (List Download)
delete_file now profile id rows = change_own (without_file now) profile id rows

-- The values of `batch_action`; `other_rows` is any that changes nothing.
pub data Batch : Type 0 where
  played_rows unplayed_rows favorite_rows unfavorite_rows delete_rows purge_rows download_rows
        other_rows :
      Batch

unfoldable pub batch_of : Text → Batch
unfolding text_eq
batch_of t =
    if text_eq t (codes "played")
    then played_rows
    else if text_eq t (codes "unplayed")
    then unplayed_rows
    else if text_eq t (codes "favorite")
    then favorite_rows
    else if text_eq t (codes "unfavorite")
    then unfavorite_rows
    else if text_eq t (codes "delete")
    then delete_rows
    else if text_eq t (codes "purge")
    then purge_rows
    else if text_eq t (codes "download")
    then download_rows
    else other_rows

-- filter(pk__in=ids, profile_id=profile_id)
abbrev pub is_selected : String → List ℕ → Download → Bool
is_selected profile ids d = any (nat_eq d.id) ids && d.profile_id == profile

abbrev value_of : Option Text → Value
value_of none = null
value_of (some t) = str t

-- item.item_url or item.media_url or item.source_url
abbrev url_of : Download → Value
url_of d = first_text d.item_url (first_text d.media_url (value_of d.source_url))
  where
    first_text : Option Text → Value → Value
    first_text (some (c ∷ t)) v = str (c ∷ t)
    first_text _ v = v

unfoldable pub redownload_payload : Download → Dict
redownload_payload d =
    ("source", str (codes "django_app"))
    ∷ ("url", url_of d)
    ∷ ("source_type", str d.source_type)
    ∷ ("source_name", str d.source_name)
    ∷ ("item_uid", value_of d.item_uid)
    ∷ ("item_id", value_of d.item_id)
    ∷ ("title", value_of d.title)
    ∷ (
      "media_type",
      str (if text_eq d.source_type (codes "podcast") then codes "audio" else codes "video"),
    )
    ∷ ("subtitles", bool true)
    ∷ ("redownload", bool true)
    ∷ []

-- f"download_single:{profile_id}:{item.pk}"
abbrev pub redownload_key : String → Download → Text
redownload_key profile d = codes "download_single" ++ (58 ∷ (codes profile ++ (58 ∷ decimal d.id)))

abbrev pub after_create : State → Db × Job → State
after_create s (db, job) = record s {
  db = db;
  published = s.published ++ publish_job db.rows (message_of job) ∷ [];
}

-- one turn of the loop, at its time
unfoldable pub redownload : ℕ → String → Download → State → State
unfolding redownload_payload
redownload now profile d s = after_create s (
    create_job now profile "download_single" (some (redownload_payload d))
      (some (redownload_key profile d)) s.db)

unfoldable pub redownload_all : ℕ → String → List Download → State → State
unfolding redownload
redownload_all now profile [] s = s
redownload_all now profile (d ∷ ds) s = redownload_all now profile ds (redownload now profile d s)

abbrev change_selected : (Download → Download) → String → List ℕ → State → State
change_selected f profile ids s = record s {
  downloads = update_where (is_selected profile ids) f s.downloads;
}

abbrev pub run_batch : ℕ → String → List ℕ → Batch → State → State
run_batch now profile ids played_rows s = change_selected (marked_played now) profile ids s
run_batch now profile ids unplayed_rows s = change_selected (marked_unplayed now) profile ids s
run_batch now profile ids favorite_rows s = change_selected (with_favorite true now) profile ids s
run_batch now profile ids unfavorite_rows s =
    change_selected (with_favorite false now) profile ids s
run_batch now profile ids delete_rows s = change_selected (without_file now) profile ids s
run_batch now profile ids purge_rows s = record s {
  downloads = keep (λ d. not (is_selected profile ids d)) s.downloads;
}
run_batch now profile ids download_rows s =
    redownload_all now profile (keep (is_selected profile ids) s.downloads) s
run_batch now profile ids other_rows s = s

unfoldable pub batch_update : ℕ → String → List Text → Form → State → State
unfolding batch_of redownload_all posted_source_ids strip
batch_update now profile values form s =
    run_batch now profile (posted_source_ids values) (batch_of (strip (field form "batch_action")))
      s
