-- ===== src/Downloads/Tests.antt =====
-- A batch of downloads that queues two of them.
use getoffline.Base.{
  ℕ, ◌≡◌, refl, false, none, some, List, [], ◌∷◌, keep, All, Text, codes, text_eq, strip,
  if◌then◌else◌,
}
use getoffline.Library.{Download}
use getoffline.Actions.{Form, field}
use getoffline.Sources.Edits.{posted_source_ids}
use getoffline.Discovery.Active.{HasActive}
use getoffline.Downloads.{State, batch_of, is_selected, batch_update, download_rows}
use getoffline.Downloads.Selected.{
  is_left, own_key, batch_update_leaves_others, batch_download_queues,
}

abbrev download : ℕ → Download
download id = record {
  id = id;
  profile_id = "home";
  source_type = codes "podcast";
  source_name = codes "news";
  source_url = none;
  item_uid = none;
  item_id = none;
  item_url = none;
  media_url = none;
  title = none;
  file_path = none;
  file_ext = none;
  subtitle_path = none;
  subtitle_path_relative = none;
  download_status = codes "missing";
  played = false;
  favorite = false;
  played_at = none;
  last_seen_at = id;
}

abbrev before : State
before = record {
  downloads = download 1 ∷ download 2 ∷ download 3 ∷ [];
  db = record { rows = []; next_id = 1 };
  published = [];
}

abbrev form : Form
form key = if text_eq key (codes "batch_action") then some (codes "download") else none

abbrev values : List Text
values = codes "1" ∷ codes "3" ∷ []

is_download : batch_of (strip (field form "batch_action")) ≡ download_rows
unfolding batch_of strip text_eq
is_download = refl

batch_update_leaves_others_example :
    keep
      (is_left "home" (posted_source_ids values))
      (batch_update 7 "home" values form before).downloads
    ≡ keep (is_left "home" (posted_source_ids values)) before.downloads
batch_update_leaves_others_example = batch_update_leaves_others 7 "home" values form before

batch_download_queues_example :
    All
      (λ d. HasActive (own_key "home" d) (batch_update 7 "home" values form before).db.rows)
      (keep (is_selected "home" (posted_source_ids values)) before.downloads)
batch_download_queues_example = batch_download_queues 7 "home" values form before is_download
