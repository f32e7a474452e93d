-- ===== src/Discovery/Scan.antt =====
-- `check_for_episodes` of src/workers/handlers.py: what a source offers and was never downloaded is
-- queued for download. The table of the downloads does not change during the check, and the time is
-- read once for each candidate.
use getoffline.Base.{
  ℕ, suc, Bool, true, false, not, ◌&&◌, ◌||◌, Option, none, some, List, [], ◌∷◌, ◌++◌, ◌==◌, any,
  keep, first, take, sort_by, leb, Text, text_eq, codes, decimal, is_empty, strip, pos, bool, int,
  str, Dict, Outcome, ok, err, if◌then◌else◌,
}
use getoffline.Domain.{SourceType, podcast}
use getoffline.Jobs.{Job, Db, is_queued, has_key_of, is_active_with, create_job}
use getoffline.Jobs.Stale.{make_stale_job_queued}
use getoffline.Library.{Source, Download}
use getoffline.Routing.{Message, Publication, publish_job}
use getoffline.Runner.Delivery.{is_before}
use getoffline.Discovery.{Candidate, text_or, source_config_type, source_limit}

-- _episode_was_downloaded: the tests on a row of the same source
abbrev is_of_source : Source → Download → Bool
is_of_source source d =
    d.profile_id == source.profile_id
    && text_eq d.source_type source.source_type
    && text_eq d.source_name source.name

abbrev names : Text → Option Text → Bool
names t column = not (is_empty t) && has_key_of t column

unfoldable pub episode_was_downloaded : List Download → Source → Text → Text → Text → Bool
episode_was_downloaded downloads source item_uid item_url title =
    any (λ d. is_of_source source d && names item_uid d.item_uid) downloads
    || any (λ d. is_of_source source d && names item_url d.item_url) downloads
    || any (λ d. is_of_source source d && names title d.title) downloads

-- _active_download_job
unfoldable pub active_download_job : Text → List Job → Option Job
unfolding sort_by
active_download_job key rows =
    first (λ j. true) (sort_by is_before (keep (is_active_with key) rows))

abbrev media_type_of : Option Text → Option SourceType → Text
media_type_of (some (c ∷ t)) source_type = c ∷ t
media_type_of _ (some podcast) = codes "audio"
media_type_of _ _ = codes "video"

-- the payload of the job for a candidate
unfoldable pub episode_payload : Source → ℕ → Candidate → Dict
episode_payload source limit c =
    ("source_id", int (pos source.id))
    ∷ ("source_type", str source.source_type)
    ∷ ("source_name", str source.name)
    ∷ ("source_url", str source.url)
    ∷ ("media_type", str (media_type_of source.media_type (source_config_type source)))
    ∷ ("source_max_downloads", int (pos limit))
    ∷ ("item_uid", str (take 255 c.item_uid))
    ∷ ("item_url", str c.item_url)
    ∷ ("media_url", str (text_or c.media_url c.item_url))
    ∷ ("title", str c.title)
    ∷ ("published", str c.published)
    ∷ ("subtitles", bool source.subtitles)
    ∷ ("subtitle_offset_seconds", source.subtitle_offset_seconds)
    ∷ ("delete_explicit_content", bool source.delete_explicit_content)
    ∷ ("include_shorts", bool source.include_shorts)
    ∷ ("include_livestreams", bool source.include_livestreams)
    ∷ []

-- The table, the messages published so far, and how many candidates count for the source.
pub record Scan : Type 0 where
  pub db : Db
  pub published : List Publication
  pub enqueued : ℕ

-- _publish_created_job
abbrev pub message_of : Job → Message
message_of job = record {
  job_id = job.id;
  job_type = job.job_type;
  profile_id = job.profile_id;
  attempt = 1;
  payload = none;
  priority = none;
}

abbrev pub publish : Job → Scan → Scan
publish job s = record s { published = s.published ++ publish_job s.db.rows (message_of job) ∷ [] }

abbrev pub counted : Scan → Scan
counted s = record s { enqueued = suc s.enqueued }

-- The object is queued after the reset if it was, or if it was reset. Its row was read from the same
-- table, so that the save finds it: the last case is never met.
abbrev pub after_reset : Job → Scan → Db × Outcome Bool → Scan
after_reset job s (db, ok reset) =
    if is_queued job.status || reset
    then counted (publish job (record s { db = db }))
    else counted (record s { db = db })
after_reset job s (db, err e) = s

abbrev pub after_create : Scan → Db × Job → Scan
after_create s (db, job) = counted (publish job (record s { db = db }))

-- A source of the check, with its candidates, its profile's limit and the times of its candidates.
pub record Offer : Type 0 where
  pub source : Source
  pub profile_default : Option Text
  pub candidates : List Candidate
  pub clock : ℕ → ℕ

module _ (sha1 : Text → Text) where
  -- `_idempotency_key("download_episode", profile_id, source.id, name)`
  unfoldable pub episode_key : Source → Text → Text
  unfolding decimal strip
  episode_key source name =
      let prefix =
        codes "download_episode" ++ (58 ∷ (codes source.profile_id ++ (58 ∷ decimal source.id))) in
      let parts =
        codes "download_episode"
        ++ (124 ∷ (codes source.profile_id ++ (124 ∷ (decimal source.id ++ (124 ∷ name))))) in
      take 255 (take 160 prefix ++ (58 ∷ sha1 (text_or (strip parts) (codes "unknown"))))

  abbrev pub key_for : Source → Candidate → Text
  key_for source c = episode_key source (text_or (take 255 c.item_uid) (text_or c.item_url c.title))

  -- One candidate, below the limit.
  unfoldable pub process_candidate : List Download → Text → ℕ → Source → ℕ → Candidate → Scan → Scan
  unfolding active_download_job episode_key episode_payload
  process_candidate downloads raw_timeout now source limit c s =
      if episode_was_downloaded downloads source (take 255 c.item_uid) c.item_url c.title
      then s
      else elim (active_download_job (key_for source c) s.db.rows) [
        | some job ↦ after_reset job s (make_stale_job_queued now now raw_timeout job s.db)
        | none ↦ after_create s (
            create_job now source.profile_id "download_episode"
              (some (episode_payload source limit c)) (some (key_for source c)) s.db)
      ]

  -- the loop over the candidates of a source, at the times `clock`
  unfoldable pub scan_candidates :
      List Download → Text → (ℕ → ℕ) → Source → ℕ → List Candidate → Scan → Scan
  scan_candidates downloads raw_timeout clock source limit [] s = s
  scan_candidates downloads raw_timeout clock source limit (c ∷ cs) s =
      elim (leb limit s.enqueued) [
        | true ↦ s
        | false ↦
            scan_candidates downloads raw_timeout (λ n. clock (suc n)) source limit cs
              (process_candidate downloads raw_timeout (clock 0) source limit c s)
      ]

  -- the loops over the profiles and their sources
  unfoldable pub check_for_episodes : List Download → Text → List Offer → Scan → Scan
  unfolding scan_candidates source_limit
  check_for_episodes downloads raw_timeout [] s = s
  check_for_episodes downloads raw_timeout (o ∷ offers) s =
      check_for_episodes downloads raw_timeout offers (
        scan_candidates downloads raw_timeout o.clock o.source
          (source_limit o.profile_default o.source) o.candidates (record s { enqueued = 0 }))
