-- ===== src/Discovery/Tests.antt =====
-- The theorems on the discovery of episodes at small inputs.
use getoffline.Base.{
  ℕ, Bool, sort_by, ◌+◌, ◌≤◌, ◌≡◌, refl, true, false, none, some, List, [], ◌∷◌, length, All, Text,
  codes, pos, null, Dict, str, get, text_eq,
}
use getoffline.Library.{Source}
use getoffline.Discovery.{
  Candidate, source_limit, youtube_candidates, is_skipped, is_youtube_livestream_entry,
  is_youtube_short_entry, youtube_candidate_from_entry,
}
use getoffline.Jobs.{create_job}
use getoffline.Discovery.Limits.{IsVideo, youtube_candidates_within_limit}
use getoffline.Discovery.Scan.{
  Scan, Offer, episode_was_downloaded, process_candidate, scan_candidates, check_for_episodes,
}
use getoffline.Discovery.Sources.{profile_ids, enabled_sources}
use getoffline.Discovery.Again.{
  Covered, total_limit, scan_candidates-Covered, check_for_episodes_within_limits,
}

abbrev source : Source
source = record {
  id = 7;
  profile_id = "home";
  source_type = codes "youtube";
  position = pos 0;
  name = codes "news";
  url = codes "https://youtube.com/c/news";
  media_type = none;
  enabled = true;
  subtitles = true;
  subtitle_offset_seconds = null;
  max_downloads = some (pos 2);
  delete_explicit_content = false;
  include_shorts = false;
  include_livestreams = false;
  title_exclude = none;
  updated_at = 3;
}

abbrev digest : Text → Text
digest t = t

abbrev entry : Dict
entry = ("id", str (codes "abcdefghijk")) ∷ ("title", str (codes "A")) ∷ []

abbrev entries_of : Text → ℕ → List Dict
entries_of url n = entry ∷ entry ∷ entry ∷ []

youtube_candidates_within_limit_example :
    (length (youtube_candidates digest entries_of none source) ≤ source_limit none source)
    × All IsVideo (youtube_candidates digest entries_of none source)
youtube_candidates_within_limit_example =
    youtube_candidates_within_limit digest entries_of none source

offered : length (youtube_candidates digest entries_of none source) ≡ 2
unfolding youtube_candidates is_skipped is_youtube_livestream_entry get text_eq
    is_youtube_short_entry youtube_candidate_from_entry
offered = refl

abbrev candidate : Text → Candidate
candidate uid = record {
  item_uid = uid;
  item_url = codes "u";
  media_url = [];
  title = codes "t";
  published = [];
}

abbrev candidates : List Candidate
candidates =
    candidate (codes "a")
    ∷ candidate (codes "b")
    ∷ candidate (codes "a")
    ∷ candidate (codes "c")
    ∷ []

abbrev start : Scan
start = record { db = record { rows = []; next_id = 1 }; published = []; enqueued = 0 }

abbrev clock : ℕ → ℕ
clock n = 100 + n

scan_candidates-Covered_example :
    All
      (Covered digest [] [] source 2 (scan_candidates digest [] [] clock source 2 candidates start))
      candidates
scan_candidates-Covered_example =
    scan_candidates-Covered digest [] [] source 2 clock candidates start

abbrev offers : List Offer
offers =
    record { source = source; profile_default = none; candidates = candidates; clock = clock } ∷ []

abbrev checked : Scan
checked = check_for_episodes digest [] [] offers start

two_jobs : length checked.db.rows ≡ 2
unfolding check_for_episodes process_candidate episode_was_downloaded create_job text_eq
two_jobs = refl

check_for_episodes_within_limits_example : length checked.db.rows ≤ 0 + total_limit offers
check_for_episodes_within_limits_example =
    check_for_episodes_within_limits digest [] [] offers start

-- A source that is off is not asked, and the others come in the order of their positions.
abbrev placed : ℕ → ℕ → Bool → Source
placed id position enabled = record source { id = id; position = pos position; enabled = enabled }

asked_in_order :
    enabled_sources (λ a b. true) (placed 1 2 true ∷ placed 2 0 false ∷ placed 3 1 true ∷ [])
    ≡ placed 3 1 true ∷ placed 1 2 true ∷ []
unfolding enabled_sources profile_ids sort_by
asked_in_order = refl
