-- ===== src/Discovery.antt =====
-- src/workers/handlers.py: the episodes that a source offers. What yt-dlp extracts from a URL is a
-- parameter, the list of its entries; so are `urlparse`, the SHA-1 digest and the episodes of a podcast.
pub mod Limits
pub mod Scan
pub mod Sources
pub mod Active
pub mod Candidates
pub mod Again
mod Tests
use getoffline.Base.{
  ℕ, suc, ◌+◌, ◌-◌, String, Bool, true, false, not, ◌&&◌, ◌||◌, Option, none, some, List, [], ◌∷◌,
  ◌++◌, any, take, length, leb, nat_eq, Text, text_eq, codes, strip, lower, is_empty, is_digits,
  parse_int, ℤ, is_zero, at_least_one, Value, Dict, get, truthy, str, py_str, str_or_empty,
  if◌then◌else◌,
}
use getoffline.Domain.{SourceType, youtube, podcast, source_types, parse_str_enum}
use getoffline.Library.{Source}
use getoffline.TitleFilter.{starts_with, contains}

-- int(text) of a text of digits, at least 1
abbrev at_least_one_of : Option ℤ → ℕ
at_least_one_of none = 1
at_least_one_of (some z) = at_least_one z

-- `profile_default` is the profile's value of `max_downloads`; its digits are ASCII.
abbrev default_limit : Option Text → ℕ
default_limit none = 10
default_limit (some t) = if is_digits (strip t) then at_least_one_of (parse_int (strip t)) else 10

-- _source_limit
unfoldable pub source_limit : Option Text → Source → ℕ
unfolding parse_int strip
source_limit profile_default source = elim source.max_downloads [
  | none ↦ default_limit profile_default
  | some z ↦ if is_zero z then default_limit profile_default else at_least_one z
]

-- _source_config_type
abbrev pub source_config_type : Source → Option SourceType
source_config_type source = parse_str_enum source_types (str source.source_type)

-- _is_youtube_short_entry
unfoldable pub is_youtube_short_entry : Dict → Bool
unfolding contains str_or_empty
is_youtube_short_entry entry =
    any (λ key. contains (codes "/shorts/") (str_or_empty (get entry key)))
      ("webpage_url" ∷ "original_url" ∷ "url" ∷ "ie_key" ∷ [])

-- _YOUTUBE_LIVE_TITLE_MARKERS; the first is the red circle
abbrev live_title_markers : List Text
live_title_markers =
    (0x1F534 ∷ [])
    ∷ codes " live stream"
    ∷ codes " livestream"
    ∷ codes "| live"
    ∷ codes "- live"
    ∷ codes "[live]"
    ∷ codes "(live)"
    ∷ []

-- _youtube_title_looks_live; the text in lower case begins and ends with a space
unfoldable pub youtube_title_looks_live : Value → Bool
unfolding contains starts_with str_or_empty strip lower
youtube_title_looks_live title =
    let normalized = 32 ∷ (lower (strip (str_or_empty title)) ++ 32 ∷ []) in
    not (is_empty (strip normalized))
    && (any (λ marker. contains marker normalized) live_title_markers
        || text_eq (strip normalized) (codes "live")
        || starts_with (codes "live ") normalized)

-- _is_youtube_livestream_entry
unfoldable pub is_youtube_livestream_entry : Dict → Bool
unfolding youtube_title_looks_live str_or_empty strip lower
is_youtube_livestream_entry entry =
    let live_status = lower (strip (str_or_empty (get entry "live_status"))) in
    truthy (get entry "is_live")
    || any (λ s. text_eq live_status (codes s))
        ("is_live" ∷ "is_upcoming" ∷ "was_live" ∷ "post_live" ∷ [])
    || youtube_title_looks_live (get entry "title")

-- _youtube_source_skip_reason, as a test: the text of the reason is only logged
unfoldable pub is_skipped : Source → Dict → Bool
is_skipped source entry =
    (not source.include_livestreams && is_youtube_livestream_entry entry)
    || (not source.include_shorts && is_youtube_short_entry entry)

-- _is_youtube_video_url
unfoldable pub is_youtube_video_url : Text → Bool
unfolding contains lower
is_youtube_video_url url =
    let lowered = lower url in
    contains (codes "youtube.com/watch") lowered
    || contains (codes "youtu.be/") lowered
    || contains (codes "youtube.com/shorts/") lowered

-- a or b
abbrev pub text_or : Text → Text → Text
text_or [] b = b
text_or (c ∷ t) b = c ∷ t

abbrev watch_url : Text → Text
watch_url id = codes "https://www.youtube.com/watch?v=" ++ id

-- _youtube_video_url
unfoldable pub youtube_video_url : Dict → Text
unfolding is_youtube_video_url str_or_empty strip starts_with
youtube_video_url entry =
    let item_id = strip (str_or_empty (get entry "id")) in
    let webpage_url = strip (str_or_empty (get entry "webpage_url")) in
    let raw_url = strip (str_or_empty (get entry "url")) in
    if is_youtube_video_url webpage_url
    then webpage_url
    else if nat_eq (length item_id) 11
    then watch_url item_id
    else if nat_eq (length raw_url) 11 && not (starts_with (codes "http") raw_url)
    then watch_url raw_url
    else if is_youtube_video_url raw_url
    then raw_url
    else text_or webpage_url raw_url

-- The dictionary of a candidate.
pub record Candidate : Type 0 where
  pub item_uid : Text
  pub item_url : Text
  pub media_url : Text
  pub title : Text
  pub published : Text

-- str(a or b or "")
abbrev first_of : Value → Value → Text
first_of a b = if truthy a then py_str a else str_or_empty b

module _ (sha1 : Text → Text) where
  -- _fallback_uid
  unfoldable pub fallback_uid : Text → Text → Text
  unfolding strip
  fallback_uid a b = codes "generated:" ++ sha1 (text_or (strip (a ++ (124 ∷ b))) (codes "unknown"))

  -- The dictionary that `_youtube_candidate_from_entry` returns for an entry of a video.
  unfoldable pub candidate_of : Source → Dict → Candidate
  unfolding youtube_video_url fallback_uid str_or_empty strip py_str
  candidate_of source entry =
      let item_id = strip (str_or_empty (get entry "id")) in
      let item_url = youtube_video_url entry in
      let title = strip (
        text_or (str_or_empty (get entry "title"))
          (text_or item_url (codes "Untitled YouTube episode"))) in
      record {
        item_uid = take 255 (
            if nat_eq (length item_id) 11
            then item_id
            else text_or item_url (fallback_uid source.url title));
        item_url = item_url;
        media_url = item_url;
        title = title;
        published = first_of (get entry "upload_date") (get entry "timestamp");
      }

  unfoldable pub youtube_candidate_from_entry : Source → Dict → Option Candidate
  unfolding is_skipped candidate_of
  youtube_candidate_from_entry source entry =
      if is_skipped source entry || not (is_youtube_video_url (youtube_video_url entry))
      then none
      else some (candidate_of source entry)

  -- the inner loop of `_youtube_candidates`
  unfoldable pub nested_candidates : Source → ℕ → ℕ → List Dict → List Candidate
  nested_candidates source limit yielded [] = []
  nested_candidates source limit yielded (entry ∷ entries) = elim (leb limit yielded) [
    | true ↦ []
    | false ↦ elim (youtube_candidate_from_entry source entry) [
      | none ↦ nested_candidates source limit yielded entries
      | some c ↦ c ∷ nested_candidates source limit (suc yielded) entries
    ]
  ]

  module _ (entries_of : Text → ℕ → List Dict) where
    -- what a turn of the outer loop yields for an entry that is no candidate
    unfoldable pub drilled : Source → ℕ → ℕ → Dict → List Candidate
    unfolding nested_candidates
    drilled source limit yielded entry =
        let nested_url = youtube_video_url entry in
        if not (is_empty nested_url) && not (text_eq nested_url source.url)
        then nested_candidates source limit yielded (entries_of nested_url (limit - yielded))
        else []

    -- what a turn of the outer loop yields
    unfoldable pub yielded_for : Source → ℕ → ℕ → Dict → List Candidate
    unfolding drilled
    yielded_for source limit yielded entry =
        if is_skipped source entry then [] else elim (youtube_candidate_from_entry source entry) [
          | some c ↦ c ∷ []
          | none ↦ drilled source limit yielded entry
        ]

    -- the outer loop of `_youtube_candidates`
    unfoldable pub collect_candidates : Source → ℕ → ℕ → List Dict → List Candidate
    unfolding yielded_for
    collect_candidates source limit yielded [] = []
    collect_candidates source limit yielded (entry ∷ entries) =
        let found = yielded_for source limit yielded entry in
        let rest = collect_candidates source limit (yielded + length found) entries in
        if leb limit yielded then [] else found ++ rest

    unfoldable pub youtube_candidates : Option Text → Source → List Candidate
    unfolding collect_candidates source_limit
    youtube_candidates profile_default source =
        let limit = source_limit profile_default source in
        collect_candidates source limit 0 (entries_of source.url limit)

    abbrev candidates_of_type :
        (Source → List Candidate) → Option Text → Source → Option SourceType → List Candidate
    candidates_of_type podcasts profile_default source none = []
    candidates_of_type podcasts profile_default source (some podcast) = podcasts source
    candidates_of_type podcasts profile_default source (some youtube) =
        youtube_candidates profile_default source

    -- _candidates_for_source; `urlparse` gives the scheme and the network location
    unfoldable pub candidates_for_source :
        (Text → Text × Text) → (Source → List Candidate) → Option Text → Source → List Candidate
    unfolding youtube_candidates strip
    candidates_for_source urlparse podcasts profile_default source =
        let (scheme, netloc) = urlparse (strip source.url) in
        if not (text_eq scheme (codes "http") || text_eq scheme (codes "https")) || is_empty netloc
        then []
        else candidates_of_type podcasts profile_default source (source_config_type source)
