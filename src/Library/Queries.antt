-- ===== src/Library/Queries.antt =====
-- src/api/services/library.py: the episodes that a library page shows. What `icontains` and `iexact` match
-- is up to the database, and is a parameter. The table has its rows in the order of their keys.
use getoffline.Base.{
  ℕ, ◌+◌, ◌-◌, ◌*◌, ◌/◌, min, max, String, Bool, true, false, not, ◌&&◌, ◌||◌, Option, none, some,
  List, ◌==◌, nat_eq, leb, ltb, count, keep, first, sort_by, take, drop, length, Text, codes,
  text_eq, is_empty, strip, lower, ℤ, at_least_one, pos_part, Value, truthy, py_str, if◌then◌else◌,
}
use getoffline.Domain.{
  DownloadStatus, downloaded, missing, retention_deleted, download_status_value,
}
use getoffline.Library.{Download}

abbrev pub has_status : DownloadStatus → Download → Bool
has_status status d = text_eq d.download_status (codes (download_status_value status))

-- library_download_query
abbrev pub is_in_library : String → Download → Bool
is_in_library profile d =
    d.profile_id == profile
    && (has_status downloaded d || has_status missing d || has_status retention_deleted d)

pub data FilterMode : Type 0 where
  all unplayed played favorites : FilterMode

abbrev text_or_unplayed : Value → Text
text_or_unplayed v = if truthy v then py_str v else codes "unplayed"

-- normalize_library_filter
unfoldable pub normalize_library_filter : Value → FilterMode
unfolding py_str strip lower text_eq
normalize_library_filter v =
    let mode = lower (strip (text_or_unplayed v)) in
    if text_eq mode (codes "all")
    then all
    else if text_eq mode (codes "played")
    then played
    else if text_eq mode (codes "favorites")
    then favorites
    else unplayed

abbrev pub passes : FilterMode → Download → Bool
passes all d = true
passes unplayed d = not d.played && has_status downloaded d
passes played d = d.played && has_status downloaded d
passes favorites d = d.favorite && has_status downloaded d

-- order_by("-last_seen_at", "-id")
abbrev pub is_more_recent : Download → Download → Bool
is_more_recent a b =
    ltb b.last_seen_at a.last_seen_at || (nat_eq a.last_seen_at b.last_seen_at && leb b.id a.id)

abbrev library_preview_limit : ℕ
library_preview_limit = 100

abbrev is_all : FilterMode → Bool
is_all all = true
is_all _ = false

-- list_downloads; `show_all` is whether the argument is True
unfoldable pub list_downloads : String → Value → Bool → List Download → List Download
unfolding normalize_library_filter sort_by
list_downloads profile filter_mode show_all rows =
    let mode = if show_all then all else normalize_library_filter filter_mode in
    let sorted =
      sort_by is_more_recent (keep (λ d. is_in_library profile d && passes mode d) rows) in
    if is_all mode then sorted else take library_preview_limit sorted

abbrev pub library_page_size : ℕ
library_page_size = 100

-- max(1, min(int(page_size), LIBRARY_PAGE_SIZE))
abbrev pub size_of_page : ℤ → ℕ
size_of_page page_size = max 1 (min (pos_part page_size) library_page_size)

abbrev pub pages_of : ℕ → ℕ → ℕ
pages_of total size = max 1 ((total + size - 1) / size)

module _ (icontains : Text → Option Text → Bool) where
  abbrev finds : Text → Download → Bool
  finds search d =
      is_empty search || (icontains search d.title || icontains search (some d.source_name))

  -- the rows of all pages
  unfoldable pub matching : String → Value → Text → List Download → List Download
  unfolding normalize_library_filter strip sort_by
  matching profile filter_mode search_term rows = sort_by is_more_recent (
      keep
        (λ d.
          is_in_library profile d
          && passes (normalize_library_filter filter_mode) d
          && finds (strip search_term) d)
        rows)

  -- a page of the rows, and their number; the page is clamped to those that there are
  abbrev pub page_of : ℕ → ℕ → List Download → List Download
  page_of page size sorted =
      let shown = min page (pages_of (length sorted) size) in
      take size (drop ((shown - 1) * size) sorted)

  unfoldable pub paginated_downloads :
      String → Value → Text → ℤ → ℤ → List Download → List Download × ℕ
  unfolding matching
  paginated_downloads profile filter_mode search_term page page_size rows =
      let sorted = matching profile filter_mode search_term rows in
      (page_of (at_least_one page) (size_of_page page_size) sorted, length sorted)

-- strictly after the current one in the order of the library
abbrev pub is_older : Download → Download → Bool
is_older current d =
    ltb d.last_seen_at current.last_seen_at
    || (nat_eq d.last_seen_at current.last_seen_at && ltb d.id current.id)

module _ (is_pdf : Download → Bool) where
  abbrev pub is_playable : String → Download → Bool
  is_playable profile d = is_in_library profile d && has_status downloaded d && not (is_pdf d)

  unfoldable pub next_library_download : String → ℕ → List Download → Option Download
  unfolding sort_by
  next_library_download profile id rows =
      elim (first (λ d. nat_eq d.id id && d.profile_id == profile) rows) [
        | none ↦ none
        | some current ↦
            first (λ d. true)
              (sort_by is_more_recent
                (keep (λ d. is_playable profile d && is_older current d) rows))
      ]

pub record Counts : Type 0 where
  pub all : ℕ
  pub downloaded : ℕ
  pub unplayed : ℕ
  pub played : ℕ
  pub favorites : ℕ
  pub missing : ℕ
  pub retention_deleted : ℕ

-- library_filter_counts
unfoldable pub library_filter_counts : String → List Download → Counts
library_filter_counts profile rows =
    let count_of : (Download → Bool) → ℕ = λ p. count (λ d. is_in_library profile d && p d) rows in
    record {
      all = count_of (λ d. true);
      downloaded = count_of (has_status DownloadStatus.downloaded);
      unplayed = count_of (λ d. has_status DownloadStatus.downloaded d && not d.played);
      played = count_of (λ d. has_status DownloadStatus.downloaded d && d.played);
      favorites = count_of (λ d. has_status DownloadStatus.downloaded d && d.favorite);
      missing = count_of (has_status DownloadStatus.missing);
      retention_deleted = count_of (has_status DownloadStatus.retention_deleted);
    }
