-- ===== src/Library/Tests.antt =====
-- The theorems on the library at small inputs.
use getoffline.Base.{
  ℕ, ◌+◌, ◌≤◌, ◌≡◌, refl, Bool, true, false, Option, none, some, List, [], ◌∷◌, length, Text, codes,
  pos, null, text_eq, sort_by,
}
use getoffline.Library.{Download}
use getoffline.Library.Queries.{
  matching, pages_of, size_of_page, library_filter_counts, next_library_download,
}
use getoffline.Library.Pages.{page, first_pages, pages_are_all}
use getoffline.Library.Counts.{library_filter_counts_add_up}
use getoffline.Library.Next.{IsNext, next_library_download-IsNext}

abbrev download : ℕ → ℕ → Bool → Download
download id seen played = record {
  id = id;
  profile_id = "home";
  source_type = codes "podcast";
  source_name = codes "news";
  source_url = none;
  item_uid = none;
  item_id = none;
  item_url = none;
  media_url = none;
  title = none;
  file_path = none;
  file_ext = none;
  subtitle_path = none;
  subtitle_path_relative = none;
  download_status = codes "downloaded";
  played = played;
  favorite = false;
  played_at = none;
  last_seen_at = seen;
}

abbrev rows : List Download
rows = download 1 10 false ∷ download 2 30 true ∷ download 3 20 false ∷ []

abbrev icontains : Text → Option Text → Bool
icontains t column = true

abbrev is_pdf : Download → Bool
is_pdf d = false

pages_are_all_example :
    (first_pages icontains "home" null []
        (pos 1)
        rows
        (pages_of (page icontains "home" null [] (pos 1) rows 2).1 (size_of_page (pos 1)))
      ≡ matching icontains "home" null [] rows)
    × (length (page icontains "home" null [] (pos 1) rows 2).0 ≤ size_of_page (pos 1))
pages_are_all_example = pages_are_all icontains "home" null [] (pos 1) rows 2

library_filter_counts_add_up_example :
    ((library_filter_counts "home" rows).unplayed + (library_filter_counts "home" rows).played
      ≡ (library_filter_counts "home" rows).downloaded)
    × ((library_filter_counts "home" rows).downloaded
          + ((library_filter_counts "home" rows).missing
              + (library_filter_counts "home" rows).retention_deleted)
        ≡ (library_filter_counts "home" rows).all)
library_filter_counts_add_up_example = library_filter_counts_add_up "home" rows

next_library_download-IsNext_example :
    IsNext is_pdf "home" 2 rows (download 2 30 true) (next_library_download is_pdf "home" 2 rows)
next_library_download-IsNext_example =
    next_library_download-IsNext is_pdf "home" 2 rows (download 2 30 true) refl

third_is_next : next_library_download is_pdf "home" 2 rows ≡ some (download 3 20 false)
unfolding next_library_download sort_by text_eq
third_is_next = refl
