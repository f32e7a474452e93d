-- ===== src/Library/Counts.antt =====
-- The numbers beside the filters of the library add up.
use getoffline.Base.{
  ◌+◌, String, Bool, true, false, not, ◌&&◌, ◌||◌, Bool-cases, inl, inr, List, [], ◌∷◌, ◌≡◌, refl,
  ap, ◌∙◌, arith, count, text_eq, text_eq→eq, codes, Text,
}
use getoffline.Domain.{downloaded, missing, retention_deleted}
use getoffline.Library.{Download}
use getoffline.Library.Queries.{Counts, library_filter_counts, is_in_library, has_status}

count_split :
    {A : Type 0} (p q r : A → Bool) (xs : List A)
    → ((x : A) → p x ≡ (q x || r x))
    → ((x : A) → (q x && r x) ≡ false)
    → count q xs + count r xs ≡ count p xs
count_split p q r [] h e = omega arith
count_split p q r (x ∷ xs) h e = ground (arith, h x, e x, count_split p q r xs h e)

abbrev is_downloaded : String → Download → Bool
is_downloaded profile d = is_in_library profile d && has_status downloaded d

abbrev is_gone : String → Download → Bool
is_gone profile d =
    is_in_library profile d && (has_status missing d || has_status retention_deleted d)

one_text : (t a b : Text) → text_eq a b ≡ false → (text_eq t a && text_eq t b) ≡ false
one_text t a b h = elim (Bool-cases (text_eq t a)) [
  | inl e ↦ rw (e, text_eq→eq t a e) h
  | inr e ↦ rw e refl
]

-- No text is two statuses.
statuses_are_apart :
    (d : Download)
    → ((has_status downloaded d && has_status missing d) ≡ false)
      × ((has_status downloaded d && has_status retention_deleted d) ≡ false)
      × ((has_status missing d && has_status retention_deleted d) ≡ false)
unfolding text_eq
statuses_are_apart d = (
  one_text d.download_status (codes "downloaded") (codes "missing") refl,
  one_text d.download_status (codes "downloaded") (codes "retention_deleted") refl,
  one_text d.download_status (codes "missing") (codes "retention_deleted") refl,
)

-- The numbers beside the filters add up: the played and the unplayed episodes are those downloaded, and
-- these, the missing and those removed by retention are all.
pub library_filter_counts_add_up :
    (profile : String) (rows : List Download)
    → let counts : Counts = library_filter_counts profile rows in
      (counts.unplayed + counts.played ≡ counts.downloaded)
      × (counts.downloaded + (counts.missing + counts.retention_deleted) ≡ counts.all)
unfolding library_filter_counts
library_filter_counts_add_up profile rows = (
  count_split (is_downloaded profile)
      (λ d. is_in_library profile d && (has_status downloaded d && not d.played))
      (λ d. is_in_library profile d && (has_status downloaded d && d.played)) rows
      (λ d. ground arith) (λ d. ground arith),
  ap (λ n. count (is_downloaded profile) rows + n)
        (count_split (is_gone profile) (λ d. is_in_library profile d && has_status missing d)
          (λ d. is_in_library profile d && has_status retention_deleted d) rows (λ d. ground arith)
          (λ d. ground (arith, (statuses_are_apart d).2)))
      ∙ count_split (λ d. is_in_library profile d && true) (is_downloaded profile) (is_gone profile)
          rows (λ d. ground arith)
          (λ d. ground (arith, (statuses_are_apart d).0, (statuses_are_apart d).1)),
)
