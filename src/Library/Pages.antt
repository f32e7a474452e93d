-- ===== src/Library/Pages.antt =====
-- The pages of the library, one after the other, are all of it.
use native.Mathlib.Nat.{lt-div-mul-add, suc-mul, zero-mul}
use getoffline.Base.{
  ℕ, zero, suc, ◌+◌, ◌-◌, ◌*◌, ◌/◌, ◌≤◌, ◌<◌, min, max, String, Bool, Option, List, [], ◌∷◌, ◌++◌,
  ◌≡◌, refl, sym, ap, ◌∙◌, subst, arith, take, drop, length, Text, ℤ, pos, Value,
}
use getoffline.Library.{Download}
use getoffline.Library.Queries.{matching, page_of, pages_of, size_of_page, paginated_downloads}

suc_add : (a s : ℕ) → suc a + s ≡ suc (a + s)
suc_add a s = omega arith

module _ {A : Type 0} where
  take_nil : (n : ℕ) → take {A = A} n [] ≡ []
  take_nil zero = refl
  take_nil (suc n) = refl

  take-add : (a s : ℕ) (xs : List A) → take (a + s) xs ≡ take a xs ++ take s (drop a xs)
  take-add zero s xs = ap (λ n. take n xs) (omega arith)
  take-add (suc a) s [] = take_nil (suc a + s) ∙ sym (take_nil s)
  take-add (suc a) s (x ∷ xs) =
      ap (λ n. take n (x ∷ xs)) (suc_add a s) ∙ ap (λ t. x ∷ t) (take-add a s xs)

  take_all : (n : ℕ) (xs : List A) → length xs ≤ n → take n xs ≡ xs
  take_all zero [] h = refl
  take_all zero (x ∷ xs) h = absurd (omega arith)
  take_all (suc n) [] h = refl
  take_all (suc n) (x ∷ xs) h = ap (λ t. x ∷ t) (take_all n xs (omega arith))

max-suc : (q : ℕ) → suc q ≡ max 1 (suc q)
max-suc q = omega arith

enough : (total size q : ℕ) → 1 ≤ size → total + size - 1 < q * size + size → total ≤ max 1 q * size
enough total size zero h lt = omega (arith, h, lt)
enough total size (suc q) h lt = subst (λ n. total ≤ n * size) (max-suc q) (omega (arith, h, lt))

length-take-le : {A : Type 0} (n : ℕ) (xs : List A) → length (take n xs) ≤ n
length-take-le zero xs = omega arith
length-take-le (suc n) [] = omega arith
length-take-le (suc n) (x ∷ xs) = omega (arith, length-take-le n xs)

pages_are_enough : (total size : ℕ) → 1 ≤ size → total ≤ pages_of total size * size
pages_are_enough total size h =
    enough total size ((total + size - 1) / size) h
      (lt-div-mul-add {a = total + size - 1} {b = size} h)

shown_lem : (k n : ℕ) → suc k ≤ n → min (suc k) n - 1 ≡ k
shown_lem k n h = omega arith

module _ (icontains : Text → Option Text → Bool) (size : ℕ) (sorted : List Download) where
  abbrev joined : ℕ → List Download
  joined zero = []
  joined (suc k) = joined k ++ page_of icontains (suc k) size sorted

  joined_lem : (k : ℕ) → k ≤ pages_of (length sorted) size → joined k ≡ take (k * size) sorted
  joined_lem zero h = ap (λ n. take n sorted) (sym (zero-mul size))
  joined_lem (suc k) h =
      let shown : min (suc k) (pages_of (length sorted) size) - 1 ≡ k =
        shown_lem k (pages_of (length sorted) size) h in
      ap (λ n. joined k ++ take size (drop (n * size) sorted)) shown
      ∙ ap (λ t. t ++ take size (drop (k * size) sorted)) (joined_lem k (omega (arith, h)))
      ∙ sym (take-add (k * size) size sorted)
      ∙ ap (λ n. take n sorted) (sym (suc-mul k size))

  joined_all : 1 ≤ size → joined (pages_of (length sorted) size) ≡ sorted
  joined_all h =
      joined_lem (pages_of (length sorted) size) (omega arith)
      ∙ take_all (pages_of (length sorted) size * size) sorted
          (pages_are_enough (length sorted) size h)

  page_is_short : (page : ℕ) → length (page_of icontains page size sorted) ≤ size
  page_is_short page = length-take-le size _

size_is_positive : (page_size : ℤ) → 1 ≤ size_of_page page_size
size_is_positive page_size = omega arith

module _ (icontains : Text → Option Text → Bool) (profile : String) (filter_mode : Value)
    (search : Text) (page_size : ℤ) (rows : List Download) where
  abbrev pub page : ℕ → List Download × ℕ
  page n = paginated_downloads icontains profile filter_mode search (pos n) page_size rows

  -- the first pages, one after the other
  abbrev pub first_pages : ℕ → List Download
  first_pages zero = []
  first_pages (suc k) = first_pages k ++ (page (suc k)).0

  first_pages_lem :
      (k : ℕ)
      → first_pages k
        ≡ joined icontains
            (size_of_page page_size)
            (matching icontains profile filter_mode search rows)
            k
  unfolding paginated_downloads
  first_pages_lem zero = refl
  first_pages_lem (suc k) =
      ap (λ t. t ++ (page (suc k)).0) (first_pages_lem k)
      ∙ ap
          (λ n.
            joined icontains (size_of_page page_size)
              (matching icontains profile filter_mode search rows) k
            ++ page_of icontains n (size_of_page page_size)
                (matching icontains profile filter_mode search rows))
          (sym (max-suc k))

  -- The pages of the library, one after the other, are the rows that match, in their order, each once, where
  -- the number of pages is that of the total which any page gives, and no page is longer than its size.
  pub pages_are_all :
      (n : ℕ)
      → (first_pages (pages_of (page n).1 (size_of_page page_size))
          ≡ matching icontains profile filter_mode search rows)
        × (length (page n).0 ≤ size_of_page page_size)
  unfolding paginated_downloads
  pages_are_all n = (
    first_pages_lem (
          pages_of (length (matching icontains profile filter_mode search rows))
            (size_of_page page_size))
        ∙ joined_all icontains (size_of_page page_size)
            (matching icontains profile filter_mode search rows) (size_is_positive page_size),
    page_is_short icontains (size_of_page page_size)
        (matching icontains profile filter_mode search rows) (max 1 n),
  )
