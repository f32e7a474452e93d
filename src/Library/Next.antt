-- ===== src/Library/Next.antt =====
-- The episode that is played next.
use getoffline.Base.{
  ℕ, String, Bool, true, false, not, ◌&&◌, ◌||◌, Bool-cases, Option, none, some, inl, inr, List, [],
  ◌∷◌, ◌==◌, ◌≡◌, refl, sym, subst, arith, keep_passes, any, first, keep, sort_by, insert_by,
  nat_eq, All, All-sort_by, All-weaken, if◌then◌else◌,
}
use getoffline.Library.{Download}
use getoffline.Library.Queries.{is_more_recent, is_older, is_playable, next_library_download}

module _ {A : Type 0} where
  some_injective : {a b : A} → some a ≡ some b → a ≡ b
  some_injective {a = a} {b = b} h = cc

  All-insert_by_inv :
      (P : A → Type 0) (le : A → A → Bool) (a : A) (xs : List A)
      → All P (insert_by le a xs)
      → P a × All P xs
  unfolding insert_by
  All-insert_by_inv P le a [] h = h
  All-insert_by_inv P le a (b ∷ xs) h = elim (Bool-cases (le a b)) [
    | inl e ↦ subst (λ t. All P (if t then a ∷ b ∷ xs else b ∷ insert_by le a xs)) e h
    | inr e ↦
        let k : All P (b ∷ insert_by le a xs) =
          subst (λ t. All P (if t then a ∷ b ∷ xs else b ∷ insert_by le a xs)) e h in
        let (pa, rest) = All-insert_by_inv P le a xs k.1 in (pa, (k.0, rest))
  ]

  All-sort_by_inv :
      (P : A → Type 0) (le : A → A → Bool) (xs : List A) → All P (sort_by le xs) → All P xs
  unfolding sort_by
  All-sort_by_inv P le [] h = tt
  All-sort_by_inv P le (a ∷ xs) h =
      let (pa, rest) = All-insert_by_inv P le a (sort_by le xs) h in
      (pa, All-sort_by_inv P le xs rest)

  All-keep_inv :
      (P : A → Type 0) (p : A → Bool) (xs : List A)
      → All P (keep p xs)
      → All (λ x. p x ≡ true → P x) xs
  All-keep_inv P p [] h = tt
  All-keep_inv P p (x ∷ xs) h = elim (Bool-cases (p x)) [
    | inl e ↦
        let k : All P (x ∷ keep p xs) =
          subst (λ t. All P (if t then x ∷ keep p xs else keep p xs)) e h in
        (λ _. k.0, All-keep_inv P p xs k.1)
    | inr e ↦
        let k : All P (keep p xs) =
          subst (λ t. All P (if t then x ∷ keep p xs else keep p xs)) e h in
        ((λ t. absurd (ground arith)), All-keep_inv P p xs k)
  ]

  head_of-All :
      (P : A → Type 0) (xs : List A) (x : A) → first (λ _. true) xs ≡ some x → All P xs → P x
  head_of-All P [] x h a = cc
  head_of-All P (y ∷ xs) x h a = subst P (some_injective h) a.0

insert_not_empty :
    {A : Type 0} (le : A → A → Bool) (a : A) (xs : List A)
    → first (λ _. true) (insert_by le a xs) ≡ none
    → ⊥
unfolding insert_by
insert_not_empty le a [] h = ground arith
insert_not_empty le a (b ∷ xs) h = ground arith

any_of_empty_sort :
    {A : Type 0} (le : A → A → Bool) (p : A → Bool) (xs : List A)
    → first (λ _. true) (sort_by le (keep p xs)) ≡ none
    → any p xs ≡ false
unfolding sort_by
any_of_empty_sort le p [] h = refl
any_of_empty_sort le p (x ∷ xs) h = elim (Bool-cases (p x)) [
  | inl e ↦ absurd (
      insert_not_empty le x (sort_by le (keep p xs)) (
        subst (λ t. first (λ _. true) (sort_by le (if t then x ∷ keep p xs else keep p xs)) ≡ none)
          e h))
  | inr e ↦ rw e (
      any_of_empty_sort le p xs (
        subst (λ t. first (λ _. true) (sort_by le (if t then x ∷ keep p xs else keep p xs)) ≡ none)
          e h))
]

module _ {A : Type 0} (le : A → A → Bool) (total : (a b : A) → le a b ≡ false → le b a ≡ true)
    (trans : (a b c : A) → le a b ≡ true → le b c ≡ true → le a c ≡ true) where
  abbrev IsLeast : A → List A → Type 0
  IsLeast a xs = All (λ b. le a b ≡ true) xs

  -- The first item of a list comes before all others.
  abbrev HasLeastFirst : List A → Type 0
  HasLeastFirst [] = Unit
  HasLeastFirst (x ∷ xs) = IsLeast x xs

  insert-IsLeast :
      (c a : A) (xs : List A) → le c a ≡ true → IsLeast c xs → IsLeast c (insert_by le a xs)
  unfolding insert_by
  insert-IsLeast c a [] h l = (h, tt)
  insert-IsLeast c a (b ∷ xs) h l = elim (Bool-cases (le a b)) [
    | inl e ↦ rw e (h, (l.0, l.1))
    | inr e ↦ rw e (l.0, insert-IsLeast c a xs h l.1)
  ]

  insert-HasLeastFirst :
      (a : A) (xs : List A) → HasLeastFirst xs → HasLeastFirst (insert_by le a xs)
  unfolding insert_by
  insert-HasLeastFirst a [] h = tt
  insert-HasLeastFirst a (b ∷ xs) h = elim (Bool-cases (le a b)) [
    | inl e ↦
        rw e (e, All-weaken (λ c. le b c ≡ true) (λ c. le a c ≡ true) (λ c. trans a b c e) xs h)
    | inr e ↦ rw e (insert-IsLeast b a xs (total a b e) h)
  ]

  sort-HasLeastFirst : (xs : List A) → HasLeastFirst (sort_by le xs)
  unfolding sort_by
  sort-HasLeastFirst [] = tt
  sort-HasLeastFirst (a ∷ xs) = insert-HasLeastFirst a (sort_by le xs) (sort-HasLeastFirst xs)

  reflexive : (a : A) → le a a ≡ true
  reflexive a = elim (Bool-cases (le a a)) [ inl e ↦ e | inr e ↦ total a a e ]

  IsLeast-first :
      (ys : List A) (d : A) → first (λ _. true) ys ≡ some d → HasLeastFirst ys → IsLeast d ys
  IsLeast-first [] d h l = cc
  IsLeast-first (y ∷ ys) d h l = subst (λ c. IsLeast c (y ∷ ys)) (some_injective h) (reflexive y, l)

  -- The first item of a sorted list comes before each item of the list that was sorted.
  first-IsLeast : (xs : List A) (d : A) → first (λ _. true) (sort_by le xs) ≡ some d → IsLeast d xs
  first-IsLeast xs d h =
      All-sort_by_inv (λ b. le d b ≡ true) le xs
        (IsLeast-first (sort_by le xs) d h (sort-HasLeastFirst xs))

or_of_implies : (a b : Bool) → (a ≡ true → b ≡ true) → (not a || b) ≡ true
or_of_implies true b h = h refl
or_of_implies false b h = refl

recent_total : (a b : Download) → is_more_recent a b ≡ false → is_more_recent b a ≡ true
recent_total a b h = ground arith

recent_trans :
    (a b c : Download)
    → is_more_recent a b ≡ true
    → is_more_recent b c ≡ true
    → is_more_recent a c ≡ true
recent_trans a b c h k = ground arith

module _ (is_pdf : Download → Bool) (profile : String) (id : ℕ) (rows : List Download)
    (current : Download) where
  -- an episode of the library that may follow the current one
  abbrev pub follows : Download → Bool
  follows d = is_playable is_pdf profile d && is_older current d

  next_of_current :
      first (λ d. nat_eq d.id id && d.profile_id == profile) rows ≡ some current
      → next_library_download is_pdf profile id rows
        ≡ first (λ _. true) (sort_by is_more_recent (keep follows rows))
  unfolding next_library_download
  next_of_current found = rw (found, next_library_download) refl

  -- What the next episode is: one that follows, and every other that follows comes after it; if there is
  -- none, no episode follows.
  abbrev pub IsNext : Option Download → Type 0
  IsNext none = any follows rows ≡ false
  IsNext (some d) =
      (follows d ≡ true) × All (λ x. (not (follows x) || is_more_recent d x) ≡ true) rows

  first-IsNext :
      (next : Option Download)
      → first (λ _. true) (sort_by is_more_recent (keep follows rows)) ≡ next
      → IsNext next
  first-IsNext none h = any_of_empty_sort is_more_recent follows rows h
  first-IsNext (some d) h = (
    head_of-All (λ x. follows x ≡ true) (sort_by is_more_recent (keep follows rows)) d h
        (All-sort_by (λ x. follows x ≡ true) is_more_recent (keep follows rows)
          (keep_passes follows rows)),
    All-weaken (λ x. follows x ≡ true → is_more_recent d x ≡ true)
        (λ x. (not (follows x) || is_more_recent d x) ≡ true)
        (λ x f. or_of_implies (follows x) (is_more_recent d x) f) rows
        (All-keep_inv (λ x. is_more_recent d x ≡ true) follows rows
          (first-IsLeast is_more_recent recent_total recent_trans (keep follows rows) d h)),
  )

  -- The next episode after one of the profile is one of the library that can be played and comes after it,
  -- and no other such episode comes before it; there is no next episode only if no episode is such.
  pub next_library_download-IsNext :
      first (λ d. nat_eq d.id id && d.profile_id == profile) rows ≡ some current
      → IsNext (next_library_download is_pdf profile id rows)
  next_library_download-IsNext found =
      first-IsNext (next_library_download is_pdf profile id rows) (sym (next_of_current found))
