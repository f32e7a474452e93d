-- ===== src/TitleFilter/Matching.antt =====
-- Which titles a list of terms excludes.
use getoffline.Base.{
  Bool, true, false, not, ◌&&◌, Bool-cases, List, [], ◌∷◌, map, keep, any, All, ◌≡◌, refl, arith,
  ◌⊎◌, subst, sym, inl, inr, Text, is_empty, strip, Value, str_or_empty,
}
use getoffline.TitleFilter.{
  split_runs, contains, first_match, is_term, split_title_filter_terms, title_matches_filter,
}

-- The term is one, and stands in the title.
abbrev pub excludes : Text → Text → Bool
excludes title term = not (is_empty term) && contains term title

abbrev pub IsMember : Text → List Text → Type 0
IsMember term [] = ⊥
IsMember term (t ∷ terms) = (t ≡ term) ⊎ IsMember term terms

-- What a match says of the title: no term stands in it, or the match is one that does.
abbrev pub IsVerdict : Text → List Text → Text → Type 0
IsVerdict title terms match =
    ((match ≡ []) × (any (excludes title) terms ≡ false))
    ⊎ (IsMember match terms × (excludes title match ≡ true))

widen :
    (title t match : Text) (terms : List Text)
    → excludes title t ≡ false
    → IsVerdict title terms match
    → IsVerdict title (t ∷ terms) match
widen title t match terms h (inl (e, none_in)) = inl (e, ground arith)
widen title t match terms h (inr (m, e)) = inr (inr m, e)

step_found :
    (title t : Text) (terms : List Text)
    → excludes title t ≡ true
    → first_match title (t ∷ terms) ≡ t
unfolding first_match
step_found title t terms h = rw h refl

step_on :
    (title t : Text) (terms : List Text)
    → excludes title t ≡ false
    → first_match title (t ∷ terms) ≡ first_match title terms
unfolding first_match
step_on title t terms h = rw h refl

first_match-IsVerdict :
    (title : Text) (terms : List Text) → IsVerdict title terms (first_match title terms)
unfolding first_match
first_match-IsVerdict title [] = inl (refl, refl)
first_match-IsVerdict title (t ∷ terms) = elim (Bool-cases (excludes title t)) [
  | inl h ↦
      subst (λ m. IsVerdict title (t ∷ terms) m) (sym (step_found title t terms h))
        (inr (inl refl, h))
  | inr h ↦
      subst (λ m. IsVerdict title (t ∷ terms) m) (sym (step_on title t terms h))
        (widen title t (first_match title terms) terms h (first_match-IsVerdict title terms))
]

contains_in_empty : (title t : Text) → is_empty title ≡ true → excludes title t ≡ false
unfolding contains
contains_in_empty [] [] h = refl
contains_in_empty [] (c ∷ t) h = refl
contains_in_empty (d ∷ title) t h = cc

empty_title :
    (title : Text) (terms : List Text) → is_empty title ≡ true → any (excludes title) terms ≡ false
empty_title title [] h = refl
empty_title title (t ∷ terms) h =
    ground (arith, contains_in_empty title t h, empty_title title terms h)

module _ (casefold : Text → Text) where
  -- The match of a title is a term that stands in the folded title, or empty just where no term that
  -- has a character stands in it, the empty title included.
  pub title_matches_filter-IsVerdict :
      (title : Value) (terms : List Text)
      → IsVerdict (casefold (str_or_empty title)) terms (title_matches_filter casefold title terms)
  unfolding title_matches_filter
  title_matches_filter-IsVerdict title terms =
      elim (Bool-cases (is_empty (casefold (str_or_empty title)))) [
        | inl e ↦ rw e (inl (refl, empty_title (casefold (str_or_empty title)) terms e))
        | inr e ↦ rw e (first_match-IsVerdict (casefold (str_or_empty title)) terms)
      ]

  folded_terms :
      (folds : (t : Text) → is_empty (casefold t) ≡ is_empty t) (pieces : List Text)
      → All (λ t. is_empty t ≡ false) (map (λ p. casefold (strip p)) (keep is_term pieces))
  folded_terms folds [] = tt
  folded_terms folds (p ∷ pieces) = elim (Bool-cases (is_term p)) [
    | inl h ↦ rw h (ground (arith, folds (strip p)), folded_terms folds pieces)
    | inr h ↦ rw h (folded_terms folds pieces)
  ]

  -- If folding makes no text empty, then each term that is split off a configured text, whatever
  -- that is, has a character.
  pub split_title_filter_terms_lem :
      ((t : Text) → is_empty (casefold t) ≡ is_empty t)
      → (value : Value) → All (λ t. is_empty t ≡ false) (split_title_filter_terms casefold value)
  unfolding split_title_filter_terms
  split_title_filter_terms_lem folds value =
      folded_terms folds ((split_runs (str_or_empty value)).0 ∷ (split_runs (str_or_empty value)).1)
