-- ===== src/TitleFilter.antt =====
-- src/workers/utils.py: the terms that exclude a title. `str.casefold` is a parameter.
pub mod Matching
mod Tests
use getoffline.Base.{
  ℕ, Bool, true, false, not, ◌&&◌, ◌||◌, List, [], ◌∷◌, map, keep, nat_eq, Text, is_empty, strip,
  Value, str_or_empty, if◌then◌else◌,
}

-- [,\n\r]
abbrev pub is_separator : ℕ → Bool
is_separator c = nat_eq c 44 || nat_eq c 10 || nat_eq c 13

abbrev starts_with_separator : Text → Bool
starts_with_separator [] = false
starts_with_separator (c ∷ t) = is_separator c

-- re.split(r"[,\n\r]+", raw): the first piece and the others; a run of separators is one cut
unfoldable pub split_runs : Text → Text × List Text
split_runs [] = ([], [])
split_runs (c ∷ t) =
    let (piece, pieces) = split_runs t in
    if is_separator c
    then (if starts_with_separator t then (piece, pieces) else ([], piece ∷ pieces))
    else (c ∷ piece, pieces)

abbrev is_term : Text → Bool
is_term piece = not (is_empty (strip piece))

-- text.startswith(term), and term in text
unfoldable pub starts_with : Text → Text → Bool
starts_with [] text = true
starts_with (c ∷ term) [] = false
starts_with (c ∷ term) (d ∷ text) = nat_eq c d && starts_with term text

unfoldable pub contains : Text → Text → Bool
unfolding starts_with
contains term [] = is_empty term
contains term (c ∷ text) = starts_with term (c ∷ text) || contains term text

-- the loop of `title_matches_filter`
unfoldable pub first_match : Text → List Text → Text
first_match title [] = []
first_match title (term ∷ terms) =
    if not (is_empty term) && contains term title then term else first_match title terms

module _ (casefold : Text → Text) where
  unfoldable pub split_title_filter_terms : Value → List Text
  unfolding split_runs strip str_or_empty
  split_title_filter_terms value =
      let (piece, pieces) = split_runs (str_or_empty value) in
      map (λ p. casefold (strip p)) (keep is_term (piece ∷ pieces))

  unfoldable pub title_matches_filter : Value → List Text → Text
  unfolding first_match str_or_empty
  title_matches_filter title terms =
      let normalized_title = casefold (str_or_empty title) in
      if is_empty normalized_title then [] else first_match normalized_title terms
