-- ===== src/TitleFilter/Tests.antt =====
-- The theorems on the title filter at small inputs.
use getoffline.Base.{◌≡◌, refl, List, [], ◌∷◌, Text, codes, str, str_or_empty}
use getoffline.TitleFilter.{contains, split_title_filter_terms, title_matches_filter}
use getoffline.TitleFilter.Matching.{IsVerdict, title_matches_filter-IsVerdict}

abbrev same_text : Text → Text
same_text t = t

abbrev two_terms : List Text
two_terms = codes "live" ∷ codes "short" ∷ []

title_matches_filter-IsVerdict_example :
    IsVerdict
      (str_or_empty (str (codes "a short film")))
      two_terms
      (title_matches_filter same_text (str (codes "a short film")) two_terms)
title_matches_filter-IsVerdict_example =
    title_matches_filter-IsVerdict same_text (str (codes "a short film")) two_terms

two_terms_split : split_title_filter_terms same_text (str (codes "live,, short\n ,")) ≡ two_terms
unfolding split_title_filter_terms
two_terms_split = refl

short_matches :
    title_matches_filter same_text (str (codes "a short film")) two_terms ≡ codes "short"
unfolding title_matches_filter contains
short_matches = refl
