-- ===== src/Discovery/Sources.antt =====
-- Which sources `check_for_episodes` of src/workers/handlers.py asks, and in which order. The order of the
-- profiles is the database's, and a parameter.
use getoffline.Base.{
  ℕ, String, Bool, not, ◌&&◌, ◌||◌, Option, none, some, List, [], ◌∷◌, ◌++◌, ◌==◌, leb, leb_ℤ,
  first, keep, map, sort_by, Text, codes, text_eq, Dict,
}
use getoffline.Jobs.{Db}
use getoffline.Library.{Source, Download}
use getoffline.Settings.{ConfigRow}
use getoffline.Discovery.{Candidate, candidates_for_source}
use getoffline.Discovery.Scan.{Scan, Offer, check_for_episodes}

abbrev distinct : List String → List String
distinct [] = []
distinct (p ∷ profiles) = p ∷ keep (λ q. not (q == p)) (distinct profiles)

-- values_list("profile_id").distinct() of the enabled rows, in their order
unfoldable pub profile_ids : (String → String → Bool) → List Source → List String
unfolding sort_by
profile_ids is_before rows =
    distinct (sort_by is_before (map (λ s. s.profile_id) (keep (λ s. s.enabled) rows)))

-- order_by("position", "id")
abbrev has_place_before : Source → Source → Bool
has_place_before a b =
    not (leb_ℤ b.position a.position) || (leb_ℤ a.position b.position && leb a.id b.id)

abbrev sources_of_profile : List Source → String → List Source
sources_of_profile rows profile =
    sort_by has_place_before (keep (λ s. s.profile_id == profile && s.enabled) rows)

-- the sources of the outer loops, one after the other
unfoldable pub enabled_sources : (String → String → Bool) → List Source → List Source
unfolding profile_ids sort_by
enabled_sources is_before rows = join (profile_ids is_before rows)
  where
    join : List String → List Source
    join [] = []
    join (p ∷ profiles) = sources_of_profile rows p ++ join profiles

-- the query of `_source_limit` for the profile's own limit
unfoldable pub profile_default : List ConfigRow → String → Option Text
unfolding text_eq
profile_default configs profile =
    elim (first (λ row. row.profile_id == profile && text_eq row.key (codes "max_downloads"))
      configs) [ none ↦ none | some row ↦ some row.value ]

module _ (sha1 : Text → Text) (entries_of : Text → ℕ → List Dict) (urlparse : Text → Text × Text)
    (podcasts : Source → List Candidate) where
  -- a source with what it offers
  unfoldable pub offer_of : List ConfigRow → (Source → ℕ → ℕ) → Source → Offer
  unfolding profile_default candidates_for_source
  offer_of configs clock source =
      let own = profile_default configs source.profile_id in
      record {
        source = source;
        profile_default = own;
        candidates = candidates_for_source sha1 entries_of urlparse podcasts own source;
        clock = clock source;
      }

  -- The check over the tables, with nothing published so far.
  unfoldable pub check_sources :
      (String → String → Bool)
      → List Download
      → Text
      → List ConfigRow
      → (Source → ℕ → ℕ)
      → List Source
      → Db
      → Scan
  unfolding enabled_sources offer_of check_for_episodes
  check_sources is_before downloads raw_timeout configs clock rows db =
      check_for_episodes sha1 downloads raw_timeout
        (map (offer_of configs clock) (enabled_sources is_before rows))
        (record { db = db; published = []; enqueued = 0 })
