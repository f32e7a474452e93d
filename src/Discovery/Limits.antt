-- ===== src/Discovery/Limits.antt =====
-- How many episodes a YouTube source offers, and of which kind.
use getoffline.Base.{
  ℕ, suc, ◌+◌, ◌-◌, ◌≤◌, true, not, ◌||◌, Bool-cases, Option, some, Option-cases, inl, inr, List,
  [], ◌∷◌, length, length-append, leb, All, All-append, ◌≡◌, arith, Text, Dict,
}
use getoffline.Library.{Source}
use getoffline.Discovery.{
  Candidate, is_youtube_video_url, is_skipped, youtube_video_url, source_limit, candidate_of,
  youtube_candidate_from_entry, nested_candidates, drilled, yielded_for, collect_candidates,
  youtube_candidates,
}

abbrev pub IsVideo : Candidate → Type 0
IsVideo c = is_youtube_video_url c.item_url ≡ true

module _ (sha1 : Text → Text) (source : Source) (limit : ℕ) where
  nested-le :
      (yielded : ℕ) (entries : List Dict)
      → yielded ≤ limit
      → yielded + length (nested_candidates sha1 source limit yielded entries) ≤ limit
  unfolding nested_candidates
  nested-le yielded [] h = ground arith
  nested-le yielded (e ∷ entries) h = elim (Bool-cases (leb limit yielded)) [
    | inl full ↦ rw (full, nested_candidates) (ground arith)
    | inr more ↦ elim (Option-cases (youtube_candidate_from_entry sha1 source e)) [
      | inl n ↦ rw (more, n, nested_candidates) (nested-le yielded entries h)
      | inr (c, n) ↦
          rw (more, n, nested_candidates)
            (omega (arith, nested-le (suc yielded) entries (ground arith)))
    ]
  ]

  candidate_IsVideo :
      (e : Dict) (c : Candidate) → youtube_candidate_from_entry sha1 source e ≡ some c → IsVideo c
  unfolding youtube_candidate_from_entry candidate_of
  candidate_IsVideo e c h =
      elim (Bool-cases (is_skipped source e || not (is_youtube_video_url (youtube_video_url e)))) [
        | inl n ↦ ground arith
        | inr y ↦ ground arith
      ]

  nested-IsVideo :
      (yielded : ℕ) (entries : List Dict)
      → All IsVideo (nested_candidates sha1 source limit yielded entries)
  unfolding nested_candidates
  nested-IsVideo yielded [] = tt
  nested-IsVideo yielded (e ∷ entries) = elim (Bool-cases (leb limit yielded)) [
    | inl full ↦ rw (full, nested_candidates) tt
    | inr more ↦ elim (Option-cases (youtube_candidate_from_entry sha1 source e)) [
      | inl n ↦ rw (more, n, nested_candidates) (nested-IsVideo yielded entries)
      | inr (c, n) ↦
          rw (more, n, nested_candidates)
            (candidate_IsVideo e c n, nested-IsVideo (suc yielded) entries)
    ]
  ]

  module _ (entries_of : Text → ℕ → List Dict) where
    drilled_lem :
        (yielded : ℕ) (e : Dict)
        → yielded ≤ limit
        → (yielded + length (drilled sha1 entries_of source limit yielded e) ≤ limit)
          × All IsVideo (drilled sha1 entries_of source limit yielded e)
    unfolding drilled
    drilled_lem yielded e h = ground (
      arith,
      nested-le yielded (entries_of (youtube_video_url e) (limit - yielded)) h,
      nested-IsVideo yielded (entries_of (youtube_video_url e) (limit - yielded)),
    )

    yielded_for_lem :
        (yielded : ℕ) (e : Dict)
        → suc yielded ≤ limit
        → (yielded + length (yielded_for sha1 entries_of source limit yielded e) ≤ limit)
          × All IsVideo (yielded_for sha1 entries_of source limit yielded e)
    unfolding yielded_for
    yielded_for_lem yielded e h = elim (Bool-cases (is_skipped source e)) [
      | inl s ↦ rw s (omega arith, tt)
      | inr s ↦ elim (Option-cases (youtube_candidate_from_entry sha1 source e)) [
        | inl n ↦ rw (s, n, yielded_for) (drilled_lem yielded e (omega (arith, h)))
        | inr (c, n) ↦ rw (s, n, yielded_for) (omega (arith, h), (candidate_IsVideo e c n, tt))
      ]
    ]

    collect_lem :
        (yielded : ℕ) (entries : List Dict)
        → yielded ≤ limit
        → (yielded + length (collect_candidates sha1 entries_of source limit yielded entries)
            ≤ limit)
          × All IsVideo (collect_candidates sha1 entries_of source limit yielded entries)
    unfolding collect_candidates
    collect_lem yielded [] h = (omega (arith, h), tt)
    collect_lem yielded (e ∷ entries) h = elim (Bool-cases (leb limit yielded)) [
      | inl full ↦ rw full (omega (arith, h), tt)
      | inr more ↦
          let found : List Candidate = yielded_for sha1 entries_of source limit yielded e in
          let (here, videos) = yielded_for_lem yielded e (ground arith) in
          let (there, others) = collect_lem (yielded + length found) entries here in
          rw more (
            omega (
              arith,
              there,
              length-append found (
                  collect_candidates sha1 entries_of source limit (yielded + length found) entries),
            ),
            All-append IsVideo found
                (collect_candidates sha1 entries_of source limit (yielded + length found) entries)
                videos others,
          )
    ]

-- A YouTube source offers at most as many episodes as its limit, the nested lists that it drills into
-- included, and each of them has the URL of a video.
pub youtube_candidates_within_limit :
    (sha1 : Text → Text) (entries_of : Text → ℕ → List Dict) (profile_default : Option Text)
    (source : Source)
    → (length (youtube_candidates sha1 entries_of profile_default source)
        ≤ source_limit profile_default source)
      × All IsVideo (youtube_candidates sha1 entries_of profile_default source)
unfolding youtube_candidates
youtube_candidates_within_limit sha1 entries_of profile_default source =
    let limit : ℕ = source_limit profile_default source in
    let (bounded, videos) =
      collect_lem sha1 source limit entries_of 0 (entries_of source.url limit) (omega arith) in
    (omega (arith, bounded), videos)
