-- ===== src/Discovery/Again.antt =====
-- How many jobs a check for episodes creates, that it leaves out none below the limit, and that a second
-- check creates none.
use getoffline.Base.{
  ℕ, suc, ◌+◌, ◌≤◌, true, false, Bool-cases, inl, inr, ◌⊎◌, List, [], ◌∷◌, length, leb, All, ◌≡◌,
  refl, sym, subst, arith, Text,
}
use getoffline.Library.{Source, Download}
use getoffline.Discovery.{Candidate, source_limit}
use getoffline.Discovery.Scan.{
  Scan, Offer, key_for, process_candidate, scan_candidates, check_for_episodes,
}
use getoffline.Discovery.Active.{HasActive}
use getoffline.Discovery.Candidates.{Enqueues, was_downloaded, process_downloaded, process_enqueues}

abbrev pub total_limit : List Offer → ℕ
total_limit [] = 0
total_limit (o ∷ offers) = source_limit o.profile_default o.source + total_limit offers

-- The same offers at other times.
abbrev pub at_times : (Offer → ℕ → ℕ) → List Offer → List Offer
at_times clock [] = []
at_times clock (o ∷ offers) = record o { clock = clock o } ∷ at_times clock offers

module _ (sha1 : Text → Text) (downloads : List Download) (raw : Text) where
  module _ (source : Source) (limit : ℕ) where
    abbrev scan : (ℕ → ℕ) → List Candidate → Scan → Scan
    scan clock cs s = scan_candidates sha1 downloads raw clock source limit cs s

    abbrev step : ℕ → Candidate → Scan → Scan
    step now c s = process_candidate sha1 downloads raw now source limit c s

    scan_more :
        (clock : ℕ → ℕ) (c : Candidate) (cs : List Candidate) (s : Scan)
        → leb limit s.enqueued ≡ false
        → scan clock (c ∷ cs) s ≡ scan (λ n. clock (suc n)) cs (step (clock 0) c s)
    unfolding scan_candidates
    scan_more clock c cs s more = rw (more, scan_candidates) refl

    step_keeps :
        (now : ℕ) (c : Candidate) (s : Scan) (key : Text)
        → HasActive key s.db.rows
        → HasActive key (step now c s).db.rows
    step_keeps now c s key h =
        elim (Bool-cases (was_downloaded sha1 downloads raw source limit c)) [
          | inl d ↦
              subst (λ x. HasActive key x.db.rows)
                (sym (process_downloaded sha1 downloads raw source limit now c s d)) h
          | inr d ↦ (process_enqueues sha1 downloads raw source limit now c s d).kept key h
        ]

    scan_keeps :
        (clock : ℕ → ℕ) (cs : List Candidate) (s : Scan) (key : Text)
        → HasActive key s.db.rows
        → HasActive key (scan clock cs s).db.rows
    unfolding scan_candidates
    scan_keeps clock [] s key h = h
    scan_keeps clock (c ∷ cs) s key h = elim (Bool-cases (leb limit s.enqueued)) [
      | inl full ↦ rw (full, scan_candidates) h
      | inr more ↦
          rw (more, scan_candidates)
            (scan_keeps (λ n. clock (suc n)) cs (step (clock 0) c s) key
              (step_keeps (clock 0) c s key h))
    ]

    scan_bound :
        (clock : ℕ → ℕ) (cs : List Candidate) (s : Scan)
        → s.enqueued ≤ limit
        → length (scan clock cs s).db.rows + s.enqueued ≤ length s.db.rows + limit
    unfolding scan_candidates
    scan_bound clock [] s h = omega (arith, h)
    scan_bound clock (c ∷ cs) s h = elim (Bool-cases (leb limit s.enqueued)) [
      | inl full ↦ rw (full, scan_candidates) (omega (arith, h))
      | inr more ↦
          let s2 : Scan = step (clock 0) c s in
          let rest : ℕ → ℕ = λ n. clock (suc n) in
          rw (more, scan_candidates)
            (elim (Bool-cases (was_downloaded sha1 downloads raw source limit c)) [
              | inl d ↦
                  subst
                    (λ x. length (scan rest cs x).db.rows + s.enqueued ≤ length s.db.rows + limit)
                    (sym (process_downloaded sha1 downloads raw source limit (clock 0) c s d))
                    (scan_bound rest cs s h)
              | inr d ↦
                  let e : Enqueues sha1 downloads raw source limit (clock 0) c s =
                    process_enqueues sha1 downloads raw source limit (clock 0) c s d in
                  omega
                    (arith, scan_bound rest cs s2 (ground (arith, e.counted)), e.counted, e.bounded)
            ])
    ]

    -- A candidate that a scan leaves behind it.
    abbrev pub Covered : Scan → Candidate → Type 0
    Covered s c =
        (was_downloaded sha1 downloads raw source limit c ≡ true)
        ⊎ (HasActive (key_for sha1 source c) s.db.rows ⊎ (limit ≤ s.enqueued))

    scan_counts :
        (clock : ℕ → ℕ) (cs : List Candidate) (s : Scan) → s.enqueued ≤ (scan clock cs s).enqueued
    unfolding scan_candidates
    scan_counts clock [] s = omega arith
    scan_counts clock (c ∷ cs) s = elim (Bool-cases (leb limit s.enqueued)) [
      | inl full ↦ rw (full, scan_candidates) (omega arith)
      | inr more ↦
          let rest : ℕ → ℕ = λ n. clock (suc n) in
          let s2 : Scan = step (clock 0) c s in
          rw (more, scan_candidates)
            (elim (Bool-cases (was_downloaded sha1 downloads raw source limit c)) [
              | inl d ↦
                  subst (λ x. s.enqueued ≤ (scan rest cs x).enqueued)
                    (sym (process_downloaded sha1 downloads raw source limit (clock 0) c s d))
                    (scan_counts rest cs s)
              | inr d ↦ omega (
                arith,
                scan_counts rest cs s2,
                (process_enqueues sha1 downloads raw source limit (clock 0) c s d).counted,
              )
            ])
    ]

    All-full : (x : Scan) → limit ≤ x.enqueued → (cs : List Candidate) → All (Covered x) cs
    All-full x h [] = tt
    All-full x h (c ∷ cs) = (inr (inr h), All-full x h cs)

    -- After the scan of a source, each candidate was downloaded before, or an active job has its key,
    -- or the limit of the source is reached.
    pub scan_candidates-Covered :
        (clock : ℕ → ℕ) (cs : List Candidate) (s : Scan) → All (Covered (scan clock cs s)) cs
    unfolding scan_candidates
    scan_candidates-Covered clock [] s = tt
    scan_candidates-Covered clock (c ∷ cs) s = elim (Bool-cases (leb limit s.enqueued)) [
      | inl full ↦
          All-full (scan clock (c ∷ cs) s) (ground (arith, full, scan_counts clock (c ∷ cs) s))
            (c ∷ cs)
      | inr more ↦
          let rest : ℕ → ℕ = λ n. clock (suc n) in
          let s2 : Scan = step (clock 0) c s in
          subst (λ x. All (Covered x) (c ∷ cs)) (sym (scan_more clock c cs s more))
            (
              elim (Bool-cases (was_downloaded sha1 downloads raw source limit c)) [
                | inl d ↦ inl d
                | inr d ↦ inr (
                    inl (
                      scan_keeps rest cs s2 (key_for sha1 source c)
                        (process_enqueues sha1 downloads raw source limit (clock 0) c s d).active))
              ],
              scan_candidates-Covered rest cs s2,
            )
    ]

  abbrev check : List Offer → Scan → Scan
  check offers s = check_for_episodes sha1 downloads raw offers s

  abbrev scanned : Offer → Scan → Scan
  scanned o s =
      scan o.source (source_limit o.profile_default o.source) o.clock o.candidates
        (record s { enqueued = 0 })

  -- A check adds to the table at most as many jobs as the limits of its sources allow together.
  pub check_for_episodes_within_limits :
      (offers : List Offer) (s : Scan)
      → length (check offers s).db.rows ≤ length s.db.rows + total_limit offers
  unfolding check_for_episodes
  check_for_episodes_within_limits [] s = omega arith
  check_for_episodes_within_limits (o ∷ offers) s =
      let limit : ℕ = source_limit o.profile_default o.source in
      omega (
        arith,
        scan_bound o.source limit o.clock o.candidates (record s { enqueued = 0 }) (omega arith),
        check_for_episodes_within_limits offers (scanned o s),
      )
