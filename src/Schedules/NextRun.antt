-- ===== src/Schedules/NextRun.antt =====
-- When a schedule runs next.
use getoffline.Base.{
  ℕ, zero, suc, ◌+◌, ◌*◌, ◌≤◌, ◌<◌, max, some, ◌≡◌, refl, arith, leb, Bool-cases, inl, inr,
}
use getoffline.Schedules.{Schedule, interval_of, advance, next_run_after}

-- What the loop returns: a time after `now`, the first such on the grid of the interval.
abbrev Lands : ℕ → ℕ → ℕ → ℕ → Type 0
Lands interval now next r =
    (now < r) × (r ≤ max next (now + interval)) × ((k : ℕ) × (r ≡ next + k * interval))

advance_ends :
    (fuel interval now next : ℕ)
    → 0 < interval
    → 0 < fuel
    → now + 1 < fuel + next
    → (r : ℕ) × (advance fuel interval now next ≡ some r) × Lands interval now next r
unfolding advance
advance_ends zero interval now next i p f = absurd (omega arith)
advance_ends (suc fuel) interval now next i p f = elim (Bool-cases (leb next now)) [
  | inl more ↦
      let (r, e, (later, near, (k, grid))) =
        advance_ends fuel interval now (next + interval) i (ground arith) (omega arith) in
      (r, rw more e, (later, ground arith, (suc k, grind arith)))
  | inr done ↦ (next, rw done refl, (ground arith, omega arith, (0, omega arith)))
]

interval_pos : (s : Schedule) → 0 < interval_of s
unfolding interval_of
interval_pos s = omega arith

-- The next run of a schedule is always found. It lies after the time given and after the run that was
-- due, a whole number of intervals behind that run, and no more than one interval too late: a worker
-- that was down for long does not catch up on the runs it missed.
pub next_run_is_future :
    (s : Schedule) (due_at now : ℕ)
    → (r : ℕ) × (next_run_after s due_at now ≡ some r)
      × (now < r)
      × (due_at < r)
      × (r ≤ max (due_at + interval_of s) (now + interval_of s))
      × ((k : ℕ) × (r ≡ due_at + suc k * interval_of s))
unfolding next_run_after
next_run_is_future s due_at now =
    let (r, e, (later, near, (k, grid))) =
      advance_ends (suc (suc now)) (interval_of s) now (due_at + interval_of s) (interval_pos s)
        (omega arith) (omega (arith, interval_pos s)) in
    (r, e, later, omega (arith, grid, interval_pos s), near, (k, grind (arith, grid)))
