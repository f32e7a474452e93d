-- ===== src/Settings/Timer.antt =====
-- The schedule of a profile's automatic updates after the number of minutes is saved.
use getoffline.Base.{
  max, ℕ, zero, suc, ◌+◌, ◌*◌, ◌<◌, String, Bool, true, false, not, ◌||◌, Bool-cases, Option, none,
  some, inl, inr, List, ◌≡◌, refl, ap, ◌∙◌, arith, eq_refl, first, first-append, first-update,
  update_where, nat_eq, nat_eq_refl, leb, Text, strip, ℤ, pos, negsuc, parse_int,
}
use getoffline.Schedules.{Schedule, has_id, second}
use getoffline.Settings.{Store}
use getoffline.Settings.Save.{
  is_timer_of, timer_interval, new_timer, retimed, disabled, switch_on, switch_off,
  sync_update_downloads_schedule,
}

-- The timer runs every `minutes` minutes, the first time after `now`.
abbrev pub RunsEvery : ℕ → ℕ → Schedule → Type 0
RunsEvery now minutes timer =
    (timer.enabled ≡ true)
    × (timer.interval_seconds ≡ max 60 (minutes * 60))
    × (now < timer.next_run_at)

interval_is_positive : (now minutes : ℕ) → now < now + timer_interval minutes * second
interval_is_positive now minutes = omega arith

new_timer-RunsEvery :
    (now id : ℕ) (profile : String) (minutes : ℕ)
    → RunsEvery now minutes (new_timer now id profile minutes)
new_timer-RunsEvery now id profile minutes = (refl, refl, interval_is_positive now minutes)

retimed-RunsEvery :
    (now minutes : ℕ) (timer : Schedule) → RunsEvery now minutes (retimed now minutes timer)
retimed-RunsEvery now minutes timer = (
  refl,
  refl,
  elim (Bool-cases
      (leb timer.next_run_at now || not (nat_eq timer.interval_seconds (timer_interval minutes)))) [
        | inl e ↦ rw e (interval_is_positive now minutes)
        | inr e ↦ rw e (ground arith)
      ],
)

abbrev enabled_of : Option Schedule → Bool
enabled_of none = false
enabled_of (some timer) = timer.enabled

-- What the posted number of minutes makes of the profile's first schedule for updates.
abbrev pub IsTimed : ℕ → String → ℤ → List Schedule → Type 0
IsTimed now profile (pos (suc n)) schedules =
    (timer : Schedule) × (first (is_timer_of profile) schedules ≡ some timer)
    × RunsEvery now (suc n) timer
IsTimed now profile _ schedules = enabled_of (first (is_timer_of profile) schedules) ≡ false

module _ (now : ℕ) (profile : String) where
  switch_on-IsTimed :
      (n : ℕ) (timer : Option Schedule) (store : Store)
      → first (is_timer_of profile) store.schedules ≡ timer
      → IsTimed now profile (pos (suc n)) (switch_on now profile (suc n) timer store).schedules
  switch_on-IsTimed n none store h = (
    new_timer now store.next_schedule_id profile (suc n),
    first-append (is_timer_of profile) store.schedules _ h (rw (eq_refl profile) refl),
    new_timer-RunsEvery now store.next_schedule_id profile (suc n),
  )
  switch_on-IsTimed n (some timer) store h = (
    retimed now (suc n) timer,
    first-update (is_timer_of profile) (has_id timer.id) (retimed now (suc n)) store.schedules timer
        (λ y. refl) (nat_eq_refl timer.id) h,
    retimed-RunsEvery now (suc n) timer,
  )

  switched_off :
      (timer : Schedule) (store : Store)
      → timer.enabled ≡ true
      → (switch_off now (some timer) store).schedules
        ≡ update_where (has_id timer.id) (disabled now) store.schedules
  switched_off timer store on = rw on refl

  left_off :
      (timer : Schedule) (store : Store)
      → timer.enabled ≡ false
      → (switch_off now (some timer) store).schedules ≡ store.schedules
  left_off timer store off = rw off refl

  switch_off_lem :
      (timer : Option Schedule) (store : Store)
      → first (is_timer_of profile) store.schedules ≡ timer
      → enabled_of (first (is_timer_of profile) (switch_off now timer store).schedules) ≡ false
  switch_off_lem none store h = ap enabled_of h
  switch_off_lem (some timer) store h = elim (Bool-cases timer.enabled) [
    | inl on ↦
        ap (λ rows. enabled_of (first (is_timer_of profile) rows)) (switched_off timer store on)
        ∙ ap enabled_of (
            first-update (is_timer_of profile) (has_id timer.id) (disabled now) store.schedules
              timer (λ y. refl) (nat_eq_refl timer.id) h)
    | inr off ↦
        ap (λ rows. enabled_of (first (is_timer_of profile) rows)) (left_off timer store off)
        ∙ (ap enabled_of h ∙ off)
  ]

  -- After a number of minutes is saved, the first schedule for updates of the profile is enabled, has
  -- that interval, one minute at least, and comes next after the time of the saving; for a number that
  -- is not positive, it is disabled, if there is one.
  pub sync_update_downloads_schedule-IsTimed :
      (raw : Text) (minutes : ℤ) (store : Store)
      → parse_int (strip raw) ≡ some minutes
      → IsTimed now profile minutes (sync_update_downloads_schedule now profile raw store).schedules
  unfolding sync_update_downloads_schedule
  sync_update_downloads_schedule-IsTimed raw (pos (suc n)) store e =
      rw e (switch_on-IsTimed n (first (is_timer_of profile) store.schedules) store refl)
  sync_update_downloads_schedule-IsTimed raw (pos zero) store e =
      rw e (switch_off_lem (first (is_timer_of profile) store.schedules) store refl)
  sync_update_downloads_schedule-IsTimed raw (negsuc n) store e =
      rw e (switch_off_lem (first (is_timer_of profile) store.schedules) store refl)
