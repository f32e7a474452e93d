-- ===== src/Slots/Client/Laws.antt =====
-- Waiting, running and releasing over the in-memory backend, which the database backend refines.
use getoffline.Base.{
  lookup-pop, ◌≤◌, ℕ, ◌+◌, ◌<◌, String, Bool, true, false, Option, none, some, List, [], ◌∷◌, ◌++◌,
  Outcome, ◌≡◌, refl, arith, eq_iff, lookup, count, count-keep-le, Bool-cases, inl, inr, IsDict,
}
use getoffline.Slots.{Call, Times, is_waiting, is_running, is_ffmpeg}
use getoffline.Slots.Memory.{Requests, runs, has_status, is_live, purge, admit, perform, call}
use getoffline.Slots.Invariant.{call-IsDict, renew-runs}
use getoffline.Slots.Leases.{release_ends}
use getoffline.Slots.Admission.{granted_runs}
use getoffline.Slots.Client.{
  SlotBackend, Round, poll, breaks, Wait, holds, still_waiting, failed, is_granted, poll_rounds,
  acquire_slot, run,
}

abbrev pub memory : ℕ → SlotBackend Requests
memory capacity = record { call = call capacity }

-- The other workers use the backend as a dict.
abbrev pub KeepsDict : (Requests → Requests) → Type 0
KeepsDict others = (d : Requests) → IsDict d → IsDict (others d)

abbrev pub AreOthers : List (Round Requests) → Type 0
AreOthers [] = Unit
AreOthers (poll others beat_at between acquire_at ∷ rounds) =
    KeepsDict others × KeepsDict between × AreOthers rounds
AreOthers (breaks others e times ∷ rounds) = KeepsDict others × AreOthers rounds

-- What the end of the wait leaves under the lease.
abbrev pub IsSettled : String → Wait Requests → Type 0
IsSettled k (holds d) = IsDict d × (has_status is_running (lookup k d) ≡ true)
IsSettled k (still_waiting d) = IsDict d
IsSettled k (failed e d) = IsDict d × (has_status is_waiting (lookup k d) ≡ false)

perform-wait_finished :
    (capacity now : ℕ) (k : String) (d : Requests)
    → has_status is_waiting (lookup k (perform capacity now (Call.wait_finished k) d).0) ≡ false
unfolding perform
perform-wait_finished capacity now k d = elim (Bool-cases (has_status is_waiting (lookup k d))) [
  | inl e ↦ rw e (ground (arith, lookup-pop k k d, eq_iff k k))
  | inr e ↦ rw e e
]

call-wait_finished :
    (capacity : ℕ) (times : Times) (k : String) (d : Requests)
    → has_status is_waiting (lookup k (call capacity times (Call.wait_finished k) d).0) ≡ false
unfolding call
call-wait_finished capacity times k d =
    perform-wait_finished capacity times.write_at k (purge times.purge_at d)

is_granted→eq : (o : Option Bool) → is_granted o ≡ true → o ≡ some true
is_granted→eq none h = cc
is_granted→eq (some b) h = ground arith

-- The wait has ended, with the slot or with an exception.
abbrev pub IsOver : Wait Requests → Type 0
IsOver (holds d) = Unit
IsOver (still_waiting d) = ⊥
IsOver (failed e d) = Unit

module _ (capacity : ℕ) (job k : String) (n : ℕ) where
  granted-running :
      (times : Times) (d : Requests)
      → is_granted (call capacity times (Call.acquire job k n) d).1.granted ≡ true
      → has_status is_running (lookup k (call capacity times (Call.acquire job k n) d).0) ≡ true
  granted-running times d h =
      rw (granted_runs capacity times job k n d k (is_granted→eq _ h)) (ground (arith, eq_iff k k))

  poll_rounds-IsSettled :
      (rounds : List (Round Requests)) (d : Requests)
      → AreOthers rounds
      → IsDict d
      → IsSettled k (poll_rounds (memory capacity) job k n rounds d)
  unfolding poll_rounds
  poll_rounds-IsSettled [] d o u = u
  poll_rounds-IsSettled (breaks others e times ∷ rounds) d o u = (
    call-IsDict capacity times (Call.wait_finished k) (others d) (o.0 d u),
    call-wait_finished capacity times k (others d),
  )
  poll_rounds-IsSettled (poll others beat_at between acquire_at ∷ rounds) d o u =
      let before : Requests = (call capacity beat_at (Call.wait_heartbeat k n) (others d)).0 in
      let beaten : Requests = between before in
      let unique : IsDict beaten =
        o.1 before (call-IsDict capacity beat_at (Call.wait_heartbeat k n) (others d) (o.0 d u)) in
      let unique' : IsDict (call capacity acquire_at (Call.acquire job k n) beaten).0 =
        call-IsDict capacity acquire_at (Call.acquire job k n) beaten unique in
      elim (Bool-cases
        (is_granted (call capacity acquire_at (Call.acquire job k n) beaten).1.granted)) [
          | inl e ↦ rw e (unique', granted-running acquire_at beaten e)
          | inr e ↦ rw e (poll_rounds-IsSettled rounds _ o.2 unique')
        ]

  -- If the other workers leave the requests a dict, then however the wait for a slot ends, the lease
  -- stands as it should: running where the slot is held, and no longer waiting where a call raised.
  pub acquire_slot_settles :
      (start : Times) (rounds : List (Round Requests)) (d : Requests)
      → AreOthers rounds
      → IsDict d
      → IsSettled k (acquire_slot (memory capacity) job k n start rounds d)
  unfolding acquire_slot
  acquire_slot_settles start rounds d o u =
      poll_rounds-IsSettled rounds _ o (call-IsDict capacity start (Call.wait_started job k n) d u)

  beat-runs-le :
      (times : Times) (d : Requests)
      → count runs (call capacity times (Call.wait_heartbeat k n) d).0 ≤ count runs d
  unfolding call perform purge
  beat-runs-le times d = ground (
    arith,
    renew-runs k (times.write_at + n) (purge times.purge_at d),
    count-keep-le runs (is_live times.purge_at) d,
  )

  ffmpeg-granted :
      (times : Times) (d : Requests)
      → is_ffmpeg job ≡ true
      → count runs d < capacity
      → is_granted (call capacity times (Call.acquire job k n) d).1.granted ≡ true
  unfolding call perform admit purge
  ffmpeg-granted times d f h = ground (arith, count-keep-le runs (is_live times.purge_at) d)

  -- A worker with an ffmpeg job does not wait for ever: if in some round the others leave a slot
  -- free, whatever the requests were before, and run no more jobs until its acquire, then its wait has
  -- ended by that round, whoever else waits.
  pub ffmpeg_wait_ends :
      (before after : List (Round Requests)) (others between : Requests → Requests)
      (beat_at acquire_at : Times) (d : Requests)
      → is_ffmpeg job ≡ true
      → ((s : Requests) → count runs (others s) < capacity)
      → ((s : Requests) → count runs (between s) ≤ count runs s)
      → IsOver (
          poll_rounds
            (memory capacity)
            job
            k
            n
            (before ++ poll others beat_at between acquire_at ∷ after)
            d)
  unfolding poll_rounds
  ffmpeg_wait_ends [] after others between beat_at acquire_at d f free no_more =
      let beaten : Requests = (call capacity beat_at (Call.wait_heartbeat k n) (others d)).0 in
      rw
        (ffmpeg-granted acquire_at (between beaten) f
          (omega (arith, no_more beaten, beat-runs-le beat_at (others d), free d)))
        tt
  ffmpeg_wait_ends (breaks o e times ∷ before) after others between beat_at acquire_at d f free
        no_more =
      tt
  ffmpeg_wait_ends (poll o beat b acq ∷ before) after others between beat_at acquire_at d f free
        no_more =
      let s : Requests = b (call capacity beat (Call.wait_heartbeat k n) (o d)).0 in
      elim (Bool-cases (is_granted (call capacity acq (Call.acquire job k n) s).1.granted)) [
        | inl e ↦ rw e tt
        | inr e ↦ rw e (
            ffmpeg_wait_ends before after others between beat_at acquire_at
              (call capacity acq (Call.acquire job k n) s).0 f free no_more)
      ]

  -- A job that got its slot and leaves the requests a dict gives its outcome on, returned or raised,
  -- and its lease is gone then.
  pub run_releases :
      {A : Type 0} (start : Times) (rounds : List (Round Requests))
      (work : Requests → Requests × Outcome A) (release_at : Times) (d held : Requests)
      → acquire_slot (memory capacity) job k n start rounds d ≡ holds held
      → IsDict (work held).0
      → (lookup k (run (memory capacity) job k n start rounds work release_at d).0 ≡ none)
        × ((run (memory capacity) job k n start rounds work release_at d).1 ≡ some (work held).1)
  unfolding run
  run_releases start rounds work release_at d held e u =
      rw (e, run)
        (ground (arith, eq_iff k k, release_ends capacity release_at k k (work held).0 u), refl)
