-- ===== src/Slots/Client.antt =====
-- `GlobalSlotScheduler`: a worker waits for a slot by polling, runs its job, and releases the slot.
-- The other workers act between two calls of the poll and while the job runs; what they do to the
-- backend is given with the round. The identity of the lease is a parameter: the source builds it
-- from the host, the process, the thread and a random number.
pub mod Laws
use getoffline.Base.{
  ℕ, String, Bool, true, false, Option, none, some, List, [], ◌∷◌, Exc, Outcome, ok, err,
  if◌then◌else◌,
}
use getoffline.Slots.{Call, Times, Reply}

-- The protocol `SlotBackend`, as one operation on the backend's state.
pub record SlotBackend (S : Type 0) : Type 0 where
  pub call : Times → Call → S → S × Reply

-- One turn of `while True` in `acquire_slot`: the others act, then the heartbeat is made at its time, the
-- others act again, and the acquire is made at its time; or one of the two raises. A call that raises is
-- rolled back, and what came before it in its turn counts as an act of the others. `wait_finished` is
-- taken not to raise.
pub data Round (S : Type 0) : Type 0 where
  poll : (S → S) → Times → (S → S) → Times → Round S
  breaks : (S → S) → Exc → Times → Round S

pub data Wait (S : Type 0) : Type 0 where
  holds : S → Wait S
  still_waiting : S → Wait S
  failed : Exc → S → Wait S

abbrev pub is_granted : Option Bool → Bool
is_granted none = false
is_granted (some b) = b

module _ {S : Type 0} (backend : SlotBackend S) (job_type lease_id : String)
    (lease_seconds : ℕ) where
  abbrev beaten : Times → S → S
  beaten times s = (backend.call times (Call.wait_heartbeat lease_id lease_seconds) s).0

  -- the loop of `acquire_slot`
  unfoldable pub poll_rounds : List (Round S) → S → Wait S
  poll_rounds [] s = still_waiting s
  poll_rounds (breaks others e times ∷ rounds) s =
      failed e (backend.call times (Call.wait_finished lease_id) (others s)).0
  poll_rounds (poll others beat_at between acquire_at ∷ rounds) s =
      let (s', reply) =
        backend.call acquire_at (Call.acquire job_type lease_id lease_seconds)
          (between (beaten beat_at (others s))) in
      let rest = poll_rounds rounds s' in if is_granted reply.granted then holds s' else rest

  unfoldable pub acquire_slot : Times → List (Round S) → S → Wait S
  unfolding poll_rounds
  acquire_slot start rounds s =
      poll_rounds rounds
        (backend.call start (Call.wait_started job_type lease_id lease_seconds) s).0

  -- `run`: the job, and the release of the slot whether it returns or raises. `none` means that the
  -- slot did not come in the rounds given.
  unfoldable pub run :
      {A : Type 0}
      → Times
      → List (Round S)
      → (S → S × Outcome A)
      → Times
      → S
      → S × Option (Outcome A)
  unfolding acquire_slot
  run start rounds job release_at s = elim (acquire_slot start rounds s) [
    | still_waiting s' ↦ (s', none)
    | failed e s' ↦ (s', some (err e))
    | holds s' ↦
        let (s'', outcome) = job s' in
        ((backend.call release_at (Call.release lease_id) s'').0, some outcome)
  ]
