-- ===== src/Slots/Invariant.antt =====
-- What every call of the in-memory backend keeps, whichever workers make it and in whatever order.
use getoffline.Base.{
  count-pop-le, IsDict-pop, ℕ, ◌+◌, ◌≤◌, String, Option, none, some, List, [], ◌∷◌, ◌≡◌, refl,
  arith, lookup, pop, IsDict, IsDict-put, IsDict-keep, count, count-keep-le, count-put-le,
  count-put-le_of_not, count-put_same,
}
use getoffline.Domain.{CpuSlotStatus, waiting}
use getoffline.Slots.{Call, Times, Request}
use getoffline.Slots.Memory.{Requests, runs, purge, renew, admit, perform, call, is_live}

-- `calls` in their order, each at its time, on the requests that the ones before left.
unfoldable pub run_calls : ℕ → List (Times × Call) → Requests → Requests
unfolding call
run_calls capacity [] requests = requests
run_calls capacity ((times, c) ∷ calls) requests =
    run_calls capacity calls (call capacity times c requests).0

pub renew-runs : (k : String) (t : ℕ) (d : Requests) → count runs (renew k t d) ≡ count runs d
unfolding renew
renew-runs k t d = go (lookup k d) refl
  where
    go : (o : Option Request) → lookup k d ≡ o → count runs (renew k t d) ≡ count runs d
    go none e = ground arith
    go (some r) e = ground (arith, count-put_same runs k (record r { expires_at = t }) r d e)

abbrev IsWithin : ℕ → Requests → Type 0
IsWithin capacity d = count runs d ≤ capacity

perform-IsWithin :
    (capacity now : ℕ) (c : Call) (d : Requests)
    → IsWithin capacity d
    → IsWithin capacity (perform capacity now c d).0
unfolding perform admit pop
perform-IsWithin capacity now (Call.wait_started job k n) d h = ground (
  arith,
  count-put-le_of_not runs k (record { job_type = job; status = waiting; expires_at = now + n }) d
      refl,
)
perform-IsWithin capacity now (Call.wait_heartbeat k n) d h =
    ground (arith, renew-runs k (now + n) d)
perform-IsWithin capacity now (Call.wait_finished k) d h = ground (arith, count-pop-le runs k d)
perform-IsWithin capacity now (Call.acquire job k n) d h = ground (
  arith,
  count-put-le runs k
      (record { job_type = job; status = CpuSlotStatus.running; expires_at = now + n }) d,
)
perform-IsWithin capacity now (Call.release k) d h = ground (arith, count-pop-le runs k d)
perform-IsWithin capacity now (Call.heartbeat k n) d h = ground (arith, renew-runs k (now + n) d)
perform-IsWithin capacity now Call.snapshot d h = h

call-IsWithin :
    (capacity : ℕ) (times : Times) (c : Call) (d : Requests)
    → IsWithin capacity d
    → IsWithin capacity (call capacity times c d).0
unfolding call purge
call-IsWithin capacity times c d h =
    perform-IsWithin capacity times.write_at c (purge times.purge_at d)
      (omega (arith, count-keep-le runs (is_live times.purge_at) d, h))

run_calls-IsWithin :
    (capacity : ℕ) (calls : List (Times × Call)) (d : Requests)
    → IsWithin capacity d
    → IsWithin capacity (run_calls capacity calls d)
unfolding run_calls
run_calls-IsWithin capacity [] d h = h
run_calls-IsWithin capacity ((times, c) ∷ calls) d h =
    run_calls-IsWithin capacity calls (call capacity times c d).0
      (call-IsWithin capacity times c d h)

-- Whatever calls the workers make, in whatever order and at whatever times, the backend that started
-- empty has never more requests running than its capacity.
pub running-le-capacity :
    (capacity : ℕ) (calls : List (Times × Call))
    → count runs (run_calls capacity calls []) ≤ capacity
running-le-capacity capacity calls = run_calls-IsWithin capacity calls [] (omega arith)

renew-IsDict : (k : String) (t : ℕ) (d : Requests) → IsDict d → IsDict (renew k t d)
unfolding renew
renew-IsDict k t d h = go (lookup k d) refl
  where
    go : (o : Option Request) → lookup k d ≡ o → IsDict (renew k t d)
    go none e = rw (e, renew) h
    go (some r) e = rw (e, renew) (IsDict-put k (record r { expires_at = t }) d h)

perform-IsDict :
    (capacity now : ℕ) (c : Call) (d : Requests) → IsDict d → IsDict (perform capacity now c d).0
unfolding perform admit pop
perform-IsDict capacity now (Call.wait_started job k n) d h = IsDict-put k _ d h
perform-IsDict capacity now (Call.wait_heartbeat k n) d h =
    ground (arith, renew-IsDict k (now + n) d h)
perform-IsDict capacity now (Call.wait_finished k) d h = ground (arith, IsDict-pop k d h)
perform-IsDict capacity now (Call.acquire job k n) d h = ground (
  arith,
  IsDict-put k (record { job_type = job; status = CpuSlotStatus.running; expires_at = now + n }) d
      h,
)
perform-IsDict capacity now (Call.release k) d h = ground (arith, IsDict-pop k d h)
perform-IsDict capacity now (Call.heartbeat k n) d h = ground (arith, renew-IsDict k (now + n) d h)
perform-IsDict capacity now Call.snapshot d h = h

pub call-IsDict :
    (capacity : ℕ) (times : Times) (c : Call) (d : Requests)
    → IsDict d
    → IsDict (call capacity times c d).0
unfolding call purge
call-IsDict capacity times c d h =
    perform-IsDict capacity times.write_at c (purge times.purge_at d) (IsDict-keep _ d h)
