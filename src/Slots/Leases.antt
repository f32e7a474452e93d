-- ===== src/Slots/Leases.antt =====
-- How long a request stands: the heartbeats renew it, the calls of other workers leave it alone, and
-- a release ends it.
use getoffline.Base.{
  Bool-cases, ltb, Option-cases, inl, inr, ℕ, ◌+◌, ◌<◌, String, Option, none, some, List, [], ◌∷◌,
  ◌≡◌, ◌≢◌, refl, sym, subst, arith, eq_iff, ◌==◌, leb, lookup, lookup-put, lookup-pop, lookup-keep,
  IsDict, if◌then◌else◌, ◌∙◌,
}
use getoffline.Domain.{CpuSlotStatus, waiting}
use getoffline.Slots.{Call, Times, Request, Reason}
use getoffline.Slots.Memory.{stats, Requests, is_live, purge, renew, admit, perform, call}
use getoffline.Slots.Invariant.{run_calls, call-IsDict}

abbrev pub live_only : ℕ → Option Request → Option Request
live_only now none = none
live_only now (some r) = if leb r.expires_at now then none else some r

lookup-purge :
    (now : ℕ) (k : String) (d : Requests)
    → IsDict d
    → lookup k (purge now d) ≡ live_only now (lookup k d)
unfolding purge
lookup-purge now k d u = ground (arith, lookup-keep k (is_live now) d u)

lookup-renew :
    (k j : String) (t : ℕ) (d : Requests) (r : Request)
    → lookup k d ≡ some r
    → lookup j (renew k t d) ≡ (if k == j then some (record r { expires_at = t }) else lookup j d)
unfolding renew
lookup-renew k j t d r h = rw (h, renew) (lookup-put k j (record r { expires_at = t }) d)

-- On a dict of requests, a heartbeat renews a running request that has not expired, and only such a
-- one: one that has expired is gone, and the caller is told so.
pub heartbeat_renews :
    (capacity : ℕ) (times : Times) (k : String) (lease_seconds : ℕ) (d : Requests) (r : Request)
    → IsDict d
    → lookup k d ≡ some r
    → r.status ≡ CpuSlotStatus.running
    → ((call capacity times (Call.heartbeat k lease_seconds) d).1.renewed
        ≡ some (ltb times.purge_at r.expires_at))
      × (lookup k (call capacity times (Call.heartbeat k lease_seconds) d).0 ≡ (
          if ltb times.purge_at r.expires_at
          then some (record r { expires_at = times.write_at + lease_seconds })
          else none))
unfolding call perform
heartbeat_renews capacity times k n d r u h runs =
    elim (Bool-cases (ltb times.purge_at r.expires_at)) [
      | inl live ↦
          let kept : lookup k (purge times.purge_at d) ≡ some r =
            ground (arith, lookup-purge times.purge_at k d u) in
          (
            ground arith,
            ground (
              arith,
              eq_iff k k,
              lookup-renew k k (times.write_at + n) (purge times.purge_at d) r kept,
            ),
          )
      | inr late ↦
          let gone : lookup k (purge times.purge_at d) ≡ none =
            ground (arith, lookup-purge times.purge_at k d u) in
          (ground arith, ground arith)
    ]

abbrev pub release_reason : Option Request → Reason
release_reason none = Reason.missing
release_reason (some r) = Reason.released

perform_release :
    (capacity now : ℕ) (k j : String) (d : Requests)
    → (lookup j (perform capacity now (Call.release k) d).0 ≡ (if k == j then none else lookup j d))
      × ((perform capacity now (Call.release k) d).1.stats.reason ≡ release_reason (lookup k d))
unfolding perform stats
perform_release capacity now k j d = elim (Option-cases (lookup k d)) [
  | inl e ↦ rw (e, perform) (ground (arith, eq_iff k j), refl)
  | inr (r, e) ↦ rw (e, perform) (ground (arith, lookup-pop k j d), refl)
]

-- On a dict of requests, a release ends the request of its lease, and no other but those that have
-- expired; it reports whether there was one.
pub release_ends :
    (capacity : ℕ) (times : Times) (k j : String) (d : Requests)
    → IsDict d
    → (lookup j (call capacity times (Call.release k) d).0
        ≡ (if k == j then none else live_only times.purge_at (lookup j d)))
      × ((call capacity times (Call.release k) d).1.stats.reason
          ≡ release_reason (live_only times.purge_at (lookup k d)))
unfolding call
release_ends capacity times k j d u = ground (
  arith,
  lookup-purge times.purge_at k d u,
  lookup-purge times.purge_at j d u,
  perform_release capacity times.write_at k j (purge times.purge_at d),
)

-- the lease of a call; `snapshot` has none
abbrev pub NamesOther : String → Call → Type 0
NamesOther k (Call.wait_started job j n) = j ≢ k
NamesOther k (Call.wait_heartbeat j n) = j ≢ k
NamesOther k (Call.wait_finished j) = j ≢ k
NamesOther k (Call.acquire job j n) = j ≢ k
NamesOther k (Call.release j) = j ≢ k
NamesOther k (Call.heartbeat j n) = j ≢ k
NamesOther k Call.snapshot = Unit

renew_other : (j k : String) (t : ℕ) (d : Requests) → j ≢ k → lookup k (renew j t d) ≡ lookup k d
unfolding renew
renew_other j k t d ne = elim (Option-cases (lookup j d)) [
  | inl e ↦ rw (e, renew) refl
  | inr (r, e) ↦
      rw (e, renew) (ground (arith, eq_iff j k, lookup-put j k (record r { expires_at = t }) d))
]

perform_other :
    (capacity now : ℕ) (c : Call) (k : String) (d : Requests)
    → NamesOther k c
    → lookup k (perform capacity now c d).0 ≡ lookup k d
unfolding perform admit
perform_other capacity now (Call.wait_started job j n) k d ne = ground (
  arith,
  eq_iff j k,
  lookup-put j k (record { job_type = job; status = waiting; expires_at = now + n }) d,
)
perform_other capacity now (Call.wait_heartbeat j n) k d ne =
    ground (arith, renew_other j k (now + n) d)
perform_other capacity now (Call.wait_finished j) k d ne =
    ground (arith, eq_iff j k, lookup-pop j k d)
perform_other capacity now (Call.acquire job j n) k d ne = ground (
  arith,
  eq_iff j k,
  lookup-put j k (record { job_type = job; status = CpuSlotStatus.running; expires_at = now + n })
      d,
)
perform_other capacity now (Call.release j) k d ne = ground (arith, eq_iff j k, lookup-pop j k d)
perform_other capacity now (Call.heartbeat j n) k d ne = ground (arith, renew_other j k (now + n) d)
perform_other capacity now Call.snapshot k d ne = refl

call_other :
    (capacity : ℕ) (times : Times) (c : Call) (k : String) (r : Request) (d : Requests)
    → IsDict d
    → lookup k d ≡ some r
    → times.purge_at < r.expires_at
    → NamesOther k c
    → lookup k (call capacity times c d).0 ≡ some r
unfolding call
call_other capacity times c k r d u h live other =
    perform_other capacity times.write_at c k (purge times.purge_at d) other
    ∙ ground (arith, lookup-purge times.purge_at k d u)

-- What a call may do to a running lease without ending it: its holder makes heartbeats, and the others
-- name other leases.
abbrev pub Spares : String → Call → Type 0
Spares k (Call.heartbeat j n) = Unit
Spares k c = NamesOther k c

-- When the lease expires after a call: a heartbeat under it gives it `n` more from its time on.
abbrev pub expiry_of : String → ℕ → Times → Call → ℕ
expiry_of k expires_at times (Call.heartbeat j n) =
    if j == k then times.write_at + n else expires_at
expiry_of k expires_at times c = expires_at

abbrev pub last_expiry : String → ℕ → List (Times × Call) → ℕ
last_expiry k expires_at [] = expires_at
last_expiry k expires_at ((times, c) ∷ calls) = last_expiry k (expiry_of k expires_at times c) calls

-- Each call comes before the lease expires that the heartbeats before it have renewed.
abbrev pub AreTimely : String → ℕ → List (Times × Call) → Type 0
AreTimely k expires_at [] = Unit
AreTimely k expires_at ((times, c) ∷ calls) =
    (times.purge_at < expires_at) × Spares k c × AreTimely k (expiry_of k expires_at times c) calls

heartbeat_kept :
    (capacity : ℕ) (times : Times) (j k : String) (n : ℕ) (r : Request) (d : Requests)
    → IsDict d
    → lookup k d ≡ some r
    → r.status ≡ CpuSlotStatus.running
    → times.purge_at < r.expires_at
    → lookup k (call capacity times (Call.heartbeat j n) d).0
      ≡ some (record r { expires_at = expiry_of k r.expires_at times (Call.heartbeat j n) })
heartbeat_kept capacity times j k n r d u h runs live = elim (Bool-cases (j == k)) [
  | inl e ↦
      let same : j ≡ k = ground (arith, eq_iff j k) in
      rw e (
        subst
          (λ i.
            lookup k (call capacity times (Call.heartbeat i n) d).0
            ≡ some (record r { expires_at = times.write_at + n }))
          (sym same) (ground (arith, heartbeat_renews capacity times k n d r u h runs)))
  | inr e ↦ rw e (
      call_other capacity times (Call.heartbeat j n) k r d u h live
        (λ same. ground (arith, eq_iff j k, same)))
]

call_kept :
    (capacity : ℕ) (times : Times) (c : Call) (k : String) (r : Request) (d : Requests)
    → IsDict d
    → lookup k d ≡ some r
    → r.status ≡ CpuSlotStatus.running
    → times.purge_at < r.expires_at
    → Spares k c
    → lookup k (call capacity times c d).0
      ≡ some (record r { expires_at = expiry_of k r.expires_at times c })
call_kept capacity times (Call.heartbeat j n) k r d u h runs live s =
    heartbeat_kept capacity times j k n r d u h runs live
call_kept capacity times (Call.wait_started job j n) k r d u h runs live s =
    call_other capacity times (Call.wait_started job j n) k r d u h live s
call_kept capacity times (Call.wait_heartbeat j n) k r d u h runs live s =
    call_other capacity times (Call.wait_heartbeat j n) k r d u h live s
call_kept capacity times (Call.wait_finished j) k r d u h runs live s =
    call_other capacity times (Call.wait_finished j) k r d u h live s
call_kept capacity times (Call.acquire job j n) k r d u h runs live s =
    call_other capacity times (Call.acquire job j n) k r d u h live s
call_kept capacity times (Call.release j) k r d u h runs live s =
    call_other capacity times (Call.release j) k r d u h live s
call_kept capacity times Call.snapshot k r d u h runs live s =
    call_other capacity times Call.snapshot k r d u h live s

-- On a dict of requests, a running lease outlasts every sequence of heartbeats of its holder and calls of
-- the others in which each call comes before the lease, as renewed until then, expires: it is still
-- running after them, and expires when the last heartbeat said.
pub lease_is_kept :
    (capacity : ℕ) (k : String) (r : Request) (calls : List (Times × Call)) (d : Requests)
    → IsDict d
    → lookup k d ≡ some r
    → r.status ≡ CpuSlotStatus.running
    → AreTimely k r.expires_at calls
    → lookup k (run_calls capacity calls d)
      ≡ some (record r { expires_at = last_expiry k r.expires_at calls })
unfolding run_calls
lease_is_kept capacity k r [] d u h runs b = h
lease_is_kept capacity k r ((times, c) ∷ calls) d u h runs (live, spared, b) =
    lease_is_kept capacity k (record r { expires_at = expiry_of k r.expires_at times c }) calls
      (call capacity times c d).0 (call-IsDict capacity times c d u)
      (call_kept capacity times c k r d u h runs live spared) runs b
