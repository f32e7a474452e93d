-- ===== src/Slots/Admission.antt =====
-- Who is admitted to a slot, and who has to wait.
use getoffline.Base.{
  ℕ, ◌+◌, ◌<◌, String, true, false, some, ◌≡◌, ◌≢◌, arith, eq_iff, ◌==◌, any, count, lookup,
  lookup-put, lookup-keep, lookup_of_any, any_of_lookup, IsDict, IsDict-keep, if◌then◌else◌,
}
use getoffline.Domain.{CpuSlotStatus, waiting}
use getoffline.Slots.{Call, Times, Request, Reply, is_ffmpeg}
use getoffline.Slots.Memory.{
  Requests, runs, is_live, waits_ffmpeg, other_waits_ffmpeg, purge, admit, perform, call,
}

abbrev pub acquire_at : ℕ → Times → String → String → ℕ → Requests → Requests × Reply
acquire_at capacity times job_type lease_id lease_seconds d =
    call capacity times (Call.acquire job_type lease_id lease_seconds) d

purge_kept :
    (now : ℕ) (k : String) (r : Request) (d : Requests)
    → IsDict d
    → lookup k d ≡ some r
    → now < r.expires_at
    → lookup k (purge now d) ≡ some r
unfolding purge
purge_kept now k r d u h live = rw (lookup-keep k (is_live now) d u, h) (ground arith)

module _ (capacity : ℕ) (times : Times) (job_type lease_id : String) (lease_seconds : ℕ)
    (d : Requests) where
  -- On a dict of requests, while another lease waits for an ffmpeg slot and has not expired, a job
  -- of the other kind is refused, and the call changes no request but those that have expired.
  pub transcript_yields_to_ffmpeg :
      (k : String) (r : Request)
      → IsDict d
      → lookup k d ≡ some r
      → k ≢ lease_id
      → r.status ≡ waiting
      → is_ffmpeg r.job_type ≡ true
      → times.purge_at < r.expires_at
      → is_ffmpeg job_type ≡ false
      → ((acquire_at capacity times job_type lease_id lease_seconds d).1.granted ≡ some false)
        × ((acquire_at capacity times job_type lease_id lease_seconds d).0 ≡ purge times.purge_at d)
  unfolding call perform admit
  transcript_yields_to_ffmpeg k r u h ne w f live t =
      let kept = purge_kept times.purge_at k r d u h live in
      let blocked =
        any_of_lookup (other_waits_ffmpeg lease_id) k r (purge times.purge_at d) kept
          (ground (arith, eq_iff k lease_id)) in
      ground arith

  -- A granted call leaves its own request running, with the new expiry, and every other request that
  -- has not expired as it was.
  pub granted_runs :
      (j : String)
      → (acquire_at capacity times job_type lease_id lease_seconds d).1.granted ≡ some true
      → lookup j (acquire_at capacity times job_type lease_id lease_seconds d).0 ≡ (
          if lease_id == j
          then some (record {
            job_type = job_type;
            status = CpuSlotStatus.running;
            expires_at = times.write_at + lease_seconds;
          })
          else lookup j (purge times.purge_at d))
  unfolding call perform admit
  granted_runs j h = ground (
    arith,
    lookup-put lease_id j
        (record {
          job_type = job_type;
          status = CpuSlotStatus.running;
          expires_at = times.write_at + lease_seconds;
        })
        (purge times.purge_at d),
  )

  -- A free slot is never left unused: where a call on a dict of requests is refused although a slot
  -- is free, another lease waits for an ffmpeg slot, and the same call for that lease and its job
  -- type is granted.
  pub free_slot_is_taken :
      IsDict d
      → count runs (purge times.purge_at d) < capacity
      → (acquire_at capacity times job_type lease_id lease_seconds d).1.granted ≡ some false
      → (k : String) × (r : Request) × (k ≢ lease_id)
        × (lookup k (purge times.purge_at d) ≡ some r)
        × (waits_ffmpeg (k, r) ≡ true)
        × ((acquire_at capacity times r.job_type k lease_seconds d).1.granted ≡ some true)
  unfolding call perform admit
  free_slot_is_taken u free refused =
      let blocked : any (other_waits_ffmpeg lease_id) (purge times.purge_at d) ≡ true =
        ground arith in
      let (k, r, found, p) =
        lookup_of_any (other_waits_ffmpeg lease_id) (purge times.purge_at d)
          (unfold purge in IsDict-keep _ d u) blocked in
      (k, r, ground (arith, eq_iff k lease_id), found, ground arith, ground arith)
