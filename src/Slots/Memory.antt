-- ===== src/Slots/Memory.antt =====
-- `InMemorySlotBackend`: each method holds the lock for its whole body, so that it is one step.
use getoffline.Base.{
  ℕ, ◌+◌, String, Bool, true, false, not, ◌&&◌, ◌||◌, Option, none, some, List, ◌==◌, leb, ltb, any,
  count, keep, lookup, put, pop, if◌then◌else◌,
}
use getoffline.Domain.{waiting, CpuSlotStatus}
use getoffline.Slots.{
  Request, Reason, Stats, Reply, Call, Times, is_running, is_waiting, is_ffmpeg, acquired,
  capacity_full, ffmpeg_waiting, released, missing,
}

abbrev pub Requests : Type 0
Requests = List (String × Request)

abbrev pub is_live : ℕ → String × Request → Bool
is_live now e = not (leb e.1.expires_at now)

-- _purge
unfoldable pub purge : ℕ → Requests → Requests
purge now requests = keep (is_live now) requests

abbrev pub runs : String × Request → Bool
runs e = is_running e.1.status

abbrev pub waits_ffmpeg : String × Request → Bool
waits_ffmpeg e = is_waiting e.1.status && is_ffmpeg e.1.job_type

abbrev pub waits_transcript : String × Request → Bool
waits_transcript e = is_waiting e.1.status && e.1.job_type == "transcript"

-- `any(...)` of `acquire`: an ffmpeg job waits under another lease.
abbrev pub other_waits_ffmpeg : String → String × Request → Bool
other_waits_ffmpeg lease_id e = not (e.0 == lease_id) && waits_ffmpeg e

-- _stats
unfoldable pub stats : Reason → Requests → Stats
stats reason requests = record {
  reason = reason;
  in_use = count runs requests;
  waiting_ffmpeg = count waits_ffmpeg requests;
  waiting_transcript = count waits_transcript requests;
}

-- the request stands under the lease, with the status
abbrev pub has_status : (CpuSlotStatus → Bool) → Option Request → Bool
has_status p none = false
has_status p (some r) = p r.status

-- requests[lease_id]["expires_at"] = expires_at
unfoldable pub renew : String → ℕ → Requests → Requests
unfolding lookup put
renew lease_id expires_at requests = elim (lookup lease_id requests) [
  | none ↦ requests
  | some r ↦ put lease_id (record r { expires_at = expires_at }) requests
]

abbrev pub plain_reply : Reason → Requests → Requests × Reply
plain_reply reason requests =
    (requests, record { granted = none; renewed = none; stats = stats reason requests })

abbrev pub renewed_reply : Reason → Bool → Requests → Requests × Reply
renewed_reply reason renewed requests =
    (requests, record { granted = none; renewed = some renewed; stats = stats reason requests })

abbrev pub granted_reply : Reason → Bool → Requests → Requests × Reply
granted_reply reason granted requests =
    (requests, record { granted = some granted; renewed = none; stats = stats reason requests })

-- the body of `acquire` after the purge
unfoldable pub admit : ℕ → String → String → ℕ → Requests → Requests × Reply
unfolding put
admit capacity job_type lease_id expires_at requests =
    if ltb (count runs requests) capacity
    then if is_ffmpeg job_type || not (any (other_waits_ffmpeg lease_id) requests)
      then granted_reply acquired true (
          put lease_id
            (record {
              job_type = job_type;
              status = CpuSlotStatus.running;
              expires_at = expires_at;
            })
            requests)
      else granted_reply ffmpeg_waiting false requests
    else granted_reply capacity_full false requests

-- A method of the backend, after its purge.
unfoldable pub perform : ℕ → ℕ → Call → Requests → Requests × Reply
unfolding put pop renew admit
perform capacity now (Call.wait_started job_type lease_id lease_seconds) requests =
    plain_reply Reason.wait_started (
      put lease_id
        (record { job_type = job_type; status = waiting; expires_at = now + lease_seconds })
        requests)
perform capacity now (Call.wait_heartbeat lease_id lease_seconds) requests =
    if has_status is_waiting (lookup lease_id requests)
    then renewed_reply Reason.wait_heartbeat true (renew lease_id (now + lease_seconds) requests)
    else renewed_reply Reason.wait_heartbeat false requests
perform capacity now (Call.wait_finished lease_id) requests =
    plain_reply Reason.wait_finished
      (if has_status is_waiting (lookup lease_id requests) then pop lease_id requests else requests)
perform capacity now (Call.acquire job_type lease_id lease_seconds) requests =
    admit capacity job_type lease_id (now + lease_seconds) requests
perform capacity now (Call.release lease_id) requests = elim (lookup lease_id requests) [
  | none ↦ plain_reply missing requests
  | some r ↦ plain_reply released (pop lease_id requests)
]
perform capacity now (Call.heartbeat lease_id lease_seconds) requests =
    if has_status is_running (lookup lease_id requests)
    then renewed_reply Reason.heartbeat true (renew lease_id (now + lease_seconds) requests)
    else renewed_reply Reason.heartbeat false requests
perform capacity now Call.snapshot requests = plain_reply Reason.snapshot requests

-- Any method: `_purge`, then its body.
unfoldable pub call : ℕ → Times → Call → Requests → Requests × Reply
unfolding purge perform
call capacity times c requests = perform capacity times.write_at c (purge times.purge_at requests)
