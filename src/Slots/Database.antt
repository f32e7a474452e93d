-- ===== src/Slots/Database.antt =====
-- `DatabaseSlotBackend`: each method is one transaction under the lock row, so that it is one step.
use getoffline.Base.{
  ℕ, ◌+◌, String, Bool, true, false, not, ◌&&◌, ◌||◌, none, some, List, [], ◌∷◌, ◌++◌, ◌==◌, leb,
  ltb, any, count, keep, update_where, if◌then◌else◌,
}
use getoffline.Domain.{waiting, CpuSlotStatus}
use getoffline.Slots.{
  Reason, Stats, Reply, Call, Times, is_running, is_waiting, is_ffmpeg, acquired, capacity_full,
  ffmpeg_waiting, released, missing,
}

-- A row of `CpuSlotRequest` (src/models/models.py); `lease_id` is its primary key.
pub record Row : Type 0 where
  pub lease_id : String
  pub job_type : String
  pub status : CpuSlotStatus
  pub created_at : ℕ
  pub updated_at : ℕ
  pub expires_at : ℕ

abbrev pub is_live : ℕ → Row → Bool
is_live now r = not (leb r.expires_at now)

-- _purge_expired
unfoldable pub purge_expired : ℕ → List Row → List Row
purge_expired now rows = keep (is_live now) rows

-- filter(status=RUNNING), filter(status=WAITING, job_type=...)
abbrev pub runs : Row → Bool
runs r = is_running r.status

abbrev pub waits : String → Row → Bool
waits job_type r = is_waiting r.status && r.job_type == job_type

abbrev pub has_lease : String → Row → Bool
has_lease lease_id r = r.lease_id == lease_id

-- _stats
unfoldable pub stats : Reason → List Row → Stats
stats reason rows = record {
  reason = reason;
  in_use = count runs rows;
  waiting_ffmpeg = count (waits "ffmpeg") rows;
  waiting_transcript = count (waits "transcript") rows;
}

-- update_or_create(lease_id=..., defaults={...})
unfoldable pub update_or_create : String → String → ℕ → ℕ → List Row → List Row
update_or_create lease_id job_type now expires_at rows =
    if any (has_lease lease_id) rows
    then update_where (has_lease lease_id)
        (λ r. record r {
          job_type = job_type;
          status = waiting;
          updated_at = now;
          expires_at = expires_at;
        })
        rows
    else rows
      ++ record {
        lease_id = lease_id;
        job_type = job_type;
        status = waiting;
        created_at = now;
        updated_at = now;
        expires_at = expires_at;
      }
        ∷ []

-- filter(lease_id=..., status=...).update(updated_at=..., expires_at=...)
unfoldable pub renew : (CpuSlotStatus → Bool) → String → ℕ → ℕ → List Row → List Row
renew p lease_id now expires_at rows =
    update_where (λ r. has_lease lease_id r && p r.status)
      (λ r. record r { updated_at = now; expires_at = expires_at }) rows

-- the update of `acquire`, and the create where it met no row
unfoldable pub set_running : String → String → ℕ → ℕ → List Row → List Row
set_running lease_id job_type now expires_at rows =
    if any (has_lease lease_id) rows
    then update_where (has_lease lease_id)
        (λ r. record r {
          job_type = job_type;
          status = CpuSlotStatus.running;
          updated_at = now;
          expires_at = expires_at;
        })
        rows
    else rows
      ++ record {
        lease_id = lease_id;
        job_type = job_type;
        status = CpuSlotStatus.running;
        created_at = now;
        updated_at = now;
        expires_at = expires_at;
      }
        ∷ []

abbrev pub plain_reply : Reason → List Row → List Row × Reply
plain_reply reason rows =
    (rows, record { granted = none; renewed = none; stats = stats reason rows })

abbrev pub renewed_reply : Reason → Bool → List Row → List Row × Reply
renewed_reply reason renewed rows =
    (rows, record { granted = none; renewed = some renewed; stats = stats reason rows })

abbrev pub granted_reply : Reason → Bool → List Row → List Row × Reply
granted_reply reason granted rows =
    (rows, record { granted = some granted; renewed = none; stats = stats reason rows })

-- the body of `acquire` after the purge
unfoldable pub admit : ℕ → String → String → ℕ → ℕ → List Row → List Row × Reply
unfolding set_running
admit capacity job_type lease_id now expires_at rows =
    if ltb (count runs rows) capacity
    then if is_ffmpeg job_type
        || not (any (λ r. waits "ffmpeg" r && not (has_lease lease_id r)) rows)
      then granted_reply acquired true (set_running lease_id job_type now expires_at rows)
      else granted_reply ffmpeg_waiting false rows
    else granted_reply capacity_full false rows

-- A method of the backend, after its purge.
unfoldable pub perform : ℕ → ℕ → Call → List Row → List Row × Reply
unfolding update_or_create renew admit
perform capacity now (Call.wait_started job_type lease_id lease_seconds) rows =
    plain_reply Reason.wait_started
      (update_or_create lease_id job_type now (now + lease_seconds) rows)
perform capacity now (Call.wait_heartbeat lease_id lease_seconds) rows =
    renewed_reply Reason.wait_heartbeat
      (any (λ r. has_lease lease_id r && is_waiting r.status) rows)
      (renew is_waiting lease_id now (now + lease_seconds) rows)
perform capacity now (Call.wait_finished lease_id) rows =
    plain_reply Reason.wait_finished
      (keep (λ r. not (has_lease lease_id r && is_waiting r.status)) rows)
perform capacity now (Call.acquire job_type lease_id lease_seconds) rows =
    admit capacity job_type lease_id now (now + lease_seconds) rows
perform capacity now (Call.release lease_id) rows =
    plain_reply (if any (has_lease lease_id) rows then released else missing)
      (keep (λ r. not (has_lease lease_id r)) rows)
perform capacity now (Call.heartbeat lease_id lease_seconds) rows =
    renewed_reply Reason.heartbeat (any (λ r. has_lease lease_id r && is_running r.status) rows)
      (renew is_running lease_id now (now + lease_seconds) rows)
perform capacity now Call.snapshot rows = plain_reply Reason.snapshot rows

-- Any method: under the lock, `_purge_expired`, then its body.
unfoldable pub call : ℕ → Times → Call → List Row → List Row × Reply
unfolding purge_expired perform
call capacity times c rows = perform capacity times.write_at c (purge_expired times.purge_at rows)
