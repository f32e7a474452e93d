-- ===== src/Jobs/Stale.antt =====
-- src/workers/handlers.py: a job that has been running for too long is queued again.
use getoffline.Base.{
  ℕ, ◌+◌, ◌*◌, Bool, true, false, not, ◌&&◌, Option, none, some, ltb, nat_eq, all, any,
  update_where, Text, codes, strip, is_empty, is_digit, ℤ, pos, negsuc, parse_int, Outcome, ok, err,
  no_row, if◌then◌else◌,
}
use getoffline.Domain.{JobStatus, queued}
use getoffline.Jobs.{Job, Db, has_id}

-- parse_str_enum(JobStatus, job.status) is JobStatus.RUNNING
abbrev pub is_running_job : JobStatus → Bool
is_running_job JobStatus.running = true
is_running_job _ = false

abbrev seconds_or_none : Option ℤ → Option ℕ
seconds_or_none none = none
seconds_or_none (some (pos n)) = if nat_eq n 0 then none else some (n * 1_000_000)
seconds_or_none (some (negsuc n)) = none

-- `_stale_running_job_cutoff` for the text of GETOFFLINE_STALE_RUNNING_JOB_SECONDS, of which the digits
-- are ASCII: how long before the present the cutoff lies, in microseconds, if there is one.
unfoldable pub stale_running_job_timeout : Text → Option ℕ
unfolding strip parse_int
stale_running_job_timeout raw =
    let t = strip raw in
    if is_empty t then none else if all is_digit t then seconds_or_none (parse_int t) else none

-- job.started_at or job.updated_at
abbrev running_since : Job → Option ℕ → ℕ
running_since job none = job.updated_at
running_since job (some t) = t

abbrev pub requeued : ℕ → Job → Job
requeued now job = record job {
  status = queued;
  error_message = some (codes "Reset stale running job so it can be published again.");
  started_at = none;
  finished_at = none;
  updated_at = now;
}

-- The object is stale: it is running, and was started before the cutoff.
unfoldable pub is_stale : ℕ → Text → Job → Bool
unfolding stale_running_job_timeout
is_stale now raw job = elim (stale_running_job_timeout raw) [
  | none ↦ false
  | some timeout ↦
      is_running_job job.status && not (ltb now (running_since job job.started_at + timeout))
]

-- `_make_stale_job_queued`: what it tests is the object, which was read before and without a lock; what
-- it saves is the row with the object's key, as it stands by then.
unfoldable pub make_stale_job_queued : ℕ → ℕ → Text → Job → Db → Db × Outcome Bool
make_stale_job_queued now saved_at raw job db =
    if is_stale now raw job
    then if any (has_id job.id) db.rows
      then (record db { rows = update_where (has_id job.id) (requeued saved_at) db.rows }, ok true)
      else (db, err no_row)
    else (db, ok false)

abbrev pub is_reset : Outcome Bool → Bool
is_reset (ok b) = b
is_reset (err e) = false
