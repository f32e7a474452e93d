-- ===== src/Jobs.antt =====
-- src/models/jobs.py, over the table `jobs` of src/models/models.py: jobs are created, claimed by one
-- worker, and finished. Every function is one step on the table; for `create_job`, which looks for
-- an active job and creates one without a lock, this is an assumption. The time is an argument.
pub mod Stale
pub mod Steps
pub mod Claims
pub mod Keys
mod Tests
use getoffline.Base.{
  ℕ, suc, ◌+◌, String, Bool, true, false, not, ◌&&◌, ◌||◌, Option, none, some, List, [], ◌∷◌, ◌++◌,
  nat_eq, first, any, update_where, Text, text_eq, Payload, dict_or_empty, Outcome, ok, err, no_row,
  if◌then◌else◌,
}
use getoffline.Domain.{JobStatus, queued, succeeded, failed}

-- A row of `Job`. The columns that the code sets by no function here are left as they are created.
pub record Job : Type 0 where
  pub id : ℕ
  pub profile_id : String
  pub job_type : String
  pub status : JobStatus
  pub payload : Payload
  pub idempotency_key : Option Text
  pub error_message : Option Text
  pub created_at : ℕ
  pub updated_at : ℕ
  pub started_at : Option ℕ
  pub finished_at : Option ℕ

-- The table in the order of its primary keys, and the next key.
pub record Db : Type 0 where
  pub rows : List Job
  pub next_id : ℕ

abbrev pub is_queued : JobStatus → Bool
is_queued queued = true
is_queued _ = false

-- status__in=[QUEUED, RUNNING]
abbrev pub is_active : JobStatus → Bool
is_active queued = true
is_active JobStatus.running = true
is_active succeeded = false
is_active failed = false

abbrev pub has_id : ℕ → Job → Bool
has_id id job = nat_eq job.id id

-- filter(pk=...).first()
unfoldable pub find_job : ℕ → List Job → Option Job
find_job id rows = first (has_id id) rows

-- the column `idempotency_key` holds the key
abbrev pub has_key_of : Text → Option Text → Bool
has_key_of key none = false
has_key_of key (some k) = text_eq k key

abbrev pub is_active_with : Text → Job → Bool
is_active_with key job = has_key_of key job.idempotency_key && is_active job.status

-- Job.objects.create(...)
unfoldable pub insert_job : ℕ → String → String → JobStatus → Payload → Option Text → Db → Db × Job
insert_job now profile_id job_type status payload key db =
    let job : Job = record {
      id = db.next_id;
      profile_id = profile_id;
      job_type = job_type;
      status = status;
      payload = payload;
      idempotency_key = key;
      error_message = none;
      created_at = now;
      updated_at = now;
      started_at = none;
      finished_at = none;
    } in
    (record { rows = db.rows ++ job ∷ []; next_id = suc db.next_id }, job)

-- the early return of `create_job`: `if idempotency_key:`, and an active job that has the key
unfoldable pub existing_job : Option Text → Db → Option Job
existing_job none db = none
existing_job (some []) db = none
existing_job (some (c ∷ key)) db = first (is_active_with (c ∷ key)) db.rows

unfoldable pub create_job : ℕ → String → String → Payload → Option Text → Db → Db × Job
unfolding existing_job insert_job
create_job now profile_id job_type payload key db = elim (existing_job key db) [
  | some job ↦ (db, job)
  | none ↦ insert_job now profile_id job_type queued (some (dict_or_empty payload)) key db
]

abbrev pub started : ℕ → Job → Job
started now job = record job { status = JobStatus.running; started_at = some now; updated_at = now }

-- select_for_update().filter(pk=job_id, status=QUEUED).first(), and the save of the claimed row
unfoldable pub claim_job : ℕ → ℕ → Db → Db × Option Job
claim_job now id db = elim (first (λ job. has_id id job && is_queued job.status) db.rows) [
  | none ↦ (db, none)
  | some job ↦
      (record db { rows = update_where (has_id id) (started now) db.rows }, some (started now job))
]

abbrev pub finished : ℕ → JobStatus → Option Text → Job → Job
finished now status error_message job = record job {
  status = status;
  error_message = error_message;
  finished_at = some now;
  updated_at = now;
}

-- `save(update_fields=...)` writes those columns of the row with the object's key, and raises if there
-- is none.
unfoldable pub finish_job : ℕ → Job → JobStatus → Option Text → Db → Db × Outcome (Unit {0})
finish_job now job status error_message db =
    if any (has_id job.id) db.rows
    then (
      record db { rows = update_where (has_id job.id) (finished now status error_message) db.rows },
      ok tt,
    )
    else (db, err no_row)
