-- ===== src/Runner/Completion.antt =====
-- How a message leaves the job that it names.
use getoffline.Base.{
  ℕ, String, true, false, Option, none, some, Bool-cases, inl, inr, List, [], ◌∷◌, ◌++◌, ◌≡◌, refl,
  ap, arith, nat_eq_iff, any, update_where, Text, Payload, pos, Exc, Outcome, ok, err,
}
use getoffline.Domain.{JobStatus, succeeded, failed, HeavyJobKind}
use getoffline.Jobs.{
  has_key_of, Job, Db, has_id, is_queued, find_job, insert_job, claim_job, finish_job, started,
  finished,
}
use getoffline.Jobs.Steps.{IsTable}
use getoffline.Jobs.Claims.{find-update, claim_cases}
use getoffline.Runner.{
  update_completion_token, message_key, Handler, create_update_finished_message_once,
  emit_update_finished_message, mark_job_succeeded, mark_job_failed, run_claimed_job, on_claim,
  after_success, raise_again, after_run, process_queued_job_message,
}

find_job-id : (id : ℕ) (r : Job) (rows : List Job) → find_job id rows ≡ some r → r.id ≡ id
unfolding find_job
find_job-id id r [] h = cc
find_job-id id r (x ∷ rows) h = ground (arith, nat_eq_iff x.id id, find_job-id id r rows)

any_of_find :
    (id : ℕ) (r : Job) (rows : List Job) → find_job id rows ≡ some r → any (has_id id) rows ≡ true
unfolding find_job
any_of_find id r [] h = cc
any_of_find id r (x ∷ rows) h = ground (arith, any_of_find id r rows)

find-append :
    (id : ℕ) (r : Job) (rows more : List Job)
    → find_job id rows ≡ some r
    → find_job id (rows ++ more) ≡ some r
unfolding find_job
find-append id r [] more h = cc
find-append id r (x ∷ rows) more h = ground (arith, find-append id r rows more)

find-insert :
    (now : ℕ) (profile job_type : String) (status : JobStatus) (payload : Payload)
    (key : Option Text) (db : Db) (id : ℕ) (r : Job)
    → find_job id db.rows ≡ some r
    → find_job id (insert_job now profile job_type status payload key db).0.rows ≡ some r
unfolding insert_job
find-insert now profile job_type status payload key db id r h = find-append id r db.rows _ h

find-create :
    (now : ℕ) (job : Job) (token : Text) (status : JobStatus) (message : Text) (db : Db) (id : ℕ)
    (r : Job)
    → find_job id db.rows ≡ some r
    → find_job id (create_update_finished_message_once now job token status message db).rows
      ≡ some r
unfolding create_update_finished_message_once
find-create now job token status message db id r h =
    elim (Bool-cases
      (any (λ row. has_key_of (message_key job token) row.idempotency_key) db.rows)) [
        | inl e ↦ rw e h
        | inr e ↦ rw e (find-insert now job.profile_id "worker_message" succeeded _ _ db id r h)
      ]

find-emit :
    (now : ℕ) (job : Job) (status : JobStatus) (message : Text) (db : Db) (id : ℕ) (r : Job)
    → find_job id db.rows ≡ some r
    → find_job id (emit_update_finished_message now job status message db).rows ≡ some r
unfolding emit_update_finished_message
find-emit now job status message db id r h =
    ground (arith, find-create now job (update_completion_token job) status message db id r h)

finish_job_found :
    (now : ℕ) (job : Job) (status : JobStatus) (message : Option Text) (db : Db) (r : Job)
    → find_job job.id db.rows ≡ some r
    → finish_job now job status message db ≡ (
      record db { rows = update_where (has_id job.id) (finished now status message) db.rows },
      ok tt,
    )
unfolding finish_job
finish_job_found now job status message db r h = rw (any_of_find job.id r db.rows h) refl

module _ (now : ℕ) (job r : Job) (db : Db) (h : find_job job.id db.rows ≡ some r) where
  succeeded_found :
      (find_job job.id (mark_job_succeeded now job db).0.rows
        ≡ some (finished now succeeded none r))
      × ((mark_job_succeeded now job db).1 ≡ ok tt)
  unfolding mark_job_succeeded
  succeeded_found = rw (finish_job_found now job succeeded none db r h) (
    find-emit now job succeeded [] _ job.id _
        (find-update job.id (finished now succeeded none) r db.rows (λ j. refl) h),
    refl,
  )

  failed_found :
      (message : Text)
      → (find_job job.id (mark_job_failed now job message db).0.rows
          ≡ some (finished now failed (some message) r))
        × ((mark_job_failed now job message db).1 ≡ ok tt)
  unfolding mark_job_failed
  failed_found message = rw (finish_job_found now job failed (some message) db r h) (
    find-emit now job failed message _ job.id _
        (find-update job.id (finished now failed (some message)) r db.rows (λ j. refl) h),
    refl,
  )

-- the status and the message that an outcome gives the job
abbrev pub ended : (Exc → Text) → ℕ → Outcome (Unit {0}) → Job → Job
ended str_exc now (ok u) r = finished now succeeded none r
ended str_exc now (err e) r = finished now failed (some (str_exc e)) r

module _ (handlers : String → Option Handler) (scheduler_run : HeavyJobKind → Handler → Handler)
    (str_exc : Exc → Text) where
  after_success_ok :
      (now : ℕ) (job : Job) (x : Db × Outcome (Unit {0}))
      → x.1 ≡ ok tt
      → after_success handlers scheduler_run str_exc now job x ≡ x
  after_success_ok now job (db, ok u) h = refl
  after_success_ok now job (db, err e) h = cc

  raise_again_ok :
      (e : Exc) (x : Db × Outcome (Unit {0}))
      → x.1 ≡ ok tt
      → raise_again handlers scheduler_run str_exc e x ≡ (x.0, err e)
  raise_again_ok e (db, ok u) h = refl
  raise_again_ok e (db, err e') h = cc

  after_run_found :
      (now : ℕ) (job r : Job) (ran : Db × Outcome (Unit {0}))
      → find_job job.id ran.0.rows ≡ some r
      → (find_job job.id (after_run handlers scheduler_run str_exc now job ran).0.rows
          ≡ some (ended str_exc now ran.1 r))
        × ((after_run handlers scheduler_run str_exc now job ran).1 ≡ ran.1)
  after_run_found now job r (db, ok u) h =
      rw
        (after_success_ok now job (mark_job_succeeded now job db)
          (succeeded_found now job r db h).1)
        (succeeded_found now job r db h)
  after_run_found now job r (db, err e) h =
      rw
        (raise_again_ok e (mark_job_failed now job (str_exc e) db)
          (failed_found now job r db h (str_exc e)).1)
        ((failed_found now job r db h (str_exc e)).0, refl)

  after_run_found_at :
      (now id : ℕ) (job r : Job) (ran : Db × Outcome (Unit {0}))
      → job.id ≡ id
      → find_job id ran.0.rows ≡ some r
      → (find_job id (after_run handlers scheduler_run str_exc now job ran).0.rows
          ≡ some (ended str_exc now ran.1 r))
        × ((after_run handlers scheduler_run str_exc now job ran).1 ≡ ran.1)
  after_run_found_at now id job r ran same h =
      rw (← same) (after_run_found now job r ran (rw same h))

  on_claim-some :
      (now : ℕ) (x : Db × Option Job) (job : Job)
      → x.1 ≡ some job
      → on_claim handlers scheduler_run str_exc now x
        ≡ after_run handlers scheduler_run str_exc now job
            (run_claimed_job handlers scheduler_run str_exc job x.0)
  on_claim-some now (db, none) job h = cc
  on_claim-some now (db, some job') job h = ground arith

  -- A message of a queued job runs it, on the table with the job running. If the run leaves the job's
  -- row in the table, then the job ends as succeeded, or as failed with the text of the exception, just
  -- as the run returned or raised, and the caller of the processing sees the same outcome.
  pub processing_ends_job :
      (claimed_at finished_at id : ℕ) (db : Db) (b r : Job)
      → IsTable db
      → find_job id db.rows ≡ some b
      → is_queued b.status ≡ true
      → find_job id
          (run_claimed_job handlers scheduler_run str_exc
            (started claimed_at b)
            (claim_job claimed_at id db).0).0.rows
        ≡ some r
      → (find_job id
            (process_queued_job_message handlers scheduler_run str_exc claimed_at finished_at
              (pos id)
              db).0.rows
          ≡ some (
              ended str_exc finished_at
                (run_claimed_job handlers scheduler_run str_exc
                  (started claimed_at b)
                  (claim_job claimed_at id db).0).1
                r))
        × ((process_queued_job_message handlers scheduler_run str_exc claimed_at finished_at
              (pos id)
              db).1
            ≡ (run_claimed_job handlers scheduler_run str_exc
                (started claimed_at b)
                (claim_job claimed_at id db).0).1)
  unfolding process_queued_job_message
  processing_ends_job claimed_at finished_at id db b r u h q left =
      let same : b.id ≡ id = find_job-id id b db.rows h in
      let claimed = ((claim_cases claimed_at id db b u h).0 q).0 in
      rw (on_claim-some finished_at (claim_job claimed_at id db) (started claimed_at b) claimed)
        (after_run_found_at finished_at id (started claimed_at b) r _ same left)

  -- A message whose job is in the table and no longer queued, such as one that is delivered again,
  -- changes nothing and counts as done.
  pub processing_skips_taken :
      (claimed_at finished_at id : ℕ) (db : Db) (b : Job)
      → IsTable db
      → find_job id db.rows ≡ some b
      → is_queued b.status ≡ false
      → process_queued_job_message handlers scheduler_run str_exc claimed_at finished_at (pos id) db
        ≡ (db, ok tt)
  unfolding process_queued_job_message
  processing_skips_taken claimed_at finished_at id db b u h q =
      ap (on_claim handlers scheduler_run str_exc finished_at)
        ((claim_cases claimed_at id db b u h).1 q)
