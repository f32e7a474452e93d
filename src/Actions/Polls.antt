-- ===== src/Actions/Polls.antt =====
-- The poll by the key of a job, before and after the job has ended.
use getoffline.Base.{
  ℕ, String, true, false, not, ◌==◌, eq_iff, none, some, List, [], ◌∷◌, ◌≡◌, refl, ap, ◌∙◌, subst,
  sym, arith, nat_eq_iff, nat_eq_refl, first-update, any-first, any, Option, Text, codes, strip,
  pos, parse_int, ok,
}
use getoffline.Domain.{JobStatus, succeeded, failed, job_status_value}
use getoffline.Jobs.{Job, Db, has_id, find_job, is_active, finished, finish_job}
use getoffline.Actions.{Form, field}
use getoffline.Actions.Status.{
  text_of, report_of_job, pending, status_of_job, worker_message_status,
}

poll_by_job :
    (profile : String) (query : Form) (c : ℕ) (t : Text) (rows : List Job)
    → strip (field query "token") ≡ []
    → strip (field query "job_id") ≡ c ∷ t
    → worker_message_status profile query rows ≡ status_of_job profile (c ∷ t) rows
unfolding worker_message_status
poll_by_job profile query c t rows none_sent sent = rw (none_sent, sent) refl

module _ (job_id : Text) (id : ℕ) (number : parse_int job_id ≡ some (pos id)) where
  poll_own :
      (job : Job) (rows : List Job)
      → find_job id rows ≡ some job
      → status_of_job job.profile_id job_id rows ≡ ok (report_of_job job)
  unfolding status_of_job
  poll_own job rows found =
      let own : (job.profile_id == job.profile_id) ≡ true =
        ground (arith, eq_iff job.profile_id job.profile_id) in
      rw (number, status_of_job, found, own) refl

  poll_other :
      (other : String) (job : Job) (rows : List Job)
      → find_job id rows ≡ some job
      → (job.profile_id == other) ≡ false
      → status_of_job other job_id rows ≡ ok pending
  unfolding status_of_job
  poll_other other job rows found differs = rw (number, status_of_job, found, differs) refl

report_of_job_lem :
    (job : Job)
    → report_of_job job ≡ record {
      finished = not (is_active job.status);
      ok = true;
      status = some (codes (job_status_value job.status));
      error_message = some (text_of job.error_message);
      code = 200;
    }
unfolding report_of_job
report_of_job_lem job = go job.status
  where
    go :
        (s : JobStatus)
        → report_of_job (record job { status = s }) ≡ record {
          finished = not (is_active s);
          ok = true;
          status = some (codes (job_status_value s));
          error_message = some (text_of job.error_message);
          code = 200;
        }
    go JobStatus.queued = refl
    go JobStatus.running = refl
    go succeeded = refl
    go failed = refl

found_id : (id : ℕ) (job : Job) (rows : List Job) → find_job id rows ≡ some job → job.id ≡ id
unfolding find_job
found_id id job [] h = cc
found_id id job (r ∷ rows) h = ground (arith, nat_eq_iff r.id id, found_id id job rows)

found_finished :
    (now id : ℕ) (job : Job) (status : JobStatus) (message : Option Text) (db : Db)
    → find_job id db.rows ≡ some job
    → find_job id (finish_job now job status message db).0.rows
      ≡ some (finished now status message job)
unfolding find_job finish_job
found_finished now id job status message db found =
    let same : job.id ≡ id = found_id id job db.rows found in
    let there : any (has_id job.id) db.rows ≡ true =
      subst (λ i. any (has_id i) db.rows ≡ true) (sym same)
        (any-first (has_id id) db.rows job found) in
    rw there (
      first-update (has_id id) (has_id job.id) (finished now status message) db.rows job (λ j. refl)
        (nat_eq_refl job.id) found)

-- The page polls by the key of a job of its own profile, without a token: it is told whether the job has
-- ended, its status and its message, and after a worker ends the job, that it succeeded, or that it failed
-- and with which message. In each answer `ok` is true, also where the job has failed. Another profile is
-- told to wait.
pub job_end_is_polled :
    (query : Form) (c : ℕ) (t : Text) (id : ℕ) (job : Job) (db : Db) (now : ℕ) (message : Text)
    (other : String)
    → strip (field query "token") ≡ []
    → strip (field query "job_id") ≡ c ∷ t
    → parse_int (c ∷ t) ≡ some (pos id)
    → find_job id db.rows ≡ some job
    → (job.profile_id == other) ≡ false
    → (worker_message_status job.profile_id query db.rows
        ≡ ok (record {
          finished = not (is_active job.status);
          ok = true;
          status = some (codes (job_status_value job.status));
          error_message = some (text_of job.error_message);
          code = 200;
        }))
      × (worker_message_status job.profile_id query (finish_job now job succeeded none db).0.rows
          ≡ ok (record {
            finished = true;
            ok = true;
            status = some (codes "succeeded");
            error_message = some [];
            code = 200;
          }))
      × (worker_message_status job.profile_id query
            (finish_job now job failed (some message) db).0.rows
          ≡ ok (record {
            finished = true;
            ok = true;
            status = some (codes "failed");
            error_message = some message;
            code = 200;
          }))
      × (worker_message_status other query db.rows ≡ ok pending)
job_end_is_polled query c t id job db now message other none_sent sent number found differs =
    let poll =
      λ (profile : String) (rows : List Job). poll_by_job profile query c t rows none_sent sent in
    let own = λ (j : Job) (rows : List Job) (h : find_job id rows ≡ some j).
      poll j.profile_id rows ∙ poll_own (c ∷ t) id number j rows h ∙ ap ok (report_of_job_lem j) in
    (
      own job db.rows found,
      own (finished now succeeded none job) (finish_job now job succeeded none db).0.rows
          (found_finished now id job succeeded none db found),
      own (finished now failed (some message) job)
          (finish_job now job failed (some message) db).0.rows
          (found_finished now id job failed (some message) db found),
      poll other db.rows ∙ poll_other (c ∷ t) id number other job db.rows found differs,
    )
