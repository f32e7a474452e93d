-- ===== src/Jobs/Tests.antt =====
-- The theorems on the table of jobs at small inputs.
use getoffline.Base.{◌≡◌, ◌≤◌, ◌+◌, refl, inr, none, some, List, [], ◌∷◌, count, Text, codes}
use getoffline.Jobs.Stale.{is_stale, make_stale_job_queued}
use getoffline.Jobs.{
  is_queued, finish_job, find_job, Job, create_job, claim_job, started, is_active_with,
}
use getoffline.Jobs.Steps.{succeed, requeue, Op, apply, run_ops, empty_db, create, claim}
use getoffline.Jobs.Claims.{claims_of, resets_of, claimed_at_most_once}
use getoffline.Jobs.Keys.{active_key_is_unique, create_job_again}

abbrev key_text : Text
key_text = 107 ∷ 49 ∷ []

abbrev first_job : Op
first_job = create 5 "home" "download_single" none (some key_text)

abbrev job_ops : List Op
job_ops = first_job ∷ first_job ∷ claim 6 1 ∷ claim 7 1 ∷ []

claimed_at_most_once_example : claims_of 1 job_ops empty_db ≤ 1 + resets_of 1 job_ops empty_db
claimed_at_most_once_example = claimed_at_most_once 1 job_ops

active_key_is_unique_example : count (is_active_with key_text) (run_ops job_ops empty_db).rows ≤ 1
active_key_is_unique_example = active_key_is_unique 107 (49 ∷ []) job_ops (tt, (tt, (tt, (tt, tt))))

abbrev queued_job : Job
queued_job = (create_job 5 "home" "download_single" none (some key_text) empty_db).1

abbrev claimed : List Op
claimed = first_job ∷ claim 6 1 ∷ []

found_running : find_job 1 (run_ops claimed empty_db).rows ≡ some (started 6 queued_job)
unfolding find_job run_ops apply create_job claim_job
found_running = refl

has_key : queued_job.idempotency_key ≡ some key_text
unfolding create_job
has_key = refl

create_job_again_example :
    create_job 9 "work" "update_downloads" none (some key_text) (run_ops claimed empty_db)
    ≡ (run_ops claimed empty_db, started 6 queued_job)
create_job_again_example =
    create_job_again 107 (49 ∷ []) claimed 1 (started 6 queued_job) 9 "work" "update_downloads" none
      (tt, (tt, tt)) found_running has_key (inr refl)

-- The object of a running job is read, the job ends, and then the object is found stale and saved.
abbrev late_reset : List Op
late_reset =
    first_job
    ∷ claim 6 1
    ∷ succeed 7 (started 6 queued_job)
    ∷ requeue 99_999_999_999 99_999_999_999 (codes "21600") (started 6 queued_job)
    ∷ []

ended_job_is_queued_again : count (λ j. is_queued j.status) (run_ops late_reset empty_db).rows ≡ 1
unfolding run_ops apply create_job claim_job finish_job make_stale_job_queued is_stale
ended_job_is_queued_again = refl
