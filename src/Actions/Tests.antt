-- ===== src/Actions/Tests.antt =====
-- The theorems on the dashboard's jobs at small inputs.
use getoffline.Base.{
  ◌≡◌, refl, true, false, not, ◌==◌, none, some, [], ◌∷◌, Text, codes, text_eq, pos, parse_int,
  strip, ok, if◌then◌else◌,
}
use getoffline.Domain.{failed, succeeded, job_status_value, update_downloads}
use getoffline.Jobs.{Job, Db, find_job, is_active, finish_job, existing_job, insert_job}
use getoffline.Jobs.Steps.{empty_db}
use getoffline.Actions.{Form, field, allowed_job_type, enqueue_key}
use getoffline.Actions.Status.{pending, text_of, worker_message_status}
use getoffline.Actions.Updates.{new_job}
use getoffline.Actions.Polls.{job_end_is_polled}

abbrev token : Text
token = codes "a1"

abbrev form : Form
form key = if text_eq key (codes "job_type") then some (codes "update_downloads") else none

abbrev query : Form
query key = if text_eq key (codes "token") then some token else none

asked : allowed_job_type (strip (field form "job_type")) ≡ some update_downloads
unfolding allowed_job_type strip text_eq
asked = refl

fresh : existing_job (some (enqueue_key "home" form token update_downloads)) empty_db ≡ none
unfolding existing_job enqueue_key text_eq
fresh = refl

abbrev job : Job
job = new_job 10 97 (49 ∷ []) "home" form empty_db asked fresh

abbrev table : Db
table = record { rows = job ∷ []; next_id = 2 }

abbrev job_query : Form
job_query key = if text_eq key (codes "job_id") then some (codes " 1 ") else none

no_token : strip (field job_query "token") ≡ []
unfolding strip text_eq
no_token = refl

key_sent : strip (field job_query "job_id") ≡ codes "1"
unfolding strip text_eq
key_sent = refl

is_number : parse_int (codes "1") ≡ some (pos 1)
unfolding parse_int
is_number = refl

job_found : find_job 1 table.rows ≡ some job
unfolding find_job insert_job
job_found = refl

of_another : (job.profile_id == "work") ≡ false
unfolding insert_job
of_another = refl

job_end_is_polled_example :
    (worker_message_status job.profile_id job_query table.rows
      ≡ ok (record {
        finished = not (is_active job.status);
        ok = true;
        status = some (codes (job_status_value job.status));
        error_message = some (text_of job.error_message);
        code = 200;
      }))
    × (worker_message_status job.profile_id job_query
          (finish_job 30 job succeeded none table).0.rows
        ≡ ok (record {
          finished = true;
          ok = true;
          status = some (codes "succeeded");
          error_message = some [];
          code = 200;
        }))
    × (worker_message_status job.profile_id job_query
          (finish_job 30 job failed (some (codes "no")) table).0.rows
        ≡ ok (record {
          finished = true;
          ok = true;
          status = some (codes "failed");
          error_message = some (codes "no");
          code = 200;
        }))
    × (worker_message_status "work" job_query table.rows ≡ ok pending)
job_end_is_polled_example =
    job_end_is_polled job_query 49 [] 1 job table 30 (codes "no") "work" no_token key_sent is_number
      job_found of_another
