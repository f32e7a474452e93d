-- ===== src/Actions/Status.antt =====
-- What a poll for a job is answered: `worker_message_status` of src/api/services/dashboard_actions.py.
use getoffline.Base.{
  ℕ, String, Bool, true, false, not, ◌&&◌, Option, none, some, List, [], ◌==◌, nat_eq, leb, ltb,
  ◌||◌, first, keep, sort_by, Text, codes, text_eq, strip, is_empty, ℤ, pos, negsuc, parse_int,
  Value, str, get, dict_or_empty, str_or_empty, raised, Outcome, ok, err, if◌then◌else◌,
}
use getoffline.Domain.{JobStatus, succeeded, failed, job_status_value, job_statuses, parse_str_enum}
use getoffline.Jobs.{Job, find_job}
use getoffline.Actions.{Form, field}

-- The JSON that a poll is answered with.
pub record Report : Type 0 where
  pub finished : Bool
  pub ok : Bool
  pub status : Option Text
  pub error_message : Option Text
  pub code : ℕ

abbrev pub pending : Report
pending = record {
  finished = false;
  ok = true;
  status = some (codes "pending");
  error_message = none;
  code = 200;
}

abbrev missing_token : Report
missing_token = record {
  finished = false;
  ok = false;
  status = none;
  error_message = some (codes "Missing completion token");
  code = 400;
}

abbrev has_ended : JobStatus → Bool
has_ended succeeded = true
has_ended failed = true
has_ended _ = false

abbrev pub text_of : Option Text → Text
text_of none = []
text_of (some t) = t

-- What the attribute `status` of a job holds: a member of `JobStatus` that the program assigned, or the
-- text that a query of the table gave.
pub data StatusObject : Type 0 where
  assigned : JobStatus → StatusObject
  loaded : Text → StatusObject

abbrev is_same : JobStatus → JobStatus → Bool
is_same a b = text_eq (codes (job_status_value a)) (codes (job_status_value b))

-- `status is member`: a member is one object, and a text is another, also where it is equal
abbrev is_object : StatusObject → JobStatus → Bool
is_object (assigned s) member = is_same s member
is_object (loaded t) member = false

-- the attribute of the job that `.first()` gives
abbrev loaded_status : Job → StatusObject
loaded_status job = loaded (codes (job_status_value job.status))

unfoldable pub report_of_job : Job → Report
report_of_job job = record {
  finished = has_ended job.status;
  ok = not (is_object (loaded_status job) failed);
  status = some (codes (job_status_value job.status));
  error_message = some (text_of job.error_message);
  code = 200;
}

abbrev pub find_key : ℤ → List Job → Option Job
find_key (pos id) rows = find_job id rows
find_key (negsuc n) rows = none

-- the poll by the key of the job; a text that is no number raises
unfoldable pub status_of_job : String → Text → List Job → Outcome Report
unfolding parse_int find_job report_of_job
status_of_job profile job_id rows = elim (parse_int job_id) [
  | none ↦ err (raised (codes "ValueError"))
  | some z ↦ elim (find_key z rows) [
    | none ↦ ok pending
    | some job ↦ if job.profile_id == profile then ok (report_of_job job) else ok pending
  ]
]

-- a JSON value is the text
abbrev is_text : Text → Value → Bool
is_text t (str s) = text_eq s t
is_text t _ = false

-- the filter of the messages
abbrev pub is_report : String → Text → Job → Bool
is_report profile token row =
    row.profile_id == profile
    && row.job_type == "worker_message"
    && is_text (codes "update_downloads_finished") (get (dict_or_empty row.payload) "event_type")
    && is_text token (get (dict_or_empty row.payload) "completion_token")

-- order_by("-created_at", "-id")
abbrev pub is_after : Job → Job → Bool
is_after a b = ltb b.created_at a.created_at || (nat_eq a.created_at b.created_at && leb b.id a.id)

abbrev is_failed : Option JobStatus → Bool
is_failed (some failed) = true
is_failed _ = false

unfoldable pub report_of_message : Job → Report
unfolding get str_or_empty
report_of_message message =
    let payload = dict_or_empty message.payload in
    let source_status = str_or_empty (get payload "source_status") in
    record {
      finished = true;
      ok = not (is_failed (parse_str_enum job_statuses (str source_status)));
      status = some source_status;
      error_message = some (str_or_empty (get payload "error_message"));
      code = 200;
    }

unfoldable pub status_of_update : String → Text → List Job → Report
unfolding sort_by report_of_message
status_of_update profile token rows =
    elim (first (λ j. true) (sort_by is_after (keep (is_report profile token) rows))) [
      | none ↦ pending
      | some message ↦ report_of_message message
    ]

unfoldable pub worker_message_status : String → Form → List Job → Outcome Report
unfolding status_of_job status_of_update strip
worker_message_status profile query rows =
    let token = strip (field query "token") in
    let job_id = strip (field query "job_id") in
    if is_empty token && not (is_empty job_id)
    then status_of_job profile job_id rows
    else if is_empty token
    then ok missing_token
    else ok (status_of_update profile token rows)
