-- ===== src/Actions.antt =====
-- The jobs that the dashboard creates: `enqueue_job` of src/api/services/dashboard_actions.py. A form or a
-- query is the function of its fields, `none` for a field that was not sent.
pub mod Status
pub mod Reports
pub mod Updates
pub mod Polls
mod Tests
use getoffline.Base.{
  ℕ, String, Bool, true, false, not, ◌&&◌, Option, none, some, List, [], ◌∷◌, ◌++◌, ◌==◌, nat_eq,
  leb, ltb, ◌||◌, first, keep, sort_by, Text, codes, text_eq, strip, is_empty, decimal, ℤ, pos,
  negsuc, parse_int, Value, null, bool, str, Dict, get, put, dict_or_empty, str_or_empty, Exc,
  raised, Outcome, ok, err, if◌then◌else◌,
}
use getoffline.Domain.{
  JobStatus, succeeded, failed, job_status_value, job_statuses, JobType, update_downloads,
  download_single, job_type_value, parse_str_enum,
}
use getoffline.Jobs.{Job, Db, find_job, create_job}
use getoffline.Routing.{Publication, publish_job}
use getoffline.Discovery.{text_or}
use getoffline.Discovery.Scan.{message_of}

abbrev pub Form : Type 0
Form = Text → Option Text

-- str(form.get(key) or "")
abbrev pub field_at : Form → Text → Text
field_at form key = elim (form key) [ none ↦ [] | some t ↦ t ]

abbrev pub field : Form → String → Text
field form key = field_at form (codes key)

abbrev is_true_text : Text → Bool
is_true_text t =
    text_eq t (codes "1")
    || text_eq t (codes "true")
    || text_eq t (codes "yes")
    || text_eq t (codes "on")

-- _posted_bool; `default` is the value of a field that was not sent
unfoldable pub posted_bool : Form → Text → Text → Bool
unfolding text_eq
posted_bool form key default = elim (form key) [
  | none ↦ is_true_text default
  | some t ↦ is_true_text t
]

-- the member of ALLOWED_JOB_TYPES that the text is
unfoldable pub allowed_job_type : Text → Option JobType
unfolding text_eq
allowed_job_type t =
    if text_eq t (codes "update_downloads")
    then some update_downloads
    else if text_eq t (codes "download_single")
    then some download_single
    else none

-- the payload before the URL is added; `marker` is `uuid.uuid4().hex`
abbrev payload_of_type : Form → Text → JobType → Dict
payload_of_type form marker update_downloads =
    ("source", str (codes "django_app")) ∷ ("completion_token", str marker) ∷ []
payload_of_type form marker download_single =
    ("source", str (codes "django_app"))
    ∷ ("manual_enqueue", bool true)
    ∷ ("delete_explicit_content", bool (posted_bool form (codes "delete_explicit_content") []))
    ∷ []
payload_of_type form marker _ = ("source", str (codes "django_app")) ∷ []

unfoldable pub enqueue_payload : Form → Text → JobType → Dict
unfolding posted_bool put strip
enqueue_payload form marker job_type =
    if is_empty (field form "url")
    then payload_of_type form marker job_type
    else put "url" (str (strip (field form "url"))) (payload_of_type form marker job_type)

abbrev key_suffix : Form → Text → JobType → Text
key_suffix form marker update_downloads = marker
key_suffix form marker _ =
    if is_empty (field form "url") then codes "manual" else strip (field form "url")

unfoldable pub enqueue_key : String → Form → Text → JobType → Text
unfolding strip
enqueue_key profile form marker job_type = text_or (field form "idempotency_key") (
    codes (job_type_value job_type)
    ++ (58 ∷ (codes profile ++ (58 ∷ key_suffix form marker job_type))))

-- What the page polls with: the token of the update, or the key of the job.
pub data Poll : Type 0 where
  by_token : Text → Poll
  by_job : ℕ → Poll

abbrev poll_of : Text → JobType → Job → Poll
poll_of marker update_downloads job = by_token marker
poll_of marker _ job = by_job job.id

-- What comes of the form: the request is refused, or the job is there, published, and has its poll.
pub data Answer : Type 0 where
  bad_request : Answer
  accepted : Job → Publication → Poll → Answer

abbrev pub after_enqueue : Text → JobType → Db × Job → Db × Answer
after_enqueue marker job_type (db, job) =
    (db, accepted job (publish_job db.rows (message_of job)) (poll_of marker job_type job))

unfoldable pub enqueue_job : Bool → ℕ → Text → String → Form → Db → Db × Answer
unfolding allowed_job_type enqueue_payload enqueue_key strip
enqueue_job is_post now marker profile form db =
    if not is_post
    then (db, bad_request)
    else elim (allowed_job_type (strip (field form "job_type"))) [
      | none ↦ (db, bad_request)
      | some job_type ↦ after_enqueue marker job_type (
          create_job now profile (job_type_value job_type)
            (some (enqueue_payload form marker job_type))
            (some (enqueue_key profile form marker job_type)) db)
    ]

-- The request's headers, by their lower-case names.
abbrev wants_json : (String → Option Text) → Bool
wants_json headers =
    is_sent (headers "x-requested-with") (codes "XMLHttpRequest")
    || is_sent (headers "accept") (codes "application/json")
  where
    is_sent : Option Text → Text → Bool
    is_sent none t = false
    is_sent (some h) t = text_eq h t

pub data Response : Type 0 where
  refused : Response
  json : ℕ → Text → Poll → Response
  redirect : Text → Response

-- What `enqueue_job` sends at its end. `is_allowed` is `url_has_allowed_host_and_scheme` for the host of
-- the request, and `jobs_page` the URL of the page `jobs`.
unfoldable pub enqueue_response :
    (Text → Bool) → Text → (String → Option Text) → Form → Answer → Response
unfolding text_eq
enqueue_response is_allowed jobs_page headers form bad_request = refused
enqueue_response is_allowed jobs_page headers form (accepted job publication poll) =
    if wants_json headers
    then json job.id (codes (job_status_value job.status)) poll
    else if not (is_empty (field form "next")) && is_allowed (field form "next")
    then redirect (field form "next")
    else redirect jobs_page
