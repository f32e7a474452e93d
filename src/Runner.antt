-- ===== src/Runner.antt =====
-- src/workers/runner.py: a worker consumes the messages of its queue, claims the job of each, runs it
-- and settles the message. The handlers of the jobs and Python's `str(exc)` are parameters; so is
-- `_scheduler().run`, which is modelled in `Slots.Client`.
pub mod Completion
pub mod Delivery
pub mod Messages
pub mod Acceptance
pub mod Consuming
pub mod Requeue
mod Tests
use getoffline.Base.{
  ℕ, suc, ◌+◌, String, Bool, true, false, not, ◌&&◌, ◌||◌, Option, none, some, List, [], ◌∷◌, ◌++◌,
  ◌==◌, leb, any, keep, take, max, min, Text, codes, text_eq, strip, lower, decimal, ℤ, pos, negsuc,
  at_least_one, parse_int, is_zero, Value, str, int, int_of, str_or_empty, py_str, Dict, get,
  has_key, Payload, dict_or_empty, Exc, key_error, raised, Outcome, ok, err, if◌then◌else◌,
}
use getoffline.Domain
use getoffline.Domain.{
  SourceType, youtube, podcast, JobStatus, queued, succeeded, failed, job_status_value, JobType,
  job_type_value, job_types, source_types, media_types, HeavyJobKind, QueueName, queue_name_value,
  parse_str_enum,
}
use getoffline.Slots.{heavy_kind}
use getoffline.Jobs.{Job, Db, has_key_of, find_job, insert_job, claim_job, finish_job}
use getoffline.Routing.{is_audio, queue_name, queue_arguments, job_priority, Message, Publication}

-- the keys of QUEUE_BY_WORKER
pub data WorkerType : Type 0 where
  updates downloader_youtube downloader_podcast transcripts ffmpeg cleanup : WorkerType

abbrev pub queue_by_worker : WorkerType → QueueName
queue_by_worker updates = QueueName.serial_episode_check
queue_by_worker downloader_youtube = QueueName.youtube_download
queue_by_worker downloader_podcast = QueueName.podcast_download
queue_by_worker transcripts = QueueName.transcript
queue_by_worker ffmpeg = QueueName.ffmpeg
queue_by_worker cleanup = QueueName.cleanup

abbrev pub job_types_by_worker : WorkerType → List JobType
job_types_by_worker updates = JobType.check_for_episodes ∷ JobType.update_downloads ∷ []
job_types_by_worker downloader_youtube = JobType.download_episode ∷ JobType.download_single ∷ []
job_types_by_worker downloader_podcast = JobType.download_episode ∷ JobType.download_single ∷ []
job_types_by_worker transcripts = JobType.generate_transcript ∷ JobType.generate_ocr ∷ []
job_types_by_worker ffmpeg = JobType.transcode_media ∷ []
job_types_by_worker cleanup = JobType.retention_cleanup ∷ []

-- SERIAL_WORKERS and DOWNLOADER_WORKERS
abbrev pub is_serial : WorkerType → Bool
is_serial updates = true
is_serial downloader_youtube = true
is_serial _ = false

abbrev pub is_downloader : WorkerType → Bool
is_downloader downloader_youtube = true
is_downloader downloader_podcast = true
is_downloader _ = false

pub record WorkerConfig : Type 0 where
  pub worker_type : WorkerType
  pub queue : QueueName
  pub prefetch_count : ℕ
  pub max_messages : ℕ

-- requested_prefetch or 4
abbrev or_four : Option ℤ → ℤ
or_four none = pos 4
or_four (some z) = if is_zero z then pos 4 else z

unfoldable pub safe_prefetch_count : WorkerType → Option ℤ → ℕ
safe_prefetch_count worker requested =
    if is_serial worker then 1 else at_least_one (or_four requested)

-- The text is GETOFFLINE_WORKER_MAX_MESSAGES; `none` is the `ValueError` of `int`.
unfoldable pub safe_max_messages : Option ℤ → Text → Option ℕ
unfolding parse_int
safe_max_messages (some z) configured = some (at_least_one z)
safe_max_messages none configured = elim (parse_int configured) [
  | none ↦ none
  | some z ↦ some (at_least_one z)
]

unfoldable pub build_worker_config : WorkerType → Option ℤ → Option ℤ → Text → Option WorkerConfig
unfolding safe_prefetch_count safe_max_messages
build_worker_config worker prefetch max_messages configured =
    elim (safe_max_messages max_messages configured) [
      | none ↦ none
      | some n ↦ some (record {
        worker_type = worker;
        queue = queue_by_worker worker;
        prefetch_count = safe_prefetch_count worker prefetch;
        max_messages = n;
      })
    ]

abbrev pub Handler : Type 0
Handler = Job → Db → Db × Outcome (Unit {0})

-- update_completion_token
unfoldable pub update_completion_token : Job → Text
unfolding get str_or_empty strip
update_completion_token job =
    strip (str_or_empty (get (dict_or_empty job.payload) "completion_token"))

-- f"worker_message:update_downloads:{job.id}:{completion_token}"
unfoldable pub message_key : Job → Text → Text
unfolding decimal
message_key job token =
    codes "worker_message:update_downloads:" ++ (decimal job.id ++ (codes ":" ++ token))

abbrev pub update_finished : Job → Text → JobStatus → Text → Payload
update_finished job token status error_message = some (
    ("event_type", str (codes "update_downloads_finished"))
    ∷ ("completion_token", str token)
    ∷ ("source_job_id", int (pos job.id))
    ∷ ("source_status", str (codes (job_status_value status)))
    ∷ ("error_message", str error_message)
    ∷ [])

unfoldable pub create_update_finished_message_once : ℕ → Job → Text → JobStatus → Text → Db → Db
create_update_finished_message_once now job token status error_message db =
    if any (λ row. has_key_of (message_key job token) row.idempotency_key) db.rows
    then db
    else (insert_job now job.profile_id "worker_message" succeeded
        (update_finished job token status error_message) (some (message_key job token)) db).0

abbrev is_update : Option JobType → Bool
is_update (some JobType.update_downloads) = true
is_update _ = false

abbrev is_blank : Text → Bool
is_blank [] = true
is_blank (c ∷ t) = false

unfoldable pub emit_update_finished_message : ℕ → Job → JobStatus → Text → Db → Db
emit_update_finished_message now job status error_message db =
    if not (is_update (parse_str_enum job_types (str (codes job.job_type))))
    then db
    else if is_blank (update_completion_token job)
    then db
    else create_update_finished_message_once now job (update_completion_token job) status
        error_message db

-- then emit, if the save did not raise
abbrev and_emit : ℕ → Job → JobStatus → Text → Db × Outcome (Unit {0}) → Db × Outcome (Unit {0})
and_emit now job status error_message (db, ok u) =
    (emit_update_finished_message now job status error_message db, ok u)
and_emit now job status error_message (db, err e) = (db, err e)

unfoldable pub mark_job_succeeded : ℕ → Job → Db → Db × Outcome (Unit {0})
mark_job_succeeded now job db = and_emit now job succeeded [] (finish_job now job succeeded none db)

unfoldable pub mark_job_failed : ℕ → Job → Text → Db → Db × Outcome (Unit {0})
mark_job_failed now job message db =
    and_emit now job failed message (finish_job now job failed (some message) db)

-- HEAVY_JOB_TYPES.get(job_type): the members are compared by their values.
abbrev member_named : String → List JobType → Option JobType
member_named s [] = none
member_named s (t ∷ ts) = if job_type_value t == s then some t else member_named s ts

abbrev heavy_of : Option JobType → Option HeavyJobKind
heavy_of none = none
heavy_of (some t) = heavy_kind t

unfoldable pub heavy_kind_of : String → Option HeavyJobKind
heavy_kind_of job_type = heavy_of (member_named job_type job_types.members)

module _ (handlers : String → Option Handler) (scheduler_run : HeavyJobKind → Handler → Handler)
    (str_exc : Exc → Text) where
  unfoldable pub run_claimed_job : Handler
  unfolding heavy_kind_of
  run_claimed_job job db = elim (handlers job.job_type) [
    | none ↦ (db, err (key_error job.job_type))
    | some handler ↦ elim (heavy_kind_of job.job_type) [
      | none ↦ handler job db
      | some kind ↦ scheduler_run kind handler job db
    ]
  ]

  -- the `except` clause: the job is marked as failed, and the exception raised again
  abbrev raise_again : Exc → Db × Outcome (Unit {0}) → Db × Outcome (Unit {0})
  raise_again e (db, ok u) = (db, err e)
  raise_again e (db, err e') = (db, err e')

  abbrev fail_with : ℕ → Job → Exc → Db → Db × Outcome (Unit {0})
  fail_with now job e db = raise_again e (mark_job_failed now job (str_exc e) db)

  abbrev after_success : ℕ → Job → Db × Outcome (Unit {0}) → Db × Outcome (Unit {0})
  after_success now job (db, ok u) = (db, ok u)
  after_success now job (db, err e) = fail_with now job e db

  abbrev after_run : ℕ → Job → Db × Outcome (Unit {0}) → Db × Outcome (Unit {0})
  after_run now job (db, ok u) = after_success now job (mark_job_succeeded now job db)
  after_run now job (db, err e) = fail_with now job e db

  -- claim_job(int(message.job_id)): no row has a negative key
  abbrev claim : ℕ → ℤ → Db → Db × Option Job
  claim now (pos id) db = claim_job now id db
  claim now (negsuc n) db = (db, none)

  abbrev on_claim : ℕ → Db × Option Job → Db × Outcome (Unit {0})
  on_claim now (db, none) = (db, ok tt)
  on_claim now (db, some job) = after_run now job (run_claimed_job job db)

  -- process_queued_job_message, claimed and finished at the two times
  unfoldable pub process_queued_job_message : ℕ → ℕ → ℤ → Db → Db × Outcome (Unit {0})
  process_queued_job_message claimed_at finished_at job_id db =
      on_claim finished_at (claim claimed_at job_id db)
