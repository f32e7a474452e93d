-- ===== src/Runner/Delivery.antt =====
-- The second half of src/workers/runner.py: which deliveries a worker takes, how it settles each, the
-- consuming loop, and the messages that it publishes again at its start. A channel is the list of the
-- settlements made on it.
use getoffline.Base.{
  ℕ, ◌+◌, String, Bool, true, false, not, ◌&&◌, ◌||◌, Option, none, some, List, [], ◌∷◌, ◌++◌, ◌==◌,
  leb, ltb, nat_eq, any, keep, take, sort_by, Text, codes, ℤ, pos, negsuc, int_of, Dict, get,
  has_key, dict_or_empty, Exc, key_error, raised, Outcome, ok, err, if◌then◌else◌,
}
use getoffline.Domain.{
  SourceType, youtube, podcast, job_type_value, HeavyJobKind, source_types, media_types,
  queue_name_value, parse_str_enum,
}
use getoffline.Jobs.{Job, Db, is_queued, find_job}
use getoffline.Routing.{is_audio, queue_name, job_priority, queue_arguments, Message, Publication}
use getoffline.Runner.{
  WorkerType, downloader_youtube, queue_by_worker, job_types_by_worker, is_downloader, WorkerConfig,
  Handler, process_queued_job_message,
}

abbrev pub source_or : Option SourceType → Bool → SourceType
source_or (some s) audio = s
source_or none true = podcast
source_or none false = youtube

unfoldable pub source_type_for_downloader_job : Job → SourceType
source_type_for_downloader_job job =
    let d = dict_or_empty job.payload in
    source_or (parse_str_enum source_types (get d "source_type"))
      (is_audio (parse_str_enum media_types (get d "media_type")))

-- the source that a downloader takes
abbrev pub allows : WorkerType → SourceType → Bool
allows downloader_youtube youtube = true
allows downloader_youtube podcast = false
allows _ youtube = false
allows _ podcast = true

abbrev find_row : ℤ → List Job → Option Job
find_row (pos id) rows = find_job id rows
find_row (negsuc n) rows = none

unfoldable pub worker_accepts_job : WorkerType → ℤ → List Job → Bool
unfolding source_type_for_downloader_job
worker_accepts_job worker job_id rows =
    if not (is_downloader worker) then true else elim (find_row job_id rows) [
      | none ↦ true
      | some job ↦ allows worker (source_type_for_downloader_job job)
    ]

-- A body that is no JSON object raises; else it is the object.
pub data Body : Type 0 where
  malformed : Exc → Body
  object : Dict → Body

-- `QueuedJobMessage.from_body`, of which the code goes on to use `job_id`.
unfoldable pub from_body : Body → Outcome ℤ
unfolding int_of
from_body (malformed e) = err e
from_body (object d) =
    if has_key d "job_id"
    then elim (int_of (get d "job_id")) [ none ↦ err (raised (codes "job_id")) | some n ↦ ok n ]
    else err (key_error "job_id")

pub record Delivery : Type 0 where
  pub tag : ℕ
  pub body : Body
  pub claimed_at : ℕ
  pub finished_at : ℕ

-- basic_ack(tag), and basic_nack(tag, requeue=...)
pub data Settlement : Type 0 where
  ack : ℕ → Settlement
  nack : Bool → ℕ → Settlement

pub record Handled : Type 0 where
  pub db : Db
  pub settled : List Settlement
  pub outcome : Outcome ℕ

-- One result of `channel.consume`: `none` is the inactivity timeout. `stop` is the flag that a signal
-- may have set by then.
pub record Event : Type 0 where
  pub stop : Bool
  pub delivery : Option Delivery

pub data Cause : Type 0 where
  stopped limit_reached still_consuming : Cause
  crashed : Exc → Cause

-- How the loop is left: the settlements made, the events not dealt with, and how many messages
-- counted as processed.
pub record Ended : Type 0 where
  pub db : Db
  pub settled : List Settlement
  pub rest : List Event
  pub processed : ℕ
  pub cause : Cause

abbrev pub after : List Settlement → Ended → Ended
after settled e = record e { settled = settled ++ e.settled }

-- The end of process_delivery: ack_completed_delivery or nack_failed_delivery.
abbrev pub settle : ℕ → Db × Outcome (Unit {0}) → Handled
settle tag (db, ok u) = record { db = db; settled = ack tag ∷ []; outcome = ok 1 }
settle tag (db, err e) = record { db = db; settled = nack false tag ∷ []; outcome = ok 1 }

-- The end of a turn of the loop: a message that raises leaves it, and so does the last one of
-- `max_messages`; else the loop goes on with the count of processed messages.
abbrev pub finish_turn :
    WorkerConfig → ℕ → Event → List Event → Handled → Outcome ℕ → (ℕ → Db → Ended) → Ended
finish_turn config n e events handled (err exc) go_on = record {
  db = handled.db;
  settled = handled.settled;
  rest = e ∷ events;
  processed = n;
  cause = crashed exc;
}
finish_turn config n e events handled (ok k) go_on =
    if leb config.max_messages (n + k)
    then record {
      db = handled.db;
      settled = handled.settled;
      rest = events;
      processed = n + k;
      cause = limit_reached;
    }
    else after handled.settled (go_on (n + k) handled.db)

module _ (handlers : String → Option Handler) (scheduler_run : HeavyJobKind → Handler → Handler)
    (str_exc : Exc → Text) where
  -- process_delivery
  unfoldable pub process_delivery : Delivery → ℤ → Db → Handled
  process_delivery d job_id db = settle d.tag (
      process_queued_job_message handlers scheduler_run str_exc d.claimed_at d.finished_at job_id
        db)

  unfoldable pub handle_delivery : WorkerType → Delivery → Db → Handled
  handle_delivery worker d db = elim (from_body d.body) [
    | err e ↦ record { db = db; settled = []; outcome = err e }
    | ok job_id ↦
        if not (worker_accepts_job worker job_id db.rows)
        then record { db = db; settled = nack true d.tag ∷ []; outcome = ok 0 }
        else process_delivery d job_id db
  ]

  -- consume_worker_messages
  unfoldable pub consume : WorkerConfig → ℕ → List Event → Db → Ended
  consume config n [] db = record {
    db = db;
    settled = [];
    rest = [];
    processed = n;
    cause = still_consuming;
  }
  consume config n (e ∷ events) db =
      if e.stop
      then record { db = db; settled = []; rest = e ∷ events; processed = n; cause = stopped }
      else elim e.delivery [
        | none ↦ consume config n events db
        | some d ↦
            let handled = handle_delivery config.worker_type d db in
            finish_turn config n e events handled handled.outcome
              (λ n' db'. consume config n' events db')
      ]

-- order_by("created_at", "id")
abbrev pub is_before : Job → Job → Bool
is_before a b = ltb a.created_at b.created_at || (nat_eq a.created_at b.created_at && leb a.id b.id)

-- filter(status=QUEUED, job_type__in=...)
abbrev pub is_for_worker : WorkerType → Job → Bool
is_for_worker worker job =
    is_queued job.status && any (λ t. job_type_value t == job.job_type) (job_types_by_worker worker)

unfoldable pub queued_jobs_for_worker : WorkerType → List Job → List Job
unfolding sort_by
queued_jobs_for_worker worker rows = take 500 (sort_by is_before (keep (is_for_worker worker) rows))

unfoldable pub worker_type_is_wrong_downloader : WorkerType → String → Bool
worker_type_is_wrong_downloader worker target_queue =
    is_downloader worker && not (target_queue == queue_name_value (queue_by_worker worker))

abbrev message_of : Job → Message
message_of job = record {
  job_id = job.id;
  job_type = job.job_type;
  profile_id = job.profile_id;
  attempt = 1;
  payload = job.payload;
  priority = none;
}

-- The queue was declared by `declare_worker_queue` before.
unfoldable pub publish_requeued_job : Job → String → Publication
publish_requeued_job job target_queue = record {
  routing_key = target_queue;
  max_priority = queue_arguments target_queue;
  priority = job_priority (message_of job);
  body = record (message_of job) { payload = none };
}

unfoldable pub publish_requeued_jobs : WorkerType → List Job → List Publication
unfolding worker_type_is_wrong_downloader publish_requeued_job
publish_requeued_jobs worker [] = []
publish_requeued_jobs worker (job ∷ jobs) =
    let target_queue = queue_name job.job_type job.payload in
    let rest = publish_requeued_jobs worker jobs in
    if worker_type_is_wrong_downloader worker target_queue
    then rest
    else publish_requeued_job job target_queue ∷ rest

unfoldable pub requeue_existing_jobs : WorkerType → List Job → List Publication
unfolding queued_jobs_for_worker publish_requeued_jobs
requeue_existing_jobs worker rows =
    publish_requeued_jobs worker (queued_jobs_for_worker worker rows)
