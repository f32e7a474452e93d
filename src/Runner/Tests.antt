-- ===== src/Runner/Tests.antt =====
-- The theorems on the workers at small inputs.
use getoffline.Base.{
  ℕ, ◌≡◌, refl, arith, String, false, Option, none, some, List, [], ◌∷◌, All, codes, Text, str, int,
  pos, Exc, raised, inr, err, ◌==◌,
}
use getoffline.Domain.{download_single, HeavyJobKind, queue_name_value, queued}
use getoffline.Jobs.{Job, Db, find_job, started, claim_job}
use getoffline.Jobs.Steps.{IsTable}
use getoffline.Routing.{queue_name}
use getoffline.Runner.{
  downloader_youtube, downloader_podcast, queue_by_worker, WorkerConfig, Handler,
  process_queued_job_message, run_claimed_job,
}
use getoffline.Runner.Completion.{ended, processing_ends_job}
use getoffline.Runner.Delivery.{
  worker_accepts_job, malformed, object, Delivery, Event, consume, requeue_existing_jobs,
  handle_delivery, from_body,
}
use getoffline.Runner.Acceptance.{downloader_accepts_own_queue}
use getoffline.Runner.Consuming.{IsSound, tags, worker_settles_in_order}
use getoffline.Runner.Requeue.{IsOwn, requeue_to_own_queue}

abbrev a_job : Job
a_job = record {
  id = 7;
  profile_id = "home";
  job_type = "download_single";
  status = queued;
  payload = some (("source_type", str (codes "podcast")) ∷ []);
  idempotency_key = none;
  error_message = none;
  created_at = 1;
  updated_at = 1;
  started_at = none;
  finished_at = none;
}

abbrev a_db : Db
a_db = record { rows = a_job ∷ []; next_id = 8 }

-- a handler that fails on every job
abbrev broken : Handler
broken job db = (db, err (raised (codes "no network")))

abbrev all_broken : String → Option Handler
all_broken job_type = some broken

abbrev in_slot : HeavyJobKind → Handler → Handler
in_slot kind handler = handler

abbrev exc_text : Exc → Text
exc_text e = codes "no network"

a_db-IsTable : IsTable a_db
a_db-IsTable = record { distinct = (tt, tt); below = (omega arith, tt) }

a_job_found : find_job 7 a_db.rows ≡ some a_job
unfolding find_job
a_job_found = refl

ran_left :
    find_job 7
      (run_claimed_job all_broken in_slot exc_text (started 5 a_job) (claim_job 5 7 a_db).0).0.rows
    ≡ some (started 5 a_job)
unfolding find_job run_claimed_job claim_job
ran_left = refl

processing_ends_job_example :
    (find_job 7 (process_queued_job_message all_broken in_slot exc_text 5 6 (pos 7) a_db).0.rows
      ≡ some (
          ended exc_text 6
            (run_claimed_job all_broken in_slot exc_text (started 5 a_job) (claim_job 5 7 a_db).0).1
            (started 5 a_job)))
    × ((process_queued_job_message all_broken in_slot exc_text 5 6 (pos 7) a_db).1
        ≡ (run_claimed_job all_broken in_slot exc_text (started 5 a_job) (claim_job 5 7 a_db).0).1)
processing_ends_job_example =
    processing_ends_job all_broken in_slot exc_text 5 6 7 a_db a_job (started 5 a_job) a_db-IsTable
      a_job_found refl ran_left

downloader_accepts_own_queue_example : worker_accepts_job downloader_youtube (pos 7) a_db.rows ≡ (
    queue_name "download_single" a_job.payload
    == queue_name_value (queue_by_worker downloader_youtube))
downloader_accepts_own_queue_example =
    downloader_accepts_own_queue downloader_youtube download_single a_job a_db.rows 7 refl
      (inr refl) refl a_job_found

abbrev config : WorkerConfig
config = record {
  worker_type = downloader_podcast;
  queue = queue_by_worker downloader_podcast;
  prefetch_count = 4;
  max_messages = 2;
}

abbrev a_delivery : ℕ → Delivery
a_delivery tag = record {
  tag = tag;
  body = object (("job_id", int (pos 7)) ∷ []);
  claimed_at = 5;
  finished_at = 6;
}

abbrev events : List Event
events =
    record { stop = false; delivery = some (a_delivery 1) }
    ∷ record { stop = false; delivery = none }
    ∷ record { stop = false; delivery = some (a_delivery 2) }
    ∷ []

worker_settles_in_order_example :
    IsSound (tags events) 0 2 (consume all_broken in_slot exc_text config 0 events a_db)
worker_settles_in_order_example =
    worker_settles_in_order all_broken in_slot exc_text config events a_db (omega arith)

requeue_to_own_queue_example :
    All (IsOwn downloader_podcast) (requeue_existing_jobs downloader_podcast a_db.rows)
requeue_to_own_queue_example = requeue_to_own_queue downloader_podcast a_db.rows

-- A body that is no JSON leaves the delivery neither acknowledged nor refused, and ends the worker.
malformed_body_is_not_settled :
    (handle_delivery all_broken in_slot exc_text downloader_podcast
      (record {
        tag = 1;
        body = malformed (raised (codes "json"));
        claimed_at = 5;
        finished_at = 6;
      })
      a_db).settled
    ≡ []
unfolding handle_delivery from_body
malformed_body_is_not_settled = refl
