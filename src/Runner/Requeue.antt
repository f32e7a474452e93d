-- ===== src/Runner/Requeue.antt =====
-- The messages that a worker publishes again at its start.
use getoffline.Base.{
  String, Bool, true, false, Bool-cases, inl, inr, List, [], ◌∷◌, ◌≡◌, refl, sym, ap, ◌∙◌, arith,
  eq_iff, ◌==◌, All, All-sort_by, All-take, keep, any,
}
use getoffline.Domain.{JobType, job_type_value, QueueName, queue_name_value}
use getoffline.Jobs.{Job}
use getoffline.Routing.{Publication, queue_name}
use getoffline.Routing.Queues.{queue_for, queue_name-queue_for}
use getoffline.Runner.{
  WorkerType, updates, downloader_youtube, downloader_podcast, transcripts, ffmpeg, cleanup,
  queue_by_worker, job_types_by_worker,
}
use getoffline.Runner.Delivery.{
  is_for_worker, is_before, queued_jobs_for_worker, worker_type_is_wrong_downloader,
  publish_requeued_jobs, requeue_existing_jobs,
}

IsForWorker : WorkerType → Job → Type 0
IsForWorker worker job = is_for_worker worker job ≡ true

All-keep_self : (p : Job → Bool) (jobs : List Job) → All (λ j. p j ≡ true) (keep p jobs)
All-keep_self p [] = tt
All-keep_self p (j ∷ jobs) = elim (Bool-cases (p j)) [
  | inl e ↦ rw e (e, All-keep_self p jobs)
  | inr e ↦ rw e (All-keep_self p jobs)
]

selected :
    (worker : WorkerType) (rows : List Job)
    → All (λ j. is_for_worker worker j ≡ true) (queued_jobs_for_worker worker rows)
unfolding queued_jobs_for_worker
selected worker rows = All-take _ 500 _ (
    All-sort_by _ is_before (keep (is_for_worker worker) rows)
      (All-keep_self (is_for_worker worker) rows))

queue_at :
    (t : JobType) (job : Job)
    → (job_type_value t == job.job_type) ≡ true
    → queue_name job.job_type job.payload ≡ queue_name_value (queue_for t job.payload)
queue_at t job h =
    ap (λ s. queue_name s job.payload) (sym ((eq_iff _ _).0 h)) ∙ queue_name-queue_for t job.payload

queue_of_types :
    (ts : List JobType) (job : Job) (queue : String)
    → any (λ t. job_type_value t == job.job_type) ts ≡ true
    → All (λ t. queue_name_value (queue_for t job.payload) ≡ queue) ts
    → queue_name job.job_type job.payload ≡ queue
queue_of_types [] job queue h q = cc
queue_of_types (t ∷ ts) job queue h q = elim (Bool-cases (job_type_value t == job.job_type)) [
  | inl e ↦ queue_at t job e ∙ q.0
  | inr e ↦ queue_of_types ts job queue (ground arith) q.1
]

selected_type :
    (worker : WorkerType) (job : Job)
    → is_for_worker worker job ≡ true
    → any (λ t. job_type_value t == job.job_type) (job_types_by_worker worker) ≡ true
selected_type worker job h = ground arith

-- A job that a worker selects goes to the worker's queue, unless the worker is the wrong downloader.
own_queue :
    (worker : WorkerType) (job : Job)
    → is_for_worker worker job ≡ true
    → worker_type_is_wrong_downloader worker (queue_name job.job_type job.payload) ≡ false
    → queue_name job.job_type job.payload ≡ queue_name_value (queue_by_worker worker)
unfolding worker_type_is_wrong_downloader
own_queue downloader_youtube job h w =
    (eq_iff (queue_name job.job_type job.payload) (queue_name_value QueueName.youtube_download)).0
      (ground arith)
own_queue downloader_podcast job h w =
    (eq_iff (queue_name job.job_type job.payload) (queue_name_value QueueName.podcast_download)).0
      (ground arith)
own_queue updates job h w =
    queue_of_types (job_types_by_worker updates) job _ (selected_type updates job h)
      (refl, (refl, tt))
own_queue transcripts job h w =
    queue_of_types (job_types_by_worker transcripts) job _ (selected_type transcripts job h)
      (refl, (refl, tt))
own_queue ffmpeg job h w =
    queue_of_types (job_types_by_worker ffmpeg) job _ (selected_type ffmpeg job h) (refl, tt)
own_queue cleanup job h w =
    queue_of_types (job_types_by_worker cleanup) job _ (selected_type cleanup job h) (refl, tt)

-- The publication goes to the queue that the worker consumes.
abbrev pub IsOwn : WorkerType → Publication → Type 0
IsOwn worker p = p.routing_key ≡ queue_name_value (queue_by_worker worker)

published-IsOwn :
    (worker : WorkerType) (jobs : List Job)
    → All (λ j. is_for_worker worker j ≡ true) jobs
    → All (IsOwn worker) (publish_requeued_jobs worker jobs)
unfolding publish_requeued_jobs
published-IsOwn worker [] h = tt
published-IsOwn worker (job ∷ jobs) h =
    elim (Bool-cases
      (worker_type_is_wrong_downloader worker (queue_name job.job_type job.payload))) [
        | inl e ↦ rw e (published-IsOwn worker jobs h.1)
        | inr e ↦ rw e (own_queue worker job h.0 e, published-IsOwn worker jobs h.1)
      ]

-- A worker that publishes queued jobs again publishes them to the queue that it consumes itself, and to
-- no other, whatever jobs the table has.
pub requeue_to_own_queue :
    (worker : WorkerType) (rows : List Job) → All (IsOwn worker) (requeue_existing_jobs worker rows)
unfolding requeue_existing_jobs
requeue_to_own_queue worker rows =
    published-IsOwn worker (queued_jobs_for_worker worker rows) (selected worker rows)
