-- ===== src/Runner/Acceptance.antt =====
-- The publisher and the consumers agree on downloads.
use getoffline.Base.{
  ◌≡◌, refl, ap, ◌∙◌, ◌⊎◌, inl, inr, true, Option, none, some, List, ◌==◌, Payload, pos,
  if◌then◌else◌, ℕ,
}
use getoffline.Domain.{
  SourceType, youtube, podcast, MediaType, audio, video, JobType, download_episode, download_single,
  job_type_value, QueueName, queue_name_value,
}
use getoffline.Jobs.{Job, find_job}
use getoffline.Routing.{queue_name, download_queue_name, is_audio, is_podcast, is_youtube}
use getoffline.Routing.Queues.{queue_for, queue_name-queue_for}
use getoffline.Runner.{
  WorkerType, downloader_youtube, downloader_podcast, queue_by_worker, is_downloader,
}
use getoffline.Runner.Delivery.{
  allows, source_or, source_type_for_downloader_job, worker_accepts_job,
}

abbrev IsDownload : JobType → Type 0
IsDownload t = (t ≡ download_episode) ⊎ (t ≡ download_single)

source_queue :
    (worker : WorkerType) (s : Option SourceType) (m : Option MediaType)
    → is_downloader worker ≡ true
    → allows worker (source_or s (is_audio m)) ≡ (
        queue_name_value (
          if is_podcast s
          then QueueName.podcast_download
          else if is_youtube s
          then QueueName.youtube_download
          else if is_audio m
          then QueueName.podcast_download
          else QueueName.youtube_download)
        == queue_name_value (queue_by_worker worker))
source_queue downloader_youtube (some youtube) m h = refl
source_queue downloader_youtube (some podcast) m h = refl
source_queue downloader_youtube none (some audio) h = refl
source_queue downloader_youtube none (some video) h = refl
source_queue downloader_youtube none none h = refl
source_queue downloader_podcast (some youtube) m h = refl
source_queue downloader_podcast (some podcast) m h = refl
source_queue downloader_podcast none (some audio) h = refl
source_queue downloader_podcast none (some video) h = refl
source_queue downloader_podcast none none h = refl
source_queue _ s m h = cc

allows-download_queue :
    (worker : WorkerType) (job : Job)
    → is_downloader worker ≡ true
    → allows worker (source_type_for_downloader_job job) ≡ (
        queue_name_value (download_queue_name job.payload)
        == queue_name_value (queue_by_worker worker))
unfolding source_type_for_downloader_job download_queue_name
allows-download_queue worker job h = source_queue worker _ _ h

queue_for_download :
    (t : JobType) (payload : Payload)
    → IsDownload t
    → queue_for t payload ≡ download_queue_name payload
queue_for_download t payload (inl p) = rw p refl
queue_for_download t payload (inr p) = rw p refl

own_queue :
    (t : JobType) (job : Job)
    → IsDownload t
    → job.job_type ≡ job_type_value t
    → queue_name job.job_type job.payload ≡ queue_name_value (download_queue_name job.payload)
own_queue t job d e =
    ap (λ s. queue_name s job.payload) e
    ∙ queue_name-queue_for t job.payload
    ∙ ap queue_name_value (queue_for_download t job.payload d)

-- A downloader takes the message of a download job in the table exactly if the job's messages are
-- published to the queue that this downloader consumes: a message that reaches its own queue is
-- never sent back.
pub downloader_accepts_own_queue :
    (worker : WorkerType) (t : JobType) (job : Job) (rows : List Job) (id : ℕ)
    → is_downloader worker ≡ true
    → IsDownload t
    → job.job_type ≡ job_type_value t
    → find_job id rows ≡ some job
    → worker_accepts_job worker (pos id) rows
      ≡ (queue_name job.job_type job.payload == queue_name_value (queue_by_worker worker))
unfolding worker_accepts_job
downloader_accepts_own_queue worker t job rows id w d e h =
    rw (w, h, worker_accepts_job) (rw (own_queue t job d e) (allows-download_queue worker job w))
