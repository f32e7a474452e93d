-- ===== src/Routing/Queues.antt =====
-- Which queue a job goes to.
use getoffline.Base.{◌≡◌, refl, ap, ◌∙◌, String, some, Payload}
use getoffline.Domain.{JobType, job_type_value, QueueName, queue_name_value}
use getoffline.Domain.Parsing.{job_type_roundtrip}
use getoffline.Routing.{queue_name, queue_of_type, download_queue_name}

-- the queue of each type of job, by the enumerations
abbrev pub queue_for : JobType → Payload → QueueName
queue_for JobType.check_for_episodes payload = QueueName.serial_episode_check
queue_for JobType.update_downloads payload = QueueName.serial_episode_check
queue_for JobType.download_episode payload = download_queue_name payload
queue_for JobType.download_single payload = download_queue_name payload
queue_for JobType.transcode_media payload = QueueName.ffmpeg
queue_for JobType.generate_transcript payload = QueueName.transcript
queue_for JobType.generate_ocr payload = QueueName.transcript
queue_for JobType.retention_cleanup payload = QueueName.cleanup

queue_of_type-queue_for :
    (t : JobType) (job_type : String) (payload : Payload)
    → queue_of_type job_type payload (some t) ≡ queue_name_value (queue_for t payload)
queue_of_type-queue_for JobType.check_for_episodes job_type payload = refl
queue_of_type-queue_for _ job_type payload = refl

-- A job of a known type goes to one of the six declared queues: the one of its type, which for a
-- download is chosen by the payload.
pub queue_name-queue_for :
    (t : JobType) (payload : Payload)
    → queue_name (job_type_value t) payload ≡ queue_name_value (queue_for t payload)
unfolding queue_name
queue_name-queue_for t payload =
    ap (queue_of_type (job_type_value t) payload) (job_type_roundtrip t)
    ∙ queue_of_type-queue_for t (job_type_value t) payload
