-- ===== src/Routing.antt =====
-- src/frontend/routing.py and src/frontend/queue.py: the queue and the priority of a job's message, and
-- its publication. RabbitMQ is not modelled: a publication is the record of what is sent to it.
pub mod Queues
pub mod Priority
mod Tests
use Prim.Native.String
use getoffline.Base.{
  ℕ, String, Bool, true, false, ◌&&◌, ◌||◌, Option, none, some, List, [], ◌∷◌, ◌==◌, nat_eq, leb,
  any, min, max, Text, codes, text_eq, strip, lower, Value, str, py_str, truthy, Dict, get, Payload,
  dict_or_empty, if◌then◌else◌,
}
use getoffline.Domain
use getoffline.Domain.{
  SourceType, youtube, podcast, MediaType, audio, video, JobType, check_for_episodes,
  update_downloads, download_episode, download_single, transcode_media, generate_transcript,
  generate_ocr, retention_cleanup, QueueName, serial_episode_check, youtube_download,
  podcast_download, cleanup, queue_name_value, source_types, media_types, job_types, parse_str_enum,
}
use getoffline.Jobs.{Job, find_job}

abbrev pub max_queue_priority : ℕ
max_queue_priority = 10

abbrev is_source : SourceType → Option SourceType → Bool
is_source s none = false
is_source youtube (some youtube) = true
is_source youtube (some podcast) = false
is_source podcast (some youtube) = false
is_source podcast (some podcast) = true

abbrev pub is_audio : Option MediaType → Bool
is_audio (some audio) = true
is_audio (some video) = false
is_audio none = false

abbrev pub is_podcast : Option SourceType → Bool
is_podcast = is_source podcast

abbrev pub is_youtube : Option SourceType → Bool
is_youtube = is_source youtube

-- PRIORITY_QUEUES, and queue_arguments
abbrev is_priority_queue : String → Bool
is_priority_queue queue =
    queue == queue_name_value youtube_download
    || queue == queue_name_value podcast_download
    || queue == queue_name_value QueueName.transcript
    || queue == queue_name_value QueueName.ffmpeg

-- the argument "x-max-priority" of the queue, if it has one
unfoldable pub queue_arguments : String → Option ℕ
queue_arguments queue = if is_priority_queue queue then some max_queue_priority else none

-- _download_queue_name
unfoldable pub download_queue_name : Payload → QueueName
download_queue_name payload =
    let d = dict_or_empty payload in
    let source_type = parse_str_enum source_types (get d "source_type") in
    let media_type = parse_str_enum media_types (get d "media_type") in
    if is_podcast source_type
    then podcast_download
    else if is_youtube source_type
    then youtube_download
    else if is_audio media_type
    then podcast_download
    else youtube_download

abbrev queue_of_type : String → Payload → Option JobType → String
queue_of_type job_type payload (some check_for_episodes) = queue_name_value serial_episode_check
queue_of_type job_type payload (some update_downloads) = queue_name_value serial_episode_check
queue_of_type job_type payload (some download_episode) =
    queue_name_value (download_queue_name payload)
queue_of_type job_type payload (some download_single) =
    queue_name_value (download_queue_name payload)
queue_of_type job_type payload (some transcode_media) = queue_name_value QueueName.ffmpeg
queue_of_type job_type payload (some generate_transcript) = queue_name_value QueueName.transcript
queue_of_type job_type payload (some generate_ocr) = queue_name_value QueueName.transcript
queue_of_type job_type payload (some retention_cleanup) = queue_name_value cleanup
queue_of_type job_type payload none = String.◌++◌ "getoffline.jobs." job_type

unfoldable pub queue_name : String → Payload → String
unfolding download_queue_name
queue_name job_type payload =
    queue_of_type job_type payload (parse_str_enum job_types (str (codes job_type)))

-- _as_bool
unfoldable pub as_bool : Value → Bool
unfolding strip lower py_str text_eq
as_bool v =
    let t = lower (strip (py_str v)) in
    text_eq t (codes "1")
    || text_eq t (codes "true")
    || text_eq t (codes "yes")
    || text_eq t (codes "on")

-- A message for the broker. Every caller gives the job's row as `job_id`; a priority is given by none.
pub record Message : Type 0 where
  pub job_id : ℕ
  pub job_type : String
  pub profile_id : String
  pub attempt : ℕ
  pub payload : Payload
  pub priority : Option ℕ

-- a or b
abbrev value_or : Value → Value → Value
value_or a b = if truthy a then a else b

unfoldable pub transcript_priority : Dict → ℕ
unfolding as_bool
transcript_priority d =
    if as_bool (get d "startup_missing_subtitle")
    then 2
    else if is_podcast
          (parse_str_enum source_types (value_or (get d "source_type") (get d "media_source_type")))
        || is_audio (parse_str_enum media_types (get d "media_type"))
    then 8
    else if truthy (get d "download_id")
    then 7
    else 3

abbrev pub priority_of_type : Dict → Option JobType → ℕ
priority_of_type d (some download_single) =
    if as_bool (get d "manual_enqueue") || as_bool (get d "redownload") then 10 else 9
priority_of_type d (some download_episode) = if as_bool (get d "redownload") then 9 else 5
priority_of_type d (some generate_transcript) = transcript_priority d
priority_of_type d (some generate_ocr) = if truthy (get d "download_id") then 7 else 3
priority_of_type d _ = 0

unfoldable pub job_priority : Message → ℕ
job_priority message =
    priority_of_type (dict_or_empty message.payload)
      (parse_str_enum job_types (str (codes message.job_type)))

abbrev payload_of : Option Job → Payload
payload_of none = none
payload_of (some job) = job.payload

-- _message_with_payload: the payload of the job's row, if the message has none
unfoldable pub message_with_payload : List Job → Message → Message
unfolding find_job
message_with_payload rows message = elim message.payload [
  | some d ↦ message
  | none ↦
      if nat_eq message.job_id 0
      then message
      else record message { payload = payload_of (find_job message.job_id rows) }
]

abbrev given_or : Option ℕ → ℕ → ℕ
given_or none d = d
given_or (some p) d = p

-- What `basic_publish` sends, and the queue that is declared for it. The body has all of the message
-- but its payload.
pub record Publication : Type 0 where
  pub routing_key : String
  pub max_priority : Option ℕ
  pub priority : ℕ
  pub body : Message

abbrev without_payload : Message → Message
without_payload message = record message { payload = none }

unfoldable pub publish_job : List Job → Message → Publication
unfolding message_with_payload queue_name queue_arguments
publish_job rows message =
    let full = message_with_payload rows message in
    let queue = queue_name full.job_type full.payload in
    record {
      routing_key = queue;
      max_priority = queue_arguments queue;
      priority = min max_queue_priority (given_or full.priority (job_priority full));
      body = without_payload full;
    }
