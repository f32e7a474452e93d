-- ===== src/Domain.antt =====
-- src/models/domain.py: the string enumerations, and `parse_str_enum`.
pub mod Parsing
mod Tests
use mathlib.Core.Option.{Option, none, some}
use getoffline.Base.{
  String, List, [], ◌∷◌, Bool, Text, codes, text_eq, strip, lower, Value, str_or_empty,
  if◌then◌else◌,
}

pub data SourceType : Type 0 where
  youtube podcast : SourceType

pub data MediaType : Type 0 where
  audio video : MediaType

pub data DownloadStatus : Type 0 where
  downloaded filtered missing retention_deleted : DownloadStatus

pub data JobStatus : Type 0 where
  queued running succeeded failed : JobStatus

pub data JobType : Type 0 where
  check_for_episodes update_downloads download_episode download_single : JobType
  transcode_media generate_transcript generate_ocr retention_cleanup : JobType

pub data QueueName : Type 0 where
  serial_episode_check youtube_download podcast_download transcript ffmpeg cleanup : QueueName

pub data CpuSlotStatus : Type 0 where
  waiting running : CpuSlotStatus

pub data HeavyJobKind : Type 0 where
  ffmpeg transcript : HeavyJobKind

-- The values of the members. A member is its value: `SourceType.YOUTUBE == "youtube"`.
abbrev pub source_type_value : SourceType → String
source_type_value youtube = "youtube"
source_type_value podcast = "podcast"

abbrev pub media_type_value : MediaType → String
media_type_value audio = "audio"
media_type_value video = "video"

abbrev pub download_status_value : DownloadStatus → String
download_status_value downloaded = "downloaded"
download_status_value filtered = "filtered"
download_status_value missing = "missing"
download_status_value retention_deleted = "retention_deleted"

abbrev pub job_status_value : JobStatus → String
job_status_value queued = "queued"
job_status_value JobStatus.running = "running"
job_status_value succeeded = "succeeded"
job_status_value failed = "failed"

abbrev pub job_type_value : JobType → String
job_type_value check_for_episodes = "check_for_episodes"
job_type_value update_downloads = "update_downloads"
job_type_value download_episode = "download_episode"
job_type_value download_single = "download_single"
job_type_value transcode_media = "transcode_media"
job_type_value generate_transcript = "generate_transcript"
job_type_value generate_ocr = "generate_ocr"
job_type_value retention_cleanup = "retention_cleanup"

abbrev pub queue_name_value : QueueName → String
queue_name_value serial_episode_check = "getoffline.jobs.updates"
queue_name_value youtube_download = "getoffline.jobs.downloads.youtube"
queue_name_value podcast_download = "getoffline.jobs.downloads.podcast"
queue_name_value QueueName.transcript = "getoffline.jobs.transcripts"
queue_name_value QueueName.ffmpeg = "getoffline.jobs.ffmpeg"
queue_name_value cleanup = "getoffline.jobs.cleanup"

abbrev pub heavy_job_kind_value : HeavyJobKind → String
heavy_job_kind_value HeavyJobKind.ffmpeg = "ffmpeg"
heavy_job_kind_value HeavyJobKind.transcript = "transcript"

-- An enumeration class, as the function of its members' values and the list of its members.
pub record StrEnum (E : Type 0) : Type 0 where
  pub value : E → String
  pub members : List E

abbrev pub source_types : StrEnum SourceType
source_types = record { value = source_type_value; members = youtube ∷ podcast ∷ [] }

abbrev pub media_types : StrEnum MediaType
media_types = record { value = media_type_value; members = audio ∷ video ∷ [] }

abbrev pub download_statuses : StrEnum DownloadStatus
download_statuses = record {
  value = download_status_value;
  members = downloaded ∷ filtered ∷ missing ∷ retention_deleted ∷ [];
}

abbrev pub job_statuses : StrEnum JobStatus
job_statuses = record {
  value = job_status_value;
  members = queued ∷ JobStatus.running ∷ succeeded ∷ failed ∷ [];
}

abbrev pub job_types : StrEnum JobType
job_types = record {
  value = job_type_value;
  members =
      check_for_episodes ∷ update_downloads ∷ download_episode ∷ download_single ∷ transcode_media
      ∷ generate_transcript ∷ generate_ocr ∷ retention_cleanup ∷ [];
}

abbrev pub heavy_job_kinds : StrEnum HeavyJobKind
heavy_job_kinds = record {
  value = heavy_job_kind_value;
  members = HeavyJobKind.ffmpeg ∷ HeavyJobKind.transcript ∷ [];
}

-- `enum_type(text)`: the member of that value; `none` is the `ValueError`.
unfoldable pub member_of : {E : Type 0} → (E → String) → List E → Text → Option E
member_of value [] t = none
member_of value (m ∷ ms) t = if text_eq (codes (value m)) t then some m else member_of value ms t

unfoldable pub parse_str_enum : {E : Type 0} → StrEnum E → Value → Option E
unfolding member_of
parse_str_enum enum_type v =
    member_of enum_type.value enum_type.members (lower (strip (str_or_empty v)))
