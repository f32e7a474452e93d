-- ===== src/Slots.antt =====
-- src/workers/scheduler.py: the CPU slots that heavy jobs share. The data of both backends: a
-- request for a slot, the statistics that each call returns, and the calls of `SlotBackend`.
-- Times and lease lengths, floats in the source, are whole numbers of one small unit.
pub mod Memory
pub mod Database
pub mod Invariant
pub mod Admission
pub mod Leases
mod View
pub mod Refinement
pub mod Client
mod Tests
use getoffline.Base.{
  ℕ, String, Bool, true, false, Option, none, some, List, [], ◌∷◌, str, codes, Outcome,
}
use getoffline.Domain
use getoffline.Domain.{
  CpuSlotStatus, waiting, HeavyJobKind, heavy_job_kinds, parse_str_enum, JobType, transcode_media,
  generate_transcript, generate_ocr,
}

-- One entry of `InMemorySlotBackend.requests`.
pub record Request : Type 0 where
  pub job_type : String
  pub status : CpuSlotStatus
  pub expires_at : ℕ

pub data Reason : Type 0 where
  wait_started wait_heartbeat wait_finished capacity_full acquired ffmpeg_waiting : Reason
  released missing heartbeat snapshot : Reason

pub record Stats : Type 0 where
  pub reason : Reason
  pub in_use : ℕ
  pub waiting_ffmpeg : ℕ
  pub waiting_transcript : ℕ

-- What a call returns: `acquire` adds a decision, the heartbeats add whether they renewed.
pub record Reply : Type 0 where
  pub granted : Option Bool
  pub renewed : Option Bool
  pub stats : Stats

pub data Call : Type 0 where
  wait_started : String → String → ℕ → Call
  wait_heartbeat : String → ℕ → Call
  wait_finished : String → Call
  acquire : String → String → ℕ → Call
  release : String → Call
  heartbeat : String → ℕ → Call
  snapshot : Call

-- The clock is read once to purge, and again to write: time may pass between the two.
pub record Times : Type 0 where
  pub purge_at : ℕ
  pub write_at : ℕ

abbrev pub is_running : CpuSlotStatus → Bool
is_running CpuSlotStatus.running = true
is_running waiting = false

abbrev pub is_waiting : CpuSlotStatus → Bool
is_waiting CpuSlotStatus.running = false
is_waiting waiting = true

abbrev is_ffmpeg_kind : Option HeavyJobKind → Bool
is_ffmpeg_kind (some HeavyJobKind.ffmpeg) = true
is_ffmpeg_kind (some HeavyJobKind.transcript) = false
is_ffmpeg_kind none = false

-- HEAVY_JOB_TYPES
abbrev pub heavy_kind : JobType → Option HeavyJobKind
heavy_kind transcode_media = some HeavyJobKind.ffmpeg
heavy_kind generate_transcript = some HeavyJobKind.transcript
heavy_kind generate_ocr = some HeavyJobKind.transcript
heavy_kind _ = none

-- parse_str_enum(HeavyJobKind, job_type) is HeavyJobKind.FFMPEG
unfoldable pub is_ffmpeg : String → Bool
is_ffmpeg job_type = is_ffmpeg_kind (parse_str_enum heavy_job_kinds (str (codes job_type)))
