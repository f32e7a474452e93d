-- ===== src/Lib.antt =====
-- GetOffline: the job pipeline of a media downloader, and the models of its parts.
--
-- The program keeps a table of jobs. The web application, its services and the schedules create jobs
-- and publish a message for each to RabbitMQ; workers consume the messages of one queue each, claim the
-- job that a message names, run it, mark it as succeeded or failed and settle the message. Heavy jobs
-- (ffmpeg, transcripts, OCR) wait for one of the CPU slots that all workers share. The web application
-- serves the media files by byte ranges.
--
--   Base        what Python's values, dicts, strings and exceptions are here: lists measured by native
--               numbers, dicts as lists of entries in insertion order, integers, text as code points
--   Domain      src/models/domain.py: the string enumerations and `parse_str_enum`
--   Jobs        src/models/jobs.py over the tables of src/models/models.py: `create_job`, `claim_job`
--               and `finish_job`, each one step; Jobs/Stale is `_make_stale_job_queued` of
--               src/workers/handlers.py; Jobs/Steps has the sequences of such steps
--   Routing     src/frontend/routing.py and src/frontend/queue.py: the queue of a job, the priority of
--               its message, and `publish_job`
--   Slots       src/workers/scheduler.py: Slots/Memory is `InMemorySlotBackend`, Slots/Database is
--               `DatabaseSlotBackend`, and Slots/Client is `GlobalSlotScheduler`. Slots/Refinement
--               relates the two backends: a table of rows is viewed as the dict of the other backend
--   Runner      src/workers/runner.py: the configuration of a worker and the processing of one message;
--               Runner/Delivery is the rest: settling a delivery, consuming, publishing again
--   Schedules   src/models/scheduler.py: the schedules that are due are turned into jobs
--   FfmpegLock  src/workers/handlers.py: the lock of an FFmpeg target, `_transcode_execution_lock`, each
--               transaction on its row as one step
--   TitleFilter src/workers/utils.py: the terms that exclude a title
--   Library     src/models/models.py: the rows of `SourceConfig` and `Download`; Library/Queries is
--               src/api/services/library.py: what a page of the library shows, and how much there is
--   Discovery   src/workers/handlers.py: the episodes that a source offers, the limit of a source, and in
--               Discovery/Scan the loops of `check_for_episodes`, which queue a job for each that is new;
--               Discovery/Sources has the sources that the check asks
--   Actions     src/api/services/dashboard_actions.py: `enqueue_job`; Actions/Status is
--               `worker_message_status`, which the page polls until the worker's message is there
--   Settings    src/api/services/settings.py, and the rules of the settings; Settings/Save is `save_config`
--               and `_sync_update_downloads_schedule` of src/api/services/dashboard_actions.py
--   Sources     src/api/services/dashboard_actions.py: the form of a source and its errors; Sources/Edits
--               has the handlers that change the sources
--   Downloads   src/api/services/dashboard_actions.py: the actions on one download, and `batch_update`
--   Playlists   src/api/views.py: the requests on playlists
--   Streaming   src/api/streaming/media.py: `media_response` for a range, and `file_range_iterator`
--
-- State is passed explicitly: the rows of a table, or the requests of a backend, go in and come out.
-- A method that runs under a lock or in one transaction is one step, and what other processes do between
-- two steps is a sequence of steps (Jobs/Steps, Slots/Invariant) or an argument (the rounds of
-- Slots/Client). `create_job` has no lock of its own: that its two queries are one step is an assumption. Exceptions are the values `err` of `Outcome`.
--
-- Times are natural numbers of a small unit. A method that reads the clock twice has two times, so that
-- time may pass between the two; no theorem needs them in any order but the one on schedules.
--
-- Loops: `_next_run_after` has fuel `now + 2`, which is enough as each round adds a positive interval
-- (Schedules/NextRun proves it); the reading of a range has fuel `length + 1`, as each chunk has a byte
-- (Streaming/Chunks proves it); the decimal form of n has fuel n + 1; the other loops are structural
-- recursion on a list. The polling loop and the consuming loop run over the list of their rounds or
-- events, of any length.
--
-- Parameters, since their code is elsewhere or not modelled: the handlers of the jobs, the run in a slot
-- within Runner (it is modelled in Slots/Client), `str` of an exception, `str.casefold`, `isoformat`, and
-- `Template.safe_substitute`, and for the FFmpeg lock `fromisoformat`, which reads back what
-- `isoformat` writes. So are the entries that yt-dlp extracts from a URL, `urlparse`, the digests of
-- hashlib, the episodes of a podcast, `float`, `math.isfinite` and `uuid4`, and in the library what the
-- database's `icontains` and the test for a PDF file match. The identity of a lease is an argument.
-- RabbitMQ is the list of what is published and settled; a publication is taken to succeed. A handler changes the table and not the job
-- object that it is given, and no schedule is deleted while a batch runs.
--
-- A check for episodes has the table of the downloads as it is at its start, and one time for each
-- candidate. A posted form is a function, or a list of keys with their last values, as Django gives it.
--
-- Not modelled: logging, connections, signals, the heartbeat thread (its call is a step of the
-- backends), floating point, the content type and the other headers of a response, the handlers that
-- download, transcode and transcribe (src/workers/handlers.py) with the tools that they call, the pages
-- of the dashboard that only read, uploads, the deletion of files, the sizes and durations that the
-- library prints, the positions of the playback, the command line, the SDK and the scripts.

pub mod Base
pub mod Domain
pub mod Slots
pub mod Jobs
pub mod Routing
pub mod Runner
pub mod Schedules
pub mod Streaming
pub mod FfmpegLock
pub mod TitleFilter
pub mod Library
pub mod Discovery
pub mod Actions
pub mod Settings
pub mod Sources
pub mod Playlists
pub mod Downloads
