-- ===== src/Schedules.antt =====
-- src/models/scheduler.py: the schedules whose time has come are turned into jobs. A time is a number of
-- microseconds; `isoformat` and `Template.safe_substitute` are parameters. The publication of a job
-- is taken to succeed.
pub mod NextRun
pub mod Enqueue
mod Tests
use getoffline.Base.{
  ℕ, zero, suc, ◌+◌, ◌*◌, max, min, String, Bool, true, false, not, ◌&&◌, ◌||◌, Option, none, some,
  List, [], ◌∷◌, ◌++◌, nat_eq, leb, ltb, first, keep, take, map, sort_by, update_where, ◌==◌, Text,
  codes, decimal, Value, str, int, pos, Dict, get, set_default, if◌then◌else◌, ℤ, at_least_one,
  Payload,
}
use getoffline.Domain.{JobType, job_types, parse_str_enum}
use getoffline.Jobs.{Job, Db, create_job}
use getoffline.Routing.{Message, Publication, publish_job}

-- A row of `ScheduledJob` (src/models/models.py). Its payload is an object.
pub record Schedule : Type 0 where
  pub id : ℕ
  pub profile_id : String
  pub job_type : String
  pub enabled : Bool
  pub interval_seconds : ℕ
  pub payload : Dict
  pub key_template : String
  pub next_run_at : ℕ
  pub last_run_at : Option ℕ
  pub updated_at : ℕ

pub record State : Type 0 where
  pub schedules : List Schedule
  pub db : Db

abbrev pub second : ℕ
second = 1_000_000

-- max(60, int(interval_seconds or 60)), as a timedelta
unfoldable pub interval_of : Schedule → ℕ
interval_of schedule = max 60 schedule.interval_seconds * second

-- The loop `while next_run <= now`, on fuel; `none` means that the fuel ran out.
unfoldable pub advance : ℕ → ℕ → ℕ → ℕ → Option ℕ
advance zero interval now next_run = none
advance (suc fuel) interval now next_run =
    let rest = advance fuel interval now (next_run + interval) in
    if leb next_run now then rest else some next_run

-- _next_run_after; the fuel is more than the rounds, since each adds at least one to the time.
unfoldable pub next_run_after : Schedule → ℕ → ℕ → Option ℕ
unfolding interval_of advance
next_run_after schedule due_at now =
    advance (suc (suc now)) (interval_of schedule) now (due_at + interval_of schedule)

-- f"scheduled:{schedule.id}:{schedule.job_type}:{due_at.isoformat()}"
abbrev default_key : (ℕ → Text) → Schedule → ℕ → Text
default_key isoformat schedule due_at =
    codes "scheduled:"
    ++ (decimal schedule.id
        ++ (codes ":" ++ (codes schedule.job_type ++ (codes ":" ++ isoformat due_at))))

-- What one round of the loop does: the state, the message that it publishes, and the job's id.
pub record Round : Type 0 where
  pub state : State
  pub published : List Publication
  pub job_ids : List ℕ

abbrev is_parsed : Option JobType → Bool
is_parsed none = false
is_parsed (some t) = true

abbrev pub has_type : Schedule → Bool
has_type schedule = is_parsed (parse_str_enum job_types (str (codes schedule.job_type)))

-- next_run_at__lte=now and enabled
abbrev pub is_due : ℕ → Schedule → Bool
is_due now schedule = schedule.enabled && leb schedule.next_run_at now

abbrev pub has_id : ℕ → Schedule → Bool
has_id id schedule = nat_eq schedule.id id

abbrev save : Schedule → List Schedule → List Schedule
save schedule rows = update_where (has_id schedule.id) (λ _. schedule) rows

abbrev next_or : Option ℕ → ℕ → ℕ
next_or none d = d
next_or (some n) d = n

module _ (isoformat : ℕ → Text) (substitute : Schedule → ℕ → Text) where
  -- _render_idempotency_key
  unfoldable pub render_idempotency_key : Schedule → ℕ → Text
  render_idempotency_key schedule due_at =
      if schedule.key_template == ""
      then default_key isoformat schedule due_at
      else substitute schedule due_at

  abbrev job_payload : Schedule → Dict
  job_payload schedule =
      set_default (set_default schedule.payload "scheduled_job_id" (int (pos schedule.id)))
        "scheduled_due_at" (str (isoformat schedule.next_run_at))

  abbrev pub rescheduled : ℕ → ℕ → Schedule → Schedule
  rescheduled now clock schedule = record schedule {
    last_run_at = some now;
    next_run_at = next_or (next_run_after schedule schedule.next_run_at clock) schedule.next_run_at;
    updated_at = now;
  }

  abbrev message_of : Job → Message
  message_of job = record {
    job_id = job.id;
    job_type = job.job_type;
    profile_id = job.profile_id;
    attempt = 1;
    payload = none;
    priority = none;
  }

  -- The body of the loop for a schedule that is found. `now` is the time of the batch, and `clock` what
  -- `timezone.now()` gives later.
  unfoldable pub enqueue_schedule : ℕ → ℕ → Schedule → State → Round
  unfolding render_idempotency_key next_run_after set_default decimal
  enqueue_schedule now clock schedule state =
      if not schedule.enabled || ltb now schedule.next_run_at
      then record { state = state; published = []; job_ids = [] }
      else if not (has_type schedule)
      then record {
        state = record state {
          schedules = save (record schedule { enabled = false; updated_at = now }) state.schedules;
        };
        published = [];
        job_ids = [];
      }
      else let (db', job) =
          create_job clock schedule.profile_id schedule.job_type (some (job_payload schedule))
            (some (render_idempotency_key schedule schedule.next_run_at)) state.db in
        record {
          state = record {
            schedules = save (rescheduled now clock schedule) state.schedules;
            db = db';
          };
          published = publish_job db'.rows (message_of job) ∷ [];
          job_ids = job.id ∷ [];
        }

  -- select_for_update().get(pk=schedule_id); no schedule is deleted meanwhile
  unfoldable pub enqueue_id : ℕ → ℕ → ℕ → State → Round
  enqueue_id now clock id state = elim (first (has_id id) state.schedules) [
    | none ↦ record { state = state; published = []; job_ids = [] }
    | some schedule ↦ enqueue_schedule now clock schedule state
  ]

  -- the loop over `due_ids`
  unfoldable pub enqueue_ids : ℕ → ℕ → List ℕ → State → Round
  enqueue_ids now clock [] state = record { state = state; published = []; job_ids = [] }
  enqueue_ids now clock (id ∷ ids) state =
      let round = enqueue_id now clock id state in
      let rest = enqueue_ids now clock ids round.state in
      record {
        state = rest.state;
        published = round.published ++ rest.published;
        job_ids = round.job_ids ++ rest.job_ids;
      }

  -- order_by("next_run_at", "id")
  abbrev comes_before : Schedule → Schedule → Bool
  comes_before a b =
      ltb a.next_run_at b.next_run_at || (nat_eq a.next_run_at b.next_run_at && leb a.id b.id)

  unfoldable pub due_ids : ℕ → ℤ → List Schedule → List ℕ
  unfolding sort_by
  due_ids now limit rows =
      map (λ s. s.id) (take (at_least_one limit) (sort_by comes_before (keep (is_due now) rows)))

  unfoldable pub enqueue_due_scheduled_jobs : ℕ → ℕ → ℤ → State → Round
  unfolding due_ids enqueue_ids
  enqueue_due_scheduled_jobs now clock limit state =
      enqueue_ids now clock (due_ids now limit state.schedules) state
