-- ===== src/Schedules/Tests.antt =====
-- The theorems on the schedules at small inputs.
use getoffline.Base.{ℕ, suc, ◌+◌, ◌*◌, ◌≤◌, ◌<◌, max, ◌≡◌, true, none, some, [], ◌∷◌, Text}
use getoffline.Jobs.Steps.{empty_db}
use getoffline.Schedules.{Schedule, State, interval_of, next_run_after, enqueue_id, Round}
use getoffline.Schedules.NextRun.{next_run_is_future}

abbrev hourly : Schedule
hourly = record {
  id = 4;
  profile_id = "home";
  job_type = "check_for_episodes";
  enabled = true;
  interval_seconds = 3600;
  payload = [];
  key_template = "";
  next_run_at = 1000;
  last_run_at = none;
  updated_at = 0;
}

next_run_is_future_example :
    (r : ℕ) × (next_run_after hourly 1000 5000 ≡ some r)
    × (5000 < r)
    × (1000 < r)
    × (r ≤ max (1000 + interval_of hourly) (5000 + interval_of hourly))
    × ((k : ℕ) × (r ≡ 1000 + suc k * interval_of hourly))
next_run_is_future_example = next_run_is_future hourly 1000 5000

abbrev one_schedule : State
one_schedule = record { schedules = hourly ∷ []; db = empty_db }

abbrev no_text : ℕ → Text
no_text t = []

abbrev no_template : Schedule → ℕ → Text
no_template s t = []

abbrev first_turn : Round
first_turn = enqueue_id no_text no_template 5000 5001 4 one_schedule
