-- ===== src/Settings/Save.antt =====
-- `save_config` of src/api/services/dashboard_actions.py, and `_sync_update_downloads_schedule`. The number
-- of minutes is one that `timedelta` can hold.
use getoffline.Base.{
  ℕ, zero, suc, ◌+◌, ◌*◌, max, String, Bool, true, false, not, ◌&&◌, ◌||◌, Option, none, some, List,
  [], ◌∷◌, ◌++◌, ◌==◌, nat_eq, leb, first, update_where, Text, codes, strip, ℤ, pos, negsuc,
  parse_int, str, if◌then◌else◌,
}
use getoffline.Schedules.{Schedule, second, has_id}
use getoffline.Settings.{
  Store, Form, value_of, invalid_config_keys, put_posted, clear_checkbox, put_cookie,
}

abbrev pub is_timer_of : String → Schedule → Bool
is_timer_of profile schedule =
    schedule.profile_id == profile && schedule.job_type == "update_downloads"

abbrev pub timer_interval : ℕ → ℕ
timer_interval minutes = max 60 (minutes * 60)

abbrev pub new_timer : ℕ → ℕ → String → ℕ → Schedule
new_timer now id profile minutes = record {
  id = id;
  profile_id = profile;
  job_type = "update_downloads";
  enabled = true;
  interval_seconds = timer_interval minutes;
  payload = ("source", str (codes "scheduler")) ∷ [];
  key_template = "scheduled:update_downloads:${profile_id}:${due_hour}";
  next_run_at = now + timer_interval minutes * second;
  last_run_at = none;
  updated_at = now;
}

-- the assignments to the schedule that is found
abbrev pub retimed : ℕ → ℕ → Schedule → Schedule
retimed now minutes schedule = record schedule {
  enabled = true;
  interval_seconds = timer_interval minutes;
  payload = ("source", str (codes "scheduler")) ∷ [];
  key_template = "scheduled:update_downloads:${profile_id}:${due_hour}";
  next_run_at =
      if leb schedule.next_run_at now
        || not (nat_eq schedule.interval_seconds (timer_interval minutes))
      then now + timer_interval minutes * second
      else schedule.next_run_at;
  updated_at = now;
}

abbrev pub disabled : ℕ → Schedule → Schedule
disabled now schedule = record schedule { enabled = false; updated_at = now }

abbrev pub switch_off : ℕ → Option Schedule → Store → Store
switch_off now none store = store
switch_off now (some schedule) store =
    if schedule.enabled
    then record store {
      schedules = update_where (has_id schedule.id) (disabled now) store.schedules;
    }
    else store

abbrev pub switch_on : ℕ → String → ℕ → Option Schedule → Store → Store
switch_on now profile minutes none store = record store {
  schedules = store.schedules ++ new_timer now store.next_schedule_id profile minutes ∷ [];
  next_schedule_id = suc store.next_schedule_id;
}
switch_on now profile minutes (some schedule) store = record store {
  schedules = update_where (has_id schedule.id) (retimed now minutes) store.schedules;
}

abbrev pub sync_with : ℕ → String → Option ℤ → Option Schedule → Store → Store
sync_with now profile none timer store = store
sync_with now profile (some (pos (suc n))) timer store = switch_on now profile (suc n) timer store
sync_with now profile (some (pos zero)) timer store = switch_off now timer store
sync_with now profile (some (negsuc n)) timer store = switch_off now timer store

-- _sync_update_downloads_schedule
unfoldable pub sync_update_downloads_schedule : ℕ → String → Text → Store → Store
unfolding parse_int strip
sync_update_downloads_schedule now profile raw_minutes store =
    sync_with now profile (parse_int (strip raw_minutes))
      (first (is_timer_of profile) store.schedules) store

abbrev pub sync_posted : ℕ → String → Option Text → Store → Store
sync_posted now profile none store = store
sync_posted now profile (some raw) store = sync_update_downloads_schedule now profile raw store

abbrev pub cookie_posted : ℕ → String → Option Text → Store → Store
cookie_posted now profile none store = store
cookie_posted now profile (some text) store = record store {
  cookies = put_cookie now profile text store.cookies;
}

pub data Answer : Type 0 where
  invalid : List Text → Answer
  busy redirect : Answer

-- the body of the handler, with the invalid keys
abbrev pub save_with : ℕ → String → Bool → Form → Store → List Text → Store × Answer
save_with now profile acquired form store (key ∷ keys) = (store, invalid (key ∷ keys))
save_with now profile acquired form store [] = if not acquired then (store, busy) else (
  sync_posted now profile (value_of (codes "config__auto_update_minutes") form) (
      cookie_posted now profile (value_of (codes "youtube_cookie_text") form) (record store {
        configs = put_posted now profile form (clear_checkbox now profile form store.configs);
      })),
  redirect,
)

-- save_config; `acquired` tells whether the lock of the profile was taken
unfoldable pub save_config : ℕ → String → Bool → Form → Store → Store × Answer
save_config now profile acquired form store =
    save_with now profile acquired form store (invalid_config_keys form)
