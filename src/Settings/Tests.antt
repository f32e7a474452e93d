-- ===== src/Settings/Tests.antt =====
-- The theorems on the settings at small inputs.
use getoffline.Base.{
  ◌≡◌, ◌⊎◌, refl, true, some, [], ◌∷◌, All, codes, strip, pos, parse_int, ◌==◌, if◌then◌else◌,
}
use getoffline.Settings.{
  Store, Form, or_else, value_of, config_key, profile_settings, integer_rules, enum_rules,
  invalid_config_keys,
}
use getoffline.Settings.Save.{save_config, redirect, sync_update_downloads_schedule}
use getoffline.Settings.Saved.{save_config_then_read}
use getoffline.Settings.Rules.{IsNumber, IsChoice, save_config_obeys_rules}
use getoffline.Settings.Timer.{IsTimed, sync_update_downloads_schedule-IsTimed}

abbrev store : Store
store = record { app = []; configs = []; cookies = []; schedules = []; next_schedule_id = 1 }

abbrev form : Form
form =
    (codes "config__max_downloads", codes " 5")
    ∷ (codes "config__auto_update_minutes", codes "30")
    ∷ []

saved : (save_config 7 "home" true form store).1 ≡ redirect
unfolding save_config invalid_config_keys value_of
saved = refl

save_config_then_read_example :
    profile_settings "home" (save_config 7 "home" true form store).0 (codes "max_downloads") ≡ (
      if "home" == "home"
      then or_else
          (value_of (config_key (codes "max_downloads")) form)
          (profile_settings "home" store (codes "max_downloads"))
      else profile_settings "home" store (codes "max_downloads"))
save_config_then_read_example =
    save_config_then_read 7 "home" true form store "home" (codes "max_downloads") saved

save_config_obeys_rules_example :
    (((save_config 7 "home" true form store).1 ≡ redirect)
      × (All (IsNumber form) integer_rules × All (IsChoice form) enum_rules))
    ⊎ ((save_config 7 "home" true form store).0 ≡ store)
save_config_obeys_rules_example = save_config_obeys_rules 7 "home" true form store

thirty : parse_int (strip (codes "30")) ≡ some (pos 30)
unfolding parse_int strip
thirty = refl

sync_update_downloads_schedule-IsTimed_example :
    IsTimed 7 "home" (pos 30) (sync_update_downloads_schedule 7 "home" (codes "30") store).schedules
sync_update_downloads_schedule-IsTimed_example =
    sync_update_downloads_schedule-IsTimed 7 "home" (codes "30") (pos 30) store thirty
