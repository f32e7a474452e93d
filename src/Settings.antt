-- ===== src/Settings.antt =====
-- The settings of a profile: src/api/services/settings.py, and of src/api/services/dashboard_actions.py the
-- rules of the values and how they are written. A posted form is the list of its keys with their last values.
pub mod Save
pub mod Rows
pub mod Saved
pub mod Rules
pub mod Timer
mod Tests
use getoffline.Base.{
  ℕ, zero, suc, ◌+◌, ◌*◌, max, String, Bool, true, false, not, ◌&&◌, ◌||◌, Option, none, some, List,
  [], ◌∷◌, ◌++◌, ◌==◌, nat_eq, leb, any, first, update_where, drop, Text, codes, text_eq, is_empty,
  strip, lower, ℤ, pos, negsuc, leb_ℤ, parse_int, str, if◌then◌else◌,
}
use getoffline.Schedules.{Schedule, second, has_id}
use getoffline.TitleFilter.{starts_with}

-- A row of `ProfileConfigValue` and one of `ProfileDownloadSettings`.
pub record ConfigRow : Type 0 where
  pub profile_id : String
  pub key : Text
  pub value : Text
  pub updated_at : ℕ

pub record CookieRow : Type 0 where
  pub profile_id : String
  pub youtube_cookie_text : Text
  pub cookie_updated_at : ℕ
  pub updated_at : ℕ

pub record Store : Type 0 where
  pub app : List (Text × Text)
  pub configs : List ConfigRow
  pub cookies : List CookieRow
  pub schedules : List Schedule
  pub next_schedule_id : ℕ

abbrev pub Form : Type 0
Form = List (Text × Text)

abbrev pub or_else : Option Text → Option Text → Option Text
or_else none b = b
or_else (some t) b = some t

-- The value of a key in a list of pairs whose later ones win.
unfoldable pub value_of : Text → List (Text × Text) → Option Text
unfolding text_eq
value_of key [] = none
value_of key ((k, v) ∷ pairs) =
    or_else (value_of key pairs) (if text_eq k key then some v else none)

-- PROFILE_DEFAULTS, but for `output_root`
abbrev defaults : List (Text × Text)
defaults =
    (codes "processing_workers", codes "2")
    ∷ (codes "auto_update_minutes", codes "20")
    ∷ (codes "auto_delete_content_days", codes "0")
    ∷ (codes "manual_upload_delete_explicit_content", codes "0")
    ∷ (codes "audio_format", codes "mp3")
    ∷ (codes "video_format", codes "mp4")
    ∷ (codes "video_codec", codes "h264")
    ∷ (codes "ffmpeg_path", codes "ffmpeg")
    ∷ (codes "audio_quality", codes "0")
    ∷ (codes "ffmpeg_audio_filter", codes "loudnorm=I=-14:TP=-1.5:LRA=11")
    ∷ (codes "ytdlp_video_max_height", codes "720")
    ∷ (codes "max_downloads", codes "3")
    ∷ (codes "js_runtime_path", codes "qjs")
    ∷ []

-- {row.key: row.value for row in filter(profile_id=...)}
unfoldable pub own_values : String → List ConfigRow → List (Text × Text)
own_values profile [] = []
own_values profile (row ∷ rows) =
    let rest = own_values profile rows in
    if row.profile_id == profile then (row.key, row.value) ∷ rest else rest

-- profile_settings, as the function from a key to its value: later dictionaries win
unfoldable pub profile_settings : String → Store → Text → Option Text
unfolding value_of own_values
profile_settings profile store key = or_else (value_of key (own_values profile store.configs)) (
    or_else (value_of key store.app) (
      or_else
        (if text_eq (codes "output_root") key
          then some (codes "./downloads/" ++ codes profile)
          else none)
        (value_of key defaults)))

-- CONFIG_INTEGER_RULES with their minima, and CONFIG_ENUM_RULES. No rule has a maximum.
abbrev pub integer_rules : List (Text × ℕ)
integer_rules =
    (codes "processing_workers", 1)
    ∷ (codes "auto_update_minutes", 0)
    ∷ (codes "auto_delete_content_days", 0)
    ∷ (codes "audio_quality", 0)
    ∷ (codes "ytdlp_video_max_height", 144)
    ∷ (codes "max_downloads", 1)
    ∷ []

abbrev pub enum_rules : List (Text × List Text)
enum_rules =
    (codes "audio_format", codes "mp3" ∷ codes "m4a" ∷ codes "opus" ∷ [])
    ∷ (codes "video_format", codes "mp4" ∷ codes "mkv" ∷ [])
    ∷ (codes "video_codec", codes "h264" ∷ codes "hevc" ∷ codes "copy" ∷ [])
    ∷ []

abbrev pub config_key : Text → Text
config_key key = codes "config__" ++ key

-- the value is no number, or less than the minimum
abbrev pub is_bad_number : ℕ → Option ℤ → Bool
is_bad_number minimum none = true
is_bad_number minimum (some z) = not (leb_ℤ (pos minimum) z)

unfoldable pub breaks_integer_rule : Form → Text → ℕ → Bool
unfolding parse_int strip
breaks_integer_rule form key minimum = elim (value_of (config_key key) form) [
  | none ↦ false
  | some raw ↦ is_bad_number minimum (parse_int (strip raw))
]

unfoldable pub breaks_enum_rule : Form → Text → List Text → Bool
unfolding strip lower text_eq
breaks_enum_rule form key allowed = elim (value_of (config_key key) form) [
  | none ↦ false
  | some raw ↦ not (any (text_eq (lower (strip raw))) allowed)
]

unfoldable pub bad_integer_keys : Form → List (Text × ℕ) → List Text
unfolding breaks_integer_rule
bad_integer_keys form [] = []
bad_integer_keys form ((key, minimum) ∷ rules) =
    let rest = bad_integer_keys form rules in
    if breaks_integer_rule form key minimum then key ∷ rest else rest

unfoldable pub bad_enum_keys : Form → List (Text × List Text) → List Text
unfolding breaks_enum_rule
bad_enum_keys form [] = []
bad_enum_keys form ((key, allowed) ∷ rules) =
    let rest = bad_enum_keys form rules in
    if breaks_enum_rule form key allowed then key ∷ rest else rest

-- _invalid_config_keys
unfoldable pub invalid_config_keys : Form → List Text
unfolding bad_integer_keys bad_enum_keys
invalid_config_keys form = bad_integer_keys form integer_rules ++ bad_enum_keys form enum_rules

abbrev pub is_row_of : String → Text → ConfigRow → Bool
is_row_of profile key row = row.profile_id == profile && text_eq row.key key

-- ProfileConfigValue.objects.update_or_create(...)
unfoldable pub put_config : ℕ → String → Text → Text → List ConfigRow → List ConfigRow
put_config now profile key value rows =
    if any (is_row_of profile key) rows
    then update_where (is_row_of profile key)
        (λ row. record row { value = value; updated_at = now }) rows
    else rows ++ record { profile_id = profile; key = key; value = value; updated_at = now } ∷ []

-- the loop over the posted items
unfoldable pub put_posted : ℕ → String → Form → List ConfigRow → List ConfigRow
unfolding put_config starts_with
put_posted now profile [] rows = rows
put_posted now profile ((key, value) ∷ form) rows =
    if starts_with (codes "config__") key
    then put_posted now profile form (put_config now profile (drop 8 key) value rows)
    else put_posted now profile form rows

abbrev pub has_posted : Form → Text → Bool
has_posted form key = any (λ e. text_eq e.0 key) form

abbrev pub checkbox : Text
checkbox = codes "manual_upload_delete_explicit_content"

-- The loop over the checkboxes: "0" for one whose key is among the posted keys that begin with
-- "config__", without that prefix, and whose key with the prefix is not posted.
unfoldable pub clear_checkbox : ℕ → String → Form → List ConfigRow → List ConfigRow
unfolding put_config starts_with text_eq
clear_checkbox now profile form rows =
    if any (λ e. starts_with (codes "config__") e.0 && text_eq (drop 8 e.0) checkbox) form
      && not (has_posted form (config_key checkbox))
    then put_config now profile checkbox (codes "0") rows
    else rows

unfoldable pub put_cookie : ℕ → String → Text → List CookieRow → List CookieRow
put_cookie now profile text rows =
    if any (λ row. row.profile_id == profile) rows
    then update_where (λ row. row.profile_id == profile)
        (λ row. record row {
          youtube_cookie_text = text;
          cookie_updated_at = now;
          updated_at = now;
        })
        rows
    else rows
      ++ record {
        profile_id = profile;
        youtube_cookie_text = text;
        cookie_updated_at = now;
        updated_at = now;
      }
        ∷ []
