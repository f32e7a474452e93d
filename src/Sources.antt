-- ===== src/Sources.antt =====
-- The sources of a profile, as the dashboard edits them: the source handlers of
-- src/api/services/dashboard_actions.py. `urlparse` (a URL's scheme and network location), `float` and
-- `math.isfinite` are parameters. A handler reads and writes the table as one step.
pub mod Edits
pub mod Valid
pub mod Kept
pub mod Runs
mod Tests
use getoffline.Base.{
  ℕ, suc, ◌+◌, String, Bool, true, false, not, ◌&&◌, ◌||◌, Option, none, some, List, [], ◌∷◌, ◌++◌,
  ◌==◌, nat_eq, leb, ltb, any, keep, first, map, update_where, length, Text, codes, text_eq,
  is_empty, is_digits, strip, lower, decimal, ℤ, pos, negsuc, is_zero, pos_part, ◌+ℤ◌, leb_ℤ, max_ℤ,
  parse_int, Value, null, str, Exc, raised, Outcome, ok, err, if◌then◌else◌,
}
use getoffline.Domain.{
  SourceType, youtube, podcast, source_types, source_type_value, parse_str_enum,
}
use getoffline.Library.{Source}
use getoffline.Discovery.{text_or, source_config_type}
use getoffline.Actions.{Form, field_at, posted_bool}

pub record SourceFormData : Type 0 where
  pub name : Text
  pub url : Text
  pub media_type : Option Text
  pub enabled : Bool
  pub subtitles : Bool
  pub subtitle_offset_seconds : Value
  pub max_downloads : Option ℤ
  pub delete_explicit_content : Bool
  pub include_shorts : Bool
  pub include_livestreams : Bool
  pub title_exclude : Text

-- _optional_int; the digits are ASCII
unfoldable pub optional_int : Text → Option ℤ
unfolding parse_int strip
optional_int raw = if is_digits (strip raw) then parse_int (strip raw) else none

abbrev pub is_youtube : Option SourceType → Bool
is_youtube (some youtube) = true
is_youtube _ = false

-- The errors of a form, each by its message.
pub data FormError : Type 0 where
  name_is_required name_is_too_long url_is_required url_is_not_absolute : FormError
  media_type_is_invalid offset_is_invalid max_downloads_is_invalid : FormError

abbrev pub when : Bool → FormError → List FormError
when b e = if b then e ∷ [] else []

abbrev pub is_media_type : Option Text → Bool
is_media_type none = false
is_media_type (some t) = text_eq t (codes "audio") || text_eq t (codes "video")

abbrev is_below_one : Option ℤ → Bool
is_below_one none = true
is_below_one (some z) = not (leb_ℤ (pos 1) z)

pub record Sources : Type 0 where
  pub rows : List Source
  pub next_id : ℕ

pub data Answer : Type 0 where
  redirect bad_source_type not_found : Answer
  invalid : List FormError → Answer

abbrev pub has_id : ℕ → Source → Bool
has_id id source = nat_eq source.id id

-- get_object_or_404(SourceConfig, pk=..., profile_id=...)
abbrev pub is_own : String → ℕ → Source → Bool
is_own profile id source = has_id id source && source.profile_id == profile

abbrev text_list_max : Option ℤ → ℤ → ℤ
text_list_max none z = z
text_list_max (some y) z = max_ℤ y z

-- order_by("-position").first(), of the sources of the profile and the type
unfoldable pub highest_position : String → SourceType → List Source → Option ℤ
unfolding text_eq
highest_position profile source_type [] = none
highest_position profile source_type (row ∷ rows) =
    let rest = highest_position profile source_type rows in
    if row.profile_id == profile && text_eq row.source_type (codes (source_type_value source_type))
    then some (text_list_max rest row.position)
    else rest

-- (position or -1) + 1
unfoldable pub next_source_position : String → SourceType → List Source → ℤ
unfolding highest_position
next_source_position profile source_type rows = elim (highest_position profile source_type rows) [
  | none ↦ pos 0
  | some z ↦ if is_zero z then pos 0 else z +ℤ pos 1
]

abbrev pub or_text : Option Text → Option Text → Text → Text
or_text (some (c ∷ t)) b d = c ∷ t
or_text _ (some (c ∷ t)) d = c ∷ t
or_text _ _ d = d

-- _apply_source_form_data
unfoldable pub apply_source_form_data : ℕ → Bool → SourceFormData → Source → Source
apply_source_form_data now include_enabled form source =
    let of_youtube = is_youtube (source_config_type source) in
    record source {
      name = text_or form.name source.name;
      url = text_or form.url source.url;
      media_type =
          if of_youtube
          then some (or_text form.media_type source.media_type (codes "audio"))
          else source.media_type;
      include_shorts = if of_youtube then form.include_shorts else source.include_shorts;
      include_livestreams =
          if of_youtube then form.include_livestreams else source.include_livestreams;
      enabled = if include_enabled then form.enabled else source.enabled;
      subtitles = form.subtitles;
      subtitle_offset_seconds = form.subtitle_offset_seconds;
      max_downloads = form.max_downloads;
      delete_explicit_content = form.delete_explicit_content;
      title_exclude = some form.title_exclude;
      updated_at = now;
    }

-- the row that `add_source` creates
abbrev pub new_source : ℕ → ℕ → String → SourceType → ℤ → SourceFormData → Source
new_source now id profile source_type position form = record {
  id = id;
  profile_id = profile;
  source_type = codes (source_type_value source_type);
  position = position;
  name = form.name;
  url = form.url;
  media_type = form.media_type;
  enabled = true;
  subtitles = form.subtitles;
  subtitle_offset_seconds = form.subtitle_offset_seconds;
  max_downloads = form.max_downloads;
  delete_explicit_content = form.delete_explicit_content;
  include_shorts = form.include_shorts;
  include_livestreams = form.include_livestreams;
  title_exclude = some form.title_exclude;
  updated_at = now;
}

abbrev pub or_podcast : Option SourceType → SourceType
or_podcast none = podcast
or_podcast (some s) = s

module _ (urlparse : Text → Text × Text) (float_of : Text → Option Value)
    (is_finite : Value → Bool) where
  -- _optional_float
  unfoldable pub optional_float : Text → Value
  unfolding strip
  optional_float raw =
      if is_empty (strip raw)
      then null
      else elim (float_of (strip raw)) [ none ↦ null | some v ↦ v ]

  -- _source_form_data; each key has the prefix
  unfoldable pub source_form_data : Form → Option SourceType → Text → SourceFormData
  unfolding strip lower posted_bool optional_float optional_int
  source_form_data form source_type prefix =
      let of_youtube = is_youtube source_type in
      record {
        name = strip (field_at form (prefix ++ codes "name"));
        url = strip (field_at form (prefix ++ codes "url"));
        media_type =
            if of_youtube
            then some (
                lower
                  (strip (text_or (field_at form (prefix ++ codes "media_type")) (codes "audio"))))
            else none;
        enabled = posted_bool form (prefix ++ codes "enabled") (codes "1");
        subtitles = posted_bool form (prefix ++ codes "subtitles") (codes "1");
        subtitle_offset_seconds =
            optional_float (field_at form (prefix ++ codes "subtitle_offset_seconds"));
        max_downloads = optional_int (field_at form (prefix ++ codes "max_downloads"));
        delete_explicit_content = posted_bool form (prefix ++ codes "delete_explicit_content") [];
        include_shorts = of_youtube && posted_bool form (prefix ++ codes "include_shorts") [];
        include_livestreams =
            of_youtube && posted_bool form (prefix ++ codes "include_livestreams") [];
        title_exclude = strip (field_at form (prefix ++ codes "title_exclude"));
      }

  abbrev pub is_absolute : Text → Bool
  is_absolute url =
      let (scheme, netloc) = urlparse url in
      (text_eq scheme (codes "http") || text_eq scheme (codes "https")) && not (is_empty netloc)

  abbrev pub name_errors : Text → List FormError
  name_errors name =
      if is_empty name then name_is_required ∷ [] else when (ltb 255 (length name)) name_is_too_long

  abbrev pub url_errors : Text → List FormError
  url_errors url =
      if is_empty url
      then url_is_required ∷ []
      else when (not (is_absolute url)) url_is_not_absolute

  abbrev is_bad_offset : Value → Bool
  is_bad_offset null = true
  is_bad_offset v = not (is_finite v)

  -- _source_form_errors; the two last tests read the fields without a prefix
  unfoldable pub source_form_errors : Form → SourceFormData → SourceType → List FormError
  unfolding strip text_eq
  source_form_errors form input source_type =
      name_errors input.name
      ++ (url_errors input.url
          ++ (when (is_youtube (some source_type) && not (is_media_type input.media_type))
                media_type_is_invalid
              ++ (when
                    (not (is_empty (strip (field_at form (codes "subtitle_offset_seconds"))))
                      && is_bad_offset input.subtitle_offset_seconds)
                    offset_is_invalid
                  ++ when
                      (not (is_empty (strip (field_at form (codes "max_downloads"))))
                        && is_below_one input.max_downloads)
                      max_downloads_is_invalid)))

  -- the rest of `add_source`, with the errors
  abbrev pub add_with :
      ℕ → String → SourceType → SourceFormData → Sources → List FormError → Sources × Answer
  add_with now profile source_type input sources (e ∷ errors) = (sources, invalid (e ∷ errors))
  add_with now profile source_type input sources [] = (
    record {
      rows =
          sources.rows
          ++ new_source now sources.next_id profile source_type
              (next_source_position profile source_type sources.rows) input
            ∷ [];
      next_id = suc sources.next_id;
    },
    redirect,
  )

  unfoldable pub add_source : ℕ → String → Form → Sources → Sources × Answer
  unfolding next_source_position
  add_source now profile form sources =
      elim (parse_str_enum source_types (str (field_at form (codes "source_type")))) [
        | none ↦ (sources, bad_source_type)
        | some source_type ↦
            let input = source_form_data form (some source_type) [] in
            add_with now profile source_type input sources
              (source_form_errors form input source_type)
      ]
