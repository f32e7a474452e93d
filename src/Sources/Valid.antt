-- ===== src/Sources/Valid.antt =====
-- Every source in the table has a name, an absolute URL and, for YouTube, a media type.
use getoffline.Base.{
  both_empty, ℕ, String, Bool, true, false, not, ◌&&◌, ◌||◌, Option, none, some, List, [], ◌∷◌, ◌≡◌,
  refl, sym, subst, arith, any, All, Text, codes, text_eq, text_eq→eq, strip, lower, str,
  str_or_empty, ℤ, Value, if◌then◌else◌,
}
use getoffline.Domain.{SourceType, youtube, podcast, source_types, parse_str_enum}
use getoffline.Library.{Source}
use getoffline.Discovery.{source_config_type, text_or}
use getoffline.Actions.{Form}
use getoffline.Sources.{
  SourceFormData, FormError, media_type_is_invalid, is_youtube, is_media_type, when, or_podcast,
  or_text, new_source, apply_source_form_data, source_form_data, source_form_errors, name_errors,
  url_errors,
}
use getoffline.Sources.Edits.{prefix_of, is_deletion, is_editable, saved_row}

not_when : (b : Bool) (e : FormError) → when b e ≡ [] → b ≡ false
not_when true e h = cc
not_when false e h = refl

true_of : (b : Bool) → (true && not b) ≡ false → b ≡ true
true_of true h = refl
true_of false h = cc

media_of_no_error :
    (s : Option SourceType) (m : Option Text) (e : FormError)
    → when (is_youtube (some (or_podcast s)) && not (is_media_type m)) e ≡ []
    → (not (is_youtube s) || is_media_type m) ≡ true
media_of_no_error none m e h = refl
media_of_no_error (some podcast) m e h = refl
media_of_no_error (some youtube) m e h = true_of (is_media_type m) (not_when _ e h)

-- the media type that a valid form gives to a source
media_of_form :
    (m old : Option Text) (d : Text)
    → is_media_type m ≡ true
    → is_media_type (some (or_text m old d)) ≡ true
unfolding text_eq
media_of_form none old d h = cc
media_of_form (some []) old d h = cc
media_of_form (some (c ∷ t)) old d h = h

-- and so a source keeps its media type for YouTube
media_kept :
    (y : Bool) (m old : Option Text)
    → (not y || is_media_type m) ≡ true
    → (not y || is_media_type (if y then some (or_text m old (codes "audio")) else old)) ≡ true
media_kept true m old h = media_of_form m old (codes "audio") h
media_kept false m old h = refl

module _ (urlparse : Text → Text × Text) (float_of : Text → Option Value)
    (is_finite : Value → Bool) where
  abbrev HasMedia : Option SourceType → Option Text → Type 0
  HasMedia s media_type = (not (is_youtube s) || is_media_type media_type) ≡ true

  -- No error of a form is about the name, the URL or the media type of the source.
  abbrev pub IsValid : Source → Type 0
  IsValid source =
      (name_errors urlparse float_of is_finite source.name ≡ [])
      × (url_errors urlparse float_of is_finite source.url ≡ [])
      × HasMedia (source_config_type source) source.media_type

  abbrev pub IsValidForm : Option SourceType → SourceFormData → Type 0
  IsValidForm s input =
      (name_errors urlparse float_of is_finite input.name ≡ [])
      × (url_errors urlparse float_of is_finite input.url ≡ [])
      × HasMedia s input.media_type

  pub no_errors-IsValidForm :
      (form : Form) (input : SourceFormData) (s : Option SourceType)
      → source_form_errors urlparse float_of is_finite form input (or_podcast s) ≡ []
      → IsValidForm s input
  unfolding source_form_errors
  no_errors-IsValidForm form input s h =
      let (names, rest) = both_empty (name_errors urlparse float_of is_finite input.name) _ h in
      let (urls, rest') = both_empty (url_errors urlparse float_of is_finite input.url) _ rest in
      let (media, rest'') =
        both_empty
          (when (is_youtube (some (or_podcast s)) && not (is_media_type input.media_type))
            media_type_is_invalid)
          _ rest' in
      (names, urls, media_of_no_error s input.media_type media_type_is_invalid media)

  name_kept :
      (n m : Text)
      → name_errors urlparse float_of is_finite n ≡ []
      → name_errors urlparse float_of is_finite (text_or n m) ≡ []
  name_kept [] m h = cc
  name_kept (c ∷ n) m h = h

  url_kept :
      (n m : Text)
      → url_errors urlparse float_of is_finite n ≡ []
      → url_errors urlparse float_of is_finite (text_or n m) ≡ []
  url_kept [] m h = cc
  url_kept (c ∷ n) m h = h

  pub apply-IsValid :
      (now : ℕ) (include_enabled : Bool) (input : SourceFormData) (source : Source)
      → IsValidForm (source_config_type source) input
      → IsValid (apply_source_form_data now include_enabled input source)
  unfolding apply_source_form_data
  apply-IsValid now include_enabled input source (names, urls, media) = (
    name_kept input.name source.name names,
    url_kept input.url source.url urls,
    media_kept (is_youtube (source_config_type source)) input.media_type source.media_type media,
  )

  pub new_source-IsValid :
      (now id : ℕ) (profile : String) (s : SourceType) (position : ℤ) (input : SourceFormData)
      → IsValidForm (some s) input
      → IsValid (new_source now id profile s position input)
  unfolding parse_str_enum str_or_empty strip lower text_eq
  new_source-IsValid now id profile youtube position input v = v
  new_source-IsValid now id profile podcast position input v = v

  -- the errors for a posted key depend on the type of its source alone
  abbrev pub errors_at : Form → Text → ℕ → List FormError
  errors_at form t id =
      let s = parse_str_enum source_types (str t) in
      source_form_errors urlparse float_of is_finite form
        (source_form_data urlparse float_of is_finite form s (prefix_of id)) (or_podcast s)

  -- Every key whose rows are saved has a form without errors.
  abbrev pub AreChecked : String → Text → Form → List Source → List ℕ → Type 0
  AreChecked profile t form rows = All (λ id.
      is_deletion form id ≡ false
      → any (is_editable profile t id) rows ≡ true
      → errors_at form t id ≡ [])

  pub saved_row-IsValid :
      (now : ℕ) (profile : String) (t : Text) (form : Form) (id : ℕ) (source : Source)
      → errors_at form t id ≡ []
      → is_editable profile t id source ≡ true
      → IsValid (saved_row urlparse float_of is_finite now form id source)
  saved_row-IsValid now profile t form id source good editable =
      let same : source.source_type ≡ t = text_eq→eq source.source_type t (ground arith) in
      apply-IsValid now true _ source (
        no_errors-IsValidForm form _ (source_config_type source)
          (subst (λ x. errors_at form x id ≡ []) (sym same) good))
