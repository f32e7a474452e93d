-- ===== src/Sources/Edits.antt =====
-- The handlers that change the sources that are there.
use getoffline.Base.{
  ℕ, String, Bool, true, false, not, ◌&&◌, ◌||◌, Option, none, some, List, [], ◌∷◌, ◌++◌, nat_eq,
  any, keep, first, update_where, Text, codes, text_eq, is_digits, strip, lower, decimal, ℤ,
  pos_part, parse_int, Value, raised, Outcome, ok, err, if◌then◌else◌,
}
use getoffline.Library.{Source}
use getoffline.Discovery.{source_config_type}
use getoffline.Actions.{Form, posted_bool}
use getoffline.Sources.{
  SourceFormData, FormError, Sources, Answer, redirect, bad_source_type, not_found, invalid, is_own,
  apply_source_form_data, or_podcast, source_form_data, source_form_errors,
}

abbrev pub toggled : ℕ → Source → Source
toggled now source = record source { enabled = not source.enabled; updated_at = now }

unfoldable pub toggle_source : ℕ → String → ℕ → Sources → Sources × Answer
toggle_source now profile id sources = elim (first (is_own profile id) sources.rows) [
  | none ↦ (sources, not_found)
  | some source ↦ (
    record sources { rows = update_where (is_own profile id) (toggled now) sources.rows },
    redirect,
  )
]

unfoldable pub delete_source : String → ℕ → Sources → Sources × Answer
delete_source profile id sources = elim (first (is_own profile id) sources.rows) [
  | none ↦ (sources, not_found)
  | some source ↦
      (record sources { rows = keep (λ r. not (is_own profile id r)) sources.rows }, redirect)
]

-- the numbers of the posted `source_ids`; the digits are ASCII
abbrev number_of : Option ℤ → List ℕ
number_of none = []
number_of (some z) = pos_part z ∷ []

unfoldable pub posted_source_ids : List Text → List ℕ
unfolding parse_int
posted_source_ids [] = []
posted_source_ids (value ∷ values) =
    let rest = posted_source_ids values in
    if is_digits value then number_of (parse_int value) ++ rest else rest

-- f"source_{id}__"
abbrev pub prefix_of : ℕ → Text
prefix_of id = codes "source_" ++ (decimal id ++ codes "__")

abbrev pub is_deletion : Form → ℕ → Bool
is_deletion form id = posted_bool form (prefix_of id ++ codes "delete") []

-- a row that `_editable_sources_by_id` finds under the key
abbrev pub is_editable : String → Text → ℕ → Source → Bool
is_editable profile source_type id source =
    is_own profile id source && text_eq source.source_type source_type

-- a source type that `save_sources` takes
abbrev pub is_known : Text → Bool
is_known t = text_eq t (codes "youtube") || text_eq t (codes "podcast")

module _ (urlparse : Text → Text × Text) (float_of : Text → Option Value)
    (is_finite : Value → Bool) where
  abbrev pub form_of : Form → Text → Source → SourceFormData
  form_of form prefix source =
      source_form_data urlparse float_of is_finite form (source_config_type source) prefix

  abbrev pub errors_of : Form → Text → Source → List FormError
  errors_of form prefix source =
      source_form_errors urlparse float_of is_finite form (form_of form prefix source)
        (or_podcast (source_config_type source))

  -- the rest of `update_source`: the object that was read takes the place of its row
  abbrev pub update_with :
      ℕ → String → ℕ → Form → Sources → Source → List FormError → Sources × Answer
  update_with now profile id form sources source (e ∷ errors) = (sources, invalid (e ∷ errors))
  update_with now profile id form sources source [] = (
    record sources {
      rows =
          update_where (is_own profile id)
            (λ r. apply_source_form_data now false (form_of form [] source) source) sources.rows;
    },
    redirect,
  )

  unfoldable pub update_source : ℕ → String → ℕ → Form → Sources → Sources × Answer
  update_source now profile id form sources = elim (first (is_own profile id) sources.rows) [
    | none ↦ (sources, not_found)
    | some source ↦ update_with now profile id form sources source (errors_of form [] source)
  ]

  -- the first loop of `save_sources`
  unfoldable pub validation_errors : String → Text → Form → List Source → List ℕ → List FormError
  unfolding posted_bool
  validation_errors profile source_type form rows [] = []
  validation_errors profile source_type form rows (id ∷ ids) =
      let rest = validation_errors profile source_type form rows ids in
      elim (first (is_editable profile source_type id) rows) [
        | none ↦ rest
        | some source ↦
            if is_deletion form id then rest else errors_of form (prefix_of id) source ++ rest
      ]

  -- what `_save_source_row` writes
  abbrev pub saved_row : ℕ → Form → ℕ → Source → Source
  saved_row now form id source =
      apply_source_form_data now true (form_of form (prefix_of id) source) source

  unfoldable pub save_row : ℕ → String → Text → Form → ℕ → List Source → List Source
  unfolding posted_bool
  save_row now profile source_type form id rows =
      if is_deletion form id
      then keep (λ r. not (is_editable profile source_type id r)) rows
      else update_where (is_editable profile source_type id) (saved_row now form id) rows

  -- The second loop. A key that is posted again after its row was deleted stands for an object without a
  -- key, which can be neither saved nor deleted.
  unfoldable pub save_rows :
      ℕ → String → Text → Form → List ℕ → List ℕ → List Source → List Source × Outcome (Unit {0})
  unfolding save_row posted_bool
  save_rows now profile source_type form gone [] rows = (rows, ok tt)
  save_rows now profile source_type form gone (id ∷ ids) rows =
      let found = any (is_editable profile source_type id) rows in
      let gone' = if found && is_deletion form id then id ∷ gone else gone in
      let rest =
        save_rows now profile source_type form gone' ids
          (save_row now profile source_type form id rows) in
      if any (nat_eq id) gone then (rows, err (raised (codes "ValueError"))) else rest

  abbrev pub save_with :
      ℕ → String → Text → Form → List ℕ → Sources → List FormError → Sources × Outcome Answer
  save_with now profile source_type form ids sources (e ∷ errors) =
      (sources, ok (invalid (e ∷ errors)))
  save_with now profile source_type form ids sources [] =
      let (rows, outcome) = save_rows now profile source_type form [] ids sources.rows in
      (record sources { rows = rows }, elim outcome [ ok u ↦ ok redirect | err e ↦ err e ])

  unfoldable pub save_sources :
      ℕ → String → Text → Form → List Text → Sources → Sources × Outcome Answer
  unfolding posted_source_ids strip lower
  save_sources now profile raw_type form values sources =
      let source_type = lower (strip raw_type) in
      let ids = posted_source_ids values in
      if not (is_known source_type)
      then (sources, ok bad_source_type)
      else save_with now profile source_type form ids sources
          (validation_errors profile source_type form sources.rows ids)
