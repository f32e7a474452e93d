-- ===== src/Sources/Tests.antt =====
-- The theorems on the sources at small inputs.
use getoffline.Base.{
  ◌≡◌, refl, Bool, true, ◌||◌, Option, none, some, List, [], ◌∷◌, keep, length, Text, codes,
  text_eq, Value, str_or_empty, if◌then◌else◌,
}
use getoffline.Actions.{Form}
use getoffline.Domain.{parse_str_enum}
use getoffline.Sources.{Sources, source_form_errors, source_form_data, apply_source_form_data}
use getoffline.Sources.Edits.{validation_errors, save_rows}
use getoffline.Sources.Kept.{AreValid}
use getoffline.Sources.Runs.{
  Op, add, update, toggle, delete, save, is_other, apply, run_ops, run_ops-AreValid,
  run_ops-keep_others,
}

abbrev urlparse : Text → Text × Text
urlparse url = (codes "https", codes "example.org")

abbrev float_of : Text → Option Value
float_of t = none

abbrev is_finite : Value → Bool
is_finite v = true

abbrev form : Form
form key =
    if text_eq key (codes "source_type")
    then some (codes "podcast")
    else if text_eq key (codes "source_1__delete")
    then some (codes "1")
    else if text_eq key (codes "name") || text_eq key (codes "source_2__name")
    then some (codes "news")
    else if text_eq key (codes "url") || text_eq key (codes "source_2__url")
    then some (codes "https://example.org/feed")
    else none

abbrev no_sources : Sources
no_sources = record { rows = []; next_id = 1 }

abbrev ops : List Op
ops =
    add 5 form
    ∷ add 6 form
    ∷ update 7 2 form
    ∷ toggle 8 2
    ∷ save 9 (codes "podcast") form (codes "1" ∷ codes "2" ∷ [])
    ∷ delete 3
    ∷ []

run_ops-AreValid_example :
    AreValid urlparse float_of is_finite
      (run_ops urlparse float_of is_finite "home" ops no_sources).rows
run_ops-AreValid_example = run_ops-AreValid urlparse float_of is_finite "home" ops no_sources tt

one_left : length (run_ops urlparse float_of is_finite "home" ops no_sources).rows ≡ 1
unfolding run_ops apply validation_errors parse_str_enum str_or_empty source_form_errors
    source_form_data apply_source_form_data save_rows
one_left = refl

run_ops-keep_others_example :
    keep (is_other "home") (run_ops urlparse float_of is_finite "home" ops no_sources).rows
    ≡ keep (is_other "home") no_sources.rows
run_ops-keep_others_example = run_ops-keep_others urlparse float_of is_finite "home" ops no_sources
