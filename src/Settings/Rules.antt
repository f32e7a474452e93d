-- ===== src/Settings/Rules.antt =====
-- Which forms of settings are saved.
use getoffline.Base.{
  both_empty, ℕ, String, Bool, true, false, not, Bool-cases, Option, none, some, inl, inr, ◌⊎◌,
  List, [], ◌∷◌, ◌≡◌, refl, sym, ◌∙◌, arith, any, All, Text, text_eq, strip, lower, ℤ, pos, leb_ℤ,
  parse_int,
}
use getoffline.Settings.{
  Store, Form, value_of, config_key, is_bad_number, breaks_integer_rule, breaks_enum_rule,
  bad_integer_keys, bad_enum_keys, invalid_config_keys, integer_rules, enum_rules,
}
use getoffline.Settings.Save.{save_with, save_config, redirect, Answer}

-- What the form has for the key is a number that is at least the minimum.
abbrev IsNumberText : ℕ → Option Text → Type 0
IsNumberText minimum none = Unit
IsNumberText minimum (some raw) =
    (z : ℤ) × (parse_int (strip raw) ≡ some z) × (leb_ℤ (pos minimum) z ≡ true)

abbrev pub IsNumber : Form → Text × ℕ → Type 0
IsNumber form (key, minimum) = IsNumberText minimum (value_of (config_key key) form)

-- What the form has for the key is one of the allowed texts, in any case.
abbrev IsChoiceText : List Text → Option Text → Type 0
IsChoiceText allowed none = Unit
IsChoiceText allowed (some raw) = any (text_eq (lower (strip raw))) allowed ≡ true

abbrev pub IsChoice : Form → Text × List Text → Type 0
IsChoice form (key, allowed) = IsChoiceText allowed (value_of (config_key key) form)

not_bad :
    (minimum : ℕ) (o : Option ℤ)
    → is_bad_number minimum o ≡ false
    → (z : ℤ) × (o ≡ some z) × (leb_ℤ (pos minimum) z ≡ true)
not_bad minimum none h = cc
not_bad minimum (some z) h = (z, refl, ground arith)

number_test :
    (form : Form) (key : Text) (minimum : ℕ) (raw : Text)
    → value_of (config_key key) form ≡ some raw
    → breaks_integer_rule form key minimum ≡ is_bad_number minimum (parse_int (strip raw))
unfolding breaks_integer_rule
number_test form key minimum raw e = rw (e, breaks_integer_rule) refl

choice_test :
    (form : Form) (key : Text) (allowed : List Text) (raw : Text)
    → value_of (config_key key) form ≡ some raw
    → breaks_enum_rule form key allowed ≡ not (any (text_eq (lower (strip raw))) allowed)
unfolding breaks_enum_rule
choice_test form key allowed raw e = rw (e, breaks_enum_rule) refl

true_of_not : (b : Bool) → not b ≡ false → b ≡ true
true_of_not true h = refl
true_of_not false h = cc

number_of_good :
    (form : Form) (key : Text) (minimum : ℕ)
    → breaks_integer_rule form key minimum ≡ false
    → (o : Option Text) → value_of (config_key key) form ≡ o
    → IsNumberText minimum o
number_of_good form key minimum e none v = tt
number_of_good form key minimum e (some raw) v =
    not_bad minimum (parse_int (strip raw)) (sym (number_test form key minimum raw v) ∙ e)

choice_of_good :
    (form : Form) (key : Text) (allowed : List Text)
    → breaks_enum_rule form key allowed ≡ false
    → (o : Option Text) → value_of (config_key key) form ≡ o
    → IsChoiceText allowed o
choice_of_good form key allowed e none v = tt
choice_of_good form key allowed e (some raw) v =
    true_of_not (any (text_eq (lower (strip raw))) allowed)
      (sym (choice_test form key allowed raw v) ∙ e)

module _ (form : Form) where
  numbers_of_good :
      (rules : List (Text × ℕ)) → bad_integer_keys form rules ≡ [] → All (IsNumber form) rules
  unfolding bad_integer_keys
  numbers_of_good [] h = tt
  numbers_of_good ((key, minimum) ∷ rules) h =
      elim (Bool-cases (breaks_integer_rule form key minimum)) [
        | inl e ↦ absurd (ground arith)
        | inr e ↦ (
          number_of_good form key minimum e (value_of (config_key key) form) refl,
          numbers_of_good rules (ground arith),
        )
      ]

  choices_of_good :
      (rules : List (Text × List Text)) → bad_enum_keys form rules ≡ [] → All (IsChoice form) rules
  unfolding bad_enum_keys
  choices_of_good [] h = tt
  choices_of_good ((key, allowed) ∷ rules) h =
      elim (Bool-cases (breaks_enum_rule form key allowed)) [
        | inl e ↦ absurd (ground arith)
        | inr e ↦ (
          choice_of_good form key allowed e (value_of (config_key key) form) refl,
          choices_of_good rules (ground arith),
        )
      ]

  All-good :
      invalid_config_keys form ≡ []
      → All (IsNumber form) integer_rules × All (IsChoice form) enum_rules
  unfolding invalid_config_keys
  All-good h =
      let (numbers, choices) =
        both_empty (bad_integer_keys form integer_rules) (bad_enum_keys form enum_rules) h in
      (numbers_of_good integer_rules numbers, choices_of_good enum_rules choices)

abbrev IsGuarded : Form → Store → List Text → Store × Answer → Type 0
IsGuarded form store keys (after, answer) = ((answer ≡ redirect) × (keys ≡ [])) ⊎ (after ≡ store)

save_with-IsGuarded :
    (now : ℕ) (profile : String) (acquired : Bool) (form : Form) (store : Store) (keys : List Text)
    → IsGuarded form store keys (save_with now profile acquired form store keys)
save_with-IsGuarded now profile acquired form store (key ∷ keys) = inr refl
save_with-IsGuarded now profile false form store [] = inr refl
save_with-IsGuarded now profile true form store [] = inl (refl, refl)

-- A form either is saved and obeys the rules, each number that it has for a key being one of at least
-- the key's minimum and each choice one of those allowed, or changes nothing at all.
pub save_config_obeys_rules :
    (now : ℕ) (profile : String) (acquired : Bool) (form : Form) (store : Store)
    → (((save_config now profile acquired form store).1 ≡ redirect)
        × (All (IsNumber form) integer_rules × All (IsChoice form) enum_rules))
      ⊎ ((save_config now profile acquired form store).0 ≡ store)
unfolding save_config
save_config_obeys_rules now profile acquired form store =
    elim (save_with-IsGuarded now profile acquired form store (invalid_config_keys form)) [
      | inl (saved, keys) ↦ inl (saved, All-good form keys)
      | inr same ↦ inr same
    ]
