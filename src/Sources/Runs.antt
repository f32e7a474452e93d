-- ===== src/Sources/Runs.antt =====
-- The handlers of the sources, called in any order by one profile.
use getoffline.Base.{
  ℕ, String, Bool, true, false, not, Bool-cases, Option, some, Option-cases, inl, inr, List, [],
  ◌∷◌, ◌++◌, ◌==◌, ◌≡◌, refl, ◌∙◌, arith, eq_refl, keep, first, first_passes, All-append, All-keep,
  All-update, keep-update_apart, keep-keep_apart, Text, codes, strip, lower, str, Value,
}
use getoffline.Domain.{SourceType, source_types, parse_str_enum}
use getoffline.Library.{Source}
use getoffline.Discovery.{source_config_type}
use getoffline.Actions.{Form, field_at}
use getoffline.Sources.{
  SourceFormData, FormError, Sources, is_own, next_source_position, apply_source_form_data,
  source_form_data, source_form_errors, add_with, add_source,
}
use getoffline.Sources.Edits.{
  toggled, toggle_source, delete_source, form_of, errors_of, update_with, update_source,
  posted_source_ids, save_with, is_known, save_sources,
}
use getoffline.Sources.Valid.{IsValid, no_errors-IsValidForm, apply-IsValid, new_source-IsValid}
use getoffline.Sources.Kept.{
  AreValid, errors_among, save_rows-AreValid, save_rows_apart, Checked-of_valid,
}

-- A request of the profile, at a time.
pub data Op : Type 0 where
  add : ℕ → Form → Op
  update : ℕ → ℕ → Form → Op
  toggle : ℕ → ℕ → Op
  delete : ℕ → Op
  save : ℕ → Text → Form → List Text → Op

-- a row of another profile
abbrev pub is_other : String → Source → Bool
is_other profile row = not (row.profile_id == profile)

keep_last_not :
    {A : Type 0} (p : A → Bool) (xs : List A) (y : A)
    → p y ≡ false
    → keep p (xs ++ y ∷ []) ≡ keep p xs
keep_last_not p [] y h = ground arith
keep_last_not p (x ∷ xs) y h = ground (arith, keep_last_not p xs y h)

module _ (urlparse : Text → Text × Text) (float_of : Text → Option Value) (is_finite : Value → Bool)
    (profile : String) where
  unfoldable pub apply : Op → Sources → Sources
  unfolding add_source update_source toggle_source delete_source save_sources
  apply (add now form) sources = (add_source urlparse float_of is_finite now profile form sources).0
  apply (update now id form) sources =
      (update_source urlparse float_of is_finite now profile id form sources).0
  apply (toggle now id) sources = (toggle_source now profile id sources).0
  apply (delete id) sources = (delete_source profile id sources).0
  apply (save now t form values) sources =
      (save_sources urlparse float_of is_finite now profile t form values sources).0

  unfoldable pub run_ops : List Op → Sources → Sources
  run_ops [] sources = sources
  run_ops (op ∷ ops) sources = run_ops ops (apply op sources)

  abbrev others : Sources → List Source
  others sources = keep (is_other profile) sources.rows

  -- What a handler keeps.
  abbrev Keeps : Sources → Sources → Type 0
  Keeps before after =
      (AreValid urlparse float_of is_finite before.rows
        → AreValid urlparse float_of is_finite after.rows)
      × (others after ≡ others before)

  add_with-Keeps :
      (now : ℕ) (s : SourceType) (form : Form) (input : SourceFormData) (sources : Sources)
      (errors : List FormError)
      → source_form_errors urlparse float_of is_finite form input s ≡ errors
      → Keeps sources (add_with urlparse float_of is_finite now profile s input sources errors).0
  add_with-Keeps now s form input sources (e ∷ errors) h = (λ v. v, refl)
  add_with-Keeps now s form input sources [] h = (
    λ v. All-append (IsValid urlparse float_of is_finite) sources.rows _ v (
      new_source-IsValid urlparse float_of is_finite now sources.next_id profile s
          (next_source_position profile s sources.rows) input
          (no_errors-IsValidForm urlparse float_of is_finite form input (some s) h),
      tt,
    ),
    keep_last_not (is_other profile) sources.rows _ (rw (eq_refl profile) refl),
  )

  add-Keeps :
      (now : ℕ) (form : Form) (sources : Sources)
      → Keeps sources (add_source urlparse float_of is_finite now profile form sources).0
  unfolding add_source
  add-Keeps now form sources =
      elim (Option-cases
        (parse_str_enum source_types (str (field_at form (codes "source_type"))))) [
          | inl e ↦ rw (e, add_source) (λ v. v, refl)
          | inr (s, e) ↦
              rw (e, add_source)
                (add_with-Keeps now s form
                  (source_form_data urlparse float_of is_finite form (some s) []) sources _ refl)
        ]

  own_is_not_other : (id : ℕ) (x : Source) → is_own profile id x ≡ true → is_other profile x ≡ false
  own_is_not_other id x h = ground arith

  update_with-Keeps :
      (now id : ℕ) (form : Form) (sources : Sources) (source : Source) (errors : List FormError)
      → is_own profile id source ≡ true
      → errors_of urlparse float_of is_finite form [] source ≡ errors
      → Keeps sources
          (update_with urlparse float_of is_finite now profile id form sources source errors).0
  unfolding apply_source_form_data
  update_with-Keeps now id form sources source (e ∷ errors) own h = (λ v. v, refl)
  update_with-Keeps now id form sources source [] own h =
      let input : SourceFormData = form_of urlparse float_of is_finite form [] source in
      let written : Source = apply_source_form_data now false input source in
      (
        All-update (IsValid urlparse float_of is_finite) (is_own profile id) (λ r. written)
            sources.rows
            (λ x e _. apply-IsValid urlparse float_of is_finite now false input source (
              no_errors-IsValidForm urlparse float_of is_finite form input
                (source_config_type source) h)),
        keep-update_apart (is_other profile) (is_own profile id) (λ r. written) sources.rows
            (own_is_not_other id) (λ x e. own_is_not_other id source own),
      )

  update-Keeps :
      (now id : ℕ) (form : Form) (sources : Sources)
      → Keeps sources (update_source urlparse float_of is_finite now profile id form sources).0
  unfolding update_source
  update-Keeps now id form sources = elim (Option-cases (first (is_own profile id) sources.rows)) [
    | inl e ↦ rw (e, update_source) (λ v. v, refl)
    | inr (s, e) ↦
        rw (e, update_source)
          (update_with-Keeps now id form sources s (errors_of urlparse float_of is_finite form [] s)
            (first_passes (is_own profile id) sources.rows s e) refl)
  ]

  toggle-Keeps :
      (now id : ℕ) (sources : Sources) → Keeps sources (toggle_source now profile id sources).0
  unfolding toggle_source
  toggle-Keeps now id sources = elim (Option-cases (first (is_own profile id) sources.rows)) [
    | inl e ↦ rw (e, toggle_source) (λ v. v, refl)
    | inr (s, e) ↦
        rw (e, toggle_source)
          (
            All-update (IsValid urlparse float_of is_finite) (is_own profile id) (toggled now)
                sources.rows (λ x e v. v),
            keep-update_apart (is_other profile) (is_own profile id) (toggled now) sources.rows
                (own_is_not_other id) (own_is_not_other id),
          )
  ]

  delete-Keeps : (id : ℕ) (sources : Sources) → Keeps sources (delete_source profile id sources).0
  unfolding delete_source
  delete-Keeps id sources = elim (Option-cases (first (is_own profile id) sources.rows)) [
    | inl e ↦ rw (e, delete_source) (λ v. v, refl)
    | inr (s, e) ↦
        rw (e, delete_source)
          (
            All-keep (IsValid urlparse float_of is_finite) (λ r. not (is_own profile id r))
                sources.rows,
            keep-keep_apart (is_other profile) (λ r. not (is_own profile id r)) sources.rows
                (λ x h. ground (arith, own_is_not_other id x)),
          )
  ]

  save_with-Keeps :
      (now : ℕ) (t : Text) (form : Form) (ids : List ℕ) (sources : Sources)
      (errors : List FormError)
      → errors_among urlparse float_of is_finite now profile t form sources.rows ids ≡ errors
      → Keeps sources
          (save_with urlparse float_of is_finite now profile t form ids sources errors).0
  unfolding apply_source_form_data
  save_with-Keeps now t form ids sources (e ∷ errors) h = (λ v. v, refl)
  save_with-Keeps now t form ids sources [] h = (
    save_rows-AreValid urlparse float_of is_finite now profile t form [] ids sources.rows
        (Checked-of_valid urlparse float_of is_finite now profile t form sources.rows ids h),
    save_rows_apart urlparse float_of is_finite now profile t form (is_other profile) [] ids
        sources.rows
        (λ id x e. (own_is_not_other id x (ground arith), own_is_not_other id x (ground arith))),
  )

  save-Keeps :
      (now : ℕ) (raw : Text) (form : Form) (values : List Text) (sources : Sources)
      → Keeps sources
          (save_sources urlparse float_of is_finite now profile raw form values sources).0
  unfolding save_sources
  save-Keeps now raw form values sources = elim (Bool-cases (is_known (lower (strip raw)))) [
    | inl known ↦ rw known (
        save_with-Keeps now (lower (strip raw)) form (posted_source_ids values) sources
          (errors_among urlparse float_of is_finite now profile (lower (strip raw)) form
            sources.rows (posted_source_ids values))
          refl)
    | inr unknown ↦ rw unknown (λ v. v, refl)
  ]

  apply-Keeps : (op : Op) (sources : Sources) → Keeps sources (apply op sources)
  unfolding apply
  apply-Keeps (add now form) sources = add-Keeps now form sources
  apply-Keeps (update now id form) sources = update-Keeps now id form sources
  apply-Keeps (toggle now id) sources = toggle-Keeps now id sources
  apply-Keeps (delete id) sources = delete-Keeps id sources
  apply-Keeps (save now t form values) sources = save-Keeps now t form values sources

  -- Whatever a profile asks of the handlers, if every source has a name of at most 255 characters, an
  -- absolute URL and, for YouTube, a media type, then so has every source afterwards.
  pub run_ops-AreValid :
      (ops : List Op) (sources : Sources)
      → AreValid urlparse float_of is_finite sources.rows
      → AreValid urlparse float_of is_finite (run_ops ops sources).rows
  unfolding run_ops
  run_ops-AreValid [] sources v = v
  run_ops-AreValid (op ∷ ops) sources v =
      run_ops-AreValid ops (apply op sources) ((apply-Keeps op sources).0 v)

  -- Whatever a profile asks of the handlers, the sources of the other profiles stay as they are, in their
  -- order.
  pub run_ops-keep_others :
      (ops : List Op) (sources : Sources)
      → keep (is_other profile) (run_ops ops sources).rows ≡ keep (is_other profile) sources.rows
  unfolding run_ops
  run_ops-keep_others [] sources = refl
  run_ops-keep_others (op ∷ ops) sources =
      run_ops-keep_others ops (apply op sources) ∙ (apply-Keeps op sources).1
