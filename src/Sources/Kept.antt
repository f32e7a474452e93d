-- ===== src/Sources/Kept.antt =====
-- What `save_sources` keeps: the sources are valid, and those that it may not edit stay.
use getoffline.Base.{
  ℕ, String, Bool, true, false, not, ◌&&◌, Bool-cases, Option, none, some, Option-cases, inl, inr,
  List, [], ◌∷◌, ◌++◌, ◌≡◌, refl, sym, ap, ◌∙◌, subst, arith, any, keep, first, update_where, All,
  All-keep, All-update, All-weaken, both_empty, any-update_same, first_passes, text_eq→eq,
  any_of_any-keep, update_of_none, keep-update_apart, keep-keep_apart, Text, nat_eq, Value,
  if◌then◌else◌,
}
use getoffline.Library.{Source}
use getoffline.Actions.{Form}
use getoffline.Sources.{FormError, apply_source_form_data}
use getoffline.Sources.Edits.{
  prefix_of, is_deletion, is_editable, errors_of, validation_errors, saved_row, save_row, save_rows,
}
use getoffline.Sources.Valid.{IsValid, errors_at, AreChecked, saved_row-IsValid}

module _ (urlparse : Text → Text × Text) (float_of : Text → Option Value)
    (is_finite : Value → Bool) where
  abbrev pub AreValid : List Source → Type 0
  AreValid rows = All (IsValid urlparse float_of is_finite) rows

  module _ (now : ℕ) (profile : String) (t : Text) (form : Form) where
    abbrev pub Checked : List Source → List ℕ → Type 0
    Checked rows ids = AreChecked urlparse float_of is_finite profile t form rows ids

    abbrev save_one : ℕ → List Source → List Source
    save_one id rows = save_row urlparse float_of is_finite now profile t form id rows

    abbrev pub saved : ℕ → Source → Source
    saved id source = saved_row urlparse float_of is_finite now form id source

    save_row-AreValid :
        (id : ℕ) (rows : List Source)
        → (is_deletion form id ≡ false
            → any (is_editable profile t id) rows ≡ true
            → errors_at urlparse float_of is_finite form t id ≡ [])
        → AreValid rows
        → AreValid (save_one id rows)
    unfolding save_row
    save_row-AreValid id rows good v = elim (Bool-cases (is_deletion form id)) [
      | inl gone ↦ rw gone (
          All-keep (IsValid urlparse float_of is_finite) (λ r. not (is_editable profile t id r))
            rows v)
      | inr kept ↦ rw kept (elim (Bool-cases (any (is_editable profile t id) rows)) [
        | inl found ↦
            All-update (IsValid urlparse float_of is_finite) (is_editable profile t id) (saved id)
              rows
              (λ x e h.
                saved_row-IsValid urlparse float_of is_finite now profile t form id x
                  (good kept found) e)
              v
        | inr absent ↦
            subst AreValid (sym (update_of_none (is_editable profile t id) (saved id) rows absent))
              v
      ])
    ]

    row_deleted :
        (id : ℕ) (rows : List Source)
        → is_deletion form id ≡ true
        → save_one id rows ≡ keep (λ r. not (is_editable profile t id r)) rows
    unfolding save_row
    row_deleted id rows gone = rw gone refl

    row_saved :
        (id : ℕ) (rows : List Source)
        → is_deletion form id ≡ false
        → save_one id rows ≡ update_where (is_editable profile t id) (saved id) rows
    unfolding save_row
    row_saved id rows kept = rw kept refl

    editable_after :
        (id other : ℕ) (rows : List Source)
        → any (is_editable profile t other) (save_one id rows) ≡ true
        → any (is_editable profile t other) rows ≡ true
    unfolding apply_source_form_data
    editable_after id other rows h = elim (Bool-cases (is_deletion form id)) [
      | inl gone ↦
          any_of_any-keep (is_editable profile t other) (λ r. not (is_editable profile t id r)) rows
            (sym (ap (any (is_editable profile t other)) (row_deleted id rows gone)) ∙ h)
      | inr kept ↦
          sym (
            any-update_same (is_editable profile t other) (is_editable profile t id) (saved id) rows
              (λ x. refl))
          ∙ (sym (ap (any (is_editable profile t other)) (row_saved id rows kept)) ∙ h)
    ]

    Checked-after :
        (id : ℕ) (rows : List Source) (ids : List ℕ)
        → Checked rows ids
        → Checked (save_one id rows) ids
    Checked-after id rows ids c =
        All-weaken _ _ (λ other h kept found. h kept (editable_after id other rows found)) ids c

    abbrev gone_after : ℕ → List ℕ → List Source → List ℕ
    gone_after id gone rows =
        if any (is_editable profile t id) rows && is_deletion form id then id ∷ gone else gone

    pub save_rows-AreValid :
        (gone ids : List ℕ) (rows : List Source)
        → Checked rows ids
        → AreValid rows
        → AreValid (save_rows urlparse float_of is_finite now profile t form gone ids rows).0
    unfolding save_rows
    save_rows-AreValid gone [] rows c v = v
    save_rows-AreValid gone (id ∷ ids) rows c v = elim (Bool-cases (any (nat_eq id) gone)) [
      | inl again ↦ rw again v
      | inr new ↦ rw new (
          save_rows-AreValid (gone_after id gone rows) ids (save_one id rows)
            (Checked-after id rows ids c.1) (save_row-AreValid id rows c.0 v))
    ]

    pub save_rows_apart :
        (p : Source → Bool) (gone ids : List ℕ) (rows : List Source)
        → ((id : ℕ) (x : Source)
            → is_editable profile t id x ≡ true
            → (p x ≡ false) × (p (saved id x) ≡ false))
        → keep p (save_rows urlparse float_of is_finite now profile t form gone ids rows).0
          ≡ keep p rows
    unfolding save_rows
    save_rows_apart p gone [] rows h = refl
    save_rows_apart p gone (id ∷ ids) rows h = elim (Bool-cases (any (nat_eq id) gone)) [
      | inl again ↦ rw again refl
      | inr new ↦ rw new (
          save_rows_apart p (gone_after id gone rows) ids (save_one id rows) h
          ∙ elim (Bool-cases (is_deletion form id)) [
            | inl d ↦
                ap (keep p) (row_deleted id rows d)
                ∙ keep-keep_apart p (λ r. not (is_editable profile t id r)) rows
                    (λ x e. (h id x (ground arith)).0)
            | inr k ↦
                ap (keep p) (row_saved id rows k)
                ∙ keep-update_apart p (is_editable profile t id) (saved id) rows
                    (λ x e. (h id x e).0) (λ x e. (h id x e).1)
          ])
    ]

    first_of_any :
        (p : Source → Bool) (rows : List Source) → first p rows ≡ none → any p rows ≡ false
    first_of_any p [] h = refl
    first_of_any p (x ∷ rows) h = ground (arith, first_of_any p rows)

    first_type :
        (id : ℕ) (rows : List Source) (x : Source)
        → first (is_editable profile t id) rows ≡ some x
        → x.source_type ≡ t
    first_type id rows x h =
        text_eq→eq x.source_type t
          (ground (arith, first_passes (is_editable profile t id) rows x h))

    abbrev pub errors_among : List Source → List ℕ → List FormError
    errors_among rows ids = validation_errors urlparse float_of is_finite profile t form rows ids

    none_skipped :
        (rows : List Source) (id : ℕ) (ids : List ℕ)
        → first (is_editable profile t id) rows ≡ none
        → errors_among rows (id ∷ ids) ≡ errors_among rows ids
    unfolding validation_errors
    none_skipped rows id ids e = rw (e, validation_errors) refl

    deleted_skipped :
        (rows : List Source) (id : ℕ) (ids : List ℕ) (x : Source)
        → first (is_editable profile t id) rows ≡ some x
        → is_deletion form id ≡ true
        → errors_among rows (id ∷ ids) ≡ errors_among rows ids
    unfolding validation_errors
    deleted_skipped rows id ids x e d = rw (e, validation_errors, d) refl

    others_checked :
        (rows : List Source) (id : ℕ) (ids : List ℕ) (x : Source)
        → first (is_editable profile t id) rows ≡ some x
        → is_deletion form id ≡ false
        → errors_among rows (id ∷ ids)
          ≡ errors_of urlparse float_of is_finite form (prefix_of id) x ++ errors_among rows ids
    unfolding validation_errors
    others_checked rows id ids x e d = rw (e, validation_errors, d) refl

    -- Forms without errors are those that are checked.
    pub Checked-of_valid :
        (rows : List Source) (ids : List ℕ) → errors_among rows ids ≡ [] → Checked rows ids
    Checked-of_valid rows [] h = tt
    Checked-of_valid rows (id ∷ ids) h =
        elim (Option-cases (first (is_editable profile t id) rows)) [
          | inl e ↦ (
            λ kept found. absurd (ground (arith, first_of_any (is_editable profile t id) rows e)),
            Checked-of_valid rows ids (sym (none_skipped rows id ids e) ∙ h),
          )
          | inr (x, e) ↦ elim (Bool-cases (is_deletion form id)) [
            | inl d ↦ (
              λ kept found. absurd (ground arith),
              Checked-of_valid rows ids (sym (deleted_skipped rows id ids x e d) ∙ h),
            )
            | inr k ↦
                let (mine, rest) =
                  both_empty _ (errors_among rows ids)
                    (sym (others_checked rows id ids x e k) ∙ h) in
                (
                  λ kept found.
                      subst (λ y. errors_at urlparse float_of is_finite form y id ≡ [])
                        (first_type id rows x e) mine,
                  Checked-of_valid rows ids rest,
                )
          ]
        ]
