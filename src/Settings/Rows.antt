-- ===== src/Settings/Rows.antt =====
-- What a key of a profile reads after a row of the settings is written.
use getoffline.Base.{
  update_of_none, ℕ, String, Bool, true, false, ◌&&◌, Bool-cases, Option, none, some, inl, inr,
  List, [], ◌∷◌, ◌++◌, ◌==◌, ◌≡◌, refl, sym, ap, ◌∙◌, subst, arith, eq_iff, eq_refl, any, length,
  update_where, drop, nat_eq_iff, Text, text_eq, text_eq_refl, text_eq→eq, if◌then◌else◌,
}
use getoffline.TitleFilter.{starts_with}
use getoffline.Settings.{ConfigRow, or_else, value_of, own_values, is_row_of, put_config}

-- the value of the key in the rows of the profile
abbrev pub own : String → Text → List ConfigRow → Option Text
own p k rows = value_of k (own_values p rows)

abbrev pub is_same : String → Text → String → Text → Bool
is_same p k profile key = profile == p && text_eq key k

pub or_else-none : (a : Option Text) → or_else a none ≡ a
or_else-none none = refl
or_else-none (some t) = refl

pub or_else_assoc : (a b c : Option Text) → or_else a (or_else b c) ≡ or_else (or_else a b) c
or_else_assoc none b c = refl
or_else_assoc (some t) b c = refl

own-cons :
    (p : String) (k : Text) (row : ConfigRow) (rows : List ConfigRow)
    → own p k (row ∷ rows)
      ≡ or_else (own p k rows) (if is_same p k row.profile_id row.key then some row.value else none)
unfolding value_of own_values
own-cons p k row rows = elim (Bool-cases (row.profile_id == p)) [
  | inl e ↦ rw (e, own_values, value_of) refl
  | inr e ↦ rw (e, own_values, value_of) (sym (or_else-none (own p k rows)))
]

own-append :
    (p : String) (k : Text) (rows : List ConfigRow) (row : ConfigRow)
    → own p k (rows ++ row ∷ [])
      ≡ or_else (if is_same p k row.profile_id row.key then some row.value else none) (own p k rows)
unfolding value_of own_values
own-append p k [] row = own-cons p k row [] ∙ sym (or_else-none _)
own-append p k (r ∷ rows) row =
    own-cons p k r (rows ++ row ∷ [])
    ∙ ap (λ o. or_else o (if is_same p k r.profile_id r.key then some r.value else none))
        (own-append p k rows row)
    ∙ sym (
        or_else_assoc (if is_same p k row.profile_id row.key then some row.value else none)
          (own p k rows) _)
    ∙ ap (or_else (if is_same p k row.profile_id row.key then some row.value else none))
        (sym (own-cons p k r rows))

-- A pair is the same as another where both parts are.
pair_of_same :
    (p : String) (k : Text) (a : String) (b : Text) → is_same p k a b ≡ true → (a ≡ p) × (b ≡ k)
pair_of_same p k a b h = elim (Bool-cases (a == p)) [
  | inl e ↦ ((eq_iff a p).0 e, text_eq→eq b k (ground arith))
  | inr e ↦ absurd (ground arith)
]

same_right :
    (c p : String) (c' k : Text) (a : String) (b : Text)
    → is_same p k a b ≡ true
    → is_same c c' a b ≡ is_same c c' p k
same_right c p c' k a b h =
    let (e, e') = pair_of_same p k a b h in ap (λ x. is_same c c' x b) e ∙ ap (is_same c c' p) e'

same_left :
    (c p : String) (c' k : Text) (a : String) (b : Text)
    → is_same p k a b ≡ true
    → is_same p k c c' ≡ is_same a b c c'
same_left c p c' k a b h =
    let (e, e') = pair_of_same p k a b h in
    sym (ap (λ x. is_same x b c c') e ∙ ap (λ x. is_same p x c c') e')

module _ (now : ℕ) (profile : String) (key value : Text) where
  abbrev write : ConfigRow → ConfigRow
  write row = record row { value = value; updated_at = now }

  own_of_none :
      (rows : List ConfigRow)
      → any (is_row_of profile key) rows ≡ false
      → own profile key rows ≡ none
  unfolding value_of own_values
  own_of_none [] h = refl
  own_of_none (row ∷ rows) h = ground (arith, own-cons profile key row rows, own_of_none rows)

  -- Where the rows of the key hold the value, so does the dictionary.
  own-update_same :
      (rows : List ConfigRow)
      → any (is_row_of profile key) rows ≡ true
      → own profile key (update_where (is_row_of profile key) write rows) ≡ some value
  own-update_same [] h = cc
  own-update_same (row ∷ rows) h = elim (Bool-cases (any (is_row_of profile key) rows)) [
    | inl more ↦
        own-cons profile key (if is_row_of profile key row then write row else row)
          (update_where (is_row_of profile key) write rows)
        ∙ rw (own-update_same rows more) refl
    | inr last ↦
        let here : is_row_of profile key row ≡ true = ground arith in
        rw (here, update_of_none (is_row_of profile key) write rows last)
          (own-cons profile key (write row) rows ∙ rw (own_of_none rows last, here) refl)
  ]

  put_config_same :
      (rows : List ConfigRow) → own profile key (put_config now profile key value rows) ≡ some value
  unfolding put_config
  put_config_same rows = elim (Bool-cases (any (is_row_of profile key) rows)) [
    | inl e ↦ rw e (own-update_same rows e)
    | inr e ↦ rw e (
        own-append profile key rows
          (record { profile_id = profile; key = key; value = value; updated_at = now })
        ∙ rw (eq_refl profile, text_eq_refl key) refl)
  ]

module _ (now : ℕ) (profile : String) (key value : Text) (p : String) (k : Text) where
  own-update_other :
      (rows : List ConfigRow)
      → is_same p k profile key ≡ false
      → own p k (update_where (is_row_of profile key) (write now profile key value) rows)
        ≡ own p k rows
  unfolding value_of own_values
  own-update_other [] m = refl
  own-update_other (row ∷ rows) m = ground (
    arith,
    own-cons p k row rows,
    own-cons p k (write now profile key value row)
        (update_where (is_row_of profile key) (write now profile key value) rows),
    own-cons p k row (update_where (is_row_of profile key) (write now profile key value) rows),
    same_right p profile k key row.profile_id row.key,
    own-update_other rows m,
  )

  put_config_other :
      (rows : List ConfigRow)
      → is_same p k profile key ≡ false
      → own p k (put_config now profile key value rows) ≡ own p k rows
  unfolding put_config
  put_config_other rows m = elim (Bool-cases (any (is_row_of profile key) rows)) [
    | inl e ↦ rw e (own-update_other rows m)
    | inr e ↦ rw e (
        own-append p k rows
          (record { profile_id = profile; key = key; value = value; updated_at = now })
        ∙ rw m refl)
  ]

  -- What a key of a profile reads after one of them is written.
  pub put_config_lem :
      (rows : List ConfigRow)
      → own p k (put_config now profile key value rows)
        ≡ (if is_same p k profile key then some value else own p k rows)
  put_config_lem rows = elim (Bool-cases (is_same p k profile key)) [
    | inl m ↦
        let (e, e') = pair_of_same p k profile key m in
        rw m (
          subst (λ x. own x k (put_config now profile key value rows) ≡ some value) e
            (subst (λ x. own profile x (put_config now profile key value rows) ≡ some value) e'
              (put_config_same now profile key value rows)))
    | inr m ↦ rw m (put_config_other rows m)
  ]

-- A key is the prefix and another where it begins with the prefix and the other is the rest of it.
pub prefix_split :
    (prefix key k : Text)
    → text_eq key (prefix ++ k) ≡ (starts_with prefix key && text_eq (drop (length prefix) key) k)
unfolding starts_with text_eq
prefix_split [] key k = refl
prefix_split (c ∷ prefix) [] k = refl
prefix_split (c ∷ prefix) (d ∷ key) k =
    ground (arith, prefix_split prefix key k, nat_eq_iff c d, nat_eq_iff d c)
