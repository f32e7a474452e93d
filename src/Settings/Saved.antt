-- ===== src/Settings/Saved.antt =====
-- What the settings of the profiles are after a form is saved.
use getoffline.Base.{
  ℕ, zero, suc, String, Bool, true, false, ◌&&◌, Bool-cases, Option, none, some, inl, inr, List, [],
  ◌∷◌, ◌==◌, ◌≡◌, refl, sym, ap, ◌∙◌, arith, any, first, drop, Text, codes, text_eq, strip, ℤ, pos,
  negsuc, parse_int, if◌then◌else◌,
}
use getoffline.TitleFilter.{starts_with}
use getoffline.Schedules.{Schedule}
use getoffline.Settings.{
  ConfigRow, Store, Form, or_else, value_of, profile_settings, config_key, put_config, put_posted,
  clear_checkbox, checkbox, has_posted, invalid_config_keys,
}
use getoffline.Settings.Save.{
  save_with, is_timer_of, sync_with, sync_update_downloads_schedule, sync_posted, cookie_posted,
  save_config, redirect,
}
use getoffline.Settings.Rows.{own, put_config_lem, prefix_split, or_else-none, or_else_assoc}

-- what a key of the profile `p` reads when the form is posted for `profile`
abbrev pub posted_or : String → Form → String → Text → Option Text → Option Text
posted_or profile form p k before =
    if profile == p then or_else (value_of (config_key k) form) before else before

posted_case :
    (same text : Bool) (v : Text) (f o : Option Text)
    → (if same
        then or_else f (if same && text then some v else o)
        else (if same && text then some v else o))
      ≡ (if same then or_else (or_else f (if text then some v else none)) o else o)
posted_case false text v f o = refl
posted_case true false v none o = refl
posted_case true false v (some t) o = refl
posted_case true true v none o = refl
posted_case true true v (some t) o = refl

module _ (now : ℕ) (profile : String) where
  put_posted_lem :
      (p : String) (k : Text) (form : Form) (rows : List ConfigRow)
      → own p k (put_posted now profile form rows) ≡ posted_or profile form p k (own p k rows)
  unfolding put_posted value_of
  put_posted_lem p k [] rows = elim (Bool-cases (profile == p)) [
    | inl e ↦ rw e refl
    | inr e ↦ rw e refl
  ]
  put_posted_lem p k ((key, value) ∷ form) rows =
      elim (Bool-cases (starts_with (codes "config__") key)) [
        | inl posted ↦
            rw
              (
                posted,
                put_posted_lem p k form (put_config now profile (drop 8 key) value rows),
                put_config_lem now profile (drop 8 key) value p k rows,
                prefix_split (codes "config__") key k,
                posted,
              )
              (posted_case (profile == p) (text_eq (drop 8 key) k) value
                (value_of (config_key k) form) (own p k rows))
        | inr other ↦
            rw (other, put_posted_lem p k form rows, prefix_split (codes "config__") key k, other)
              (rw (or_else-none (value_of (config_key k) form)) refl)
      ]

  checkbox_test :
      (form : Form)
      → any (λ e. starts_with (codes "config__") e.0 && text_eq (drop 8 e.0) checkbox) form
        ≡ has_posted form (config_key checkbox)
  checkbox_test [] = refl
  checkbox_test ((key, value) ∷ form) =
      ground (arith, prefix_split (codes "config__") key checkbox, checkbox_test form)

  -- No form clears a checkbox: the two tests exclude each other.
  pub clear_checkbox_lem :
      (form : Form) (rows : List ConfigRow) → clear_checkbox now profile form rows ≡ rows
  unfolding clear_checkbox
  clear_checkbox_lem form rows = elim (Bool-cases (has_posted form (config_key checkbox))) [
    | inl e ↦ rw (checkbox_test form, e) refl
    | inr e ↦ rw (checkbox_test form, e) refl
  ]

  sync_keeps :
      (minutes : Option ℤ) (timer : Option Schedule) (store : Store)
      → ((sync_with now profile minutes timer store).configs ≡ store.configs)
        × ((sync_with now profile minutes timer store).app ≡ store.app)
  sync_keeps none timer store = (refl, refl)
  sync_keeps (some (pos zero)) none store = (refl, refl)
  sync_keeps (some (pos zero)) (some t) store = ground arith
  sync_keeps (some (pos (suc n))) none store = (refl, refl)
  sync_keeps (some (pos (suc n))) (some t) store = (refl, refl)
  sync_keeps (some (negsuc n)) none store = (refl, refl)
  sync_keeps (some (negsuc n)) (some t) store = ground arith

  cookie_keeps :
      (cookie : Option Text) (store : Store)
      → ((cookie_posted now profile cookie store).configs ≡ store.configs)
        × ((cookie_posted now profile cookie store).app ≡ store.app)
  cookie_keeps none store = (refl, refl)
  cookie_keeps (some t) store = (refl, refl)

  sync_posted_keeps :
      (raw : Option Text) (store : Store)
      → ((sync_posted now profile raw store).configs ≡ store.configs)
        × ((sync_posted now profile raw store).app ≡ store.app)
  unfolding sync_update_downloads_schedule
  sync_posted_keeps none store = (refl, refl)
  sync_posted_keeps (some raw) store =
      sync_keeps (parse_int (strip raw)) (first (is_timer_of profile) store.schedules) store

  save_with_keeps :
      (acquired : Bool) (form : Form) (store : Store) (keys : List Text)
      → (save_with now profile acquired form store keys).1 ≡ redirect
      → ((save_with now profile acquired form store keys).0.app ≡ store.app)
        × ((save_with now profile acquired form store keys).0.configs
            ≡ put_posted now profile form store.configs)
        × (keys ≡ [])
        × (acquired ≡ true)
  save_with_keeps acquired form store (key ∷ keys) h = cc
  save_with_keeps false form store [] h = cc
  save_with_keeps true form store [] h =
      let configs : List ConfigRow =
        put_posted now profile form (clear_checkbox now profile form store.configs) in
      let written : Store = record store { configs = configs } in
      let cookie : Option Text = value_of (codes "youtube_cookie_text") form in
      let minutes : Option Text = value_of (codes "config__auto_update_minutes") form in
      let synced = sync_posted_keeps minutes (cookie_posted now profile cookie written) in
      let cooked = cookie_keeps cookie written in
      (
        synced.1 ∙ cooked.1,
        synced.0
            ∙ (cooked.0 ∙ ap (put_posted now profile form) (clear_checkbox_lem form store.configs)),
        refl,
        refl,
      )

or_else_if :
    (b : Bool) (f o rest : Option Text)
    → or_else (if b then or_else f o else o) rest
      ≡ (if b then or_else f (or_else o rest) else or_else o rest)
or_else_if true f o rest = sym (or_else_assoc f o rest)
or_else_if false f o rest = refl

-- After a form is saved, a key of the profile reads the last value that the form has for it, and a key
-- that the form leaves out, or one of another profile, reads what it read before.
pub save_config_then_read :
    (now : ℕ) (profile : String) (acquired : Bool) (form : Form) (store : Store) (p : String)
    (key : Text)
    → (save_config now profile acquired form store).1 ≡ redirect
    → profile_settings p (save_config now profile acquired form store).0 key ≡ (
        if profile == p
        then or_else (value_of (config_key key) form) (profile_settings p store key)
        else profile_settings p store key)
unfolding save_config profile_settings
save_config_then_read now profile acquired form store p key h =
    let kept = save_with_keeps now profile acquired form store (invalid_config_keys form) h in
    rw (kept.0, kept.1, put_posted_lem now profile p key form store.configs)
      (or_else_if (profile == p) (value_of (config_key key) form) (own p key store.configs) _)
