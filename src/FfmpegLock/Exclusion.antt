-- ===== src/FfmpegLock/Exclusion.antt =====
-- Who holds the lock of an FFmpeg target, and for how long.
use getoffline.Base.{
  ℕ, ◌+◌, ◌<◌, true, false, ◌||◌, Option, some, List, [], ◌∷◌, ◌++◌, ◌≡◌, ◌≢◌, refl, arith,
  Bool-cases, inl, inr, nat_eq, leb, Text, text_eq, text_eq_refl, text_eq→eq, is_empty,
  if◌then◌else◌,
}
use getoffline.FfmpegLock.{
  Step, try_lock, heartbeat, unlock, partition_bar, expires_at_of, held, may_lock, perform,
  run_steps,
}

-- the text has no separator
abbrev pub HasNoBar : Text → Type 0
HasNoBar [] = Unit
HasNoBar (c ∷ t) = (nat_eq c 124 ≡ false) × HasNoBar t

partition-append :
    (owner rest : Text) → HasNoBar owner → partition_bar (owner ++ (124 ∷ rest)) ≡ (owner, rest)
unfolding partition_bar
partition-append [] rest h = refl
partition-append (c ∷ owner) rest h = rw (h.0, partition-append owner rest h.1) refl

other_text : (a b : Text) → a ≢ b → text_eq a b ≡ false
other_text a b ne = elim (Bool-cases (text_eq a b)) [
  | inl e ↦ absurd (ne (text_eq→eq a b e))
  | inr e ↦ e
]

-- The owner of a step is another one, and the time that it reads comes before the end of the lease.
abbrev IsOther : Text → ℕ → Step → Type 0
IsOther owner limit (try_lock other lease now written_at) = (owner ≢ other) × (now < limit)
IsOther owner limit (heartbeat other lease now) = owner ≢ other
IsOther owner limit (unlock other) = owner ≢ other

abbrev pub AreOthers : Text → ℕ → List Step → Type 0
AreOthers owner limit [] = Unit
AreOthers owner limit (s ∷ steps) = IsOther owner limit s × AreOthers owner limit steps

module _ (isoformat : ℕ → Text) (fromisoformat : Text → Option ℕ)
    (reads_back : (t : ℕ) → fromisoformat (isoformat t) ≡ some t)
    (not_empty : (t : ℕ) → is_empty (isoformat t) ≡ false) (owner : Text) (named : HasNoBar owner)
    (nonempty : is_empty owner ≡ false) where
  expires_at_of_held : (t : ℕ) → expires_at_of isoformat fromisoformat (isoformat t) ≡ some t
  expires_at_of_held t = go (isoformat t) (not_empty t) (reads_back t)
    where
      go :
          (s : Text)
          → is_empty s ≡ false
          → fromisoformat s ≡ some t
          → expires_at_of isoformat fromisoformat s ≡ some t
      go [] e r = cc
      go (c ∷ s) e r = r

  may_lock-held :
      (other : Text) (now t : ℕ)
      → may_lock isoformat fromisoformat other now (held isoformat fromisoformat owner t)
        ≡ (text_eq owner other || leb t now)
  unfolding may_lock
  may_lock-held other now t =
      rw (partition-append owner (isoformat t) named, nonempty, expires_at_of_held t) refl

  -- While the row has an owner, a try takes the lock just if it is made by the same owner or comes
  -- after the end of the lease, and leaves the row as it was otherwise. The owner has a name without
  -- a bar, and times are read back as they are written.
  pub lock_is_exclusive :
      (other : Text) (lease now written_at t : ℕ)
      → perform isoformat fromisoformat
          (try_lock other lease now written_at)
          (held isoformat fromisoformat owner t)
        ≡ (if text_eq owner other || leb t now
            then (held isoformat fromisoformat other (written_at + lease), true)
            else (held isoformat fromisoformat owner t, false))
  unfolding perform
  lock_is_exclusive other lease now written_at t = rw (may_lock-held other now t) refl

  step_other :
      (s : Step) (t : ℕ)
      → IsOther owner t s
      → (perform isoformat fromisoformat s (held isoformat fromisoformat owner t)).0
        ≡ held isoformat fromisoformat owner t
  unfolding perform
  step_other (try_lock other lease now written_at) t o =
      rw (may_lock-held other now t) (ground (arith, other_text owner other o.0))
  step_other (heartbeat other lease now) t o =
      rw (partition-append owner (isoformat t) named, other_text owner other o) refl
  step_other (unlock other) t o =
      rw (partition-append owner (isoformat t) named, other_text owner other o) refl

  -- Whatever other owners do before the end of the lease, trying, renewing or releasing, the lock
  -- stays with its owner. The owner has a name without a bar, and times are read back as they are
  -- written.
  pub lock_is_kept :
      (steps : List Step) (t : ℕ)
      → AreOthers owner t steps
      → run_steps isoformat fromisoformat steps (held isoformat fromisoformat owner t)
        ≡ held isoformat fromisoformat owner t
  unfolding run_steps
  lock_is_kept [] t o = refl
  lock_is_kept (s ∷ steps) t o = rw (step_other s t o.0) (lock_is_kept steps t o.1)

  -- After its owner's release the lock is free: the next try of any owner takes it. The owner has a
  -- name without a bar.
  pub unlock_frees :
      (other : Text) (lease now written_at t : ℕ)
      → perform isoformat fromisoformat
          (try_lock other lease now written_at)
          (perform isoformat fromisoformat (unlock owner) (held isoformat fromisoformat owner t)).0
        ≡ (held isoformat fromisoformat other (written_at + lease), true)
  unfolding perform may_lock
  unlock_frees other lease now written_at t =
      rw (partition-append owner (isoformat t) named, text_eq_refl owner) refl
