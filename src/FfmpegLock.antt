-- ===== src/FfmpegLock.antt =====
-- src/workers/handlers.py: the lock of an FFmpeg target, a row of `AppConfigValue` whose value is the
-- owner and the end of its lease. `datetime.isoformat` and `datetime.fromisoformat` are parameters.
pub mod Exclusion
mod Tests
use getoffline.Base.{
  ℕ, ◌+◌, Bool, true, false, ◌||◌, Option, none, some, List, [], ◌∷◌, ◌++◌, nat_eq, leb, Text,
  text_eq, is_empty, if◌then◌else◌,
}

-- text.partition("|"), without the separator
unfoldable pub partition_bar : Text → Text × Text
partition_bar [] = ([], [])
partition_bar (c ∷ t) =
    let (before, behind) = partition_bar t in if nat_eq c 124 then ([], t) else (c ∷ before, behind)

-- The end of a lease has come; a text that is no time stands for the past.
abbrev has_come : ℕ → Option ℕ → Bool
has_come now none = true
has_come now (some expires_at) = leb expires_at now

-- One transaction on the row: a turn of the waiting loop, a heartbeat, or the release at the end. The
-- clock is read to compare the end of the lease, and again to write the new one.
pub data Step : Type 0 where
  try_lock : Text → ℕ → ℕ → ℕ → Step
  heartbeat : Text → ℕ → ℕ → Step
  unlock : Text → Step

module _ (isoformat : ℕ → Text) (fromisoformat : Text → Option ℕ) where
  -- f"{owner}|{expires_at.isoformat()}"
  abbrev pub held : Text → ℕ → Text
  held owner expires_at = owner ++ (124 ∷ isoformat expires_at)

  abbrev pub expires_at_of : Text → Option ℕ
  expires_at_of [] = none
  expires_at_of (c ∷ t) = fromisoformat (c ∷ t)

  -- not current_owner or current_owner == owner or expires_at <= timezone.now()
  unfoldable pub may_lock : Text → ℕ → Text → Bool
  unfolding partition_bar
  may_lock owner now value =
      let (current_owner, expires_at_text) = partition_bar value in
      is_empty current_owner
      || text_eq current_owner owner
      || has_come now (expires_at_of expires_at_text)

  -- The value of the row after the step, and whether the loop has the lock and ends.
  unfoldable pub perform : Step → Text → Text × Bool
  unfolding may_lock
  perform (try_lock owner lease now written_at) value =
      if may_lock owner now value then (held owner (written_at + lease), true) else (value, false)
  perform (heartbeat owner lease now) value =
      if text_eq (partition_bar value).0 owner
      then (held owner (now + lease), false)
      else (value, false)
  perform (unlock owner) value =
      if text_eq (partition_bar value).0 owner then ([], false) else (value, false)

  unfoldable pub run_steps : List Step → Text → Text
  run_steps [] value = value
  run_steps (s ∷ steps) value = run_steps steps (perform s value).0
