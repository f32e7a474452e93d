-- ===== src/Schedules/Enqueue.antt =====
-- Turning the due schedules into jobs.
use getoffline.Base.{ℕ, some, [], ◌∷◌, ◌≡◌, ◌++◌, ◌⊎◌, none, Option, Text}
use getoffline.Domain.{queued}
use getoffline.Jobs.{Job, Db, existing_job}
use getoffline.Schedules.{Schedule, State, enqueue_id, Round, render_idempotency_key}

module _ (isoformat : ℕ → Text) (substitute : Schedule → ℕ → Text) where
  -- The job that a due schedule has: an active one with its key that was there, or else a new one, at the
  -- end of the table, with the schedule's profile, type and key.
  abbrev pub IsJobOf : Schedule → Db → Db → Job → Type 0
  IsJobOf s before after job =
      let key : Option Text = some (render_idempotency_key isoformat substitute s s.next_run_at) in
      ((existing_job key before ≡ some job) × (after ≡ before))
      ⊎ ((existing_job key before ≡ none)
          × (after.rows ≡ before.rows ++ job ∷ [])
          × (job.profile_id ≡ s.profile_id)
          × (job.job_type ≡ s.job_type)
          × (job.status ≡ queued)
          × (job.idempotency_key ≡ key))

  abbrev turn : ℕ → ℕ → ℕ → State → Round
  turn now clock id state = enqueue_id isoformat substitute now clock id state
