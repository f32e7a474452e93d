-- ===== src/Actions/Updates.antt =====
-- An update of the downloads that the dashboard starts, from the form to the poll that reports its end.
use getoffline.Base.{ℕ, String, true, none, some, ◌∷◌, ◌≡◌, refl, Text, strip, Payload}
use getoffline.Domain.{queued, update_downloads}
use getoffline.Jobs.{Job, Db, existing_job, insert_job, create_job}
use getoffline.Actions.{
  Form, field, allowed_job_type, enqueue_payload, enqueue_key, enqueue_job, after_enqueue,
}

module _ (now c : ℕ) (marker : Text) (profile : String) (form : Form) (db : Db)
    (asked : allowed_job_type (strip (field form "job_type")) ≡ some update_downloads)
    (fresh : existing_job (some (enqueue_key profile form (c ∷ marker) update_downloads)) db
      ≡ none) where
  abbrev payload : Payload
  payload = some (enqueue_payload form (c ∷ marker) update_downloads)

  -- the job that the form creates
  abbrev pub new_job : Job
  new_job =
      (insert_job now profile "update_downloads" queued payload
        (some (enqueue_key profile form (c ∷ marker) update_downloads)) db).1

  create_fresh :
      create_job now profile "update_downloads" payload
        (some (enqueue_key profile form (c ∷ marker) update_downloads))
        db
      ≡ insert_job now profile "update_downloads" queued payload
          (some (enqueue_key profile form (c ∷ marker) update_downloads))
          db
  unfolding create_job
  create_fresh = rw (fresh, create_job) refl

  pub enqueue_update :
      (enqueue_job true now (c ∷ marker) profile form db).1
      ≡ (after_enqueue (c ∷ marker) update_downloads (
          insert_job now profile "update_downloads" queued payload
            (some (enqueue_key profile form (c ∷ marker) update_downloads))
            db)).1
  unfolding enqueue_job
  enqueue_update = rw (asked, enqueue_job, create_fresh) refl
