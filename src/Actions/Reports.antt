-- ===== src/Actions/Reports.antt =====
-- How the end of an update of the downloads reaches the poll that waits for it.
use getoffline.Base.{
  any-update_same, ℕ, String, Bool, true, false, not, Option, none, some, List, [], ◌∷◌, ◌++◌, ◌≡◌,
  refl, ◌∙◌, arith, eq_refl, any, keep, update_where, sort_by, insert_by, Text, codes, text_eq,
  text_eq_refl, strip, lower, str, str_or_empty, get, ok,
}
use getoffline.Domain.{
  JobStatus, queued, succeeded, failed, job_status_value, job_statuses, parse_str_enum, job_types,
  update_downloads,
}
use getoffline.Jobs.{Job, Db, has_id, insert_job, finish_job, finished}
use getoffline.Runner.{
  update_completion_token, update_finished, message_key, create_update_finished_message_once,
  emit_update_finished_message, mark_job_succeeded, mark_job_failed,
}
use getoffline.Runner.Messages.{is_message}
use getoffline.Actions.Status.{Report, pending, is_report, report_of_message, status_of_update}

abbrev is_failure : JobStatus → Bool
is_failure failed = true
is_failure _ = false

-- What the page is told of an update that has ended.
abbrev pub end_report : JobStatus → Text → Report
end_report status message = record {
  finished = true;
  ok = not (is_failure status);
  status = some (codes (job_status_value status));
  error_message = some message;
  code = 200;
}

pub str_or_empty_str : (t : Text) → str_or_empty (str t) ≡ t
unfolding str_or_empty
str_or_empty_str [] = refl
str_or_empty_str (c ∷ t) = refl

module _ {A : Type 0} where
  keep_of_no : (p : A → Bool) (xs : List A) → any p xs ≡ false → keep p xs ≡ []
  keep_of_no p [] h = refl
  keep_of_no p (x ∷ xs) h = ground (arith, keep_of_no p xs)

  keep_last :
      (p : A → Bool) (xs : List A) (y : A)
      → any p xs ≡ false
      → p y ≡ true
      → keep p (xs ++ y ∷ []) ≡ y ∷ []
  keep_last p [] y h e = ground arith
  keep_last p (x ∷ xs) y h e = ground (arith, keep_last p xs y)

pub status_of_nothing :
    (profile : String) (token : Text) (rows : List Job)
    → any (is_report profile token) rows ≡ false
    → status_of_update profile token rows ≡ pending
unfolding status_of_update sort_by
status_of_nothing profile token rows h =
    rw (keep_of_no (is_report profile token) rows h, status_of_update) refl

status_of_last :
    (profile : String) (token : Text) (rows : List Job) (row : Job)
    → any (is_report profile token) rows ≡ false
    → is_report profile token row ≡ true
    → status_of_update profile token (rows ++ row ∷ []) ≡ report_of_message row
unfolding status_of_update sort_by insert_by
status_of_last profile token rows row h e =
    rw (keep_last (is_report profile token) rows row h e, status_of_update) refl

-- Nothing is recorded yet under the token: no message of the job, and none that the poll finds.
abbrev pub IsUnreported : Job → Text → List Job → Type 0
IsUnreported job token rows =
    (any (is_message job token) rows ≡ false) × (any (is_report job.profile_id token) rows ≡ false)

status_roundtrip :
    (status : JobStatus)
    → parse_str_enum job_statuses (str (codes (job_status_value status))) ≡ some status
unfolding parse_str_enum str_or_empty strip lower text_eq
status_roundtrip queued = refl
status_roundtrip _ = refl

module _ (now : ℕ) (job : Job) (token message : Text) (status : JobStatus) (db : Db) where
  abbrev message_row : Job
  message_row =
      (insert_job now job.profile_id "worker_message" succeeded
        (update_finished job token status message) (some (message_key job token)) db).1

  message_row_lem : is_report job.profile_id token message_row ≡ true
  unfolding insert_job get text_eq
  message_row_lem = rw (eq_refl job.profile_id, text_eq_refl token) refl

  report_of_row : report_of_message message_row ≡ end_report status message
  unfolding insert_job report_of_message get
  report_of_row =
      rw
        (
          str_or_empty_str (codes (job_status_value status)),
          str_or_empty_str message,
          status_roundtrip status,
        )
        (elim status [
          | queued ↦ refl
          | JobStatus.running ↦ refl
          | succeeded ↦ refl
          | failed ↦ refl
        ])

  -- After an update's message is recorded, a poll with its token reports how the update ended.
  message_is_reported :
      IsUnreported job token db.rows
      → status_of_update job.profile_id token
          (create_update_finished_message_once now job token status message db).rows
        ≡ end_report status message
  unfolding create_update_finished_message_once insert_job
  message_is_reported h =
      rw h.0 (
        status_of_last job.profile_id token db.rows message_row h.1 message_row_lem ∙ report_of_row)

finished_keeps :
    (now : ℕ) (job : Job) (token : Text) (status : JobStatus) (message : Option Text)
    (rows : List Job)
    → IsUnreported job token rows
    → IsUnreported job token (update_where (has_id job.id) (finished now status message) rows)
finished_keeps now job token status message rows h = (
  any-update_same (is_message job token) (has_id job.id) (finished now status message) rows
        (λ x. refl)
      ∙ h.0,
  any-update_same (is_report job.profile_id token) (has_id job.id) (finished now status message)
        rows (λ x. refl)
      ∙ h.1,
)

-- The job is an update of the downloads, and its payload carries the token.
abbrev pub IsUpdate : Job → Text → Type 0
IsUpdate job token =
    (parse_str_enum job_types (str (codes job.job_type)) ≡ some update_downloads)
    × (update_completion_token job ≡ token)

module _ (now c : ℕ) (job : Job) (marker : Text) (db : Db) where
  abbrev token : Text
  token = c ∷ marker

  emit_update :
      (status : JobStatus) (message : Text) (db' : Db)
      → IsUpdate job token
      → emit_update_finished_message now job status message db'
        ≡ create_update_finished_message_once now job token status message db'
  unfolding emit_update_finished_message
  emit_update status message db' u = rw (u.0, u.1) refl

  finish_present :
      (status : JobStatus) (message : Option Text)
      → any (has_id job.id) db.rows ≡ true
      → finish_job now job status message db ≡ (
        record db { rows = update_where (has_id job.id) (finished now status message) db.rows },
        ok tt,
      )
  unfolding finish_job
  finish_present status message h = rw h refl

  -- However an update that is in the table ends, a poll with its token is told so.
  pub end_is_reported :
      any (has_id job.id) db.rows ≡ true
      → IsUpdate job token
      → IsUnreported job token db.rows
      → (status_of_update job.profile_id token (mark_job_succeeded now job db).0.rows
          ≡ end_report succeeded [])
        × ((message : Text)
            → status_of_update job.profile_id token (mark_job_failed now job message db).0.rows
              ≡ end_report failed message)
  unfolding mark_job_succeeded mark_job_failed
  end_is_reported present u h = (
    rw (finish_present succeeded none present, emit_update succeeded [] _ u)
        (message_is_reported now job token [] succeeded _
          (finished_keeps now job token succeeded none db.rows h)),
    λ message.
        rw (finish_present failed (some message) present, emit_update failed message _ u)
          (message_is_reported now job token message failed _
            (finished_keeps now job token failed (some message) db.rows h)),
  )
