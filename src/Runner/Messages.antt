-- ===== src/Runner/Messages.antt =====
-- The message that tells a waiting client that its update of the downloads has ended.
use getoffline.Base.{
  ℕ, ◌≤◌, Bool, true, false, Bool-cases, inl, inr, List, [], ◌∷◌, ◌≡◌, refl, arith, any, count,
  count-append, Text, text_eq_refl,
}
use getoffline.Domain.{JobStatus}
use getoffline.Jobs.{Job, Db, has_key_of, insert_job}
use getoffline.Runner.{message_key, create_update_finished_message_once}

-- the row is the message of the job under the token
abbrev pub is_message : Job → Text → Job → Bool
is_message job token row = has_key_of (message_key job token) row.idempotency_key

count_of_not_any : (p : Job → Bool) (rows : List Job) → any p rows ≡ false → count p rows ≡ 0
count_of_not_any p [] h = refl
count_of_not_any p (r ∷ rows) h = ground (arith, count_of_not_any p rows)

count_of_any : (p : Job → Bool) (rows : List Job) → any p rows ≡ true → 1 ≤ count p rows
count_of_any p [] h = cc
count_of_any p (r ∷ rows) h = ground (arith, count_of_any p rows)

any_of_count : (p : Job → Bool) (rows : List Job) → 1 ≤ count p rows → any p rows ≡ true
any_of_count p [] h = absurd (omega arith)
any_of_count p (r ∷ rows) h = ground (arith, any_of_count p rows)

module _ (now : ℕ) (job : Job) (token : Text) (status : JobStatus) (message : Text) (db : Db) where
  create_known :
      any (is_message job token) db.rows ≡ true
      → create_update_finished_message_once now job token status message db ≡ db
  unfolding create_update_finished_message_once
  create_known h = rw h refl

  create_new :
      any (is_message job token) db.rows ≡ false
      → count
          (is_message job token)
          (create_update_finished_message_once now job token status message db).rows
        ≡ 1
  unfolding create_update_finished_message_once insert_job
  create_new h = rw h (
      rw
        (
          count-append (is_message job token) db.rows _,
          count_of_not_any (is_message job token) db.rows h,
          text_eq_refl (message_key job token),
        )
        refl)

  created :
      count (is_message job token) db.rows ≤ 1
      → count
          (is_message job token)
          (create_update_finished_message_once now job token status message db).rows
        ≡ 1
  created h = elim (Bool-cases (any (is_message job token) db.rows)) [
    | inl e ↦ rw (create_known e) (omega (arith, count_of_any (is_message job token) db.rows e))
    | inr e ↦ create_new e
  ]

-- After the message of a job is created, the table has it: once, if it did not have it more often
-- before; and to create it again, whatever the status and the error, changes nothing.
pub message_is_created_once :
    (now later : ℕ) (job : Job) (token : Text) (status status' : JobStatus)
    (message message' : Text) (db : Db)
    → count (is_message job token) db.rows ≤ 1
    → (count
          (is_message job token)
          (create_update_finished_message_once now job token status message db).rows
        ≡ 1)
      × (create_update_finished_message_once later job token status' message'
            (create_update_finished_message_once now job token status message db)
          ≡ create_update_finished_message_once now job token status message db)
message_is_created_once now later job token status status' message message' db h =
    let once = created now job token status message db h in
    (
      once,
      create_known later job token status' message' _ (
          any_of_count (is_message job token)
            (create_update_finished_message_once now job token status message db).rows
            (omega (arith, once))),
    )
