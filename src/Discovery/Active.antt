-- ===== src/Discovery/Active.antt =====
-- What one candidate of a check does to the table: the keys of the active jobs stay, and that of the
-- candidate is one of them afterwards.
use getoffline.Base.{
  All-weaken, ℕ, suc, ◌≤◌, String, Bool, true, some, Option-cases, inl, inr, List, [], ◌∷◌, ◌++◌,
  any, keep, first, sort_by, insert_by, update_where, length, length-append, nat_eq_refl, All,
  All-keep, All-sort_by, ◌≡◌, refl, subst, arith, Text, text_eq_refl, Payload, dict_or_empty,
}
use getoffline.Domain.{queued}
use getoffline.Jobs.{Job, Db, has_id, is_active_with, existing_job, insert_job, create_job}
use getoffline.Jobs.Stale.{requeued, make_stale_job_queued}
use getoffline.Runner.Delivery.{is_before}
use getoffline.Discovery.Scan.{active_download_job}

module _ {A : Type 0} where
  any-update :
      (p q : A → Bool) (f : A → A) (xs : List A)
      → ((x : A) → p x ≡ true → p (f x) ≡ true)
      → any p xs ≡ true
      → any p (update_where q f xs) ≡ true
  any-update p q f [] h e = e
  any-update p q f (x ∷ xs) h e = ground (arith, h x, any-update p q f xs h)

  any-append : (p : A → Bool) (xs ys : List A) → any p xs ≡ true → any p (xs ++ ys) ≡ true
  any-append p [] ys e = cc
  any-append p (x ∷ xs) ys e = ground (arith, any-append p xs ys)

  any_last : (p : A → Bool) (xs : List A) (y : A) → p y ≡ true → any p (xs ++ y ∷ []) ≡ true
  any_last p [] y e = ground arith
  any_last p (x ∷ xs) y e = ground (arith, any_last p xs y e)

  any_of_first : (p : A → Bool) (xs : List A) (x : A) → first p xs ≡ some x → any p xs ≡ true
  any_of_first p [] x e = cc
  any_of_first p (y ∷ xs) x e = ground (arith, any_of_first p xs x)

  length-update :
      (q : A → Bool) (f : A → A) (xs : List A) → length (update_where q f xs) ≡ length xs
  length-update q f [] = refl
  length-update q f (x ∷ xs) = omega (arith, length-update q f xs)

  length-insert_by :
      (le : A → A → Bool) (a : A) (xs : List A) → length (insert_by le a xs) ≡ suc (length xs)
  unfolding insert_by
  length-insert_by le a [] = refl
  length-insert_by le a (x ∷ xs) = ground (arith, length-insert_by le a xs)

  length-sort_by : (le : A → A → Bool) (xs : List A) → length (sort_by le xs) ≡ length xs
  unfolding sort_by
  length-sort_by le [] = refl
  length-sort_by le (a ∷ xs) =
      omega (arith, length-insert_by le a (sort_by le xs), length-sort_by le xs)

  any_of_keep : (p : A → Bool) (xs : List A) → 1 ≤ length (keep p xs) → any p xs ≡ true
  any_of_keep p [] h = absurd (omega arith)
  any_of_keep p (x ∷ xs) h = ground (arith, any_of_keep p xs)

  keep_of_any : (p : A → Bool) (xs : List A) → any p xs ≡ true → 1 ≤ length (keep p xs)
  keep_of_any p [] h = cc
  keep_of_any p (x ∷ xs) h = ground (arith, keep_of_any p xs)

  head_some : (xs : List A) → 1 ≤ length xs → (x : A) × (first (λ _. true) xs ≡ some x)
  head_some [] h = absurd (omega arith)
  head_some (x ∷ xs) h = (x, refl)

  length_of_head : (xs : List A) (x : A) → first (λ _. true) xs ≡ some x → 1 ≤ length xs
  length_of_head [] x h = cc
  length_of_head (y ∷ xs) x h = omega arith

  head_of_All :
      (P : A → Type 0) (xs : List A) (x : A) → first (λ _. true) xs ≡ some x → All P xs → P x
  head_of_All P [] x h a = cc
  head_of_All P (y ∷ xs) x h a = subst P (ground arith) a.0

HasOwnId : List Job → Job → Type 0
HasOwnId rows job = any (has_id job.id) rows ≡ true

own_ids : (rows : List Job) → All (HasOwnId rows) rows
unfolding HasOwnId
own_ids [] = tt
own_ids (r ∷ rows) = (
  ground (arith, nat_eq_refl r.id),
  All-weaken (HasOwnId rows) (HasOwnId (r ∷ rows)) (λ x h. ground arith) rows (own_ids rows),
)

-- An active job has the key.
abbrev pub HasActive : Text → List Job → Type 0
HasActive key rows = any (is_active_with key) rows ≡ true

pub active_some :
    (key : Text) (rows : List Job)
    → HasActive key rows
    → (job : Job) × (active_download_job key rows ≡ some job)
unfolding active_download_job
active_some key rows h = head_some (sort_by is_before (keep (is_active_with key) rows)) (
    omega (
      arith,
      length-sort_by is_before (keep (is_active_with key) rows),
      keep_of_any (is_active_with key) rows h,
    ))

pub active_found :
    (key : Text) (rows : List Job) (job : Job)
    → active_download_job key rows ≡ some job
    → HasActive key rows × (any (has_id job.id) rows ≡ true)
unfolding active_download_job HasOwnId
active_found key rows job h =
    let sorted : List Job = sort_by is_before (keep (is_active_with key) rows) in
    (
      any_of_keep (is_active_with key) rows (
          omega (
            arith,
            length_of_head sorted job h,
            length-sort_by is_before (keep (is_active_with key) rows),
          )),
      head_of_All (HasOwnId rows) sorted job h (
          All-sort_by (HasOwnId rows) is_before (keep (is_active_with key) rows)
            (All-keep (HasOwnId rows) (is_active_with key) rows (own_ids rows))),
    )

requeued_active :
    (key : Text) (now : ℕ) (job : Job)
    → is_active_with key job ≡ true
    → is_active_with key (requeued now job) ≡ true
requeued_active key now job h = ground arith

pub reset_HasActive :
    (key : Text) (now saved_at : ℕ) (raw : Text) (job : Job) (db : Db)
    → HasActive key db.rows
    → HasActive key (make_stale_job_queued now saved_at raw job db).0.rows
unfolding make_stale_job_queued
reset_HasActive key now saved_at raw job db h = ground (
  arith,
  any-update (is_active_with key) (has_id job.id) (requeued saved_at) db.rows
      (requeued_active key saved_at) h,
)

pub length-reset :
    (now saved_at : ℕ) (raw : Text) (job : Job) (db : Db)
    → length (make_stale_job_queued now saved_at raw job db).0.rows ≡ length db.rows
unfolding make_stale_job_queued
length-reset now saved_at raw job db =
    ground (arith, length-update (has_id job.id) (requeued saved_at) db.rows)

insert_HasActive :
    (key other : Text) (now : ℕ) (profile job_type : String) (payload : Payload) (db : Db)
    → HasActive key db.rows
    → HasActive key (insert_job now profile job_type queued payload (some other) db).0.rows
unfolding insert_job
insert_HasActive key other now profile job_type payload db h =
    any-append (is_active_with key) db.rows _ h

insert_active :
    (key : Text) (now : ℕ) (profile job_type : String) (payload : Payload) (db : Db)
    → HasActive key (insert_job now profile job_type queued payload (some key) db).0.rows
unfolding insert_job
insert_active key now profile job_type payload db =
    any_last (is_active_with key) db.rows _ (ground (arith, text_eq_refl key))

length-insert_job :
    (key : Text) (now : ℕ) (profile job_type : String) (payload : Payload) (db : Db)
    → length (insert_job now profile job_type queued payload (some key) db).0.rows
      ≡ suc (length db.rows)
unfolding insert_job
length-insert_job key now profile job_type payload db = omega (
  arith,
  length-append db.rows ((insert_job now profile job_type queued payload (some key) db).1 ∷ []),
)

existing_found :
    (c : ℕ) (key : Text) (db : Db) (job : Job)
    → existing_job (some (c ∷ key)) db ≡ some job
    → HasActive (c ∷ key) db.rows
unfolding existing_job
existing_found c key db job h = any_of_first (is_active_with (c ∷ key)) db.rows job h

module _ (c : ℕ) (key : Text) (now : ℕ) (profile job_type : String) (payload : Payload)
    (db : Db) where
  -- After a job is created, its key belongs to an active job, the other keys of active jobs still do,
  -- and the table has one row more at most.
  pub create_job_active :
      HasActive (c ∷ key) (create_job now profile job_type payload (some (c ∷ key)) db).0.rows
      × (length (create_job now profile job_type payload (some (c ∷ key)) db).0.rows
          ≤ suc (length db.rows))
  unfolding create_job
  create_job_active = elim (Option-cases (existing_job (some (c ∷ key)) db)) [
    | inl e ↦
        rw (e, create_job)
          (
            insert_active (c ∷ key) now profile job_type (some (dict_or_empty payload)) db,
            omega (
              arith,
              length-insert_job (c ∷ key) now profile job_type (some (dict_or_empty payload)) db,
            ),
          )
    | inr (job, e) ↦ rw (e, create_job) (existing_found c key db job e, omega arith)
  ]

  pub create_job-HasActive :
      (other : Text)
      → HasActive other db.rows
      → HasActive other (create_job now profile job_type payload (some (c ∷ key)) db).0.rows
  unfolding create_job
  create_job-HasActive other h = elim (Option-cases (existing_job (some (c ∷ key)) db)) [
    | inl e ↦
        rw (e, create_job)
          (insert_HasActive other (c ∷ key) now profile job_type (some (dict_or_empty payload)) db
            h)
    | inr (job, e) ↦ rw (e, create_job) h
  ]
