-- ===== src/Jobs/Keys.antt =====
-- At most one active job has a given idempotency key.
use getoffline.Base.{
  ℕ, ◌≤◌, true, false, ◌&&◌, ◌||◌, not, all, Bool, Option, none, some, Option-cases, ◌⊎◌, inl, inr,
  text_eq→eq, List, [], ◌∷◌, ◌≡◌, refl, arith, nat_eq_iff, first, count, count-append,
  count-update-le, count_of_no_first, update_where, String, Text, text_eq, text_eq_refl, Payload,
  dict_or_empty, Bool-cases, sym, subst, ap,
}
use getoffline.Domain.{JobStatus, queued, succeeded, failed}
use getoffline.Jobs.{
  Job, Db, find_job, has_id, is_queued, is_active, is_active_with, insert_job, existing_job,
  create_job, claim_job, finish_job, started, finished,
}
use getoffline.Jobs.Stale.{requeued, make_stale_job_queued}
use getoffline.Jobs.Steps.{
  Op, create, record_done, claim, succeed, fail, requeue, apply, run_ops, empty_db,
  empty_db-IsTable, IsApart, update_of_IsApart, HaveDistinctIds, IsTable, apply-IsTable,
}

-- no job with that primary key has ended
abbrev is_active_at : ℕ → Job → Bool
is_active_at id job = not (has_id id job) || is_active job.status

-- A stale job that is queued again has not ended since it was read.
abbrev IsCurrent : Op → Db → Type 0
IsCurrent (requeue now saved_at raw job) db = all (is_active_at job.id) db.rows ≡ true
IsCurrent _ db = Unit

abbrev pub AreCurrent : List Op → Db → Type 0
AreCurrent [] db = Unit
AreCurrent (op ∷ ops) db = IsCurrent op db × AreCurrent ops (apply op db)

module _ (c : ℕ) (key : Text) where
  abbrev holders : Db → ℕ
  holders db = count (is_active_with (c ∷ key)) db.rows

  none_of_IsApart :
      (id : ℕ) (rows : List Job)
      → IsApart id rows
      → first (λ job. has_id id job && is_queued job.status) rows ≡ none
  none_of_IsApart id [] h = refl
  none_of_IsApart id (r ∷ rows) h = ground (arith, nat_eq_iff r.id id, none_of_IsApart id rows h.1)

  claim_rows :
      (now id : ℕ) (job : Job) (rows : List Job)
      → HaveDistinctIds rows
      → first (λ x. has_id id x && is_queued x.status) rows ≡ some job
      → count (is_active_with (c ∷ key)) (update_where (has_id id) (started now) rows)
        ≤ count (is_active_with (c ∷ key)) rows
  claim_rows now id job [] u h = cc
  claim_rows now id job (r ∷ rows) u h = ground (
    arith,
    nat_eq_iff r.id id,
    none_of_IsApart id rows,
    update_of_IsApart id (started now) rows,
    claim_rows now id job rows u.1,
  )

  same_key_free :
      (d : ℕ) (k : Text) (rows : List Job)
      → text_eq (d ∷ k) (c ∷ key) ≡ true
      → first (is_active_with (d ∷ k)) rows ≡ none
      → count (is_active_with (c ∷ key)) rows ≡ 0
  same_key_free d k rows same free =
      rw (← text_eq→eq (d ∷ k) (c ∷ key) same)
        (count_of_no_first (is_active_with (d ∷ k)) rows free)

  insert_holders :
      (now : ℕ) (profile job_type : String) (status : JobStatus) (payload : Payload)
      (k : Option Text) (db : Db)
      → (existing_job k db ≡ none) ⊎ (is_active status ≡ false)
      → holders db ≤ 1
      → holders (insert_job now profile job_type status payload k db).0 ≤ 1
  unfolding insert_job existing_job
  insert_holders now profile job_type status payload none db e h = ground (
    arith,
    count-append (is_active_with (c ∷ key)) db.rows
        ((insert_job now profile job_type status payload none db).1 ∷ []),
  )
  insert_holders now profile job_type status payload (some []) db e h =
      unfold text_eq in
      ground (
        arith,
        count-append (is_active_with (c ∷ key)) db.rows
            ((insert_job now profile job_type status payload (some []) db).1 ∷ []),
      )
  insert_holders now profile job_type status payload (some (d ∷ k)) db e h = ground (
    arith,
    count-append (is_active_with (c ∷ key)) db.rows
        ((insert_job now profile job_type status payload (some (d ∷ k)) db).1 ∷ []),
    same_key_free d k db.rows,
  )

  create_holders :
      (now : ℕ) (profile job_type : String) (payload : Payload) (k : Option Text) (db : Db)
      → holders db ≤ 1
      → holders (create_job now profile job_type payload k db).0 ≤ 1
  unfolding create_job
  create_holders now profile job_type payload k db h = elim (Option-cases (existing_job k db)) [
    | inl e ↦
        rw (e, create_job)
          (insert_holders now profile job_type queued (some (dict_or_empty payload)) k db (inl e) h)
    | inr (job, e) ↦ rw (e, create_job) h
  ]

  claim_holders :
      (now id : ℕ) (db : Db) → IsTable db → holders db ≤ 1 → holders (claim_job now id db).0 ≤ 1
  unfolding claim_job
  claim_holders now id db u h =
      elim (Option-cases (first (λ job. has_id id job && is_queued job.status) db.rows)) [
        | inl e ↦ rw (e, claim_job) h
        | inr (job, e) ↦
            rw (e, claim_job) (omega (arith, claim_rows now id job db.rows u.distinct e, h))
      ]

  finish_holders :
      (now : ℕ) (job : Job) (status : JobStatus) (message : Option Text) (db : Db)
      → is_active status ≡ false
      → holders db ≤ 1
      → holders (finish_job now job status message db).0 ≤ 1
  unfolding finish_job
  finish_holders now job status message db e h = ground (
    arith,
    count-update-le (is_active_with (c ∷ key)) (has_id job.id) (finished now status message)
        (λ x _. ground arith) db.rows,
  )

  requeue_rows :
      (id now : ℕ) (rows : List Job)
      → all (is_active_at id) rows ≡ true
      → count (is_active_with (c ∷ key)) (update_where (has_id id) (requeued now) rows)
        ≤ count (is_active_with (c ∷ key)) rows
  requeue_rows id now [] h = omega arith
  requeue_rows id now (r ∷ rows) h = ground (arith, requeue_rows id now rows)

  requeue_holders :
      (now saved_at : ℕ) (raw : Text) (job : Job) (db : Db)
      → all (is_active_at job.id) db.rows ≡ true
      → holders db ≤ 1
      → holders (make_stale_job_queued now saved_at raw job db).0 ≤ 1
  unfolding make_stale_job_queued
  requeue_holders now saved_at raw job db a h =
      ground (arith, requeue_rows job.id saved_at db.rows a)

  holders-apply :
      (op : Op) (db : Db)
      → IsTable db
      → IsCurrent op db
      → holders db ≤ 1
      → holders (apply op db) ≤ 1
  unfolding apply
  holders-apply (create now profile job_type payload k) db u a h =
      create_holders now profile job_type payload k db h
  holders-apply (record_done now profile job_type payload k) db u a h =
      insert_holders now profile job_type succeeded payload k db (inr refl) h
  holders-apply (claim now id) db u a h = claim_holders now id db u h
  holders-apply (succeed now job) db u a h = finish_holders now job succeeded none db refl h
  holders-apply (fail now job message) db u a h =
      finish_holders now job failed (some message) db refl h
  holders-apply (requeue now saved_at raw job) db u a h =
      requeue_holders now saved_at raw job db a h

  run_holders :
      (ops : List Op) (db : Db)
      → IsTable db
      → AreCurrent ops db
      → holders db ≤ 1
      → holders (run_ops ops db) ≤ 1
  unfolding run_ops
  run_holders [] db u a h = h
  run_holders (op ∷ ops) db u a h =
      run_holders ops (apply op db) (apply-IsTable op db u) a.1 (holders-apply op db u a.0 h)

  -- In whatever order the operations of publishers and workers come, each as one step, at most one
  -- queued or running job has a given idempotency key, the empty key excepted, if no stale job is
  -- queued again after it has ended.
  pub active_key_is_unique :
      (ops : List Op)
      → AreCurrent ops empty_db
      → count (is_active_with (c ∷ key)) (run_ops ops empty_db).rows ≤ 1
  active_key_is_unique ops a = run_holders ops empty_db empty_db-IsTable a (omega arith)

pub create-eq-insert :
    (now : ℕ) (profile job_type : String) (payload : Payload) (key : Option Text) (db : Db)
    → existing_job key db ≡ none
    → create_job now profile job_type payload key db
      ≡ insert_job now profile job_type queued (some (dict_or_empty payload)) key db
unfolding create_job
create-eq-insert now profile job_type payload key db e = rw (e, create_job) refl

pub create-eq-existing :
    (now : ℕ) (profile job_type : String) (payload : Payload) (key : Option Text) (db : Db)
    (job : Job)
    → existing_job key db ≡ some job
    → create_job now profile job_type payload key db ≡ (db, job)
unfolding create_job
create-eq-existing now profile job_type payload key db job e = rw (e, create_job) refl

is_active_of :
    (c : ℕ) (key : Text) (job : Job)
    → job.idempotency_key ≡ some (c ∷ key)
    → (job.status ≡ queued) ⊎ (job.status ≡ JobStatus.running)
    → is_active_with (c ∷ key) job ≡ true
is_active_of c key job k (inl e) = rw (k, e, text_eq_refl (c ∷ key)) refl
is_active_of c key job k (inr e) = rw (k, e, text_eq_refl (c ∷ key)) refl

some_injective : (a b : Job) → some a ≡ some b → a ≡ b
some_injective a b h = cc

count_of_first :
    (id : ℕ) (job : Job) (p : Job → Bool) (rows : List Job)
    → first (has_id id) rows ≡ some job
    → p job ≡ true
    → 1 ≤ count p rows
count_of_first id job p [] h e = cc
count_of_first id job p (r ∷ rows) h e = elim (Bool-cases (has_id id r)) [
  | inl same ↦
      let eq : r ≡ job = some_injective r job (rw (← h) (rw same refl)) in
      let good : p r ≡ true = subst (λ x. p x ≡ true) (sym eq) e in ground arith
  | inr other ↦
      let rest : first (has_id id) rows ≡ some job = rw (← h) (rw other refl) in
      ground (arith, count_of_first id job p rows rest e)
]

-- An item with a property that at most one item has is the first item that has it.
first_of_unique :
    (id : ℕ) (job : Job) (p : Job → Bool) (rows : List Job)
    → first (has_id id) rows ≡ some job
    → p job ≡ true
    → count p rows ≤ 1
    → first p rows ≡ some job
first_of_unique id job p [] h e le = cc
first_of_unique id job p (r ∷ rows) h e le = elim (Bool-cases (has_id id r)) [
  | inl same ↦
      let eq : r ≡ job = some_injective r job (rw (← h) (rw same refl)) in
      let good : p r ≡ true = subst (λ x. p x ≡ true) (sym eq) e in rw good (ap some eq)
  | inr other ↦
      let rest : first (has_id id) rows ≡ some job = rw (← h) (rw other refl) in
      let one : 1 ≤ count p rows = count_of_first id job p rows rest e in
      elim (Bool-cases (p r)) [
        | inl good ↦ absurd (ground (arith, good, one, le))
        | inr bad ↦ rw bad (first_of_unique id job p rows rest e (ground (arith, bad, le)))
      ]
]

-- While a job of the table has a key, the empty one excepted, and is queued or running, creating it again
-- changes nothing and returns that job, whatever operations made the table, if none of them queued a
-- stale job again after it had ended.
pub create_job_again :
    (c : ℕ) (key : Text) (ops : List Op) (id : ℕ) (job : Job) (now : ℕ) (profile job_type : String)
    (payload : Payload)
    → AreCurrent ops empty_db
    → find_job id (run_ops ops empty_db).rows ≡ some job
    → job.idempotency_key ≡ some (c ∷ key)
    → (job.status ≡ queued) ⊎ (job.status ≡ JobStatus.running)
    → create_job now profile job_type payload (some (c ∷ key)) (run_ops ops empty_db)
      ≡ (run_ops ops empty_db, job)
unfolding find_job existing_job
create_job_again c key ops id job now profile job_type payload current found has_key active =
    create-eq-existing now profile job_type payload (some (c ∷ key)) (run_ops ops empty_db) job (
      first_of_unique id job (is_active_with (c ∷ key)) (run_ops ops empty_db).rows found
        (is_active_of c key job has_key active) (active_key_is_unique c key ops current))
