-- ===== src/Jobs/Steps.antt =====
-- Sequences of operations on the table, as the workers and the publishers interleave them, and what
-- every sequence keeps.
use getoffline.Base.{
  ℕ, suc, nat_eq_iff, ◌≤◌, ◌<◌, String, Bool, ◌&&◌, Option, none, some, dict_or_empty, Bool-cases,
  Option-cases, inl, inr, List, [], ◌∷◌, ◌++◌, ◌≡◌, ◌≢◌, refl, arith, first, update_where, any,
  Text, Payload,
}
use getoffline.Jobs.Stale.{requeued, is_stale, make_stale_job_queued}
use getoffline.Domain.{JobStatus, queued, succeeded, failed}
use getoffline.Jobs.{
  Job, Db, has_id, is_queued, insert_job, existing_job, create_job, claim_job, finish_job, started,
  finished,
}

-- A committed operation: a publisher creates a job, `create_update_finished_message_once` (see
-- `Runner`) records a message that is done, a worker claims a job, marks one as done or failed, or queues
-- a stale one again.
pub data Op : Type 0 where
  create : ℕ → String → String → Payload → Option Text → Op
  record_done : ℕ → String → String → Payload → Option Text → Op
  claim : ℕ → ℕ → Op
  succeed : ℕ → Job → Op
  fail : ℕ → Job → Text → Op
  requeue : ℕ → ℕ → Text → Job → Op

unfoldable pub apply : Op → Db → Db
unfolding create_job insert_job claim_job finish_job make_stale_job_queued
apply (create now profile job_type payload key) db =
    (create_job now profile job_type payload key db).0
apply (record_done now profile job_type payload key) db =
    (insert_job now profile job_type succeeded payload key db).0
apply (claim now id) db = (claim_job now id db).0
apply (succeed now job) db = (finish_job now job succeeded none db).0
apply (fail now job message) db = (finish_job now job failed (some message) db).0
apply (requeue now saved_at raw job) db = (make_stale_job_queued now saved_at raw job db).0

unfoldable pub run_ops : List Op → Db → Db
run_ops [] db = db
run_ops (op ∷ ops) db = run_ops ops (apply op db)

abbrev pub empty_db : Db
empty_db = record { rows = []; next_id = 1 }

abbrev pub IsApart : ℕ → List Job → Type 0
IsApart id [] = Unit
IsApart id (job ∷ rows) = (job.id ≢ id) × IsApart id rows

abbrev pub HaveDistinctIds : List Job → Type 0
HaveDistinctIds [] = Unit
HaveDistinctIds (job ∷ rows) = IsApart job.id rows × HaveDistinctIds rows

abbrev pub AreBelow : ℕ → List Job → Type 0
AreBelow bound [] = Unit
AreBelow bound (job ∷ rows) = (job.id < bound) × AreBelow bound rows

-- `id` is a primary key, and the next one is new.
pub record IsTable (db : Db) : Type 0 where
  pub distinct : HaveDistinctIds db.rows
  pub below : AreBelow db.next_id db.rows

AreBelow-mono : (a b : ℕ) (rows : List Job) → a ≤ b → AreBelow a rows → AreBelow b rows
AreBelow-mono a b [] le h = tt
AreBelow-mono a b (job ∷ rows) le h = (omega arith, AreBelow-mono a b rows le h.1)

AreBelow-append :
    (bound : ℕ) (rows : List Job) (job : Job)
    → AreBelow bound rows
    → job.id < bound
    → AreBelow bound (rows ++ job ∷ [])
AreBelow-append bound [] job h lt = (lt, tt)
AreBelow-append bound (r ∷ rows) job h lt = (h.0, AreBelow-append bound rows job h.1 lt)

IsApart-append :
    (id : ℕ) (rows : List Job) (job : Job)
    → IsApart id rows
    → job.id ≢ id
    → IsApart id (rows ++ job ∷ [])
IsApart-append id [] job h ne = (ne, tt)
IsApart-append id (r ∷ rows) job h ne = (h.0, IsApart-append id rows job h.1 ne)

distinct-append :
    (rows : List Job) (job : Job)
    → HaveDistinctIds rows
    → AreBelow job.id rows
    → HaveDistinctIds (rows ++ job ∷ [])
distinct-append [] job h b = (tt, tt)
distinct-append (r ∷ rows) job h b =
    (IsApart-append r.id rows job h.0 (λ e. omega arith), distinct-append rows job h.1 b.1)

pub update_of_IsApart :
    (id : ℕ) (f : Job → Job) (rows : List Job)
    → IsApart id rows
    → update_where (has_id id) f rows ≡ rows
update_of_IsApart id f [] h = refl
update_of_IsApart id f (r ∷ rows) h =
    ground (arith, nat_eq_iff r.id id, update_of_IsApart id f rows h.1)

-- An update that leaves the key alone.
module _ (p : Job → Bool) (f : Job → Job) (same : (job : Job) → (f job).id ≡ job.id) where
  IsApart-update : (id : ℕ) (rows : List Job) → IsApart id rows → IsApart id (update_where p f rows)
  IsApart-update id [] h = tt
  IsApart-update id (r ∷ rows) h = ground (arith, same r, IsApart-update id rows h.1)

  distinct-update :
      (rows : List Job) → HaveDistinctIds rows → HaveDistinctIds (update_where p f rows)
  distinct-update [] h = tt
  distinct-update (r ∷ rows) h =
      ground (arith, same r, IsApart-update r.id rows h.0, distinct-update rows h.1)

  below-update : (b : ℕ) (rows : List Job) → AreBelow b rows → AreBelow b (update_where p f rows)
  below-update b [] h = tt
  below-update b (r ∷ rows) h = ground (arith, same r, below-update b rows h.1)

insert_job-IsTable :
    (now : ℕ) (profile job_type : String) (status : JobStatus) (payload : Payload)
    (key : Option Text) (db : Db)
    → IsTable db
    → IsTable (insert_job now profile job_type status payload key db).0
unfolding insert_job
insert_job-IsTable now profile job_type status payload key db h = record {
  distinct = distinct-append db.rows _ h.distinct h.below;
  below =
      AreBelow-append (suc db.next_id) db.rows _
        (AreBelow-mono db.next_id (suc db.next_id) db.rows (omega arith) h.below) (omega arith);
}

create_job-IsTable :
    (now : ℕ) (profile job_type : String) (payload : Payload) (key : Option Text) (db : Db)
    → IsTable db
    → IsTable (create_job now profile job_type payload key db).0
unfolding create_job
create_job-IsTable now profile job_type payload key db h =
    elim (Option-cases (existing_job key db)) [
      | inl e ↦
          rw (e, create_job)
            (insert_job-IsTable now profile job_type queued (some (dict_or_empty payload)) key db h)
      | inr (job, e) ↦ rw (e, create_job) h
    ]

update-IsTable :
    (p : Job → Bool) (f : Job → Job) (db : Db)
    → ((job : Job) → (f job).id ≡ job.id)
    → IsTable db
    → IsTable (record db { rows = update_where p f db.rows })
update-IsTable p f db same h = record {
  distinct = distinct-update p f same db.rows h.distinct;
  below = below-update p f same db.next_id db.rows h.below;
}

claim_job-IsTable : (now id : ℕ) (db : Db) → IsTable db → IsTable (claim_job now id db).0
unfolding claim_job
claim_job-IsTable now id db h =
    elim (Option-cases (first (λ job. has_id id job && is_queued job.status) db.rows)) [
      | inl e ↦ rw (e, claim_job) h
      | inr (job, e) ↦ rw (e, claim_job) (update-IsTable (has_id id) (started now) db (λ j. refl) h)
    ]

finish_job-IsTable :
    (now : ℕ) (job : Job) (status : JobStatus) (message : Option Text) (db : Db)
    → IsTable db
    → IsTable (finish_job now job status message db).0
unfolding finish_job
finish_job-IsTable now job status message db h = elim (Bool-cases (any (has_id job.id) db.rows)) [
  | inl e ↦ rw e (update-IsTable (has_id job.id) (finished now status message) db (λ j. refl) h)
  | inr e ↦ rw e h
]

make_stale_job_queued-IsTable :
    (now saved_at : ℕ) (raw : Text) (job : Job) (db : Db)
    → IsTable db
    → IsTable (make_stale_job_queued now saved_at raw job db).0
unfolding make_stale_job_queued
make_stale_job_queued-IsTable now saved_at raw job db h = elim (Bool-cases (is_stale now raw job)) [
  | inl s ↦ elim (Bool-cases (any (has_id job.id) db.rows)) [
    | inl e ↦ rw (s, e) (update-IsTable (has_id job.id) (requeued saved_at) db (λ j. refl) h)
    | inr e ↦ rw (s, e) h
  ]
  | inr s ↦ rw s h
]

-- Every operation keeps the primary keys distinct.
pub apply-IsTable : (op : Op) (db : Db) → IsTable db → IsTable (apply op db)
unfolding apply
apply-IsTable (create now profile job_type payload key) db h =
    create_job-IsTable now profile job_type payload key db h
apply-IsTable (record_done now profile job_type payload key) db h =
    insert_job-IsTable now profile job_type succeeded payload key db h
apply-IsTable (claim now id) db h = claim_job-IsTable now id db h
apply-IsTable (succeed now job) db h = finish_job-IsTable now job succeeded none db h
apply-IsTable (fail now job message) db h = finish_job-IsTable now job failed (some message) db h
apply-IsTable (requeue now saved_at raw job) db h =
    make_stale_job_queued-IsTable now saved_at raw job db h

pub run_ops-IsTable : (ops : List Op) (db : Db) → IsTable db → IsTable (run_ops ops db)
unfolding run_ops
run_ops-IsTable [] db h = h
run_ops-IsTable (op ∷ ops) db h = run_ops-IsTable ops (apply op db) (apply-IsTable op db h)

pub empty_db-IsTable : IsTable empty_db
empty_db-IsTable = record { distinct = tt; below = tt }
