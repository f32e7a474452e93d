-- ===== src/Jobs/Claims.antt =====
-- How often a job is claimed.
use getoffline.Base.{
  ℕ, ◌+◌, ◌≤◌, Bool, true, false, ◌&&◌, Option, none, some, Option-cases, Bool-cases, inl, inr,
  List, [], ◌∷◌, ◌≡◌, refl, arith, nat_eq, nat_eq_iff, leb, first, dict_or_empty, count-update_none,
  count, count-append, count-update-le, count_of_first, update_where, String, Text, Payload,
  if◌then◌else◌,
}
use getoffline.Domain.{JobStatus, queued, succeeded, failed}
use getoffline.Jobs.{
  Job, Db, has_id, is_queued, find_job, insert_job, existing_job, create_job, claim_job, finish_job,
  started, finished,
}
use getoffline.Jobs.Stale.{requeued, is_reset, make_stale_job_queued}
use getoffline.Jobs.Steps.{
  Op, create, record_done, claim, succeed, fail, requeue, apply, empty_db, empty_db-IsTable,
  IsApart, update_of_IsApart, HaveDistinctIds, IsTable, apply-IsTable,
}

abbrev is_claimable : ℕ → Job → Bool
is_claimable id job = has_id id job && is_queued job.status

-- 1 if the operation hands the job `id` to a worker
abbrev claims_now : ℕ → Op → Db → ℕ
claims_now id (claim now i) db =
    if nat_eq i id then elim (claim_job now i db).1 [ none ↦ 0 | some job ↦ 1 ] else 0
claims_now id _ db = 0

-- how often the job `id` is handed to a worker
unfoldable pub claims_of : ℕ → List Op → Db → ℕ
claims_of id [] db = 0
claims_of id (op ∷ ops) db = claims_now id op db + claims_of id ops (apply op db)

-- 1 while the job `id` is still to be created
abbrev unborn : ℕ → Db → ℕ
unborn id db = if leb db.next_id id then 1 else 0

unborn-le : (id : ℕ) (db : Db) → unborn id db ≤ 1
unborn-le id db = ground arith

abbrev chances : ℕ → Db → ℕ
chances id db = count (is_claimable id) db.rows + unborn id db

insert_chances :
    (id now : ℕ) (profile job_type : String) (status : JobStatus) (payload : Payload)
    (key : Option Text) (db : Db)
    → chances id (insert_job now profile job_type status payload key db).0 ≤ chances id db
unfolding insert_job
insert_chances id now profile job_type status payload key db = ground (
  arith,
  count-append (is_claimable id) db.rows
      ((insert_job now profile job_type status payload key db).1 ∷ []),
)

create_chances :
    (id now : ℕ) (profile job_type : String) (payload : Payload) (key : Option Text) (db : Db)
    → chances id (create_job now profile job_type payload key db).0 ≤ chances id db
unfolding create_job
create_chances id now profile job_type payload key db = elim (Option-cases (existing_job key db)) [
  | inl e ↦
      rw (e, create_job)
        (insert_chances id now profile job_type queued (some (dict_or_empty payload)) key db)
  | inr (job, e) ↦ rw (e, create_job) (omega arith)
]

claim-chances :
    (id now i : ℕ) (db : Db)
    → claims_now id (claim now i) db + chances id (claim_job now i db).0 ≤ chances id db
unfolding claim_job
claim-chances id now i db = elim (Option-cases (first (is_claimable i) db.rows)) [
  | inl e ↦ rw (e, claim_job) (ground arith)
  | inr (job, e) ↦
      rw (e, claim_job)
        (elim (Bool-cases (nat_eq i id)) [
          | inl same ↦ ground (
            arith,
            count_of_first (is_claimable i) db.rows job e,
            count-update_none (is_claimable i) (has_id i) (started now) (λ x _. ground arith)
                (λ x n. ground arith) db.rows,
          )
          | inr other ↦ ground (
            arith,
            count-update-le (is_claimable id) (has_id i) (started now) (λ x _. ground arith)
                db.rows,
          )
        ])
]

finish_chances :
    (id now : ℕ) (job : Job) (status : JobStatus) (message : Option Text) (db : Db)
    → is_queued status ≡ false
    → chances id (finish_job now job status message db).0 ≤ chances id db
unfolding finish_job
finish_chances id now job status message db h = ground (
  arith,
  count-update-le (is_claimable id) (has_id job.id) (finished now status message)
      (λ x _. ground arith) db.rows,
)

-- 1 if the operation queues the job `id` again
abbrev resets_now : ℕ → Op → Db → ℕ
resets_now id (requeue now saved_at raw job) db =
    if nat_eq job.id id && is_reset (make_stale_job_queued now saved_at raw job db).1 then 1 else 0
resets_now id _ db = 0

-- how often the job `id` is queued again
unfoldable pub resets_of : ℕ → List Op → Db → ℕ
resets_of id [] db = 0
resets_of id (op ∷ ops) db = resets_now id op db + resets_of id ops (apply op db)

count-update_one :
    (id : ℕ) (f : Job → Job) (p : Job → Bool) (rows : List Job)
    → HaveDistinctIds rows
    → count p (update_where (has_id id) f rows) ≤ count p rows + 1
count-update_one id f p [] u = omega arith
count-update_one id f p (r ∷ rows) u =
    ground
      (arith, nat_eq_iff r.id id, update_of_IsApart id f rows, count-update_one id f p rows u.1)

other_key : (id j i : ℕ) → nat_eq j id ≡ false → nat_eq i j ≡ true → (nat_eq i id && true) ≡ false
other_key id j i h q = ground arith

requeue_chances :
    (id now saved_at : ℕ) (raw : Text) (job : Job) (db : Db)
    → IsTable db
    → chances id (make_stale_job_queued now saved_at raw job db).0
      ≤ chances id db + resets_now id (requeue now saved_at raw job) db
unfolding make_stale_job_queued
requeue_chances id now saved_at raw job db u = elim (Bool-cases (nat_eq job.id id)) [
  | inl same ↦
      ground
        (arith, count-update_one job.id (requeued saved_at) (is_claimable id) db.rows u.distinct)
  | inr other ↦ ground (
    arith,
    count-update-le (is_claimable id) (has_id job.id) (requeued saved_at)
        (λ x q. other_key id job.id x.id other q) db.rows,
  )
]

step_chances :
    (id : ℕ) (op : Op) (db : Db)
    → IsTable db
    → claims_now id op db + chances id (apply op db) ≤ chances id db + resets_now id op db
unfolding apply
step_chances id (create now profile job_type payload key) db u =
    omega (arith, create_chances id now profile job_type payload key db)
step_chances id (record_done now profile job_type payload key) db u =
    omega (arith, insert_chances id now profile job_type succeeded payload key db)
step_chances id (claim now i) db u = omega (arith, claim-chances id now i db)
step_chances id (succeed now job) db u =
    omega (arith, finish_chances id now job succeeded none db refl)
step_chances id (fail now job message) db u =
    omega (arith, finish_chances id now job failed (some message) db refl)
step_chances id (requeue now saved_at raw job) db u =
    omega (arith, requeue_chances id now saved_at raw job db u)

claims_of-le :
    (id : ℕ) (ops : List Op) (db : Db)
    → IsTable db
    → claims_of id ops db ≤ chances id db + resets_of id ops db
unfolding claims_of resets_of
claims_of-le id [] db u = omega arith
claims_of-le id (op ∷ ops) db u =
    omega
      (arith, step_chances id op db u, claims_of-le id ops (apply op db) (apply-IsTable op db u))

-- In whatever order the operations of publishers and workers come, a job is handed to a worker once at
-- most, and once more for each time that it is queued again as stale: a second claim of it, by another
-- worker or after a redelivery, finds it taken.
pub claimed_at_most_once :
    (id : ℕ) (ops : List Op) → claims_of id ops empty_db ≤ 1 + resets_of id ops empty_db
claimed_at_most_once id ops =
    omega (arith, claims_of-le id ops empty_db empty_db-IsTable, unborn-le id empty_db)

first_of_IsApart :
    (id : ℕ) (rows : List Job) → IsApart id rows → first (is_claimable id) rows ≡ none
first_of_IsApart id [] h = refl
first_of_IsApart id (r ∷ rows) h = ground (arith, nat_eq_iff r.id id, first_of_IsApart id rows h.1)

first_claimable :
    (id : ℕ) (b : Job) (rows : List Job)
    → HaveDistinctIds rows
    → find_job id rows ≡ some b
    → first (is_claimable id) rows ≡ (if is_queued b.status then some b else none)
unfolding find_job
first_claimable id b [] u h = cc
first_claimable id b (r ∷ rows) u h =
    ground (arith, nat_eq_iff r.id id, first_of_IsApart id rows, first_claimable id b rows u.1)

pub find-update :
    (id : ℕ) (f : Job → Job) (b : Job) (rows : List Job)
    → ((job : Job) → (f job).id ≡ job.id)
    → find_job id rows ≡ some b
    → find_job id (update_where (has_id id) f rows) ≡ some (f b)
unfolding find_job
find-update id f b [] same h = cc
find-update id f b (r ∷ rows) same h = ground (arith, same r, find-update id f b rows same)

pub claim_cases :
    (now id : ℕ) (db : Db) (b : Job)
    → IsTable db
    → find_job id db.rows ≡ some b
    → (is_queued b.status ≡ true
        → ((claim_job now id db).1 ≡ some (started now b))
          × (find_job id (claim_job now id db).0.rows ≡ some (started now b)))
      × (is_queued b.status ≡ false → claim_job now id db ≡ (db, none))
unfolding claim_job
claim_cases now id db b u h = (
  λ q.
      let e : first (is_claimable id) db.rows ≡ some b =
        ground (arith, first_claimable id b db.rows u.distinct h) in
      rw (e, claim_job) (refl, find-update id (started now) b db.rows (λ j. refl) h),
  λ q.
      let e : first (is_claimable id) db.rows ≡ none =
        ground (arith, first_claimable id b db.rows u.distinct h) in
      rw (e, claim_job) refl,
)

-- A claim of a job that is in the table: if it is queued, the worker gets it and the table has it
-- running, started at the time of the claim; in any other state the worker gets nothing, and the job
-- is as it was.
pub claim_takes_queued :
    (now id : ℕ) (db : Db) (b : Job)
    → IsTable db
    → find_job id db.rows ≡ some b
    → ((claim_job now id db).1 ≡ (if is_queued b.status then some (started now b) else none))
      × (find_job id (claim_job now id db).0.rows
          ≡ some (if is_queued b.status then started now b else b))
claim_takes_queued now id db b u h = elim (Bool-cases (is_queued b.status)) [
  | inl q ↦ rw q ((claim_cases now id db b u h).0 q)
  | inr q ↦ rw (q, (claim_cases now id db b u h).1 q) (refl, h)
]
