-- ===== src/Discovery/Candidates.antt =====
-- What one candidate of a check for episodes does to the table and to the count of its source.
use getoffline.Base.{
  ℕ, suc, ◌≤◌, Bool, true, false, ◌||◌, Bool-cases, none, some, Option-cases, inl, inr, List, ◌∷◌,
  any, length, take, ◌≡◌, refl, ap, ◌∙◌, arith, Text, Outcome, ok, err,
}
use getoffline.Jobs.{Job, Db, has_id, is_queued, create_job}
use getoffline.Jobs.Stale.{make_stale_job_queued, is_stale}
use getoffline.Library.{Source, Download}
use getoffline.Discovery.{Candidate}
use getoffline.Discovery.Scan.{
  Scan, episode_was_downloaded, episode_payload, active_download_job, episode_key, key_for,
  after_reset, after_create, process_candidate,
}
use getoffline.Discovery.Active.{
  HasActive, active_some, active_found, reset_HasActive, length-reset, create_job_active,
  create_job-HasActive,
}

-- The save of a stale object does not raise where the table has its row.
reset_ok :
    (now saved_at : ℕ) (raw : Text) (job : Job) (db : Db)
    → any (has_id job.id) db.rows ≡ true
    → (b : Bool) × ((make_stale_job_queued now saved_at raw job db).1 ≡ ok b)
unfolding make_stale_job_queued
reset_ok now saved_at raw job db h = elim (Bool-cases (is_stale now raw job)) [
  | inl s ↦ (true, rw (s, h) refl)
  | inr s ↦ (false, rw s refl)
]

abbrev ResetsTo : Job → Scan → Db × Outcome Bool → Type 0
ResetsTo job s x =
    ((after_reset job s x).db ≡ x.0) × ((after_reset job s x).enqueued ≡ suc s.enqueued)

after_reset_lem :
    (job : Job) (s : Scan) (x : Db × Outcome Bool) (b : Bool) → x.1 ≡ ok b → ResetsTo job s x
after_reset_lem job s (db, ok r) b h = elim (Bool-cases (is_queued job.status || r)) [
  | inl e ↦ rw e (refl, refl)
  | inr e ↦ rw e (refl, refl)
]
after_reset_lem job s (db, err e) b h = cc

module _ (sha1 : Text → Text) (downloads : List Download) (raw : Text) (source : Source)
    (limit : ℕ) where
  key_not_empty : (c : Candidate) → (k : ℕ) × (key : Text) × (key_for sha1 source c ≡ k ∷ key)
  unfolding episode_key
  key_not_empty c = (_, _, refl)

  abbrev pub was_downloaded : Candidate → Bool
  was_downloaded c =
      episode_was_downloaded downloads source (take 255 c.item_uid) c.item_url c.title

  module _ (now : ℕ) (c : Candidate) (s : Scan) where
    abbrev pub next : Scan
    next = process_candidate sha1 downloads raw now source limit c s

    pub process_downloaded : was_downloaded c ≡ true → next ≡ s
    unfolding process_candidate
    process_downloaded h = rw h refl

    process_active :
        (job : Job)
        → was_downloaded c ≡ false
        → active_download_job (key_for sha1 source c) s.db.rows ≡ some job
        → next ≡ after_reset job s (make_stale_job_queued now now raw job s.db)
    unfolding process_candidate
    process_active job d e = rw (d, e, process_candidate) refl

    process_existing :
        (job : Job)
        → was_downloaded c ≡ false
        → active_download_job (key_for sha1 source c) s.db.rows ≡ some job
        → (next.db ≡ (make_stale_job_queued now now raw job s.db).0)
          × (next.enqueued ≡ suc s.enqueued)
    process_existing job d e =
        let (b, saved) =
          reset_ok now now raw job s.db (active_found (key_for sha1 source c) s.db.rows job e).1 in
        let (same, n) =
          after_reset_lem job s (make_stale_job_queued now now raw job s.db) b saved in
        (
          ap (λ x. x.db) (process_active job d e) ∙ same,
          ap (λ x. x.enqueued) (process_active job d e) ∙ n,
        )

    process_new :
        was_downloaded c ≡ false
        → active_download_job (key_for sha1 source c) s.db.rows ≡ none
        → next
          ≡ after_create s (
              create_job now source.profile_id "download_episode"
                (some (episode_payload source limit c))
                (some (key_for sha1 source c))
                s.db)
    unfolding process_candidate
    process_new d e = rw (d, e, process_candidate) refl

    created :
        HasActive
          (key_for sha1 source c)
          (create_job now source.profile_id "download_episode"
            (some (episode_payload source limit c))
            (some (key_for sha1 source c))
            s.db).0.rows
        × (length
              (create_job now source.profile_id "download_episode"
                (some (episode_payload source limit c))
                (some (key_for sha1 source c))
                s.db).0.rows
            ≤ suc (length s.db.rows))
    created =
        let (k, key, e) = key_not_empty c in
        rw e (
          create_job_active k key now source.profile_id "download_episode"
            (some (episode_payload source limit c)) s.db)

    created_keeps :
        (other : Text)
        → HasActive other s.db.rows
        → HasActive other
            (create_job now source.profile_id "download_episode"
              (some (episode_payload source limit c))
              (some (key_for sha1 source c))
              s.db).0.rows
    created_keeps other h =
        let (k, key, e) = key_not_empty c in
        rw e (
          create_job-HasActive k key now source.profile_id "download_episode"
            (some (episode_payload source limit c)) s.db other h)

    -- What a candidate that was not downloaded does to the table and to the count.
    pub record Enqueues : Type 0 where
      pub counted : next.enqueued ≡ suc s.enqueued
      pub active : HasActive (key_for sha1 source c) next.db.rows
      pub kept : (other : Text) → HasActive other s.db.rows → HasActive other next.db.rows
      pub bounded : length next.db.rows ≤ suc (length s.db.rows)

    pub process_enqueues : was_downloaded c ≡ false → Enqueues
    process_enqueues d =
        elim (Option-cases (active_download_job (key_for sha1 source c) s.db.rows)) [
          | inl e ↦
              let same = process_new d e in
              record {
                counted = ap (λ x. x.enqueued) same;
                active = rw same created.0;
                kept = λ other h. rw same (created_keeps other h);
                bounded = rw same created.1;
              }
          | inr (job, e) ↦
              let (same, n) = process_existing job d e in
              record {
                counted = n;
                active = rw same (
                    reset_HasActive (key_for sha1 source c) now now raw job s.db
                      (active_found (key_for sha1 source c) s.db.rows job e).0);
                kept = λ other h. rw same (reset_HasActive other now now raw job s.db h);
                bounded = rw same (omega (arith, length-reset now now raw job s.db));
              }
        ]

    -- Where an active job has the candidate's key, no job is created.
    pub process_same :
        was_downloaded c ≡ false
        → HasActive (key_for sha1 source c) s.db.rows
        → length next.db.rows ≡ length s.db.rows
    process_same d h =
        let (job, e) = active_some (key_for sha1 source c) s.db.rows h in
        rw (process_existing job d e).0 (length-reset now now raw job s.db)
