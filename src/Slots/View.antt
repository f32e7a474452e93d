-- ===== src/Slots/View.antt =====
-- The rows of the database backend, viewed as the dict of the in-memory backend: what each query of
-- `DatabaseSlotBackend` is on the view.
use getoffline.Base.{
  ℕ, String, Bool, true, false, not, ◌&&◌, Option, none, some, List, [], ◌∷◌, ◌++◌, ◌≡◌, ◌⊎◌, inl,
  inr, refl, sym, ap, arith, eq_iff, ◌==◌, map, any, keep, update_where, All, lookup, put, pop,
  IsDict, IsFresh, Agree, Agree-always, keep-map, count-map, if◌then◌else◌,
}
use getoffline.Domain.{CpuSlotStatus, HeavyJobKind}
use getoffline.Domain.Parsing.{heavy_job_kind_roundtrip}
use getoffline.Slots.{Request, Reason, is_ffmpeg, is_ffmpeg_kind}
use getoffline.Slots.Memory
use getoffline.Slots.Memory.{Requests, has_status}
use getoffline.Slots.Database
use getoffline.Slots.Database.{Row, has_lease, waits, runs}

-- A row as the entry of the dict that stands for it.
abbrev pub entry : Row → String × Request
entry r =
    (r.lease_id, record { job_type = r.job_type; status = r.status; expires_at = r.expires_at })

abbrev pub view : List Row → Requests
view rows = map entry rows

-- The job type is a value of `HeavyJobKind`, as the one caller of the backend has it.
abbrev pub IsHeavy : String → Type 0
IsHeavy job_type = (job_type ≡ "ffmpeg") ⊎ (job_type ≡ "transcript")

abbrev pub IsHeavyRow : Row → Type 0
IsHeavyRow r = IsHeavy r.job_type

-- The rows of the table: the lease is the primary key, and each job type is a heavy one.
pub record IsTable (rows : List Row) : Type 0 where
  pub distinct : IsDict (view rows)
  pub heavy : All IsHeavyRow rows

is_ffmpeg_ffmpeg : is_ffmpeg "ffmpeg" ≡ true
unfolding is_ffmpeg
is_ffmpeg_ffmpeg = ap is_ffmpeg_kind (heavy_job_kind_roundtrip HeavyJobKind.ffmpeg)

is_ffmpeg_transcript : is_ffmpeg "transcript" ≡ false
unfolding is_ffmpeg
is_ffmpeg_transcript = ap is_ffmpeg_kind (heavy_job_kind_roundtrip HeavyJobKind.transcript)

pub is_ffmpeg_heavy :
    (job_type : String) → IsHeavy job_type → is_ffmpeg job_type ≡ (job_type == "ffmpeg")
is_ffmpeg_heavy job_type (inl e) = rw e is_ffmpeg_ffmpeg
is_ffmpeg_heavy job_type (inr e) = rw e is_ffmpeg_transcript

waits-Agree :
    (rows : List Row) → All IsHeavyRow rows → Agree entry Memory.waits_ffmpeg (waits "ffmpeg") rows
waits-Agree [] h = tt
waits-Agree (r ∷ rows) h = (ground (arith, is_ffmpeg_heavy r.job_type h.0), waits-Agree rows h.1)

pub stats_agree :
    (reason : Reason) (rows : List Row)
    → All IsHeavyRow rows
    → Memory.stats reason (view rows) ≡ Database.stats reason rows
unfolding Memory.stats Database.stats
stats_agree reason rows h = cc (
  count-map entry Memory.runs runs rows (Agree-always entry Memory.runs runs (λ r. refl) rows),
  count-map entry Memory.waits_ffmpeg (waits "ffmpeg") rows (waits-Agree rows h),
  count-map entry Memory.waits_transcript (waits "transcript") rows
      (Agree-always entry Memory.waits_transcript (waits "transcript") (λ r. refl) rows),
)

pub purge_agree :
    (now : ℕ) (rows : List Row)
    → Memory.purge now (view rows) ≡ view (Database.purge_expired now rows)
unfolding Memory.purge Database.purge_expired
purge_agree now rows =
    keep-map entry (Memory.is_live now) (Database.is_live now) rows
      (Agree-always entry (Memory.is_live now) (Database.is_live now) (λ r. refl) rows)

-- Under the key there is at most one row: an update of all its rows is the update of one entry.
update_of_IsFresh :
    (k : String) (f : Row → Row) (p : CpuSlotStatus → Bool) (rows : List Row)
    → IsFresh k (view rows)
    → update_where (λ r. has_lease k r && p r.status) f rows ≡ rows
update_of_IsFresh k f p [] h = refl
update_of_IsFresh k f p (r ∷ rows) h =
    ground (arith, eq_iff r.lease_id k, update_of_IsFresh k f p rows h.1)

update_lease_of_IsFresh :
    (k : String) (f : Row → Row) (rows : List Row)
    → IsFresh k (view rows)
    → update_where (has_lease k) f rows ≡ rows
update_lease_of_IsFresh k f [] h = refl
update_lease_of_IsFresh k f (r ∷ rows) h =
    ground (arith, eq_iff r.lease_id k, update_lease_of_IsFresh k f rows h.1)

keep_of_IsFresh :
    (k : String) (p : CpuSlotStatus → Bool) (rows : List Row)
    → IsFresh k (view rows)
    → keep (λ r. not (has_lease k r && p r.status)) rows ≡ rows
keep_of_IsFresh k p [] h = refl
keep_of_IsFresh k p (r ∷ rows) h = ground (arith, eq_iff r.lease_id k, keep_of_IsFresh k p rows h.1)

pop_of_IsFresh : (k : String) (d : Requests) → IsFresh k d → pop k d ≡ d
unfolding pop
pop_of_IsFresh k [] h = refl
pop_of_IsFresh k ((j, r) ∷ d) h = ground (arith, eq_iff j k, pop_of_IsFresh k d h.1)

pub update-put :
    (k : String) (f : Row → Row) (v : Request) (rows : List Row)
    → ((r : Row) → r.lease_id ≡ k → entry (f r) ≡ (k, v))
    → IsDict (view rows)
    → any (has_lease k) rows ≡ true
    → view (update_where (has_lease k) f rows) ≡ put k v (view rows)
unfolding put
update-put k f v [] e u h = cc
update-put k f v (r ∷ rows) e u h =
    ground (
      arith,
      e r,
      eq_iff r.lease_id k,
      update_lease_of_IsFresh k f rows,
      update-put k f v rows e u.1,
    )

pub append-put :
    (k : String) (new : Row) (v : Request) (rows : List Row)
    → entry new ≡ (k, v)
    → any (has_lease k) rows ≡ false
    → view (rows ++ new ∷ []) ≡ put k v (view rows)
unfolding put
append-put k new v [] e h = ground arith
append-put k new v (r ∷ rows) e h = ground (arith, eq_iff r.lease_id k, append-put k new v rows e)

any_of_IsFresh :
    (k : String) (p : CpuSlotStatus → Bool) (rows : List Row)
    → IsFresh k (view rows)
    → any (λ r. has_lease k r && p r.status) rows ≡ false
any_of_IsFresh k p [] h = refl
any_of_IsFresh k p (r ∷ rows) h = ground (arith, eq_iff r.lease_id k, any_of_IsFresh k p rows h.1)

pub any-has_status :
    (k : String) (p : CpuSlotStatus → Bool) (rows : List Row)
    → IsDict (view rows)
    → any (λ r. has_lease k r && p r.status) rows ≡ has_status p (lookup k (view rows))
unfolding lookup
any-has_status k p [] u = refl
any-has_status k p (r ∷ rows) u =
    ground (arith, eq_iff r.lease_id k, any-has_status k p rows u.1, any_of_IsFresh k p rows)

lookup_of_IsFresh : (k : String) (d : Requests) → IsFresh k d → lookup k d ≡ none
unfolding lookup
lookup_of_IsFresh k [] h = refl
lookup_of_IsFresh k ((j, r) ∷ d) h = ground (arith, eq_iff j k, lookup_of_IsFresh k d h.1)

pub renew_agree :
    (k : String) (p : CpuSlotStatus → Bool) (now t : ℕ) (rows : List Row)
    → IsDict (view rows)
    → view (Database.renew p k now t rows)
      ≡ (if has_status p (lookup k (view rows)) then Memory.renew k t (view rows) else view rows)
unfolding Database.renew Memory.renew lookup put
renew_agree k p now t [] u = refl
renew_agree k p now t (r ∷ rows) u = ground (
  arith,
  eq_iff r.lease_id k,
  lookup_of_IsFresh k (view rows),
  update_of_IsFresh k (λ x. record x { updated_at = now; expires_at = t }) p rows,
  renew_agree k p now t rows u.1,
)

pub wait_finished_agree :
    (k : String) (p : CpuSlotStatus → Bool) (rows : List Row)
    → IsDict (view rows)
    → view (keep (λ r. not (has_lease k r && p r.status)) rows)
      ≡ (if has_status p (lookup k (view rows)) then pop k (view rows) else view rows)
unfolding pop lookup
wait_finished_agree k p [] u = refl
wait_finished_agree k p (r ∷ rows) u = ground (
  arith,
  eq_iff r.lease_id k,
  lookup_of_IsFresh k (view rows),
  pop_of_IsFresh k (view rows),
  keep_of_IsFresh k p rows,
  wait_finished_agree k p rows u.1,
)

pub release_agree :
    (k : String) (rows : List Row) → view (keep (λ r. not (has_lease k r)) rows) ≡ pop k (view rows)
unfolding pop
release_agree k rows = sym (
    keep-map entry (λ e. not (e.0 == k)) (λ r. not (has_lease k r)) rows
      (Agree-always entry (λ e. not (e.0 == k)) (λ r. not (has_lease k r)) (λ r. refl) rows))

abbrev pub is_there : Option Request → Bool
is_there none = false
is_there (some r) = true

pub any-is_there :
    (k : String) (rows : List Row) → any (has_lease k) rows ≡ is_there (lookup k (view rows))
unfolding lookup
any-is_there k [] = refl
any-is_there k (r ∷ rows) = ground (arith, any-is_there k rows)

pub pop_of_none : (k : String) (d : Requests) → lookup k d ≡ none → pop k d ≡ d
unfolding lookup pop
pop_of_none k [] h = refl
pop_of_none k ((j, r) ∷ d) h = ground (arith, pop_of_none k d)

-- The job types of the rows stay heavy.
pub All-update :
    (p : Row → Bool) (f : Row → Row) (rows : List Row)
    → ((r : Row) → IsHeavyRow r → IsHeavyRow (f r))
    → All IsHeavyRow rows
    → All IsHeavyRow (update_where p f rows)
All-update p f [] k h = tt
All-update p f (r ∷ rows) k h = ground (arith, k r, All-update p f rows k h.1)

pub others_agree :
    (k : String) (rows : List Row)
    → All IsHeavyRow rows
    → any (Memory.other_waits_ffmpeg k) (view rows)
      ≡ any (λ r. waits "ffmpeg" r && not (has_lease k r)) rows
others_agree k [] h = refl
others_agree k (r ∷ rows) h =
    ground (arith, is_ffmpeg_heavy r.job_type h.0, others_agree k rows h.1)
