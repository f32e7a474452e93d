-- ===== src/Slots/Refinement.antt =====
-- The database backend does what the in-memory backend does: the view of its rows as a dict of
-- requests goes from each state to the next, and the replies are the same.
use getoffline.Base.{
  ltb, ap₂, IsDict-keep, ℕ, ◌+◌, ◌≤◌, String, Bool, true, false, not, ◌&&◌, ◌||◌, none,
  Option-cases, Bool-cases, List, [], ◌∷◌, ◌≡◌, inl, inr, refl, sym, ap, ◌∙◌, arith, any, count,
  All, All-keep, All-append, lookup, put, IsDict, count-map, Agree-always, if◌then◌else◌,
}
use getoffline.Domain.{CpuSlotStatus, waiting}
use getoffline.Slots.{Call, Times, Reason, Reply, is_waiting, is_running, is_ffmpeg}
use getoffline.Slots.Memory
use getoffline.Slots.Memory.{Requests, has_status}
use getoffline.Slots.Database
use getoffline.Slots.Database.{Row, has_lease, waits, runs}
use getoffline.Slots.Invariant.{call-IsDict, run_calls, running-le-capacity}
use getoffline.Slots.View.{
  entry, view, IsHeavy, IsHeavyRow, IsTable, stats_agree, purge_agree, update-put, append-put,
  any-has_status, renew_agree, wait_finished_agree, release_agree, any-is_there, pop_of_none,
  All-update, others_agree,
}

-- Two results agree: the rows as a dict, and the reply.
abbrev pub Same : List Row × Reply → Requests × Reply → Type 0
Same x y = (view x.0 ≡ y.0) × (x.1 ≡ y.1)

abbrev pub IsHeavyCall : Call → Type 0
IsHeavyCall (Call.wait_started job k n) = IsHeavy job
IsHeavyCall (Call.acquire job k n) = IsHeavy job
IsHeavyCall _ = Unit

module _ (k job : String) (now t : ℕ) (rows : List Row) where
  update_or_create_agree :
      IsDict (view rows)
      → view (Database.update_or_create k job now t rows)
        ≡ put k (record { job_type = job; status = waiting; expires_at = t }) (view rows)
  unfolding Database.update_or_create
  update_or_create_agree u = elim (Bool-cases (any (has_lease k) rows)) [
    | inl e ↦ rw e (update-put k _ _ rows (λ r p. cc) u e)
    | inr e ↦ rw e (append-put k _ _ rows refl e)
  ]

  update_or_create_heavy :
      IsHeavy job
      → All IsHeavyRow rows
      → All IsHeavyRow (Database.update_or_create k job now t rows)
  unfolding Database.update_or_create
  update_or_create_heavy j h = elim (Bool-cases (any (has_lease k) rows)) [
    | inl e ↦ rw e (All-update (has_lease k) _ rows (λ r _. j) h)
    | inr e ↦ rw e (All-append IsHeavyRow rows _ h (j, tt))
  ]

  set_running_agree :
      IsDict (view rows)
      → view (Database.set_running k job now t rows)
        ≡ put k
            (record { job_type = job; status = CpuSlotStatus.running; expires_at = t })
            (view rows)
  unfolding Database.set_running
  set_running_agree u = elim (Bool-cases (any (has_lease k) rows)) [
    | inl e ↦ rw e (update-put k _ _ rows (λ r p. cc) u e)
    | inr e ↦ rw e (append-put k _ _ rows refl e)
  ]

  set_running_heavy :
      IsHeavy job → All IsHeavyRow rows → All IsHeavyRow (Database.set_running k job now t rows)
  unfolding Database.set_running
  set_running_heavy j h = elim (Bool-cases (any (has_lease k) rows)) [
    | inl e ↦ rw e (All-update (has_lease k) _ rows (λ r _. j) h)
    | inr e ↦ rw e (All-append IsHeavyRow rows _ h (j, tt))
  ]

renew_heavy :
    (p : CpuSlotStatus → Bool) (k : String) (now t : ℕ) (rows : List Row)
    → All IsHeavyRow rows
    → All IsHeavyRow (Database.renew p k now t rows)
unfolding Database.renew
renew_heavy p k now t rows h =
    All-update (λ r. has_lease k r && p r.status)
      (λ r. record r { updated_at = now; expires_at = t }) rows (λ r x. x) h

module _ (reason : Reason) (rows : List Row) (d : Requests) (h : All IsHeavyRow rows)
    (e : view rows ≡ d) where
  stats_same : Database.stats reason rows ≡ Memory.stats reason d
  stats_same = sym (stats_agree reason rows h) ∙ ap (Memory.stats reason) e

  plain-Same : Same (Database.plain_reply reason rows) (Memory.plain_reply reason d)
  plain-Same = (e, ap (λ s. record { granted = none; renewed = none; stats = s }) stats_same)

  renewed-Same :
      (a b : Bool)
      → a ≡ b
      → Same (Database.renewed_reply reason a rows) (Memory.renewed_reply reason b d)
  renewed-Same a b q = (e, cc (q, stats_same))

  granted-Same :
      (b : Bool) → Same (Database.granted_reply reason b rows) (Memory.granted_reply reason b d)
  granted-Same b = (e, cc stats_same)

Same-if :
    (b : Bool) (x x' : List Row × Reply) (y y' : Requests × Reply)
    → Same x y
    → Same x' y'
    → Same (if b then x else x') (if b then y else y')
Same-if true x x' y y' h k = h
Same-if false x x' y y' h k = k

module _ (capacity now : ℕ) where
  admit-Same :
      (job k : String) (t : ℕ) (rows : List Row)
      → IsHeavy job
      → IsTable rows
      → Same (Database.admit capacity job k now t rows) (Memory.admit capacity job k t (view rows))
  unfolding Database.admit Memory.admit
  admit-Same job k t rows j h =
      rw
        (
          count-map entry Memory.runs runs rows
              (Agree-always entry Memory.runs runs (λ r. refl) rows),
          others_agree k rows h.heavy,
        )
        (Same-if (ltb (count runs rows) capacity) _ _ _ _
          (Same-if (is_ffmpeg job || not (any (λ r. waits "ffmpeg" r && not (has_lease k r)) rows))
            _ _ _ _
            (granted-Same Reason.acquired _ _ (set_running_heavy k job now t rows j h.heavy)
              (set_running_agree k job now t rows h.distinct) true)
            (granted-Same Reason.ffmpeg_waiting rows (view rows) h.heavy refl false))
          (granted-Same Reason.capacity_full rows (view rows) h.heavy refl false))

  beat-Same :
      (p : CpuSlotStatus → Bool) (reason : Reason) (k : String) (t : ℕ) (rows : List Row)
      → IsTable rows
      → Same
          (Database.renewed_reply reason
            (any (λ r. has_lease k r && p r.status) rows)
            (Database.renew p k now t rows))
          (if has_status p (lookup k (view rows))
            then Memory.renewed_reply reason true (Memory.renew k t (view rows))
            else Memory.renewed_reply reason false (view rows))
  beat-Same p reason k t rows h = elim (Bool-cases (has_status p (lookup k (view rows)))) [
    | inl b ↦ rw b (
        renewed-Same reason (Database.renew p k now t rows) (Memory.renew k t (view rows))
          (renew_heavy p k now t rows h.heavy)
          (ground (arith, renew_agree k p now t rows h.distinct)) _ _
          (ground (arith, any-has_status k p rows h.distinct)))
    | inr b ↦ rw b (
        renewed-Same reason (Database.renew p k now t rows) (view rows)
          (renew_heavy p k now t rows h.heavy)
          (ground (arith, renew_agree k p now t rows h.distinct)) _ _
          (ground (arith, any-has_status k p rows h.distinct)))
  ]

  release-Same :
      (k : String) (rows : List Row)
      → IsTable rows
      → Same
          (Database.perform capacity now (Call.release k) rows)
          (Memory.perform capacity now (Call.release k) (view rows))
  unfolding Database.perform Memory.perform
  release-Same k rows h = elim (Option-cases (lookup k (view rows))) [
    | inl e ↦
        rw (any-is_there k rows, e, Memory.perform)
          (plain-Same Reason.missing _ (view rows) (All-keep IsHeavyRow _ rows h.heavy)
            (release_agree k rows ∙ pop_of_none k (view rows) e))
    | inr (r, e) ↦
        rw (any-is_there k rows, e, Memory.perform)
          (plain-Same Reason.released _ _ (All-keep IsHeavyRow _ rows h.heavy)
            (release_agree k rows))
  ]

  perform-Same :
      (c : Call) (rows : List Row)
      → IsHeavyCall c
      → IsTable rows
      → Same (Database.perform capacity now c rows) (Memory.perform capacity now c (view rows))
  unfolding Database.perform Memory.perform
  perform-Same (Call.wait_started job k n) rows hc h =
      plain-Same Reason.wait_started _ _
        (update_or_create_heavy k job now (now + n) rows hc h.heavy)
        (update_or_create_agree k job now (now + n) rows h.distinct)
  perform-Same (Call.wait_heartbeat k n) rows hc h =
      beat-Same is_waiting Reason.wait_heartbeat k (now + n) rows h
  perform-Same (Call.wait_finished k) rows hc h =
      plain-Same Reason.wait_finished _ _ (All-keep IsHeavyRow _ rows h.heavy)
        (wait_finished_agree k is_waiting rows h.distinct)
  perform-Same (Call.acquire job k n) rows hc h = admit-Same job k (now + n) rows hc h
  perform-Same (Call.release k) rows hc h = release-Same k rows h
  perform-Same (Call.heartbeat k n) rows hc h =
      beat-Same is_running Reason.heartbeat k (now + n) rows h
  perform-Same Call.snapshot rows hc h = plain-Same Reason.snapshot rows (view rows) h.heavy refl

heavy-if :
    (b : Bool) (x y : List Row × Reply)
    → All IsHeavyRow x.0
    → All IsHeavyRow y.0
    → All IsHeavyRow (if b then x else y).0
heavy-if true x y h k = h
heavy-if false x y h k = k

perform_heavy :
    (capacity now : ℕ) (c : Call) (rows : List Row)
    → IsHeavyCall c
    → All IsHeavyRow rows
    → All IsHeavyRow (Database.perform capacity now c rows).0
unfolding Database.perform Database.admit
perform_heavy capacity now (Call.wait_started job k n) rows hc h =
    update_or_create_heavy k job now (now + n) rows hc h
perform_heavy capacity now (Call.wait_heartbeat k n) rows hc h =
    renew_heavy is_waiting k now (now + n) rows h
perform_heavy capacity now (Call.wait_finished k) rows hc h = All-keep IsHeavyRow _ rows h
perform_heavy capacity now (Call.acquire job k n) rows hc h =
    heavy-if (ltb (count runs rows) capacity) _ _
      (heavy-if (is_ffmpeg job || not (any (λ r. waits "ffmpeg" r && not (has_lease k r)) rows)) _ _
        (set_running_heavy k job now (now + n) rows hc h) h)
      h
perform_heavy capacity now (Call.release k) rows hc h = All-keep IsHeavyRow _ rows h
perform_heavy capacity now (Call.heartbeat k n) rows hc h =
    renew_heavy is_running k now (now + n) rows h
perform_heavy capacity now Call.snapshot rows hc h = h

IsTable-purge :
    (now : ℕ) (rows : List Row) → IsTable rows → IsTable (Database.purge_expired now rows)
IsTable-purge now rows h = record {
  distinct =
      rw (← purge_agree now rows) (unfold Memory.purge in IsDict-keep _ (view rows) h.distinct);
  heavy = unfold Database.purge_expired in All-keep IsHeavyRow _ rows h.heavy;
}

module _ (capacity : ℕ) (times : Times) (c : Call) (rows : List Row) (hc : IsHeavyCall c)
    (h : IsTable rows) where
  call-Same : Same (Database.call capacity times c rows) (Memory.call capacity times c (view rows))
  unfolding Database.call Memory.call
  call-Same = rw (purge_agree times.purge_at rows) (
      perform-Same capacity times.write_at c (Database.purge_expired times.purge_at rows) hc
        (IsTable-purge times.purge_at rows h))

  call-IsTable : IsTable (Database.call capacity times c rows).0
  call-IsTable = record {
    distinct = rw (call-Same.0) (call-IsDict capacity times c (view rows) h.distinct);
    heavy =
        unfold Database.call in
        perform_heavy capacity times.write_at c (Database.purge_expired times.purge_at rows) hc
          (IsTable-purge times.purge_at rows h).heavy;
  }

-- The calls of the workers one after the other: the rows at the end, and the replies.
unfoldable pub run_rows : ℕ → List (Times × Call) → List Row → List Row
run_rows capacity [] rows = rows
run_rows capacity ((times, c) ∷ calls) rows =
    run_rows capacity calls (Database.call capacity times c rows).0

unfoldable pub row_replies : ℕ → List (Times × Call) → List Row → List Reply
row_replies capacity [] rows = []
row_replies capacity ((times, c) ∷ calls) rows =
    (Database.call capacity times c rows).1
    ∷ row_replies capacity calls (Database.call capacity times c rows).0

unfoldable pub replies : ℕ → List (Times × Call) → Requests → List Reply
replies capacity [] d = []
replies capacity ((times, c) ∷ calls) d =
    (Memory.call capacity times c d).1 ∷ replies capacity calls (Memory.call capacity times c d).0

abbrev pub AreHeavy : List (Times × Call) → Type 0
AreHeavy [] = Unit
AreHeavy ((times, c) ∷ calls) = IsHeavyCall c × AreHeavy calls

-- On any table of heavy job types, and for any sequence of calls for heavy jobs, the database backend
-- gives the replies of the in-memory backend, and its rows end as that backend's requests.
pub database_refines_memory :
    (capacity : ℕ) (calls : List (Times × Call)) (rows : List Row)
    → AreHeavy calls
    → IsTable rows
    → (view (run_rows capacity calls rows) ≡ run_calls capacity calls (view rows))
      × (row_replies capacity calls rows ≡ replies capacity calls (view rows))
unfolding run_rows row_replies replies run_calls
database_refines_memory capacity [] rows hs h = (refl, refl)
database_refines_memory capacity ((times, c) ∷ calls) rows (hc, hs) h =
    let (same_rows, same_reply) = call-Same capacity times c rows hc h in
    let (end, rest) =
      database_refines_memory capacity calls (Database.call capacity times c rows).0 hs
        (call-IsTable capacity times c rows hc h) in
    (
      end ∙ ap (run_calls capacity calls) same_rows,
      ap₂ ◌∷◌ same_reply (rest ∙ ap (replies capacity calls) same_rows),
    )

-- Whatever calls for heavy jobs the workers make on a table that was empty, it has never more rows
-- running than the capacity.
pub running_rows-le-capacity :
    (capacity : ℕ) (calls : List (Times × Call))
    → AreHeavy calls
    → count runs (run_rows capacity calls []) ≤ capacity
running_rows-le-capacity capacity calls hs =
    let same =
      (database_refines_memory capacity calls [] hs (record { distinct = tt; heavy = tt })).0 in
    omega (
      arith,
      running-le-capacity capacity calls,
      sym (ap (count Memory.runs) same),
      count-map entry Memory.runs runs (run_rows capacity calls [])
          (Agree-always entry Memory.runs runs (λ r. refl) (run_rows capacity calls [])),
    )
