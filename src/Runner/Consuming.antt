-- ===== src/Runner/Consuming.antt =====
-- What the consuming loop settles, and when it ends.
use getoffline.Base.{
  ℕ, ◌+◌, ◌≤◌, ◌<◌, String, Bool, true, not, Bool-cases, Option, none, some, Option-cases, inl, inr,
  List, [], ◌∷◌, ◌++◌, map, map-append, count, count-append, ◌≡◌, refl, ap, ◌∙◌, arith, leb, Text,
  Exc, Outcome, Outcome-cases, ok, err,
}
use getoffline.Domain.{HeavyJobKind}
use getoffline.Jobs.{Db}
use getoffline.Runner.{WorkerConfig, Handler, WorkerType, process_queued_job_message}
use getoffline.Runner.Delivery.{
  Delivery, Settlement, ack, nack, Handled, Event, Ended, Cause, after, finish_turn, limit_reached,
  settle, from_body, worker_accepts_job, process_delivery, handle_delivery, consume,
}

abbrev pub tag_of : Settlement → ℕ
tag_of (ack t) = t
tag_of (nack r t) = t

abbrev delivery_tags : Option Delivery → List ℕ → List ℕ
delivery_tags none ts = ts
delivery_tags (some d) ts = d.tag ∷ ts

-- the tags of the deliveries among the events
abbrev pub tags : List Event → List ℕ
tags [] = []
tags (e ∷ events) = delivery_tags e.delivery (tags events)

-- settled for good: acknowledged, or refused without a second delivery
abbrev pub is_final : Settlement → Bool
is_final (ack t) = true
is_final (nack requeue t) = not requeue

-- A delivery is settled once, unless its body raised; what counts is settled for good.
abbrev IsSettled : Delivery → Handled → Outcome ℕ → Type 0
IsSettled d h (ok k) =
    (map tag_of h.settled ≡ d.tag ∷ []) × (count is_final h.settled ≡ k) × (k ≤ 1)
IsSettled d h (err e) = h.settled ≡ []

-- Whoever stops at the limit has reached it.
abbrev pub IsFull : Cause → ℕ → ℕ → Type 0
IsFull limit_reached processed limit = processed ≡ limit
IsFull _ processed limit = Unit

-- How the loop stands when it is left: the deliveries are settled in the order in which they came, each
-- once, and those that are left are the ones behind; the count is that of the messages settled for
-- good, and at most the limit.
pub record IsSound (ts : List ℕ) (n limit : ℕ) (e : Ended) : Type 0 where
  pub accounts : map tag_of e.settled ++ tags e.rest ≡ ts
  pub counted : n + count is_final e.settled ≡ e.processed
  pub bounded : e.processed ≤ limit
  pub full : IsFull e.cause e.processed limit

after-IsSound :
    (ts : List ℕ) (n k limit t : ℕ) (settled : List Settlement) (e : Ended)
    → map tag_of settled ≡ t ∷ []
    → count is_final settled ≡ k
    → IsSound ts (n + k) limit e
    → IsSound (t ∷ ts) n limit (after settled e)
after-IsSound ts n k limit t settled e tag c s = record {
  accounts =
      ap (λ l. l ++ tags e.rest)
        (map-append tag_of settled e.settled ∙ ap (λ l. l ++ map tag_of e.settled) tag)
      ∙ ap (λ l. t ∷ l) s.accounts;
  counted = omega (arith, count-append is_final settled e.settled, c, s.counted);
  bounded = s.bounded;
  full = s.full;
}

finish-IsSound :
    (config : WorkerConfig) (n : ℕ) (e : Event) (events : List Event) (d : Delivery) (h : Handled)
    (o : Outcome ℕ) (go_on : ℕ → Db → Ended)
    → e.delivery ≡ some d
    → n < config.max_messages
    → IsSettled d h o
    → ((n' : ℕ) (db' : Db)
        → n' < config.max_messages
        → IsSound (tags events) n' config.max_messages (go_on n' db'))
    → IsSound (d.tag ∷ tags events) n config.max_messages (finish_turn config n e events h o go_on)
finish-IsSound config n e events d h (err x) go_on q lt s more = record {
  accounts = rw (s, q) refl;
  counted = rw s (omega arith);
  bounded = omega arith;
  full = tt;
}
finish-IsSound config n e events d h (ok k) go_on q lt s more =
    elim (Bool-cases (leb config.max_messages (n + k))) [
      | inl r ↦ rw r (record {
        accounts = ap (λ l. l ++ tags events) s.0;
        counted = ap (λ c. n + c) s.1;
        bounded = ground arith;
        full = ground arith;
      })
      | inr r ↦ rw r (
          after-IsSound (tags events) n k config.max_messages d.tag h.settled (go_on (n + k) h.db)
            s.0 s.1 (more (n + k) h.db (ground arith)))
    ]

settle-IsSettled :
    (d : Delivery) (x : Db × Outcome (Unit {0}))
    → IsSettled d (settle d.tag x) (settle d.tag x).outcome
settle-IsSettled d (db, ok u) = (refl, refl, omega arith)
settle-IsSettled d (db, err e) = (refl, refl, omega arith)

module _ (handlers : String → Option Handler) (scheduler_run : HeavyJobKind → Handler → Handler)
    (str_exc : Exc → Text) where
  handled-IsSettled :
      (worker : WorkerType) (d : Delivery) (db : Db)
      → IsSettled d
          (handle_delivery handlers scheduler_run str_exc worker d db)
          (handle_delivery handlers scheduler_run str_exc worker d db).outcome
  unfolding handle_delivery
  handled-IsSettled worker d db = elim (Outcome-cases (from_body d.body)) [
    | inr (e, h) ↦ rw (h, handle_delivery) refl
    | inl (job_id, h) ↦
        rw (h, handle_delivery)
          (elim (Bool-cases (worker_accepts_job worker job_id db.rows)) [
            | inl t ↦ rw t (
                unfold process_delivery in
                settle-IsSettled d (
                  process_queued_job_message handlers scheduler_run str_exc d.claimed_at
                    d.finished_at job_id db))
            | inr t ↦ rw t (refl, refl, omega arith)
          ])
  ]

  consume-IsSound :
      (config : WorkerConfig) (n : ℕ) (events : List Event) (db : Db)
      → n < config.max_messages
      → IsSound
          (tags events)
          n
          config.max_messages
          (consume handlers scheduler_run str_exc config n events db)
  unfolding consume
  consume-IsSound config n [] db lt = record {
    accounts = refl;
    counted = omega arith;
    bounded = omega arith;
    full = tt;
  }
  consume-IsSound config n (e ∷ events) db lt = elim (Bool-cases e.stop) [
    | inl s ↦
        rw s (record { accounts = refl; counted = omega arith; bounded = omega arith; full = tt })
    | inr s ↦ elim (Option-cases e.delivery) [
      | inl q ↦ rw (s, q, consume) (consume-IsSound config n events db lt)
      | inr (d, q) ↦
          rw (s, q, consume)
            (finish-IsSound config n e events d
              (handle_delivery handlers scheduler_run str_exc config.worker_type d db) _ _ q lt
              (handled-IsSettled config.worker_type d db)
              (λ n' db'. consume-IsSound config n' events db'))
    ]
  ]

  -- A worker that starts to consume, with a limit of at least one message, settles the deliveries in
  -- their order, each once, and leaves unsettled just those that come behind; it settles at most
  -- `max_messages` for good, and just that many when it stops at its limit.
  pub worker_settles_in_order :
      (config : WorkerConfig) (events : List Event) (db : Db)
      → 0 < config.max_messages
      → IsSound
          (tags events)
          0
          config.max_messages
          (consume handlers scheduler_run str_exc config 0 events db)
  worker_settles_in_order config events db h = consume-IsSound config 0 events db h
