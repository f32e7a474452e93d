-- ===== src/Slots/Tests.antt =====
-- The theorems on the CPU slots at small inputs.
use getoffline.Base.{
  ℕ, ◌≡◌, ◌≢◌, ◌≤◌, refl, arith, String, Bool, true, false, none, some, List, [], ◌∷◌, lookup,
  count, ◌++◌, text_eq, lower, strip, str_or_empty, Outcome, ok, inl, inr, eq_iff,
}
use getoffline.Domain.{CpuSlotStatus, waiting, parse_str_enum}
use getoffline.Slots.{Call, Times, Request, Reason, is_ffmpeg}
use getoffline.Slots.Memory
use getoffline.Slots.Memory.{Requests, runs, purge, call}
use getoffline.Slots.Database
use getoffline.Slots.View.{view}
use getoffline.Slots.Invariant.{run_calls, running-le-capacity}
use getoffline.Slots.Admission.{acquire_at, transcript_yields_to_ffmpeg, free_slot_is_taken}
use getoffline.Slots.Leases.{lease_is_kept}
use getoffline.Slots.Refinement.{
  run_rows, row_replies, replies, database_refines_memory, running_rows-le-capacity,
}
use getoffline.Slots.Client.{Round, poll, poll_rounds, acquire_slot, run, holds}
use getoffline.Slots.Client.Laws.{
  memory, IsSettled, IsOver, acquire_slot_settles, ffmpeg_wait_ends, run_releases,
}

abbrev at : ℕ → Times
at t = record { purge_at = t; write_at = t }

abbrev slot_calls : List (Times × Call)
slot_calls =
    (at 1, Call.wait_started "transcript" "a" 30)
    ∷ (at 2, Call.acquire "transcript" "a" 30)
    ∷ (at 3, Call.acquire "ffmpeg" "b" 30)
    ∷ (at 4, Call.release "a")
    ∷ (at 5, Call.acquire "ffmpeg" "b" 30)
    ∷ []

running-le-capacity_example : count runs (run_calls 1 slot_calls []) ≤ 1
running-le-capacity_example = running-le-capacity 1 slot_calls

abbrev ffmpeg_waits : Request
ffmpeg_waits = record { job_type = "ffmpeg"; status = waiting; expires_at = 50 }

abbrev ffmpeg_runs : Request
ffmpeg_runs = record { job_type = "ffmpeg"; status = CpuSlotStatus.running; expires_at = 50 }

abbrev one_waits : Requests
one_waits = ("w", ffmpeg_waits) ∷ []

abbrev one_runs : Requests
one_runs = ("w", ffmpeg_runs) ∷ []

w_ne_t : ◌≢◌ {A = String} "w" "t"
w_ne_t e = ground (arith, eq_iff "w" "t", e)

ffmpeg_is : is_ffmpeg "ffmpeg" ≡ true
unfolding is_ffmpeg parse_str_enum text_eq lower strip str_or_empty
ffmpeg_is = refl

transcript_is : is_ffmpeg "transcript" ≡ false
unfolding is_ffmpeg parse_str_enum text_eq lower strip str_or_empty
transcript_is = refl

found_waiting : lookup "w" one_waits ≡ some ffmpeg_waits
unfolding lookup
found_waiting = refl

found_running : lookup "w" one_runs ≡ some ffmpeg_runs
unfolding lookup
found_running = refl

transcript_yields_to_ffmpeg_example :
    ((acquire_at 1 (at 10) "transcript" "t" 30 one_waits).1.granted ≡ some false)
    × ((acquire_at 1 (at 10) "transcript" "t" 30 one_waits).0 ≡ purge 10 one_waits)
transcript_yields_to_ffmpeg_example =
    transcript_yields_to_ffmpeg 1 (at 10) "transcript" "t" 30 one_waits "w" ffmpeg_waits (tt, tt)
      found_waiting w_ne_t refl ffmpeg_is (omega arith) transcript_is

granted_ffmpeg : (acquire_at 1 (at 10) "ffmpeg" "t" 30 one_waits).1.granted ≡ some true
unfolding call is_ffmpeg parse_str_enum text_eq lower strip str_or_empty
granted_ffmpeg = refl

refused_transcript : (acquire_at 1 (at 10) "transcript" "t" 30 one_waits).1.granted ≡ some false
unfolding call is_ffmpeg parse_str_enum text_eq lower strip str_or_empty
refused_transcript = refl

free_slot : count runs (purge 10 one_waits) ≡ 0
unfolding purge
free_slot = refl

free_slot_is_taken_example :
    (k : String) × (r : Request) × (k ≢ "t")
    × (lookup k (purge 10 one_waits) ≡ some r)
    × (Memory.waits_ffmpeg (k, r) ≡ true)
    × ((acquire_at 1 (at 10) r.job_type k 30 one_waits).1.granted ≡ some true)
free_slot_is_taken_example =
    free_slot_is_taken 1 (at 10) "transcript" "t" 30 one_waits (tt, tt) (omega (arith, free_slot))
      refused_transcript

-- two heartbeats of the holder, the second after the time at which the lease first expired
abbrev lease_calls : List (Times × Call)
lease_calls =
    (at 12, Call.acquire "transcript" "t" 30)
    ∷ (at 40, Call.heartbeat "w" 30)
    ∷ (at 60, Call.heartbeat "w" 30)
    ∷ (at 80, Call.snapshot)
    ∷ []

t_ne_w : ◌≢◌ {A = String} "t" "w"
t_ne_w e = ground (arith, eq_iff "t" "w", e)

lease_is_kept_example :
    lookup "w" (run_calls 1 lease_calls one_runs) ≡ some (record ffmpeg_runs { expires_at = 90 })
lease_is_kept_example =
    lease_is_kept 1 "w" ffmpeg_runs lease_calls one_runs (tt, tt) found_running refl
      (omega arith, t_ne_w, (omega arith, tt, (omega arith, tt, (omega arith, tt, tt))))

database_refines_memory_example :
    (view (run_rows 1 slot_calls []) ≡ run_calls 1 slot_calls [])
    × (row_replies 1 slot_calls [] ≡ replies 1 slot_calls [])
database_refines_memory_example =
    database_refines_memory 1 slot_calls [] (inr refl, (inr refl, (inl refl, (tt, (inl refl, tt)))))
      (record { distinct = tt; heavy = tt })

running_rows-le-capacity_example :
    count getoffline.Slots.Database.runs (run_rows 1 slot_calls []) ≤ 1
running_rows-le-capacity_example =
    running_rows-le-capacity 1 slot_calls (inr refl, (inr refl, (inl refl, (tt, (inl refl, tt)))))

abbrev rounds : List (Round Requests)
rounds = poll (λ d. d) (at 10) (λ d. d) (at 11) ∷ []

acquire_slot_settles_example :
    IsSettled "t" (acquire_slot (memory 1) "transcript" "t" 30 (at 9) rounds one_waits)
acquire_slot_settles_example =
    acquire_slot_settles 1 "transcript" "t" 30 (at 9) rounds one_waits ((λ d h. h), (λ d h. h), tt)
      (tt, tt)

abbrev free_round : List (Round Requests)
free_round = poll (λ d. []) (at 10) (λ d. d) (at 11) ∷ []

ffmpeg_wait_ends_example :
    IsOver (poll_rounds (memory 1) "ffmpeg" "f" 30 (rounds ++ free_round) one_runs)
ffmpeg_wait_ends_example =
    ffmpeg_wait_ends 1 "ffmpeg" "f" 30 rounds [] (λ d. []) (λ d. d) (at 10) (at 11) one_runs
      ffmpeg_is (λ s. omega arith) (λ s. omega arith)

abbrev work : Requests → Requests × Outcome Bool
work d = (d, ok true)

abbrev held_request : Request
held_request = record { job_type = "ffmpeg"; status = CpuSlotStatus.running; expires_at = 41 }

held_now :
    acquire_slot (memory 1) "ffmpeg" "f" 30 (at 9) free_round [] ≡ holds (("f", held_request) ∷ [])
unfolding acquire_slot call is_ffmpeg parse_str_enum text_eq lower strip str_or_empty
held_now = refl

run_releases_example :
    (lookup "f" (run (memory 1) "ffmpeg" "f" 30 (at 9) free_round work (at 20) []).0 ≡ none)
    × ((run (memory 1) "ffmpeg" "f" 30 (at 9) free_round work (at 20) []).1 ≡ some (ok true))
run_releases_example =
    run_releases 1 "ffmpeg" "f" 30 (at 9) free_round work (at 20) [] (("f", held_request) ∷ [])
      held_now (tt, tt)
