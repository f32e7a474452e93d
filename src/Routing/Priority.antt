-- ===== src/Routing/Priority.antt =====
-- The priorities of the messages.
use getoffline.Base.{
  ◌≤◌, ◌≡◌, ◌↔◌, Bool, true, ◌||◌, Option, none, some, List, Dict, get, dict_or_empty, codes, str,
  arith,
}
use getoffline.Domain.{JobType, download_single, job_types, parse_str_enum}
use getoffline.Jobs.{Job}
use getoffline.Routing.{
  Message, as_bool, transcript_priority, priority_of_type, job_priority, message_with_payload,
  publish_job, max_queue_priority,
}

transcript-le : (d : Dict) → transcript_priority d ≤ 8
unfolding transcript_priority
transcript-le d = ground arith

priority_of_type-le : (d : Dict) (t : Option JobType) → priority_of_type d t ≤ max_queue_priority
priority_of_type-le d (some download_single) = ground arith
priority_of_type-le d (some JobType.generate_transcript) = omega (arith, transcript-le d)
priority_of_type-le d _ = ground arith

-- the message asks for a user's download, now or again
abbrev pub is_urgent : Message → Bool
is_urgent m =
    as_bool (get (dict_or_empty m.payload) "manual_enqueue")
    || as_bool (get (dict_or_empty m.payload) "redownload")

priority_of_type_top :
    (d : Dict) (t : Option JobType)
    → (priority_of_type d t ≡ 10) ↔ (
        (t ≡ some download_single)
        × (as_bool (get d "manual_enqueue") || as_bool (get d "redownload") ≡ true))
priority_of_type_top d (some download_single) = (λ h. ground arith, λ h. ground arith)
priority_of_type_top d (some JobType.generate_transcript) =
    (λ h. absurd (omega (arith, transcript-le d)), λ h. cc (h.0))
priority_of_type_top d _ = (λ h. ground arith, λ h. ground arith)

-- The top priority belongs to exactly the single downloads that a user enqueued by hand or asked for
-- again.
pub top_priority_iff :
    (m : Message)
    → (job_priority m ≡ max_queue_priority) ↔ (
        (parse_str_enum job_types (str (codes m.job_type)) ≡ some download_single)
        × (is_urgent m ≡ true))
unfolding job_priority
top_priority_iff m =
    priority_of_type_top (dict_or_empty m.payload)
      (parse_str_enum job_types (str (codes m.job_type)))

priority-message_with_payload :
    (rows : List Job) (m : Message) → (message_with_payload rows m).priority ≡ m.priority
unfolding message_with_payload
priority-message_with_payload rows m = ground arith

job_priority-le : (m : Message) → job_priority m ≤ max_queue_priority
unfolding job_priority
job_priority-le m = priority_of_type-le _ _

-- The published priority of a message that asks for none is one that the queue has, and just the
-- priority of its job, with the payload of the job's row where the message has no payload.
pub publish_priority :
    (rows : List Job) (m : Message)
    → m.priority ≡ none
    → ((publish_job rows m).priority ≤ max_queue_priority)
      × ((publish_job rows m).priority ≡ job_priority (message_with_payload rows m))
unfolding publish_job
publish_priority rows m e = (
  omega arith,
  ground
      (arith, priority-message_with_payload rows m, job_priority-le (message_with_payload rows m)),
)
