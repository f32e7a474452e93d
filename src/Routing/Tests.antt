-- ===== src/Routing/Tests.antt =====
-- The theorems on the queues and the priorities at small inputs.
use getoffline.Base.{◌≡◌, ◌↔◌, true, none, some, [], ◌∷◌, codes, str}
use getoffline.Domain.{download_single, job_types, parse_str_enum}
use getoffline.Routing.{Message, job_priority, max_queue_priority}
use getoffline.Routing.Priority.{is_urgent, top_priority_iff}

abbrev urgent_message : Message
urgent_message = record {
  job_id = 3;
  job_type = "download_single";
  profile_id = "home";
  attempt = 1;
  payload = some (("manual_enqueue", str (codes "1")) ∷ []);
  priority = none;
}

top_priority_iff_example : (job_priority urgent_message ≡ max_queue_priority) ↔ (
    (parse_str_enum job_types (str (codes "download_single")) ≡ some download_single)
    × (is_urgent urgent_message ≡ true))
top_priority_iff_example = top_priority_iff urgent_message
