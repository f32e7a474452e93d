-- ===== src/FfmpegLock/Tests.antt =====
-- The theorems on the lock of an FFmpeg target at small inputs.
use getoffline.Base.{
  ℕ, ◌≡◌, ◌≢◌, refl, arith, false, Option, none, some, List, [], ◌∷◌, Text, text_eq, ap,
}
use getoffline.FfmpegLock.{Step, try_lock, heartbeat, unlock, held, perform}
use getoffline.FfmpegLock.Exclusion.{lock_is_exclusive}

-- a time as one character, and back
abbrev to_text : ℕ → Text
to_text t = t ∷ []

abbrev from_text : Text → Option ℕ
from_text [] = none
from_text (t ∷ s) = some t

abbrev job_seven : Text
job_seven = 55 ∷ []

abbrev job_eight : Text
job_eight = 56 ∷ []

abbrev head_code : Text → ℕ
head_code [] = 0
head_code (c ∷ t) = c

seven_ne_eight : job_seven ≢ job_eight
seven_ne_eight e = omega (arith, ap head_code e)

lock_is_exclusive_example :
    perform to_text from_text (try_lock job_eight 300 20 21) (held to_text from_text job_seven 400)
    ≡ (held to_text from_text job_seven 400, false)
unfolding text_eq
lock_is_exclusive_example =
    lock_is_exclusive to_text from_text (λ t. refl) (λ t. refl) job_seven (refl, tt) refl job_eight
      300 20 21 400

abbrev steps_of_eight : List Step
steps_of_eight = try_lock job_eight 300 20 21 ∷ heartbeat job_eight 300 22 ∷ unlock job_eight ∷ []
