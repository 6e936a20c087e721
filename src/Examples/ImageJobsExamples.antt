-- ===== src/Examples/ImageJobsExamples.antt =====
-- src-tauri/src/image_jobs.rs: two jobs, as in the code's own test.
use mathlib.Core.List.{Memᴰ}
use open_mind_ai.Base.{◌≡◌, refl, false, ◌||◌, List, [], ◌∷◌}
use open_mind_ai.Base.Text.{text, text_eq}
use open_mind_ai.ImageJobs.{
  ImageJobGuard, no_jobs, contains_key, is_cancelled, start, cancel, Call, start_job, run_call,
  run_calls,
}
use open_mind_ai.ImageJobs.Isolation.{cancel-own}

abbrev two_jobs : List Call
two_jobs = start_job (text "image-a") ∷ start_job (text "image-b") ∷ start_job (text "image-a") ∷ []

abbrev second : ImageJobGuard
second = record { artifact_id = text "image-b"; cancellation = 1 }

second_untouched : is_cancelled (cancel (text "image-a") (run_calls two_jobs no_jobs)).1 1 ≡ false
unfolding cancel run_calls run_call start
second_untouched = refl

is_held : Memᴰ second (run_calls two_jobs no_jobs).guards
unfolding run_calls run_call start
is_held = Memᴰ.head refl

cancel-own_example :
    ((cancel (text "image-b") (run_calls two_jobs no_jobs)).0
      ≡ contains_key (text "image-b") (run_calls two_jobs no_jobs).guards)
    × (is_cancelled (cancel (text "image-b") (run_calls two_jobs no_jobs)).1 1 ≡ (
        text_eq (text "image-b") (text "image-b") || is_cancelled (run_calls two_jobs no_jobs) 1))
cancel-own_example = cancel-own two_jobs (text "image-b") second is_held
