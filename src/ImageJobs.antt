-- ===== src/ImageJobs.antt =====
-- src-tauri/src/image_jobs.rs: the jobs that generate images, each with a token by which it is stopped. A
-- token is a number; a guard is the caller's hold on a job, which ends the job when it is dropped. A
-- mutex whose holder has panicked is left out, and so is the slot of the renderer, a semaphore of the
-- library.
pub mod Isolation
use open_mind_ai.Base.{
  ℕ, zero, suc, Bool, true, false, ◌||◌, Option, none, some, List, [], ◌∷◌, if◌then◌else◌, ◌==◌,
  any,
}
use open_mind_ai.Base.Text.{Text, text_eq}

pub record ImageJobGuard : Type 0 where
  pub artifact_id : Text
  pub cancellation : ℕ

-- The registry's map from artifacts to tokens, the guards that are held, the cancelled tokens, and the
-- next token.
pub record ActiveImageJobs : Type 0 where
  pub jobs : List ImageJobGuard
  pub guards : List ImageJobGuard
  pub cancelled : List ℕ
  pub next : ℕ

abbrev pub no_jobs : ActiveImageJobs
no_jobs = record { jobs = []; guards = []; cancelled = []; next = 0 }

abbrev pub token_of : Text → List ImageJobGuard → Option ℕ
token_of a [] = none
token_of a (g ∷ gs) =
    let rest = token_of a gs in if text_eq g.artifact_id a then some g.cancellation else rest

abbrev pub contains_key : Text → List ImageJobGuard → Bool
contains_key a [] = false
contains_key a (g ∷ gs) = text_eq g.artifact_id a || contains_key a gs

abbrev pub remove : Text → List ImageJobGuard → List ImageJobGuard
remove a [] = []
remove a (g ∷ gs) = let rest = g ∷ remove a gs in if text_eq g.artifact_id a then gs else rest

abbrev pub is_cancelled : ActiveImageJobs → ℕ → Bool
is_cancelled s t = any (λ c. c == t) s.cancelled

-- The guard of the new job, or `none` for the error that the artifact has one.
unfoldable pub start : Text → ActiveImageJobs → Option ImageJobGuard × ActiveImageJobs
start a s =
    let guard : ImageJobGuard = record { artifact_id = a; cancellation = s.next } in
    if contains_key a s.jobs then (none, s) else (
      some guard,
      record s { jobs = guard ∷ s.jobs; guards = guard ∷ s.guards; next = suc s.next },
    )

abbrev pub cancel_token : Option ℕ → ActiveImageJobs → Bool × ActiveImageJobs
cancel_token none s = (false, s)
cancel_token (some t) s = (true, record s { cancelled = t ∷ s.cancelled })

unfoldable pub cancel : Text → ActiveImageJobs → Bool × ActiveImageJobs
cancel a s = cancel_token (token_of a s.jobs) s

-- The drop of the guard of an artifact, which calls `finish`.
unfoldable pub drop_guard : Text → ActiveImageJobs → ActiveImageJobs
drop_guard a s =
    if contains_key a s.guards
    then record s { jobs = remove a s.jobs; guards = remove a s.guards }
    else s

pub data Call : Type 0 where
  start_job cancel_job drop_job : Text → Call

unfoldable pub run_call : Call → ActiveImageJobs → ActiveImageJobs
run_call (start_job a) s = (start a s).1
run_call (cancel_job a) s = (cancel a s).1
run_call (drop_job a) s = drop_guard a s

unfoldable pub run_calls : List Call → ActiveImageJobs → ActiveImageJobs
unfolding run_call
run_calls [] s = s
run_calls (c ∷ calls) s = run_calls calls (run_call c s)
