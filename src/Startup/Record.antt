-- ===== src/Startup/Record.antt =====
-- The record agrees with what the callers are told.
use open_mind_ai.Base.{
  ℕ, ◌+◌, ◌-◌, ◌≡◌, refl, Bool, true, false, Option, none, some, List, [], ◌∷◌, leb, if◌then◌else◌,
  ◌==◌, Bool-cases, Option-cases, inl, inr, arith,
}
use open_mind_ai.Base.Text.{Text, text_eq, text_eq→eq}
use open_mind_ai.Startup.{
  Launch, launch_failed, resident, launch_started, launch_busy, ModelProbe, probe_ready,
  probe_failed, probe_loading, AgentPhase, ready_phase, error_phase, loading_model, StartupRecord,
  Startup, StartResult, endpoint, failed_start, waiting, fail_start, probe_loop, launch_loop,
  start_locked, acquire, begin, set_phase, finish, finish_resident, pass, failed_error, error_of,
  count_completed, is_error,
}

-- The record of the key with a phase and an error.
pub IsShown : Text → AgentPhase → Option Text → Startup → Type 0
IsShown key phase error s =
    (r : StartupRecord) × (s.entry ≡ some r)
    × (r.model_key ≡ key)
    × (r.phase ≡ phase)
    × (r.error ≡ error)

pub IsRecorded : Text → StartResult × Startup → Type 0
IsRecorded key (endpoint url, s) = IsShown key ready_phase none s
IsRecorded key (failed_start error, s) = IsShown key error_phase (some error) s
IsRecorded key (waiting, s) = Unit {0}

fail_start-IsRecorded :
    (key : Text) (started : ℕ) (reason : Text) (s : Startup)
    → IsRecorded key (fail_start key started reason s)
unfolding fail_start finish IsRecorded IsShown
fail_start-IsRecorded key started reason s = (_, refl, refl, refl, refl)

probe_loop-IsRecorded :
    (key : Text) (started timeout : ℕ) (answers : List (ℕ × ModelProbe)) (s : Startup)
    → IsRecorded key (probe_loop key started timeout answers s)
unfolding probe_loop finish IsRecorded IsShown
probe_loop-IsRecorded key started timeout [] s = tt
probe_loop-IsRecorded key started timeout ((d, probe_ready url) ∷ answers) s =
    (_, refl, refl, refl, refl)
probe_loop-IsRecorded key started timeout ((d, probe_failed reason) ∷ answers) s =
    fail_start-IsRecorded key started reason (pass d s)
probe_loop-IsRecorded key started timeout ((d, probe_loading) ∷ answers) s =
    elim (Bool-cases (leb timeout (s.now + d - started))) [
      | inl late ↦ rw late (fail_start-IsRecorded key started _ _)
      | inr early ↦
          rw early (probe_loop-IsRecorded key started timeout answers (pass 500 (pass d s)))
    ]

launch_loop-IsRecorded :
    (key : Text) (started timeout : ℕ) (answers : List (ℕ × Launch))
    (probes : List (ℕ × ModelProbe)) (s : Startup)
    → IsRecorded key (launch_loop key started timeout answers probes s)
unfolding launch_loop finish_resident IsRecorded IsShown
launch_loop-IsRecorded key started timeout [] probes s = tt
launch_loop-IsRecorded key started timeout ((d, launch_failed error) ∷ answers) probes s =
    fail_start-IsRecorded key started error (pass d s)
launch_loop-IsRecorded key started timeout ((d, resident url) ∷ answers) probes s =
    (_, refl, refl, refl, refl)
launch_loop-IsRecorded key started timeout ((d, launch_started) ∷ answers) probes s =
    probe_loop-IsRecorded key started timeout probes (set_phase key loading_model (pass d s))
launch_loop-IsRecorded key started timeout ((d, launch_busy) ∷ answers) probes s =
    elim (Bool-cases (leb timeout (s.now + d - started))) [
      | inl late ↦ rw late (fail_start-IsRecorded key started _ _)
      | inr early ↦
          rw early (launch_loop-IsRecorded key started timeout answers probes (pass 500 (pass d s)))
    ]

completed-IsRecorded :
    (key : Text) (r : StartResult × Startup) → IsRecorded key r → IsRecorded key (count_completed r)
unfolding IsRecorded IsShown
completed-IsRecorded key (endpoint url, s) h = h
completed-IsRecorded key (failed_start f, s) h = h
completed-IsRecorded key (waiting, s) h = tt

is_error→eq : (p : AgentPhase) → is_error p ≡ true → p ≡ error_phase
is_error→eq p h = ground arith

error_of-shown :
    (key : Text) (r : StartupRecord) (error : Text)
    → error_of key (some r) ≡ some error
    → (text_eq r.model_key key ≡ true) × (is_error r.phase ≡ true) × (r.error ≡ some error)
error_of-shown key r error h = (ground arith, ground arith, ground arith)

failed_error-IsShown :
    (key : Text) (s : Startup) (entry : Option StartupRecord) (error : Text)
    → s.entry ≡ entry
    → error_of key entry ≡ some error
    → IsShown key error_phase (some error) s
unfolding IsShown
failed_error-IsShown key s none error e h = absurd (cc h)
failed_error-IsShown key s (some r) error e h =
    let (k, p, f) = error_of-shown key r error h in
    (r, e, text_eq→eq r.model_key key k, is_error→eq r.phase p, f)

shared-IsRecorded :
    (key : Text) (other : Bool) (used : Startup) (r : StartResult × Startup)
    → IsRecorded key r
    → IsRecorded key
        (elim (if other then none else failed_error key used) as (λ _. StartResult × Startup) [
          | some error ↦ (failed_start error, used)
          | none ↦ r
        ])
unfolding failed_error IsRecorded
shared-IsRecorded key true used r h = h
shared-IsRecorded key false used r h = elim (Option-cases (error_of key used.entry)) [
  | inl e ↦ rw e h
  | inr (error, e) ↦ rw e (failed_error-IsShown key used used.entry error refl e)
]

-- What `acquire` tells its caller is what the record then shows for this model: after an endpoint the
-- phase is `Ready` with no error, and after a failure, shared with another caller or not, the phase is
-- `Error` with the text of this failure.
pub acquire-IsRecorded :
    (key : Text) (timeout seen : ℕ) (launches : List (ℕ × Launch)) (probes : List (ℕ × ModelProbe))
    (s : Startup)
    → IsRecorded key (acquire key timeout seen launches probes s)
unfolding acquire start_locked
acquire-IsRecorded key timeout seen launches probes s =
    let used : Startup = record s { last_use = some s.now } in
    shared-IsRecorded key (s.completed == seen) used _ (
      completed-IsRecorded key (start_locked key timeout launches probes used) (
        let (started, s') = begin key used in
        launch_loop-IsRecorded key started timeout launches probes s'))
