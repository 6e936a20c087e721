-- ===== src/Startup.antt =====
-- src-tauri/src/agent_runtime.rs, `AgentStartup`: the start of the coding agent's model server under a
-- time limit. Times are milliseconds. What the launcher answers to each call, with the time that it
-- takes, is a list; when the list is at its end the caller is still waiting. A poisoned lock is not
-- modelled, and the error of a launch is its text.
pub mod Record
pub mod Timeout
use open_mind_ai.Base.{
  ℕ, suc, ◌+◌, ◌-◌, ◌/◌, Bool, true, false, not, ◌&&◌, ◌||◌, Option, none, some, List, [], ◌∷◌,
  ◌++◌, leb, ◌==◌, if◌then◌else◌,
}
use open_mind_ai.Base.Text.{Text, text, text_eq, decimal}

pub data AgentPhase : Type 0 where
  disabled not_installed stopped starting loading_model ready_phase error_phase : AgentPhase

pub data Launch : Type 0 where
  launch_failed resident : Text → Launch
  launch_started launch_busy : Launch

-- The launcher's probe of a model that it is loading.
pub data ModelProbe : Type 0 where
  probe_ready probe_failed : Text → ModelProbe
  probe_loading : ModelProbe

pub record StartupRecord : Type 0 where
  pub model_key : Text
  pub phase : AgentPhase
  pub started_at : ℕ
  pub last_startup : Option ℕ
  pub error : Option Text

-- The state of `AgentStartup`, the clock, and the number of calls of the launcher's `abort`.
pub record Startup : Type 0 where
  pub entry : Option StartupRecord
  pub completed : ℕ
  pub last_use : Option ℕ
  pub now : ℕ
  pub aborts : ℕ

pub data StartResult : Type 0 where
  endpoint failed_start : Text → StartResult
  waiting : StartResult

abbrev pub poll_interval : ℕ
poll_interval = 500

abbrev is_starting : AgentPhase → Bool
is_starting starting = true
is_starting _ = false

abbrev is_loading : AgentPhase → Bool
is_loading loading_model = true
is_loading _ = false

abbrev pub is_error : AgentPhase → Bool
is_error error_phase = true
is_error _ = false

abbrev pub pass : ℕ → Startup → Startup
pass d s = record s { now = s.now + d }

abbrev previous_startup : Option StartupRecord → Option ℕ
previous_startup none = none
previous_startup (some r) = r.last_startup

abbrev new_attempt : Text → Startup → Startup
new_attempt key s = record s {
  entry = some (record {
    model_key = key;
    phase = starting;
    started_at = s.now;
    last_startup = previous_startup s.entry;
    error = none;
  });
}

abbrev in_progress : Text → Option StartupRecord → Bool
in_progress key none = false
in_progress key (some r) = text_eq r.model_key key && (is_starting r.phase || is_loading r.phase)

unfoldable pub mark_requested : Text → Startup → Startup
mark_requested key s = if in_progress key s.entry then s else new_attempt key s

abbrev pub begin_from : Text → Option StartupRecord → Startup → ℕ × Startup
begin_from key none s = (s.now, new_attempt key s)
begin_from key (some r) s =
    if text_eq r.model_key key && is_starting r.phase
    then (r.started_at, s)
    else (s.now, new_attempt key s)

-- The time at which the attempt began, and the state.
unfoldable pub begin : Text → Startup → ℕ × Startup
begin key s = begin_from key s.entry s

abbrev with_phase : Text → AgentPhase → Option StartupRecord → Option StartupRecord
with_phase key phase none = none
with_phase key phase (some r) =
    if text_eq r.model_key key then some (record r { phase = phase }) else some r

unfoldable pub set_phase : Text → AgentPhase → Startup → Startup
set_phase key phase s = record s { entry = with_phase key phase s.entry }

abbrev startup_time : AgentPhase → ℕ → Option ℕ
startup_time ready_phase elapsed = some elapsed
startup_time _ elapsed = none

unfoldable pub finish : Text → AgentPhase → ℕ → Option Text → Startup → Startup
finish key phase started error s = record s {
  entry = some (record {
    model_key = key;
    phase = phase;
    started_at = started;
    last_startup = startup_time phase (s.now - started);
    error = error;
  });
}

abbrev last_startup_of : Text → Option StartupRecord → Option ℕ
last_startup_of key none = none
last_startup_of key (some r) = if text_eq r.model_key key then r.last_startup else none

unfoldable pub finish_resident : Text → Startup → Startup
finish_resident key s = record s {
  entry = some (record {
    model_key = key;
    phase = ready_phase;
    started_at = s.now;
    last_startup = last_startup_of key s.entry;
    error = none;
  });
}

abbrev pub error_of : Text → Option StartupRecord → Option Text
error_of key none = none
error_of key (some r) = if text_eq r.model_key key && is_error r.phase then r.error else none

unfoldable pub failed_error : Text → Startup → Option Text
failed_error key s = error_of key s.entry

unfoldable pub fail_start : Text → ℕ → Text → Startup → StartResult × Startup
unfolding finish
fail_start key started reason s =
    (failed_start reason, finish key error_phase started (some reason) s)

abbrev busy_reason : Text
busy_reason = text "the shared runtime stayed busy loading another model"

abbrev timeout_reason : ℕ → Text
timeout_reason timeout =
    text "the coding agent model did not finish loading within "
    ++ (decimal (timeout / 1000) ++ text " seconds")

abbrev abort : Startup → Startup
abort s = record s { aborts = suc s.aborts }

-- The second loop of `start_locked`.
unfoldable pub probe_loop : Text → ℕ → ℕ → List (ℕ × ModelProbe) → Startup → StartResult × Startup
unfolding finish
probe_loop key started timeout [] s = (waiting, s)
probe_loop key started timeout ((d, answer) ∷ answers) s =
    let again = probe_loop key started timeout answers (pass poll_interval (pass d s)) in
    elim answer [
      | probe_ready url ↦ (endpoint url, finish key ready_phase started none (pass d s))
      | probe_failed reason ↦ fail_start key started reason (pass d s)
      | probe_loading ↦
          if leb timeout (s.now + d - started)
          then fail_start key started (timeout_reason timeout) (abort (pass d s))
          else again
    ]

-- The first loop.
unfoldable pub launch_loop :
    Text → ℕ → ℕ → List (ℕ × Launch) → List (ℕ × ModelProbe) → Startup → StartResult × Startup
launch_loop key started timeout [] probes s = (waiting, s)
launch_loop key started timeout ((d, answer) ∷ answers) probes s =
    let again = launch_loop key started timeout answers probes (pass poll_interval (pass d s)) in
    elim answer [
      | launch_failed error ↦ fail_start key started error (pass d s)
      | resident url ↦ (endpoint url, finish_resident key (pass d s))
      | launch_started ↦
          probe_loop key started timeout probes (set_phase key loading_model (pass d s))
      | launch_busy ↦
          if leb timeout (s.now + d - started)
          then fail_start key started busy_reason (pass d s)
          else again
    ]

unfoldable pub start_locked :
    Text → ℕ → List (ℕ × Launch) → List (ℕ × ModelProbe) → Startup → StartResult × Startup
start_locked key timeout launches probes s =
    let (started, s') = begin key s in launch_loop key started timeout launches probes s'

abbrev pub count_completed : StartResult × Startup → StartResult × Startup
count_completed (waiting, s) = (waiting, s)
count_completed (endpoint url, s) = (endpoint url, record s { completed = suc s.completed })
count_completed (failed_start e, s) = (failed_start e, record s { completed = suc s.completed })

-- `acquire` once it has the gate; `seen` is the count when the caller arrived.
unfoldable pub acquire :
    Text → ℕ → ℕ → List (ℕ × Launch) → List (ℕ × ModelProbe) → Startup → StartResult × Startup
acquire key timeout seen launches probes s =
    let used = record s { last_use = some s.now } in
    elim (if s.completed == seen then none else failed_error key used) [
      | some error ↦ (failed_start error, used)
      | none ↦ count_completed (start_locked key timeout launches probes used)
    ]
