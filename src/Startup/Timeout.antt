-- ===== src/Startup/Timeout.antt =====
-- The time that a call of `AgentStartup::acquire` (src-tauri/src/agent_runtime.rs) takes.
use open_mind_ai.Base.{ℕ, ◌≤◌, ◌≢◌, Option, none, some, List, [], ◌∷◌}
use open_mind_ai.Base.Text.{Text}
use open_mind_ai.Startup.{Startup, StartResult, waiting, StartupRecord}

-- The call has an answer.
pub IsOver : StartResult × Startup → Type 0
IsOver (r, s) = r ≢ waiting

-- The time of the recorded attempt has come.
unfoldable pub IsPast : Option StartupRecord → ℕ → Type 0
IsPast none now = Unit {0}
IsPast (some r) now = r.started_at ≤ now

-- Every answer comes within `d` milliseconds.
abbrev pub AllWithin {ℓ} : {A : Type ℓ} → ℕ → List (ℕ × A) → Type 0
AllWithin d [] = Unit {0}
AllWithin d ((t, answer) ∷ answers) = (t ≤ d) × AllWithin d answers
