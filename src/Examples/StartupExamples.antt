-- ===== src/Examples/StartupExamples.antt =====
-- src-tauri/src/agent_runtime.rs: a start that waits for another model and then runs into its limit.
use open_mind_ai.Base.{ℕ, ◌≡◌, refl, none, List, [], ◌∷◌}
use open_mind_ai.Base.Text.{text}
use open_mind_ai.Startup.{
  Launch, launch_busy, launch_started, ModelProbe, probe_loading, probe_ready, Startup, endpoint,
  acquire, start_locked, launch_loop, probe_loop, begin, fail_start, finish, set_phase,
}
use open_mind_ai.Startup.Record.{IsRecorded, acquire-IsRecorded}

abbrev fresh_startup : Startup
fresh_startup = record { entry = none; completed = 0; last_use = none; now = 1000; aborts = 0 }

abbrev launches : List (ℕ × Launch)
launches = (20, launch_busy) ∷ (20, launch_started) ∷ (20, launch_busy) ∷ []

abbrev probes : List (ℕ × ModelProbe)
probes = (20, probe_loading) ∷ (20, probe_loading) ∷ (20, probe_loading) ∷ []

-- The start gives up and aborts the load once.
gave_up : (acquire (text "qwen") 1000 0 launches probes fresh_startup).1.aborts ≡ 1
unfolding acquire start_locked launch_loop probe_loop begin fail_start finish set_phase
gave_up = refl

loaded :
    (acquire
      (text "qwen")
      1000
      0
      launches
      ((20, probe_ready (text "http://127.0.0.1")) ∷ [])
      fresh_startup).0
    ≡ endpoint (text "http://127.0.0.1")
unfolding acquire start_locked launch_loop probe_loop begin fail_start finish set_phase
loaded = refl

acquire-IsRecorded_example :
    IsRecorded (text "qwen") (acquire (text "qwen") 1000 0 launches probes fresh_startup)
acquire-IsRecorded_example = acquire-IsRecorded (text "qwen") 1000 0 launches probes fresh_startup
