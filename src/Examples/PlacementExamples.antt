-- ===== src/Examples/PlacementExamples.antt =====
-- src-tauri/src/agent_runtime.rs for two models on one machine.
use open_mind_ai.Base.{
  ℕ, ◌+◌, ◌*◌, ◌/◌, ◌≤◌, ◌<◌, ◌≡◌, refl, ◌≢◌, ◌⊎◌, ◌↔◌, gib, u64_max, true, false, none, some,
  arith,
}
use open_mind_ai.Base.Text.{text}
use open_mind_ai.Hardware.{cuda}
use open_mind_ai.Launch.{ModelLaunchConfig, estimate_context_bytes}
use open_mind_ai.Placement.{
  automatic, only_shared, prefer_dedicated, dedicated, no_gpu, full, partial, Footprint, on_gpu,
  from_config, decide_placement, confirm_available_memory, plan_placement,
}
use open_mind_ai.Placement.Budget.{
  decide_placement-dedicated, decide_placement-automatic, plan_placement-memory,
}

abbrev core_model : Footprint
core_model = record { bytes = 6 * gib; gpu = full }

abbrev agent_model : Footprint
agent_model = record { bytes = 5 * gib; gpu = full }

own_runtime :
    (decide_placement automatic
      (some core_model)
      agent_model
      (32 * gib)
      (some (16 * gib))).placement
    ≡ dedicated
unfolding decide_placement
own_runtime = refl

decide_placement-dedicated_example :
    (core_model.bytes + agent_model.bytes ≤ 32 * gib / 5 * 3)
    × (automatic ≢ only_shared)
    × (((decide_placement automatic
            (some core_model)
            agent_model
            (32 * gib)
            (some (16 * gib))).agent_on_cpu
          ≡ true)
        ⊎ ((core_model.gpu ≢ partial)
            × (agent_model.gpu ≢ partial)
            × (((core_model.gpu ≡ no_gpu) × (agent_model.gpu ≡ no_gpu))
                ⊎ ((budget : ℕ) × (some (16 * gib) ≡ some budget)
                    × (on_gpu core_model + on_gpu agent_model ≤ budget)))))
decide_placement-dedicated_example =
    decide_placement-dedicated automatic core_model agent_model (32 * gib) (some (16 * gib))
      (omega arith) own_runtime

decide_placement-automatic_example :
    ((decide_placement automatic
        (some core_model)
        agent_model
        (32 * gib)
        (some (16 * gib))).placement
      ≡ dedicated)
    ↔ ((0 < 32 * gib)
        × (core_model.bytes + agent_model.bytes ≤ 32 * gib / 5 * 3)
        × (core_model.gpu ≢ partial)
        × (agent_model.gpu ≢ partial)
        × (((core_model.gpu ≡ no_gpu) × (agent_model.gpu ≡ no_gpu))
            ⊎ ((budget : ℕ) × (some (16 * gib) ≡ some budget)
                × ((on_gpu core_model + on_gpu agent_model ≤ budget) ⊎ (u64_max ≤ budget)))))
decide_placement-automatic_example =
    decide_placement-automatic core_model agent_model (32 * gib) (some (16 * gib)) (omega arith)

abbrev agent_config : ModelLaunchConfig
agent_config = record {
  model_path = text "agent.gguf";
  backend = cuda;
  device = none;
  gpu_layers = 999;
  context_size = 8192;
  threads = 8;
  batch_size = 512;
  ubatch_size = 256;
  flash_attention = true;
  mmap = true;
  mlock = false;
  parallelism = 1;
  host = text "127.0.0.1";
  port = 8081;
}

planned_dedicated :
    (plan_placement prefer_dedicated none
      (4 * gib)
      agent_config
      (32 * gib)
      (some (16 * gib))
      false).runtime.placement
    ≡ dedicated
unfolding plan_placement decide_placement confirm_available_memory from_config
    estimate_context_bytes
planned_dedicated = refl

plan_placement-memory_example :
    (a : ℕ) × (some (16 * gib) ≡ some a)
    × (((from_config (4 * gib) agent_config).bytes + gib ≤ a) ⊎ (u64_max ≤ a))
plan_placement-memory_example =
    plan_placement-memory prefer_dedicated none (4 * gib) agent_config (32 * gib) (some (16 * gib))
      false planned_dedicated refl
