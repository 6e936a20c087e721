-- ===== src/Placement.antt =====
-- src-tauri/src/agent_runtime.rs, the placement of the agent's runtime: `RuntimeMode`, `Footprint`,
-- `decide_placement`, `confirm_available_memory` and the part of `plan_agent_runtime` that follows
-- the look-ups.
pub mod Budget
use open_mind_ai.Base.{
  ℕ, ◌+◌, ◌*◌, ◌/◌, mib, gib, Bool, true, false, not, ◌&&◌, ◌||◌, Option, none, some, ltb, leb,
  ◌==◌, if◌then◌else◌, add_u64,
}
use open_mind_ai.Base.Text.{Text, text, text_eq}
use open_mind_ai.Hardware.{cpu, backend_eq}
use open_mind_ai.Launch.{ModelLaunchConfig, LaunchPlan, estimate_context_bytes}

pub data RuntimeMode : Type 0 where
  automatic only_shared prefer_dedicated : RuntimeMode

unfoldable pub parse_mode : Text → RuntimeMode
parse_mode value =
    if text_eq value (text "shared")
    then only_shared
    else if text_eq value (text "dedicated")
    then prefer_dedicated
    else automatic

pub data Placement : Type 0 where
  shared dedicated : Placement

pub data GpuUse : Type 0 where
  no_gpu full partial : GpuUse

pub record Footprint : Type 0 where
  pub bytes : ℕ  -- u64
  pub gpu : GpuUse

-- `gpu_layers` is an i32 that the planner never makes negative.
unfoldable pub from_config : ℕ → ModelLaunchConfig → Footprint
from_config model_bytes config = record {
  bytes = add_u64 (add_u64 model_bytes (estimate_context_bytes config.context_size)) (768 * mib);
  gpu =
      if config.gpu_layers == 0 || backend_eq config.backend cpu
      then no_gpu
      else if leb 999 config.gpu_layers
      then full
      else partial;
}

pub record PlacementDecision : Type 0 where
  pub placement : Placement
  pub agent_on_cpu : Bool
  pub reason : Text

abbrev decision : Placement → Bool → Text → PlacementDecision
decision placement agent_on_cpu reason = record {
  placement = placement;
  agent_on_cpu = agent_on_cpu;
  reason = reason;
}

-- The bytes that a fully offloaded model takes from the adapter.
abbrev pub on_gpu : Footprint → ℕ
on_gpu footprint = elim footprint.gpu [ full ↦ footprint.bytes | _ ↦ 0 ]

abbrev within_vram : ℕ → Option ℕ → Bool
within_vram bytes none = false
within_vram bytes (some budget) = leb bytes budget

gpu_fits : GpuUse → GpuUse → Bool → Bool
gpu_fits partial g within = false
gpu_fits no_gpu no_gpu within = true
gpu_fits no_gpu full within = within
gpu_fits no_gpu partial within = false
gpu_fits full no_gpu within = within
gpu_fits full full within = within
gpu_fits full partial within = false

-- The `match mode` at the end, for a machine with Core installed.
choose : RuntimeMode → Bool → Bool → PlacementDecision
choose only_shared ram_ok gpu_ok =
    decision shared false (text "Shared runtime selected in Agent Setup.")
choose automatic ram_ok gpu_ok =
    if ram_ok && gpu_ok
    then decision dedicated false
        (text "Core and OpenAgent both fit in memory, so each keeps its own runtime.")
    else if not ram_ok
    then decision shared false (
        text
          "Not enough system memory to keep Core and OpenAgent loaded together, so they share one runtime.")
    else decision shared false
        (text "Core and OpenAgent do not both fit in GPU memory, so they share one runtime.")
choose prefer_dedicated ram_ok gpu_ok =
    if ram_ok && gpu_ok
    then decision dedicated false (text "Dedicated runtime selected in Agent Setup.")
    else if ram_ok
    then decision dedicated true (
        text
          "Dedicated runtime selected. GPU memory stays with Core, so OpenAgent runs on the CPU in its own runtime.")
    else decision shared false (
        text
          "Dedicated runtime selected, but there is not enough system memory for two runtimes, so the shared runtime is used.")

without_core : RuntimeMode → PlacementDecision
without_core only_shared = decision shared false (text "Shared runtime selected in Agent Setup.")
without_core prefer_dedicated =
    decision dedicated false
      (text "OpenMindAI Core is not installed, so the agent does not compete with it.")
without_core automatic =
    decision shared false
      (text "OpenMindAI Core is not installed, so the agent does not compete with it.")

unfoldable pub decide_placement :
    RuntimeMode → Option Footprint → Footprint → ℕ → Option ℕ → PlacementDecision
unfolding gpu_fits choose without_core
decide_placement mode none agent total_ram_bytes vram_budget_bytes = without_core mode
decide_placement mode (some core) agent total_ram_bytes vram_budget_bytes =
    choose mode
      (ltb 0 total_ram_bytes && leb (add_u64 core.bytes agent.bytes) (total_ram_bytes / 5 * 3))
      (gpu_fits core.gpu agent.gpu
        (within_vram (add_u64 (on_gpu core) (on_gpu agent)) vram_budget_bytes))

abbrev is_dedicated : Placement → Bool
is_dedicated dedicated = true
is_dedicated shared = false

abbrev enough : ℕ → Option ℕ → Bool
enough needed none = false
enough needed (some available) = leb needed available

unfoldable pub confirm_available_memory :
    PlacementDecision → ℕ → Option ℕ → Bool → PlacementDecision
confirm_available_memory d agent_bytes available_ram_bytes agent_already_resident =
    if not (is_dedicated d.placement) || agent_already_resident
    then d
    else if enough (add_u64 agent_bytes gib) available_ram_bytes
    then d
    else decision shared false (
        text
          "A dedicated runtime would fit this computer, but not enough memory is free right now, so the shared runtime is used.")

pub record AgentRuntimePlan : Type 0 where
  pub config : ModelLaunchConfig
  pub runtime : PlacementDecision

abbrev pub core_footprint : Option LaunchPlan → Option Footprint
core_footprint none = none
core_footprint (some p) = some (from_config p.estimated_model_bytes p.config)

abbrev pub core_vram_budget : Option LaunchPlan → Option ℕ
core_vram_budget none = none
core_vram_budget (some p) = p.dedicated_vram_budget_bytes

-- The end of `plan_agent_runtime`: what follows once the settings, the models, the hardware and the
-- state of the agent's runtime are read.
unfoldable pub plan_placement :
    RuntimeMode → Option LaunchPlan → ℕ → ModelLaunchConfig → ℕ → Option ℕ → Bool → AgentRuntimePlan
plan_placement mode core_plan agent_model_bytes config total_ram available_ram agent_resident =
    let agent = from_config agent_model_bytes config in
    let d =
      confirm_available_memory
        (decide_placement mode (core_footprint core_plan) agent total_ram
          (core_vram_budget core_plan))
        agent.bytes available_ram agent_resident in
    record {
      config = if d.agent_on_cpu then record config { gpu_layers = 0; backend = cpu } else config;
      runtime = d;
    }
