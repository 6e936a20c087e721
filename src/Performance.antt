-- ===== src/Performance.antt =====
-- src-tauri/src/performance.rs: the performance profile of a machine.
use mathlib.Core.Option
use open_mind_ai.Base.{ℕ, ◌-◌, ◌*◌, ◌/◌, min, max, gib, Bool, true, false, Option, none, some}
use open_mind_ai.Hardware.{BackendKind, cpu, vulkan, HardwareProfile, selected_gpu, dedicated_vram}

pub record PerformanceProfile : Type 0 where
  pub profile_backend : BackendKind
  pub cpu_threads : ℕ
  pub system_memory_budget_bytes : ℕ
  pub vram_budget_bytes : Option ℕ
  pub mmap : Bool
  pub flash_attention : Bool

reserve_for_system : ℕ → ℕ
reserve_for_system total_memory = max (4 * gib) (total_memory / 4)

reserve_for_vram : ℕ → ℕ
reserve_for_vram total_vram = total_vram - max gib (total_vram / 8)

abbrev pub uses_flash_attention : BackendKind → Bool
uses_flash_attention cpu = false
uses_flash_attention vulkan = false
uses_flash_attention _ = true

-- `PerformanceProfileManager::auto`.
unfoldable pub auto : HardwareProfile → PerformanceProfile
unfolding reserve_for_system reserve_for_vram
auto hardware =
    let recommended = elim (selected_gpu hardware) as (λ _. BackendKind) [
      | some gpu ↦ gpu.recommended_backend
      | none ↦ cpu
    ] in
    let total_memory = hardware.memory.total_bytes in
    let logical = hardware.cpu_profile.logical_threads in
    record {
      profile_backend = recommended;
      cpu_threads =
          max
            (min
              (elim hardware.cpu_profile.physical_cores [ some n ↦ n | none ↦ max (logical - 2) 1 ])
              (max logical 1))
            1;
      system_memory_budget_bytes = total_memory - reserve_for_system total_memory;
      vram_budget_bytes = Option.map reserve_for_vram (dedicated_vram (selected_gpu hardware));
      mmap = true;
      flash_attention = uses_flash_attention recommended;
    }
