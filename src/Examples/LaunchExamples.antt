-- ===== src/Examples/LaunchExamples.antt =====
-- src-tauri/src/launch_planner.rs on a machine with one adapter.
use mathlib.Core.List.{Memᴰ}
use open_mind_ai.Base.{
  ◌+◌, ◌*◌, ◌/◌, ◌≤◌, ◌<◌, ◌≡◌, refl, max, ◌⊎◌, false, some, [], ◌∷◌, mib, gib, arith,
}
use open_mind_ai.Base.Int.{pos}
use open_mind_ai.Base.Text.{text}
use open_mind_ai.Hardware.{
  cpu, cuda, vulkan, nvidia, GpuInfo, HardwareProfile, selected_gpu, dedicated_vram,
  choose_recommended_gpu,
}
use open_mind_ai.Performance.{auto}
use open_mind_ai.Launch.{
  ModelRecord, plan, plan_with_profile, choose_context_window, choose_backend, choose_gpu_layers,
  full_offload_headroom, full_offload_requirement, estimate_context_bytes,
  safe_dedicated_vram_budget, model_bytes_of,
}
use open_mind_ai.Launch.Context.{choose_context_window_bounds, choose_context_window_largest}
use open_mind_ai.Launch.Offload.{plan-full_offload-fits}

choose_context_window_bounds_example :
    let c = choose_context_window 131072 (4 * gib) (12 * gib) in
    (4096 ≤ c)
    × (c ≤ 32768)
    × (c ≤ max 4096 131072)
    × ((c ≡ 4096) ⊎ (c * 196608 + 4 * gib + 2 * gib ≤ 12 * gib))
choose_context_window_bounds_example = choose_context_window_bounds 131072 (4 * gib) (12 * gib)

choose_context_window_largest_example : 16384 ≤ choose_context_window 131072 (4 * gib) (12 * gib)
choose_context_window_largest_example =
    choose_context_window_largest 131072 (4 * gib) (12 * gib) 16384 (Memᴰ.tail (Memᴰ.head refl))
      (omega arith) (omega arith)

abbrev card : GpuInfo
card = record {
  id = text "gpu-0";
  name = text "Adapter";
  vendor = nvidia;
  dedicated_vram_bytes = some (24 * gib);
  is_software = false;
  available_backends = cpu ∷ cuda ∷ [];
  recommended_backend = cuda;
}

abbrev with_card : GpuInfo → HardwareProfile
with_card gpu = record {
  cpu_profile = record { physical_cores = some 8; logical_threads = 16 };
  memory = record { total_bytes = 32 * gib; available_bytes = 24 * gib };
  gpus = gpu ∷ [];
  recommended_inference_gpu = some (text "gpu-0");
}

abbrev small_model : ModelRecord
small_model = record {
  path = text "model.gguf";
  size_bytes = pos (4 * gib);
  context_length = some (pos 8192);
}

card_memory : dedicated_vram (selected_gpu (with_card card)) ≡ some (24 * gib)
unfolding selected_gpu choose_recommended_gpu
card_memory = refl

all_layers : (plan small_model (with_card card) 8080).config.gpu_layers ≡ 999
unfolding plan plan_with_profile auto selected_gpu choose_recommended_gpu choose_backend
    choose_gpu_layers full_offload_requirement estimate_context_bytes safe_dedicated_vram_budget
    choose_context_window
all_layers = refl

plan-full_offload-fits_example :
    model_bytes_of small_model
      + (plan small_model (with_card card) 8080).config.context_size * 196608
      + 768 * mib
      + full_offload_headroom (plan small_model (with_card card) 8080).config.backend
      + max (1536 * mib) (24 * gib / 5)
    < 24 * gib
plan-full_offload-fits_example =
    plan-full_offload-fits small_model (with_card card) 8080 (24 * gib) (omega arith) card_memory
      all_layers

-- CUDA is recommended, and only Vulkan is there.
abbrev vulkan_card : GpuInfo
vulkan_card = record card { available_backends = cpu ∷ vulkan ∷ [] }

chosen_card : selected_gpu (with_card vulkan_card) ≡ some vulkan_card
unfolding selected_gpu choose_recommended_gpu
chosen_card = refl
