-- ===== src/Launch/Offload.antt =====
-- What an offload to the graphics adapter promises.
use mathlib.Core.Option
use open_mind_ai.Base.{
  ℕ, ◌+◌, ◌*◌, ◌/◌, ◌≤◌, ◌<◌, ◌≡◌, max, u64_max, ◌↔◌, ◌⊎◌, true, false, any, Option, none, some,
  mib, arith,
}
use open_mind_ai.Hardware.{
  BackendKind, cpu, vulkan, GpuInfo, HardwareProfile, selected_gpu, dedicated_vram, backend_eq,
}
use open_mind_ai.Launch.{
  ModelRecord, plan, plan_with_profile, choose_backend, choose_gpu_layers, full_offload_headroom,
  estimate_context_bytes, safe_dedicated_vram_budget, model_bytes_of,
}

layers-cpu :
    (backend : BackendKind) (vram : Option ℕ) (m c : ℕ)
    → (choose_gpu_layers backend (Option.map safe_dedicated_vram_budget vram) m c ≡ 0)
      ↔ ((backend ≡ cpu) ⊎ (vram ≡ none))
unfolding choose_gpu_layers
layers-cpu backend none m c = (λ h. ground arith, λ h. ground arith)
layers-cpu backend (some v) m c = (λ h. ground arith, λ h. ground arith)

layers-full :
    (backend : BackendKind) (v m c : ℕ)
    → v ≤ u64_max
    → choose_gpu_layers backend (some (safe_dedicated_vram_budget v)) m c ≡ 999
    → m + c + 768 * mib + full_offload_headroom backend + max (1536 * mib) (v / 5) < v
unfolding choose_gpu_layers safe_dedicated_vram_budget
layers-full backend v m c small h = ground arith

-- No layer goes to an adapter exactly when the plan uses the CPU backend or the selected adapter has
-- no known dedicated memory.
plan-gpu_layers-zero :
    (model : ModelRecord) (hardware : HardwareProfile) (port : ℕ)
    → ((plan model hardware port).config.gpu_layers ≡ 0) ↔ (
        ((plan model hardware port).config.backend ≡ cpu)
        ⊎ (dedicated_vram (selected_gpu hardware) ≡ none))
unfolding plan plan_with_profile
plan-gpu_layers-zero model hardware port =
    layers-cpu (choose_backend (selected_gpu hardware)) (dedicated_vram (selected_gpu hardware))
      (model_bytes_of model) (plan model hardware port).estimated_context_bytes

-- When all layers are offloaded and the selected adapter has a known dedicated memory (a u64), it
-- holds the weights, the context, 768 MiB of overhead and the headroom of the backend (2 GiB for
-- Vulkan and SYCL, 1 GiB for CUDA, HIP and Metal), and beyond these more than the larger of 1.5 GiB
-- and a fifth of it stays free.
pub plan-full_offload-fits :
    (model : ModelRecord) (hardware : HardwareProfile) (port v : ℕ)
    → v ≤ u64_max
    → dedicated_vram (selected_gpu hardware) ≡ some v
    → (plan model hardware port).config.gpu_layers ≡ 999
    → model_bytes_of model
        + (plan model hardware port).config.context_size * 196608
        + 768 * mib
        + full_offload_headroom (plan model hardware port).config.backend
        + max (1536 * mib) (v / 5)
      < v
unfolding plan plan_with_profile estimate_context_bytes
plan-full_offload-fits model hardware port v small e h =
    layers-full (choose_backend (selected_gpu hardware)) v (model_bytes_of model)
      (plan model hardware port).estimated_context_bytes small (rw e at h)

choose_backend-vulkan :
    (gpu : GpuInfo)
    → any (backend_eq gpu.recommended_backend) gpu.available_backends ≡ false
    → any (backend_eq vulkan) gpu.available_backends ≡ true
    → choose_backend (some gpu) ≡ vulkan
unfolding choose_backend
choose_backend-vulkan gpu missing present = ground arith
