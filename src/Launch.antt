-- ===== src/Launch.antt =====
-- src-tauri/src/launch_planner.rs: the launch configuration of a model server.
pub mod Context
pub mod Offload
use mathlib.Core.Option
use open_mind_ai.Base.{
  mib, gib, ℕ, ◌+◌, ◌-◌, ◌*◌, ◌/◌, min, max, Bool, true, false, not, ◌&&◌, Option, none, some, List,
  [], ◌∷◌, ◌++◌, ltb, leb, if◌then◌else◌, add_u64, any,
}
use open_mind_ai.Base.Int.{ℤ, pos_part}
use open_mind_ai.Base.Text.{Text, text, decimal}
use open_mind_ai.Hardware.{
  BackendKind, cpu, cuda, vulkan, sycl, hip, metal, backend_eq, GpuInfo, HardwareProfile,
  selected_gpu, dedicated_vram,
}
use open_mind_ai.Performance.{PerformanceProfile, auto}

-- What the planner reads of a `ModelRecord`; both numbers are i64.
pub record ModelRecord : Type 0 where
  pub path : Text
  pub size_bytes : ℤ
  pub context_length : Option ℤ

pub record ModelLaunchConfig : Type 0 where
  pub model_path : Text
  pub backend : BackendKind
  pub device : Option Text
  pub gpu_layers : ℕ
  pub context_size : ℕ
  pub threads : ℕ
  pub batch_size : ℕ
  pub ubatch_size : ℕ
  pub flash_attention : Bool
  pub mmap : Bool
  pub mlock : Bool
  pub parallelism : ℕ
  pub host : Text
  pub port : ℕ

pub record LaunchPlan : Type 0 where
  pub config : ModelLaunchConfig
  pub estimated_model_bytes : ℕ
  pub estimated_context_bytes : ℕ
  pub dedicated_vram_budget_bytes : Option ℕ
  pub notes : List Text

unfoldable pub safe_dedicated_vram_budget : ℕ → ℕ
safe_dedicated_vram_budget total = total - max (1536 * mib) (total / 5)

-- A `u32` times 192 KiB stays below 2 ^ 64.
unfoldable pub estimate_context_bytes : ℕ → ℕ
estimate_context_bytes context_size = context_size * (192 * 1024)

abbrev clamp : ℕ → ℕ → ℕ → ℕ
clamp lo hi x = if ltb x lo then lo else if ltb hi x then hi else x

first_candidate : ℕ → ℕ → List ℕ → ℕ
first_candidate supported context_budget [] = 4096
first_candidate supported context_budget (c ∷ cs) =
    let rest = first_candidate supported context_budget cs in
    if leb c supported && leb (estimate_context_bytes c) context_budget then c else rest

abbrev pub candidates : List ℕ
candidates = 32768 ∷ 16384 ∷ 8192 ∷ 4096 ∷ []

unfoldable pub choose_context_window : ℕ → ℕ → ℕ → ℕ
unfolding first_candidate estimate_context_bytes
choose_context_window model_limit model_bytes available_ram =
    first_candidate (clamp 4096 32768 model_limit) (available_ram - model_bytes - 2 * gib)
      candidates

-- The backend for the selected adapter.
unfoldable pub choose_backend : Option GpuInfo → BackendKind
choose_backend none = cpu
choose_backend (some gpu) =
    if not (backend_eq gpu.recommended_backend cpu)
      && any (backend_eq gpu.recommended_backend) gpu.available_backends
    then gpu.recommended_backend
    else if any (backend_eq vulkan) gpu.available_backends
    then vulkan
    else cpu

abbrev pub full_offload_headroom : BackendKind → ℕ
full_offload_headroom vulkan = 2 * gib
full_offload_headroom sycl = 2 * gib
full_offload_headroom cpu = 0
full_offload_headroom _ = gib

unfoldable pub full_offload_requirement : BackendKind → ℕ → ℕ → ℕ
full_offload_requirement backend model_bytes context_bytes =
    add_u64 (add_u64 (add_u64 model_bytes context_bytes) (768 * mib))
      (full_offload_headroom backend)

accelerator_layers : ℕ → ℕ → ℕ → ℕ
accelerator_layers full model_bytes budget =
    if ltb full budget then 999 else if ltb (model_bytes / 2) budget then 32 else 16

display_layers : ℕ → ℕ → ℕ → ℕ → ℕ
display_layers full model_bytes context_bytes budget =
    if ltb full budget
    then 999
    else if ltb (add_u64 (add_u64 model_bytes (context_bytes / 2)) (512 * mib)) budget
    then 32
    else if ltb (model_bytes / 2) budget
    then 24
    else 12

unfoldable pub choose_gpu_layers : BackendKind → Option ℕ → ℕ → ℕ → ℕ
unfolding accelerator_layers display_layers full_offload_requirement
choose_gpu_layers cpu budget model_bytes context_bytes = 0
choose_gpu_layers backend none model_bytes context_bytes = 0
choose_gpu_layers vulkan (some b) m c = display_layers (full_offload_requirement vulkan m c) m c b
choose_gpu_layers sycl (some b) m c = display_layers (full_offload_requirement sycl m c) m c b
choose_gpu_layers cuda (some b) m c = accelerator_layers (full_offload_requirement cuda m c) m b
choose_gpu_layers hip (some b) m c = accelerator_layers (full_offload_requirement hip m c) m b
choose_gpu_layers metal (some b) m c = accelerator_layers (full_offload_requirement metal m c) m b

abbrev pub flash_attention_note : Text
flash_attention_note =
    text "Flash attention disabled until llama.cpp/Vulkan capability probe proves support."

backend_notes : BackendKind → List Text
backend_notes vulkan = flash_attention_note ∷ []
backend_notes cuda = text "NVIDIA CUDA backend selected for local model launch." ∷ []
backend_notes _ = []

plan_notes : BackendKind → ℕ → List Text
plan_notes backend context_size =
    (text "Context window selected at "
      ++ (decimal context_size ++ text " tokens from model capabilities and available memory."))
    ∷ text "Dedicated VRAM only is used for GPU placement; shared memory is not counted."
    ∷ text
        "Full GPU offload requires extra VRAM headroom so the desktop compositor stays responsive."
    ∷ backend_notes backend

abbrev pub model_bytes_of : ModelRecord → ℕ
model_bytes_of model = pos_part model.size_bytes

-- `context_length.unwrap_or(8_192).max(4_096) as u64`.
abbrev pub context_limit : ModelRecord → ℕ
context_limit model = max (elim model.context_length [ some c ↦ pos_part c | none ↦ 8192 ]) 4096

unfoldable pub plan_with_profile :
    ModelRecord → HardwareProfile → PerformanceProfile → ℕ → LaunchPlan
unfolding plan_notes backend_notes
plan_with_profile model hardware profile port =
    let gpu = selected_gpu hardware in
    let backend = choose_backend gpu in
    let budget = Option.map safe_dedicated_vram_budget (dedicated_vram gpu) in
    let model_bytes = model_bytes_of model in
    let context_size =
      choose_context_window (context_limit model) model_bytes hardware.memory.available_bytes in
    let context_bytes = estimate_context_bytes context_size in
    record {
      config = record {
        model_path = model.path;
        backend = backend;
        device = Option.map (λ (g : GpuInfo). g.name) gpu;
        gpu_layers = choose_gpu_layers backend budget model_bytes context_bytes;
        context_size = context_size;
        threads = profile.cpu_threads;
        batch_size = 512;
        ubatch_size = 256;
        flash_attention = profile.flash_attention;
        mmap = profile.mmap;
        mlock = false;
        parallelism = 1;
        host = text "127.0.0.1";
        port = port;
      };
      estimated_model_bytes = model_bytes;
      estimated_context_bytes = context_bytes;
      dedicated_vram_budget_bytes = budget;
      notes = plan_notes backend context_size;
    }

-- `ModelLaunchPlanner::plan`, given the profile that `HardwareProfiler::for_inference` returns.
unfoldable pub plan : ModelRecord → HardwareProfile → ℕ → LaunchPlan
plan model inference_hardware port =
    plan_with_profile model inference_hardware (auto inference_hardware) port
