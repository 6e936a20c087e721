-- ===== src/Hardware.antt =====
-- src-tauri/src/hardware.rs: the description of the machine, the classification of a graphics
-- adapter and the choice of the adapter for inference. The scan itself and the cached profile are
-- not modelled; a profile is a value.
use open_mind_ai.Base.{
  ℕ, Bool, true, false, Option, none, some, List, [], ◌∷◌, ◌++◌, ltb, ◌==◌, if◌then◌else◌, find,
}
use open_mind_ai.Base.Text.{Text, text_eq}

pub data BackendKind : Type 0 where
  cpu cuda vulkan sycl hip metal : BackendKind

abbrev pub backend_eq : BackendKind → BackendKind → Bool
backend_eq cpu cpu = true
backend_eq cuda cuda = true
backend_eq vulkan vulkan = true
backend_eq sycl sycl = true
backend_eq hip hip = true
backend_eq metal metal = true
backend_eq _ _ = false

pub data GpuVendor : Type 0 where
  nvidia amd intel microsoft_software unknown : GpuVendor

pub record GpuInfo : Type 0 where
  pub id : Text
  pub name : Text
  pub vendor : GpuVendor
  pub dedicated_vram_bytes : Option ℕ  -- u64
  pub is_software : Bool
  pub available_backends : List BackendKind
  pub recommended_backend : BackendKind

pub record CpuProfile : Type 0 where
  pub physical_cores : Option ℕ
  pub logical_threads : ℕ

pub record MemoryProfile : Type 0 where
  pub total_bytes : ℕ  -- u64
  pub available_bytes : ℕ  -- u64

pub record HardwareProfile : Type 0 where
  pub cpu_profile : CpuProfile
  pub memory : MemoryProfile
  pub gpus : List GpuInfo
  pub recommended_inference_gpu : Option Text

unfoldable pub classify_vendor : Option ℕ → Bool → GpuVendor
classify_vendor vendor_id true = microsoft_software
classify_vendor none false = unknown
classify_vendor (some v) false =
    if v == 0x10de
    then nvidia
    else if v == 0x1002
    then amd
    else if v == 0x1022
    then amd
    else if v == 0x8086
    then intel
    else if v == 0x1414
    then microsoft_software
    else unknown

abbrev vendor_backends : GpuVendor → List BackendKind
vendor_backends nvidia = cpu ∷ cuda ∷ []
vendor_backends amd = cpu ∷ hip ∷ []
vendor_backends intel = cpu ∷ sycl ∷ []
vendor_backends _ = cpu ∷ []

abbrev is_software_vendor : GpuVendor → Bool
is_software_vendor microsoft_software = true
is_software_vendor _ = false

unfoldable pub classify_backends : GpuVendor → Bool → List BackendKind
classify_backends vendor false = vendor_backends vendor
classify_backends vendor true =
    if is_software_vendor vendor
    then vendor_backends vendor
    else vendor_backends vendor ++ vulkan ∷ []

unfoldable pub recommended_backend : GpuVendor → Bool → BackendKind
recommended_backend nvidia has_vulkan = cuda
recommended_backend amd true = vulkan
recommended_backend amd false = hip
recommended_backend intel has_vulkan = sycl
recommended_backend unknown true = vulkan
recommended_backend unknown false = cpu
recommended_backend microsoft_software has_vulkan = cpu

abbrev pub vram_key : GpuInfo → ℕ
vram_key gpu = elim gpu.dedicated_vram_bytes [ some v ↦ v | none ↦ 0 ]

-- `max_by_key` over the adapters that pass the filter: the last of the largest.
best_gpu : Option GpuInfo → List GpuInfo → Option GpuInfo
best_gpu best [] = best
best_gpu best (gpu ∷ gpus) =
    best_gpu
      (if gpu.is_software then best else elim best [
        | none ↦ some gpu
        | some b ↦ if ltb (vram_key gpu) (vram_key b) then some b else some gpu
      ])
      gpus

unfoldable pub choose_recommended_gpu : List GpuInfo → Option GpuInfo
unfolding best_gpu
choose_recommended_gpu gpus = best_gpu none gpus

-- `recommended_inference_gpu.as_ref().and_then(|id| gpus.iter().find(...))`.
unfoldable pub selected_gpu : HardwareProfile → Option GpuInfo
selected_gpu hardware = elim hardware.recommended_inference_gpu [
  | none ↦ none
  | some wanted ↦ find (λ (gpu : GpuInfo). text_eq gpu.id wanted) hardware.gpus
]

abbrev pub dedicated_vram : Option GpuInfo → Option ℕ
dedicated_vram none = none
dedicated_vram (some gpu) = gpu.dedicated_vram_bytes
