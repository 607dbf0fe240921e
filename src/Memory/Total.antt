-- ===== src/Memory/Total.antt =====
-- `estimate_memory` of services/memory_estimate.py: the parts of a whole estimate, and what grows
-- while the server runs. The options are decoded: a negative number of layers is `none`, a negative
-- `--n-cpu-moe` is `all_layers`.
pub mod Bounds
use llama_web_ui.Prelude.{
  ℕ, ◌+◌, ◌*◌, ◌/◌, Bool, true, false, Option, none, some, List, [], ◌∷◌, ◌++◌, ◌&&◌, ◌==◌, not,
  ltb, or_else, sum_of, is_some, if◌then◌else◌,
}
use llama_web_ui.Memory.Model.{Model, CacheType, Settings}
use llama_web_ui.Memory.Placement.{Patterns, CpuMoe, all_layers, Override, Placement}
use llama_web_ui.Memory.Weights.{Part}
use llama_web_ui.Memory.Estimate.{ModelEstimate, build, layer_count_of}
use llama_web_ui.Memory.Fit.{Budget, fit_budget, placement_for}

abbrev pub mib : ℕ
mib = 1_048_576

-- `_Settings.for_draft`.
unfoldable pub for_draft : CacheType → CacheType → Settings → Settings
for_draft cache_k cache_v s = record s { cache_k = cache_k; cache_v = cache_v }

-- `_Placement.main`, and `_Placement.draft` without overrides.
unfoldable pub placement_from : Bool → Option ℕ → Bool → CpuMoe → List Override → Placement
placement_from gpu n_gpu_layers cpu_moe n_cpu_moe overrides = record {
  gpu = gpu;
  gpu_layers = n_gpu_layers;
  cpu_moe_layers = if cpu_moe then all_layers else n_cpu_moe;
  overrides = overrides;
  fitted_to_ram = [];
}

-- A draft model with what is set for it.
pub record Draft : Type 0 where
  pub model : Model
  pub cache_k : CacheType
  pub cache_v : CacheType
  pub n_gpu_layers : Option ℕ
  pub cpu_moe : Bool
  pub n_cpu_moe : CpuMoe

-- `--cache-ram`: a size in MiB, or no limit.
pub data CacheRam : Type 0 where
  by_default unlimited : CacheRam
  up_to : ℕ → CacheRam

pub record Options : Type 0 where
  pub fit_on : Bool
  pub auto_layers : Bool
  pub fit_target : Option ℕ
  pub n_gpu_layers : Option ℕ
  pub cpu_moe : Bool
  pub n_cpu_moe : CpuMoe
  pub overrides : List Override
  pub draft : Option Draft
  pub projector_bytes : Option ℕ
  pub mmproj_offload_off : Bool
  pub ctx_checkpoints : Option ℕ
  pub cache_ram : CacheRam

-- The free and the total memory of the GPUs, as the runtime reported them.
pub record Devices : Type 0 where
  pub free_bytes : Option ℕ
  pub capacity_bytes : Option ℕ

abbrev pub gpu_of : Part → ℕ
gpu_of p = p.gpu_bytes

abbrev pub cpu_of : Part → ℕ
cpu_of p = p.cpu_bytes

abbrev pub some_part : Option Part → List Part
some_part none = []
some_part (some p) = p ∷ []

-- The parts of one model.
unfoldable pub model_parts : ModelEstimate → List Part
model_parts e = e.weights_part ∷ e.kv ∷ (some_part e.recurrent ++ (e.compute_part ∷ []))

-- `_ModelEstimate.as_draft`.
unfoldable pub as_draft : ModelEstimate → Part
as_draft e = record {
  gpu_bytes = sum_of gpu_of (model_parts e);
  cpu_bytes = sum_of cpu_of (model_parts e);
}

unfoldable pub draft_part : Patterns → Settings → Option Draft → List Part
draft_part patterns s none = []
draft_part patterns s (some d) =
    if is_some (d.model.arch_value "block_count")
    then as_draft (
        build patterns d.model (for_draft d.cache_k d.cache_v s)
          (placement_from s.gpu d.n_gpu_layers d.cpu_moe d.n_cpu_moe []))
      ∷ []
    else []

unfoldable pub projector_part : Bool → Option ℕ → List Part
projector_part offload none = []
projector_part offload (some bytes) =
    (if offload
      then record { gpu_bytes = bytes; cpu_bytes = 0 }
      else record { gpu_bytes = 0; cpu_bytes = bytes })
    ∷ []

-- `extra`.
unfoldable pub extra_parts : Patterns → Settings → Options → List Part
extra_parts patterns s o =
    draft_part patterns s o.draft
    ++ projector_part (s.gpu && not o.mmproj_offload_off) o.projector_bytes

-- `_growth`.
unfoldable pub checkpoint_growth : Option ℕ → ℕ → ℕ → List Part
checkpoint_growth ctx_checkpoints slots checkpoint_bytes =
    let checkpoints = elim ctx_checkpoints as (λ _. ℕ) [ none ↦ 32 | some n ↦ n ] in
    if ltb 0 checkpoints && not (checkpoint_bytes == 0)
    then record { gpu_bytes = 0; cpu_bytes = checkpoints * slots * checkpoint_bytes } ∷ []
    else []

unfoldable pub cache_growth : CacheRam → List Part
cache_growth by_default = record { gpu_bytes = 0; cpu_bytes = 8192 * mib } ∷ []
cache_growth unlimited = record { gpu_bytes = 0; cpu_bytes = 0 } ∷ []
cache_growth (up_to n) = if n == 0 then [] else record { gpu_bytes = 0; cpu_bytes = n * mib } ∷ []

pub record MemoryEstimate : Type 0 where
  pub parts : List Part
  pub growth : List Part

-- `MemoryEstimate.gpu_bytes`.
abbrev pub total_gpu_bytes : MemoryEstimate → ℕ
total_gpu_bytes e = sum_of gpu_of e.parts

-- `_fit_budget`, with the margin in MiB.
abbrev pub budget_of : Devices → Options → Option Budget
budget_of d o = fit_budget d.free_bytes d.capacity_bytes (or_else o.fit_target 1024 * mib)

-- `estimate_memory`, without its notes.
unfoldable pub estimate_memory : Patterns → Model → Settings → Devices → Options → MemoryEstimate
estimate_memory patterns model s d o =
    let extra = extra_parts patterns s o in
    let placement = placement_from s.gpu o.n_gpu_layers o.cpu_moe o.n_cpu_moe o.overrides in
    let main = build patterns model s (
      placement_for patterns model s o.fit_on o.auto_layers (budget_of d o) (sum_of gpu_of extra)
        placement) in
    record {
      parts = model_parts main ++ extra;
      growth =
          checkpoint_growth o.ctx_checkpoints s.slots main.checkpoint_bytes
          ++ cache_growth o.cache_ram;
    }
