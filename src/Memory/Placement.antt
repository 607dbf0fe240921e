-- ===== src/Memory/Placement.antt =====
-- Where llama.cpp puts each tensor: `_Placement` of services/memory_estimate.py. The regular
-- expressions are the parameter `Patterns`.
use text.Mathlib.Text.{starts_with}
use llama_web_ui.Prelude.{
  ℕ, ◌-◌, String, Bool, true, false, Option, none, some, List, [], ◌∷◌, ◌&&◌, ltb, leb, not,
  contains, if◌then◌else◌,
}
use llama_web_ui.Memory.Model.{Tensor}

pub record Patterns : Type 0 where
  pub tensor_layer : String → Option ℕ  -- `_tensor_layer`, a match of `_LAYER_TENSOR`
  pub is_expert : String → Bool  -- `_EXPERT_TENSOR.search(name)`
  pub search : String → String → Bool  -- `re.search(pattern, name)`

-- Which layers' experts are forced to system RAM.
pub data CpuMoe : Type 0 where
  unset all_layers : CpuMoe
  first_layers : ℕ → CpuMoe

pub record Override : Type 0 where
  pub pattern : String
  pub on_gpu : Bool

pub record Placement : Type 0 where
  pub gpu : Bool
  pub gpu_layers : Option ℕ
  pub cpu_moe_layers : CpuMoe
  pub overrides : List Override
  pub fitted_to_ram : List String

-- `_Placement.layer_on_gpu`.
unfoldable pub layer_on_gpu : Placement → ℕ → ℕ → Bool
layer_on_gpu p layer layer_count = if not p.gpu then false else elim p.gpu_layers [
  | none ↦ true
  | some n ↦ if leb layer_count layer then ltb layer_count n else leb (layer_count - n) layer
]

abbrev pub is_forced : CpuMoe → ℕ → Bool
is_forced unset layer = false
is_forced all_layers layer = true
is_forced (first_layers n) layer = ltb layer n

-- The first override whose pattern is found in the name.
unfoldable pub override_for : Patterns → String → List Override → Option Bool
override_for patterns name [] = none
override_for patterns name (o ∷ os) =
    if patterns.search o.pattern name then some o.on_gpu else override_for patterns name os

-- `tensor_on_gpu`, for a tensor that no override and no fit has placed.
unfoldable pub unforced_on_gpu : Patterns → Placement → String → ℕ → Bool
unforced_on_gpu patterns p name layer_count = elim (patterns.tensor_layer name) [
  | some layer ↦
      if is_forced p.cpu_moe_layers layer && patterns.is_expert name
      then false
      else layer_on_gpu p layer layer_count
  | none ↦ if starts_with name "output" then layer_on_gpu p layer_count layer_count else false
]

-- `_Placement.tensor_on_gpu`.
unfoldable pub tensor_on_gpu : Patterns → Placement → Tensor → ℕ → Bool
tensor_on_gpu patterns p t layer_count =
    if not p.gpu then false else elim (override_for patterns t.name p.overrides) [
      | some on_gpu ↦ on_gpu
      | none ↦
          if contains p.fitted_to_ram t.name
          then false
          else unforced_on_gpu patterns p t.name layer_count
    ]
