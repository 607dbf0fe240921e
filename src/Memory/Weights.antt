-- ===== src/Memory/Weights.antt =====
-- `_weights` of services/memory_estimate.py, without the text that describes the result.
pub mod Conservation
pub mod Order
use llama_web_ui.Prelude.{
  ℕ, zero, suc, ◌+◌, ◌-◌, ◌*◌, ◌/◌, ◌%◌, String, Bool, true, false, Option, none, some, List, [],
  ◌∷◌, ◌&&◌, ◌||◌, ltb, leb, ◌==◌, not, length, get_elem?, or_else, min, max, is_some, any, all,
  same_text, if◌then◌else◌,
}
use llama_web_ui.Memory.Model.{
  Value, items, Tensor, Model, to_int, per_layer, max_value, pad, cache_type_bytes, Settings,
  vocabulary_of,
}
use llama_web_ui.Memory.Placement.{Patterns, Placement, layer_on_gpu, tensor_on_gpu}

-- The `gpu_bytes` and `cpu_bytes` of a `MemoryPart`.
pub record Part : Type 0 where
  pub gpu_bytes : ℕ
  pub cpu_bytes : ℕ

abbrev pub no_part : Part
no_part = record { gpu_bytes = 0; cpu_bytes = 0 }

-- Adds a size to the device that a test picks.
abbrev pub put : Bool → ℕ → Part → Part
put true size p = record p { gpu_bytes = p.gpu_bytes + size }
put false size p = record p { cpu_bytes = p.cpu_bytes + size }

pub record LayerBytes : Type 0 where
  pub layer : ℕ
  pub nbytes : ℕ

-- `cpu_by_layer[layer] = cpu_by_layer.get(layer, 0) + nbytes`.
unfoldable pub add_to : ℕ → ℕ → List LayerBytes → List LayerBytes
add_to layer nbytes [] = record { layer = layer; nbytes = nbytes } ∷ []
add_to layer nbytes (q ∷ qs) =
    let rest = add_to layer nbytes qs in
    if q.layer == layer then record q { nbytes = q.nbytes + nbytes } ∷ qs else q ∷ rest

unfoldable pub largest_layer : List LayerBytes → ℕ
largest_layer [] = 0
largest_layer (q ∷ qs) = max q.nbytes (largest_layer qs)

pub record Placed : Type 0 where
  pub part : Part
  pub cpu_by_layer : List LayerBytes

abbrev pub add_layer : Option ℕ → ℕ → List LayerBytes → List LayerBytes
add_layer none nbytes qs = qs
add_layer (some layer) nbytes qs = add_to layer nbytes qs

-- One turn of the loop of `_weights`.
unfoldable pub place_tensor : Patterns → Placement → ℕ → Tensor → Placed → Placed
place_tensor patterns p layer_count t w =
    let on_gpu = tensor_on_gpu patterns p t layer_count in
    record {
      part = put on_gpu t.nbytes w.part;
      cpu_by_layer =
          if on_gpu
          then w.cpu_by_layer
          else add_layer (patterns.tensor_layer t.name) t.nbytes w.cpu_by_layer;
    }

unfoldable pub place_tensors : Patterns → Placement → ℕ → List Tensor → Placed → Placed
place_tensors patterns p layer_count [] w = w
place_tensors patterns p layer_count (t ∷ ts) w =
    place_tensors patterns p layer_count ts (place_tensor patterns p layer_count t w)

-- `_weights`.
unfoldable pub weights : Patterns → Model → Placement → ℕ → Placed
weights patterns model p layer_count =
    place_tensors patterns p layer_count model.tensors
      (record { part = no_part; cpu_by_layer = [] })
