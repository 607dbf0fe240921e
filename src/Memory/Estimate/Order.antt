-- ===== src/Memory/Estimate/Order.antt =====
-- Placements compared by what they put on the GPU, and the memory they need there.
use llama_web_ui.Prelude.{ℕ, zero, suc, ◌+◌, ◌≤◌, ◌≡◌, true, List, [], ◌∷◌, arith}
use llama_web_ui.Memory.Model.{Tensor, Model, Settings}
use llama_web_ui.Memory.Placement.{Patterns, Placement, layer_on_gpu, tensor_on_gpu}
use llama_web_ui.Memory.Weights.{Part, no_part, Placed, weights, place_tensors, largest_layer}
use llama_web_ui.Memory.Weights.Order.{IsLower, IsLower-largest, place_tensors-IsLower, no_entries}
use llama_web_ui.Memory.Layers.{Layer, layer_kinds}
use llama_web_ui.Memory.Cache.{kv_layers, kv_cache, recurrent_layers, recurrent_state, state_size}
use llama_web_ui.Memory.Estimate.{
  any_on_gpu, compute, gpu_bytes, build, layer_count_of, part_or_none,
}

-- What `q` puts on the GPU, `p` does too.
pub record IsBelow (patterns : Patterns) (layer_count : ℕ) (q p : Placement) : Type 0 where
  pub gpu : q.gpu ≡ p.gpu
  pub layers : (l : ℕ) → layer_on_gpu q l layer_count ≡ true → layer_on_gpu p l layer_count ≡ true
  pub tensors :
      (t : Tensor)
      → tensor_on_gpu patterns q t layer_count ≡ true
      → tensor_on_gpu patterns p t layer_count ≡ true

module _ {patterns : Patterns} {layer_count : ℕ} {q p : Placement}
    (h : IsBelow patterns layer_count q p) where
  kv_layers-le :
      (model : Model) (s : Settings) (index : ℕ) (layers : List Layer) (a b : Part)
      → a.gpu_bytes ≤ b.gpu_bytes
      → (kv_layers model s q layer_count index layers a).gpu_bytes
        ≤ (kv_layers model s p layer_count index layers b).gpu_bytes
  unfolding kv_layers
  kv_layers-le model s index [] a b le = le
  kv_layers-le model s index (layer ∷ layers) a b le =
      kv_layers-le model s (index + 1) layers _ _ (ground (arith, h.layers index))

  recurrent_layers-le :
      (size index : ℕ) (layers : List Layer) (a b : Part)
      → a.gpu_bytes ≤ b.gpu_bytes
      → (recurrent_layers size q layer_count index layers a).gpu_bytes
        ≤ (recurrent_layers size p layer_count index layers b).gpu_bytes
  unfolding recurrent_layers
  recurrent_layers-le size index [] a b le = le
  recurrent_layers-le size index (layer ∷ layers) a b le =
      recurrent_layers-le size (index + 1) layers _ _ (ground (arith, h.layers index))

  recurrent_state-le :
      (model : Model) (s : Settings) (layers : List Layer)
      → (part_or_none (recurrent_state model s q layers layer_count)).gpu_bytes
        ≤ (part_or_none (recurrent_state model s p layers layer_count)).gpu_bytes
  unfolding recurrent_state
  recurrent_state-le model s layers =
      ground
        (arith, recurrent_layers-le (state_size model s) 0 layers no_part no_part (omega arith))

  any_on_gpu-below :
      (index count : ℕ)
      → any_on_gpu q layer_count index count ≡ true
      → any_on_gpu p layer_count index count ≡ true
  unfolding any_on_gpu
  any_on_gpu-below index zero any_q = any_q
  any_on_gpu-below index (suc count) any_q =
      ground (arith, h.layers index, any_on_gpu-below (index + 1) count)

  -- The weights and the compute buffer, which holds a copy of the largest layer in system RAM.
  compute-le :
      (model : Model) (s : Settings) (v w : Placed)
      → IsLower v w
      → v.part.gpu_bytes + (compute model s q layer_count (largest_layer v.cpu_by_layer)).gpu_bytes
        ≤ w.part.gpu_bytes
          + (compute model s p layer_count (largest_layer w.cpu_by_layer)).gpu_bytes
  unfolding compute
  compute-le model s v w low = ground (
    arith,
    IsLower-largest low,
    low.gpu,
    h.gpu,
    h.layers layer_count,
    any_on_gpu-below 0 layer_count,
  )

  kv_cache-le :
      (model : Model) (s : Settings) (layers : List Layer)
      → (kv_cache model s q layers layer_count).gpu_bytes
        ≤ (kv_cache model s p layers layer_count).gpu_bytes
  unfolding kv_cache
  kv_cache-le model s layers =
      omega (arith, kv_layers-le model s 0 layers no_part no_part (omega arith))

abbrev start : Placed
start = record { part = no_part; cpu_by_layer = [] }

start-IsLower : IsLower start start
start-IsLower = record { gpu = omega arith; layers = λ l. omega arith; distinct = no_entries }

-- A placement that puts nothing on the GPU that another does not needs no more GPU memory, although
-- its compute buffer may hold a larger layer.
pub build-gpu_bytes :
    (patterns : Patterns) (model : Model) (s : Settings) (q p : Placement)
    → IsBelow patterns (layer_count_of model) q p
    → gpu_bytes (build patterns model s q) ≤ gpu_bytes (build patterns model s p)
unfolding build gpu_bytes weights
build-gpu_bytes patterns model s q p h =
    let layer_count = layer_count_of model in
    let layers = layer_kinds model 0 layer_count in
    let v = place_tensors patterns q layer_count model.tensors start in
    let w = place_tensors patterns p layer_count model.tensors start in
    omega (
      arith,
      compute-le h model s v w (
          place_tensors-IsLower patterns q p layer_count h.tensors model.tensors start start
            start-IsLower),
      kv_cache-le h model s layers,
      recurrent_state-le h model s layers,
    )
