-- ===== src/Memory/Cache.antt =====
-- `_kv_cache` and `_recurrent_state` of services/memory_estimate.py. The cache is counted in 32nds of
-- a byte, where the source has floats, which are exact at these sizes.
use llama_web_ui.Prelude.{
  ℕ, ◌+◌, ◌-◌, ◌*◌, ◌/◌, Bool, Option, none, some, List, [], ◌∷◌, ◌&&◌, or_else, min, any,
  if◌then◌else◌,
}
use llama_web_ui.Memory.Model.{Model, to_int, per_layer, pad, cache_type_bytes, Settings}
use llama_web_ui.Memory.Placement.{Placement, layer_on_gpu}
use llama_web_ui.Memory.Weights.{Part, no_part, put}
use llama_web_ui.Memory.Layers.{Layer}

-- `_kv_bytes_per_token`, in 32nds of a byte.
unfoldable pub kv_bytes_per_token : Model → Settings → ℕ → ℕ
kv_bytes_per_token model s heads =
    let embedding = or_else (to_int (model.arch_value "embedding_length")) 0 in
    let head_count = or_else (per_layer (model.arch_value "attention.head_count") 0) 1 in
    let key = or_else (to_int (model.arch_value "attention.key_length")) (embedding / head_count) in
    let value = or_else (to_int (model.arch_value "attention.value_length")) key in
    heads * (key * cache_type_bytes s.cache_k + value * cache_type_bytes s.cache_v)

-- The tokens that a sliding layer keeps.
unfoldable pub swa_tokens : Model → Settings → ℕ
swa_tokens model s =
    let window = or_else (to_int (model.arch_value "attention.sliding_window")) 0 in
    if s.swa_full then pad s.context else min (pad s.context) (pad (window * s.slots + s.ubatch))

-- The size of one layer's cache.
unfoldable pub kv_size : Model → Settings → Layer → ℕ
kv_size model s layer =
    (if layer.sliding then swa_tokens model s else pad s.context)
    * kv_bytes_per_token model s layer.kv_heads

-- The loop of `_kv_cache`, from the layer at `index` on.
unfoldable pub kv_layers : Model → Settings → Placement → ℕ → ℕ → List Layer → Part → Part
kv_layers model s p layer_count index [] acc = acc
kv_layers model s p layer_count index (layer ∷ layers) acc =
    kv_layers model s p layer_count (index + 1) layers (
      if layer.attention
      then put (s.kv_offload && layer_on_gpu p index layer_count) (kv_size model s layer) acc
      else acc)

unfoldable pub window_bytes : Model → Settings → List Layer → ℕ
window_bytes model s [] = 0
window_bytes model s (layer ∷ layers) =
    (if layer.attention && layer.sliding then kv_size model s layer else 0)
    + window_bytes model s layers

abbrev pub whole_bytes : Part → Part
whole_bytes p = record { gpu_bytes = p.gpu_bytes / 32; cpu_bytes = p.cpu_bytes / 32 }

-- `_kv_cache`.
unfoldable pub kv_cache : Model → Settings → Placement → List Layer → ℕ → Part
kv_cache model s p layers layer_count =
    whole_bytes (kv_layers model s p layer_count 0 layers no_part)

abbrev pub is_recurrent : Layer → Bool
is_recurrent layer = layer.recurrent

-- The state of one recurrent layer, in bytes, for all slots.
unfoldable pub state_size : Model → Settings → ℕ
state_size model s =
    let embedding = or_else (to_int (model.arch_value "embedding_length")) 0 in
    let conv = or_else (to_int (model.arch_value "ssm.conv_kernel")) 4 in
    let inner = or_else (to_int (model.arch_value "ssm.inner_size")) (2 * embedding) in
    let state = or_else (to_int (model.arch_value "ssm.state_size")) 16 in
    let groups = or_else (to_int (model.arch_value "ssm.group_count")) 0 in
    let values : ℕ = elim (to_int (model.arch_value "wkv.head_size")) [
      | some head_size ↦
          or_else (to_int (model.arch_value "token_shift_count")) 2 * embedding
          + embedding * head_size
      | none ↦ (conv - 1) * (inner + 2 * groups * state) + state * inner
    ] in
    values * 4 * s.slots

-- The loop of `_recurrent_state`, from the layer at `index` on.
unfoldable pub recurrent_layers : ℕ → Placement → ℕ → ℕ → List Layer → Part → Part
recurrent_layers size p layer_count index [] acc = acc
recurrent_layers size p layer_count index (layer ∷ layers) acc =
    recurrent_layers size p layer_count (index + 1) layers
      (if layer.recurrent then put (layer_on_gpu p index layer_count) size acc else acc)

-- `_recurrent_state`.
unfoldable pub recurrent_state : Model → Settings → Placement → List Layer → ℕ → Option Part
recurrent_state model s p layers layer_count =
    if any is_recurrent layers
    then some (recurrent_layers (state_size model s) p layer_count 0 layers no_part)
    else none
