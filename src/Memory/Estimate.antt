-- ===== src/Memory/Estimate.antt =====
-- `_compute` and `_ModelEstimate.build` of services/memory_estimate.py, without the texts
-- that describe the parts.
pub mod Order
use llama_web_ui.Prelude.{
  ℕ, zero, suc, ◌+◌, ◌-◌, ◌*◌, ◌/◌, ◌%◌, String, Bool, true, false, Option, none, some, List, [],
  ◌∷◌, ◌&&◌, ◌||◌, ltb, leb, ◌==◌, not, length, get_elem?, or_else, min, max, is_some, any, all,
  same_text, if◌then◌else◌,
}
use llama_web_ui.Memory.Model.{
  Value, items, Tensor, Model, to_int, per_layer, max_value, pad, cache_type_bytes, Settings,
  vocabulary_of,
}
use llama_web_ui.Memory.Placement.{Patterns, Placement, layer_on_gpu, tensor_on_gpu}
use llama_web_ui.Memory.Weights.{Part, no_part, weights, largest_layer}
use llama_web_ui.Memory.Layers.{layer_kinds}
use llama_web_ui.Memory.Cache.{kv_cache, window_bytes, recurrent_state}

-- `any` and `all` of the layers from `index` on, `count` of them, are on the GPU.
unfoldable pub any_on_gpu : Placement → ℕ → ℕ → ℕ → Bool
any_on_gpu p layer_count index zero = false
any_on_gpu p layer_count index (suc count) =
    layer_on_gpu p index layer_count || any_on_gpu p layer_count (index + 1) count

unfoldable pub all_on_gpu : Placement → ℕ → ℕ → ℕ → Bool
all_on_gpu p layer_count index zero = true
all_on_gpu p layer_count index (suc count) =
    layer_on_gpu p index layer_count && all_on_gpu p layer_count (index + 1) count

abbrev pub feed_forward : Model → ℕ
feed_forward model = max (max_value (model.arch_value "feed_forward_length")) (
    or_else (to_int (model.arch_value "expert_feed_forward_length")) 0
    * or_else (to_int (model.arch_value "expert_used_count")) 0)

-- `_compute`.
unfoldable pub compute : Model → Settings → Placement → ℕ → ℕ → Part
compute model s p layer_count largest_cpu_layer =
    let embedding = or_else (to_int (model.arch_value "embedding_length")) 0 in
    let heads = or_else (per_layer (model.arch_value "attention.head_count") 0) 1 in
    let tokens = s.ubatch in
    let logits = vocabulary_of model.vocabulary model.tensors * tokens * 4 in
    let activations = tokens * (4 * embedding + 3 * feed_forward model) * 4 in
    let attention = if s.flash_attention then 0 else pad s.context * tokens * heads * 4 in
    let output_on_gpu = layer_on_gpu p layer_count layer_count in
    let any_gpu_layer = p.gpu && any_on_gpu p layer_count 0 layer_count in
    let all_gpu = p.gpu && all_on_gpu p layer_count 0 layer_count in
    let copied = if not (largest_cpu_layer == 0) && leb 32 tokens then largest_cpu_layer else 0 in
    let scratch = tokens * embedding * 4 * 2 in
    record {
      gpu_bytes =
          if any_gpu_layer
          then max activations (if output_on_gpu then logits else 0) + attention + copied
          else 0;
      cpu_bytes =
          if not all_gpu || not output_on_gpu
          then scratch
            + max (if all_gpu then 0 else activations) (if output_on_gpu then 0 else logits)
            + (if any_gpu_layer then 0 else attention)
          else scratch;
    }

-- `_ModelEstimate`, without its notes.
pub record ModelEstimate : Type 0 where
  pub weights_part : Part
  pub kv : Part
  pub recurrent : Option Part
  pub compute_part : Part
  pub checkpoint_bytes : ℕ

abbrev pub part_or_none : Option Part → Part
part_or_none none = no_part
part_or_none (some p) = p

-- `_ModelEstimate.gpu_bytes`.
unfoldable pub gpu_bytes : ModelEstimate → ℕ
gpu_bytes e =
    e.weights_part.gpu_bytes
    + e.kv.gpu_bytes
    + (part_or_none e.recurrent).gpu_bytes
    + e.compute_part.gpu_bytes

abbrev pub layer_count_of : Model → ℕ
layer_count_of model = or_else (to_int (model.arch_value "block_count")) 0

-- `_ModelEstimate.build`.
unfoldable pub build : Patterns → Model → Settings → Placement → ModelEstimate
build patterns model s p =
    let layer_count = layer_count_of model in
    let w = weights patterns model p layer_count in
    let layers = layer_kinds model 0 layer_count in
    let recurrent = recurrent_state model s p layers layer_count in
    let state = part_or_none recurrent in
    record {
      weights_part = w.part;
      kv = kv_cache model s p layers layer_count;
      recurrent = recurrent;
      compute_part = compute model s p layer_count (largest_layer w.cpu_by_layer);
      checkpoint_bytes =
          (state.gpu_bytes + state.cpu_bytes + window_bytes model s layers / 32) / s.slots;
    }
