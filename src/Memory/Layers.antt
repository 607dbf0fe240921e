-- ===== src/Memory/Layers.antt =====
-- `_layer_kinds` of services/memory_estimate.py.
use llama_web_ui.Prelude.{
  ℕ, zero, suc, ◌+◌, ◌-◌, ◌%◌, String, Bool, true, false, Option, none, some, List, [], ◌∷◌, ◌&&◌,
  ◌||◌, ltb, ◌==◌, not, length, get_elem?, or_else, is_some, same_text, if◌then◌else◌,
}
use llama_web_ui.Memory.Model.{Value, items, Model, to_int, per_layer}

-- `_Layer`.
pub record Layer : Type 0 where
  pub attention : Bool
  pub recurrent : Bool
  pub sliding : Bool
  pub kv_heads : ℕ

abbrev pub is_items : Option Value → Bool
is_items (some (items _)) = true
is_items _ = false

-- `bool(pattern[index])`, where the index is in range.
abbrev pub sliding_at : Option (Option ℕ) → Bool
sliding_at none = false
sliding_at (some none) = true
sliding_at (some (some n)) = not (n == 0)

-- `_SWA_PATTERNS`, with 0 for an architecture that it lacks.
unfoldable pub swa_pattern : String → ℕ
swa_pattern architecture =
    if same_text architecture "gemma2"
    then 2
    else if same_text architecture "gemma3"
    then 6
    else if same_text architecture "cohere2"
    then 4
    else if same_text architecture "gpt-oss"
    then 2
    else 0

-- `_SWA_PATTERNS.get(model.architecture or "")`.
abbrev pub swa_every : Option String → ℕ
swa_every none = 0
swa_every (some architecture) = swa_pattern architecture

-- An attention layer of a model with a window.
unfoldable pub is_sliding : Model → Option Value → ℕ → Bool
is_sliding model (some (items ns)) index =
    if ltb index (length ns)
    then sliding_at (get_elem? ns index)
    else (let every = swa_every model.architecture in
        not (every == 0) && ltb (index % every) (every - 1))
is_sliding model _ index =
    let every = swa_every model.architecture in not (every == 0) && ltb (index % every) (every - 1)

abbrev pub is_recurrent_model : Model → Bool
is_recurrent_model model =
    is_some (model.arch_value "ssm.state_size") || is_some (model.arch_value "wkv.head_size")

abbrev pub kv_heads_at : Model → ℕ → ℕ
kv_heads_at model index = elim (per_layer (model.arch_value "attention.head_count_kv") index) [
  | some heads ↦ heads
  | none ↦ or_else (per_layer (model.arch_value "attention.head_count") index) 0
]

unfoldable pub has_attention : Model → ℕ → Bool
has_attention model index =
    let heads = kv_heads_at model index in
    let interval = or_else (to_int (model.arch_value "full_attention_interval")) 0 in
    if not (is_recurrent_model model)
    then ltb 0 heads
    else if not (interval == 0)
    then (index + 1) % interval == 0
    else is_items (model.arch_value "attention.head_count_kv") && ltb 0 heads

-- One turn of the loop of `_layer_kinds`.
unfoldable pub layer_kind : Model → ℕ → Layer
layer_kind model index =
    let attention = has_attention model index in
    let window = or_else (to_int (model.arch_value "attention.sliding_window")) 0 in
    let pattern = model.arch_value "attention.sliding_window_pattern" in
    record {
      attention = attention;
      recurrent = is_recurrent_model model && not attention;
      sliding = attention && (not (window == 0) && is_sliding model pattern index);
      kv_heads = kv_heads_at model index;
    }

-- The layers from `index` on, `count` of them.
unfoldable pub layer_kinds : Model → ℕ → ℕ → List Layer
layer_kinds model index zero = []
layer_kinds model index (suc count) = layer_kind model index ∷ layer_kinds model (index + 1) count
