-- ===== src/Memory/Model.antt =====
-- A model file as services/memory_estimate.py reads it, and the settings it is loaded with.
use llama_web_ui.Prelude.{
  ℕ, ◌+◌, ◌*◌, ◌/◌, String, Bool, Option, none, some, List, [], ◌∷◌, ◌==◌, get_elem?, or_else, min,
  max, not, contains, if◌then◌else◌,
}

-- A metadata value. A number stands for an `int`, or for a `float` by its integer part; a text comes
-- with what `int(text.strip())` answers; an item that is no number is `none`.
pub data Value : Type 0 where
  number : ℕ → Value
  flag : Bool → Value
  text : Option ℕ → Value
  items : List (Option ℕ) → Value

pub record Tensor : Type 0 where
  pub name : String
  pub dims : List ℕ
  pub nbytes : ℕ

-- `GgufModel`; `arch_value` is its method.
pub record Model : Type 0 where
  pub architecture : Option String
  pub arch_value : String → Option Value
  pub vocabulary : ℕ  -- `array_lengths.get("tokenizer.ggml.tokens", 0)`
  pub tensors : List Tensor

-- `_int`.
abbrev pub to_int : Option Value → Option ℕ
to_int none = none
to_int (some (number n)) = some n
to_int (some (flag b)) = none
to_int (some (text n)) = n
to_int (some (items ns)) = none

abbrev pub item_at : Option (Option ℕ) → Option ℕ
item_at none = none
item_at (some item) = item

-- `_per_layer`.
unfoldable pub per_layer : Option Value → ℕ → Option ℕ
per_layer (some (items ns)) index = item_at (get_elem? ns index)
per_layer v index = to_int v

unfoldable pub max_item : List (Option ℕ) → ℕ
max_item [] = 0
max_item (none ∷ ns) = max_item ns
max_item (some n ∷ ns) = max n (max_item ns)

-- `_max_value`.
unfoldable pub max_value : Option Value → ℕ
max_value (some (items ns)) = max_item ns
max_value v = or_else (to_int v) 0

-- `_PAD` and `_pad`.
abbrev pub pad_size : ℕ
pad_size = 256

unfoldable pub pad : ℕ → ℕ
pad tokens = ((tokens + 255) / pad_size) * pad_size

-- `_cache_type`'s results: the keys of `_CACHE_TYPE_BYTES`.
pub data CacheType : Type 0 where
  f32 f16 bf16 q8_0 q4_0 q4_1 iq4_nl q5_0 q5_1 : CacheType

-- `_CACHE_TYPE_BYTES`, in 32nds of a byte.
unfoldable pub cache_type_bytes : CacheType → ℕ
cache_type_bytes f32 = 128
cache_type_bytes f16 = 64
cache_type_bytes bf16 = 64
cache_type_bytes q8_0 = 34
cache_type_bytes q4_0 = 18
cache_type_bytes q4_1 = 20
cache_type_bytes iq4_nl = 18
cache_type_bytes q5_0 = 22
cache_type_bytes q5_1 = 24

-- `_Settings`.
pub record Settings : Type 0 where
  pub gpu : Bool
  pub context : ℕ
  pub context_from_model : Bool
  pub slots : ℕ
  pub ubatch : ℕ
  pub cache_k : CacheType
  pub cache_v : CacheType
  pub flash_attention : Bool
  pub kv_offload : Bool
  pub swa_full : Bool

-- The options that `_Settings.from_values` reads, as `_int` and `_cache_type` decode them; an option
-- with a negative number, which counts as 0 for `parallel`, is not modelled otherwise.
pub record Requested : Type 0 where
  pub ctx_size : Option ℕ
  pub parallel : Option ℕ
  pub batch_size : Option ℕ
  pub ubatch_size : Option ℕ
  pub cache_type_k : CacheType
  pub cache_type_v : CacheType
  pub flash_attn_off : Bool
  pub kv_offload_off : Bool
  pub swa_full : Bool

-- `_Settings.from_values`.
unfoldable pub settings_from : Requested → Model → Bool → Settings
settings_from values model gpu =
    let trained = or_else (to_int (model.arch_value "context_length")) 4096 in
    let context = or_else values.ctx_size trained in
    let batch = or_else values.batch_size 2048 in
    record {
      gpu = gpu;
      context = context;
      context_from_model = or_else values.ctx_size 0 == 0;
      slots = or_else values.parallel 4;
      ubatch = min (min (or_else values.ubatch_size 512) batch) context;
      cache_k = values.cache_type_k;
      cache_v = values.cache_type_v;
      flash_attention = not values.flash_attn_off;
      kv_offload = not values.kv_offload_off;
      swa_full = values.swa_full;
    }

-- `_vocabulary`.
unfoldable pub vocabulary_of : ℕ → List Tensor → ℕ
vocabulary_of tokens [] = tokens
vocabulary_of tokens (t ∷ ts) =
    let rest = vocabulary_of tokens ts in
    if contains ("output.weight" ∷ "token_embd.weight" ∷ []) t.name
    then elim t.dims [ _ ∷ second ∷ _ ↦ second | _ ↦ rest ]
    else rest
