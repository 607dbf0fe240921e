-- ===== src/Memory/Tests.antt =====
-- A small mixture-of-experts model.
use llama_web_ui.Prelude.{
  inr, false, ℕ, ◌+◌, ◌≤◌, ◌≡◌, ◌↔◌, refl, subst, String, Bool, true, Option, none, some, List, [],
  ◌∷◌, leb, length, sum_of, contains, same_text, string_discrete, arith, if◌then◌else◌,
}
use llama_web_ui.Memory.Search.{smallest}
use llama_web_ui.Memory.Search.Smallest.{StaysOk, IsLeast, smallest_iff}
use llama_web_ui.Memory.Search.Largest.{OkBelow, IsGreatest}
use llama_web_ui.Memory.Model.{
  number, Value, Tensor, Model, Settings, f16, per_layer, max_value, pad, vocabulary_of,
}
use llama_web_ui.Memory.Placement.{
  Patterns, unset, all_layers, Placement, layer_on_gpu, override_for, unforced_on_gpu,
  tensor_on_gpu,
}
use llama_web_ui.Memory.Weights.{weights, place_tensor, place_tensors, add_to, largest_layer}
use llama_web_ui.Memory.Layers.{layer_kinds, layer_kind, has_attention}
use llama_web_ui.Memory.Cache.{kv_cache, kv_layers, recurrent_state}
use llama_web_ui.Memory.Estimate.{any_on_gpu, all_on_gpu, compute, gpu_bytes, build, layer_count_of}
use llama_web_ui.Memory.Estimate.Order.{build-gpu_bytes}
use llama_web_ui.Memory.Fit.{
  Budget, fit_budget, fits, moved, offloaded, fit, experts, insert_expert, names, is_empty,
}
use llama_web_ui.Memory.Total.{
  Options, by_default, Devices, gpu_of, extra_parts, draft_part, projector_part, total_gpu_bytes,
  budget_of, estimate_memory,
}
use llama_web_ui.Memory.Total.Bounds.{estimate_memory-fits}
use llama_web_ui.Memory.Fit.Choice.{fit-IsGreatest, fit-IsLeast, offloaded-IsBelow}

abbrev at_least_3 : ℕ → Bool
at_least_3 n = leb 3 n

abbrev at_most_3 : ℕ → Bool
at_most_3 n = leb n 3

at_least_3-StaysOk : StaysOk at_least_3
at_least_3-StaysOk i j le ok = ground arith

smallest_iff_example : (smallest 10 at_least_3 ≡ some 3) ↔ IsLeast 10 at_least_3 3
smallest_iff_example = smallest_iff 10 at_least_3 at_least_3-StaysOk 3

at_most_3-OkBelow : OkBelow at_most_3
at_most_3-OkBelow i j le ok = ground arith

abbrev expert_name : String
expert_name = "blk.0.ffn_up_exps.weight"

abbrev in_layer_0 : String → Bool
in_layer_0 = contains ("blk.0.attn_q.weight" ∷ expert_name ∷ [])

abbrev patterns : Patterns
patterns = record {
  tensor_layer = λ name. if in_layer_0 name then some 0 else none;
  is_expert = λ name. same_text name expert_name;
  search = λ pattern name. false;
}

abbrev tensor : String → ℕ → Tensor
tensor name nbytes = record { name = name; dims = []; nbytes = nbytes }

abbrev metadata : String → Option Value
metadata key = if same_text key "block_count" then some (number 1) else none

abbrev model : Model
model = record {
  architecture = none;
  arch_value = metadata;
  vocabulary = 2;
  tensors =
      tensor "token_embd.weight" 70
      ∷ tensor "blk.0.attn_q.weight" 100
      ∷ tensor expert_name 1000
      ∷ tensor "output.weight" 50
      ∷ [];
}

abbrev settings : Settings
settings = record {
  gpu = true;
  context = 512;
  context_from_model = false;
  slots = 1;
  ubatch = 16;
  cache_k = f16;
  cache_v = f16;
  flash_attention = true;
  kv_offload = true;
  swa_full = false;
}

abbrev everything : Placement
everything = record {
  gpu = true;
  gpu_layers = none;
  cpu_moe_layers = unset;
  overrides = [];
  fitted_to_ram = [];
}

abbrev budget : Budget
budget = record { free = 1000; reserved = 100 }

everything_needs : gpu_bytes (build patterns model settings everything) ≡ 1278
unfolding gpu_bytes build weights place_tensors place_tensor tensor_on_gpu override_for
    unforced_on_gpu layer_on_gpu layer_kinds layer_kind has_attention per_layer kv_cache kv_layers
    recurrent_state compute vocabulary_of max_value any_on_gpu all_on_gpu largest_layer add_to pad
    contains string_discrete
everything_needs = refl

build-gpu_bytes_example :
    gpu_bytes (build patterns model settings (offloaded everything 0))
    ≤ gpu_bytes (build patterns model settings (offloaded everything 1))
build-gpu_bytes_example =
    build-gpu_bytes patterns model settings (offloaded everything 0) (offloaded everything 1)
      (offloaded-IsBelow patterns (layer_count_of model) everything 0 1 (omega arith))

abbrev experts_in_ram : Placement
experts_in_ram = record everything { cpu_moe_layers = all_layers }

abbrev expert_names : List String
expert_names = names (experts patterns model.tensors)

fit-IsGreatest_example :
    (k : ℕ) × (fit patterns model settings true budget experts_in_ram ≡ offloaded experts_in_ram k)
    × IsGreatest
        (layer_count_of model + 1)
        (λ n. fits patterns model settings budget (offloaded experts_in_ram n))
        k
fit-IsGreatest_example =
    fit-IsGreatest patterns model settings budget experts_in_ram (omega arith) refl false (inr refl)

one_is_least :
    IsLeast
      (length expert_names)
      (λ count. fits patterns model settings budget (moved expert_names everything count))
      1
unfolding gpu_bytes build weights place_tensors place_tensor tensor_on_gpu override_for
    unforced_on_gpu layer_on_gpu layer_kinds layer_kind has_attention per_layer kv_cache kv_layers
    recurrent_state compute vocabulary_of max_value any_on_gpu all_on_gpu largest_layer add_to pad
    contains string_discrete fits names experts insert_expert
one_is_least = record {
  within = omega arith;
  is_ok = refl;
  none_below = λ j lt.
      let first : 0 ≡ j = omega arith in
      subst (λ n. fits patterns model settings budget (moved expert_names everything n) ≡ false)
        first refl;
}

some_expert : is_empty expert_names ≡ false
unfolding names experts insert_expert contains string_discrete
some_expert = refl

fit-IsLeast_example :
    fit patterns model settings true budget everything ≡ moved expert_names everything 1
fit-IsLeast_example =
    fit-IsLeast patterns model settings budget everything 1 some_expert refl refl one_is_least true

abbrev options : Options
options = record {
  fit_on = true;
  auto_layers = true;
  fit_target = some 1;
  n_gpu_layers = none;
  cpu_moe = false;
  n_cpu_moe = unset;
  overrides = [];
  draft = none;
  projector_bytes = some 30;
  mmproj_offload_off = false;
  ctx_checkpoints = none;
  cache_ram = by_default;
}

abbrev devices : Devices
devices = record { free_bytes = some 1_049_000; capacity_bytes = some 4_000_000 }

abbrev device_budget : Budget
device_budget = record { free = 1_049_000; reserved = 1_048_576 }

budget_is_known : budget_of devices options ≡ some device_budget
unfolding fit_budget
budget_is_known = refl

projector_has_room :
    device_budget.reserved + sum_of gpu_of (extra_parts patterns settings options)
    ≤ device_budget.free
unfolding extra_parts draft_part projector_part
projector_has_room = omega arith

estimate_memory-fits_example :
    total_gpu_bytes (estimate_memory patterns model settings devices options) + 1_048_576
    ≤ 1_049_000
estimate_memory-fits_example =
    estimate_memory-fits patterns model settings devices options device_budget refl refl refl refl
      budget_is_known projector_has_room
