-- ===== src/Memory/Fit/Laws.antt =====
-- The memory that the placement of `_fit` needs, against its budget.
use llama_web_ui.Prelude.{
  ℕ, zero, suc, ◌+◌, ◌≤◌, ◌≡◌, refl, ◌∙◌, inl, inr, Bool, true, false, some, List, [], ◌∷◌, ◌&&◌,
  leb→le, arith, Bool-cases, Option-cases, length, not,
}
use llama_web_ui.Memory.Search.{smallest, largest}
use llama_web_ui.Memory.Search.Smallest.{smallest-ok}
use llama_web_ui.Memory.Search.Largest.{largest-ok, largest-some}
use llama_web_ui.Memory.Model.{Tensor, Model, Settings}
use llama_web_ui.Memory.Placement.{
  Patterns, Placement, layer_on_gpu, override_for, unforced_on_gpu, tensor_on_gpu,
}
use llama_web_ui.Memory.Weights.{
  Part, no_part, Placed, place_tensor, place_tensors, weights, largest_layer,
}
use llama_web_ui.Memory.Layers.{Layer, layer_kinds}
use llama_web_ui.Memory.Cache.{kv_layers, kv_cache, recurrent_layers, recurrent_state, state_size}
use llama_web_ui.Memory.Estimate.{any_on_gpu, compute, gpu_bytes, build, layer_count_of}
use llama_web_ui.Memory.Fit.{
  Budget, placement_for, fits, moved, offloaded, fit_layers, fit, experts, names, is_empty,
  is_unset, is_within,
}

-- A placement that offloads no layer and has no overrides.
record IsInRam (p : Placement) : Type 0 where
  no_layers : p.gpu_layers ≡ some 0
  no_overrides : p.overrides ≡ []

module _ (patterns : Patterns) (p : Placement) (r : IsInRam p) (layer_count : ℕ) where
  layer_in_ram : (layer : ℕ) → layer_on_gpu p layer layer_count ≡ false
  unfolding layer_on_gpu
  layer_in_ram layer = ground (arith, r.no_layers)

  tensor_in_ram : (t : Tensor) → tensor_on_gpu patterns p t layer_count ≡ false
  unfolding tensor_on_gpu override_for unforced_on_gpu
  tensor_in_ram t = elim (Option-cases (patterns.tensor_layer t.name)) [
    | inl outside ↦ ground (arith, r.no_overrides, layer_in_ram layer_count)
    | inr (layer, inside) ↦ ground (arith, r.no_overrides, layer_in_ram layer)
  ]

  place_tensors-in_ram :
      (ts : List Tensor) (w : Placed)
      → (place_tensors patterns p layer_count ts w).part.gpu_bytes ≡ w.part.gpu_bytes
  unfolding place_tensors place_tensor
  place_tensors-in_ram [] w = refl
  place_tensors-in_ram (t ∷ ts) w =
      place_tensors-in_ram ts (place_tensor patterns p layer_count t w)
      ∙ ground (arith, tensor_in_ram t)

  kv_layers-in_ram :
      (model : Model) (s : Settings) (index : ℕ) (layers : List Layer) (acc : Part)
      → (kv_layers model s p layer_count index layers acc).gpu_bytes ≡ acc.gpu_bytes
  unfolding kv_layers
  kv_layers-in_ram model s index [] acc = refl
  kv_layers-in_ram model s index (layer ∷ layers) acc =
      kv_layers-in_ram model s (index + 1) layers _ ∙ ground (arith, layer_in_ram index)

  recurrent_layers-in_ram :
      (size index : ℕ) (layers : List Layer) (acc : Part)
      → (recurrent_layers size p layer_count index layers acc).gpu_bytes ≡ acc.gpu_bytes
  unfolding recurrent_layers
  recurrent_layers-in_ram size index [] acc = refl
  recurrent_layers-in_ram size index (layer ∷ layers) acc =
      recurrent_layers-in_ram size (index + 1) layers _ ∙ ground (arith, layer_in_ram index)

  any_on_gpu-in_ram : (index count : ℕ) → any_on_gpu p layer_count index count ≡ false
  unfolding any_on_gpu
  any_on_gpu-in_ram index zero = refl
  any_on_gpu-in_ram index (suc count) =
      ground (arith, layer_in_ram index, any_on_gpu-in_ram (index + 1) count)

  compute-in_ram :
      (model : Model) (s : Settings) (largest : ℕ)
      → (compute model s p layer_count largest).gpu_bytes ≡ 0
  unfolding compute
  compute-in_ram model s largest = ground (arith, any_on_gpu-in_ram 0 layer_count)

build-in_ram :
    (patterns : Patterns) (model : Model) (s : Settings) (p : Placement)
    → IsInRam p
    → gpu_bytes (build patterns model s p) ≡ 0
unfolding build gpu_bytes weights kv_cache recurrent_state
build-in_ram patterns model s p r =
    let layer_count = layer_count_of model in
    let layers = layer_kinds model 0 layer_count in
    ground (
      arith,
      place_tensors-in_ram patterns p r layer_count model.tensors
          (record { part = no_part; cpu_by_layer = [] }),
      kv_layers-in_ram patterns p r layer_count model s 0 layers no_part,
      recurrent_layers-in_ram patterns p r layer_count (state_size model s) 0 layers no_part,
      compute-in_ram patterns p r layer_count model s
          (largest_layer (weights patterns model p layer_count).cpu_by_layer),
    )

module _ (patterns : Patterns) (model : Model) (s : Settings) (b : Budget) where
  abbrev pub Fits : Placement → Type 0
  Fits p = fits patterns model s b p ≡ true

  pub no_layers-Fits :
      (p : Placement) → b.reserved ≤ b.free → p.overrides ≡ [] → Fits (offloaded p 0)
  unfolding fits
  no_layers-Fits p room none_set = ground (
    arith,
    build-in_ram patterns model s (offloaded p 0)
        (record { no_layers = refl; no_overrides = none_set }),
  )

  fit_layers-Fits :
      (p : Placement)
      → b.reserved ≤ b.free
      → p.overrides ≡ []
      → Fits (fit_layers patterns model s true b p)
  unfolding fit_layers
  fit_layers-Fits p room none_set =
      let ok : ℕ → Bool = λ n. fits patterns model s b (offloaded p n) in
      let (k, found) =
        largest-some (layer_count_of model + 1) ok (no_layers-Fits p room none_set) in
      rw (found, fit_layers) (largest-ok (layer_count_of model + 1) ok k found)

  fit-Fits :
      (p : Placement)
      → b.reserved ≤ b.free
      → p.overrides ≡ []
      → Fits (fit patterns model s true b p)
  unfolding fit
  fit-Fits p room none_set =
      let expert_names = names (experts patterns model.tensors) in
      let limit = length expert_names in
      let ok : ℕ → Bool = λ count. fits patterns model s b (moved expert_names p count) in
      elim (Bool-cases
        (not (is_empty expert_names) && (is_unset p.cpu_moe_layers && is_empty p.overrides))) [
          | inr fixed ↦ rw (fixed, fit) (fit_layers-Fits p room none_set)
          | inl open_still ↦ elim (Option-cases (smallest limit ok)) [
            | inl none_fits ↦
                rw (open_still, none_fits, fit)
                  (fit_layers-Fits (moved expert_names p limit) room none_set)
            | inr (count, found) ↦ rw (open_still, found, fit) (smallest-ok limit ok count found)
          ]
        ]

  pub fit-fits :
      (p : Placement)
      → b.reserved ≤ b.free
      → p.overrides ≡ []
      → gpu_bytes (build patterns model s (fit patterns model s true b p)) + b.reserved ≤ b.free
  unfolding fits
  fit-fits p room none_set =
      leb→le (gpu_bytes (build patterns model s (fit patterns model s true b p)) + b.reserved)
        b.free (fit-Fits p room none_set)

abbrev with_extra : ℕ → Budget → Budget
with_extra extra b = record b { reserved = b.reserved + extra }

placement_for-fit :
    (patterns : Patterns) (model : Model) (s : Settings) (b : Budget) (extra : ℕ) (p : Placement)
    → s.gpu ≡ true
    → is_within b (gpu_bytes (build patterns model s p) + extra) ≡ false
    → placement_for patterns model s true true (some b) extra p
      ≡ fit patterns model s true (with_extra extra b) p
unfolding placement_for
placement_for-fit patterns model s b extra p gpu large = ground arith

placement_for-same :
    (patterns : Patterns) (model : Model) (s : Settings) (b : Budget) (extra : ℕ) (p : Placement)
    → is_within b (gpu_bytes (build patterns model s p) + extra) ≡ true
    → placement_for patterns model s true true (some b) extra p ≡ p
unfolding placement_for
placement_for-same patterns model s b extra p small = ground arith

-- With a GPU and `--fit` on, when the profile leaves the number of layers open and overrides no
-- tensor, and the budget has room for the extra parts, the placement that `estimate_memory` counts
-- and the extra parts keep within the budget.
pub placement_for-fits :
    (patterns : Patterns) (model : Model) (s : Settings) (b : Budget) (extra : ℕ) (p : Placement)
    → s.gpu ≡ true
    → b.reserved + extra ≤ b.free
    → p.overrides ≡ []
    → gpu_bytes (build patterns model s (placement_for patterns model s true true (some b) extra p))
        + extra
        + b.reserved
      ≤ b.free
placement_for-fits patterns model s b extra p gpu room none_set =
    let size : Placement → ℕ = λ q. gpu_bytes (build patterns model s q) in
    elim (Bool-cases (is_within b (size p + extra))) [
      | inl small ↦
          rw (placement_for-same patterns model s b extra p small)
            (leb→le (size p + extra + b.reserved) b.free small)
      | inr large ↦
          rw (placement_for-fit patterns model s b extra p gpu large)
            (omega (arith, fit-fits patterns model s (with_extra extra b) p room none_set))
    ]
