-- ===== src/Memory/Weights/Conservation.antt =====
-- The sum of the weights that are placed.
use llama_web_ui.Prelude.{
  ℕ, ◌+◌, ◌≤◌, ◌≡◌, inl, inr, List, [], ◌∷◌, arith, Bool-cases, Option-cases, sum_of,
}
use llama_web_ui.Memory.Model.{Tensor, Model}
use llama_web_ui.Memory.Placement.{Patterns, Placement, tensor_on_gpu}
use llama_web_ui.Memory.Weights.{
  no_part, LayerBytes, add_to, largest_layer, Placed, place_tensor, place_tensors, weights,
}

abbrev pub tensor_bytes : Tensor → ℕ
tensor_bytes t = t.nbytes

abbrev layer_bytes : LayerBytes → ℕ
layer_bytes q = q.nbytes

add_to-sum :
    (layer n : ℕ) (qs : List LayerBytes)
    → sum_of layer_bytes (add_to layer n qs) ≡ sum_of layer_bytes qs + n
unfolding add_to
add_to-sum layer n [] = ground arith
add_to-sum layer n (q ∷ qs) = ground (arith, add_to-sum layer n qs)

largest_layer-le : (qs : List LayerBytes) → largest_layer qs ≤ sum_of layer_bytes qs
unfolding largest_layer
largest_layer-le [] = omega arith
largest_layer-le (q ∷ qs) = ground (arith, largest_layer-le qs)

-- What every turn of the loop keeps: the bytes by layer are among those in system RAM.
abbrev IsCovered : Placed → Type 0
IsCovered w = sum_of layer_bytes w.cpu_by_layer ≤ w.part.cpu_bytes

abbrev placed_bytes : Placed → ℕ
placed_bytes w = w.part.gpu_bytes + w.part.cpu_bytes

module _ (patterns : Patterns) (p : Placement) (layer_count : ℕ) where
  place_tensor-bytes :
      (t : Tensor) (w : Placed)
      → placed_bytes (place_tensor patterns p layer_count t w) ≡ placed_bytes w + t.nbytes
  unfolding place_tensor
  place_tensor-bytes t w = ground arith

  place_tensor-IsCovered :
      (t : Tensor) (w : Placed) → IsCovered w → IsCovered (place_tensor patterns p layer_count t w)
  unfolding place_tensor
  place_tensor-IsCovered t w h = elim (Bool-cases (tensor_on_gpu patterns p t layer_count)) [
    | inl on_gpu ↦ rw on_gpu h
    | inr in_ram ↦ elim (Option-cases (patterns.tensor_layer t.name)) [
      | inl outside ↦ rw (in_ram, outside) (omega (arith, h))
      | inr (layer, inside) ↦
          rw (in_ram, inside) (omega (arith, h, add_to-sum layer t.nbytes w.cpu_by_layer))
    ]
  ]

  place_tensors-bytes :
      (ts : List Tensor) (w : Placed)
      → placed_bytes (place_tensors patterns p layer_count ts w)
        ≡ placed_bytes w + sum_of tensor_bytes ts
  unfolding place_tensors
  place_tensors-bytes [] w = omega arith
  place_tensors-bytes (t ∷ ts) w = omega (
    arith,
    place_tensors-bytes ts (place_tensor patterns p layer_count t w),
    place_tensor-bytes t w,
  )

  place_tensors-IsCovered :
      (ts : List Tensor) (w : Placed)
      → IsCovered w
      → IsCovered (place_tensors patterns p layer_count ts w)
  unfolding place_tensors
  place_tensors-IsCovered [] w h = h
  place_tensors-IsCovered (t ∷ ts) w h =
      place_tensors-IsCovered ts (place_tensor patterns p layer_count t w)
        (place_tensor-IsCovered t w h)

-- Whatever the placement, the weights on the GPU and those in system RAM are together the bytes of
-- all tensors, and no layer has more bytes in system RAM than there are weights there.
pub weights-bytes :
    (patterns : Patterns) (model : Model) (p : Placement) (layer_count : ℕ)
    → let w = weights patterns model p layer_count in
      (w.part.gpu_bytes + w.part.cpu_bytes ≡ sum_of tensor_bytes model.tensors)
      × (largest_layer w.cpu_by_layer ≤ w.part.cpu_bytes)
unfolding weights
weights-bytes patterns model p layer_count =
    let start : Placed = record { part = no_part; cpu_by_layer = [] } in
    (
      omega (arith, place_tensors-bytes patterns p layer_count model.tensors start),
      omega (
        arith,
        largest_layer-le (place_tensors patterns p layer_count model.tensors start).cpu_by_layer,
        place_tensors-IsCovered patterns p layer_count model.tensors start (omega arith),
      ),
    )
