-- ===== src/Memory/Weights/Order.antt =====
-- Tensors that leave the GPU: the weights there, and the bytes of each layer in system RAM.
use llama_web_ui.Prelude.{
  ℕ, ◌+◌, ◌≤◌, ◌≡◌, refl, ap, leb, ==_iff, inl, inr, true, Option, none, some, List, [], ◌∷◌, ◌==◌,
  arith, Bool-cases, if◌then◌else◌,
}
use llama_web_ui.Memory.Model.{Tensor}
use llama_web_ui.Memory.Placement.{Patterns, Placement, tensor_on_gpu}
use llama_web_ui.Memory.Weights.{
  LayerBytes, add_to, add_layer, largest_layer, Placed, place_tensor, place_tensors,
}

-- The bytes of one layer.
unfoldable pub bytes_of : ℕ → List LayerBytes → ℕ
bytes_of l [] = 0
bytes_of l (q ∷ qs) = (if q.layer == l then q.nbytes else 0) + bytes_of l qs

abbrev pub bytes_at : ℕ → Option ℕ → ℕ → ℕ
bytes_at l none n = 0
bytes_at l (some layer) n = if layer == l then n else 0

-- Each layer has one entry at most that counts.
pub data IsDistinct : List LayerBytes → Type 0 where
  no_entries : IsDistinct []
  entry :
      {q : LayerBytes} {qs : List LayerBytes}
      → bytes_of q.layer qs ≡ 0
      → IsDistinct qs
      → IsDistinct (q ∷ qs)

add_to-bytes_of :
    (l layer n : ℕ) (qs : List LayerBytes)
    → bytes_of l (add_to layer n qs) ≡ bytes_of l qs + bytes_at l (some layer) n
unfolding bytes_of add_to
add_to-bytes_of l layer n [] = ground arith
add_to-bytes_of l layer n (q ∷ qs) = ground (arith, add_to-bytes_of l layer n qs)

add_layer-bytes_of :
    (l : ℕ) (o : Option ℕ) (n : ℕ) (qs : List LayerBytes)
    → bytes_of l (add_layer o n qs) ≡ bytes_of l qs + bytes_at l o n
add_layer-bytes_of l none n qs = omega arith
add_layer-bytes_of l (some layer) n qs = add_to-bytes_of l layer n qs

add_to-IsDistinct :
    (layer n : ℕ) (qs : List LayerBytes) → IsDistinct qs → IsDistinct (add_to layer n qs)
unfolding add_to bytes_of
add_to-IsDistinct layer n [] no_entries = entry refl no_entries
add_to-IsDistinct layer n (q ∷ qs) (entry fresh d) = elim (Bool-cases (q.layer == layer)) [
  | inl same ↦ rw same (entry fresh d)
  | inr other ↦
      rw other (
        entry (ground (arith, add_to-bytes_of q.layer layer n qs)) (add_to-IsDistinct layer n qs d))
]

add_layer-IsDistinct :
    (o : Option ℕ) (n : ℕ) (qs : List LayerBytes) → IsDistinct qs → IsDistinct (add_layer o n qs)
add_layer-IsDistinct none n qs d = d
add_layer-IsDistinct (some layer) n qs d = add_to-IsDistinct layer n qs d

bytes_at-le : (l : ℕ) (o : Option ℕ) (n : ℕ) → bytes_at l o n ≤ n
bytes_at-le l none n = omega arith
bytes_at-le l (some layer) n = ground arith

bytes_of-le : (l : ℕ) (qs : List LayerBytes) → IsDistinct qs → bytes_of l qs ≤ largest_layer qs
unfolding bytes_of largest_layer
bytes_of-le l [] no_entries = omega arith
bytes_of-le l (q ∷ qs) (entry fresh d) = elim (Bool-cases (q.layer == l)) [
  | inl same ↦
      ground (arith, bytes_of-le l qs d, ap (λ k. bytes_of k qs) ((==_iff q.layer l).0 same))
  | inr other ↦ ground (arith, bytes_of-le l qs d)
]

-- Some layer has as many bytes as the largest.
largest_layer-bytes_of : (qs : List LayerBytes) → (l : ℕ) × (largest_layer qs ≤ bytes_of l qs)
unfolding bytes_of largest_layer
largest_layer-bytes_of [] = (0, omega arith)
largest_layer-bytes_of (q ∷ qs) =
    let (l, le) = largest_layer-bytes_of qs in
    elim (Bool-cases (leb (largest_layer qs) q.nbytes)) [
      | inl head ↦ (q.layer, ground arith)
      | inr rest ↦ (l, ground arith)
    ]

-- `v` has fewer tensors on the GPU than `w`.
pub record IsLower (v w : Placed) : Type 0 where
  pub gpu : v.part.gpu_bytes ≤ w.part.gpu_bytes
  pub layers :
      (l : ℕ)
      → bytes_of l v.cpu_by_layer + v.part.gpu_bytes ≤ bytes_of l w.cpu_by_layer + w.part.gpu_bytes
  pub distinct : IsDistinct w.cpu_by_layer

-- The largest layer in system RAM grows by no more than what leaves the GPU.
pub IsLower-largest :
    {v w : Placed}
    → IsLower v w
    → largest_layer v.cpu_by_layer + v.part.gpu_bytes
      ≤ largest_layer w.cpu_by_layer + w.part.gpu_bytes
IsLower-largest {v} {w} h =
    let (l, le) = largest_layer-bytes_of v.cpu_by_layer in
    omega (arith, le, h.layers l, bytes_of-le l w.cpu_by_layer h.distinct)

module _ (patterns : Patterns) (q p : Placement) (layer_count : ℕ)
    (fewer : (t : Tensor)
      → tensor_on_gpu patterns q t layer_count ≡ true
      → tensor_on_gpu patterns p t layer_count ≡ true) where
  place_tensor-IsLower :
      (t : Tensor) (v w : Placed)
      → IsLower v w
      → IsLower (place_tensor patterns q layer_count t v) (place_tensor patterns p layer_count t w)
  unfolding place_tensor
  place_tensor-IsLower t v w h =
      let o = patterns.tensor_layer t.name in
      elim (Bool-cases (tensor_on_gpu patterns q t layer_count)) [
        | inl in_q ↦
            rw (in_q, fewer t in_q)
              (record {
                gpu = omega (arith, h.gpu);
                layers = λ l. omega (arith, h.layers l);
                distinct = h.distinct;
              })
        | inr not_q ↦ elim (Bool-cases (tensor_on_gpu patterns p t layer_count)) [
          | inl in_p ↦
              rw (not_q, in_p)
                (record {
                  gpu = omega (arith, h.gpu);
                  layers = λ l. omega (
                    arith,
                    h.layers l,
                    bytes_at-le l o t.nbytes,
                    add_layer-bytes_of l o t.nbytes v.cpu_by_layer,
                  );
                  distinct = h.distinct;
                })
          | inr not_p ↦
              rw (not_q, not_p)
                (record {
                  gpu = omega (arith, h.gpu);
                  layers = λ l. omega (
                    arith,
                    h.layers l,
                    add_layer-bytes_of l o t.nbytes v.cpu_by_layer,
                    add_layer-bytes_of l o t.nbytes w.cpu_by_layer,
                  );
                  distinct = add_layer-IsDistinct o t.nbytes w.cpu_by_layer h.distinct;
                })
        ]
      ]

  pub place_tensors-IsLower :
      (ts : List Tensor) (v w : Placed)
      → IsLower v w
      → IsLower
          (place_tensors patterns q layer_count ts v)
          (place_tensors patterns p layer_count ts w)
  unfolding place_tensors
  place_tensors-IsLower [] v w h = h
  place_tensors-IsLower (t ∷ ts) v w h =
      place_tensors-IsLower ts (place_tensor patterns q layer_count t v)
        (place_tensor patterns p layer_count t w) (place_tensor-IsLower t v w h)
