-- ===== src/Memory/Fit/Choice.antt =====
-- What `_fit` of services/memory_estimate.py chooses to change.
use llama_web_ui.Prelude.{
  ℕ, zero, suc, ◌+◌, ◌≤◌, ◌≡◌, ◌⊎◌, ◌∙◌, none, refl, inl, inr, String, Bool, true, false, List, [],
  ◌∷◌, arith, Option-cases, length, take, contains,
}
use llama_web_ui.Memory.Search.{smallest}
use llama_web_ui.Memory.Search.Smallest.{StaysOk, IsLeast, smallest_iff}
use llama_web_ui.Memory.Search.Largest.{OkBelow, IsGreatest, largest_iff, largest-some}
use llama_web_ui.Memory.Model.{Model, Settings}
use llama_web_ui.Memory.Placement.{
  Patterns, Placement, layer_on_gpu, override_for, unforced_on_gpu, tensor_on_gpu,
}
use llama_web_ui.Memory.Estimate.{layer_count_of}
use llama_web_ui.Memory.Estimate.Order.{IsBelow, build-gpu_bytes}
use llama_web_ui.Memory.Fit.Laws.{no_layers-Fits}
use llama_web_ui.Memory.Fit.{
  Budget, fits, moved, offloaded, fit_layers, fit, experts, names, is_empty, is_unset,
}

contains-take :
    (i j : ℕ) (xs : List String) (x : String)
    → i ≤ j
    → contains (take i xs) x ≡ true
    → contains (take j xs) x ≡ true
unfolding contains
contains-take zero j xs x le h = absurd (ground arith)
contains-take (suc i) zero xs x le h = absurd (omega arith)
contains-take (suc i) (suc j) [] x le h = h
contains-take (suc i) (suc j) (y ∷ ys) x le h = ground (arith, contains-take i j ys x (omega arith))

module _ (patterns : Patterns) (layer_count : ℕ) (p : Placement) where
  moved-IsBelow :
      (expert_names : List String) (i j : ℕ)
      → i ≤ j
      → IsBelow patterns layer_count (moved expert_names p j) (moved expert_names p i)
  unfolding layer_on_gpu tensor_on_gpu unforced_on_gpu
  moved-IsBelow expert_names i j le = record {
    gpu = refl;
    layers = λ l on_gpu. on_gpu;
    tensors = λ t on_gpu. elim (Option-cases (override_for patterns t.name p.overrides)) [
      | inl no_override ↦ ground (arith, contains-take i j expert_names t.name le)
      | inr (o, override) ↦ ground arith
    ];
  }

  offloaded-layer :
      (i j l : ℕ)
      → i ≤ j
      → layer_on_gpu (offloaded p i) l layer_count ≡ true
      → layer_on_gpu (offloaded p j) l layer_count ≡ true
  unfolding layer_on_gpu
  offloaded-layer i j l le on_gpu = ground arith

  pub offloaded-IsBelow :
      (i j : ℕ) → i ≤ j → IsBelow patterns layer_count (offloaded p i) (offloaded p j)
  unfolding tensor_on_gpu unforced_on_gpu
  offloaded-IsBelow i j le = record {
    gpu = refl;
    layers = λ l. offloaded-layer i j l le;
    tensors = λ t on_gpu. elim (Option-cases (patterns.tensor_layer t.name)) [
      | inl outside ↦ ground (arith, offloaded-layer i j layer_count le)
      | inr (l, inside) ↦ ground (arith, offloaded-layer i j l le)
    ];
  }

-- Whether `_fit` moves all experts before the layers: it does when the profile does not place them and
-- no number of them that is moved keeps within the budget, and does not when there are none or the
-- profile places them.
abbrev pub Moves : (ℕ → Bool) → List String → Placement → Bool → Type 0
Moves ok expert_names p true =
    (is_empty expert_names ≡ false)
    × (is_unset p.cpu_moe_layers ≡ true)
    × ((n : ℕ) → n ≤ length expert_names → ok n ≡ false)
Moves ok expert_names p false = (is_empty expert_names ≡ true) ⊎ (is_unset p.cpu_moe_layers ≡ false)

abbrev pub experts_moved : List String → Placement → Bool → Placement
experts_moved expert_names p true = moved expert_names p (length expert_names)
experts_moved expert_names p false = p

module _ (patterns : Patterns) (model : Model) (s : Settings) (b : Budget) where
  moved-StaysOk :
      (expert_names : List String) (p : Placement)
      → StaysOk (λ count. fits patterns model s b (moved expert_names p count))
  unfolding fits
  moved-StaysOk expert_names p i j le ok = ground (
    arith,
    build-gpu_bytes patterns model s (moved expert_names p j) (moved expert_names p i)
        (moved-IsBelow patterns (layer_count_of model) p expert_names i j le),
  )

  offloaded-OkBelow : (p : Placement) → OkBelow (λ n. fits patterns model s b (offloaded p n))
  unfolding fits
  offloaded-OkBelow p i j le ok = ground (
    arith,
    build-gpu_bytes patterns model s (offloaded p i) (offloaded p j)
        (offloaded-IsBelow patterns (layer_count_of model) p i j le),
  )

  -- The second half of `_fit` offloads the most layers that keep within the budget.
  fit_layers-IsGreatest :
      (p : Placement)
      → b.reserved ≤ b.free
      → p.overrides ≡ []
      → (k : ℕ) × (fit_layers patterns model s true b p ≡ offloaded p k)
        × IsGreatest (layer_count_of model + 1) (λ n. fits patterns model s b (offloaded p n)) k
  unfolding fit_layers
  fit_layers-IsGreatest p room none_set =
      let ok : ℕ → Bool = λ n. fits patterns model s b (offloaded p n) in
      let limit = layer_count_of model + 1 in
      let (k, found) = largest-some limit ok (no_layers-Fits patterns model s b p room none_set) in
      (k, rw (found, fit_layers) refl, (largest_iff limit ok (offloaded-OkBelow p) k).0 found)

  -- When the profile places no experts and overrides no tensor, and moving some number of the model's
  -- expert tensors to system RAM keeps within the budget, `_fit` moves the fewest that do, those of
  -- the first layers, and changes nothing else.
  pub fit-IsLeast :
      (p : Placement) (k : ℕ)
      → let expert_names = names (experts patterns model.tensors) in
        is_empty expert_names ≡ false
        → is_unset p.cpu_moe_layers ≡ true
        → p.overrides ≡ []
        → IsLeast
            (length expert_names)
            (λ count. fits patterns model s b (moved expert_names p count))
            k
        → (auto_layers : Bool) → fit patterns model s auto_layers b p ≡ moved expert_names p k
  unfolding fit
  fit-IsLeast p k some_expert none_placed none_set least auto_layers =
      let expert_names = names (experts patterns model.tensors) in
      let ok : ℕ → Bool = λ count. fits patterns model s b (moved expert_names p count) in
      let found =
        (smallest_iff (length expert_names) ok (moved-StaysOk expert_names p) k).1 least in
      rw (some_expert, none_placed, found, none_set, fit) refl

  fit-layers :
      (p : Placement)
      → (is_empty (names (experts patterns model.tensors)) ≡ true)
        ⊎ (is_unset p.cpu_moe_layers ≡ false)
      → fit patterns model s true b p ≡ fit_layers patterns model s true b p
  unfolding fit
  fit-layers p stay = ground (arith, stay)

  none_fit-smallest :
      (p : Placement)
      → let expert_names = names (experts patterns model.tensors) in
        ((n : ℕ)
          → n ≤ length expert_names
          → fits patterns model s b (moved expert_names p n) ≡ false)
        → smallest (length expert_names) (λ n. fits patterns model s b (moved expert_names p n))
          ≡ none
  none_fit-smallest p none_fits =
      let expert_names = names (experts patterns model.tensors) in
      let ok : ℕ → Bool = λ n. fits patterns model s b (moved expert_names p n) in
      elim (Option-cases (smallest (length expert_names) ok)) [
        | inl missing ↦ missing
        | inr (k, found) ↦
            let least =
              (smallest_iff (length expert_names) ok (moved-StaysOk expert_names p) k).0 found in
            cc (least.is_ok, none_fits k least.within)
      ]

  fit-moved :
      (p : Placement)
      → let expert_names = names (experts patterns model.tensors) in
        is_empty expert_names ≡ false
        → is_unset p.cpu_moe_layers ≡ true
        → p.overrides ≡ []
        → smallest (length expert_names) (λ n. fits patterns model s b (moved expert_names p n))
          ≡ none
        → fit patterns model s true b p
          ≡ fit_layers patterns model s true b (moved expert_names p (length expert_names))
  unfolding fit
  fit-moved p some_expert none_placed none_set missing =
      rw (some_expert, none_placed, missing, none_set, fit) refl

  -- When the number of layers is open, the profile overrides no tensor, and the budget is not
  -- negative, `_fit` offloads the most layers that keep within the budget. The expert tensors stay
  -- where they are when there are none or the profile places them itself; when it does not and no
  -- number of them that is moved to system RAM keeps within the budget, all of them are moved.
  pub fit-IsGreatest :
      (p : Placement)
      → b.reserved ≤ b.free
      → p.overrides ≡ []
      → let expert_names = names (experts patterns model.tensors) in
        (all_moved : Bool)
        → Moves (λ n. fits patterns model s b (moved expert_names p n)) expert_names p all_moved
        → let q = experts_moved expert_names p all_moved in
          (k : ℕ) × (fit patterns model s true b p ≡ offloaded q k)
          × IsGreatest (layer_count_of model + 1) (λ n. fits patterns model s b (offloaded q n)) k
  unfolding fit
  fit-IsGreatest p room none_set true (some_expert, none_placed, none_fits) =
      let expert_names = names (experts patterns model.tensors) in
      let q = moved expert_names p (length expert_names) in
      let (k, same, greatest) = fit_layers-IsGreatest q room none_set in
      let missing = none_fit-smallest p none_fits in
      (k, fit-moved p some_expert none_placed none_set missing ∙ same, greatest)
  fit-IsGreatest p room none_set false stay =
      let (k, same, greatest) = fit_layers-IsGreatest p room none_set in
      (k, fit-layers p stay ∙ same, greatest)
