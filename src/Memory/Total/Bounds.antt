-- ===== src/Memory/Total/Bounds.antt =====
-- A whole estimate against the GPU memory that `--fit` may use, and the growth of checkpoints.
use native.Mathlib.Nat.{mul_assoc, mul-le-mul_left, mul-div-le}
use llama_web_ui.Prelude.{
  Bool-cases, ltb, not, ◌&&◌, ◌==◌, ℕ, ◌+◌, ◌*◌, ◌/◌, ◌≤◌, ◌≡◌, refl, ap, Bool, true, Option, some,
  List, [], ◌∷◌, ◌++◌, sum_of, arith, inl, inr,
}
use llama_web_ui.Memory.Model.{Model, Settings}
use llama_web_ui.Memory.Placement.{Patterns, Placement}
use llama_web_ui.Memory.Weights.{Part}
use llama_web_ui.Memory.Layers.{layer_kinds}
use llama_web_ui.Memory.Cache.{window_bytes}
use llama_web_ui.Memory.Estimate.{layer_count_of, ModelEstimate, build, gpu_bytes, part_or_none}
use llama_web_ui.Memory.Fit.{Budget, placement_for}
use llama_web_ui.Memory.Fit.Laws.{placement_for-fits}
use llama_web_ui.Memory.Total.{
  Options, Devices, gpu_of, model_parts, extra_parts, total_gpu_bytes, budget_of, placement_from,
  estimate_memory, cpu_of, checkpoint_growth,
}

model_parts-sum : (e : ModelEstimate) → sum_of gpu_of (model_parts e) ≡ gpu_bytes e
unfolding model_parts gpu_bytes
model_parts-sum e = ground arith

gpu_of-append : (ps qs : List Part) → sum_of gpu_of (ps ++ qs) ≡ sum_of gpu_of ps + sum_of gpu_of qs
gpu_of-append [] qs = omega arith
gpu_of-append (p ∷ ps) qs = omega (arith, gpu_of-append ps qs)

known_placement :
    (patterns : Patterns) (model : Model) (s : Settings) (fit_on auto_layers : Bool)
    (known : Option Budget) (b : Budget) (extra : ℕ) (p : Placement)
    → fit_on ≡ true
    → auto_layers ≡ true
    → known ≡ some b
    → placement_for patterns model s fit_on auto_layers known extra p
      ≡ placement_for patterns model s true true (some b) extra p
known_placement patterns model s fit_on auto_layers known b extra p f a k = rw (f, a, k) refl

-- With a GPU, `--fit` on, the number of layers open and no overrides, when the GPU memory is known
-- and has room for the draft model and the projector above the margin, the whole estimate leaves the
-- margin free: the GPU memory that is free, or else the total, covers it.
pub estimate_memory-fits :
    (patterns : Patterns) (model : Model) (s : Settings) (d : Devices) (o : Options) (b : Budget)
    → s.gpu ≡ true
    → o.fit_on ≡ true
    → o.auto_layers ≡ true
    → o.overrides ≡ []
    → budget_of d o ≡ some b
    → b.reserved + sum_of gpu_of (extra_parts patterns s o) ≤ b.free
    → total_gpu_bytes (estimate_memory patterns model s d o) + b.reserved ≤ b.free
unfolding estimate_memory placement_from
estimate_memory-fits patterns model s d o b gpu on open_layers none_set known room =
    let extra_list = extra_parts patterns s o in
    let extra = sum_of gpu_of extra_list in
    let p = placement_from s.gpu o.n_gpu_layers o.cpu_moe o.n_cpu_moe o.overrides in
    let fitted = placement_for-fits patterns model s b extra p gpu room none_set in
    let same =
      ap (λ q. gpu_bytes (build patterns model s q))
        (known_placement patterns model s o.fit_on o.auto_layers (budget_of d o) b extra p on
          open_layers known) in
    let main =
      build patterns model s
        (placement_for patterns model s o.fit_on o.auto_layers (budget_of d o) extra p) in
    omega (arith, fitted, same, model_parts-sum main, gpu_of-append (model_parts main) extra_list)

product-le : (n slots state : ℕ) → n * slots * (state / slots) ≤ n * state
product-le n slots state =
    omega (arith, mul_assoc n slots (state / slots), mul-le-mul_left n (mul-div-le state slots))

checkpoint_growth-le :
    (n slots state : ℕ)
    → sum_of cpu_of (checkpoint_growth (some n) slots (state / slots)) ≤ n * state
unfolding checkpoint_growth
checkpoint_growth-le n slots state = elim (Bool-cases (ltb 0 n && not (state / slots == 0))) [
  | inl some_state ↦ rw some_state (omega (arith, product-le n slots state))
  | inr no_state ↦ rw no_state (omega arith)
]

-- The state of a model that cannot be rewound: the recurrent state and the sliding-window cache.
abbrev pub rewind_bytes : Patterns → Model → Settings → Placement → ℕ
rewind_bytes patterns model s p =
    let state = part_or_none (build patterns model s p).recurrent in
    state.gpu_bytes
    + state.cpu_bytes
    + window_bytes model s (layer_kinds model 0 (layer_count_of model)) / 32

-- All context checkpoints of all slots together hold no more than their number of copies of the
-- recurrent state and the sliding-window cache.
pub checkpoints-le :
    (patterns : Patterns) (model : Model) (s : Settings) (p : Placement) (n : ℕ)
    → sum_of cpu_of (checkpoint_growth (some n) s.slots (build patterns model s p).checkpoint_bytes)
      ≤ n * rewind_bytes patterns model s p
unfolding build
checkpoints-le patterns model s p n =
    checkpoint_growth-le n s.slots (rewind_bytes patterns model s p)
