-- ===== src/Memory/Fit.antt =====
-- `_fit_budget` and `_fit` of services/memory_estimate.py: the placement that `--fit` finds.
pub mod Laws
pub mod Choice
use llama_web_ui.Prelude.{
  ℕ, ◌+◌, String, Bool, true, false, Option, none, some, List, [], ◌∷◌, ◌&&◌, leb, not, take,
  length, if◌then◌else◌,
}
use llama_web_ui.Memory.Model.{Tensor, Model, Settings}
use llama_web_ui.Memory.Placement.{Patterns, CpuMoe, unset, all_layers, first_layers, Placement}
use llama_web_ui.Memory.Estimate.{gpu_bytes, build, layer_count_of}
use llama_web_ui.Memory.Search.{smallest, largest}

-- A budget `free - reserved`, which the source lets be negative.
pub record Budget : Type 0 where
  pub free : ℕ
  pub reserved : ℕ

-- `size <= budget`.
abbrev pub is_within : Budget → ℕ → Bool
is_within b size = leb (size + b.reserved) b.free

-- `_fit_budget`.
unfoldable pub fit_budget : Option ℕ → Option ℕ → ℕ → Option Budget
fit_budget (some free) capacity target = some (record { free = free; reserved = target })
fit_budget none (some capacity) target = some (record { free = capacity; reserved = target })
fit_budget none none target = none

-- An expert tensor of a layer.
pub record Expert : Type 0 where
  pub layer : ℕ
  pub name : String

-- `sorted`, with the layer as its key: behind the equal ones that stood before it.
unfoldable pub insert_expert : Expert → List Expert → List Expert
insert_expert x [] = x ∷ []
insert_expert x (y ∷ ys) =
    let rest = insert_expert x ys in if leb x.layer y.layer then x ∷ y ∷ ys else y ∷ rest

abbrev pub add_expert : Patterns → Tensor → Option ℕ → List Expert → List Expert
add_expert patterns t none xs = xs
add_expert patterns t (some layer) xs =
    if patterns.is_expert t.name
    then insert_expert (record { layer = layer; name = t.name }) xs
    else xs

unfoldable pub experts : Patterns → List Tensor → List Expert
experts patterns [] = []
experts patterns (t ∷ ts) =
    add_expert patterns t (patterns.tensor_layer t.name) (experts patterns ts)

unfoldable pub names : List Expert → List String
names [] = []
names (x ∷ xs) = x.name ∷ names xs

-- `fits`.
unfoldable pub fits : Patterns → Model → Settings → Budget → Placement → Bool
fits patterns model s b p = is_within b (gpu_bytes (build patterns model s p))

abbrev pub moved : List String → Placement → ℕ → Placement
moved expert_names p count = record p { fitted_to_ram = take count expert_names }

abbrev pub offloaded : Placement → ℕ → Placement
offloaded p layers = record p { gpu_layers = some layers }

abbrev pub or_no_layer : Option ℕ → ℕ
or_no_layer none = 0
or_no_layer (some n) = n

-- The second half of `_fit`; `auto_layers` says that "n-gpu-layers" is unset or "auto".
unfoldable pub fit_layers : Patterns → Model → Settings → Bool → Budget → Placement → Placement
fit_layers patterns model s auto_layers b p =
    if auto_layers
    then offloaded p (
        or_no_layer
          (largest (layer_count_of model + 1) (λ n. fits patterns model s b (offloaded p n))))
    else p

abbrev pub is_unset : CpuMoe → Bool
is_unset unset = true
is_unset all_layers = false
is_unset (first_layers n) = false

abbrev pub is_empty {ℓ} : {A : Type ℓ} → List A → Bool
is_empty [] = true
is_empty (x ∷ xs) = false

-- `_fit`, without the text that describes what it changed.
unfoldable pub fit : Patterns → Model → Settings → Bool → Budget → Placement → Placement
fit patterns model s auto_layers b p =
    let expert_names = names (experts patterns model.tensors) in
    if not (is_empty expert_names) && (is_unset p.cpu_moe_layers && is_empty p.overrides)
    then elim (smallest (length expert_names)
        (λ count. fits patterns model s b (moved expert_names p count))) [
          | some count ↦ moved expert_names p count
          | none ↦
              fit_layers patterns model s auto_layers b (moved expert_names p (length expert_names))
        ]
    else fit_layers patterns model s auto_layers b p

-- The placement that `estimate_memory` counts: `_fit`'s, when `--fit` is on and the model and the
-- extra parts (a draft model and a projector) are over a known budget.
unfoldable pub placement_for :
    Patterns → Model → Settings → Bool → Bool → Option Budget → ℕ → Placement → Placement
placement_for patterns model s fit_on auto_layers none extra p = p
placement_for patterns model s fit_on auto_layers (some b) extra p =
    if s.gpu && (fit_on && not (is_within b (gpu_bytes (build patterns model s p) + extra)))
    then fit patterns model s auto_layers (record b { reserved = b.reserved + extra }) p
    else p
