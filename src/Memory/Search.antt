-- ===== src/Memory/Search.antt =====
-- The binary searches of services/memory_estimate.py. A loop runs on fuel; each turn takes at least
-- one value out of the range, so the limit is fuel enough.
pub mod Smallest
pub mod Largest
use llama_web_ui.Prelude.{
  ℕ, zero, suc, ◌+◌, ◌-◌, ◌/◌, Bool, Option, none, some, not, ltb, if◌then◌else◌,
}

pub record Range : Type 0 where
  pub low : ℕ
  pub high : ℕ

-- One turn of the loop of `_smallest`.
unfoldable pub narrow_down : (ℕ → Bool) → Range → Range
narrow_down ok r =
    let middle = (r.low + r.high) / 2 in
    if ok middle then record r { high = middle } else record r { low = middle + 1 }

unfoldable pub smallest_loop : ℕ → (ℕ → Bool) → Range → ℕ
smallest_loop zero ok r = r.low
smallest_loop (suc fuel) ok r =
    let rest = smallest_loop fuel ok (narrow_down ok r) in if ltb r.low r.high then rest else r.low

-- `_smallest`.
unfoldable pub smallest : ℕ → (ℕ → Bool) → Option ℕ
smallest limit ok =
    if not (ok limit)
    then none
    else some (smallest_loop limit ok (record { low = 0; high = limit }))

-- One turn of the loop of `_largest`.
unfoldable pub narrow_up : (ℕ → Bool) → Range → Range
narrow_up ok r =
    let middle = (r.low + r.high + 1) / 2 in
    if ok middle then record r { low = middle } else record r { high = middle - 1 }

unfoldable pub largest_loop : ℕ → (ℕ → Bool) → Range → ℕ
largest_loop zero ok r = r.low
largest_loop (suc fuel) ok r =
    let rest = largest_loop fuel ok (narrow_up ok r) in if ltb r.low r.high then rest else r.low

-- `_largest`.
unfoldable pub largest : ℕ → (ℕ → Bool) → Option ℕ
largest limit ok =
    if not (ok 0) then none else some (largest_loop limit ok (record { low = 0; high = limit }))
