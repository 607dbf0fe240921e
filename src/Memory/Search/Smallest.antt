-- ===== src/Memory/Search/Smallest.antt =====
-- What `_smallest` finds.
use mathlib.Core.Option.{some-injective}
use llama_web_ui.Prelude.{
  ℕ, zero, suc, ◌+◌, ◌/◌, ◌≤◌, ◌<◌, ◌≡◌, ◌↔◌, ap, subst, ltb→lt, inl, inr, Bool, true, false, some,
  ltb, arith, Bool-cases,
}
use llama_web_ui.Memory.Search.{Range, narrow_down, smallest_loop, smallest}

-- A test that stays ok once it is.
abbrev pub StaysOk : (ℕ → Bool) → Type 0
StaysOk ok = (i j : ℕ) → i ≤ j → ok i ≡ true → ok j ≡ true

-- `k` is ok within the limit, and nothing below it is.
pub record IsLeast (limit : ℕ) (ok : ℕ → Bool) (k : ℕ) : Type 0 where
  pub within : k ≤ limit
  pub is_ok : ok k ≡ true
  pub none_below : (j : ℕ) → j < k → ok j ≡ false

-- The range of `_smallest`: its top is ok, and nothing below it is.
record IsBracket (limit : ℕ) (ok : ℕ → Bool) (r : Range) : Type 0 where
  ordered : r.low ≤ r.high
  top : r.high ≤ limit
  top_ok : ok r.high ≡ true
  below : (j : ℕ) → j < r.low → ok j ≡ false

closed :
    (limit : ℕ) (ok : ℕ → Bool) (r : Range)
    → IsBracket limit ok r
    → r.high ≤ r.low
    → IsLeast limit ok r.low
closed limit ok r b le =
    let same : r.low ≡ r.high = omega (arith, b.ordered) in
    record {
      within = omega (arith, b.ordered, b.top);
      is_ok = rw same b.top_ok;
      none_below = b.below;
    }

module _ (limit : ℕ) (ok : ℕ → Bool) (stays : StaysOk ok) where
  not_below : (m j : ℕ) → ok m ≡ false → j ≤ m → ok j ≡ false
  not_below m j bad le = elim (Bool-cases (ok j)) [
    | inl good ↦ ground (arith, stays j m le good)
    | inr same ↦ same
  ]

  narrow_down-IsBracket :
      (r : Range) → r.low < r.high → IsBracket limit ok r → IsBracket limit ok (narrow_down ok r)
  unfolding narrow_down
  narrow_down-IsBracket r lt b = elim (Bool-cases (ok ((r.low + r.high) / 2))) [
    | inl good ↦ rw good (record {
      ordered = omega arith;
      top = omega (arith, b.top);
      top_ok = good;
      below = b.below;
    })
    | inr bad ↦ rw bad (record {
      ordered = omega arith;
      top = b.top;
      top_ok = b.top_ok;
      below = λ j le. not_below ((r.low + r.high) / 2) j bad (omega arith);
    })
  ]

  narrow_down-shrinks :
      (r : Range) (n : ℕ)
      → r.low < r.high
      → r.high ≤ r.low + (n + 1)
      → (narrow_down ok r).high ≤ (narrow_down ok r).low + n
  unfolding narrow_down
  narrow_down-shrinks r n lt le = ground arith

  smallest_loop-IsLeast :
      (n : ℕ) (r : Range)
      → IsBracket limit ok r
      → r.high ≤ r.low + n
      → IsLeast limit ok (smallest_loop n ok r)
  unfolding smallest_loop
  smallest_loop-IsLeast zero r b le = closed limit ok r b (omega arith)
  smallest_loop-IsLeast (suc n) r b le = elim (Bool-cases (ltb r.low r.high)) [
    | inl open_still ↦
        let lt = ltb→lt r.low r.high open_still in
        rw open_still (
          smallest_loop-IsLeast n (narrow_down ok r) (narrow_down-IsBracket r lt b)
            (narrow_down-shrinks r n lt (omega arith)))
    | inr done ↦ rw done (closed limit ok r b (ground arith))
  ]

  IsLeast-unique : {j k : ℕ} → IsLeast limit ok j → IsLeast limit ok k → j ≡ k
  IsLeast-unique {j} {k} a b = ground (arith, a.is_ok, b.is_ok, a.none_below k, b.none_below j)

  whole : ok limit ≡ true → IsBracket limit ok (record { low = 0; high = limit })
  whole good = record {
    ordered = omega arith;
    top = omega arith;
    top_ok = good;
    below = λ j lt. absurd (omega arith);
  }

  -- For a test that stays ok once it is, `_smallest` finds a value exactly when it is the least one
  -- up to the limit that is ok.
  pub smallest_iff : (k : ℕ) → (smallest limit ok ≡ some k) ↔ IsLeast limit ok k
  unfolding smallest
  smallest_iff k = elim (Bool-cases (ok limit)) [
    | inr bad ↦ (
      λ found. cc (rw (bad, smallest) at found),
      λ least. absurd (ground (arith, stays k limit least.within least.is_ok)),
    )
    | inl good ↦
        let least =
          smallest_loop-IsLeast limit (record { low = 0; high = limit }) (whole good)
            (omega arith) in
        (
          λ found.
              subst (IsLeast limit ok) (some-injective _ _ (rw (good, smallest) at found)) least,
          λ given. rw (good, smallest) (ap some (IsLeast-unique least given)),
        )
  ]

smallest_loop-ok :
    (n : ℕ) (ok : ℕ → Bool) (r : Range)
    → ok r.high ≡ true
    → r.low ≤ r.high
    → r.high ≤ r.low + n
    → ok (smallest_loop n ok r) ≡ true
unfolding smallest_loop narrow_down
smallest_loop-ok zero ok r good le short = let same : r.low ≡ r.high = omega arith in rw same good
smallest_loop-ok (suc n) ok r good le short = elim (Bool-cases (ltb r.low r.high)) [
  | inr done ↦ let same : r.low ≡ r.high = ground arith in rw (done, same) good
  | inl open_still ↦
      let lt = ltb→lt r.low r.high open_still in
      rw open_still
        (smallest_loop-ok n ok (narrow_down ok r) (ground arith) (ground arith) (ground arith))
]

-- Whatever the test, a value that `_smallest` finds is ok.
pub smallest-ok : (limit : ℕ) (ok : ℕ → Bool) (k : ℕ) → smallest limit ok ≡ some k → ok k ≡ true
unfolding smallest
smallest-ok limit ok k found = elim (Bool-cases (ok limit)) [
  | inr bad ↦ cc (rw (bad, smallest) at found)
  | inl good ↦
      subst (λ j. ok j ≡ true) (some-injective _ _ (rw (good, smallest) at found))
        (smallest_loop-ok limit ok (record { low = 0; high = limit }) good (omega arith)
          (omega arith))
]
