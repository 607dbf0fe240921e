-- ===== src/Memory/Search/Largest.antt =====
-- What `_largest` finds.
use mathlib.Core.Option.{some-injective}
use llama_web_ui.Prelude.{
  ℕ, zero, suc, ◌+◌, ◌/◌, ◌≤◌, ◌<◌, ◌≡◌, ◌↔◌, refl, ap, subst, ltb→lt, inl, inr, Bool, true, false,
  some, ltb, arith, Bool-cases,
}
use llama_web_ui.Memory.Search.{Range, narrow_up, largest_loop, largest}

-- A test that is ok below every value where it is.
abbrev pub OkBelow : (ℕ → Bool) → Type 0
OkBelow ok = (i j : ℕ) → i ≤ j → ok j ≡ true → ok i ≡ true

-- `k` is ok within the limit, and nothing above it is.
pub record IsGreatest (limit : ℕ) (ok : ℕ → Bool) (k : ℕ) : Type 0 where
  pub within : k ≤ limit
  pub is_ok : ok k ≡ true
  pub none_above : (j : ℕ) → k < j → j ≤ limit → ok j ≡ false

-- The range of `_largest`: its bottom is ok, and nothing above it is.
record IsCobracket (limit : ℕ) (ok : ℕ → Bool) (r : Range) : Type 0 where
  ordered : r.low ≤ r.high
  top : r.high ≤ limit
  bottom_ok : ok r.low ≡ true
  above : (j : ℕ) → r.high < j → j ≤ limit → ok j ≡ false

closed_up :
    (limit : ℕ) (ok : ℕ → Bool) (r : Range)
    → IsCobracket limit ok r
    → r.high ≤ r.low
    → IsGreatest limit ok r.low
closed_up limit ok r b le = record {
  within = omega (arith, b.ordered, b.top);
  is_ok = b.bottom_ok;
  none_above = λ j lt. b.above j (omega arith);
}

module _ (limit : ℕ) (ok : ℕ → Bool) (below : OkBelow ok) where
  not_above : (m j : ℕ) → ok m ≡ false → m ≤ j → ok j ≡ false
  not_above m j bad le = elim (Bool-cases (ok j)) [
    | inl good ↦ ground (arith, below m j le good)
    | inr same ↦ same
  ]

  narrow_up-IsCobracket :
      (r : Range) → r.low < r.high → IsCobracket limit ok r → IsCobracket limit ok (narrow_up ok r)
  unfolding narrow_up
  narrow_up-IsCobracket r lt b = elim (Bool-cases (ok ((r.low + r.high + 1) / 2))) [
    | inl good ↦
        rw good (record { ordered = omega arith; top = b.top; bottom_ok = good; above = b.above })
    | inr bad ↦ rw bad (record {
      ordered = omega arith;
      top = omega (arith, b.top);
      bottom_ok = b.bottom_ok;
      above = λ j le within. not_above ((r.low + r.high + 1) / 2) j bad (omega arith);
    })
  ]

  narrow_up-shrinks :
      (r : Range) (n : ℕ)
      → r.low < r.high
      → r.high ≤ r.low + (n + 1)
      → (narrow_up ok r).high ≤ (narrow_up ok r).low + n
  unfolding narrow_up
  narrow_up-shrinks r n lt le = ground arith

  largest_loop-IsGreatest :
      (n : ℕ) (r : Range)
      → IsCobracket limit ok r
      → r.high ≤ r.low + n
      → IsGreatest limit ok (largest_loop n ok r)
  unfolding largest_loop
  largest_loop-IsGreatest zero r b le = closed_up limit ok r b (omega arith)
  largest_loop-IsGreatest (suc n) r b le = elim (Bool-cases (ltb r.low r.high)) [
    | inl open_still ↦
        let lt = ltb→lt r.low r.high open_still in
        rw open_still (
          largest_loop-IsGreatest n (narrow_up ok r) (narrow_up-IsCobracket r lt b)
            (narrow_up-shrinks r n lt (omega arith)))
    | inr done ↦ rw done (closed_up limit ok r b (ground arith))
  ]

  IsGreatest-unique : {j k : ℕ} → IsGreatest limit ok j → IsGreatest limit ok k → j ≡ k
  IsGreatest-unique {j} {k} a b =
      ground (arith, a.is_ok, b.is_ok, a.within, b.within, a.none_above k, b.none_above j)

  whole_up : ok 0 ≡ true → IsCobracket limit ok (record { low = 0; high = limit })
  whole_up good = record {
    ordered = omega arith;
    top = omega arith;
    bottom_ok = good;
    above = λ j lt le. absurd (omega arith);
  }

  -- For a test that is ok below every value where it is, `_largest` finds a value exactly when it is
  -- the greatest one up to the limit that is ok.
  pub largest_iff : (k : ℕ) → (largest limit ok ≡ some k) ↔ IsGreatest limit ok k
  unfolding largest
  largest_iff k = elim (Bool-cases (ok 0)) [
    | inr bad ↦ (
      λ found. cc (rw (bad, largest) at found),
      λ given. absurd (ground (arith, below 0 k (omega arith) given.is_ok)),
    )
    | inl good ↦
        let given =
          largest_loop-IsGreatest limit (record { low = 0; high = limit }) (whole_up good)
            (omega arith) in
        (
          λ found.
              subst (IsGreatest limit ok) (some-injective _ _ (rw (good, largest) at found)) given,
          λ other. rw (good, largest) (ap some (IsGreatest-unique given other)),
        )
  ]

largest_loop-ok :
    (n : ℕ) (ok : ℕ → Bool) (r : Range) → ok r.low ≡ true → ok (largest_loop n ok r) ≡ true
unfolding largest_loop narrow_up
largest_loop-ok zero ok r good = good
largest_loop-ok (suc n) ok r good = elim (Bool-cases (ltb r.low r.high)) [
  | inr done ↦ rw done good
  | inl open_still ↦ rw open_still (largest_loop-ok n ok (narrow_up ok r) (ground arith))
]

-- Whatever the test, a value that `_largest` finds is ok.
pub largest-ok : (limit : ℕ) (ok : ℕ → Bool) (k : ℕ) → largest limit ok ≡ some k → ok k ≡ true
unfolding largest
largest-ok limit ok k found = elim (Bool-cases (ok 0)) [
  | inr bad ↦ cc (rw (bad, largest) at found)
  | inl good ↦
      subst (λ j. ok j ≡ true) (some-injective _ _ (rw (good, largest) at found))
        (largest_loop-ok limit ok (record { low = 0; high = limit }) good)
]

-- `_largest` finds a value unless 0 is not ok.
pub largest-some : (limit : ℕ) (ok : ℕ → Bool) → ok 0 ≡ true → (k : ℕ) × (largest limit ok ≡ some k)
unfolding largest
largest-some limit ok good =
    (largest_loop limit ok (record { low = 0; high = limit }), rw (good, largest) refl)
