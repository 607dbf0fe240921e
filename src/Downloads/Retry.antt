-- ===== src/Downloads/Retry.antt =====
-- The retries of a transfer (services/download_worker.py).
mod Tests
use llama_web_ui.Prelude.{
  ℕ, zero, suc, ◌+◌, ◌<◌, String, Bool, true, false, Option, some, none, ◌==◌, ◌≡◌, refl, ◌∙◌,
  subst, ℕ_discrete, if◌then◌else◌, arith, Bool-cases, inl, inr,
}

-- How one call of the transfer ends: with a path, an `OSError` or `TimeoutError`, or another
-- exception or a cancellation.
pub data Outcome : Type 0 where
  returned failed broken : String → Outcome
  cancelled_transfer : Outcome

abbrev pub is_failure : Outcome → Bool
is_failure (failed e) = true
is_failure _ = false

-- `_TRANSFER_RETRY_LIMIT`.
abbrev pub retry_limit : ℕ
retry_limit = 3

-- The loop of `_download_with_retries`, on the attempts that are left; `none` is its end without a
-- result.
unfoldable pub retry_from : (ℕ → Outcome) → ℕ → ℕ → Option Outcome
retry_from transfer zero attempt = none
retry_from transfer (suc left) attempt =
    let next = retry_from transfer left (attempt + 1) in
    if is_failure (transfer attempt)
    then (if attempt + 1 == retry_limit then some (transfer attempt) else next)
    else some (transfer attempt)

-- `_download_with_retries`.
abbrev pub download_with_retries : (ℕ → Outcome) → Option Outcome
download_with_retries transfer = retry_from transfer retry_limit 0

-- The result is that of an attempt before the limit, all earlier ones failed, and if it failed too
-- it was the last.
pub record IsSettled (transfer : ℕ → Outcome) (start : ℕ) (result : Option Outcome) : Type 0 where
  pub last : ℕ
  pub in_limit : last < retry_limit
  pub result_of : result ≡ some (transfer last)
  pub earlier : (j : ℕ) → start < j + 1 → j < last → is_failure (transfer j) ≡ true
  pub final : is_failure (transfer last) ≡ true → last + 1 ≡ retry_limit

retry_from-IsSettled :
    (transfer : ℕ → Outcome) (left attempt : ℕ)
    → left + attempt ≡ retry_limit
    → attempt < retry_limit
    → IsSettled transfer attempt (retry_from transfer left attempt)
unfolding retry_from
retry_from-IsSettled transfer zero attempt e h = elim (absurd_bound attempt e h) [ ]
  where
    absurd_bound : (a : ℕ) → 0 + a ≡ 3 → a < 3 → ⊥
    absurd_bound a e h = omega arith
retry_from-IsSettled transfer (suc left) attempt e h =
    elim (Bool-cases (is_failure (transfer attempt))) [
      | inr good ↦ record {
        last = attempt;
        in_limit = h;
        result_of = rw (good, retry_from) refl;
        earlier = λ j from below. ground arith;
        final = λ bad. cc;
      }
      | inl bad ↦ elim (Bool-cases (attempt + 1 == retry_limit)) [
        | inl end ↦ record {
          last = attempt;
          in_limit = h;
          result_of = rw (bad, end, retry_from) refl;
          earlier = λ j from below. ground arith;
          final = λ _. ground arith;
        }
        | inr more ↦
            let next =
              retry_from-IsSettled transfer left (attempt + 1) (omega arith) (ground arith) in
            record {
              last = next.last;
              in_limit = next.in_limit;
              result_of = rw (bad, more, retry_from) (next.result_of);
              earlier = λ j from below. elim (ℕ_discrete attempt j) [
                | yes p ↦ subst (λ i. is_failure (transfer i) ≡ true) p bad
                | no n ↦ next.earlier j (omega (arith, n)) below
              ];
              final = next.final;
            }
      ]
    ]

-- Whatever the transfer answers, the loop ends with the answer of one of its three attempts, all
-- earlier attempts having failed, and of the third if that one failed too.
pub download_with_retries-IsSettled :
    (transfer : ℕ → Outcome) → IsSettled transfer 0 (download_with_retries transfer)
download_with_retries-IsSettled transfer =
    retry_from-IsSettled transfer retry_limit 0 (omega arith) (omega arith)
