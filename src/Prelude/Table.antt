-- ===== src/Prelude/Table.antt =====
-- Database tables as lists of rows, with a text for primary key.
use Prim.Native.Nat.{ℕ, ◌+◌}
use Prim.Native.String.{String}
use mathlib.Core.Path.{◌≡◌, refl, sym, ◌∙◌, ap}
use mathlib.Core.Logic.{◌≢◌, ite, if_pos, if_neg}
use mathlib.Core.Option.{Option, none, some, some-injective}
use mathlib.Core.List.{List, [], ◌∷◌, ◌++◌}
use native.Mathlib.Omega.{arith}
use llama_web_ui.Prelude.Text.{string_discrete}
use llama_web_ui.Prelude.Lists.{sum_of}

-- `session.get(Record, i)`.
unfoldable pub find {ℓ} : {A : Type ℓ} → (A → String) → String → List A → Option A
find key i [] = none
find key i (r ∷ rs) = ite (string_discrete (key r) i) (some r) (find key i rs)

-- The row with the key of `r` becomes `r`.
unfoldable pub store {ℓ} : {A : Type ℓ} → (A → String) → A → List A → List A
store key r [] = []
store key r (q ∷ qs) = ite (string_discrete (key q) (key r)) (r ∷ qs) (q ∷ store key r qs)

-- `session.delete(row)`.
unfoldable pub delete {ℓ} : {A : Type ℓ} → (A → String) → String → List A → List A
delete key i [] = []
delete key i (q ∷ qs) = ite (string_discrete (key q) i) qs (q ∷ delete key i qs)

module _ {ℓ} {A : Type ℓ} (key : A → String) where
  pub find-key : (i : String) (rs : List A) {r : A} → find key i rs ≡ some r → key r ≡ i
  unfolding find
  find-key i [] h = cc
  find-key i (q ∷ qs) h = elim (string_discrete (key q) i) [
    | yes p ↦ ap key (some-injective _ _ (sym (rw (if_pos _ p) at h))) ∙ p
    | no n ↦ find-key i qs (rw (if_neg _ n) at h)
  ]

  pub find-store_self :
      (i : String) (rs : List A) {r : A} (r' : A)
      → find key i rs ≡ some r
      → key r' ≡ i
      → find key i (store key r' rs) ≡ some r'
  unfolding find store
  find-store_self i [] r' f e = cc
  find-store_self i (q ∷ qs) r' f e = elim (string_discrete (key q) i) [
    | yes p ↦ rw (if_pos _ (p ∙ sym e)) (rw (if_pos _ e))
    | no n ↦
        rw (if_neg _ (λ x. n (x ∙ e)))
          (rw (if_neg _ n) (find-store_self i qs r' (rw (if_neg _ n) at f) e))
  ]

  pub find-store_ne :
      (j : String) (rs : List A) (r' : A)
      → j ≢ key r'
      → find key j (store key r' rs) ≡ find key j rs
  unfolding find store
  find-store_ne j [] r' n = refl
  find-store_ne j (q ∷ qs) r' n = elim (string_discrete (key q) (key r')) [
    | yes p ↦ rw (if_pos _ p) (rw (if_neg _ (λ x. n (sym x)), if_neg _ (λ x. n (sym x ∙ p))))
    | no m ↦
        rw (if_neg _ m) (ap (ite (string_discrete (key q) j) (some q)) (find-store_ne j qs r' n))
  ]

  pub find-delete_ne :
      (j i : String) (rs : List A) → j ≢ i → find key j (delete key i rs) ≡ find key j rs
  unfolding find delete
  find-delete_ne j i [] n = refl
  find-delete_ne j i (q ∷ qs) n = elim (string_discrete (key q) i) [
    | yes p ↦ rw (if_pos _ p) (rw (if_neg _ (λ x. n (sym x ∙ p))))
    | no m ↦
        rw (if_neg _ m) (ap (ite (string_discrete (key q) j) (some q)) (find-delete_ne j i qs n))
  ]

  pub find-append :
      (i : String) (rs qs : List A) {r : A}
      → find key i rs ≡ some r
      → find key i (rs ++ qs) ≡ some r
  unfolding find
  find-append i [] qs h = cc
  find-append i (q ∷ rs) qs h = elim (string_discrete (key q) i) [
    | yes p ↦ rw (if_pos _ p) (rw (if_pos _ p) at h)
    | no n ↦ rw (if_neg _ n) (find-append i rs qs (rw (if_neg _ n) at h))
  ]

  -- A sum over the rows after one of them is replaced or deleted.
  pub sum_of-store :
      (f : A → ℕ) (i : String) (rs : List A) {r : A} (r' : A)
      → find key i rs ≡ some r
      → key r' ≡ i
      → sum_of f (store key r' rs) + f r ≡ sum_of f rs + f r'
  unfolding find store
  sum_of-store f i [] r' h e = cc
  sum_of-store f i (q ∷ qs) r' h e = elim (string_discrete (key q) i) [
    | yes p ↦
        rw (if_pos _ (p ∙ sym e))
          (omega (arith, ap (λ x. f x) (some-injective _ _ (rw (if_pos _ p) at h))))
    | no n ↦
        rw (if_neg _ (λ x. n (x ∙ e)))
          (omega (arith, sum_of-store f i qs r' (rw (if_neg _ n) at h) e))
  ]

  pub sum_of-delete :
      (f : A → ℕ) (i : String) (rs : List A) {r : A}
      → find key i rs ≡ some r
      → sum_of f (delete key i rs) + f r ≡ sum_of f rs
  unfolding find delete
  sum_of-delete f i [] h = cc
  sum_of-delete f i (q ∷ qs) h = elim (string_discrete (key q) i) [
    | yes p ↦
        rw (if_pos _ p) (omega (arith, ap (λ x. f x) (some-injective _ _ (rw (if_pos _ p) at h))))
    | no n ↦ rw (if_neg _ n) (omega (arith, sum_of-delete f i qs (rw (if_neg _ n) at h)))
  ]

  pub sum_of-append : (f : A → ℕ) (rs qs : List A) → sum_of f (rs ++ qs) ≡ sum_of f rs + sum_of f qs
  sum_of-append f [] qs = omega arith
  sum_of-append f (r ∷ rs) qs = omega (arith, sum_of-append f rs qs)
