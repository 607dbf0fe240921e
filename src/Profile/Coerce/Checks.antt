-- ===== src/Profile/Coerce/Checks.antt =====
-- What the checks of texts and numbers leave (domain/profile_arguments.py).
use llama_web_ui.Prelude.{
  Bool-cases, ap, ◌≡◌, subst, String, Bool, true, false, Option, none, some, List, contains,
  if-cases, same_text, Option-cases, inl, inr,
}
use mathlib.Core.Option.{some-injective}
use llama_web_ui.Profile.Value.{
  Number, int, float, text, number, flag, other, Raw, one, list, Result, ok, err, ValueError, ◌>>=◌,
  Python, format_number,
}
use llama_web_ui.Profile.Coerce.{
  check_text, coerce_text, read_number, check_number, special_value, coerce_number, check_pattern,
  is_infinite, is_below, is_above,
}
use llama_web_ui.Profile.Coerce.Types.{IsText, IsFormed, IsOfKind, IsNumeric}

value_or {ℓ} : {A : Type ℓ} → A → Result A → A
value_or a (ok b) = b
value_or a (err e) = a

ok-injective {ℓ} : {A : Type ℓ} {a b : A} → ok a ≡ ok b → a ≡ b
unfolding value_or
ok-injective {a = a} h = ap (value_or a) h

-- A property of a result that is no error.
pub data Gives {ℓ} {A : Type ℓ} (P : A → Type 0) : Result A → Type ℓ where
  gives : {a : A} → P a → Gives P (ok a)
  refuses : {e : ValueError} → Gives P (err e)

pub >>=-Gives {ℓ κ} :
    {A : Type ℓ} {B : Type κ} {P : A → Type 0} {Q : B → Type 0} {r : Result A} (f : A → Result B)
    → Gives P r
    → ((a : A) → P a → Gives Q (f a))
    → Gives Q (r >>= f)
>>=-Gives f (gives h) on = on _ h
>>=-Gives f refuses on = refuses

pub Gives-ok {ℓ} : {A : Type ℓ} {P : A → Type 0} {r : Result A} {a : A} → Gives P r → r ≡ ok a → P a
Gives-ok {P = P} (gives h) e = subst P (ok-injective e) h
Gives-ok refuses e = cc

module _ (py : Python) where
  check_text-IsText : (t : String) → Gives (IsText py) (check_text py t)
  unfolding check_text
  check_text-IsText t =
      if-cases (Gives (IsText py)) (same_text t "") (λ _. refuses)
        (λ some_text.
          if-cases (Gives (IsText py)) (py.has_control t) (λ _. refuses)
            (λ clean. gives (some_text, clean)))

  pub coerce_text-IsText : (raw : Raw) → Gives (IsText py) (coerce_text py raw)
  unfolding coerce_text
  coerce_text-IsText (one (text t)) = check_text-IsText t
  coerce_text-IsText (one (number n)) = check_text-IsText (format_number py n)
  coerce_text-IsText (one (flag b)) = refuses
  coerce_text-IsText (one (other j)) = refuses
  coerce_text-IsText (list is) = refuses

  pub check_pattern-IsFormed :
      (p : Option String) (t : String) {P : String → Type 0}
      → (IsFormed py p t → P t)
      → Gives P (check_pattern py p t)
  unfolding check_pattern
  check_pattern-IsFormed none t on = gives (on tt)
  check_pattern-IsFormed (some p) t {P = P} on =
      if-cases (Gives P) (py.search p t) (λ found. gives (on found)) (λ _. refuses)

  read_number-IsOfKind :
      (whole : Bool) (raw : Raw) → Gives (IsOfKind py whole) (read_number py whole raw)
  unfolding read_number
  read_number-IsOfKind true (one (number (int n))) = gives tt
  read_number-IsOfKind false (one (number (int n))) = gives tt
  read_number-IsOfKind true (one (number (float f))) =
      if-cases (Gives (IsOfKind py true)) (py.is_integer f) (λ _. gives tt) (λ _. refuses)
  read_number-IsOfKind false (one (number (float f))) = gives tt
  read_number-IsOfKind true (one (text t)) = elim (Option-cases (py.parse_int (py.strip t))) [
    | inr (n, parsed) ↦ rw (parsed, read_number) (gives tt)
    | inl none_parsed ↦ rw (none_parsed, read_number) refuses
  ]
  read_number-IsOfKind false (one (text t)) = elim (Option-cases (py.parse_int (py.strip t))) [
    | inr (n, parsed) ↦ rw (parsed, read_number) (gives tt)
    | inl none_parsed ↦ elim (Option-cases (py.parse_float (py.strip t))) [
      | inr (f, parsed) ↦ rw (none_parsed, parsed, read_number) (gives tt)
      | inl no_float ↦ rw (none_parsed, no_float, read_number) refuses
    ]
  ]
  read_number-IsOfKind whole (one (flag b)) = refuses
  read_number-IsOfKind whole (one (other j)) = refuses
  read_number-IsOfKind whole (list is) = refuses

  check_number-IsInRange :
      (whole : Bool) (specials : List String) (minimum maximum : Option Number) (n : Number)
      → IsOfKind py whole n
      → Gives (IsNumeric py whole specials minimum maximum) (check_number py minimum maximum n)
  unfolding check_number
  check_number-IsInRange whole specials minimum maximum n k =
      let G = Gives (IsNumeric py whole specials minimum maximum) in
      if-cases G (is_infinite py n) (λ _. refuses)
        (λ finite.
          if-cases G (is_below py n minimum) (λ _. refuses)
            (λ least.
              if-cases G (is_above py n maximum) (λ _. refuses)
                (λ most. gives (k, (finite, least, most)))))

  module _ (idem : (s : String) → py.strip (py.strip s) ≡ py.strip s) where
    special_value-special :
        (specials : List String) (raw : Raw) {t : String}
        → special_value py specials raw ≡ some t
        → (contains specials t ≡ true) × (py.strip t ≡ t)
    unfolding special_value
    special_value-special specials (one (text s)) h =
        elim (Bool-cases (contains specials (py.strip s))) [
          | inl listed ↦
              subst (λ x. (contains specials x ≡ true) × (py.strip x ≡ x))
                (some-injective _ _ (rw listed at h)) (listed, idem s)
          | inr unlisted ↦ cc (rw unlisted at h)
        ]
    special_value-special specials (one (number n)) h = cc
    special_value-special specials (one (flag b)) h = cc
    special_value-special specials (one (other j)) h = cc
    special_value-special specials (list is) h = cc

    pub coerce_number-IsNumeric :
        (whole : Bool) (specials : List String) (minimum maximum : Option Number) (raw : Raw)
        → Gives
            (IsNumeric py whole specials minimum maximum)
            (coerce_number py whole specials minimum maximum raw)
    unfolding coerce_number
    coerce_number-IsNumeric whole specials minimum maximum raw =
        elim (Option-cases (special_value py specials raw)) [
          | inr (t, special) ↦
              rw (special, coerce_number) (gives (special_value-special specials raw special))
          | inl plain ↦
              rw (plain, coerce_number)
                (>>=-Gives _ (read_number-IsOfKind whole raw)
                  (check_number-IsInRange whole specials minimum maximum))
        ]
