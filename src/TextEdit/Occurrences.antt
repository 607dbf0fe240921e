-- ===== src/TextEdit/Occurrences.antt =====
-- The occurrences of a search, and the text around them.
use llama_web_ui.Prelude.{
  ◌-◌, true, false, ℕ, zero, suc, ◌+◌, ◌≡◌, refl, sym, ap, ◌∙◌, none, some, [], ◌∷◌, ◌++◌, arith,
  Bool-cases, inl, inr, ◌==◌, ==_iff, length, take, drop, length-append,
}
use mathlib.Core.Option.{some-injective}
use mathlib.Core.List.{append_assoc}
use llama_web_ui.TextEdit.{Text, is_prefix, find_in, replace_skip, Match, replace_at}

is_prefix-split : (s t : Text) → is_prefix s t ≡ true → (rest : Text) × (t ≡ s ++ rest)
unfolding is_prefix
is_prefix-split [] t h = (t, refl)
is_prefix-split (x ∷ xs) [] h = cc
is_prefix-split (x ∷ xs) (y ∷ ys) h = elim (Bool-cases (x == y)) [
  | inl same ↦
      let (rest, e) = is_prefix-split xs ys (rw same at h) in
      (rest, rw ((==_iff x y).0 same) (ap (λ ts. y ∷ ts) e))
  | inr other ↦ cc (rw other at h)
]

take_at : (n : ℕ) (a b : Text) → n ≡ length a → take n (a ++ b) ≡ a
take_at zero [] b e = refl
take_at zero (x ∷ a) b e = absurd (no_length e)
  where
    no_length : zero ≡ suc (length a) → ⊥
    no_length q = omega arith
take_at (suc n) [] b e = absurd (no_length e)
  where
    no_length : suc n ≡ 0 → ⊥
    no_length q = omega arith
take_at (suc n) (x ∷ a) b e = ap (λ xs. x ∷ xs) (take_at n a b (omega (arith, e)))

pub drop_at : (n : ℕ) (a b : Text) → n ≡ length a → drop n (a ++ b) ≡ b
drop_at zero [] b e = refl
drop_at zero (x ∷ a) b e = absurd (no_length e)
  where
    no_length : zero ≡ suc (length a) → ⊥
    no_length q = omega arith
drop_at (suc n) [] b e = absurd (no_length e)
  where
    no_length : suc n ≡ 0 → ⊥
    no_length q = omega arith
drop_at (suc n) (x ∷ a) b e = drop_at n a b (omega (arith, e))

replace_skip-length :
    (old new a rest : Text) (k : ℕ)
    → k ≡ length a
    → replace_skip old new k (a ++ rest) ≡ replace_skip old new zero rest
unfolding replace_skip
replace_skip-length old new [] rest k e = ap (λ n. replace_skip old new n rest) e
replace_skip-length old new (x ∷ a) rest zero e = absurd (no_length e)
  where
    no_length : zero ≡ suc (length a) → ⊥
    no_length q = omega arith
replace_skip-length old new (x ∷ a) rest (suc k) e =
    replace_skip-length old new a rest k (omega (arith, e))

-- Where the search is found, and what replacing it there gives.
pub record IsFound (search text : Text) (offset p : ℕ) : Type 0 where
  pub before : Text
  pub rest : Text
  pub splits : text ≡ before ++ (search ++ rest)
  pub position : p ≡ offset + length before
  pub replaces :
      (new : Text)
      → replace_skip search new zero text ≡ before ++ (new ++ replace_skip search new zero rest)

module _ (x : ℕ) (xs : Text) where
  tail_of : Text → Text
  tail_of [] = []
  tail_of (c ∷ cs) = cs

  one_less : (n : ℕ) → suc n - 1 ≡ n
  one_less n = omega arith

  pub replace_skip-here :
      (new : Text) (c : ℕ) (cs : Text)
      → is_prefix (x ∷ xs) (c ∷ cs) ≡ true
      → replace_skip (x ∷ xs) new zero (c ∷ cs) ≡ new ++ replace_skip (x ∷ xs) new (length xs) cs
  unfolding replace_skip
  replace_skip-here new c cs here =
      rw here (ap (λ n. new ++ replace_skip (x ∷ xs) new n cs) (one_less (length xs)))

  pub replace_skip-later :
      (new : Text) (c : ℕ) (cs : Text)
      → is_prefix (x ∷ xs) (c ∷ cs) ≡ false
      → replace_skip (x ∷ xs) new zero (c ∷ cs) ≡ c ∷ replace_skip (x ∷ xs) new zero cs
  unfolding replace_skip
  replace_skip-later new c cs later = rw later refl

  nothing_prefixed : is_prefix (x ∷ xs) [] ≡ false
  unfolding is_prefix
  nothing_prefixed = refl

  pub find_in-IsFound :
      (text : Text) (offset p : ℕ)
      → find_in (x ∷ xs) text offset ≡ some p
      → IsFound (x ∷ xs) text offset p
  unfolding find_in tail_of
  find_in-IsFound [] offset p h = cc (rw nothing_prefixed at h)
  find_in-IsFound (c ∷ cs) offset p h = elim (Bool-cases (is_prefix (x ∷ xs) (c ∷ cs))) [
    | inl here ↦
        let (rest, e) = is_prefix-split (x ∷ xs) (c ∷ cs) here in
        record {
          before = [];
          rest = rest;
          splits = e;
          position = omega (arith, some-injective _ _ (rw here at h));
          replaces = λ new.
              replace_skip-here new c cs here
              ∙ ap (λ t. new ++ t)
                  (ap (λ t. replace_skip (x ∷ xs) new (length xs) t) (ap tail_of e)
                    ∙ replace_skip-length (x ∷ xs) new xs rest (length xs) refl);
        }
    | inr later ↦
        let f = find_in-IsFound cs (suc offset) p (rw later at h) in
        record {
          before = c ∷ f.before;
          rest = f.rest;
          splits = ap (λ t. c ∷ t) f.splits;
          position = omega (arith, f.position);
          replaces = λ new. replace_skip-later new c cs later ∙ ap (λ t. c ∷ t) (f.replaces new);
        }
  ]

  pub find_in-none :
      (new text : Text) (offset : ℕ)
      → find_in (x ∷ xs) text offset ≡ none
      → replace_skip (x ∷ xs) new zero text ≡ text
  unfolding find_in replace_skip
  find_in-none new [] offset h = refl
  find_in-none new (c ∷ cs) offset h = elim (Bool-cases (is_prefix (x ∷ xs) (c ∷ cs))) [
    | inl here ↦ cc (rw here at h)
    | inr later ↦ rw later (ap (λ t. c ∷ t) (find_in-none new cs (suc offset) (rw later at h)))
  ]

  -- Replacing an occurrence behind what comes before it.
  pub replace_at-between :
      (new before rest : Text) (m : Match)
      → m.start ≡ length before
      → m.stop ≡ length before + length (x ∷ xs)
      → replace_at new m (before ++ ((x ∷ xs) ++ rest)) ≡ before ++ (new ++ rest)
  unfolding replace_at
  replace_at-between new before rest m s e =
      ap (λ a. a ++ (new ++ drop m.stop (before ++ ((x ∷ xs) ++ rest))))
        (take_at m.start before _ s)
      ∙ ap (λ b. before ++ (new ++ b))
          (ap (drop m.stop) (sym (append_assoc before (x ∷ xs) rest))
            ∙ drop_at m.stop (before ++ (x ∷ xs)) rest (e ∙ sym (length-append before (x ∷ xs))))
