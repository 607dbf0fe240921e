-- ===== src/Profile/CommandLine/Turns.antt =====
-- One argument of a command line against the rules of Reference (domain/model_profile.py).
use llama_web_ui.Prelude.{
  ℕ, zero, suc, ◌/◌, ◌%◌, ◌<◌, ◌≤◌, ◌≡◌, refl, sym, ap, ◌∙◌, Bool, true, false, ◌&&◌, not, Option,
  none, some, List, [], ◌∷◌, ◌++◌, ◌==◌, if◌then◌else◌, length, arith, Bool-cases, inl, inr, ◌⊎◌,
}
use mathlib.Core.List.{append-nil}
use llama_web_ui.Profile.CommandLine.{
  put_first, Text, backslash, quote, is_blank, backslashes, is_over, Taken, after_backslashes,
  take_argument,
}
use llama_web_ui.Profile.CommandLine.Reference.{between, inside, advance, read_arguments}
use llama_web_ui.Profile.CommandLine.Reads.{and_not, quote_blank, read_inside}
use llama_web_ui.Profile.CommandLine.Backslashes.{count_backslashes-IsCounted}

-- What the loops make of the end of an argument.
unfoldable pub finish : Taken → Option (List Text)
finish t = if t.quoted then none else put_first t.value (read_arguments between t.rest)

-- The loop over the characters of an argument ends, and reads as the rules do.
pub record IsTaken (fuel : ℕ) (q : Bool) (v s : Text) : Type 0 where
  pub taken : Taken
  pub result : take_argument fuel q v s ≡ some taken
  pub shorter : length taken.rest ≤ length s
  pub consumes : is_over q s ≡ false → length taken.rest < length s
  pub reads : read_arguments (inside q v 0) s ≡ finish taken

-- Nothing is left of an argument that is over.
over-reads :
    (q : Bool) (v s : Text)
    → is_over q s ≡ true
    → read_arguments (inside q v 0) s ≡ finish (record { quoted = q; value = v; rest = s })
unfolding is_over finish read_arguments put_first backslashes
over-reads true v [] h = refl
over-reads false v [] h = ap (λ t. some (t ∷ [])) (append-nil v)
over-reads true v (c ∷ cs) h = cc
over-reads false v (c ∷ cs) h =
    rw h (ap (λ t. put_first t (read_arguments between cs)) (append-nil v))

-- Backslashes that stand for themselves may be moved to the text.
settled-reads :
    (q : Bool) (v : Text) (k : ℕ) (s : Text)
    → is_over q s ≡ true
    → read_arguments (inside q v k) s ≡ read_arguments (inside q (v ++ backslashes k) 0) s
unfolding is_over read_arguments put_first
settled-reads true v k [] h = refl
settled-reads false v k [] h =
    ap (λ t. some (t ∷ [])) (sym (unfold backslashes in append-nil (v ++ backslashes k)))
settled-reads true v k (c ∷ cs) h = cc
settled-reads false v k (c ∷ cs) h = rw h (
    ap (λ t. put_first t (read_arguments between cs))
      (sym (unfold backslashes in append-nil (v ++ backslashes k))))

module _ (fuel : ℕ) (again : (q : Bool) (v s : Text) → length s < fuel → IsTaken fuel q v s) where
  -- One turn behind its backslashes.
  record TurnTaken (q : Bool) (v : Text) (k : ℕ) (rest : Text) : Type 0 where
    taken : Taken
    result : after_backslashes (take_argument fuel) q v (k, rest) ≡ some taken
    shorter : length taken.rest ≤ length rest
    consumes : is_over q rest ≡ false → length taken.rest < length rest
    reads : read_arguments (inside q v k) rest ≡ finish taken

  settled-TurnTaken :
      (q : Bool) (v : Text) (k : ℕ) (rest : Text)
      → is_over q rest ≡ true
      → length rest < fuel
      → after_backslashes (take_argument fuel) q v (k, rest)
        ≡ take_argument fuel q (v ++ backslashes k) rest
      → TurnTaken q v k rest
  settled-TurnTaken q v k rest over bound same =
      let t = again q (v ++ backslashes k) rest bound in
      record {
        taken = t.taken;
        result = same ∙ t.result;
        shorter = t.shorter;
        consumes = λ h. cc;
        reads = settled-reads q v k rest over ∙ t.reads;
      }

  moved-TurnTaken :
      (q q' : Bool) (v v' : Text) (k c : ℕ) (cs : Text)
      → length cs < fuel
      → (not q && is_blank c) ≡ false
      → advance q v k c ≡ inside q' v' 0
      → after_backslashes (take_argument fuel) q v (k, c ∷ cs) ≡ take_argument fuel q' v' cs
      → TurnTaken q v k (c ∷ cs)
  moved-TurnTaken q q' v v' k c cs bound inner step same =
      let t = again q' v' cs bound in
      record {
        taken = t.taken;
        result = same ∙ t.result;
        shorter = omega (arith, t.shorter);
        consumes = λ h. omega (arith, t.shorter);
        reads = read_inside q v k c cs inner ∙ ap (λ m. read_arguments m cs) step ∙ t.reads;
      }

  after-TurnTaken :
      (q : Bool) (v : Text) (k : ℕ) (rest : Text)
      → ((c : ℕ) (cs : Text) → rest ≡ c ∷ cs → (c == backslash) ≡ false)
      → length rest ≤ fuel
      → (is_over q rest ≡ true → length rest < fuel)
      → TurnTaken q v k rest
  unfolding after_backslashes
  after-TurnTaken q v k [] other bound strict =
      settled-TurnTaken q v k [] (unfold is_over in refl) (strict (unfold is_over in refl)) refl
  after-TurnTaken q v k (c ∷ cs) other bound strict =
      let differs = other c cs refl in
      elim (Bool-cases (c == quote)) [
        | inl mark ↦ elim (Bool-cases (k % 2 == 1)) [
          | inl odd ↦
              moved-TurnTaken q q v (v ++ (backslashes (k / 2) ++ (quote ∷ []))) k c cs
                (omega arith) (and_not q (is_blank c) (quote_blank c mark))
                (unfold advance in rw (differs, mark, odd) refl) (rw (mark, odd) refl)
          | inr even ↦
              moved-TurnTaken q (not q) v (v ++ backslashes (k / 2)) k c cs (omega arith)
                (and_not q (is_blank c) (quote_blank c mark))
                (unfold advance in rw (differs, mark, even) refl) (rw (mark, even) refl)
        ]
        | inr plain ↦ elim (Bool-cases (not q && is_blank c)) [
          | inl ended ↦
              settled-TurnTaken q v k (c ∷ cs) (unfold is_over in ended)
                (strict (unfold is_over in ended)) (rw (plain, ended) refl)
          | inr inner ↦
              moved-TurnTaken q q v (v ++ (backslashes k ++ (c ∷ []))) k c cs (omega arith) inner
                (unfold advance in rw (differs, plain) refl) (rw (plain, inner) refl)
        ]
      ]

  open_turn :
      (q : Bool) (v s : Text) → length s < suc fuel → is_over q s ≡ false → IsTaken (suc fuel) q v s
  unfolding take_argument
  open_turn q v s bound busy =
      let n = count_backslashes-IsCounted 0 s in
      let t =
        after-TurnTaken q v n.number n.rest n.other_head (rest_bound n.rest n.number n.moved)
          (rest_strict n.rest n.number n.moved) in
      record {
        taken = t.taken;
        result = rw (busy, n.counted) t.result;
        shorter = rest_le n.rest n.number t.taken.rest n.moved t.shorter;
        consumes = λ h. rest_lt n.rest n.number t.taken.rest n.moved t.shorter t.consumes;
        reads = n.reads q v ∙ t.reads;
      }
    where
      rest_bound :
          (r : Text) (k : ℕ) → ((k ≡ 0) × (r ≡ s)) ⊎ (length r < length s) → length r ≤ fuel
      rest_bound r k (inl (e, same)) = omega (arith, ap length same, bound)
      rest_bound r k (inr less) = omega (arith, bound)

      rest_strict :
          (r : Text) (k : ℕ)
          → ((k ≡ 0) × (r ≡ s)) ⊎ (length r < length s)
          → is_over q r ≡ true
          → length r < fuel
      rest_strict r k (inl (e, same)) over = cc (ap (is_over q) same, over, busy)
      rest_strict r k (inr less) over = omega (arith, bound)

      rest_le :
          (r : Text) (k : ℕ) (t : Text)
          → ((k ≡ 0) × (r ≡ s)) ⊎ (length r < length s)
          → length t ≤ length r
          → length t ≤ length s
      rest_le r k t (inl (e, same)) le = omega (arith, ap length same)
      rest_le r k t (inr less) le = omega arith

      rest_lt :
          (r : Text) (k : ℕ) (t : Text)
          → ((k ≡ 0) × (r ≡ s)) ⊎ (length r < length s)
          → length t ≤ length r
          → (is_over q r ≡ false → length t < length r)
          → length t < length s
      rest_lt r k t (inl (e, same)) le more =
          omega (arith, ap length same, more (ap (is_over q) same ∙ busy))
      rest_lt r k t (inr less) le more = omega arith

pub take_argument-IsTaken :
    (fuel : ℕ) (q : Bool) (v s : Text) → length s < fuel → IsTaken fuel q v s
take_argument-IsTaken zero q v s bound = absurd (negative bound)
  where
    negative : length s < zero → ⊥
    negative h = omega arith
take_argument-IsTaken (suc fuel) q v s bound = elim (Bool-cases (is_over q s)) [
  | inl over ↦ record {
    taken = record { quoted = q; value = v; rest = s };
    result = unfold take_argument in rw over refl;
    shorter = omega arith;
    consumes = λ h. cc;
    reads = over-reads q v s over;
  }
  | inr busy ↦ open_turn fuel (λ q' v' s' b. take_argument-IsTaken fuel q' v' s' b) q v s bound busy
]
