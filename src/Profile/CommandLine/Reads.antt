-- ===== src/Profile/CommandLine/Reads.antt =====
-- Reading an argument of a Windows command line: the steps of the reference
-- (domain/model_profile.py).
use llama_web_ui.Prelude.{
  ℕ, suc, ◌<◌, ◌≡◌, refl, Bool, true, false, ◌&&◌, not, ◌∷◌, ◌++◌, ◌==◌, length, arith, ◌⊎◌,
}
use llama_web_ui.Profile.CommandLine.{
  put_first, Text, backslash, quote, is_blank, count_backslashes, backslashes,
}
use llama_web_ui.Profile.CommandLine.Reference.{between, inside, advance, read_arguments}

pub backslash_blank : (c : ℕ) → (c == backslash) ≡ true → is_blank c ≡ false
unfolding is_blank
backslash_blank c h = ground arith

pub quote_blank : (c : ℕ) → (c == quote) ≡ true → is_blank c ≡ false
unfolding is_blank
quote_blank c h = ground arith

pub read_inside :
    (q : Bool) (v : Text) (k c : ℕ) (cs : Text)
    → (not q && is_blank c) ≡ false
    → read_arguments (inside q v k) (c ∷ cs) ≡ read_arguments (advance q v k c) cs
unfolding read_arguments
read_inside true v k c cs h = refl
read_inside false v k c cs h = rw h refl

read_ended :
    (q : Bool) (v : Text) (k c : ℕ) (cs : Text)
    → (not q && is_blank c) ≡ true
    → read_arguments (inside q v k) (c ∷ cs)
      ≡ put_first (v ++ backslashes k) (read_arguments between cs)
unfolding read_arguments
read_ended true v k c cs h = cc
read_ended false v k c cs h = rw h refl

pub and_not : (q b : Bool) → b ≡ false → (not q && b) ≡ false
and_not true b h = refl
and_not false b h = h

pub advance-backslash :
    (q : Bool) (v : Text) (k d : ℕ) → (d == backslash) ≡ true → advance q v k d ≡ inside q v (suc k)
unfolding advance
advance-backslash q v k d h = rw h refl

-- The backslashes at the head of a text.
pub record IsCounted (j : ℕ) (s : Text) : Type 0 where
  pub number : ℕ
  pub rest : Text
  pub counted : count_backslashes j s ≡ (number, rest)
  pub reads :
      (q : Bool) (v : Text)
      → read_arguments (inside q v j) s ≡ read_arguments (inside q v number) rest
  pub moved : ((number ≡ j) × (rest ≡ s)) ⊎ (length rest < length s)
  pub other_head : (c : ℕ) (cs : Text) → rest ≡ c ∷ cs → (c == backslash) ≡ false
