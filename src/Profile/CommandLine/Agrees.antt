-- ===== src/Profile/CommandLine/Agrees.antt =====
-- The splitter of command lines against the rules of Reference.
use llama_web_ui.Prelude.{
  ℕ, zero, suc, ◌<◌, ◌≤◌, ◌≡◌, refl, sym, ap, subst, ◌∙◌, false, Option, none, some, List, [], ◌∷◌,
  if◌then◌else◌, length, arith, Bool-cases, inl, inr,
}
use llama_web_ui.Profile.CommandLine.{
  Text, is_blank, skip_blanks, is_over, Taken, put_first, add_argument, next_argument, split_from,
  split_windows_command_line,
}
use llama_web_ui.Profile.CommandLine.Reference.{between, inside, read_arguments}
use llama_web_ui.Profile.CommandLine.Turns.{finish, take_argument-IsTaken}
use llama_web_ui.Profile.CommandLine.Backslashes.{head_or}

skip_blanks-length : (s : Text) → length (skip_blanks s) ≤ length s
unfolding skip_blanks
skip_blanks-length [] = omega arith
skip_blanks-length (c ∷ cs) = ground (arith, skip_blanks-length cs)

skip_blanks-reads : (s : Text) → read_arguments between s ≡ read_arguments between (skip_blanks s)
unfolding read_arguments skip_blanks
skip_blanks-reads [] = refl
skip_blanks-reads (c ∷ cs) = elim (Bool-cases (is_blank c)) [
  | inl blank ↦ rw blank (skip_blanks-reads cs)
  | inr solid ↦ rw (solid, read_arguments, solid) refl
]

skip_blanks-head : (s : Text) (c : ℕ) (cs : Text) → skip_blanks s ≡ c ∷ cs → is_blank c ≡ false
unfolding skip_blanks head_or
skip_blanks-head [] c cs h = cc
skip_blanks-head (d ∷ ds) c cs h = elim (Bool-cases (is_blank d)) [
  | inl blank ↦ skip_blanks-head ds c cs (rw blank at h)
  | inr solid ↦ subst (λ x. is_blank x ≡ false) (ap (head_or 0) (rw solid at h)) solid
]

enter_argument :
    (c : ℕ) (cs : Text)
    → is_blank c ≡ false
    → read_arguments between (c ∷ cs) ≡ read_arguments (inside false [] 0) (c ∷ cs)
unfolding read_arguments
enter_argument c cs solid = rw solid refl

add_argument-finish :
    (go : Text → Option (List Text)) (t : Taken)
    → go t.rest ≡ read_arguments between t.rest
    → add_argument go (some t) ≡ finish t
unfolding add_argument finish
add_argument-finish go t same = ap (λ r. if t.quoted then none else put_first t.value r) same

next_reads :
    (fuel : ℕ)
    → ((r : Text) → length r < fuel → split_from fuel r ≡ read_arguments between r)
    → (s : Text) → ((c : ℕ) (cs : Text) → s ≡ c ∷ cs → is_blank c ≡ false)
    → length s ≤ fuel
    → next_argument (split_from fuel) s ≡ read_arguments between s
unfolding next_argument
next_reads fuel again [] solid bound = unfold read_arguments in refl
next_reads fuel again (c ∷ cs) solid bound =
    let t = take_argument-IsTaken (suc (length (c ∷ cs))) false [] (c ∷ cs) (omega arith) in
    ap (add_argument (split_from fuel)) t.result
    ∙ add_argument-finish (split_from fuel) t.taken
        (again t.taken.rest (omega (arith, t.consumes (unfold is_over in solid c cs refl), bound)))
    ∙ sym t.reads
    ∙ sym (enter_argument c cs (solid c cs refl))

split_from-reads :
    (fuel : ℕ) (s : Text) → length s < fuel → split_from fuel s ≡ read_arguments between s
unfolding split_from
split_from-reads zero s bound = absurd (negative bound)
  where
    negative : length s < zero → ⊥
    negative h = omega arith
split_from-reads (suc fuel) s bound =
    next_reads fuel (λ r b. split_from-reads fuel r b) (skip_blanks s) (skip_blanks-head s)
      (omega (arith, skip_blanks-length s))
    ∙ sym (skip_blanks-reads s)

-- Splitting a command line gives the arguments that reading it one character at a time gives, by the
-- rules for backslashes and quotation marks, and an error exactly where a quotation is not ended.
pub split_windows_command_line-reads :
    (command : Text) → split_windows_command_line command ≡ read_arguments between command
unfolding split_windows_command_line
split_windows_command_line-reads command =
    split_from-reads (suc (length command)) command (omega arith)
