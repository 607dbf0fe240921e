-- ===== src/Profile/CommandLine.antt =====
-- `_split_windows_command_line` of backend/src/llamawebui/domain/model_profile.py. A text is the list
-- of its code points, and the index is the text from there on.
pub mod Reference
pub mod Reads
pub mod Backslashes
pub mod Turns
pub mod Agrees
mod Tests
use llama_web_ui.Prelude.{
  ℕ, zero, suc, ◌+◌, ◌/◌, ◌%◌, Bool, true, false, ◌||◌, ◌&&◌, not, Option, none, some, List, [],
  ◌∷◌, ◌++◌, ◌==◌, if◌then◌else◌, length,
}

abbrev pub Text : Type 0
Text = List ℕ

abbrev pub backslash : ℕ
backslash = 92

abbrev pub quote : ℕ
quote = 34

-- `command[index] in " \t\r\n"`.
unfoldable pub is_blank : ℕ → Bool
is_blank c = c == 32 || (c == 9 || (c == 13 || c == 10))

unfoldable pub skip_blanks : Text → Text
skip_blanks [] = []
skip_blanks (c ∷ cs) = let rest = skip_blanks cs in if is_blank c then rest else c ∷ cs

-- The inner loop over backslashes: how many, and what follows.
unfoldable pub count_backslashes : ℕ → Text → ℕ × Text
count_backslashes k [] = (k, [])
count_backslashes k (c ∷ cs) =
    let more = count_backslashes (suc k) cs in if c == backslash then more else (k, c ∷ cs)

unfoldable pub backslashes : ℕ → Text
backslashes zero = []
backslashes (suc k) = backslash ∷ backslashes k

-- Whether the loop over the characters of an argument ends.
unfoldable pub is_over : Bool → Text → Bool
is_over quoted [] = true
is_over quoted (c ∷ cs) = not quoted && is_blank c

-- The variables of that loop at its end.
pub record Taken : Type 0 where
  pub quoted : Bool
  pub value : Text
  pub rest : Text

-- One turn, behind the backslashes.
unfoldable pub after_backslashes :
    (Bool → Text → Text → Option Taken) → Bool → Text → ℕ × Text → Option Taken
after_backslashes go quoted value (k, []) = go quoted (value ++ backslashes k) []
after_backslashes go quoted value (k, c ∷ cs) =
    if c == quote
    then (if k % 2 == 1
        then go quoted (value ++ (backslashes (k / 2) ++ (quote ∷ []))) cs
        else go (not quoted) (value ++ backslashes (k / 2)) cs)
    else if not quoted && is_blank c
    then go quoted (value ++ backslashes k) (c ∷ cs)
    else go quoted (value ++ (backslashes k ++ (c ∷ []))) cs

-- The loop over the characters of an argument, on fuel.
unfoldable pub take_argument : ℕ → Bool → Text → Text → Option Taken
take_argument zero quoted value s = none
take_argument (suc fuel) quoted value s =
    let more = after_backslashes (take_argument fuel) quoted value (count_backslashes 0 s) in
    if is_over quoted s then some (record { quoted = quoted; value = value; rest = s }) else more

unfoldable pub put_first : Text → Option (List Text) → Option (List Text)
put_first value none = none
put_first value (some args) = some (value ∷ args)

-- An argument and those behind it; none where a quotation is not ended.
unfoldable pub add_argument : (Text → Option (List Text)) → Option Taken → Option (List Text)
add_argument go none = none
add_argument go (some t) =
    let others = go t.rest in if t.quoted then none else put_first t.value others

unfoldable pub next_argument : (Text → Option (List Text)) → Text → Option (List Text)
next_argument go [] = some []
next_argument go (c ∷ cs) =
    add_argument go (take_argument (suc (length (c ∷ cs))) false [] (c ∷ cs))

-- The outer loop, on fuel.
unfoldable pub split_from : ℕ → Text → Option (List Text)
split_from zero s = none
split_from (suc fuel) s = next_argument (split_from fuel) (skip_blanks s)

-- `_split_windows_command_line`; `none` is its error.
unfoldable pub split_windows_command_line : Text → Option (List Text)
split_windows_command_line command = split_from (suc (length command)) command
