-- ===== src/Profile/CommandLine/Reference.antt =====
-- A command line read one character at a time, by the rules for backslashes and quotation marks.
use llama_web_ui.Prelude.{
  ℕ, suc, ◌/◌, ◌%◌, Bool, true, false, ◌&&◌, not, Option, none, some, List, [], ◌∷◌, ◌++◌, ◌==◌,
  if◌then◌else◌,
}
use llama_web_ui.Profile.CommandLine.{put_first, Text, backslash, quote, is_blank, backslashes}

-- Between two arguments, or inside one: whether in quotation marks, the text so far, and the
-- backslashes that are not yet decided.
pub data Mode : Type 0 where
  between : Mode
  inside : Bool → Text → ℕ → Mode

-- Backslashes before a quotation mark stand for half as many, an odd one for a mark; else for
-- themselves. A mark that is not escaped begins or ends a quotation.
unfoldable pub advance : Bool → Text → ℕ → ℕ → Mode
advance quoted value k c =
    if c == backslash
    then inside quoted value (suc k)
    else if c == quote
    then (if k % 2 == 1
        then inside quoted (value ++ (backslashes (k / 2) ++ (quote ∷ []))) 0
        else inside (not quoted) (value ++ backslashes (k / 2)) 0)
    else inside quoted (value ++ (backslashes k ++ (c ∷ []))) 0

-- The arguments of a command line by these rules.
unfoldable pub read_arguments : Mode → Text → Option (List Text)
read_arguments between [] = some []
read_arguments (inside true value k) [] = none
read_arguments (inside false value k) [] = some ((value ++ backslashes k) ∷ [])
read_arguments between (c ∷ cs) =
    let skipped = read_arguments between cs in
    let entered = read_arguments (advance false [] 0 c) cs in
    if is_blank c then skipped else entered
read_arguments (inside quoted value k) (c ∷ cs) =
    let ended = put_first (value ++ backslashes k) (read_arguments between cs) in
    let more = read_arguments (advance quoted value k c) cs in
    if not quoted && is_blank c then ended else more
