-- ===== src/TextEdit.antt =====
-- services/text_edit.py. A text is the list of its code points; the error's message is a value.
mod Matches
pub mod Occurrences
pub mod Replace
mod Tests
unfoldable pub use Matches.*
use llama_web_ui.Prelude.{
  ℕ, zero, suc, ◌+◌, ◌-◌, Bool, true, false, ◌||◌, ◌&&◌, not, Option, none, some, List, [], ◌∷◌,
  ◌++◌, map, reverse, ltb, leb, ◌==◌, if◌then◌else◌, any, length, take, drop,
}
use llama_web_ui.Downloads.Plan.{split_at}

pub data MatchKind : Type 0 where
  exact typographic trailing_whitespace : MatchKind

-- `Edited`.
pub record Edited : Type 0 where
  pub text : Text
  pub replacements : ℕ
  pub matched : MatchKind

-- The reasons of an `EditError`, with the lines that its message lists.
pub data EditError : Type 0 where
  empty_search identical not_found unchanged : EditError
  several : List ℕ → EditError
  none_on_line : ℕ → List ℕ → EditError

pub data Result : Type 0 where
  edited : Edited → Result
  refused : EditError → Result

-- `_line_of`.
unfoldable pub line_breaks : ℕ → Text → ℕ
line_breaks zero text = 0
line_breaks (suc n) [] = 0
line_breaks (suc n) (c ∷ cs) = (if c == newline then 1 else 0) + line_breaks n cs

unfoldable pub line_of : Text → ℕ → ℕ
line_of content offset = line_breaks offset content + 1

-- A file whose line breaks are all Windows ones.
unfoldable pub is_windows : Text → Bool
is_windows source =
    occurs windows_newline source
    && not (occurs (newline ∷ []) (replace_every windows_newline [] source))
  where
    occurs : Text → Text → Bool
    occurs search text = elim (find_from text search 0) [ none ↦ false | some p ↦ true ]

unfoldable pub normal_newlines : Text → Text
normal_newlines text = replace_every windows_newline (newline ∷ []) text

unfoldable pub view_of : Text → Text
view_of source = if is_windows source then normal_newlines source else source

-- The Windows line breaks again.
unfoldable pub restore : Text → Text → Text
restore source text =
    if is_windows source then replace_every (newline ∷ []) windows_newline text else text

-- The matches of the first kind that has one.
unfoldable pub first_found :
    List Match → Option (MatchKind × List Match) → MatchKind → Option (MatchKind × List Match)
first_found [] others kind = others
first_found (m ∷ ms) others kind = some (kind, m ∷ ms)

unfoldable pub find_matches : Text → Text → Option (MatchKind × List Match)
find_matches view search =
    first_found (occurrences view search)
      (first_found (occurrences (plain view) (plain search))
        (first_found (line_occurrences view search) none trailing_whitespace) typographic)
      exact

unfoldable pub on_line : Text → ℕ → List Match → List Match
on_line view line [] = []
on_line view line (m ∷ ms) =
    let rest = on_line view line ms in if line_of view m.start == line then m ∷ rest else rest

-- `text[:start] + replacement + text[end:]`.
unfoldable pub replace_at : Text → Match → Text → Text
replace_at replacement m text = take m.start text ++ (replacement ++ drop m.stop text)

-- The loop over the reversed matches: the last one is replaced first.
unfoldable pub replace_matches : Text → List Match → Text → Text
replace_matches replacement [] text = text
replace_matches replacement (m ∷ ms) text =
    replace_at replacement m (replace_matches replacement ms text)

-- The edit, once the matches are chosen.
unfoldable pub apply_edit : Text → Text → MatchKind → List Match → ℕ → Result
apply_edit source replacement kind chosen count =
    let text = restore source (replace_matches replacement chosen (view_of source)) in
    if same_codes text source
    then refused unchanged
    else edited (record { text = text; replacements = count; matched = kind })

unfoldable pub edit_first : Text → Text → MatchKind → List Match → EditError → Result
edit_first source replacement kind [] e = refused e
edit_first source replacement kind (m ∷ ms) e = apply_edit source replacement kind (m ∷ []) 1

unfoldable pub starts_of : Text → List Match → List ℕ
starts_of view [] = []
starts_of view (m ∷ ms) = line_of view m.start ∷ starts_of view ms

-- More than one match, and not all of them wanted.
unfoldable pub choose_line : Text → Text → MatchKind → List Match → Option ℕ → Result
choose_line source replacement kind ms none = refused (several (starts_of (view_of source) ms))
choose_line source replacement kind ms (some line) =
    edit_first source replacement kind (on_line (view_of source) line ms)
      (none_on_line line (starts_of (view_of source) ms))

unfoldable pub edit_found : Text → Text → Bool → Option ℕ → Option (MatchKind × List Match) → Result
edit_found source replacement replace_all line none = refused not_found
edit_found source replacement true line (some (kind, ms)) =
    apply_edit source replacement kind ms (length ms)
edit_found source replacement false line (some (kind, ms)) =
    if ltb 1 (length ms)
    then choose_line source replacement kind ms line
    else edit_first source replacement kind ms not_found

-- `replace_text`.
unfoldable pub replace_text : Text → Text → Text → Bool → Option ℕ → Result
replace_text source old new replace_all line =
    if same_codes old []
    then refused empty_search
    else if same_codes old new
    then refused identical
    else edit_found source (normal_newlines new) replace_all line
        (find_matches (view_of source) (normal_newlines old))

unfoldable pub drop_empty_last : List Text → List Text
drop_empty_last [] = []
drop_empty_last ([] ∷ []) = []
drop_empty_last (x ∷ []) = x ∷ []
drop_empty_last (x ∷ y ∷ ys) = x ∷ drop_empty_last (y ∷ ys)

-- The lines with their numbers in front, joined; `decimal` is `str` of a number.
unfoldable pub number_lines : (ℕ → Text) → ℕ → List Text → Text
number_lines decimal k [] = []
number_lines decimal k (x ∷ []) = decimal k ++ (b':' ∷ b' ' ∷ x)
number_lines decimal k (x ∷ y ∷ ys) =
    decimal k ++ (b':' ∷ b' ' ∷ (x ++ (newline ∷ number_lines decimal (suc k) (y ∷ ys))))

-- `numbered`.
unfoldable pub numbered : (ℕ → Text) → Text → Text
numbered decimal text =
    number_lines decimal 1 (drop_empty_last (split_at newline (normal_newlines text)))
