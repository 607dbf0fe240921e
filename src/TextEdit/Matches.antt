-- ===== src/TextEdit/Matches.antt =====
-- Where a text stands in another: exactly, with plain characters, or line by line
-- (services/text_edit.py).
use llama_web_ui.Prelude.{
  ℕ, zero, suc, ◌+◌, ◌-◌, Bool, true, false, ◌||◌, ◌&&◌, not, Option, none, some, List, [], ◌∷◌,
  ◌++◌, map, reverse, ltb, leb, ◌==◌, if◌then◌else◌, length, drop,
}
use llama_web_ui.Downloads.Plan.{split_at}

abbrev pub Text : Type 0
Text = List ℕ

abbrev pub newline : ℕ
newline = 10

abbrev pub windows_newline : Text
windows_newline = 13 ∷ 10 ∷ []

unfoldable pub same_codes : Text → Text → Bool
same_codes [] [] = true
same_codes (x ∷ xs) (y ∷ ys) = x == y && same_codes xs ys
same_codes _ _ = false

-- `text.startswith(search)`.
unfoldable pub is_prefix : Text → Text → Bool
is_prefix [] text = true
is_prefix (x ∷ xs) [] = false
is_prefix (x ∷ xs) (y ∷ ys) = x == y && is_prefix xs ys

-- `content.find(search, offset)`, on the rest of the content from the offset on.
unfoldable pub find_in : Text → Text → ℕ → Option ℕ
find_in search [] offset = if is_prefix search [] then some offset else none
find_in search (c ∷ rest) offset =
    let later = find_in search rest (suc offset) in
    if is_prefix search (c ∷ rest) then some offset else later

unfoldable pub find_from : Text → Text → ℕ → Option ℕ
find_from content search offset = find_in search (drop offset content) offset

-- `text.replace(old, new)`: `skip` counts the rest of an occurrence.
unfoldable pub replace_skip : Text → Text → ℕ → Text → Text
replace_skip old new skip [] = []
replace_skip old new (suc skip) (c ∷ rest) = replace_skip old new skip rest
replace_skip old new zero (c ∷ rest) =
    let inside = replace_skip old new (length old - 1) rest in
    let outside = replace_skip old new zero rest in
    if is_prefix old (c ∷ rest) then new ++ inside else c ∷ outside

unfoldable pub replace_every : Text → Text → Text → Text
replace_every old new text = replace_skip old new zero text

unfoldable pub in_range : ℕ → ℕ → ℕ → Bool
in_range lo hi c = leb lo c && leb c hi

-- `_TYPOGRAPHIC`.
unfoldable pub plain_code : ℕ → ℕ
unfolding in_range
plain_code c =
    if in_range 0x2018 0x201b c
    then b'\''
    else if in_range 0x201c 0x201f c
    then b'"'
    else if in_range 0x2010 0x2015 c || c == 0x2212
    then b'-'
    else if c == 0xa0 || (in_range 0x2002 0x200a c || (c == 0x202f || (c == 0x205f || c == 0x3000)))
    then b' '
    else c

-- `_plain`.
unfoldable pub plain : Text → Text
plain text = map plain_code text

-- Where something is found: its start and its end.
pub record Match : Type 0 where
  pub start : ℕ
  pub stop : ℕ

-- The loop of `_occurrences`, on fuel.
unfoldable pub occurrences_from : ℕ → Text → Text → Option ℕ → List Match
occurrences_from fuel content search none = []
occurrences_from zero content search (some offset) = []
occurrences_from (suc fuel) content search (some offset) =
    record { start = offset; stop = offset + length search }
    ∷ occurrences_from fuel content search (find_from content search (offset + length search))

-- `_occurrences`, of a search that is not empty.
unfoldable pub occurrences : Text → Text → List Match
occurrences content search =
    occurrences_from (suc (length content)) content search (find_from content search 0)

-- `str.isspace` of one character.
unfoldable pub is_space : ℕ → Bool
unfolding in_range
is_space c =
    in_range 9 13 c
    || (in_range 28 32 c
        || (c == 0x85
            || (c == 0xa0
                || (c == 0x1680
                    || (in_range 0x2000 0x200a c
                        || (in_range 0x2028 0x2029 c
                            || (c == 0x202f || (c == 0x205f || c == 0x3000))))))))

unfoldable pub drop_while : (ℕ → Bool) → Text → Text
drop_while p [] = []
drop_while p (c ∷ cs) = let rest = drop_while p cs in if p c then rest else c ∷ cs

-- `text.rstrip()` and `text.rstrip("\n")`.
unfoldable pub strip_end : (ℕ → Bool) → Text → Text
unfolding drop_while
strip_end p text = reverse (drop_while p (reverse text))

unfoldable pub ends_with_newline : Text → Bool
ends_with_newline text = elim (reverse text) [ [] ↦ false | c ∷ cs ↦ c == newline ]

-- A line of the content with its line break, and where it stands.
pub record Line : Type 0 where
  pub from : ℕ
  pub upto : ℕ
  pub text : Text

unfoldable pub prepend_code : ℕ → ℕ → List Line → List Line
prepend_code offset c [] = record { from = offset; upto = suc offset; text = c ∷ [] } ∷ []
prepend_code offset c (l ∷ ls) = record { from = offset; upto = l.upto; text = c ∷ l.text } ∷ ls

-- `_LINE.finditer(content)`.
unfoldable pub lines_from : ℕ → Text → List Line
unfolding prepend_code
lines_from offset [] = []
lines_from offset (c ∷ cs) =
    let rest = lines_from (suc offset) cs in
    if c == newline
    then record { from = offset; upto = suc offset; text = c ∷ [] } ∷ rest
    else prepend_code offset c rest

unfoldable pub comparable : Text → Text
unfolding is_space strip_end
comparable text = strip_end is_space (plain text)

unfoldable pub drop_last : List Text → List Text
drop_last [] = []
drop_last (x ∷ []) = []
drop_last (x ∷ y ∷ ys) = x ∷ drop_last (y ∷ ys)

unfoldable pub expected_lines : Text → List Text
unfolding ends_with_newline comparable drop_last
expected_lines search =
    let parts = map comparable (split_at newline search) in
    if ends_with_newline search then drop_last parts else parts

-- The last line of a block at the head of the lines, if all its lines match.
unfoldable pub last_matching : List Text → List Line → Option Line
unfolding comparable strip_end
last_matching (want ∷ []) (l ∷ ls) =
    if same_codes (comparable (strip_end (λ c. c == newline) l.text)) want then some l else none
last_matching (want ∷ other ∷ wants) (l ∷ ls) =
    let rest = last_matching (other ∷ wants) ls in
    if same_codes (comparable (strip_end (λ c. c == newline) l.text)) want then rest else none
last_matching _ _ = none

-- The match of a block from its first to its last line.
unfoldable pub block_match : Bool → Line → Option Line → Option Match
unfolding ends_with_newline
block_match trailing first none = none
block_match trailing first (some last) =
    let has_newline = ends_with_newline last.text in
    if trailing && not has_newline
    then none
    else some (record {
      start = first.from;
      stop = if trailing then last.upto else last.upto - (if has_newline then 1 else 0);
    })

-- A match that begins before the end of the one before is left out.
unfoldable pub add_match : ℕ → Option Match → (ℕ → List Match) → List Match
add_match free none rest = rest free
add_match free (some m) rest = if ltb m.start free then rest free else m ∷ rest m.stop

-- The loop of `_line_occurrences`.
unfoldable pub blocks : Bool → List Text → List Line → ℕ → List Match
unfolding last_matching block_match add_match
blocks trailing expected [] free = []
blocks trailing expected (l ∷ ls) free =
    add_match free (block_match trailing l (last_matching expected (l ∷ ls)))
      (blocks trailing expected ls)

-- `_line_occurrences`.
unfoldable pub line_occurrences : Text → Text → List Match
unfolding ends_with_newline expected_lines lines_from blocks
line_occurrences content search =
    blocks (ends_with_newline search) (expected_lines search) (lines_from 0 content) 0
