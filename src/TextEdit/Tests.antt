-- ===== src/TextEdit/Tests.antt =====
-- Edits of concrete texts.
use llama_web_ui.Prelude.{◌+◌, length, ap, ◌≡◌, refl, true, false, some, none, [], ◌∷◌, inr}
use llama_web_ui.Downloads.Plan.{codes, split_at}
use llama_web_ui.TextEdit.{
  Text, same_codes, is_prefix, find_in, find_from, replace_skip, replace_every, occurrences_from,
  occurrences, is_windows, normal_newlines, view_of, restore, exact, trailing_whitespace, several,
  edited, refused, replace_text, plain, plain_code, line_occurrences, first_found, find_matches,
  on_line, replace_at, replace_matches, apply_edit, edit_first, starts_of, choose_line, edit_found,
  line_breaks, line_of, numbered, number_lines, drop_empty_last,
}
use llama_web_ui.TextEdit.Replace.{replaced_text, replace_text-replaced}

-- "aaa" twice on two lines that end the Windows way.
abbrev source : Text
source = codes "aaaa\r\naab\r\n"

once :
    occurrences (view_of source) (normal_newlines (codes "b")) ≡ record { start = 7; stop = 8 } ∷ []
unfolding occurrences occurrences_from view_of normal_newlines is_windows replace_every replace_skip
    find_from find_in is_prefix
once = refl

replace_text-replaced_example :
    replace_text source (codes "b") (codes "c") false none
    ≡ replaced_text source
        (normal_newlines (codes "b"))
        (normal_newlines (codes "c"))
        (length (occurrences (view_of source) (normal_newlines (codes "b"))))
replace_text-replaced_example =
    replace_text-replaced source b'b' [] (codes "c") false none (unfold same_codes in refl)
      (inr (ap length once))

-- Occurrences do not overlap, and the Windows line breaks come back.
replace_text-all :
    replace_text source (codes "aa") (codes "x") true none
    ≡ edited (record { text = codes "xx\r\nxb\r\n"; replacements = 3; matched = exact })
unfolding replace_text normal_newlines view_of restore is_windows replace_every replace_skip
    find_matches first_found occurrences occurrences_from find_from find_in is_prefix same_codes
    edit_found edit_first choose_line on_line starts_of line_of line_breaks apply_edit
    replace_matches replace_at plain plain_code line_occurrences
replace_text-all = refl

replace_text-several :
    replace_text source (codes "aa") (codes "x") false none ≡ refused (several (1 ∷ 1 ∷ 2 ∷ []))
unfolding replace_text normal_newlines view_of restore is_windows replace_every replace_skip
    find_matches first_found occurrences occurrences_from find_from find_in is_prefix same_codes
    edit_found edit_first choose_line on_line starts_of line_of line_breaks apply_edit
    replace_matches replace_at plain plain_code line_occurrences
replace_text-several = refl

replace_text-on_line :
    replace_text source (codes "aa") (codes "x") false (some 2)
    ≡ edited (record { text = codes "aaaa\r\nxb\r\n"; replacements = 1; matched = exact })
unfolding replace_text normal_newlines view_of restore is_windows replace_every replace_skip
    find_matches first_found occurrences occurrences_from find_from find_in is_prefix same_codes
    edit_found edit_first choose_line on_line starts_of line_of line_breaks apply_edit
    replace_matches replace_at plain plain_code line_occurrences
replace_text-on_line = refl

-- Trailing blanks of a line are passed over.
replace_text-blanks :
    replace_text (codes "a  \nb\n") (codes "a\nb") (codes "c") false none
    ≡ edited (record { text = codes "c\n"; replacements = 1; matched = trailing_whitespace })
unfolding replace_text normal_newlines view_of restore is_windows replace_every replace_skip
    find_matches first_found occurrences occurrences_from find_from find_in is_prefix same_codes
    edit_found edit_first choose_line on_line starts_of line_of line_breaks apply_edit
    replace_matches replace_at plain plain_code line_occurrences split_at
replace_text-blanks = refl

numbered-lines : numbered (λ k. (48 + k) ∷ []) (codes "a\r\nb\n") ≡ codes "1: a\n2: b"
unfolding numbered number_lines drop_empty_last normal_newlines replace_every replace_skip is_prefix
    split_at
numbered-lines = refl
