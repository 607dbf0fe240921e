-- ===== src/Profile/CommandLine/Tests.antt =====
-- Concrete command lines.
use llama_web_ui.Prelude.{◌≡◌, refl, some, none, [], ◌∷◌}
use llama_web_ui.Downloads.Plan.{codes}
use llama_web_ui.Profile.CommandLine.{
  is_blank, skip_blanks, count_backslashes, backslashes, is_over, after_backslashes, take_argument,
  put_first, add_argument, next_argument, split_from, split_windows_command_line,
}
use llama_web_ui.Profile.CommandLine.Reference.{between, read_arguments}
use llama_web_ui.Profile.CommandLine.Agrees.{split_windows_command_line-reads}

split_windows_command_line-reads_example :
    split_windows_command_line (codes "a \"b c\" d\\\\\"e f\"")
    ≡ read_arguments between (codes "a \"b c\" d\\\\\"e f\"")
split_windows_command_line-reads_example =
    split_windows_command_line-reads (codes "a \"b c\" d\\\\\"e f\"")

-- Spaces in quotation marks, an escaped mark, and backslashes before a path's end.
split_windows_command_line-parts :
    split_windows_command_line (codes "x.exe \"b c\" d\\\"e C:\\m\\")
    ≡ some (codes "x.exe" ∷ codes "b c" ∷ codes "d\"e" ∷ codes "C:\\m\\" ∷ [])
unfolding split_windows_command_line split_from next_argument add_argument put_first take_argument
    after_backslashes is_over backslashes count_backslashes skip_blanks is_blank
split_windows_command_line-parts = refl

split_windows_command_line-unended : split_windows_command_line (codes "a \"b") ≡ none
unfolding split_windows_command_line split_from next_argument add_argument put_first take_argument
    after_backslashes is_over backslashes count_backslashes skip_blanks is_blank
split_windows_command_line-unended = refl
