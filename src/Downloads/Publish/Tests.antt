-- ===== src/Downloads/Publish/Tests.antt =====
-- The publication on concrete folders.
use llama_web_ui.Prelude.{
  map, ℕ, zero, suc, Bool, false, take, ◌++◌, true, List, [], ◌∷◌, All, ◌≡◌, refl, string_discrete,
  contains, distinct,
}
use llama_web_ui.Prelude.Table.{find}
use llama_web_ui.Downloads.Publish.{
  refused, broken_off, moved_before, all_move, carry_out, stored, file, Stored, Staged,
  different_file_exists, plan_moves, merge, folder_of, entries, publish,
}
use llama_web_ui.Downloads.Publish.Laws.{publish-Keeps}
use llama_web_ui.Downloads.Publish.Moves.{Keeps, IsThere}

abbrev folder : List Stored
folder =
    record { path = "a.gguf"; entry = file 3 "aaa" }
    ∷ record { path = "b.gguf"; entry = file 2 "bb" }
    ∷ []

abbrev staging : List Staged
staging =
    record { path = "b.gguf"; size = 2; content = "bb" }
    ∷ record { path = "c.gguf"; size = 4; content = "cccc" }
    ∷ []

abbrev merged : List Stored
merged =
    record { path = "a.gguf"; entry = file 3 "aaa" }
    ∷ record { path = "b.gguf"; entry = file 2 "bb" }
    ∷ record { path = "c.gguf"; entry = file 4 "cccc" }
    ∷ []

publish-Keeps_example :
    Keeps (entries (folder_of folder true)) merged × All (IsThere merged) staging
unfolding publish merge carry_out all_move plan_moves find distinct contains string_discrete
publish-Keeps_example =
    publish-Keeps (λ path. true) (λ k. true) false (folder_of folder true) staging refl refl

conflict :
    publish
      (λ path. true)
      (λ k. true)
      false
      (folder_of folder true)
      (record { path = "a.gguf"; size = 9; content = "x" } ∷ [])
    ≡ refused different_file_exists
unfolding publish merge plan_moves find string_discrete
conflict = refl

abbrev two_new : List Staged
two_new =
    record { path = "c.gguf"; size = 4; content = "cccc" }
    ∷ record { path = "d.gguf"; size = 1; content = "d" }
    ∷ []

abbrev first_move : ℕ → Bool
first_move zero = true
first_move (suc k) = false

-- A merge whose second move fails leaves the first file in the destination.
second_move_fails :
    publish (λ path. true) first_move false (folder_of folder true) two_new
    ≡ broken_off (folder_of (folder ++ map stored (take 1 two_new)) true) (take 1 two_new)
unfolding publish merge carry_out all_move moved_before plan_moves find string_discrete
second_move_fails = refl
