-- ===== src/Downloads/Publish.antt =====
-- The publication of a finished download (services/download_worker.py): its files go from the
-- staging folder to the shared folder of the revision. Files under `.cache` are left out.
pub mod Moves
pub mod Laws
pub mod Contents
mod Tests
use llama_web_ui.Prelude.{
  ◌+◌, ◌&&◌, ℕ, String, Bool, true, false, Option, none, some, List, [], ◌∷◌, ◌++◌, map, not, ◌==◌,
  if◌then◌else◌,
}
use llama_web_ui.Prelude.Table.{find}

-- What stands at a path of a folder: a file, by its size and content, or anything else.
pub data FolderEntry : Type 0 where
  file : ℕ → String → FolderEntry
  other : FolderEntry

pub record Stored : Type 0 where
  pub path : String
  pub entry : FolderEntry

-- A file of the staging folder, by its path in it.
pub record Staged : Type 0 where
  pub path : String
  pub size : ℕ
  pub content : String

abbrev pub stored : Staged → Stored
stored s = record { path = s.path; entry = file s.size s.content }

pub data PublishError : Type 0 where
  outside_destination different_file_exists destination_exists cleanup_in_progress : PublishError

pub data Result {ℓ} (A : Type ℓ) : Type ℓ where
  ok : A → Result A
  err : PublishError → Result A

-- Whether what stands at the target is a file of that size: the file counts as published.
abbrev pub is_published : FolderEntry → ℕ → Bool
is_published (file n content) size = n == size
is_published other size = false

abbrev pub add_move : Staged → Result (List Staged) → Result (List Staged)
add_move s (ok moves) = ok (s ∷ moves)
add_move s (err e) = err e

-- The first loop of `_merge`: the files to move, or the first conflict. `inside` says that a target
-- resolves into the destination.
unfoldable pub plan_moves : (String → Bool) → List Stored → List Staged → Result (List Staged)
plan_moves inside folder [] = ok []
plan_moves inside folder (s ∷ rest) =
    let others = plan_moves inside folder rest in
    if not (inside s.path)
    then err outside_destination
    else elim (find (λ q. q.path) s.path folder) [
      | none ↦ add_move s others
      | some q ↦ if is_published q.entry s.size then others else err different_file_exists
    ]

-- The destination: missing, a link or no folder, or a folder with entries beside `.cache`, and
-- whether it has a `.cache`.
pub data Destination : Type 0 where
  missing not_a_folder : Destination
  folder_of : List Stored → Bool → Destination

-- What the folder has before, for a destination that is one.
abbrev pub entries : Destination → List Stored
entries missing = []
entries not_a_folder = []
entries (folder_of folder has_cache) = folder

-- How a publication ends: with the folder afterwards, with a refusal, or with an error of a move, after
-- which the destination is the given one and these files have left the staging folder.
pub data Publication : Type 0 where
  published : List Stored → Publication
  refused : PublishError → Publication
  broken_off : Destination → List Staged → Publication

-- The moves before the first that fails; `moves_on` says whether the move of that number succeeds.
unfoldable pub moved_before : (ℕ → Bool) → ℕ → List Staged → List Staged
moved_before moves_on k [] = []
moved_before moves_on k (s ∷ rest) =
    let others = moved_before moves_on (k + 1) rest in if moves_on k then s ∷ others else []

unfoldable pub all_move : (ℕ → Bool) → ℕ → List Staged → Bool
all_move moves_on k [] = true
all_move moves_on k (s ∷ rest) = moves_on k && all_move moves_on (k + 1) rest

-- The second loop of `_merge`, to targets that were free; an error ends it.
unfoldable pub carry_out : (ℕ → Bool) → List Stored → Bool → List Staged → Publication
carry_out moves_on folder has_cache moves =
    if all_move moves_on 0 moves
    then published (folder ++ map stored moves)
    else (let moved = moved_before moves_on 0 moves in
        broken_off (folder_of (folder ++ map stored moved) has_cache) moved)

-- `_merge`.
unfoldable pub merge : (String → Bool) → (ℕ → Bool) → List Stored → Bool → List Staged → Publication
merge inside moves_on folder has_cache staged = elim (plan_moves inside folder staged) [
  | err e ↦ refused e
  | ok moves ↦ carry_out moves_on folder has_cache moves
]

-- `_publish` where only a `.cache` is in the way: it is moved to the tombstone, the staging folder is
-- moved, and an error of that move brings the tombstone back, unless this fails too.
unfoldable pub replace_cached : (ℕ → Bool) → List Staged → Publication
replace_cached moves_on staged =
    if not (moves_on 0)
    then broken_off (folder_of [] true) []
    else if moves_on 1
    then published (map stored staged)
    else broken_off (if moves_on 2 then folder_of [] true else missing) []

-- `_publish`, with whether the tombstone exists.
unfoldable pub publish :
    (String → Bool) → (ℕ → Bool) → Bool → Destination → List Staged → Publication
publish inside moves_on tombstone missing staged =
    if moves_on 0 then published (map stored staged) else broken_off missing []
publish inside moves_on tombstone not_a_folder staged = refused destination_exists
publish inside moves_on tombstone (folder_of [] false) staged = refused destination_exists
publish inside moves_on tombstone (folder_of [] true) staged =
    if tombstone then refused cleanup_in_progress else replace_cached moves_on staged
publish inside moves_on tombstone (folder_of (q ∷ qs) has_cache) staged =
    merge inside moves_on (q ∷ qs) has_cache staged
