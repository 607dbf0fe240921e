-- ===== src/Downloads/Plan.antt =====
-- `create` of services/download_registry.py: from the files of a repository to a queued job. The
-- path library, the model folder and the disk are the record `Host`; the new identifier is given.
pub mod Checks
mod Tests
use Prim.Native.Char.{code}
use Prim.Native.String
use llama_web_ui.Prelude.{
  ℕ, ◌+◌, ◌≡◌, String, Bool, true, false, ◌||◌, ◌&&◌, not, Option, none, some, List, [], ◌∷◌, ◌++◌,
  ite, ltb, leb, ◌==◌, if◌then◌else◌, string_discrete, any, all, map, length, is_some,
}
use llama_web_ui.Downloads.Job.{queued, DownloadFile, DownloadJob}

-- `HubFile` and `GgufGroup` of domain/model_manifest.py, with the columns that are read here.
pub record GgufGroup : Type 0 where
  pub key : String
  pub files : List DownloadFile
  pub total_size : Option ℕ
  pub complete : Bool
  pub projector_files : List DownloadFile

pub record RepositoryManifest : Type 0 where
  pub repo_id : String
  pub revision : String
  pub groups : List GgufGroup

-- What the standard library and the system answer.
pub record Host : Type 0 where
  pub parts : String → List String  -- `Path(p).parts`
  pub is_absolute : String → Bool  -- `Path(p).is_absolute()`
  pub destination : String → String → String  -- `(model_root / repo_id / revision).resolve()`
  pub is_inside : String → Bool  -- `….is_relative_to(model_root)`
  pub free_space : String → ℕ  -- `shutil.disk_usage(….parent).free`
  pub lower : String → String  -- `str.lower`

pub data PlanError : Type 0 where
  unsafe_repository incomplete_revision group_not_found group_incomplete : PlanError
  group_size_unknown file_size_unknown unsafe_path escapes_root insufficient_space : PlanError

pub data Planned : Type 0 where
  planned : DownloadJob → List DownloadJob → Planned
  refused : PlanError → Planned

abbrev pub codes : String → List ℕ
codes String.[] = []
codes (String.◌∷◌ c s) = code c ∷ codes s

abbrev prepend : ℕ → List (List ℕ) → List (List ℕ)
prepend x [] = (x ∷ []) ∷ []
prepend x (p ∷ ps) = (x ∷ p) ∷ ps

-- `str.split` at one character.
unfoldable pub split_at : ℕ → List ℕ → List (List ℕ)
split_at c [] = [] ∷ []
split_at c (x ∷ xs) = let rest = split_at c xs in if x == c then [] ∷ rest else prepend x rest

in_range : ℕ → ℕ → ℕ → Bool
in_range lo hi c = leb lo c && leb c hi

-- `[A-Za-z0-9._-]`.
pub is_name_char : ℕ → Bool
unfolding in_range
is_name_char c =
    in_range b'A' b'Z' c
    || (in_range b'a' b'z' c || (in_range b'0' b'9' c || (c == b'.' || (c == b'_' || c == b'-'))))

-- `[0-9a-f]`, in either case.
pub is_hex : ℕ → Bool
unfolding in_range
is_hex c = in_range b'0' b'9' c || (in_range b'a' b'f' c || in_range b'A' b'F' c)

abbrev pub is_dots : List ℕ → Bool
is_dots (x ∷ []) = x == b'.'
is_dots (x ∷ y ∷ []) = x == b'.' && y == b'.'
is_dots _ = false

abbrev is_name : List ℕ → Bool
is_name [] = false
is_name (c ∷ cs) = all is_name_char (c ∷ cs)

-- `_REPO_PATTERN.fullmatch`, on the parts at "/", which is no character of a name.
abbrev two_names : List (List ℕ) → Bool
two_names (a ∷ b ∷ []) = is_name a && is_name b
two_names _ = false

pub is_safe_repository : String → Bool
is_safe_repository repo =
    let repo_parts = split_at b'/' (codes repo) in
    two_names repo_parts && not (any is_dots repo_parts)

-- `_REVISION_PATTERN.fullmatch`.
pub is_full_revision : String → Bool
is_full_revision revision = let cs = codes revision in length cs == 40 && all is_hex cs

pub find_group : String → List GgufGroup → Option GgufGroup
find_group k [] = none
find_group k (g ∷ gs) = ite (string_discrete g.key k) (some g) (find_group k gs)

abbrev pub size_or_zero : DownloadFile → ℕ
size_or_zero f = elim f.size [ none ↦ 0 | some n ↦ n ]

unfoldable pub sum_sizes : List DownloadFile → ℕ
sum_sizes [] = 0
sum_sizes (f ∷ fs) = size_or_zero f + sum_sizes fs

abbrev pub is_dot_part : String → Bool
is_dot_part part = ite (string_discrete part ".") true (ite (string_discrete part "..") true false)

pub is_unsafe_path : Host → DownloadFile → Bool
is_unsafe_path h f = h.is_absolute f.path || any is_dot_part (h.parts f.path)

-- The files of a group that a download takes.
abbrev pub selected : GgufGroup → Bool → List DownloadFile
selected g include_projector = g.files ++ (if include_projector then g.projector_files else [])

-- `{"sha256": file.sha256} if file.sha256 else {}`: an empty text is left out.
unfoldable pub drop_empty : Option String → Option String
drop_empty none = none
drop_empty (some t) = ite (string_discrete t "") none (some t)

-- The entry of a file in the row.
abbrev pub planned_file : DownloadFile → DownloadFile
planned_file f = record f { sha256 = drop_empty f.sha256; etag = drop_empty f.etag }

-- The checks on the group that was found, and the new row.
pub plan_group : Host → RepositoryManifest → Bool → String → List DownloadJob → GgufGroup → Planned
plan_group h m include_projector new_id rs g =
    let files = selected g include_projector in
    let total_size = sum_sizes files in
    let destination = h.destination m.repo_id m.revision in
    if not g.complete
    then refused group_incomplete
    else if not (is_some g.total_size)
    then refused group_size_unknown
    else if any (λ f. not (is_some f.size)) files
    then refused file_size_unknown
    else if any (is_unsafe_path h) files
    then refused unsafe_path
    else if not (h.is_inside destination)
    then refused escapes_root
    else if ltb (h.free_space destination) total_size
    then refused insufficient_space
    else (let job : DownloadJob = record {
      id = new_id;
      repo_id = m.repo_id;
      revision = h.lower m.revision;
      group_key = g.key;
      files = map planned_file files;
      destination = destination;
      total_bytes = total_size;
      completed_bytes = 0;
      state = queued;
      error = none;
      hidden = false;
    } in
        planned job (rs ++ (job ∷ [])))

pub create : Host → RepositoryManifest → String → Bool → String → List DownloadJob → Planned
create h m group_key include_projector new_id rs =
    if not (is_safe_repository m.repo_id)
    then refused unsafe_repository
    else if not (is_full_revision m.revision)
    then refused incomplete_revision
    else elim (find_group group_key m.groups) [
      | none ↦ refused group_not_found
      | some g ↦ plan_group h m include_projector new_id rs g
    ]
