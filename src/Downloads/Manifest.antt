-- ===== src/Downloads/Manifest.antt =====
-- `group_gguf_files` of domain/model_manifest.py: the files of a repository as groups of shards.
pub mod Counts
pub mod Complete
mod Tests
use llama_web_ui.Prelude.{
  ℕ, suc, ◌+◌, String, Bool, true, false, ◌||◌, ◌&&◌, Option, none, some, List, [], ◌∷◌, ◌++◌, map,
  all, is_some, length, if◌then◌else◌, ite, string_discrete, ltb, leb, ◌==◌,
}
use llama_web_ui.Downloads.Job.{DownloadFile}
use llama_web_ui.Downloads.Plan.{GgufGroup, sum_sizes}

-- A match of `_SHARD_PATTERN`.
pub record Shard : Type 0 where
  pub base : String
  pub index : ℕ
  pub count : ℕ

-- What the standard library answers about texts.
pub record Names : Type 0 where
  pub shard_of : String → Option Shard  -- `_SHARD_PATTERN.match`
  pub lower : String → String  -- `str.lower`
  pub ends_with : String → String → Bool  -- `text.endswith(suffix)`
  pub contains_text : String → String → Bool  -- `part in text`
  pub removesuffix : String → String → String
  pub at_most : String → String → Bool  -- the order of texts

-- `(index, count, file)`.
pub record ShardFile : Type 0 where
  pub index : ℕ
  pub count : ℕ
  pub file : DownloadFile

-- An item of `grouped`.
pub record KeyedFiles : Type 0 where
  pub key : String
  pub entries : List ShardFile

unfoldable pub is_gguf : Names → DownloadFile → Bool
is_gguf n f = n.ends_with (n.lower f.path) ".gguf"

-- `grouped.setdefault(key, []).append(entry)`.
unfoldable pub add_entry : String → ShardFile → List KeyedFiles → List KeyedFiles
add_entry k e [] = record { key = k; entries = e ∷ [] } ∷ []
add_entry k e (b ∷ bs) =
    ite (string_discrete b.key k) (record b { entries = b.entries ++ (e ∷ []) } ∷ bs)
      (b ∷ add_entry k e bs)

unfoldable pub add_shard : Names → Option Shard → DownloadFile → List KeyedFiles → List KeyedFiles
add_shard n none f bs =
    add_entry (n.removesuffix f.path ".gguf") (record { index = 1; count = 1; file = f }) bs
add_shard n (some s) f bs =
    add_entry s.base (record { index = s.index; count = s.count; file = f }) bs

-- The loop over the files.
unfoldable pub group_entries : Names → List DownloadFile → List KeyedFiles → List KeyedFiles
group_entries n [] bs = bs
group_entries n (f ∷ fs) bs =
    group_entries n fs (if is_gguf n f then add_shard n (n.shard_of f.path) f bs else bs)

-- `sorted(grouped.items())`: the keys differ.
unfoldable pub insert_bucket : Names → KeyedFiles → List KeyedFiles → List KeyedFiles
insert_bucket n b [] = b ∷ []
insert_bucket n b (c ∷ cs) =
    let later = insert_bucket n b cs in if n.at_most b.key c.key then b ∷ c ∷ cs else c ∷ later

unfoldable pub sort_buckets : Names → List KeyedFiles → List KeyedFiles
sort_buckets n [] = []
sort_buckets n (b ∷ bs) = insert_bucket n b (sort_buckets n bs)

-- `entries.sort(key=lambda entry: entry[0])`, which is stable.
unfoldable pub insert_entry : ShardFile → List ShardFile → List ShardFile
insert_entry e [] = e ∷ []
insert_entry e (d ∷ ds) =
    let later = insert_entry e ds in if leb e.index d.index then e ∷ d ∷ ds else d ∷ later

unfoldable pub sort_entries : List ShardFile → List ShardFile
sort_entries [] = []
sort_entries (e ∷ es) = insert_entry e (sort_entries es)

-- `[index for …] == list(range(1, expected_count + 1))`, from the number `k` on.
unfoldable pub counts_up : ℕ → ℕ → List ShardFile → Bool
counts_up k last [] = k == suc last
counts_up k last (e ∷ es) = leb k last && (e.index == k && counts_up (suc k) last es)

unfoldable pub is_complete : List ShardFile → Bool
is_complete [] = false
is_complete (e ∷ es) = all (λ d. d.count == e.count) (e ∷ es) && counts_up 1 e.count (e ∷ es)

unfoldable pub files_of : List ShardFile → List DownloadFile
files_of es = map (λ e. e.file) es

unfoldable pub total_size : List DownloadFile → Option ℕ
total_size fs = if all (λ f. is_some f.size) fs then some (sum_sizes fs) else none

-- The projector files of a group.
unfoldable pub matching_projectors : Names → Bool → String → List DownloadFile → List DownloadFile
matching_projectors n only_group k [] = []
matching_projectors n only_group k (f ∷ fs) =
    let rest = matching_projectors n only_group k fs in
    if is_gguf n f
      && (n.contains_text "mmproj" (n.lower f.path)
          && (only_group || n.contains_text (n.lower k) (n.lower f.path)))
    then f ∷ rest
    else rest

unfoldable pub group_of : Names → Bool → List DownloadFile → KeyedFiles → GgufGroup
group_of n only_group files b =
    let es = sort_entries b.entries in
    record {
      key = b.key;
      files = files_of es;
      total_size = total_size (files_of es);
      complete = is_complete es;
      projector_files = matching_projectors n only_group b.key files;
    }

-- `group_gguf_files`.
unfoldable pub group_gguf_files : Names → List DownloadFile → List GgufGroup
group_gguf_files n files =
    let grouped = group_entries n files [] in
    map (group_of n (length grouped == 1) files) (sort_buckets n grouped)
