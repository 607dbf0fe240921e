-- ===== src/Downloads/Manifest/Tests.antt =====
-- The groups of concrete files.
use llama_web_ui.Prelude.{
  ℕ, ◌≡◌, refl, String, true, false, Option, none, some, List, [], ◌∷◌, sum_of, same_text,
  string_discrete, if◌then◌else◌, ◌↔◌,
}
use llama_web_ui.Downloads.Job.{DownloadFile}
use llama_web_ui.Downloads.Plan.{sum_sizes}
use llama_web_ui.Downloads.Manifest.{
  Shard, Names, ShardFile, is_gguf, add_entry, add_shard, group_entries, insert_bucket,
  sort_buckets, insert_entry, sort_entries, counts_up, is_complete, files_of, total_size,
  matching_projectors, group_of, group_gguf_files,
}
use llama_web_ui.Downloads.Manifest.Counts.{count_of, gguf_only, group_gguf_files-counts}
use llama_web_ui.Downloads.Manifest.Complete.{IsComplete, is_complete_iff}

abbrev shards : String → Option Shard
shards p =
    if same_text p "m-2"
    then some (record { base = "m"; index = 2; count = 2 })
    else if same_text p "m-1"
    then some (record { base = "m"; index = 1; count = 2 })
    else none

abbrev names : Names
names = record {
  shard_of = shards;
  lower = λ s. s;
  ends_with = λ s e. if same_text s "readme" then false else true;
  contains_text = λ part s. same_text s "mmproj";
  removesuffix = λ s e. s;
  at_most = λ s t. true;
}

abbrev hub_file : String → ℕ → DownloadFile
hub_file p n = record { path = p; size = some n; sha256 = none; etag = none }

abbrev files : List DownloadFile
files = hub_file "m-2" 5 ∷ hub_file "readme" 1 ∷ hub_file "m-1" 7 ∷ hub_file "mmproj" 2 ∷ []

group_gguf_files-counts_example :
    sum_of (λ g. count_of (λ f. true) g.files) (group_gguf_files names files)
    ≡ count_of (λ f. true) (gguf_only names files)
group_gguf_files-counts_example = group_gguf_files-counts names files (λ f. true)

abbrev entries : List ShardFile
entries =
    record { index = 1; count = 2; file = hub_file "m-1" 7 }
    ∷ record { index = 2; count = 2; file = hub_file "m-2" 5 }
    ∷ []

is_complete_iff_example : (is_complete entries ≡ true) ↔ IsComplete entries
is_complete_iff_example = is_complete_iff entries

-- A projector is a group of its own, and the projector file of that group.
group_gguf_files-projector :
    group_gguf_files names files
    ≡ record {
      key = "m";
      files = hub_file "m-1" 7 ∷ hub_file "m-2" 5 ∷ [];
      total_size = some 12;
      complete = true;
      projector_files = hub_file "mmproj" 2 ∷ [];
    }
      ∷ record {
        key = "mmproj";
        files = hub_file "mmproj" 2 ∷ [];
        total_size = some 2;
        complete = true;
        projector_files = hub_file "mmproj" 2 ∷ [];
      }
      ∷ []
unfolding group_gguf_files group_entries add_shard add_entry is_gguf sort_buckets insert_bucket
    group_of sort_entries insert_entry files_of total_size is_complete counts_up matching_projectors
    string_discrete sum_sizes
group_gguf_files-projector = refl
