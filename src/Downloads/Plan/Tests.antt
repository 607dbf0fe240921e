-- ===== src/Downloads/Plan/Tests.antt =====
-- A plan at a concrete repository.
use llama_web_ui.Prelude.{ℕ, ◌≡◌, refl, String, true, false, some, none, List, [], ◌∷◌, ◌++◌}
use llama_web_ui.Downloads.Job.{queued, DownloadFile, DownloadJob}
use llama_web_ui.Downloads.Plan.{
  drop_empty, Host, GgufGroup, RepositoryManifest, planned, refused, unsafe_path, create,
  plan_group, find_group, sum_sizes, is_safe_repository, is_full_revision, is_unsafe_path, split_at,
  is_name_char, is_hex,
}
use llama_web_ui.Downloads.Plan.Checks.{IsPlanned, create-IsPlanned}

abbrev host : Host
host = record {
  parts = λ p. p ∷ [];
  is_absolute = λ _. false;
  destination = λ repo revision. "models/acme/tiny";
  is_inside = λ _. true;
  free_space = λ _. 1000;
  lower = λ s. s;
}

abbrev weights : DownloadFile
weights = record { path = "tiny.gguf"; size = some 700; sha256 = none; etag = none }

abbrev group : GgufGroup
group = record {
  key = "tiny";
  files = weights ∷ [];
  total_size = some 700;
  complete = true;
  projector_files = [];
}

abbrev manifest : RepositoryManifest
manifest = record {
  repo_id = "acme/tiny-1.0";
  revision = "0123456789abcdef0123456789ABCDEF01234567";
  groups = group ∷ [];
}

abbrev job : DownloadJob
job = record {
  id = "j1";
  repo_id = "acme/tiny-1.0";
  revision = "0123456789abcdef0123456789ABCDEF01234567";
  group_key = "tiny";
  files = weights ∷ [];
  destination = "models/acme/tiny";
  total_bytes = 700;
  completed_bytes = 0;
  state = queued;
  error = none;
  hidden = false;
}

create_tiny : create host manifest "tiny" false "j1" [] ≡ planned job (job ∷ [])
unfolding drop_empty create plan_group find_group sum_sizes is_safe_repository is_full_revision
    is_unsafe_path split_at is_name_char is_hex llama_web_ui.Prelude.string_discrete
create_tiny = refl

create-IsPlanned_example : IsPlanned host manifest "tiny" false job × (job ∷ [] ≡ [] ++ (job ∷ []))
create-IsPlanned_example = create-IsPlanned host manifest "tiny" false "j1" [] create_tiny

-- A file above the folder is refused.
create_above :
    create host
      (record manifest {
        groups = record group { files = record weights { path = ".." } ∷ [] } ∷ [];
      })
      "tiny"
      false
      "j1"
      []
    ≡ refused unsafe_path
unfolding create plan_group find_group sum_sizes is_safe_repository is_full_revision is_unsafe_path
    split_at is_name_char is_hex llama_web_ui.Prelude.string_discrete
create_above = refl
