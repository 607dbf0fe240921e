-- ===== src/Downloads/Worker/Delivers.antt =====
-- Runs of the worker on a download of two files.
use llama_web_ui.Prelude.{
  inr, ℕ, ◌≤◌, zero, suc, String, ◌≡◌, refl, true, false, some, none, [], ◌∷◌, All, arith,
  string_discrete,
}
use llama_web_ui.Prelude.Table
use llama_web_ui.Downloads.Job.{DownloadFile, DownloadJob, may_become, queued}
use llama_web_ui.Downloads.Registry.{find, store}
use llama_web_ui.Downloads.Registry
use llama_web_ui.Downloads.Retry
use llama_web_ui.Downloads.Retry.{retry_from}
use llama_web_ui.Downloads.Publish.{file, missing}
use llama_web_ui.Downloads.Worker.{Machine, World, Poll, Visit}
use llama_web_ui.Downloads.Worker.Check.{
  entry_at, entry_of, matches_sha256, destination_is_complete,
}
use llama_web_ui.Downloads.Worker.Watch.{next_bytes, current_file_bytes, highest}
use llama_web_ui.Downloads.Worker.Run.{run}
use llama_web_ui.Downloads.Worker.Live.{IsQuiet, Spares}
use llama_web_ui.Downloads.Worker.Succeeds.{Succeeds}
use llama_web_ui.Downloads.Job.{same_state}
use llama_web_ui.Downloads.Registry.{fail, fail_row, with_job, transition, transition_row}
use llama_web_ui.Downloads.Worker.{
  checksum_mismatch, and_then, meanwhile, of_outcome, row_of, get_job,
}
use llama_web_ui.Downloads.Worker.Check.{
  is_in_place, is_expected, has_size, is_reusable, matches_etag,
}
use llama_web_ui.Downloads.Worker.Run.{
  End, failed_with, begin_transfer, close, transfer_job, finish, publish_result, published_to,
  visit_files, visit_file, visit_sized, obtain, go_on, check_file, check_entry, check_content,
  count, record_failure,
}

-- A content is its own digest.
abbrev machine : Machine
machine = record {
  in_staging = λ p. true;
  in_destination = λ p. true;
  tombstone = false;
  moves_on = λ k. true;
  sha256 = λ c. c;
  md5 = λ c. c;
  lower = λ s. s;
  strip_etag = λ s. s;
  str = λ e. "failed";
  stall_timeout = 60000;
}

abbrev weights : DownloadFile
weights = record { path = "a.gguf"; size = some 4; sha256 = some "good"; etag = none }

abbrev projector : DownloadFile
projector = record { path = "b.gguf"; size = some 3; sha256 = none; etag = none }

abbrev job : DownloadJob
job = record {
  id = "j";
  repo_id = "acme/tiny";
  revision = "0";
  group_key = "tiny";
  files = weights ∷ projector ∷ [];
  destination = "models";
  total_bytes = 7;
  completed_bytes = 2;
  state = queued;
  error = none;
  hidden = false;
}

-- The second file is staged already.
abbrev world : World
world = record {
  jobs = job ∷ [];
  staging = record { path = "b.gguf"; entry = file 3 "old" } ∷ [];
  staging_cache = false;
  destination = missing;
}

abbrev poll : Poll
poll = record {
  calls = [];
  cancelled = false;
  incomplete_sizes = 2 ∷ 1 ∷ [];
  target_size = 0;
  now = 300;
  free = 100;
}

-- The first attempt of each transfer fails.
abbrev answer : String → ℕ → Retry.Outcome
answer path zero = Retry.failed "reset"
answer path (suc a) = Retry.returned path

abbrev transfer : String → ℕ → Visit
transfer path size = record {
  started = 0;
  polls = poll ∷ [];
  attempts = answer path;
  leaves = some (file size "good");
  hash_calls = [];
  hash_cancelled = false;
}

abbrev visits : ℕ → Visit
visits zero = transfer "a.gguf" 4
visits (suc k) = transfer "b.gguf" 3

spares : Spares "j" []
unfolding Registry.run
spares js = refl

quiet : (size : ℕ) → size ≤ 100 → All (IsQuiet "j" size) (poll ∷ [])
quiet size small = (
  record {
    spares = spares;
    not_cancelled = refl;
    has_room = unfold current_file_bytes highest in omega arith;
  },
  tt,
)

weights-Succeeds : Succeeds machine "j" 2 0 weights (visits 0)
weights-Succeeds = record {
  size = 4;
  size_of = refl;
  content = "good";
  brings = refl;
  matches = unfold matches_sha256 string_discrete in refl;
  inside = refl;
  returns = unfold retry_from in refl;
  quiet = quiet 4 (omega arith);
  steady = unfold next_bytes current_file_bytes highest in inr ((omega arith, omega arith), tt);
  hash_spares = spares;
  hash_goes_on = refl;
}

-- Nothing is in the destination.
not_complete : destination_is_complete machine job.files world.destination ≡ false
unfolding destination_is_complete
not_complete = refl

-- The first file is staged with its size and another content, and the job gives no etag: the run
-- fails at the checksum and leaves the file, which the next run keeps again.
abbrev spoiled : World
spoiled = record world { staging = record { path = "a.gguf"; entry = file 4 "evil" } ∷ [] }

abbrev spoiled_result : End × World
spoiled_result = run machine "j" visits spoiled

run-spoiled :
    (spoiled_result.0 ≡ failed_with (checksum_mismatch "a.gguf"))
    × (spoiled_result.1.staging ≡ spoiled.staging)
unfolding run begin_transfer close transfer_job finish publish_result published_to visit_files
    visit_file visit_sized obtain go_on check_file check_entry check_content count
    destination_is_complete is_in_place is_expected has_size record_failure is_reusable matches_etag
    matches_sha256 entry_at entry_of and_then meanwhile of_outcome row_of get_job Table.find find
    store with_job fail fail_row transition transition_row Registry.run may_become same_state
    string_discrete
run-spoiled = (refl, refl)
