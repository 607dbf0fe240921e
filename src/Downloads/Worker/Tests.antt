-- ===== src/Downloads/Worker/Tests.antt =====
-- The worker on concrete downloads.
use llama_web_ui.Prelude.{
  ℕ, String, ◌≡◌, refl, true, false, some, none, List, [], ◌∷◌, string_discrete, contains, distinct,
  zero, suc,
}
use llama_web_ui.Prelude.Table
use llama_web_ui.Downloads.Job.{
  DownloadFile, DownloadJob, queued, cancelled, may_become, same_state,
}
use llama_web_ui.Downloads.Registry.{
  find, store, Call, move, transition, transition_row, with_job, update_progress,
  update_progress_row, fail, fail_row, apply,
}
use llama_web_ui.Downloads.Registry
use llama_web_ui.Downloads.Retry
use llama_web_ui.Downloads.Retry.{retry_from}
use llama_web_ui.Downloads.Publish.{
  carry_out, all_move, file, missing, folder_of, entries, publish, merge, plan_moves,
}
use llama_web_ui.Downloads.Worker.{
  Machine, World, Poll, Visit, and_then, meanwhile, of_outcome, report, move_to, row_of, get_job,
  discard,
}
use llama_web_ui.Downloads.Worker.Check.{
  entry_of, entry_at, write_entry, matches_sha256, matches_etag, is_reusable, has_size, is_expected,
  is_in_place, destination_is_complete,
}
use llama_web_ui.Downloads.Worker.Watch.{
  highest, current_file_bytes, next_bytes, mark_progress, report_bytes, check_disk, poll_once,
  watch, settle, left_by, download_with_progress,
}
use llama_web_ui.Downloads.Worker.Run.{
  stopped, End, delivered, obtain, go_on, check_content, check_entry, check_file, count,
  visit_sized, visit_file, visit_files, add_staged, files_in, published_to, publish_result, finish,
  transfer_job, close, begin_transfer, run,
}
use llama_web_ui.Downloads.Worker.Delivered.{WasDelivered, run-WasDelivered}

-- A content is its own digest.
abbrev machine : Machine
machine = record {
  in_staging = λ p. true;
  in_destination = λ p. true;
  tombstone = false;
  moves_on = λ k. true;
  sha256 = λ c. c;
  md5 = λ c. c;
  lower = λ s. s;
  strip_etag = λ s. s;
  str = λ e. "failed";
  stall_timeout = 60000;
}

abbrev files : List DownloadFile
files =
    record { path = "a.gguf"; size = some 4; sha256 = some "good"; etag = none }
    ∷ record { path = "b.gguf"; size = some 3; sha256 = none; etag = none }
    ∷ []

abbrev job : DownloadJob
job = record {
  id = "j";
  repo_id = "acme/tiny";
  revision = "0";
  group_key = "tiny";
  files = files;
  destination = "models";
  total_bytes = 7;
  completed_bytes = 0;
  state = queued;
  error = none;
  hidden = false;
}

-- The second file is staged already.
abbrev world : World
world = record {
  jobs = job ∷ [];
  staging = record { path = "b.gguf"; entry = file 3 "old" } ∷ [];
  staging_cache = false;
  destination = missing;
}

abbrev poll : List Call → Poll
poll calls = record {
  calls = calls;
  cancelled = false;
  incomplete_sizes = 2 ∷ 1 ∷ [];
  target_size = 0;
  now = 300;
  free = 100;
}

abbrev name_of : ℕ → String
name_of zero = "a.gguf"
name_of (suc k) = "b.gguf"

-- A transfer that fails once and then answers.
abbrev answer : ℕ → ℕ → Retry.Outcome
answer k zero = Retry.failed "reset"
answer k (suc a) = Retry.returned (name_of k)

abbrev visit : List Call → ℕ → Visit
visit calls k = record {
  started = 0;
  polls = poll calls ∷ [];
  attempts = answer k;
  leaves = some (file 4 "good");
  hash_calls = [];
  hash_cancelled = false;
}

abbrev result : End × World
result = run machine "j" (visit []) world

run-delivers : result.0 ≡ delivered
unfolding run begin_transfer close transfer_job finish publish_result published_to visit_files
    visit_file visit_sized obtain go_on check_file check_entry check_content count
    download_with_progress watch poll_once check_disk report_bytes mark_progress settle left_by
    current_file_bytes next_bytes highest destination_is_complete is_in_place is_expected has_size
    is_reusable matches_etag matches_sha256 write_entry entry_at entry_of and_then meanwhile
    of_outcome report move_to row_of get_job files_in add_staged Table.find Table.store find store
    transition transition_row with_job update_progress update_progress_row apply Registry.run
    retry_from publish merge plan_moves may_become same_state string_discrete
run-delivers = refl

answers : (k a : ℕ) (q : String) → answer k a ≡ Retry.returned q → q ≡ name_of k
answers k zero q h = cc
answers k (suc a) q h = cc

found : find "j" world.jobs ≡ some job
unfolding find string_discrete
found = refl

run-WasDelivered_example : WasDelivered machine "j" [] files result.1
run-WasDelivered_example =
    run-WasDelivered machine "j" (visit []) world found
      (unfold distinct contains string_discrete in refl)
      (unfold distinct contains string_discrete in refl) (answers 0, (answers 1, tt)) run-delivers

-- The job is cancelled while its first file is transferred: nothing is published, and the staging
-- folder is removed.
abbrev cancelled_result : End × World
cancelled_result = run machine "j" (visit (move "j" cancelled ∷ [])) world

run-cancelled :
    cancelled_result
    ≡ (stopped, record world { jobs = record job { state = cancelled } ∷ []; staging = [] })
unfolding run begin_transfer close transfer_job finish publish_result published_to visit_files
    visit_file visit_sized obtain go_on check_file check_entry check_content count
    download_with_progress watch poll_once check_disk report_bytes mark_progress settle left_by
    current_file_bytes next_bytes highest destination_is_complete is_in_place is_expected has_size
    is_reusable matches_etag matches_sha256 write_entry entry_at entry_of and_then meanwhile
    of_outcome report move_to row_of get_job files_in add_staged Table.find Table.store find store
    transition transition_row with_job update_progress update_progress_row apply Registry.run
    retry_from publish merge plan_moves may_become same_state string_discrete discard
run-cancelled = refl

-- A file of the expected size whose content does not match the checksum stands in the destination,
-- beside another: the run delivers and leaves it there.
abbrev damaged : World
damaged = record world {
  destination =
      folder_of
        (record { path = "a.gguf"; entry = file 4 "evil" }
          ∷ record { path = "b.gguf"; entry = file 3 "old" }
          ∷ [])
        true;
}

abbrev damaged_result : End × World
damaged_result = run machine "j" (visit []) damaged

run-damaged :
    (damaged_result.0 ≡ delivered)
    × (entry_at "a.gguf" (entries damaged_result.1.destination) ≡ some (file 4 "evil"))
unfolding run begin_transfer close transfer_job finish publish_result published_to visit_files
    visit_file visit_sized obtain go_on check_file check_entry check_content count
    download_with_progress watch poll_once check_disk report_bytes mark_progress settle left_by
    current_file_bytes next_bytes highest destination_is_complete is_in_place is_expected has_size
    is_reusable matches_etag matches_sha256 write_entry entry_at entry_of and_then meanwhile
    of_outcome report move_to row_of get_job files_in add_staged Table.find Table.store find store
    transition transition_row with_job update_progress update_progress_row apply Registry.run
    retry_from publish merge carry_out all_move plan_moves may_become same_state string_discrete
run-damaged = (refl, refl)
