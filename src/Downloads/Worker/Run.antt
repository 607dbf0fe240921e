-- ===== src/Downloads/Worker/Run.antt =====
-- `DownloadWorker.run` of services/download_worker.py.
use llama_web_ui.Prelude.{
  map, contains, ℕ, ◌+◌, String, Bool, false, Option, none, some, List, [], ◌∷◌, ltb, ◌==◌,
  if◌then◌else◌,
}
use llama_web_ui.Downloads.Job.{
  downloading, completed, cancelled, same_state, DownloadFile, DownloadJob,
}
use llama_web_ui.Downloads.Registry.{RegistryError, Outcome, job_not_found, find, transition, fail}
use llama_web_ui.Downloads.Registry
use llama_web_ui.Downloads.Publish.{
  FolderEntry, file, other, Stored, Staged, Destination, missing, not_a_folder, folder_of,
  Publication, published, refused, broken_off, publish,
}
use llama_web_ui.Downloads.Publish
use llama_web_ui.Downloads.Worker.{
  Machine, World, Visit, WorkerError, size_invalid, outside_staging, missing_file, size_mismatch,
  checksum_mismatch, of_publish, move_failed, WorkerStep, next, left, raised, interrupted, and_then,
  meanwhile, report, move_to, get_job, discard,
}
use llama_web_ui.Downloads.Worker.Check.{
  entry_at, is_reusable, matches_sha256, destination_is_complete,
}
use llama_web_ui.Downloads.Worker.Watch.{Transfer, download_with_progress}

-- The bytes of the files so far, and the progress that the worker knows to be recorded.
pub record Tally : Type 0 where
  pub done : ℕ
  pub recorded : ℕ

-- The staged file, or else a download of it.
unfoldable pub obtain : Machine → Transfer → DownloadFile → Visit → World → WorkerStep String
obtain m t f v w =
    if is_reusable m f t.expected_size (entry_at f.path w.staging)
    then next f.path w
    else download_with_progress m t v w

-- After an `await` the job may no longer be downloading.
unfoldable pub go_on : DownloadJob → World → WorkerStep DownloadJob
go_on r w =
    if same_state r.state downloading
    then next r w
    else if same_state r.state cancelled
    then left (discard w)
    else left w

-- The checksum is taken in another thread.
unfoldable pub check_content :
    Machine → DownloadFile → Option String → Visit → ℕ → String → World → WorkerStep ℕ
check_content m f none v size content w = next size w
check_content m f (some sha256) v size content w =
    if v.hash_cancelled
    then interrupted (meanwhile v.hash_calls w)
    else if matches_sha256 m (some sha256) content
    then next size (meanwhile v.hash_calls w)
    else raised (checksum_mismatch f.path) (meanwhile v.hash_calls w)

unfoldable pub check_entry :
    Machine → DownloadFile → ℕ → Visit → Option FolderEntry → World → WorkerStep ℕ
check_entry m f expected v (some (file n content)) w =
    if n == expected
    then check_content m f f.sha256 v n content w
    else raised (size_mismatch f.path expected n) w
check_entry m f expected v _ w = raised (missing_file f.path) w

-- The checks of the file at the path that the transfer returned: its actual size.
unfoldable pub check_file : Machine → DownloadFile → ℕ → Visit → String → World → WorkerStep ℕ
check_file m f expected v path w =
    if m.in_staging path
    then check_entry m f expected v (entry_at path w.staging) w
    else raised (outside_staging f.path) w

unfoldable pub count : String → Tally → ℕ → World → WorkerStep Tally
count i t size w =
    let done = t.done + size in
    if ltb t.recorded done
    then and_then (report i done w)
        (λ r w'. next (record { done = done; recorded = r.completed_bytes }) w')
    else next (record t { done = done }) w

unfoldable pub visit_sized :
    Machine → String → DownloadFile → Option ℕ → Visit → Tally → World → WorkerStep Tally
visit_sized m i f none v t w = raised (size_invalid f.path) w
visit_sized m i f (some expected) v t w =
    let transfer : Transfer = record {
      job_id = i;
      filename = f.path;
      completed_bytes = t.done;
      expected_size = expected;
    } in
    and_then (obtain m transfer f v w) (λ path w1. and_then (get_job i w1) (λ r w2.
      and_then (go_on r w2) (λ r' w3. and_then (check_file m f expected v path w3) (count i t))))

-- The body of the loop over the files.
unfoldable pub visit_file :
    Machine → String → DownloadFile → Visit → Tally → World → WorkerStep Tally
visit_file m i f v t w =
    and_then (get_job i w)
      (λ r w1. if same_state r.state cancelled then left w1 else visit_sized m i f f.size v t w1)

unfoldable pub visit_files :
    Machine → String → List DownloadFile → (ℕ → Visit) → ℕ → Tally → World → WorkerStep Tally
visit_files m i [] visits k t w = next t w
visit_files m i (f ∷ fs) visits k t w =
    and_then (visit_file m i f (visits k) t w) (visit_files m i fs visits (k + 1))

unfoldable pub add_staged : String → FolderEntry → List Staged → List Staged
add_staged p (file n content) rest = record { path = p; size = n; content = content } ∷ rest
add_staged p other rest = rest

-- The files of a folder.
unfoldable pub files_in : List Stored → List Staged
files_in [] = []
files_in (q ∷ qs) = add_staged q.path q.entry (files_in qs)

-- The destination after a publication: a merge leaves its `.cache`, a move brings that of the
-- staging folder.
unfoldable pub published_to : Destination → Bool → List Stored → Destination
published_to (folder_of (q ∷ qs) has_cache) staging_cache after = folder_of after has_cache
published_to _ staging_cache after = folder_of after staging_cache

-- How `run` ends.
pub data End : Type 0 where
  already_complete delivered stopped cancelled_task : End
  failed_with : WorkerError → End
  escaped : RegistryError → End

-- The staging folder without the files that a merge has moved.
unfoldable pub without_moved : List Staged → List Stored → List Stored
without_moved moved [] = []
without_moved moved (q ∷ qs) =
    let rest = without_moved moved qs in
    if contains (map (λ s. s.path) moved) q.path then rest else q ∷ rest

unfoldable pub publish_result : String → Publication → World → WorkerStep End
publish_result i (Publish.refused e) w = raised (of_publish e) w
publish_result i (Publish.broken_off destination moved) w =
    raised move_failed
      (record w { destination = destination; staging = without_moved moved w.staging })
publish_result i (Publish.published after) w =
    and_then
      (move_to i completed (record w {
        destination = published_to w.destination w.staging_cache after;
        staging = [];
        staging_cache = false;
      }))
      (λ r w'. next delivered w')

-- The files are published if the job is still downloading.
unfoldable pub finish : Machine → String → World → WorkerStep End
finish m i w = and_then (get_job i w) (λ r w1.
    if same_state r.state downloading
    then publish_result i
        (publish m.in_destination m.moves_on m.tombstone w1.destination (files_in w1.staging)) w1
    else left w1)

-- The `try` of `run`.
unfoldable pub transfer_job : Machine → String → DownloadJob → (ℕ → Visit) → World → WorkerStep End
transfer_job m i job visits w =
    if destination_is_complete m job.files w.destination
    then and_then (report i job.total_bytes w)
        (λ r w1. and_then (move_to i completed w1) (λ r' w2. next already_complete w2))
    else and_then
        (visit_files m i job.files visits 0 (record { done = 0; recorded = job.completed_bytes }) w)
        (λ t w1. finish m i w1)

unfoldable pub record_failure : WorkerError → Outcome → World → End × World
record_failure e (Registry.ok r rs) w = (failed_with e, record w { jobs = rs })
record_failure e (Registry.err x) w = (escaped x, w)

unfoldable pub after_cancellation : Option DownloadJob → String → World → End × World
after_cancellation none i w = (escaped (job_not_found i), w)
after_cancellation (some r) i w =
    if same_state r.state cancelled then (cancelled_task, discard w) else (cancelled_task, w)

-- The handlers of `run`.
unfoldable pub close : Machine → String → WorkerStep End → End × World
close m i (next e w) = (e, w)
close m i (left w) = (stopped, w)
close m i (raised e w) = record_failure e (fail i (m.str e) w.jobs) w
close m i (interrupted w) = after_cancellation (find i w.jobs) i w

unfoldable pub begin_transfer : Machine → String → (ℕ → Visit) → Outcome → World → End × World
begin_transfer m i visits (Registry.err e) w = (escaped e, w)
begin_transfer m i visits (Registry.ok job rs) w =
    close m i (transfer_job m i job visits (record w { jobs = rs }))

-- `run`.
unfoldable pub run : Machine → String → (ℕ → Visit) → World → End × World
run m i visits w = begin_transfer m i visits (transition i downloading w.jobs) w
