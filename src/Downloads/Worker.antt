-- ===== src/Downloads/Worker.antt =====
-- `DownloadWorker` of services/download_worker.py: what it reads and changes, and its steps. At an
-- `await` other parts may call the registry, and the task may be cancelled.
pub mod Check
pub mod Watch
pub mod Run
pub mod Keeps
pub mod Folder
pub mod Traced
pub mod Verified
pub mod Loaded
pub mod Delivered
pub mod Live
pub mod Succeeds
pub mod Counted
pub mod Ready
pub mod Completes
mod Tests
mod Delivers
use llama_web_ui.Prelude.{ℕ, ◌≡◌, String, Bool, true, false, Option, none, some, List, [], ◌∷◌}
use llama_web_ui.Downloads.Job.{DownloadState, DownloadJob}
use llama_web_ui.Downloads.Registry.{
  RegistryError, job_not_found, Outcome, ok, err, find, transition, update_progress, Call,
}
use llama_web_ui.Downloads.Publish.{FolderEntry, Stored, Destination, PublishError}
use llama_web_ui.Downloads.Registry
use llama_web_ui.Downloads.Retry

pub data WorkerError : Type 0 where
  size_invalid outside_staging missing_file checksum_mismatch stalled : String → WorkerError
  size_mismatch : String → ℕ → ℕ → WorkerError
  out_of_space : ℕ → WorkerError
  transfer_failed : String → WorkerError
  no_attempt move_failed : WorkerError
  of_registry : RegistryError → WorkerError
  of_publish : PublishError → WorkerError

-- What the standard library and the system answer, and the worker's time limit in milliseconds.
pub record Machine : Type 0 where
  pub in_staging : String → Bool  -- `(staging / p).resolve().is_relative_to(staging.resolve())`
  pub in_destination : String → Bool  -- the same of the destination
  pub tombstone : Bool  -- `tombstone.exists()`
  pub moves_on : ℕ → Bool  -- whether the move of that number of a publication succeeds
  pub sha256 : String → String  -- the digests of a content
  pub md5 : String → String
  pub lower : String → String  -- `str.lower`
  pub strip_etag : String → String  -- `.strip('"').strip()`
  pub str : WorkerError → String  -- `str(error)`
  pub stall_timeout : ℕ

-- The registry's table, and the entries of the staging folder and the destination.
pub record World : Type 0 where
  pub jobs : List DownloadJob
  pub staging : List Stored
  pub staging_cache : Bool  -- whether the staging folder has a `.cache`
  pub destination : Destination

-- One turn of the loop that watches a transfer: what happens during its sleep, and what it reads
-- after it.
pub record Poll : Type 0 where
  pub calls : List Call
  pub cancelled : Bool
  pub incomplete_sizes : List ℕ  -- of the `*.incomplete` files
  pub target_size : ℕ  -- of the file, 0 where there is none
  pub now : ℕ  -- `monotonic()`, in milliseconds
  pub free : ℕ  -- `shutil.disk_usage(destination).free`

-- What happens while the worker is at one file. The answers of the transfer are given by attempt.
pub record Visit : Type 0 where
  pub started : ℕ  -- `monotonic()`
  pub polls : List Poll
  pub attempts : ℕ → Retry.Outcome
  pub leaves : Option FolderEntry  -- what the transfer puts at the path of the file, if anything
  pub hash_calls : List Call  -- what happens while the checksum is taken
  pub hash_cancelled : Bool

-- How a part of `run` ends: it goes on, returns early, raises, or is cancelled.
pub data WorkerStep {ℓ} (A : Type ℓ) : Type ℓ where
  next : A → World → WorkerStep A
  left : World → WorkerStep A
  raised : WorkerError → World → WorkerStep A
  interrupted : World → WorkerStep A

unfoldable pub and_then {ℓ κ} :
    {A : Type ℓ} {B : Type κ} → WorkerStep A → (A → World → WorkerStep B) → WorkerStep B
and_then (next a w) k = k a w
and_then (left w) k = left w
and_then (raised e w) k = raised e w
and_then (interrupted w) k = interrupted w

-- Other parts call the registry.
unfoldable pub meanwhile : List Call → World → World
meanwhile calls w = record w { jobs = Registry.run calls w.jobs }

unfoldable pub of_outcome : Outcome → World → WorkerStep DownloadJob
of_outcome (ok r rs) w = next r (record w { jobs = rs })
of_outcome (err e) w = raised (of_registry e) w

-- `self._registry.update_progress(job_id, bytes)`.
unfoldable pub report : String → ℕ → World → WorkerStep DownloadJob
report i bytes w = of_outcome (update_progress i bytes w.jobs) w

-- `self._registry.transition(job_id, target)`.
unfoldable pub move_to : String → DownloadState → World → WorkerStep DownloadJob
move_to i target w = of_outcome (transition i target w.jobs) w

unfoldable pub row_of : Option DownloadJob → String → World → WorkerStep DownloadJob
row_of none i w = raised (of_registry (job_not_found i)) w
row_of (some r) i w = next r w

-- `self._registry.get(job_id)`.
unfoldable pub get_job : String → World → WorkerStep DownloadJob
get_job i w = row_of (find i w.jobs) i w

-- `shutil.rmtree(staging, ignore_errors=True)`.
unfoldable pub discard : World → World
discard w = record w { staging = []; staging_cache = false }
