-- ===== src/Downloads/Job.antt =====
-- domain/download_job.py: the states of a download and the changes between them.
use llama_web_ui.Prelude.{ℕ, String, Bool, true, false, Option, List}

pub data DownloadState : Type 0 where
  queued downloading paused completed failed cancelled : DownloadState

unfoldable pub same_state : DownloadState → DownloadState → Bool
same_state queued queued = true
same_state downloading downloading = true
same_state paused paused = true
same_state completed completed = true
same_state failed failed = true
same_state cancelled cancelled = true
same_state _ _ = false

-- `target in _TRANSITIONS[current]`.
unfoldable pub may_become : DownloadState → DownloadState → Bool
may_become queued downloading = true
may_become queued cancelled = true
may_become downloading paused = true
may_become downloading completed = true
may_become downloading failed = true
may_become downloading cancelled = true
may_become paused queued = true
may_become paused cancelled = true
may_become failed queued = true
may_become failed cancelled = true
may_become _ _ = false

pub record DownloadFile : Type 0 where
  pub path : String
  pub size : Option ℕ
  pub sha256 : Option String
  pub etag : Option String

-- The columns of `DownloadJobRecord`.
pub record DownloadJob : Type 0 where
  pub id : String
  pub repo_id : String
  pub revision : String
  pub group_key : String
  pub files : List DownloadFile
  pub destination : String
  pub total_bytes : ℕ
  pub completed_bytes : ℕ
  pub state : DownloadState
  pub error : Option String
  pub hidden : Bool
