-- ===== src/Downloads/Coordinator/Cancel.antt =====
-- What a cancellation leaves.
use llama_web_ui.Prelude.{◌⊎◌, String, ◌≡◌, false, some, map, contains}
use llama_web_ui.Downloads.Job.{cancelled, DownloadJob}
use llama_web_ui.Downloads.Registry.{
  Outcome, ok, err, find, fail, apply, visible, cleared, reset_for_redownload,
}
use llama_web_ui.Downloads.Registry
use llama_web_ui.Prelude.Table
use llama_web_ui.Prelude.Table.{delete, find-delete_ne}
use llama_web_ui.Downloads.Coordinator.{Coordinator, Answer, gives}

-- How a job stands after its cancellation.
pub record IsCancelled (i : String) (s : Coordinator) (r : DownloadJob) (x : Answer DownloadJob)
    : Type 0 where
  pub final : Coordinator
  pub returns : x ≡ gives (record r { state = cancelled }) final
  pub no_task : contains (map (λ t. t.job_id) final.tasks) i ≡ false
  pub row : DownloadJob
  pub found : find i final.jobs ≡ some row
  pub is_cancelled : row.state ≡ cancelled
  pub is_discarded : (contains final.partials i ≡ false) ⊎ (s.removable i ≡ false)
