-- ===== src/Downloads/Worker/Traced.antt =====
-- The table of downloads and the destination after a publication that completes a job
-- (services/download_worker.py).
use llama_web_ui.Downloads.Registry.Runs.{transition_lem}
use llama_web_ui.Prelude.{arith, String, ◌≡◌, refl, true, false, some, List, []}
use llama_web_ui.Downloads.Job.{may_become, DownloadJob, completed, downloading, same_state}
use llama_web_ui.Downloads.Registry.{
  Outcome, ok, err, find, fail, transition, Call, move, fail_with, apply, table_after,
}
use llama_web_ui.Downloads.Registry
use llama_web_ui.Downloads.Publish
use llama_web_ui.Downloads.Publish.{Stored, Destination, published}
use llama_web_ui.Downloads.Worker.{of_outcome, move_to, World, next, and_then}
use llama_web_ui.Downloads.Worker.Run.{delivered, published_to, publish_result}

-- A job that is downloading can be completed.
abbrev pub completed_row : DownloadJob → DownloadJob
completed_row r = record r { state = completed }

abbrev pub complete_in : DownloadJob → World → World
complete_in r w = record w { jobs = Registry.store (completed_row r) w.jobs }

pub move_to-completed :
    (i : String) (w : World) (r : DownloadJob)
    → find i w.jobs ≡ some r
    → same_state r.state downloading ≡ true
    → move_to i completed w ≡ next (completed_row r) (complete_in r w)
unfolding move_to of_outcome
move_to-completed i w r found busy =
    rw
      ((transition_lem i completed w.jobs found).0 (unfold same_state may_become in ground arith)).0
      refl

abbrev pub delivered_to : World → List Stored → World
delivered_to w after = record w {
  destination = published_to w.destination w.staging_cache after;
  staging = [];
  staging_cache = false;
}

pub publish_result-delivered :
    (i : String) (after : List Stored) (w : World) (r : DownloadJob)
    → find i w.jobs ≡ some r
    → same_state r.state downloading ≡ true
    → publish_result i (Publish.published after) w
      ≡ next delivered (complete_in r (delivered_to w after))
unfolding publish_result and_then
publish_result-delivered i after w r found busy =
    rw (move_to-completed i (delivered_to w after) r found busy, and_then) refl
