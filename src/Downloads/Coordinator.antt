-- ===== src/Downloads/Coordinator.antt =====
-- services/download_coordinator.py: the tasks that run the worker, one function per method. A task
-- that has ended has left `tasks`; its callback is `task_finished`. The hooks and the event broker
-- are the list of what they are told; a hook that raises is only logged.
mod Start
pub mod Turns
pub mod Tasks
pub mod Held
pub mod Tracked
pub mod Cancel
mod Tests
unfoldable pub use Start.*
use llama_web_ui.Prelude.{
  same_text, ℕ, suc, String, Bool, true, false, ◌||◌, ◌&&◌, not, Option, none, some, List, [], ◌∷◌,
  ◌++◌, any, ◌==◌, if◌then◌else◌, ite, string_discrete, length,
}
use llama_web_ui.Downloads.Job.{
  DownloadState, queued, downloading, paused, completed, failed, cancelled, same_state, DownloadJob,
}
use llama_web_ui.Downloads.Registry.{
  RegistryError, job_not_found, Outcome, ok, err, find, transition, fail, reset_for_redownload,
  visible, reconcile_interrupted, clear_terminal, cleared, table_after, Call,
}
use llama_web_ui.Downloads.Registry
use llama_web_ui.Prelude.Table
use llama_web_ui.Prelude.Table.{delete}

-- `self._tasks.pop(job_id, None)`, the task having ended.
unfoldable pub drop_task : ℕ → List Task → List Task
drop_task n [] = []
drop_task n (t ∷ ts) = let rest = drop_task n ts in if t.number == n then rest else t ∷ rest

unfoldable pub pop_task : Task → Coordinator → Coordinator
pop_task t s = record s {
  tasks = drop_task t.number s.tasks;
  current = delete (λ x. x.job_id) t.job_id s.current;
}

-- `_finished`.
unfoldable pub finished : String → DownloadState → Coordinator → Coordinator
finished i state s = tell s.has_on_finished (finished_hook i state) s

-- How a task ends: the worker's `run` returns, raises, or is cancelled.
pub data TaskEnd : Type 0 where
  returned was_cancelled : TaskEnd
  raised : String → TaskEnd

-- Exceptions of this block are only logged.
unfoldable pub failed_outcome : Outcome → String → Coordinator → Coordinator
failed_outcome (err e) i s = s
failed_outcome (ok r rs) i s =
    let s' = record s { jobs = rs } in
    if same_state r.state failed
    then finished i failed (tell s'.has_broker (published "failed" r) s')
    else s'

unfoldable pub fail_task : String → String → Coordinator → Coordinator
fail_task i message s = failed_outcome (fail i message s.jobs) i s

unfoldable pub start_then_fail : Answer DownloadJob → String → String → Coordinator
start_then_fail (raises e s) i message = s
start_then_fail (gives r s) i message = fail_task i message s

unfoldable pub fail_row_task : Option DownloadJob → String → String → Coordinator → Coordinator
fail_row_task none i message s = s
fail_row_task (some r) i message s =
    if same_state r.state queued
    then start_then_fail (transition_to i downloading s) i message
    else fail_task i message s

unfoldable pub state_name : DownloadState → String
state_name queued = "queued"
state_name downloading = "downloading"
state_name paused = "paused"
state_name completed = "completed"
state_name failed = "failed"
state_name cancelled = "cancelled"

unfoldable pub report_end : Option DownloadJob → String → Coordinator → Coordinator
report_end none i s = s
report_end (some r) i s =
    let s1 = tell (s.has_on_completed && same_state r.state completed) (completed_hook i) s in
    if same_state r.state completed || same_state r.state failed
    then tell s1.has_broker (published (state_name r.state) r) (finished i r.state s1)
    else s1

-- `_task_finished`.
unfoldable pub task_finished : Task → TaskEnd → Coordinator → Coordinator
task_finished t was_cancelled s = pop_task t s
task_finished t (raised message) s =
    fail_row_task (find t.job_id s.jobs) t.job_id message (pop_task t s)
task_finished t returned s = report_end (find t.job_id s.jobs) t.job_id (pop_task t s)

-- `_stop_active`: until the cancelled task has ended, other parts call the registry, and the task may
-- still write to its staging folder.
unfoldable pub stop_task : Option Task → List Call → Coordinator → Coordinator
stop_task none calls s = s
stop_task (some t) calls s =
    if is_running t.number s.tasks
    then task_finished t was_cancelled
        (record s { jobs = Registry.run calls s.jobs; partials = t.job_id ∷ s.partials })
    else s

unfoldable pub stop_active : String → List Call → Coordinator → Coordinator
stop_active i calls s = stop_task (Table.find (λ t. t.job_id) i s.current) calls s

unfoldable pub without : String → List String → List String
without i [] = []
without i (j ∷ js) = let rest = without i js in if same_text i j then rest else j ∷ rest

-- `discard_partial` of the worker.
unfoldable pub discard_partial : String → Coordinator → Coordinator
discard_partial i s = record s {
  partials = if s.removable i then without i s.partials else s.partials;
}

-- `pause`.
unfoldable pub pause : String → List Call → Coordinator → Answer DownloadJob
pause i calls s =
    and_after (transition_to i paused s)
      (λ r s1. and_after (publish "paused" i (stop_active i calls s1)) (λ u s2. gives r s2))

-- `cancel`.
unfoldable pub cancel : String → List Call → Coordinator → Answer DownloadJob
cancel i calls s = and_after (transition_to i cancelled s) (λ r s1.
    and_after (publish "cancelled" i (discard_partial i (stop_active i calls s1)))
      (λ u s2. gives r s2))

-- `resume`.
unfoldable pub resume : String → Coordinator → Answer DownloadJob
resume i s =
    if is_active i s
    then raises active_transfer s
    else and_after (transition_to i queued s) (λ r s1.
      and_after (start_task i s1)
        (λ u s2. and_after (publish "resumed" i s2) (λ u' s3. gives r s3)))

-- `redownload`.
unfoldable pub redownload : String → Coordinator → Answer DownloadJob
redownload i s =
    if is_active i s
    then raises active_transfer s
    else and_after (of_outcome (reset_for_redownload i s.jobs) s)
        (λ r s1. and_after (start_task i s1) (λ u s2. gives r s2))

unfoldable pub discard_failed : List DownloadJob → Coordinator → Coordinator
discard_failed [] s = s
discard_failed (r ∷ rs) s =
    discard_failed rs (if same_state r.state failed then discard_partial r.id s else s)

-- `clear_finished`.
unfoldable pub clear_finished : Coordinator → Answer ℕ
clear_finished s =
    gives (length (cleared s.jobs))
      (discard_failed (cleared s.jobs) (record s { jobs = clear_terminal s.jobs }))

-- `shutdown`, up to the wait for the cancelled tasks.
unfoldable pub shutdown_row : Option DownloadJob → Task → Coordinator → Answer Unit
shutdown_row none t s = raises (of_registry (job_not_found t.job_id)) s
shutdown_row (some r) t s =
    if same_state r.state downloading
    then and_after (transition_to t.job_id paused s) (λ r' s'. gives tt s')
    else gives tt s

unfoldable pub shutdown_tasks : List Task → Coordinator → Answer Unit
shutdown_tasks [] s = gives tt s
shutdown_tasks (t ∷ ts) s =
    and_after
      (if is_running t.number s.tasks then shutdown_row (find t.job_id s.jobs) t s else gives tt s)
      (λ u s'. shutdown_tasks ts s')

unfoldable pub shutdown : Coordinator → Answer Unit
shutdown s = shutdown_tasks s.current s
