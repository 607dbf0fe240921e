-- ===== src/Downloads/Coordinator/Start.antt =====
-- The coordinator's tasks and what it tells, and how it starts a task
-- (services/download_coordinator.py).
use llama_web_ui.Prelude.{
  ℕ, suc, String, Bool, false, Option, none, some, List, [], ◌∷◌, ◌++◌, any, ◌==◌, if◌then◌else◌,
}
use llama_web_ui.Downloads.Job.{DownloadState, queued, same_state, DownloadJob}
use llama_web_ui.Downloads.Registry.{
  RegistryError, job_not_found, Outcome, ok, err, find, transition, visible, reconcile_interrupted,
}
use llama_web_ui.Prelude.Table
use llama_web_ui.Prelude.Table.{delete}

pub record Task : Type 0 where
  pub job_id : String
  pub number : ℕ

-- What the event broker and the hooks are told.
pub data Notice : Type 0 where
  published : String → DownloadJob → Notice
  completed_hook : String → Notice
  finished_hook : String → DownloadState → Notice

pub record Coordinator : Type 0 where
  pub has_broker : Bool
  pub has_on_completed : Bool
  pub has_on_finished : Bool
  pub jobs : List DownloadJob
  pub tasks : List Task  -- those that have not ended
  pub current : List Task  -- `self._tasks`
  pub next_number : ℕ
  pub notices : List Notice
  pub partials : List String  -- the jobs that may have a staging folder
  pub removable : String → Bool  -- whether `rmtree`, which ignores errors, removes a job's folder

pub data CoordinatorError : Type 0 where
  active_transfer : CoordinatorError
  of_registry : RegistryError → CoordinatorError

-- A method returns or raises, and leaves a coordinator in both cases.
pub data Answer (A : Type 0) : Type 0 where
  gives : A → Coordinator → Answer A
  raises : CoordinatorError → Coordinator → Answer A

unfoldable pub after : {A : Type 0} → Answer A → Coordinator
after (gives a s) = s
after (raises e s) = s

unfoldable pub is_running : ℕ → List Task → Bool
is_running n tasks = any (λ t. t.number == n) tasks

-- `task is not None and not task.done()`.
unfoldable pub is_active_task : Option Task → List Task → Bool
is_active_task none tasks = false
is_active_task (some t) tasks = is_running t.number tasks

unfoldable pub is_active : String → Coordinator → Bool
is_active i s = is_active_task (Table.find (λ t. t.job_id) i s.current) s.tasks

unfoldable pub tell : Bool → Notice → Coordinator → Coordinator
tell listening n s = if listening then record s { notices = s.notices ++ (n ∷ []) } else s

-- `_publish`, of a job that is in the table or not.
unfoldable pub publish_row : String → Option DownloadJob → String → Coordinator → Answer Unit
publish_row action none i s = raises (of_registry (job_not_found i)) s
publish_row action (some r) i s = gives tt (tell s.has_broker (published action r) s)

unfoldable pub publish : String → String → Coordinator → Answer Unit
publish action i s = if s.has_broker then publish_row action (find i s.jobs) i s else gives tt s

unfoldable pub add_task : String → Coordinator → Coordinator
add_task i s =
    let t : Task = record { job_id = i; number = s.next_number } in
    record s {
      tasks = t ∷ s.tasks;
      current = t ∷ delete (λ x. x.job_id) i s.current;
      next_number = suc s.next_number;
      partials = i ∷ s.partials;
    }

-- `start`.
unfoldable pub start_task : String → Coordinator → Answer Unit
start_task i s = if is_active i s then gives tt s else publish "started" i (add_task i s)

unfoldable pub and_after : {A B : Type 0} → Answer A → (A → Coordinator → Answer B) → Answer B
and_after (gives a s) k = k a s
and_after (raises e s) k = raises e s

-- The loop of `start_pending`, over the jobs that are listed.
unfoldable pub start_queued : List DownloadJob → Coordinator → Answer Unit
start_queued [] s = gives tt s
start_queued (r ∷ rs) s =
    and_after (if same_state r.state queued then start_task r.id s else gives tt s)
      (λ u s'. start_queued rs s')

-- `start_pending`.
unfoldable pub start_pending : Coordinator → Answer Unit
start_pending s =
    let s' = record s { jobs = reconcile_interrupted s.jobs } in
    start_queued (visible false s'.jobs) s'

unfoldable pub of_outcome : Outcome → Coordinator → Answer DownloadJob
of_outcome (ok r rs) s = gives r (record s { jobs = rs })
of_outcome (err e) s = raises (of_registry e) s

unfoldable pub transition_to : String → DownloadState → Coordinator → Answer DownloadJob
transition_to i target s = of_outcome (transition i target s.jobs) s
