-- ===== src/Downloads/Coordinator/Turns.antt =====
-- The coordinator through its calls: which tasks run.
use llama_web_ui.Prelude.{
  ℕ, ◌<◌, String, ◌≡◌, true, Option, none, some, List, [], ◌∷◌, map, All, distinct,
}
use llama_web_ui.Downloads.Registry.{Call, apply}
use llama_web_ui.Prelude.Table
use llama_web_ui.Prelude.Table.{delete, find-delete_ne, find-key}
use llama_web_ui.Downloads.Coordinator.{
  Task, Coordinator, after, start_task, start_pending, TaskEnd, task_finished, pause, cancel,
  resume, redownload, clear_finished, shutdown,
}

-- The calls of the coordinator, the end of the task of a job with its callback at once, and the
-- calls that its worker and other parts make of the registry.
pub data Turn : Type 0 where
  start_all clear_all shut_down : Turn
  start_job resume_job redownload_job : String → Turn
  pause_job cancel_job : String → List Call → Turn
  ends : String → TaskEnd → Turn
  calls : Call → Turn

unfoldable pub end_task : Option Task → TaskEnd → Coordinator → Coordinator
end_task none e s = s
end_task (some t) e s = task_finished t e s

unfoldable pub take_turn : Turn → Coordinator → Coordinator
take_turn start_all s = after (start_pending s)
take_turn clear_all s = after (clear_finished s)
take_turn shut_down s = after (shutdown s)
take_turn (start_job i) s = after (start_task i s)
take_turn (resume_job i) s = after (resume i s)
take_turn (redownload_job i) s = after (redownload i s)
take_turn (pause_job i cs) s = after (pause i cs s)
take_turn (cancel_job i cs) s = after (cancel i cs s)
take_turn (ends i e) s = end_task (Table.find (λ t. t.job_id) i s.tasks) e s
take_turn (calls c) s = record s { jobs = apply c s.jobs }

unfoldable pub take_turns : List Turn → Coordinator → Coordinator
take_turns [] s = s
take_turns (x ∷ xs) s = take_turns xs (take_turn x s)

-- Each task that runs is the current one of its job, and no two run for one job.
pub record Tracks (tasks current : List Task) (next_number : ℕ) : Type 0 where
  pub entries :
      All
        (λ t. (Table.find (λ x. x.job_id) t.job_id current ≡ some t) × (t.number < next_number))
        tasks
  pub apart : distinct (map (λ t. t.job_id) tasks) ≡ true

abbrev pub IsTracked : Coordinator → Type 0
IsTracked s = Tracks s.tasks s.current s.next_number
