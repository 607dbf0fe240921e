-- ===== src/Downloads/Coordinator/Tests.antt =====
-- The coordinator on concrete downloads.
use llama_web_ui.Prelude.{true, ◌≡◌, refl, false, none, List, [], ◌∷◌, string_discrete}
use llama_web_ui.Prelude.Table
use llama_web_ui.Downloads.Job.{DownloadJob, queued, downloading, failed, may_become, same_state}
use llama_web_ui.Downloads.Registry.{
  find, store, move, progress, transition, transition_row, with_job,
}
use llama_web_ui.Downloads.Coordinator.{
  Coordinator, after, is_running, is_active_task, is_active, tell, publish_row, publish, add_task,
  start_task, and_after, of_outcome, transition_to, drop_task, pop_task, finished, returned,
  report_end, task_finished, resume,
}
use llama_web_ui.Downloads.Coordinator.Turns.{
  IsTracked, Turn, start_job, pause_job, resume_job, calls, take_turns,
}
use llama_web_ui.Downloads.Coordinator.Tracked.{take_turns-IsTracked}

abbrev job : DownloadJob
job = record {
  id = "a";
  repo_id = "acme/tiny";
  revision = "0";
  group_key = "tiny";
  files = [];
  destination = "models";
  total_bytes = 10;
  completed_bytes = 0;
  state = queued;
  error = none;
  hidden = false;
}

abbrev fresh : Coordinator
fresh = record {
  has_broker = false;
  has_on_completed = false;
  has_on_finished = false;
  jobs = job ∷ [];
  tasks = [];
  current = [];
  next_number = 0;
  notices = [];
  partials = [];
  removable = λ i. true;
}

abbrev turns : List Turn
turns =
    start_job "a"
    ∷ start_job "a"
    ∷ calls (move "a" downloading)
    ∷ pause_job "a" (progress "a" 7 ∷ [])
    ∷ resume_job "a"
    ∷ []

take_turns-IsTracked_example : IsTracked (take_turns turns fresh)
take_turns-IsTracked_example = take_turns-IsTracked turns fresh refl

-- A task that has failed, and whose callback has not run when its job is resumed: the callback
-- forgets the new task, and the next start runs the job twice.
abbrev ended : Coordinator
ended =
    let s = after (start_task "a" fresh) in
    record s { jobs = record job { state = failed } ∷ []; tasks = [] }

abbrev started_twice : Coordinator
started_twice = after (
    start_task "a"
      (task_finished (record { job_id = "a"; number = 0 }) returned (after (resume "a" ended))))

start_task-twice :
    started_twice.tasks
    ≡ record { job_id = "a"; number = 2 } ∷ record { job_id = "a"; number = 1 } ∷ []
unfolding after start_task is_active is_active_task is_running publish publish_row tell add_task
    and_after of_outcome transition_to resume task_finished pop_task drop_task report_end finished
    find store transition transition_row with_job may_become same_state string_discrete Table.find
    Table.delete
start_task-twice = refl
