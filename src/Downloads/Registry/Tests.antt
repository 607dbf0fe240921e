-- ===== src/Downloads/Registry/Tests.antt =====
-- The table of downloads at concrete rows.
use llama_web_ui.Prelude.{◌≡◌, refl, true, false, some, none, List, [], ◌∷◌, string_discrete}
use llama_web_ui.Downloads.Job.{
  DownloadJob, queued, downloading, completed, cancelled, may_become, same_state,
}
use llama_web_ui.Downloads.Registry.{
  find, store, transition, transition_row, with_job, Call, clear, move, progress, reset, run, apply,
  clear_terminal, clear_row, update_progress, update_progress_row, reset_for_redownload, reset_row,
}
use llama_web_ui.Downloads.Registry.Laws.{Rows, apply-Rows}
use llama_web_ui.Downloads.Registry.Runs.{cancelled_forever}

abbrev job : DownloadJob
job = record {
  id = "a";
  repo_id = "acme/tiny";
  revision = "0";
  group_key = "tiny";
  files = [];
  destination = "models";
  total_bytes = 10;
  completed_bytes = 0;
  state = queued;
  error = none;
  hidden = false;
}

abbrev table : List DownloadJob
table = job ∷ record job { id = "b"; state = cancelled } ∷ []

abbrev calls : List Call
calls =
    move "a" downloading
    ∷ progress "a" 7
    ∷ move "b" queued
    ∷ clear
    ∷ move "a" completed
    ∷ reset "a"
    ∷ []

found_b : find "b" table ≡ some (record job { id = "b"; state = cancelled })
unfolding find string_discrete
found_b = refl

found_a : find "a" table ≡ some job
unfolding find string_discrete
found_a = refl

apply-Rows_example : Rows table (apply (progress "a" 7) table)
apply-Rows_example = apply-Rows (progress "a" 7) table

cancelled_forever_example :
    (r : DownloadJob) × (find "b" (run calls table) ≡ some r) × (r.state ≡ cancelled)
cancelled_forever_example = cancelled_forever calls "b" table found_b refl

-- A completed download that is reset is queued again from its first byte.
run-calls : run calls table ≡ job ∷ record job { id = "b"; state = cancelled; hidden = true } ∷ []
unfolding run apply transition transition_row update_progress update_progress_row
    reset_for_redownload reset_row clear_terminal clear_row with_job find store may_become
    same_state string_discrete
run-calls = refl
