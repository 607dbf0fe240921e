-- ===== src/Downloads/Coordinator/Tracked.antt =====
-- Which tasks run after a sequence of turns of the coordinator (services/download_coordinator.py).
use llama_web_ui.Prelude.{
  refl, subst, sym, string_discrete, [], ℕ, ◌<◌, All, distinct, ◌||◌, ◌&&◌, String, ◌≡◌, ap, ◌∙◌,
  Option, none, some, List, ◌∷◌, if-cases,
}
use llama_web_ui.Downloads.Job.{
  completed, paused, cancelled, queued, DownloadState, downloading, failed, same_state, DownloadJob,
}
use llama_web_ui.Downloads.Registry.{Outcome, ok, err, Call}
use llama_web_ui.Prelude.Table
use llama_web_ui.Prelude.Table.{delete, find-delete_ne, find-key}
use llama_web_ui.Downloads.Coordinator.{
  pause, cancel, resume, redownload, discard_failed, clear_finished, shutdown_row, shutdown_tasks,
  shutdown, start_pending, stop_active, discard_partial, state_name, completed_hook, finished_hook,
  finished, after, report_end, is_running, Task, Coordinator, Answer, is_active, tell, TaskEnd,
  returned, was_cancelled, raised, failed_outcome, fail_task, start_then_fail, fail_row_task,
  task_finished, stop_task, published,
}
use llama_web_ui.Downloads.Coordinator.Turns.{
  Tracks, Turn, take_turn, take_turns, end_task, start_all, clear_all, shut_down, start_job,
  resume_job, redownload_job, pause_job, cancel_job, ends, calls, IsTracked,
}
use llama_web_ui.Downloads.Coordinator.Tasks.{pop_task-IsTracked}
use mathlib.Core.Logic.{if_pos, if_neg}
use mathlib.Core.Option.{some-injective}
use llama_web_ui.Downloads.Coordinator.Held.{
  Held, Held-after, and_after-Held, at_gives, at_raises, of_outcome-Held, publish-Held,
  start_queued-Held, start_task-Held, tell-IsTracked, transition_to-Held,
}

finished-IsTracked :
    (i : String) (state : DownloadState) (s : Coordinator)
    → IsTracked s
    → IsTracked (finished i state s)
unfolding finished
finished-IsTracked i state s h = tell-IsTracked s.has_on_finished (finished_hook i state) s h

failed_outcome-IsTracked :
    (o : Outcome) (i : String) (s : Coordinator) → IsTracked s → IsTracked (failed_outcome o i s)
unfolding failed_outcome
failed_outcome-IsTracked (err e) i s h = h
failed_outcome-IsTracked (ok r rs) i s h =
    if-cases IsTracked (same_state r.state failed)
      (λ _.
        finished-IsTracked i failed
          (tell s.has_broker (published "failed" r) (record s { jobs = rs }))
          (tell-IsTracked s.has_broker (published "failed" r) (record s { jobs = rs }) h))
      (λ _. h)

start_then_fail-IsTracked :
    {x : Answer DownloadJob} (i message : String) → Held x → IsTracked (start_then_fail x i message)
unfolding start_then_fail fail_task
start_then_fail-IsTracked i message (at_raises h) = h
start_then_fail-IsTracked i message (at_gives h) = failed_outcome-IsTracked _ i _ h

fail_row_task-IsTracked :
    (o : Option DownloadJob) (i message : String) (s : Coordinator)
    → IsTracked s
    → IsTracked (fail_row_task o i message s)
unfolding fail_row_task fail_task
fail_row_task-IsTracked none i message s h = h
fail_row_task-IsTracked (some r) i message s h =
    if-cases IsTracked (same_state r.state queued)
      (λ _. start_then_fail-IsTracked i message (transition_to-Held i downloading s h))
      (λ _. failed_outcome-IsTracked _ i s h)

report_end-IsTracked :
    (o : Option DownloadJob) (i : String) (s : Coordinator)
    → IsTracked s
    → IsTracked (report_end o i s)
unfolding report_end
report_end-IsTracked none i s h = h
report_end-IsTracked (some r) i s h =
    let s1 = tell (s.has_on_completed && same_state r.state completed) (completed_hook i) s in
    let h1 : IsTracked s1 = tell-IsTracked _ (completed_hook i) s h in
    if-cases IsTracked (same_state r.state completed || same_state r.state failed)
      (λ _.
        tell-IsTracked s1.has_broker (published (state_name r.state) r) (finished i r.state s1)
          (finished-IsTracked i r.state s1 h1))
      (λ _. h1)

task_finished-IsTracked :
    (t : Task) (e : TaskEnd) (s : Coordinator)
    → Table.find (λ x. x.job_id) t.job_id s.current ≡ some t
    → IsTracked s
    → IsTracked (task_finished t e s)
unfolding task_finished
task_finished-IsTracked t was_cancelled s c h = pop_task-IsTracked t s c h
task_finished-IsTracked t (raised message) s c h =
    fail_row_task-IsTracked _ t.job_id message _ (pop_task-IsTracked t s c h)
task_finished-IsTracked t returned s c h =
    report_end-IsTracked _ t.job_id _ (pop_task-IsTracked t s c h)

stop_task-IsTracked :
    (i : String) (o : Option Task) (cs : List Call) (s : Coordinator)
    → Table.find (λ x. x.job_id) i s.current ≡ o
    → IsTracked s
    → IsTracked (stop_task o cs s)
unfolding stop_task
stop_task-IsTracked i none cs s q h = h
stop_task-IsTracked i (some t) cs s q h =
    if-cases IsTracked (is_running t.number s.tasks)
      (λ _.
        task_finished-IsTracked t was_cancelled _
          (ap (λ j. Table.find (λ x. x.job_id) j s.current) (find-key (λ x. x.job_id) i s.current q)
            ∙ q)
          h)
      (λ _. h)

pub stop_active-IsTracked :
    (i : String) (cs : List Call) (s : Coordinator) → IsTracked s → IsTracked (stop_active i cs s)
unfolding stop_active
stop_active-IsTracked i cs s h = stop_task-IsTracked i _ cs s refl h

pause-Held : (i : String) (cs : List Call) (s : Coordinator) → IsTracked s → Held (pause i cs s)
unfolding pause
pause-Held i cs s h = and_after-Held _ (transition_to-Held i paused s h) (λ r s1 h1.
    and_after-Held _ (publish-Held "paused" i _ (stop_active-IsTracked i cs s1 h1))
      (λ u s2 h2. at_gives h2))

cancel-Held : (i : String) (cs : List Call) (s : Coordinator) → IsTracked s → Held (cancel i cs s)
unfolding cancel discard_partial
cancel-Held i cs s h = and_after-Held _ (transition_to-Held i cancelled s h) (λ r s1 h1.
    and_after-Held _
      (publish-Held "cancelled" i (discard_partial i (stop_active i cs s1))
        (stop_active-IsTracked i cs s1 h1))
      (λ u s2 h2. at_gives h2))

resume-Held : (i : String) (s : Coordinator) → IsTracked s → Held (resume i s)
unfolding resume
resume-Held i s h =
    if-cases Held (is_active i s) (λ _. at_raises h)
      (λ _. and_after-Held _ (transition_to-Held i queued s h) (λ r s1 h1.
        and_after-Held _ (start_task-Held i s1 h1)
          (λ u s2 h2. and_after-Held _ (publish-Held "resumed" i s2 h2) (λ u' s3 h3. at_gives h3))))

redownload-Held : (i : String) (s : Coordinator) → IsTracked s → Held (redownload i s)
unfolding redownload
redownload-Held i s h =
    if-cases Held (is_active i s) (λ _. at_raises h)
      (λ _.
        and_after-Held _ (of_outcome-Held _ s h)
          (λ r s1 h1. and_after-Held _ (start_task-Held i s1 h1) (λ u s2 h2. at_gives h2)))

discard_failed-IsTracked :
    (rs : List DownloadJob) (s : Coordinator) → IsTracked s → IsTracked (discard_failed rs s)
unfolding discard_failed discard_partial
discard_failed-IsTracked [] s h = h
discard_failed-IsTracked (r ∷ rs) s h =
    discard_failed-IsTracked rs _ (if-cases IsTracked (same_state r.state failed) (λ _. h) (λ _. h))

shutdown_row-Held :
    (o : Option DownloadJob) (t : Task) (s : Coordinator) → IsTracked s → Held (shutdown_row o t s)
unfolding shutdown_row
shutdown_row-Held none t s h = at_raises h
shutdown_row-Held (some r) t s h =
    if-cases Held (same_state r.state downloading)
      (λ _. and_after-Held _ (transition_to-Held t.job_id paused s h) (λ r' s' h'. at_gives h'))
      (λ _. at_gives h)

shutdown_tasks-Held : (ts : List Task) (s : Coordinator) → IsTracked s → Held (shutdown_tasks ts s)
unfolding shutdown_tasks
shutdown_tasks-Held [] s h = at_gives h
shutdown_tasks-Held (t ∷ ts) s h =
    and_after-Held _
      (if-cases Held (is_running t.number s.tasks) (λ _. shutdown_row-Held _ t s h)
        (λ _. at_gives h))
      (λ u s' h'. shutdown_tasks-Held ts s' h')

-- A task found among those that run is the current one of its job.
found-current :
    (i : String) (current : List Task) (n : ℕ) (ts : List Task) {t : Task}
    → All (λ x. (Table.find (λ y. y.job_id) x.job_id current ≡ some x) × (x.number < n)) ts
    → Table.find (λ x. x.job_id) i ts ≡ some t
    → Table.find (λ x. x.job_id) t.job_id current ≡ some t
unfolding Table.find
found-current i current n [] h q = cc
found-current i current n (x ∷ ts) (h, hs) q = elim (string_discrete x.job_id i) [
  | yes p ↦
      subst (λ y. Table.find (λ z. z.job_id) y.job_id current ≡ some y)
        (some-injective _ _ (rw (if_pos _ p) at q)) h.0
  | no m ↦ found-current i current n ts hs (rw (if_neg _ m) at q)
]

end_task-IsTracked :
    (i : String) (o : Option Task) (e : TaskEnd) (s : Coordinator)
    → Table.find (λ x. x.job_id) i s.tasks ≡ o
    → IsTracked s
    → IsTracked (end_task o e s)
unfolding end_task
end_task-IsTracked i none e s q h = h
end_task-IsTracked i (some t) e s q h =
    task_finished-IsTracked t e s (found-current i s.current s.next_number s.tasks h.entries q) h

take_turn-IsTracked : (x : Turn) (s : Coordinator) → IsTracked s → IsTracked (take_turn x s)
unfolding take_turn
take_turn-IsTracked start_all s h = Held-after (unfold start_pending in start_queued-Held _ _ h)
take_turn-IsTracked clear_all s h = unfold clear_finished after in discard_failed-IsTracked _ _ h
take_turn-IsTracked shut_down s h =
    Held-after (unfold shutdown in shutdown_tasks-Held s.current s h)
take_turn-IsTracked (start_job i) s h = Held-after (start_task-Held i s h)
take_turn-IsTracked (resume_job i) s h = Held-after (resume-Held i s h)
take_turn-IsTracked (redownload_job i) s h = Held-after (redownload-Held i s h)
take_turn-IsTracked (pause_job i cs) s h = Held-after (pause-Held i cs s h)
take_turn-IsTracked (cancel_job i cs) s h = Held-after (cancel-Held i cs s h)
take_turn-IsTracked (ends i e) s h = end_task-IsTracked i _ e s refl h
take_turn-IsTracked (calls c) s h = h

take_turns-keeps : (xs : List Turn) (s : Coordinator) → IsTracked s → IsTracked (take_turns xs s)
unfolding take_turns
take_turns-keeps [] s h = h
take_turns-keeps (x ∷ xs) s h = take_turns-keeps xs (take_turn x s) (take_turn-IsTracked x s h)

-- From a coordinator without tasks, whatever is asked of it, however its tasks end and whatever
-- becomes of the jobs, no two tasks that run are of one job, and each is the current task of its
-- job; if the callback of a task runs as soon as the task has ended.
pub take_turns-IsTracked :
    (xs : List Turn) (s : Coordinator) → s.tasks ≡ [] → IsTracked (take_turns xs s)
take_turns-IsTracked xs s none_running = take_turns-keeps xs s (
    subst (λ ts. Tracks ts s.current s.next_number) (sym none_running)
      (record { entries = tt; apart = unfold distinct in refl }))
