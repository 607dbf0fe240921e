-- ===== src/Downloads/Coordinator/Held.antt =====
-- The calls of the coordinator that start a task (services/download_coordinator.py).
use llama_web_ui.Prelude.{[], String, Bool, Option, none, some, List, ◌∷◌, if-cases}
use llama_web_ui.Downloads.Job.{queued, DownloadState, same_state, DownloadJob}
use llama_web_ui.Downloads.Registry.{Outcome, ok, err}
use llama_web_ui.Downloads.Coordinator.{
  after, Notice, Coordinator, CoordinatorError, Answer, gives, raises, is_active, tell, publish_row,
  publish, add_task, start_task, and_after, start_queued, of_outcome, transition_to,
}
use llama_web_ui.Downloads.Coordinator.Turns.{IsTracked}
use llama_web_ui.Downloads.Coordinator.Tasks.{add_task-IsTracked}

-- The coordinator is tracked, whether the method returns or raises.
pub data Held {A : Type 0} : Answer A → Type 0 where
  at_gives : {a : A} {s : Coordinator} → IsTracked s → Held (gives a s)
  at_raises : {e : CoordinatorError} {s : Coordinator} → IsTracked s → Held (raises e s)

pub and_after-Held :
    {A B : Type 0} {x : Answer A} (k : A → Coordinator → Answer B)
    → Held x
    → ((a : A) (s : Coordinator) → IsTracked s → Held (k a s))
    → Held (and_after x k)
unfolding and_after
and_after-Held k (at_gives h) on = on _ _ h
and_after-Held k (at_raises h) on = at_raises h

pub Held-after : {A : Type 0} {x : Answer A} → Held x → IsTracked (after x)
unfolding after
Held-after (at_gives h) = h
Held-after (at_raises h) = h

pub tell-IsTracked :
    (b : Bool) (n : Notice) (s : Coordinator) → IsTracked s → IsTracked (tell b n s)
unfolding tell
tell-IsTracked b n s h = if-cases IsTracked b (λ _. h) (λ _. h)

publish_row-Held :
    (action : String) (o : Option DownloadJob) (i : String) (s : Coordinator)
    → IsTracked s
    → Held (publish_row action o i s)
unfolding publish_row
publish_row-Held action none i s h = at_raises h
publish_row-Held action (some r) i s h = at_gives (tell-IsTracked s.has_broker _ s h)

pub publish-Held : (action i : String) (s : Coordinator) → IsTracked s → Held (publish action i s)
unfolding publish
publish-Held action i s h =
    if-cases Held s.has_broker (λ _. publish_row-Held action _ i s h) (λ _. at_gives h)

pub start_task-Held : (i : String) (s : Coordinator) → IsTracked s → Held (start_task i s)
unfolding start_task
start_task-Held i s h =
    if-cases Held (is_active i s) (λ _. at_gives h)
      (λ idle. publish-Held "started" i (add_task i s) (add_task-IsTracked i s h idle))

pub start_queued-Held :
    (rs : List DownloadJob) (s : Coordinator) → IsTracked s → Held (start_queued rs s)
unfolding start_queued
start_queued-Held [] s h = at_gives h
start_queued-Held (r ∷ rs) s h =
    and_after-Held _
      (if-cases Held (same_state r.state queued) (λ _. start_task-Held r.id s h) (λ _. at_gives h))
      (λ u s' h'. start_queued-Held rs s' h')

pub of_outcome-Held : (o : Outcome) (s : Coordinator) → IsTracked s → Held (of_outcome o s)
unfolding of_outcome
of_outcome-Held (ok r rs) s h = at_gives h
of_outcome-Held (err e) s h = at_raises h

pub transition_to-Held :
    (i : String) (target : DownloadState) (s : Coordinator)
    → IsTracked s
    → Held (transition_to i target s)
unfolding transition_to
transition_to-Held i target s h = of_outcome-Held _ s h
