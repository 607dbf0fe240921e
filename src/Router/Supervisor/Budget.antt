-- ===== src/Router/Supervisor/Budget.antt =====
-- How often the supervisor restarts the router.
use llama_web_ui.Prelude.{
  zero, suc, ℕ, ◌+◌, ℤ, Option, none, List, [], ◌∷◌, not, ◌&&◌, is_some, arith, if-cases,
}
use llama_web_ui.Router.{
  RouterState, stopped, starting, ready, degraded, stopping, crashed, may_enter, RouterLaunch,
  System, arguments,
}
use llama_web_ui.Router.Supervisor.{
  Policy, Supervisor, new_supervisor, delaying, waiting, in_hook, ending, set_state, start,
  schedule_restart, is_at, Stopping, finished, awaiting, raised, stop_running, stop_process, stop,
  process_ended, stop_ends, hook_answers, stopped_late, own_exit, lose_process, timed_out,
  ended_late, exited, is_process, watch_failed, capture_failed, Event, time_passes, starts, stops,
  marks_ready, marks_degraded, delay_ends, launcher_fails, launcher_returns, probe_succeeds,
  process_gone, limit_reached, hook_returns, process_ends, watch_sees, watch_breaks, capture_breaks,
  handle, run,
}
use llama_web_ui.Router.Supervisor.Covered.{
  Covers, IsCovered, IsThrottled, begin_with-IsCovered, delay_over-IsCovered,
  launch_failed-IsCovered, launched-IsCovered, probed-IsCovered, restart_turn-IsCovered,
  schedule_restart-IsCovered,
}

module _ (policy : Policy) where
  stop_running-IsCovered :
      (s : Supervisor) → IsCovered policy s → IsCovered policy (stop_running s).0
  unfolding stop_running
  stop_running-IsCovered s c =
      if-cases (λ (r : Supervisor × Stopping). IsCovered policy r.0) (may_enter s.state stopping)
        (λ _.
          if-cases (λ (r : Supervisor × Stopping). IsCovered policy r.0) (is_some s.process)
            (λ _. c) (λ _. c))
        (λ _. c)

  stop_process-IsCovered :
      (state : RouterState) (s : Supervisor)
      → IsCovered policy s
      → IsCovered policy (stop_process state s).0
  unfolding stop_process
  stop_process-IsCovered stopped s c = c
  stop_process-IsCovered crashed s c = c
  stop_process-IsCovered starting s c = stop_running-IsCovered s c
  stop_process-IsCovered ready s c = stop_running-IsCovered s c
  stop_process-IsCovered degraded s c = stop_running-IsCovered s c
  stop_process-IsCovered stopping s c = stop_running-IsCovered s c

  stopped_late-IsCovered :
      (how : Stopping) (s : Supervisor)
      → IsCovered policy s
      → IsCovered policy (stopped_late policy how s)
  unfolding stopped_late
  stopped_late-IsCovered finished s c = restart_turn-IsCovered policy (set_state crashed s) c
  stopped_late-IsCovered awaiting s c = c
  stopped_late-IsCovered raised s c = restart_turn-IsCovered policy s c

  process_ended-IsCovered :
      (state : RouterState) (s : Supervisor)
      → IsCovered policy s
      → IsCovered policy (process_ended state s)
  unfolding process_ended
  process_ended-IsCovered stopping s c = c
  process_ended-IsCovered stopped s c = c
  process_ended-IsCovered crashed s c = c
  process_ended-IsCovered starting s c = c
  process_ended-IsCovered ready s c = c
  process_ended-IsCovered degraded s c = c

  stop_ends-IsCovered :
      (n : ℕ) (s : Supervisor) → IsCovered policy s → IsCovered policy (stop_ends n s)
  unfolding stop_ends
  stop_ends-IsCovered zero s c = c
  stop_ends-IsCovered (suc n) s c = process_ended-IsCovered s.state _ c

  crash-IsCovered :
      (s : Supervisor)
      → IsCovered policy s
      → IsCovered policy (schedule_restart policy (record (set_state crashed s) { process = none }))
  crash-IsCovered s c =
      schedule_restart-IsCovered policy (record (set_state crashed s) { process = none }) c

  own_exit-IsCovered :
      (state : RouterState) (s : Supervisor)
      → IsCovered policy s
      → IsCovered policy (own_exit policy state s)
  unfolding own_exit
  own_exit-IsCovered stopping s c = c
  own_exit-IsCovered stopped s c = c
  own_exit-IsCovered crashed s c = crash-IsCovered s c
  own_exit-IsCovered starting s c = crash-IsCovered s c
  own_exit-IsCovered ready s c = crash-IsCovered s c
  own_exit-IsCovered degraded s c = crash-IsCovered s c

  watch_failed-IsCovered :
      (code : Option ℤ) (state : RouterState) (s : Supervisor)
      → IsCovered policy s
      → IsCovered policy (watch_failed policy code state s)
  unfolding watch_failed
  watch_failed-IsCovered code stopped s c = c
  watch_failed-IsCovered code stopping s c = c
  watch_failed-IsCovered code crashed s c =
      schedule_restart-IsCovered policy (lose_process code s) c
  watch_failed-IsCovered code starting s c =
      schedule_restart-IsCovered policy (set_state crashed (lose_process code s)) c
  watch_failed-IsCovered code ready s c =
      schedule_restart-IsCovered policy (set_state crashed (lose_process code s)) c
  watch_failed-IsCovered code degraded s c =
      schedule_restart-IsCovered policy (set_state crashed (lose_process code s)) c

  capture_failed-IsCovered :
      (state : RouterState) (s : Supervisor)
      → IsCovered policy s
      → IsCovered policy (capture_failed state s)
  unfolding capture_failed
  capture_failed-IsCovered ready s c = c
  capture_failed-IsCovered stopping s c = c
  capture_failed-IsCovered stopped s c = c
  capture_failed-IsCovered crashed s c = c
  capture_failed-IsCovered starting s c = c
  capture_failed-IsCovered degraded s c = c

  start-IsCovered :
      (system : System) (launch : RouterLaunch) (s : Supervisor)
      → IsCovered policy (start system launch s)
  unfolding start IsThrottled
  start-IsCovered system launch s =
      begin_with-IsCovered policy (arguments system launch) _
        (record { covers = λ t later. omega arith; throttled = tt })

  Covers-later :
      (clock later : ℕ) (restarts attempts : List ℕ)
      → Covers policy clock restarts attempts
      → Covers policy (clock + later) restarts attempts
  Covers-later clock later restarts attempts c = record {
    covers = λ t h. c.covers t (omega arith);
    throttled = c.throttled;
  }

  handle-IsCovered :
      (system : System) (e : Event) (s : Supervisor)
      → IsCovered policy s
      → IsCovered policy (handle policy system e s)
  unfolding handle timed_out ended_late exited stop
  handle-IsCovered system (time_passes t) s c =
      Covers-later s.clock t s.restarts s.restart_attempts c
  handle-IsCovered system (starts launch) s c = start-IsCovered system launch s
  handle-IsCovered system stops s c = stop_process-IsCovered s.state _ c
  handle-IsCovered system marks_ready s c =
      if-cases (IsCovered policy) (may_enter s.state ready) (λ _. c) (λ _. c)
  handle-IsCovered system marks_degraded s c =
      if-cases (IsCovered policy) (may_enter s.state degraded) (λ _. c) (λ _. c)
  handle-IsCovered system delay_ends s c =
      if-cases (IsCovered policy) (is_at delaying s.restart_task)
        (λ _. delay_over-IsCovered policy system s c) (λ _. c)
  handle-IsCovered system (launcher_returns pid) s c =
      if-cases (IsCovered policy) s.pending (λ _. launched-IsCovered policy pid s c) (λ _. c)
  handle-IsCovered system launcher_fails s c =
      if-cases (IsCovered policy) s.pending (λ _. launch_failed-IsCovered policy s c) (λ _. c)
  handle-IsCovered system probe_succeeds s c =
      if-cases (IsCovered policy) (is_at waiting s.restart_task) (λ _. probed-IsCovered policy s c)
        (λ _. c)
  handle-IsCovered system process_gone s c =
      if-cases (IsCovered policy) (is_at waiting s.restart_task && not (is_some s.process))
        (λ _. restart_turn-IsCovered policy s c) (λ _. c)
  handle-IsCovered system limit_reached s c =
      if-cases (IsCovered policy) (is_at waiting s.restart_task)
        (λ _. stopped_late-IsCovered _ _ (stop_process-IsCovered s.state s c)) (λ _. c)
  handle-IsCovered system hook_returns s c =
      if-cases (IsCovered policy) (is_at in_hook s.restart_task) (λ _. c) (λ _. c)
  handle-IsCovered system process_ends s c =
      if-cases (IsCovered policy) (is_at ending s.restart_task)
        (λ _. restart_turn-IsCovered policy _ (process_ended-IsCovered s.state s c))
        (λ _. stop_ends-IsCovered s.awaited_stops s c)
  handle-IsCovered system (hook_answers raising) s c = c
  handle-IsCovered system (watch_sees pid code) s c =
      if-cases (IsCovered policy) (is_process s.process pid) (λ _. own_exit-IsCovered s.state _ c)
        (λ _. c)
  handle-IsCovered system (watch_breaks code) s c = watch_failed-IsCovered code s.state s c
  handle-IsCovered system capture_breaks s c = capture_failed-IsCovered s.state s c

  run-IsCovered :
      (system : System) (es : List Event) (s : Supervisor)
      → IsCovered policy s
      → IsCovered policy (run policy system es s)
  unfolding run
  run-IsCovered system [] s c = c
  run-IsCovered system (e ∷ es) s c = run-IsCovered system es _ (handle-IsCovered system e s c)

-- Whatever happens to a supervisor from its creation, of the automatic restarts since the last
-- start each is one of at most the policy's attempts in the window that it ends.
pub run-IsThrottled :
    (policy : Policy) (system : System) (es : List Event)
    → IsThrottled policy.window policy.max_attempts (run policy system es new_supervisor).restarts
unfolding IsThrottled
run-IsThrottled policy system es =
    (run-IsCovered policy system es new_supervisor
      (record { covers = λ t later. omega arith; throttled = tt })).throttled
