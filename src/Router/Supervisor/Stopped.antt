-- ===== src/Router/Supervisor/Stopped.antt =====
-- A supervisor after `stop`.
use llama_web_ui.Prelude.{
  zero, suc, ℕ, ℤ, true, false, Option, none, List, [], ◌∷◌, ◌≡◌, refl, subst, sym, ap, not, ◌&&◌,
  is_some, if◌then◌else◌, arith, if-cases, all,
}
use llama_web_ui.Router.{
  RouterState, stopped, starting, ready, degraded, stopping, crashed, may_enter, System,
}
use llama_web_ui.Router.Supervisor.{
  Policy, Supervisor, delaying, waiting, in_hook, ending, set_state, restart_turn, schedule_restart,
  Stopping, stop_running, stop_process, stop, stop_ends, hook_answers, process_ended, own_exit,
  exited, is_process, watch_failed, capture_failed, Event, time_passes, starts, stops, marks_ready,
  marks_degraded, delay_ends, launcher_fails, launcher_returns, probe_succeeds, process_gone,
  limit_reached, hook_returns, process_ends, watch_sees, watch_breaks, capture_breaks, handle, run,
}
use llama_web_ui.Router.Supervisor.Quiet.{
  IsQuiet, IsQuiet-else, is_at-none, is_start, is_starting, launch_failed-IsQuiet, launched-IsQuiet,
  lose_process-IsQuiet, mark-IsQuiet, schedule_restart-IsQuiet, set_state-IsQuiet,
}

module _ (restarts : List ℕ) where
  stop_running-IsQuiet :
      (s : Supervisor)
      → (may_enter s.state stopping ≡ false → is_starting s.state ≡ false)
      → s.restart_enabled ≡ false
      → s.restart_task ≡ none
      → s.restarts ≡ restarts
      → IsQuiet restarts (stop_running s).0
  unfolding stop_running
  stop_running-IsQuiet s left disabled idle unchanged =
      if-cases (λ (r : Supervisor × Stopping). IsQuiet restarts r.0) (may_enter s.state stopping)
        (λ _.
          if-cases (λ (r : Supervisor × Stopping). IsQuiet restarts r.0) (is_some s.process)
            (λ _. record {
              disabled = disabled;
              idle = idle;
              unchanged = unchanged;
              not_starting = refl;
            })
            (λ _. record {
              disabled = disabled;
              idle = idle;
              unchanged = unchanged;
              not_starting = refl;
            }))
        (λ stays. record {
          disabled = disabled;
          idle = idle;
          unchanged = unchanged;
          not_starting = left stays;
        })

  may_stop : (state : RouterState) → may_enter state stopping ≡ false → is_starting state ≡ false
  unfolding may_enter
  may_stop starting h = cc
  may_stop stopped h = refl
  may_stop ready h = refl
  may_stop degraded h = refl
  may_stop stopping h = refl
  may_stop crashed h = refl

  -- A supervisor whose restarts are over, whatever its state.
  stop_process-IsQuiet :
      (state : RouterState) (s : Supervisor)
      → state ≡ s.state
      → s.restart_enabled ≡ false
      → s.restart_task ≡ none
      → s.restarts ≡ restarts
      → IsQuiet restarts (stop_process state s).0
  unfolding stop_process
  stop_process-IsQuiet stopped s e disabled idle unchanged = record {
    disabled = disabled;
    idle = idle;
    unchanged = unchanged;
    not_starting = sym (ap is_starting e);
  }
  stop_process-IsQuiet crashed s e disabled idle unchanged = record {
    disabled = disabled;
    idle = idle;
    unchanged = unchanged;
    not_starting = refl;
  }
  stop_process-IsQuiet starting s e disabled idle unchanged =
      stop_running-IsQuiet s (may_stop s.state) disabled idle unchanged
  stop_process-IsQuiet ready s e disabled idle unchanged =
      stop_running-IsQuiet s (may_stop s.state) disabled idle unchanged
  stop_process-IsQuiet degraded s e disabled idle unchanged =
      stop_running-IsQuiet s (may_stop s.state) disabled idle unchanged
  stop_process-IsQuiet stopping s e disabled idle unchanged =
      stop_running-IsQuiet s (may_stop s.state) disabled idle unchanged

  process_less-IsQuiet :
      (s : Supervisor) → IsQuiet restarts s → IsQuiet restarts (record s { process = none })
  process_less-IsQuiet s q = record {
    disabled = q.disabled;
    idle = q.idle;
    unchanged = q.unchanged;
    not_starting = q.not_starting;
  }

  process_ended-IsQuiet :
      (state : RouterState) (s : Supervisor)
      → IsQuiet restarts s
      → IsQuiet restarts (process_ended state s)
  unfolding process_ended
  process_ended-IsQuiet stopping s q = record {
    disabled = q.disabled;
    idle = q.idle;
    unchanged = q.unchanged;
    not_starting = refl;
  }
  process_ended-IsQuiet stopped s q = process_less-IsQuiet s q
  process_ended-IsQuiet crashed s q = process_less-IsQuiet s q
  process_ended-IsQuiet starting s q = process_less-IsQuiet s q
  process_ended-IsQuiet ready s q = process_less-IsQuiet s q
  process_ended-IsQuiet degraded s q = process_less-IsQuiet s q

  stop_ends-IsQuiet :
      (n : ℕ) (s : Supervisor) → IsQuiet restarts s → IsQuiet restarts (stop_ends n s)
  unfolding stop_ends
  stop_ends-IsQuiet zero s q = q
  stop_ends-IsQuiet (suc n) s q = process_ended-IsQuiet s.state _ (record {
    disabled = q.disabled;
    idle = q.idle;
    unchanged = q.unchanged;
    not_starting = q.not_starting;
  })

  counted-IsQuiet :
      (n : ℕ) (s : Supervisor)
      → IsQuiet restarts s
      → IsQuiet restarts (record s { awaited_stops = n })
  counted-IsQuiet n s q = record {
    disabled = q.disabled;
    idle = q.idle;
    unchanged = q.unchanged;
    not_starting = q.not_starting;
  }

  crash-IsQuiet :
      (policy : Policy) (s : Supervisor)
      → IsQuiet restarts s
      → IsQuiet restarts (schedule_restart policy (record (set_state crashed s) { process = none }))
  crash-IsQuiet policy s q = schedule_restart-IsQuiet restarts policy _ (record {
    disabled = q.disabled;
    idle = q.idle;
    unchanged = q.unchanged;
    not_starting = refl;
  })

  own_exit-IsQuiet :
      (policy : Policy) (state : RouterState) (s : Supervisor)
      → IsQuiet restarts s
      → IsQuiet restarts (own_exit policy state s)
  unfolding own_exit
  own_exit-IsQuiet policy stopping s q = set_state-IsQuiet restarts stopped s refl q
  own_exit-IsQuiet policy stopped s q = q
  own_exit-IsQuiet policy crashed s q = crash-IsQuiet policy s q
  own_exit-IsQuiet policy starting s q = crash-IsQuiet policy s q
  own_exit-IsQuiet policy ready s q = crash-IsQuiet policy s q
  own_exit-IsQuiet policy degraded s q = crash-IsQuiet policy s q

  watch_failed-IsQuiet :
      (policy : Policy) (code : Option ℤ) (state : RouterState) (s : Supervisor)
      → IsQuiet restarts s
      → IsQuiet restarts (watch_failed policy code state s)
  unfolding watch_failed
  watch_failed-IsQuiet policy code stopped s q = q
  watch_failed-IsQuiet policy code stopping s q = q
  watch_failed-IsQuiet policy code crashed s q =
      schedule_restart-IsQuiet restarts policy _ (lose_process-IsQuiet restarts code s q)
  watch_failed-IsQuiet policy code starting s q =
      schedule_restart-IsQuiet restarts policy _
        (set_state-IsQuiet restarts crashed _ refl (lose_process-IsQuiet restarts code s q))
  watch_failed-IsQuiet policy code ready s q =
      schedule_restart-IsQuiet restarts policy _
        (set_state-IsQuiet restarts crashed _ refl (lose_process-IsQuiet restarts code s q))
  watch_failed-IsQuiet policy code degraded s q =
      schedule_restart-IsQuiet restarts policy _
        (set_state-IsQuiet restarts crashed _ refl (lose_process-IsQuiet restarts code s q))

  capture_failed-IsQuiet :
      (state : RouterState) (s : Supervisor)
      → IsQuiet restarts s
      → IsQuiet restarts (capture_failed state s)
  unfolding capture_failed
  capture_failed-IsQuiet ready s q = set_state-IsQuiet restarts degraded s refl q
  capture_failed-IsQuiet stopping s q = q
  capture_failed-IsQuiet stopped s q = q
  capture_failed-IsQuiet crashed s q = q
  capture_failed-IsQuiet starting s q = q
  capture_failed-IsQuiet degraded s q = q

  handle-IsQuiet :
      (policy : Policy) (system : System) (e : Event) (s : Supervisor)
      → is_start e ≡ false
      → IsQuiet restarts s
      → IsQuiet restarts (handle policy system e s)
  unfolding handle exited stop
  handle-IsQuiet policy system (time_passes t) s other q = record {
    disabled = q.disabled;
    idle = q.idle;
    unchanged = q.unchanged;
    not_starting = q.not_starting;
  }
  handle-IsQuiet policy system (starts launch) s other q = cc
  handle-IsQuiet policy system stops s other q =
      counted-IsQuiet _ _ (stop_process-IsQuiet s.state _ refl refl refl q.unchanged)
  handle-IsQuiet policy system marks_ready s other q = mark-IsQuiet restarts ready s refl q
  handle-IsQuiet policy system marks_degraded s other q = mark-IsQuiet restarts degraded s refl q
  handle-IsQuiet policy system delay_ends s other q = IsQuiet-else restarts delaying s _ _ q q
  handle-IsQuiet policy system (launcher_returns pid) s other q =
      if-cases (IsQuiet restarts) s.pending (λ _. launched-IsQuiet restarts pid s q) (λ _. q)
  handle-IsQuiet policy system launcher_fails s other q =
      if-cases (IsQuiet restarts) s.pending (λ _. launch_failed-IsQuiet restarts policy s q)
        (λ _. q)
  handle-IsQuiet policy system probe_succeeds s other q = IsQuiet-else restarts waiting s _ _ q q
  handle-IsQuiet policy system process_gone s other q =
      subst
        (λ b. IsQuiet restarts (if b && not (is_some s.process) then restart_turn policy s else s))
        (sym (is_at-none waiting s.restart_task q.idle)) q
  handle-IsQuiet policy system limit_reached s other q = IsQuiet-else restarts waiting s _ _ q q
  handle-IsQuiet policy system hook_returns s other q = IsQuiet-else restarts in_hook s _ _ q q
  handle-IsQuiet policy system process_ends s other q =
      IsQuiet-else restarts ending s _ _ q (stop_ends-IsQuiet s.awaited_stops s q)
  handle-IsQuiet policy system (hook_answers raising) s other q = record {
    disabled = q.disabled;
    idle = q.idle;
    unchanged = q.unchanged;
    not_starting = q.not_starting;
  }
  handle-IsQuiet policy system (watch_sees pid code) s other q =
      if-cases (IsQuiet restarts) (is_process s.process pid)
        (λ _. own_exit-IsQuiet policy s.state _ (record {
          disabled = q.disabled;
          idle = q.idle;
          unchanged = q.unchanged;
          not_starting = q.not_starting;
        }))
        (λ _. q)
  handle-IsQuiet policy system (watch_breaks code) s other q =
      watch_failed-IsQuiet policy code s.state s q
  handle-IsQuiet policy system capture_breaks s other q = capture_failed-IsQuiet s.state s q

  run-IsQuiet :
      (policy : Policy) (system : System) (es : List Event) (s : Supervisor)
      → all (λ e. not (is_start e)) es ≡ true
      → IsQuiet restarts s
      → IsQuiet restarts (run policy system es s)
  unfolding run
  run-IsQuiet policy system [] s none_starts q = q
  run-IsQuiet policy system (e ∷ es) s none_starts q =
      run-IsQuiet policy system es _ (ground arith)
        (handle-IsQuiet policy system e s (ground arith) q)

-- After a stop no restart begins and the router does not enter STARTING, whatever happens short of
-- a start.
pub run-stop :
    (policy : Policy) (system : System) (es : List Event) (s : Supervisor)
    → all (λ e. not (is_start e)) es ≡ true
    → IsQuiet s.restarts (run policy system es (stop s))
unfolding stop
run-stop policy system es s none_starts =
    run-IsQuiet s.restarts policy system es _ none_starts (
      counted-IsQuiet s.restarts _ _
        (stop_process-IsQuiet s.restarts s.state _ refl refl refl refl))
