-- ===== src/Router/Supervisor/Tests.antt =====
-- The supervisor on concrete events.
use llama_web_ui.Prelude.{pos, true, none, some, List, [], ◌∷◌, ◌≡◌, refl, arith}
use llama_web_ui.Router.{
  crashed, RouterLaunch, System, arguments, may_enter, launch_errors, collect, command,
}
use llama_web_ui.Router.Supervisor.{
  Policy, Supervisor, new_supervisor, Event, time_passes, starts, launcher_returns, probe_succeeds,
  delay_ends, hook_returns, watch_sees, marks_ready, handle, run, stop,
}
use llama_web_ui.Router.Supervisor.{
  exited, start, begin_with, launched, own_exit, schedule_restart, restart_turn, prune, delay_over,
  restart_once, launch_begun, probed,
}
use llama_web_ui.Router.Supervisor.Budget.{run-IsThrottled}
use llama_web_ui.Router.Supervisor.Covered.{IsThrottled}
use llama_web_ui.Router.Supervisor.Recovery.{running, recovery, IsReadyAs, run-recovery}
use llama_web_ui.Router.Supervisor.Stopped.{run-stop}
use llama_web_ui.Router.Supervisor.Quiet.{IsQuiet}

abbrev system : System
system = record {
  resolve = λ path. path;
  is_file = λ path. true;
  is_loopback = λ host. some true;
  show = λ port. "1234";
}

abbrev launch : RouterLaunch
launch = record {
  executable = "llama-server";
  preset_path = "models.ini";
  host = "127.0.0.1";
  port = 1234;
  api_key_file = none;
}

abbrev policy : Policy
policy = record { max_attempts = 2; window = 60; has_hooks = true }

-- A router that is started, gets ready, crashes and is restarted.
abbrev crash : List Event
crash =
    starts launch
    ∷ launcher_returns 1
    ∷ marks_ready
    ∷ time_passes 5
    ∷ watch_sees 1 (pos 1)
    ∷ delay_ends
    ∷ launcher_returns 2
    ∷ probe_succeeds
    ∷ []

run-IsThrottled_example : IsThrottled 60 2 (run policy system crash new_supervisor).restarts
run-IsThrottled_example = run-IsThrottled policy system crash

restarted : (run policy system crash new_supervisor).restarts ≡ 5 ∷ []
unfolding run handle exited start begin_with launched own_exit schedule_restart restart_turn prune
    delay_over restart_once launch_begun probed may_enter arguments launch_errors collect command
restarted = refl

run-stop_example : IsQuiet (run policy system crash new_supervisor).restarts (
    run policy system
      (hook_returns ∷ watch_sees 2 (pos 0) ∷ [])
      (stop (run policy system crash new_supervisor)))
run-stop_example =
    run-stop policy system (hook_returns ∷ watch_sees 2 (pos 0) ∷ [])
      (run policy system crash new_supervisor) refl

run-recovery_example :
    IsReadyAs 7
      (run policy system (watch_sees 1 (pos 1) ∷ recovery 1 7) (running launch 1 new_supervisor))
unfolding arguments launch_errors collect
run-recovery_example =
    run-recovery policy system launch 1 1 7 (pos 1) new_supervisor refl (omega arith)

abbrev crashed_in_hook : Supervisor
crashed_in_hook =
    run policy system (watch_sees 2 (pos 1) ∷ hook_returns ∷ [])
      (run policy system crash new_supervisor)

-- A crash while the profiler is told that a restart succeeded is followed by no further restart.
crash_in_hook :
    (crashed_in_hook.state ≡ crashed)
    × ((crashed_in_hook.restart_enabled ≡ true) × (crashed_in_hook.restart_task ≡ none))
unfolding run handle exited start begin_with launched own_exit schedule_restart restart_turn prune
    delay_over restart_once launch_begun probed may_enter arguments launch_errors collect command
crash_in_hook = (refl, (refl, refl))
