-- ===== src/Router/Supervisor.antt =====
-- services/router_supervisor.py: the router process, its states and its automatic restarts. Each
-- function is what runs between two awaits; `handle` is the event that resumes it.
mod State
pub mod Covered
pub mod Budget
pub mod Recovery
pub mod Quiet
pub mod Stopped
pub mod Log
mod Tests
unfoldable pub use State.*
use llama_web_ui.Prelude.{
  zero, suc, ℕ, ◌+◌, ℤ, String, Bool, true, false, Option, none, some, List, [], ◌∷◌, ◌++◌, ◌&&◌,
  ◌||◌, not, ltb, leb, ◌==◌, length, is_some, if◌then◌else◌,
}
use llama_web_ui.Router.{
  RouterState, stopped, starting, ready, degraded, stopping, crashed, may_enter, RouterLaunch,
  System, Arguments, accepted, rejected, arguments,
}

-- The inner loop of `_restart_loop`.
unfoldable pub prune : ℕ → ℕ → List ℕ → List ℕ
prune window now [] = []
prune window now (t ∷ ts) =
    let rest = prune window now ts in if ltb (t + window) now then rest else t ∷ ts

abbrev pub is_down : RouterState → Bool
is_down crashed = true
is_down stopped = true
is_down _ = false

-- The top of the loop of `_restart_loop`, up to its delay.
unfoldable pub restart_turn : Policy → Supervisor → Supervisor
restart_turn policy s =
    let attempts = prune policy.window s.clock s.restart_attempts in
    if not (s.restart_enabled && is_down s.state)
    then record s { restart_task = none }
    else if leb policy.max_attempts (length attempts)
    then record s { restart_attempts = attempts; restart_task = none }
    else record s {
      restart_attempts = attempts ++ (s.clock ∷ []);
      restart_task = some delaying;
      restarts = s.clock ∷ s.restarts;
    }

-- `_schedule_restart`; the task starts at once.
unfoldable pub schedule_restart : Policy → Supervisor → Supervisor
schedule_restart policy s =
    if policy.max_attempts == 0 || (not s.restart_enabled || is_some s.restart_task)
    then s
    else restart_turn policy s

-- `_restart_loop` behind `_start_once` up to the launcher: an error begins the next turn.
unfoldable pub launch_begun : Policy → Supervisor × Bool → Supervisor
launch_begun policy (s, failed) =
    if failed then restart_turn policy s else record s { restart_task = some launching }

unfoldable pub restart_once : Policy → System → Option RouterLaunch → Supervisor → Supervisor
restart_once policy system none s = record s { restart_task = none }
restart_once policy system (some launch) s = launch_begun policy (begin_start system launch s)

-- `_restart_loop` behind its delay.
unfoldable pub delay_over : Policy → System → Supervisor → Supervisor
delay_over policy system s =
    if not s.restart_enabled
    then record s { restart_task = none }
    else restart_once policy system s.launch s

-- `_start_once` behind the launcher: with a process, or with an error that the restart loop catches.
unfoldable pub launched : ℕ → Supervisor → Supervisor
launched pid s =
    let s' : Supervisor = set_state s.state (record s { process = some pid; pending = false }) in
    if is_at launching s.restart_task then record s' { restart_task = some waiting } else s'

unfoldable pub launch_failed : Policy → Supervisor → Supervisor
launch_failed policy s =
    let s' : Supervisor = set_state crashed (record s { pending = false }) in
    if is_at launching s.restart_task then restart_turn policy s' else s'

-- `wait_until_ready` of `_restart_loop`, when the probe succeeds.
unfoldable pub probed : Policy → Supervisor → Supervisor
probed policy s =
    if may_enter s.state ready
    then record (set_state ready s) {
      restart_task = if policy.has_hooks then some in_hook else none;
    }
    else restart_turn policy s

-- How `_stop_process` goes on: it has returned, awaits the end of the process, or has raised.
pub data Stopping : Type 0 where
  finished awaiting raised : Stopping

-- The rest of `_stop_process` up to its first await, where a process is to be stopped.
unfoldable pub stop_running : Supervisor → Supervisor × Stopping
stop_running s =
    if may_enter s.state stopping
    then (if is_some s.process
        then (set_state stopping s, awaiting)
        else (set_state crashed (set_state stopping s), raised))
    else (s, raised)

-- `_stop_process` up to its first await, by the state.
unfoldable pub stop_process : RouterState → Supervisor → Supervisor × Stopping
stop_process stopped s = (s, finished)
stop_process crashed s = (record s { state = stopped }, finished)
stop_process _ s = stop_running s

abbrev pub awaits : Stopping → ℕ
awaits finished = 0
awaits awaiting = 1
awaits raised = 0

-- `stop`.
unfoldable pub stop : Supervisor → Supervisor
stop s =
    let (s', how) = stop_process s.state (record (cancel_restart s) { restart_enabled = false }) in
    record s' { awaited_stops = s'.awaited_stops + awaits how }

-- `_stop_process` behind the end of the process, by the state, which `_watch` or another call may have
-- changed before.
unfoldable pub process_ended : RouterState → Supervisor → Supervisor
process_ended stopping s = record (set_state stopped s) { process = none }
process_ended _ s = record s { process = none }

-- The end of the process, for a call of `stop` that awaits it.
unfoldable pub stop_ends : ℕ → Supervisor → Supervisor
stop_ends zero s = s
stop_ends (suc n) s = process_ended s.state (record s { awaited_stops = n })

-- `wait_until_ready` of `_restart_loop` behind its call of `_stop_process`.
unfoldable pub stopped_late : Policy → Stopping → Supervisor → Supervisor
stopped_late policy finished s = restart_turn policy (set_state crashed s)
stopped_late policy awaiting s = record s { restart_task = some ending }
stopped_late policy raised s = restart_turn policy s

-- `wait_until_ready` of `_restart_loop` at its time limit, and behind the end of the process.
unfoldable pub timed_out : Policy → Supervisor → Supervisor
timed_out policy s = let (s', how) = stop_process s.state s in stopped_late policy how s'

unfoldable pub ended_late : Policy → Supervisor → Supervisor
ended_late policy s = restart_turn policy (set_state crashed (process_ended s.state s))

abbrev pub is_process : Option ℕ → ℕ → Bool
is_process none pid = false
is_process (some p) pid = p == pid

-- `_watch`, when its process ends, by the state.
unfoldable pub own_exit : Policy → RouterState → Supervisor → Supervisor
own_exit policy stopping s = set_state stopped s
own_exit policy stopped s = s
own_exit policy _ s = schedule_restart policy (record (set_state crashed s) { process = none })

unfoldable pub exited : Policy → ℕ → ℤ → Supervisor → Supervisor
exited policy pid code s =
    if is_process s.process pid
    then own_exit policy s.state (record s { last_exit_code = some code })
    else s

-- `_background_task_done`, on an error of `_watch`, with the process's exit code, if it has one, and
-- on an error of `_capture_logs`.
abbrev pub lose_process : Option ℤ → Supervisor → Supervisor
lose_process code s = record s {
  last_exit_code = if is_some s.process then code else none;
  process = none;
}

unfoldable pub watch_failed : Policy → Option ℤ → RouterState → Supervisor → Supervisor
watch_failed policy code stopped s = s
watch_failed policy code stopping s = s
watch_failed policy code crashed s = schedule_restart policy (lose_process code s)
watch_failed policy code _ s = schedule_restart policy (set_state crashed (lose_process code s))

unfoldable pub capture_failed : RouterState → Supervisor → Supervisor
capture_failed ready s = set_state degraded s
capture_failed _ s = s

-- What happens next (`hook_answers` sets whether the profiler's `launch_arguments` will fail): time
-- passes, a call from outside, the end of an await, or of the process.
pub data Event : Type 0 where
  time_passes : ℕ → Event
  starts : RouterLaunch → Event
  stops marks_ready marks_degraded delay_ends launcher_fails : Event
  launcher_returns : ℕ → Event
  probe_succeeds process_gone limit_reached hook_returns process_ends : Event
  hook_answers : Bool → Event
  watch_sees : ℕ → ℤ → Event
  watch_breaks : Option ℤ → Event
  capture_breaks : Event

-- One event; one that the state does not await changes nothing.
unfoldable pub handle : Policy → System → Event → Supervisor → Supervisor
handle policy system (time_passes t) s = record s { clock = s.clock + t }
handle policy system (starts launch) s = start system launch s
handle policy system stops s = stop s
handle policy system marks_ready s = mark ready s
handle policy system marks_degraded s = mark degraded s
handle policy system delay_ends s =
    if is_at delaying s.restart_task then delay_over policy system s else s
handle policy system (launcher_returns pid) s = if s.pending then launched pid s else s
handle policy system launcher_fails s = if s.pending then launch_failed policy s else s
handle policy system probe_succeeds s = if is_at waiting s.restart_task then probed policy s else s
handle policy system process_gone s =
    if is_at waiting s.restart_task && not (is_some s.process) then restart_turn policy s else s
handle policy system limit_reached s =
    if is_at waiting s.restart_task then timed_out policy s else s
handle policy system hook_returns s =
    if is_at in_hook s.restart_task then record s { restart_task = none } else s
handle policy system process_ends s =
    if is_at ending s.restart_task then ended_late policy s else stop_ends s.awaited_stops s
handle policy system (hook_answers raising) s = record s { hook_raises = raising }
handle policy system (watch_sees pid code) s = exited policy pid code s
handle policy system (watch_breaks code) s = watch_failed policy code s.state s
handle policy system capture_breaks s = capture_failed s.state s

unfoldable pub run : Policy → System → List Event → Supervisor → Supervisor
run policy system [] s = s
run policy system (e ∷ es) s = run policy system es (handle policy system e s)
