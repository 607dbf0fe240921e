-- ===== src/Router/Supervisor/State.antt =====
-- The state of the router's supervisor, its start, and what a stop cancels
-- (services/router_supervisor.py).
use llama_web_ui.Prelude.{
  ℕ, ℤ, String, Bool, true, false, Option, none, some, List, [], ◌∷◌, ◌&&◌, ◌||◌, not,
  if◌then◌else◌,
}
use llama_web_ui.Router.{
  RouterState, stopped, starting, may_enter, RouterLaunch, System, Arguments, accepted, rejected,
  arguments,
}

-- `RouterRestartPolicy`, in microseconds; no policy is one without attempts. `has_hooks` says that
-- a profiler is attached.
pub record Policy : Type 0 where
  pub max_attempts : ℕ
  pub window : ℕ
  pub has_hooks : Bool

-- Where `_restart_loop` awaits: its delay, the launcher, the readiness of the router, the
-- profiler's `router_ready`, or the end of a process that was not ready in time.
pub data Point : Type 0 where
  delaying launching waiting in_hook ending : Point

-- The fields of `RouterSupervisor`. `pending` says that a launcher is awaited, `clock` is
-- `monotonic()`, `notices` the states that the observer was told, latest first, and `restarts` the
-- times of the automatic restarts since the last `start`, latest first. `awaited_stops` counts the
-- calls of `stop` that await the end of a process, and `hook_raises` says that the profiler's
-- `launch_arguments` fails.
pub record Supervisor : Type 0 where
  pub state : RouterState
  pub process : Option ℕ
  pub last_exit_code : Option ℤ
  pub restart_attempts : List ℕ
  pub restart_task : Option Point
  pub restart_enabled : Bool
  pub launch : Option RouterLaunch
  pub launch_arguments : List String
  pub pending : Bool
  pub clock : ℕ
  pub notices : List RouterState
  pub restarts : List ℕ
  pub awaited_stops : ℕ
  pub hook_raises : Bool

abbrev pub new_supervisor : Supervisor
new_supervisor = record {
  state = stopped;
  process = none;
  last_exit_code = none;
  restart_attempts = [];
  restart_task = none;
  restart_enabled = false;
  launch = none;
  launch_arguments = [];
  pending = false;
  clock = 0;
  notices = [];
  restarts = [];
  awaited_stops = 0;
  hook_raises = false;
}

-- `_set_state`.
abbrev pub set_state : RouterState → Supervisor → Supervisor
set_state state s = record s { state = state; notices = state ∷ s.notices }

-- `mark_ready` and `mark_degraded`, which raise and change nothing where the table forbids it.
abbrev pub mark : RouterState → Supervisor → Supervisor
mark target s = if may_enter s.state target then set_state target s else s

-- `_start_once` up to the launcher, and whether it raised; a hook that raises leaves STARTING.
unfoldable pub begin_with : Arguments → Supervisor → Supervisor × Bool
begin_with (rejected e es) s = (s, true)
begin_with (accepted given) s =
    if may_enter s.state starting
    then (
      record (set_state starting s) {
        launch_arguments = given;
        last_exit_code = none;
        pending = not s.hook_raises || s.pending;
      },
      s.hook_raises,
    )
    else (record s { launch_arguments = given }, true)

abbrev pub begin_start : System → RouterLaunch → Supervisor → Supervisor × Bool
begin_start system launch s = begin_with (arguments system launch) s

abbrev pub is_at : Point → Option Point → Bool
is_at delaying (some delaying) = true
is_at launching (some launching) = true
is_at waiting (some waiting) = true
is_at in_hook (some in_hook) = true
is_at ending (some ending) = true
is_at _ _ = false

-- `_cancel_restart`, which ends the task's await of a launcher too.
abbrev pub cancel_restart : Supervisor → Supervisor
cancel_restart s = record s {
  restart_task = none;
  pending = s.pending && not (is_at launching s.restart_task);
}

-- `start`.
unfoldable pub start : System → RouterLaunch → Supervisor → Supervisor
start system launch s =
    (begin_start system launch (record (cancel_restart s) {
      restart_attempts = [];
      restart_enabled = true;
      launch = some launch;
      restarts = [];
    })).0
