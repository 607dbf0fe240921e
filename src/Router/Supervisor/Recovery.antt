-- ===== src/Router/Supervisor/Recovery.antt =====
-- The automatic restarts of a router that has crashed.
use llama_web_ui.Prelude.{
  ℤ, ◌==◌, ℕ, zero, suc, ◌+◌, ◌≤◌, String, true, false, none, some, List, [], ◌∷◌, ◌++◌, ◌≡◌, refl,
  subst, sym, ap, ◌∙◌, leb, length, arith,
}
use llama_web_ui.Router.{
  starting, ready, crashed, may_enter, RouterLaunch, System, accepted, arguments,
}
use llama_web_ui.Router.Supervisor.{
  exited, own_exit, schedule_restart, watch_sees, Policy, Supervisor, delaying, launching,
  begin_with, launch_begun, prune, restart_turn, restart_once, delay_over, launched, launch_failed,
  probed, Event, delay_ends, launcher_fails, launcher_returns, probe_succeeds, handle, run,
}

-- A supervisor whose router has crashed, and which waits for the delay of a restart.
abbrev pub about_to_restart : RouterLaunch → Supervisor → Supervisor
about_to_restart launch s = record s {
  state = crashed;
  restart_task = some delaying;
  restart_enabled = true;
  launch = some launch;
  hook_raises = false;
}

-- Some failing launches, and one whose process gets ready.
abbrev pub recovery : ℕ → ℕ → List Event
recovery zero pid = delay_ends ∷ launcher_returns pid ∷ probe_succeeds ∷ []
recovery (suc n) pid = delay_ends ∷ launcher_fails ∷ recovery n pid

-- The launcher is awaited by a restart.
abbrev restarting : RouterLaunch → List String → Supervisor → Supervisor
restarting launch given s = record s {
  state = starting;
  restart_task = some launching;
  restart_enabled = true;
  launch = some launch;
  hook_raises = false;
  launch_arguments = given;
  last_exit_code = none;
  pending = true;
  notices = starting ∷ s.notices;
}

length-prune : (window now : ℕ) (ts : List ℕ) → length (prune window now ts) ≤ length ts
unfolding prune
length-prune window now [] = omega arith
length-prune window now (t ∷ ts) = ground (arith, length-prune window now ts)

length-snoc : (ts : List ℕ) (t : ℕ) → length (ts ++ (t ∷ [])) ≡ length ts + 1
length-snoc [] t = omega arith
length-snoc (x ∷ ts) t = omega (arith, length-snoc ts t)

module _ (policy : Policy) (system : System) (launch : RouterLaunch) (given : List String) where
  module _ (good : arguments system launch ≡ accepted given) where
    handle-delay_ends :
        (s : Supervisor)
        → handle policy system delay_ends (about_to_restart launch s) ≡ restarting launch given s
    unfolding handle delay_over restart_once launch_begun begin_with may_enter
    handle-delay_ends s =
        ap (λ r. launch_begun policy (begin_with r (about_to_restart launch s))) good

  abbrev after_failure : Supervisor → Supervisor
  after_failure s = record s {
    launch_arguments = given;
    last_exit_code = none;
    pending = false;
    notices = crashed ∷ starting ∷ s.notices;
    restart_attempts = prune policy.window s.clock s.restart_attempts ++ (s.clock ∷ []);
    restarts = s.clock ∷ s.restarts;
  }

  handle-launcher_fails :
      (s : Supervisor)
      → leb policy.max_attempts (length (prune policy.window s.clock s.restart_attempts)) ≡ false
      → handle policy system launcher_fails (restarting launch given s)
        ≡ about_to_restart launch (after_failure s)
  unfolding handle launch_failed restart_turn
  handle-launcher_fails s left = rw left refl

abbrev pub IsReadyAs : ℕ → Supervisor → Type 0
IsReadyAs pid s = (s.state ≡ ready) × (s.process ≡ some pid)

run-restarts :
    (policy : Policy) (system : System) (launch : RouterLaunch) (n pid : ℕ) (s : Supervisor)
    {given : List String}
    → arguments system launch ≡ accepted given
    → length s.restart_attempts + n ≤ policy.max_attempts
    → IsReadyAs pid (run policy system (recovery n pid) (about_to_restart launch s))
unfolding run handle launched probed may_enter
run-restarts policy system launch zero pid s {given = given} good left =
    rw (handle-delay_ends policy system launch given good s) (refl, refl)
run-restarts policy system launch (suc n) pid s {given = given} good left =
    let kept = prune policy.window s.clock s.restart_attempts in
    let fewer = length-prune policy.window s.clock s.restart_attempts in
    subst (λ x. IsReadyAs pid (run policy system (recovery n pid) x))
      (sym (
        ap (handle policy system launcher_fails)
          (handle-delay_ends policy system launch given good s)
        ∙ handle-launcher_fails policy system launch given s (ground (arith, fewer))))
      (run-restarts policy system launch n pid (after_failure policy system launch given s) good
        (omega (arith, length-snoc kept s.clock, fewer)))

-- A supervisor whose router is ready as the given process, with no restart under way.
abbrev pub running : RouterLaunch → ℕ → Supervisor → Supervisor
running launch p s = record s {
  state = ready;
  process = some p;
  restart_task = none;
  restart_enabled = true;
  launch = some launch;
  hook_raises = false;
}

abbrev after_crash : Policy → ℤ → Supervisor → Supervisor
after_crash policy code s = record s {
  process = none;
  last_exit_code = some code;
  notices = crashed ∷ s.notices;
  restart_attempts = prune policy.window s.clock s.restart_attempts ++ (s.clock ∷ []);
  restarts = s.clock ∷ s.restarts;
}

same_number : (n : ℕ) → (n == n) ≡ true
same_number n = ground arith

handle-watch_sees :
    (policy : Policy) (system : System) (launch : RouterLaunch) (p : ℕ) (code : ℤ) (s : Supervisor)
    → (policy.max_attempts == 0) ≡ false
    → leb policy.max_attempts (length (prune policy.window s.clock s.restart_attempts)) ≡ false
    → handle policy system (watch_sees p code) (running launch p s)
      ≡ about_to_restart launch (after_crash policy code s)
unfolding handle exited own_exit schedule_restart restart_turn
handle-watch_sees policy system launch p code s some_left left =
    rw (same_number p, some_left, left) refl

-- A ready router with automatic restarts, none of them under way, and a valid launch, whose process
-- ends by itself, is ready again, with a new process, after any number of failing launches that the
-- policy has attempts left for, if the next launch succeeds and the profiler's hook never fails.
pub run-recovery :
    (policy : Policy) (system : System) (launch : RouterLaunch) (p n pid : ℕ) (code : ℤ)
    (s : Supervisor) {given : List String}
    → arguments system launch ≡ accepted given
    → length s.restart_attempts + n + 1 ≤ policy.max_attempts
    → IsReadyAs pid (run policy system (watch_sees p code ∷ recovery n pid) (running launch p s))
unfolding run
run-recovery policy system launch p n pid code s good left =
    let kept = prune policy.window s.clock s.restart_attempts in
    let fewer = length-prune policy.window s.clock s.restart_attempts in
    subst (λ x. IsReadyAs pid (run policy system (recovery n pid) x))
      (sym (handle-watch_sees policy system launch p code s (ground arith) (ground (arith, fewer))))
      (run-restarts policy system launch n pid (after_crash policy code s) good
        (omega (arith, length-snoc kept s.clock, fewer)))
