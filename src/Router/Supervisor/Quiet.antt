-- ===== src/Router/Supervisor/Quiet.antt =====
-- A supervisor that stays quiet: automatic restarts are off, no restart is under way, and the router
-- does not start (services/router_supervisor.py).
use llama_web_ui.Prelude.{
  ℕ, ℤ, Bool, true, false, Option, none, List, ◌≡◌, refl, ap, ◌∙◌, not, ◌==◌, ◌||◌, is_some,
  if◌then◌else◌, arith, if-cases,
}
use llama_web_ui.Router.{RouterState, starting, may_enter}
use llama_web_ui.Router.Supervisor.{
  Policy, Supervisor, Point, delaying, launching, waiting, in_hook, ending, set_state, mark,
  schedule_restart, is_at, launched, launch_failed, lose_process, Event, starts,
}

abbrev pub is_starting : RouterState → Bool
is_starting starting = true
is_starting _ = false

abbrev pub is_start : Event → Bool
is_start (starts launch) = true
is_start _ = false

-- No restart is under way or to come, the router is not starting, and these were the restarts.
pub record IsQuiet (restarts : List ℕ) (s : Supervisor) : Type 0 where
  pub disabled : s.restart_enabled ≡ false
  pub idle : s.restart_task ≡ none
  pub unchanged : s.restarts ≡ restarts
  pub not_starting : is_starting s.state ≡ false

pub is_at-none : (p : Point) (task : Option Point) → task ≡ none → is_at p task ≡ false
is_at-none p task h = ap (is_at p) h ∙ at_none p
  where
    at_none : (p : Point) → is_at p none ≡ false
    at_none delaying = refl
    at_none launching = refl
    at_none waiting = refl
    at_none in_hook = refl
    at_none ending = refl

not_blocked : (b c enabled : Bool) → enabled ≡ false → (b || (not enabled || c)) ≡ false → ⊥
not_blocked b c enabled off h = ground arith

module _ (restarts : List ℕ) where
  -- An event that only the restart task awaits.
  pub IsQuiet-else :
      (p : Point) (s x y : Supervisor)
      → IsQuiet restarts s
      → IsQuiet restarts y
      → IsQuiet restarts (if is_at p s.restart_task then x else y)
  IsQuiet-else p s x y q r =
      if-cases (IsQuiet restarts) (is_at p s.restart_task)
        (λ there. cc (is_at-none p s.restart_task q.idle)) (λ _. r)

  pub schedule_restart-IsQuiet :
      (policy : Policy) (s : Supervisor)
      → IsQuiet restarts s
      → IsQuiet restarts (schedule_restart policy s)
  unfolding schedule_restart
  schedule_restart-IsQuiet policy s q =
      if-cases (IsQuiet restarts)
        (policy.max_attempts == 0 || (not s.restart_enabled || is_some s.restart_task)) (λ _. q)
        (λ on.
          elim (not_blocked (policy.max_attempts == 0) (is_some s.restart_task) s.restart_enabled
            q.disabled on) [ ])

  -- A state that is not STARTING.
  pub set_state-IsQuiet :
      (state : RouterState) (s : Supervisor)
      → is_starting state ≡ false
      → IsQuiet restarts s
      → IsQuiet restarts (set_state state s)
  set_state-IsQuiet state s other q = record {
    disabled = q.disabled;
    idle = q.idle;
    unchanged = q.unchanged;
    not_starting = other;
  }

  pub mark-IsQuiet :
      (target : RouterState) (s : Supervisor)
      → is_starting target ≡ false
      → IsQuiet restarts s
      → IsQuiet restarts (mark target s)
  mark-IsQuiet target s other q =
      if-cases (IsQuiet restarts) (may_enter s.state target)
        (λ _. set_state-IsQuiet target s other q) (λ _. q)

  pub lose_process-IsQuiet :
      (code : Option ℤ) (s : Supervisor)
      → IsQuiet restarts s
      → IsQuiet restarts (lose_process code s)
  lose_process-IsQuiet code s q = record {
    disabled = q.disabled;
    idle = q.idle;
    unchanged = q.unchanged;
    not_starting = q.not_starting;
  }

  pub launched-IsQuiet :
      (pid : ℕ) (s : Supervisor) → IsQuiet restarts s → IsQuiet restarts (launched pid s)
  unfolding launched
  launched-IsQuiet pid s q = IsQuiet-else launching s _ _ q (record {
    disabled = q.disabled;
    idle = q.idle;
    unchanged = q.unchanged;
    not_starting = q.not_starting;
  })

  pub launch_failed-IsQuiet :
      (policy : Policy) (s : Supervisor)
      → IsQuiet restarts s
      → IsQuiet restarts (launch_failed policy s)
  unfolding launch_failed
  launch_failed-IsQuiet policy s q = IsQuiet-else launching s _ _ q (record {
    disabled = q.disabled;
    idle = q.idle;
    unchanged = q.unchanged;
    not_starting = refl;
  })
