-- ===== src/Router/Supervisor/Covered.antt =====
-- A supervisor whose automatic restarts are within the policy's window
-- (services/router_supervisor.py).
use llama_web_ui.Prelude.{
  ℕ, ◌+◌, ◌≤◌, ◌<◌, Bool, Option, none, some, List, [], ◌∷◌, ◌++◌, ◌≡◌, refl, not, ltb, leb, ◌==◌,
  ◌&&◌, ◌||◌, length, is_some, if◌then◌else◌, arith, if-cases,
}
use llama_web_ui.Router.{
  starting, ready, may_enter, RouterLaunch, System, Arguments, accepted, rejected, arguments,
}
use llama_web_ui.Router.Supervisor.{
  Policy, Supervisor, launching, begin_start, begin_with, launch_begun, prune, is_down,
  restart_turn, schedule_restart, delay_over, is_at, launched, launch_failed, probed, restart_once,
}

-- How many of the times lie at most a window before `t`.
unfoldable pub recent : ℕ → ℕ → List ℕ → ℕ
recent window t [] = 0
recent window t (x ∷ xs) = (if ltb (x + window) t then 0 else 1) + recent window t xs

-- Of the restarts, latest first, each is one of at most `most` in the window that it ends.
unfoldable pub IsThrottled : ℕ → ℕ → List ℕ → Type 0
IsThrottled window most [] = Unit
IsThrottled window most (t ∷ older) =
    (recent window t (t ∷ older) ≤ most) × IsThrottled window most older

recent_le_length : (window t : ℕ) (xs : List ℕ) → recent window t xs ≤ length xs
unfolding recent
recent_le_length window t [] = omega arith
recent_le_length window t (x ∷ xs) = ground (arith, recent_le_length window t xs)

recent-prune :
    (window now t : ℕ) (xs : List ℕ)
    → now ≤ t
    → recent window t (prune window now xs) ≡ recent window t xs
unfolding recent prune
recent-prune window now t [] h = refl
recent-prune window now t (x ∷ xs) h = ground (arith, recent-prune window now t xs h)

recent-append :
    (window t : ℕ) (xs ys : List ℕ)
    → recent window t (xs ++ ys) ≡ recent window t xs + recent window t ys
unfolding recent
recent-append window t [] ys = omega arith
recent-append window t (x ∷ xs) ys = omega (arith, recent-append window t xs ys)

module _ (policy : Policy) where
  -- The attempts that are kept count for all restarts from now on.
  pub record Covers (clock : ℕ) (restarts attempts : List ℕ) : Type 0 where
    pub covers :
        (t : ℕ) → clock ≤ t → recent policy.window t restarts ≤ recent policy.window t attempts
    pub throttled : IsThrottled policy.window policy.max_attempts restarts

  abbrev pub IsCovered : Supervisor → Type 0
  IsCovered s = Covers s.clock s.restarts s.restart_attempts

  Covers-restart :
      (clock : ℕ) (restarts attempts : List ℕ)
      → Covers clock restarts attempts
      → length (prune policy.window clock attempts) < policy.max_attempts
      → Covers clock (clock ∷ restarts) (prune policy.window clock attempts ++ (clock ∷ []))
  unfolding recent IsThrottled
  Covers-restart clock restarts attempts c few =
      let w = policy.window in
      let kept = prune w clock attempts in
      record {
        covers = λ t later. omega (
          arith,
          c.covers t later,
          recent-prune w clock t attempts later,
          recent-append w t kept (clock ∷ []),
        );
        throttled = (
          ground (
            arith,
            c.covers clock (omega arith),
            recent-prune w clock clock attempts (omega arith),
            recent_le_length w clock kept,
            few,
          ),
          c.throttled,
        );
      }

  Covers-prune :
      (clock : ℕ) (restarts attempts : List ℕ)
      → Covers clock restarts attempts
      → Covers clock restarts (prune policy.window clock attempts)
  Covers-prune clock restarts attempts c = record {
    covers = λ t later.
        omega (arith, c.covers t later, recent-prune policy.window clock t attempts later);
    throttled = c.throttled;
  }

  pub restart_turn-IsCovered : (s : Supervisor) → IsCovered s → IsCovered (restart_turn policy s)
  unfolding restart_turn
  restart_turn-IsCovered s c =
      if-cases IsCovered (not (s.restart_enabled && is_down s.state)) (λ _. c)
        (λ _.
          if-cases IsCovered
            (leb policy.max_attempts (length (prune policy.window s.clock s.restart_attempts)))
            (λ _. Covers-prune s.clock s.restarts s.restart_attempts c)
            (λ few. Covers-restart s.clock s.restarts s.restart_attempts c (ground arith)))

  pub schedule_restart-IsCovered :
      (s : Supervisor) → IsCovered s → IsCovered (schedule_restart policy s)
  unfolding schedule_restart
  schedule_restart-IsCovered s c =
      if-cases IsCovered
        (policy.max_attempts == 0 || (not s.restart_enabled || is_some s.restart_task)) (λ _. c)
        (λ _. restart_turn-IsCovered s c)

  pub begin_with-IsCovered :
      (given : Arguments) (s : Supervisor) → IsCovered s → IsCovered (begin_with given s).0
  unfolding begin_with
  begin_with-IsCovered (rejected e es) s c = c
  begin_with-IsCovered (accepted given) s c =
      if-cases (λ (r : Supervisor × Bool). IsCovered r.0) (may_enter s.state starting) (λ _. c)
        (λ _. c)

  launch_begun-IsCovered :
      (begun : Supervisor × Bool) → IsCovered begun.0 → IsCovered (launch_begun policy begun)
  unfolding launch_begun
  launch_begun-IsCovered (s, failed) c =
      if-cases IsCovered failed (λ _. restart_turn-IsCovered s c) (λ _. c)

  restart_once-IsCovered :
      (system : System) (launch : Option RouterLaunch) (s : Supervisor)
      → IsCovered s
      → IsCovered (restart_once policy system launch s)
  unfolding restart_once
  restart_once-IsCovered system none s c = c
  restart_once-IsCovered system (some launch) s c =
      launch_begun-IsCovered (begin_start system launch s)
        (begin_with-IsCovered (arguments system launch) s c)

  pub delay_over-IsCovered :
      (system : System) (s : Supervisor) → IsCovered s → IsCovered (delay_over policy system s)
  unfolding delay_over
  delay_over-IsCovered system s c =
      if-cases IsCovered (not s.restart_enabled) (λ _. c)
        (λ _. restart_once-IsCovered system s.launch s c)

  pub launched-IsCovered : (pid : ℕ) (s : Supervisor) → IsCovered s → IsCovered (launched pid s)
  unfolding launched
  launched-IsCovered pid s c = if-cases IsCovered (is_at launching s.restart_task) (λ _. c) (λ _. c)

  pub launch_failed-IsCovered : (s : Supervisor) → IsCovered s → IsCovered (launch_failed policy s)
  unfolding launch_failed
  launch_failed-IsCovered s c =
      if-cases IsCovered (is_at launching s.restart_task) (λ _. restart_turn-IsCovered _ c) (λ _. c)

  pub probed-IsCovered : (s : Supervisor) → IsCovered s → IsCovered (probed policy s)
  unfolding probed
  probed-IsCovered s c =
      if-cases IsCovered (may_enter s.state ready) (λ _. c) (λ _. restart_turn-IsCovered s c)
