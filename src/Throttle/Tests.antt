-- ===== src/Throttle/Tests.antt =====
-- The throttle at concrete inputs.
use llama_web_ui.Prelude.{◌*◌, ℕ, ◌+◌, ◌≤◌, ◌≡◌, refl, ◌↔◌, String, none, [], ◌∷◌, arith}
use llama_web_ui.Throttle.{
  second, Config, Buckets, LoginAttempt, admitted, rate_limited, new_throttle, rejected,
  lockout_not_positive, begin, success, failure, keys_of, user, ip, retry_after, remove_expired,
  begin_keys, longest_wait, for_keys, acquire_entry, Key-discrete, fail_bucket,
}
use llama_web_ui.Throttle.Laws.{locked_of}
use llama_web_ui.Throttle.Attempts.{State, Steps, stay, next, admit, fail, refuse, IsSound}
use llama_web_ui.Throttle.Lockout.{initial, attempts_exclusive, lock_holds}
use llama_web_ui.Throttle.Outcomes.{IsFree, begin_locked, begin_admits_iff}

abbrev same_name : String → String
same_name s = s

-- One failure locks, for a minute.
abbrev strict : Config
strict = record {
  failure_threshold = 1;
  lockout = 60_000_000;
  backoff_base = 250_000;
  backoff_max = 5_000_000;
}

abbrev attempt : LoginAttempt
attempt = record { keys = user "admin" ∷ ip "10.0.0.1" ∷ []; delay = 0 }

abbrev begun : State
begun = record {
  clock = 7;
  buckets = (begin same_name "admin" "10.0.0.1" 7 (λ _. none)).1;
  pending = attempt ∷ [];
}

abbrev locked : State
locked = record { clock = 9; buckets = failure strict 9 attempt begun.buckets; pending = [] }

begun_run : Steps same_name strict initial begun
unfolding begin begin_keys keys_of longest_wait remove_expired for_keys acquire_entry Key-discrete
    failure fail_bucket success retry_after
begun_run = next stay (admit "admin" "10.0.0.1" 7 attempt (omega arith) refl)

locked_run : Steps same_name strict initial locked
locked_run = next begun_run (fail [] [] attempt 9 (omega arith) refl)

attempts_exclusive_example : IsSound begun (user "admin")
attempts_exclusive_example = attempts_exclusive (user "admin") begun_run

locked_until_example : locked_of locked.buckets (user "admin") ≡ 60_000_009
unfolding begin begin_keys keys_of longest_wait remove_expired for_keys acquire_entry Key-discrete
    failure fail_bucket success retry_after
locked_until_example = refl

-- A second later the lock still stands, after a refused login.
abbrev refused : State
refused = record {
  clock = 1_000_009;
  buckets = (begin same_name "admin" "10.0.0.2" 1_000_009 locked.buckets).1;
  pending = [];
}

refused_run : Steps same_name strict locked refused
unfolding begin begin_keys keys_of longest_wait remove_expired for_keys acquire_entry Key-discrete
    failure fail_bucket success retry_after
refused_run = next stay (refuse "admin" "10.0.0.2" 1_000_009 59 (omega arith) refl)

lock_holds_example : refused.buckets (user "admin") ≡ locked.buckets (user "admin")
lock_holds_example =
    lock_holds {s = locked} {t = refused} (user "admin") locked_run refused_run
      (rw locked_until_example (omega arith))

begin_locked_example :
    (seconds : ℕ) × (begin same_name "admin" "10.0.0.2" 1_000_009 locked.buckets
      ≡ (rate_limited seconds, remove_expired 1_000_009 locked.buckets))
    × (1 ≤ seconds)
    × (locked_of locked.buckets (user "admin") ≤ 1_000_009 + seconds * second)
unfolding begin begin_keys keys_of longest_wait remove_expired for_keys acquire_entry Key-discrete
    failure fail_bucket success retry_after
begin_locked_example =
    begin_locked same_name "admin" "10.0.0.2" 1_000_009 locked.buckets (user "admin") refl
      (omega arith)

begin_admits_iff_example :
    ((x : LoginAttempt) × (t : Buckets) × (begin same_name "admin" "10.0.0.1" 7 (λ _. none)
        ≡ (admitted x, t)))
    ↔ IsFree 7 (λ _. none) (keys_of same_name "admin" "10.0.0.1")
begin_admits_iff_example = begin_admits_iff same_name "admin" "10.0.0.1" 7 (λ _. none)

-- A lockout of no time is rejected.
no_lockout : new_throttle (record strict { lockout = 0 }) ≡ rejected lockout_not_positive
unfolding new_throttle
no_lockout = refl
