-- ===== src/Throttle.antt =====
-- The login throttle: backend/src/llamawebui/services/login_throttle.py.
-- Times are whole microseconds of the monotonic clock (the source has floating-point seconds), so
-- `max(a - b, 0.0)` is the subtraction of ℕ. The dictionary of buckets is a function: the code only
-- reads, writes and drops single keys, and `_remove_expired` treats each entry on its own. The
-- texts "user:…" and "ip:…" never meet, so they are the two constructors of `Key`; `account` stands
-- for `username.strip().casefold()`, Python's own text functions.
-- Each method holds the lock for its whole body, so a method is one step.
pub mod Laws
pub mod Attempts
pub mod Lockout
pub mod Outcomes
mod Tests
use llama_web_ui.Prelude.{
  ℕ, ◌+◌, ◌-◌, ◌*◌, ◌/◌, ◌^◌, min, max, String, Bool, ◌||◌, Option, none, some, List, [], ◌∷◌, ite,
  ◌&&◌, ltb, leb, ◌==◌, if◌then◌else◌, any, string_discrete,
}

pub data Key : Type 0 where
  user : String → Key
  ip : String → Key

pub Key-discrete : Discrete Key
unfolding string_discrete
Key-discrete = hlevel string_discrete

-- `1.0` second.
abbrev pub second : ℕ
second = 1_000_000

pub record Bucket : Type 0 where
  pub failures : ℕ
  pub retry_at : ℕ
  pub locked_until : ℕ
  pub retire_at : ℕ
  pub active : ℕ

abbrev pub new_bucket : Bucket
new_bucket = record { failures = 0; retry_at = 0; locked_until = 0; retire_at = 0; active = 0 }

abbrev pub Buckets : Type 0
Buckets = Key → Option Bucket

-- The constructor's settings. Its checks that no time is negative hold by the type.
pub record Config : Type 0 where
  pub failure_threshold : ℕ
  pub lockout : ℕ
  pub backoff_base : ℕ
  pub backoff_max : ℕ

pub data ConfigError : Type 0 where
  threshold_not_positive lockout_not_positive backoff_max_below_base : ConfigError

pub data Configured : Type 0 where
  configured : Config → Buckets → Configured
  rejected : ConfigError → Configured

pub new_throttle : Config → Configured
new_throttle c =
    if ltb c.failure_threshold 1
    then rejected threshold_not_positive
    else if leb c.lockout 0
    then rejected lockout_not_positive
    else if ltb c.backoff_max c.backoff_base
    then rejected backoff_max_below_base
    else configured c (λ _. none)

pub record LoginAttempt : Type 0 where
  pub keys : List Key
  pub delay : ℕ

pub data Begun : Type 0 where
  admitted : LoginAttempt → Begun
  rate_limited : ℕ → Begun

-- `buckets.get(key, _Bucket())`.
abbrev pub get_or_new : Option Bucket → Bucket
get_or_new none = new_bucket
get_or_new (some b) = b

-- `LoginRateLimitedError.retry_after`: whole seconds, rounded up, at least one.
pub retry_after : ℕ → ℕ
retry_after wait = max 1 ((wait + (second - 1)) / second)

-- What `_remove_expired` does with one entry.
abbrev pub keep_unless_expired : ℕ → Option Bucket → Option Bucket
keep_unless_expired now none = none
keep_unless_expired now (some b) =
    if ltb 0 b.active || (ltb now b.locked_until || (ltb now b.retry_at || ltb now b.retire_at))
    then some b
    else none

pub remove_expired : ℕ → Buckets → Buckets
remove_expired now t j = keep_unless_expired now (t j)

-- `max((max(field - now, 0.0) for key in keys), default=0.0)`.
pub longest_wait : (Bucket → ℕ) → ℕ → Buckets → List Key → ℕ
longest_wait field now t [] = 0
longest_wait field now t (k ∷ ks) =
    max (field (get_or_new (t k)) - now) (longest_wait field now t ks)

abbrev pub is_active : Buckets → Key → Bool
is_active t k = ltb 0 (get_or_new (t k)).active

-- `buckets.setdefault(key, _Bucket()).active += 1`, on the entry of the key.
pub acquire_entry : Option Bucket → Option Bucket
acquire_entry o = let b = get_or_new o in some (record b { active = b.active + 1 })

-- A loop `for key in keys` whose body reads and writes the entry of its own key alone.
pub for_keys : (Option Bucket → Option Bucket) → List Key → Buckets → Buckets
for_keys body [] t = t
for_keys body (k ∷ ks) t = for_keys body ks (λ j. ite (Key-discrete k j) (body (t k)) (t j))

unfoldable pub keys_of : (String → String) → String → String → List Key
keys_of account username client_ip = user (account username) ∷ ip client_ip ∷ []

-- `begin`, after the keys and the time are read.
pub begin_keys : List Key → ℕ → Buckets → Begun × Buckets
begin_keys keys now buckets =
    let t = remove_expired now buckets in
    let locked_for = longest_wait (λ b. b.locked_until) now t keys in
    if ltb 0 locked_for
    then (rate_limited (retry_after locked_for), t)
    else if any (is_active t) keys
    then (rate_limited (retry_after second), t)
    else (
      admitted (record { keys = keys; delay = longest_wait (λ b. b.retry_at) now t keys }),
      for_keys acquire_entry keys t,
    )

pub begin : (String → String) → String → String → ℕ → Buckets → Begun × Buckets
begin account username client_ip now t = begin_keys (keys_of account username client_ip) now t

pub success : LoginAttempt → Buckets → Buckets
success attempt t = for_keys (λ _. none) attempt.keys t

-- `failure`, for the bucket of one key.
pub fail_bucket : Config → ℕ → Bucket → Bucket
fail_bucket c now b =
    let failures = b.failures + 1 in
    if leb c.failure_threshold failures
    then record {
      failures = failures;
      retry_at = 0;
      locked_until = now + c.lockout;
      retire_at = now + c.lockout;
      active = b.active - 1;
    }
    else record {
      failures = failures;
      retry_at = now + min (c.backoff_base * 2 ^ (failures - 1)) c.backoff_max;
      locked_until = b.locked_until;
      retire_at = now + c.lockout;
      active = b.active - 1;
    }

pub failure : Config → ℕ → LoginAttempt → Buckets → Buckets
failure c now attempt t =
    remove_expired now (for_keys (λ o. some (fail_bucket c now (get_or_new o))) attempt.keys t)

-- `abort`, for the entry of one key.
pub abort_entry : Option Bucket → Option Bucket
abort_entry none = none
abort_entry (some b) =
    let active = b.active - 1 in
    if active == 0 && b.failures == 0 then none else some (record b { active = active })

pub abort : LoginAttempt → Buckets → Buckets
abort attempt t = for_keys abort_entry attempt.keys t
