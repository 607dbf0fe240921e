-- ===== src/Throttle/Outcomes.antt =====
-- What each method of the throttle answers and does to the buckets of its own keys.
use llama_web_ui.Prelude.{
  ℕ, ◌+◌, ◌-◌, ◌*◌, ◌^◌, ◌≤◌, ◌<◌, ◌≡◌, ap, ◌∙◌, ◌↔◌, String, true, some, List, [], ◌∷◌, arith,
  lt→ltb, min,
}
use llama_web_ui.Throttle.{
  Key, Buckets, Bucket, Config, LoginAttempt, admitted, rate_limited, begin, begin_keys, keys_of,
  success, failure, fail_bucket, remove_expired, user, ip, get_or_new, for_keys, acquire_entry,
  longest_wait, retry_after, second, keep_unless_expired,
}
use llama_web_ui.Throttle.Laws.{
  holds, IsPair, active_of, locked_of, failure_in, active-remove_expired, locked-remove_expired,
  locked-remove_expired-le, begin_keys-Acquired,
}
use llama_web_ui.Throttle.Attempts.{keys_of-IsPair}

-- `retry_after` covers the wait in whole seconds, is at least one second, and exceeds the wait by
-- less than a second otherwise.
pub retry_after_bounds :
    (wait : ℕ)
    → (1 ≤ retry_after wait)
      × (wait ≤ retry_after wait * second)
      × (second ≤ wait → retry_after wait * second < wait + second)
unfolding retry_after
retry_after_bounds wait = ground arith

longest_wait-ge :
    (now : ℕ) (t : Buckets) (a b : String) (j : Key)
    → holds (user a ∷ ip b ∷ []) j ≡ true
    → locked_of t j - now ≤ longest_wait (λ x. x.locked_until) now t (user a ∷ ip b ∷ [])
unfolding longest_wait
longest_wait-ge now t a b j h = ground arith

module _ (account : String → String) (u i : String) (now : ℕ) (t : Buckets) where
  -- While the account or the address of a login is locked, `begin` refuses it, changes no bucket
  -- beyond dropping the expired ones, and asks for a number of seconds, at least one, after which the
  -- lock has ended.
  pub begin_locked :
      (j : Key)
      → holds (keys_of account u i) j ≡ true
      → now < locked_of t j
      → (seconds : ℕ) × (begin account u i now t ≡ (rate_limited seconds, remove_expired now t))
        × (1 ≤ seconds)
        × (locked_of t j ≤ now + seconds * second)
  unfolding begin begin_keys keys_of
  begin_locked j h lt =
      let r = remove_expired now t in
      let e = ap (λ o. (get_or_new o).locked_until) (locked-remove_expired now t j lt) in
      let g = longest_wait-ge now r (account u) i j h in
      let wait = longest_wait (λ b. b.locked_until) now r (keys_of account u i) in
      let bounds = retry_after_bounds wait in
      (retry_after wait, rw (lt→ltb 0 wait (omega arith)), bounds.0, omega (arith, bounds.1))

waits_free :
    (field : Bucket → ℕ) (now : ℕ) (t : Buckets) (a b : String)
    → field (get_or_new (t (user a))) ≤ now
    → field (get_or_new (t (ip b))) ≤ now
    → longest_wait field now t (user a ∷ ip b ∷ []) ≡ 0
unfolding longest_wait
waits_free field now t a b p q = omega arith

-- A login of an account and an address that are both unlocked and without a pending attempt.
pub record IsFree (now : ℕ) (t : Buckets) (keys : List Key) : Type 0 where
  pub unlocked : (j : Key) → holds keys j ≡ true → locked_of t j ≤ now
  pub idle : (j : Key) → holds keys j ≡ true → active_of t j ≡ 0

module _ (account : String → String) (u i : String) (now : ℕ) (t : Buckets) where
  holds_user : holds (keys_of account u i) (user (account u)) ≡ true
  unfolding keys_of
  holds_user = ground arith

  holds_ip : holds (keys_of account u i) (ip i) ≡ true
  unfolding keys_of
  holds_ip = ground arith

  unlocked_after : (j : Key) → locked_of t j ≤ now → locked_of (remove_expired now t) j ≤ now
  unlocked_after j h = omega (arith, locked-remove_expired-le now t j)

  begin_free :
      IsFree now t (keys_of account u i)
      → (x : LoginAttempt) × (t' : Buckets) × (begin account u i now t ≡ (admitted x, t'))
  unfolding begin begin_keys keys_of
  begin_free f =
      let r = remove_expired now t in
      let w =
        waits_free (λ b. b.locked_until) now r (account u) i
          (unlocked_after (user (account u)) (f.unlocked _ holds_user))
          (unlocked_after (ip i) (f.unlocked _ holds_ip)) in
      let a = active-remove_expired now t (user (account u)) ∙ f.idle _ holds_user in
      let b = active-remove_expired now t (ip i) ∙ f.idle _ holds_ip in
      (
        record {
          keys = keys_of account u i;
          delay = longest_wait (λ b. b.retry_at) now r (keys_of account u i);
        },
        for_keys acquire_entry (keys_of account u i) r,
        ground arith,
      )

  begin-IsFree :
      {x : LoginAttempt} {t' : Buckets}
      → begin account u i now t ≡ (admitted x, t')
      → IsFree now t (keys_of account u i)
  unfolding begin
  begin-IsFree e =
      let acquired = λ (j : Key). begin_keys-Acquired now t j (keys_of-IsPair account u i) e in
      record { unlocked = λ j. (acquired j).unlocked; idle = λ j. (acquired j).free }

  -- `begin` admits a login exactly when neither its account nor its address is locked or has a
  -- pending attempt.
  pub begin_admits_iff :
      ((x : LoginAttempt) × (t' : Buckets) × (begin account u i now t ≡ (admitted x, t')))
      ↔ IsFree now t (keys_of account u i)
  begin_admits_iff = (λ r. let (x, t', e) = r in begin-IsFree e, begin_free)

sub_one : (n : ℕ) → n + 1 - 1 ≡ n
sub_one n = omega arith

fail_kept :
    (c : Config) (now : ℕ) (b : Bucket)
    → 0 < c.lockout
    → let b' = get_or_new (keep_unless_expired now (some (fail_bucket c now b))) in
      (b'.failures ≡ b.failures + 1)
      × (b'.active ≡ b.active - 1)
      × (c.failure_threshold ≤ b.failures + 1 → b'.locked_until ≡ now + c.lockout)
      × (b.failures + 1 < c.failure_threshold
          → b'.retry_at ≡ now + min (c.backoff_base * 2 ^ b.failures) c.backoff_max)
unfolding fail_bucket
fail_kept c now b pos = rw (sub_one b.failures) (ground arith)

-- A failed login adds one failure to the buckets of its account and address and ends its claim on
-- them. From the threshold on it locks them for the whole lockout; below it the wait before the next
-- attempt is the base doubled once for each earlier failure, up to the maximum.
pub failure_effect :
    {keys : List Key} (c : Config) (now delay : ℕ) (t : Buckets) (j : Key)
    → 0 < c.lockout
    → IsPair keys
    → holds keys j ≡ true
    → let b = get_or_new (t j) in
      let b' = get_or_new (failure c now (record { keys = keys; delay = delay }) t j) in
      (b'.failures ≡ b.failures + 1)
      × (b'.active ≡ b.active - 1)
      × (c.failure_threshold ≤ b.failures + 1 → b'.locked_until ≡ now + c.lockout)
      × (b.failures + 1 < c.failure_threshold
          → b'.retry_at ≡ now + min (c.backoff_base * 2 ^ b.failures) c.backoff_max)
unfolding fail_bucket
failure_effect c now delay t j pos p h =
    rw (failure_in j t p delay c now h) (fail_kept c now (get_or_new (t j)) pos)

-- After a successful login the same account and address may log in again at any time, with no delay.
pub success-begin :
    (account : String → String) (u i : String) (now delay : ℕ) (t : Buckets)
    → let keys = keys_of account u i in
      (begin account u i now (success (record { keys = keys; delay = delay }) t)).0
      ≡ admitted (record { keys = keys; delay = 0 })
unfolding begin begin_keys keys_of success for_keys remove_expired longest_wait
success-begin account u i now delay t = ground arith
