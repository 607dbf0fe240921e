-- ===== src/Throttle/Attempts.antt =====
-- The throttle over time: any interleaving of logins that begin, succeed, fail and are aborted, as
-- the login handler makes them, each finished at most once.
use llama_web_ui.Prelude.{
  ℕ, ◌+◌, ◌≤◌, ◌<◌, ◌≡◌, refl, ap, String, List, [], ◌∷◌, ◌++◌, arith, Bool-cases, inl, inr,
  if◌then◌else◌,
}
use llama_web_ui.Throttle.{
  Key, Buckets, Config, LoginAttempt, admitted, rate_limited, begin, keys_of, success, failure,
  abort, fail_bucket, abort_entry, remove_expired,
}
use llama_web_ui.Throttle.Laws.{
  holds, IsPair, pair, active_of, locked_of, begin_keys-Acquired, begin_keys-keys,
  begin_keys-refuses, success_in, success_out, abort_in, abort_out, failure_in, failure_out,
}

pub record State : Type 0 where
  pub clock : ℕ
  pub buckets : Buckets
  pub pending : List LoginAttempt  -- admitted, and not yet finished

module _ (account : String → String) (c : Config) where
  pub data Step : State → State → Type 0 where
    admit :
        {s : State} {t : Buckets} (username client_ip : String) (now : ℕ) (x : LoginAttempt)
        → s.clock ≤ now
        → begin account username client_ip now s.buckets ≡ (admitted x, t)
        → Step s (record { clock = now; buckets = t; pending = x ∷ s.pending })
    refuse :
        {s : State} {t : Buckets} (username client_ip : String) (now wait : ℕ)
        → s.clock ≤ now
        → begin account username client_ip now s.buckets ≡ (rate_limited wait, t)
        → Step s (record { clock = now; buckets = t; pending = s.pending })
    succeed :
        {s : State} (before after : List LoginAttempt) (x : LoginAttempt)
        → s.pending ≡ before ++ (x ∷ after)
        → Step s
            (record { clock = s.clock; buckets = success x s.buckets; pending = before ++ after })
    fail :
        {s : State} (before after : List LoginAttempt) (x : LoginAttempt) (now : ℕ)
        → s.clock ≤ now
        → s.pending ≡ before ++ (x ∷ after)
        → Step s
            (record { clock = now; buckets = failure c now x s.buckets; pending = before ++ after })
    give_up :
        {s : State} (before after : List LoginAttempt) (x : LoginAttempt)
        → s.pending ≡ before ++ (x ∷ after)
        → Step s
            (record { clock = s.clock; buckets = abort x s.buckets; pending = before ++ after })

  pub data Steps (s : State) : State → Type 0 where
    stay : Steps s s
    next : {t u : State} → Steps s t → Step t u → Steps s u

-- How many pending attempts hold a key.
unfoldable pub pending_on : Key → List LoginAttempt → ℕ
pending_on j [] = 0
pending_on j (x ∷ xs) = (if holds x.keys j then 1 else 0) + pending_on j xs

-- The count in the bucket is the number of pending attempts, which is at most one and none while
-- the key is locked.
pub record IsSound (s : State) (j : Key) : Type 0 where
  pub counted : active_of s.buckets j ≡ pending_on j s.pending
  pub exclusive : pending_on j s.pending ≤ 1
  pub locked_free : s.clock < locked_of s.buckets j → pending_on j s.pending ≡ 0

pub data AllPairs : List LoginAttempt → Type 0 where
  none_pending : AllPairs []
  one_more :
      {xs : List LoginAttempt} (x : LoginAttempt) → IsPair x.keys → AllPairs xs → AllPairs (x ∷ xs)

pub pending_on-middle :
    (j : Key) (xs ys : List LoginAttempt) (x : LoginAttempt)
    → pending_on j (xs ++ (x ∷ ys)) ≡ (if holds x.keys j then 1 else 0) + pending_on j (xs ++ ys)
unfolding pending_on
pending_on-middle j [] ys x = refl
pending_on-middle j (z ∷ xs) ys x = omega (arith, pending_on-middle j xs ys x)

pub keys_of-IsPair : (account : String → String) (u i : String) → IsPair (keys_of account u i)
unfolding keys_of
keys_of-IsPair account u i = pair (account u) i

-- The entry of a key after a method has swept the expired ones, and nothing else.
swept :
    (j : Key) (now clock n : ℕ) (t t' : Buckets)
    → clock ≤ now
    → t' j ≡ remove_expired now t j
    → active_of t j ≡ n
    → (clock < locked_of t j → n ≡ 0)
    → (active_of t' j ≡ n) × (now < locked_of t' j → n ≡ 0)
unfolding remove_expired
swept j now clock n t t' le e a f = ground arith

pub AllPairs-middle :
    (xs ys : List LoginAttempt) (x : LoginAttempt)
    → AllPairs (xs ++ (x ∷ ys))
    → IsPair x.keys × AllPairs (xs ++ ys)
AllPairs-middle [] ys x (one_more _ p ps) = (p, ps)
AllPairs-middle (z ∷ xs) ys x (one_more _ p ps) =
    let (q, qs) = AllPairs-middle xs ys x ps in (q, one_more z p qs)

module _ (account : String → String) (c : Config) where
  pub admit-IsSound :
      (s : State) (j : Key) {t : Buckets} (u i : String) (now : ℕ) (x : LoginAttempt)
      → s.clock ≤ now
      → begin account u i now s.buckets ≡ (admitted x, t)
      → IsSound s j
      → IsSound (record { clock = now; buckets = t; pending = x ∷ s.pending }) j
  unfolding begin pending_on
  admit-IsSound s j {t = t} u i now x le h v =
      let a = begin_keys-Acquired now s.buckets j (keys_of-IsPair account u i) h in
      let e = begin_keys-keys (keys_of account u i) now s.buckets h in
      elim (Bool-cases (holds (keys_of account u i) j)) [
        | inl held ↦
            ground (arith, a.taken held, a.free held, a.counted held, ap (λ k. holds k j) e)
        | inr away ↦ ground (
          arith,
          swept j now s.clock _ s.buckets t le (a.others away) v.counted v.locked_free,
          ap (λ k. holds k j) e,
        )
      ]

  pub succeed-IsSound :
      (s : State) (j : Key) (before after : List LoginAttempt) (x : LoginAttempt)
      → s.pending ≡ before ++ (x ∷ after)
      → IsPair x.keys
      → IsSound s j
      → IsSound
          (record { clock = s.clock; buckets = success x s.buckets; pending = before ++ after })
          j
  succeed-IsSound s j before after x e p v = elim (Bool-cases (holds x.keys j)) [
    | inl held ↦
        let m = success_in j s.buckets p x.delay held in
        ground (arith, ap (pending_on j) e, pending_on-middle j before after x)
    | inr away ↦
        let m = success_out j s.buckets p x.delay away in
        ground (arith, ap (pending_on j) e, pending_on-middle j before after x)
  ]

  pub fail-IsSound :
      (s : State) (j : Key) (before after : List LoginAttempt) (x : LoginAttempt) (now : ℕ)
      → s.clock ≤ now
      → s.pending ≡ before ++ (x ∷ after)
      → IsPair x.keys
      → IsSound s j
      → IsSound
          (record { clock = now; buckets = failure c now x s.buckets; pending = before ++ after })
          j
  unfolding fail_bucket
  fail-IsSound s j before after x now le e p v = elim (Bool-cases (holds x.keys j)) [
    | inl held ↦
        let m = failure_in j s.buckets p x.delay c now held in
        ground (arith, ap (pending_on j) e, pending_on-middle j before after x)
    | inr away ↦
        let m = failure_out j s.buckets p x.delay c now away in
        let t' = failure c now x s.buckets in
        ground (
          arith,
          swept j now s.clock _ s.buckets t' le m v.counted v.locked_free,
          ap (pending_on j) e,
          pending_on-middle j before after x,
        )
  ]

  pub give_up-IsSound :
      (s : State) (j : Key) (before after : List LoginAttempt) (x : LoginAttempt)
      → s.pending ≡ before ++ (x ∷ after)
      → IsPair x.keys
      → IsSound s j
      → IsSound
          (record { clock = s.clock; buckets = abort x s.buckets; pending = before ++ after })
          j
  unfolding abort_entry
  give_up-IsSound s j before after x e p v = elim (Bool-cases (holds x.keys j)) [
    | inl held ↦
        let m = abort_in j s.buckets p x.delay held in
        ground (arith, ap (pending_on j) e, pending_on-middle j before after x)
    | inr away ↦
        let m = abort_out j s.buckets p x.delay away in
        ground (arith, ap (pending_on j) e, pending_on-middle j before after x)
  ]

  pub refuse-IsSound :
      (s : State) (j : Key) {t : Buckets} (u i : String) (now w : ℕ)
      → s.clock ≤ now
      → begin account u i now s.buckets ≡ (rate_limited w, t)
      → IsSound s j
      → IsSound (record { clock = now; buckets = t; pending = s.pending }) j
  unfolding begin
  refuse-IsSound s j {t = t} u i now w le h v =
      let e = begin_keys-refuses (keys_of account u i) now s.buckets h in
      ground (arith, swept j now s.clock _ s.buckets t le (ap (λ f. f j) e) v.counted v.locked_free)
