-- ===== src/Throttle/Laws.antt =====
-- Each operation of the throttle, read one key at a time.
use llama_web_ui.Prelude.{
  ℕ, ◌≤◌, ◌<◌, ◌≡◌, sym, ap, ◌∙◌, String, Bool, true, false, Option, none, some, List, [], ◌∷◌, ite,
  arith, any, if◌then◌else◌,
}
use llama_web_ui.Throttle.{
  Key, user, ip, Key-discrete, Bucket, Buckets, Config, LoginAttempt, admitted, rate_limited,
  get_or_new, keep_unless_expired, for_keys, remove_expired, longest_wait, begin_keys, fail_bucket,
  failure, abort_entry, abort, success, acquire_entry, is_active,
}

abbrev pub same : Key → Key → Bool
same k j = ite (Key-discrete k j) true false

abbrev pub holds : List Key → Key → Bool
holds keys j = any (λ k. same k j) keys

-- The keys of an attempt are an account and an address.
pub data IsPair : List Key → Type 0 where
  pair : (a b : String) → IsPair (user a ∷ ip b ∷ [])

-- The loops of the methods treat each key once.
pub for_keys_lem :
    (body : Option Bucket → Option Bucket) (a b : String) (t : Buckets) (j : Key)
    → for_keys body (user a ∷ ip b ∷ []) t j
      ≡ (if holds (user a ∷ ip b ∷ []) j then body (t j) else t j)
unfolding for_keys
for_keys_lem body a b t j = ground arith

pub for_keys_in :
    (body : Option Bucket → Option Bucket) (a b : String) (t : Buckets) (j : Key)
    → holds (user a ∷ ip b ∷ []) j ≡ true
    → for_keys body (user a ∷ ip b ∷ []) t j ≡ body (t j)
for_keys_in body a b t j h = rw (for_keys_lem body a b t j, h)

pub for_keys_out :
    (body : Option Bucket → Option Bucket) (a b : String) (t : Buckets) (j : Key)
    → holds (user a ∷ ip b ∷ []) j ≡ false
    → for_keys body (user a ∷ ip b ∷ []) t j ≡ t j
for_keys_out body a b t j h = rw (for_keys_lem body a b t j, h)

for_keys_in' :
    {keys : List Key} (body : Option Bucket → Option Bucket) (t : Buckets) (j : Key)
    → IsPair keys
    → holds keys j ≡ true
    → for_keys body keys t j ≡ body (t j)
for_keys_in' body t j (pair a b) = for_keys_in body a b t j

for_keys_out' :
    {keys : List Key} (body : Option Bucket → Option Bucket) (t : Buckets) (j : Key)
    → IsPair keys
    → holds keys j ≡ false
    → for_keys body keys t j ≡ t j
for_keys_out' body t j (pair a b) = for_keys_out body a b t j

abbrev pub active_of : Buckets → Key → ℕ
active_of t j = (get_or_new (t j)).active

abbrev pub locked_of : Buckets → Key → ℕ
locked_of t j = (get_or_new (t j)).locked_until

module _ (now : ℕ) (t : Buckets) (j : Key) where
  pub active-remove_expired : active_of (remove_expired now t) j ≡ active_of t j
  unfolding remove_expired
  active-remove_expired = ground arith

  pub locked-remove_expired : now < locked_of t j → remove_expired now t j ≡ t j
  unfolding remove_expired
  locked-remove_expired h = ground arith

  pub locked-remove_expired-le : locked_of (remove_expired now t) j ≤ locked_of t j
  unfolding remove_expired
  locked-remove_expired-le = ground arith

unlocked_before :
    (now : ℕ) (t : Buckets) (j : Key)
    → locked_of (remove_expired now t) j ≤ now
    → locked_of t j ≤ now
unfolding remove_expired
unlocked_before now t j h = ground arith

-- What `begin` has done to one key when it admits an attempt on `keys`.
pub record Acquired (keys : List Key) (now : ℕ) (t t' : Buckets) (j : Key) : Type 0 where
  pub unlocked : holds keys j ≡ true → locked_of t j ≤ now
  pub free : holds keys j ≡ true → active_of t j ≡ 0
  pub taken : holds keys j ≡ true → active_of t' j ≡ 1
  pub counted : holds keys j ≡ true → locked_of t' j ≤ now
  pub others_active : holds keys j ≡ false → active_of t' j ≡ active_of t j
  pub others : holds keys j ≡ false → t' j ≡ remove_expired now t j

waits_pair :
    (now : ℕ) (t : Buckets) (a b : String) (j : Key)
    → longest_wait (λ x. x.locked_until) now t (user a ∷ ip b ∷ []) ≡ 0
    → holds (user a ∷ ip b ∷ []) j ≡ true
    → locked_of t j ≤ now
unfolding longest_wait
waits_pair now t a b j w h = ground arith

active_pair :
    (t : Buckets) (a b : String) (j : Key)
    → any (is_active t) (user a ∷ ip b ∷ []) ≡ false
    → holds (user a ∷ ip b ∷ []) j ≡ true
    → active_of t j ≡ 0
active_pair t a b j w h = ground arith

begin_keys-cases :
    (keys : List Key) (now : ℕ) (t : Buckets) {x : LoginAttempt} {t' : Buckets}
    → begin_keys keys now t ≡ (admitted x, t')
    → (longest_wait (λ b. b.locked_until) now (remove_expired now t) keys ≡ 0)
      × (any (is_active (remove_expired now t)) keys ≡ false)
      × (x.keys ≡ keys)
      × (t' ≡ for_keys acquire_entry keys (remove_expired now t))
unfolding begin_keys
begin_keys-cases keys now t h = ground arith

pub begin_keys-refuses :
    (keys : List Key) (now : ℕ) (t : Buckets) {w : ℕ} {t' : Buckets}
    → begin_keys keys now t ≡ (rate_limited w, t')
    → t' ≡ remove_expired now t
unfolding begin_keys
begin_keys-refuses keys now t h = ground arith

module _ (now : ℕ) (t : Buckets) (a b : String) (j : Key) where
  abbrev r : Buckets
  r = remove_expired now t

  abbrev keys : List Key
  keys = user a ∷ ip b ∷ []

  acquire_lem :
      longest_wait (λ x. x.locked_until) now r keys ≡ 0
      → any (is_active r) keys ≡ false
      → Acquired keys now t (for_keys acquire_entry keys r) j
  unfolding acquire_entry
  acquire_lem w f =
      let idle = λ (h : holds keys j ≡ true). active_pair r a b j f h in
      let unlocked = λ (h : holds keys j ≡ true). waits_pair now r a b j w h in
      record {
        unlocked = λ h. unlocked_before now t j (unlocked h);
        free = λ h. sym (active-remove_expired now t j) ∙ idle h;
        taken = λ h. rw (for_keys_in acquire_entry a b r j h, active_of) (omega (arith, idle h));
        counted = λ h. rw (for_keys_in acquire_entry a b r j h, locked_of) (unlocked h);
        others_active = λ h.
            rw (for_keys_out acquire_entry a b r j h, active_of) (active-remove_expired now t j);
        others = λ h. for_keys_out acquire_entry a b r j h;
      }

-- An admitted attempt found its keys unlocked and free, and holds each of them once.
pub begin_keys-Acquired :
    {keys : List Key} (now : ℕ) (t : Buckets) {x : LoginAttempt} {t' : Buckets} (j : Key)
    → IsPair keys
    → begin_keys keys now t ≡ (admitted x, t')
    → Acquired keys now t t' j
begin_keys-Acquired now t {t' = t'} j (pair a b) h =
    let (w, f, _, e) = begin_keys-cases (user a ∷ ip b ∷ []) now t h in
    rw e (acquire_lem now t a b j w f)

pub begin_keys-keys :
    (keys : List Key) (now : ℕ) (t : Buckets) {x : LoginAttempt} {t' : Buckets}
    → begin_keys keys now t ≡ (admitted x, t')
    → x.keys ≡ keys
begin_keys-keys keys now t h = (begin_keys-cases keys now t h).2

-- A finished attempt has one of these effects on the entry of a key that it holds.
module _ {keys : List Key} (j : Key) (t : Buckets) (p : IsPair keys) where
  abbrev x : ℕ → LoginAttempt
  x d = record { keys = keys; delay = d }

  pub success_in : (d : ℕ) → holds keys j ≡ true → success (x d) t j ≡ none
  unfolding success
  success_in d = for_keys_in' (λ _. none) t j p

  pub success_out : (d : ℕ) → holds keys j ≡ false → success (x d) t j ≡ t j
  unfolding success
  success_out d = for_keys_out' (λ _. none) t j p

  pub abort_in : (d : ℕ) → holds keys j ≡ true → abort (x d) t j ≡ abort_entry (t j)
  unfolding abort
  abort_in d = for_keys_in' abort_entry t j p

  pub abort_out : (d : ℕ) → holds keys j ≡ false → abort (x d) t j ≡ t j
  unfolding abort
  abort_out d = for_keys_out' abort_entry t j p

  pub failure_in :
      (d : ℕ) (c : Config) (now : ℕ)
      → holds keys j ≡ true
      → failure c now (x d) t j
        ≡ keep_unless_expired now (some (fail_bucket c now (get_or_new (t j))))
  unfolding failure remove_expired
  failure_in d c now h = ap (keep_unless_expired now) (for_keys_in' _ t j p h)

  pub failure_out :
      (d : ℕ) (c : Config) (now : ℕ)
      → holds keys j ≡ false
      → failure c now (x d) t j ≡ remove_expired now t j
  unfolding failure remove_expired
  failure_out d c now h = ap (keep_unless_expired now) (for_keys_out' _ t j p h)
