-- ===== src/Throttle/Lockout.antt =====
-- Runs of the throttle: the attempts in flight on a key, and a lock on it.
use llama_web_ui.Prelude.{
  ◌≤◌, ◌<◌, ◌≡◌, refl, sym, ap, subst, ◌∙◌, String, false, none, List, [], ◌∷◌, ◌++◌, arith,
  Bool-cases, inl, inr,
}
use llama_web_ui.Throttle.{Key, Config, LoginAttempt, begin, keys_of, get_or_new}
use llama_web_ui.Throttle.Laws.{
  holds, locked_of, begin_keys-Acquired, begin_keys-keys, begin_keys-refuses, success_out,
  abort_out, failure_out, locked-remove_expired,
}
use llama_web_ui.Throttle.Attempts.{
  State, Step, admit, refuse, succeed, fail, give_up, Steps, stay, next, pending_on, IsSound,
  AllPairs, none_pending, one_more, AllPairs-middle, keys_of-IsPair, admit-IsSound, refuse-IsSound,
  succeed-IsSound, fail-IsSound, give_up-IsSound, pending_on-middle,
}

abbrev pub initial : State
initial = record { clock = 0; buckets = λ _. none; pending = [] }

initial-IsSound : (j : Key) → IsSound initial j
unfolding pending_on
initial-IsSound j = ground arith

-- A locked key is held by no pending attempt.
not_held :
    (s : State) (j : Key) (before after : List LoginAttempt) (x : LoginAttempt)
    → IsSound s j
    → s.pending ≡ before ++ (x ∷ after)
    → s.clock < locked_of s.buckets j
    → holds x.keys j ≡ false
not_held s j before after x v e lt =
    ground (arith, ap (pending_on j) e, pending_on-middle j before after x)

module _ {account : String → String} {c : Config} where
  Step-IsSound :
      {s t : State} (j : Key) → Step account c s t → AllPairs s.pending → IsSound s j → IsSound t j
  Step-IsSound j (admit {s = s} u i now x le h) p v = admit-IsSound account c s j u i now x le h v
  Step-IsSound j (refuse {s = s} u i now w le h) p v = refuse-IsSound account c s j u i now w le h v
  Step-IsSound j (succeed {s = s} before after x e) p v =
      succeed-IsSound account c s j before after x e
        (AllPairs-middle before after x (subst AllPairs e p)).0 v
  Step-IsSound j (fail {s = s} before after x now le e) p v =
      fail-IsSound account c s j before after x now le e
        (AllPairs-middle before after x (subst AllPairs e p)).0 v
  Step-IsSound j (give_up {s = s} before after x e) p v =
      give_up-IsSound account c s j before after x e
        (AllPairs-middle before after x (subst AllPairs e p)).0 v

  Step-AllPairs : {s t : State} → Step account c s t → AllPairs s.pending → AllPairs t.pending
  unfolding begin
  Step-AllPairs (admit {s = s} u i now x le h) p =
      one_more x
        (rw (begin_keys-keys (keys_of account u i) now s.buckets h) (keys_of-IsPair account u i)) p
  Step-AllPairs (refuse u i now w le h) p = p
  Step-AllPairs (succeed before after x e) p =
      (AllPairs-middle before after x (subst AllPairs e p)).1
  Step-AllPairs (fail before after x now le e) p =
      (AllPairs-middle before after x (subst AllPairs e p)).1
  Step-AllPairs (give_up before after x e) p =
      (AllPairs-middle before after x (subst AllPairs e p)).1

  Steps-AllPairs : {s t : State} → Steps account c s t → AllPairs s.pending → AllPairs t.pending
  Steps-AllPairs stay p = p
  Steps-AllPairs (next r st) p = Step-AllPairs st (Steps-AllPairs r p)

  Steps-IsSound :
      {s t : State} (j : Key) → Steps account c s t → AllPairs s.pending → IsSound s j → IsSound t j
  Steps-IsSound j stay p v = v
  Steps-IsSound j (next r st) p v = Step-IsSound j st (Steps-AllPairs r p) (Steps-IsSound j r p v)

  -- In every run of logins from a new throttle, each account and each address has at most one
  -- attempt that is admitted and not yet finished, its bucket counts exactly those attempts, and a
  -- locked account or address has none.
  pub attempts_exclusive : {s : State} (j : Key) → Steps account c initial s → IsSound s j
  attempts_exclusive j r = Steps-IsSound j r none_pending (initial-IsSound j)

  Step-clock : {s t : State} → Step account c s t → s.clock ≤ t.clock
  Step-clock (admit u i now x le h) = le
  Step-clock (refuse u i now w le h) = le
  Step-clock (succeed before after x e) = omega arith
  Step-clock (fail before after x now le e) = le
  Step-clock (give_up before after x e) = omega arith

  Step-locked :
      {s t : State} (j : Key)
      → Step account c s t
      → AllPairs s.pending
      → IsSound s j
      → t.clock < locked_of s.buckets j
      → t.buckets j ≡ s.buckets j
  unfolding begin
  Step-locked j (admit {s = s} u i now x le h) p v lt =
      let a = begin_keys-Acquired now s.buckets j (keys_of-IsPair account u i) h in
      elim (Bool-cases (holds (keys_of account u i) j)) [
        | inl held ↦ absurd (omega (arith, a.unlocked held))
        | inr away ↦ a.others away ∙ locked-remove_expired now s.buckets j lt
      ]
  Step-locked j (refuse {s = s} u i now w le h) p v lt =
      ap (λ f. f j) (begin_keys-refuses (keys_of account u i) now s.buckets h)
      ∙ locked-remove_expired now s.buckets j lt
  Step-locked j (succeed {s = s} before after x e) p v lt =
      success_out j s.buckets (AllPairs-middle before after x (subst AllPairs e p)).0 x.delay
        (not_held s j before after x v e lt)
  Step-locked j (fail {s = s} before after x now le e) p v lt =
      failure_out j s.buckets (AllPairs-middle before after x (subst AllPairs e p)).0 x.delay c now
        (not_held s j before after x v e (omega arith))
      ∙ locked-remove_expired now s.buckets j lt
  Step-locked j (give_up {s = s} before after x e) p v lt =
      abort_out j s.buckets (AllPairs-middle before after x (subst AllPairs e p)).0 x.delay
        (not_held s j before after x v e lt)

  Steps-locked :
      {s t : State} (j : Key)
      → Steps account c s t
      → AllPairs s.pending
      → IsSound s j
      → t.clock < locked_of s.buckets j
      → t.buckets j ≡ s.buckets j
  Steps-locked j stay p v lt = refl
  Steps-locked j (next {u = u} r st) p v lt =
      let e = Steps-locked j r p v (omega (arith, Step-clock st)) in
      Step-locked j st (Steps-AllPairs r p) (Steps-IsSound j r p v)
        (subst (λ o. u.clock < (get_or_new o).locked_until) (sym e) lt)
      ∙ e

  -- Once an account or address is locked, its bucket does not change before the lock ends, whatever
  -- logins begin, succeed, fail or are aborted meanwhile.
  pub lock_holds :
      {s t : State} (j : Key)
      → Steps account c initial s
      → Steps account c s t
      → t.clock < locked_of s.buckets j
      → t.buckets j ≡ s.buckets j
  lock_holds j r r' lt =
      Steps-locked j r' (Steps-AllPairs r none_pending) (attempts_exclusive j r) lt
