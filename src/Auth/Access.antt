-- ===== src/Auth/Access.antt =====
-- How a session ends, and what a change of password does to the sessions (services/auth_service.py).
use mathlib.Core.Logic.{if_pos, if_neg}
use mathlib.Core.Option.{some-injective}
use llama_web_ui.Prelude.{
  same_text, ℕ, ◌≡◌, ◌≢◌, ◌⊎◌, refl, sym, ◌∙◌, ap, inl, inr, String, true, false, Option, none,
  some, List, [], ◌∷◌, is_some, arith, Bool-cases, Option-cases, string_discrete,
}
use llama_web_ui.Prelude.Table.{find, store, find-key, find-store_self, find-store_ne, find-append}
use llama_web_ui.Auth.State.{
  User, Session, Store, user_key, session_key, ok, err, store_after, session_not_found, Hasher,
}
use llama_web_ui.Auth.Sessions.{
  create_session, resolve_found, resolve_session, revoke_found, revoke_session, is_kept, revoke_row,
  revoke_others, change_found, change_password,
}

-- The row of a session exists and is revoked.
abbrev pub IsRevoked : String → Store → Type 0
IsRevoked i s =
    (x : Session) × (find session_key i s.sessions ≡ some x) × (is_some x.revoked_at ≡ true)

-- The calls that change sessions.
pub data Call : Type 0 where
  open_session : String → String → ℕ → Call
  revoke : String → ℕ → Call
  new_password : ℕ → String → String → String → Option String → ℕ → Call

unfoldable pub apply : Hasher → Call → Store → Store
apply hasher (open_session i u now) s = store_after (create_session i u now s) s
apply hasher (revoke i now) s = store_after (revoke_session i now s) s
apply hasher (new_password salt u current new keep now) s =
    store_after (change_password hasher salt u current new keep now s) s

unfoldable pub run : Hasher → List Call → Store → Store
run hasher [] s = s
run hasher (c ∷ cs) s = run hasher cs (apply hasher c s)

open-IsRevoked :
    (j u : String) (now : ℕ) (i : String) (s : Store)
    → IsRevoked i s
    → IsRevoked i (store_after (create_session j u now s) s)
unfolding create_session
open-IsRevoked j u now i s r =
    let (x, found, revoked) = r in (x, find-append session_key i s.sessions _ found, revoked)

store-IsRevoked :
    (j : String) (now : ℕ) (i : String) (s : Store) (y : Session)
    → find session_key j s.sessions ≡ some y
    → IsRevoked i s
    → IsRevoked i
        (record s { sessions = store session_key (record y { revoked_at = some now }) s.sessions })
store-IsRevoked j now i s y found r =
    let y' : Session = record y { revoked_at = some now } in
    let same = find-key session_key j s.sessions found in
    elim (string_discrete i j) [
      | yes p ↦ (y', rw p (find-store_self session_key j s.sessions y' found same), refl)
      | no n ↦
          let (x, stored, revoked) = r in
          (x, find-store_ne session_key i s.sessions y' (λ e. n (e ∙ same)) ∙ stored, revoked)
    ]

revoke-IsRevoked :
    (j : String) (now : ℕ) (i : String) (s : Store)
    → IsRevoked i s
    → IsRevoked i (store_after (revoke_session j now s) s)
unfolding revoke_session revoke_found
revoke-IsRevoked j now i s r = elim (Option-cases (find session_key j s.sessions)) [
  | inl missing ↦ rw (missing, store_after) r
  | inr (y, found) ↦ elim (Bool-cases (is_some y.revoked_at)) [
    | inl already ↦ rw (found, already, store_after) r
    | inr open_still ↦ rw (found, open_still, store_after) (store-IsRevoked j now i s y found r)
  ]
]

same_text_refl : {a b : String} → a ≡ b → same_text a b ≡ true
same_text_refl p = if_pos _ p true false

same_text_apart : {a b : String} → a ≢ b → same_text a b ≡ false
same_text_apart n = if_neg _ n true false

revoke_row-id :
    (u : String) (keep : Option String) (now : ℕ) (x : Session)
    → (revoke_row u keep now x).id ≡ x.id
unfolding revoke_row
revoke_row-id u keep now x = ground arith

revoke_row_revokes :
    (u : String) (keep : Option String) (now : ℕ) (x : Session)
    → x.user_id ≡ u
    → is_kept keep x ≡ false
    → x.revoked_at ≡ none
    → revoke_row u keep now x ≡ record x { revoked_at = some now }
unfolding revoke_row
revoke_row_revokes u keep now x same other live =
    let same' = same_text_refl same in let live' = ap is_some live in ground arith

revoke_row_keeps :
    (u : String) (keep : Option String) (now : ℕ) (x : Session)
    → (x.user_id ≢ u) ⊎ (is_kept keep x ≡ true) ⊎ (is_some x.revoked_at ≡ true)
    → revoke_row u keep now x ≡ x
unfolding revoke_row
revoke_row_keeps u keep now x (inl apart) = rw (same_text_apart apart) refl
revoke_row_keeps u keep now x (inr (inl kept)) = ground arith
revoke_row_keeps u keep now x (inr (inr ended)) = ground arith

find-revoke_others :
    (u : String) (keep : Option String) (now : ℕ) (i : String) (xs : List Session) {x : Session}
    → find session_key i xs ≡ some x
    → find session_key i (revoke_others u keep now xs) ≡ some (revoke_row u keep now x)
unfolding find revoke_others
find-revoke_others u keep now i [] h = cc
find-revoke_others u keep now i (q ∷ qs) h = elim (string_discrete q.id i) [
  | yes p ↦
      let same = some-injective _ _ (rw (if_pos _ p) at h) in
      rw (if_pos _ (revoke_row-id u keep now q ∙ p)) (ap (λ y. some (revoke_row u keep now y)) same)
  | no n ↦
      rw (if_neg _ (λ e. n (sym (revoke_row-id u keep now q) ∙ e)))
        (find-revoke_others u keep now i qs (rw (if_neg _ n) at h))
]

change-IsRevoked :
    (hasher : Hasher) (salt : ℕ) (u current new : String) (keep : Option String) (now : ℕ)
    (i : String) (s : Store)
    → IsRevoked i s
    → IsRevoked i (store_after (change_password hasher salt u current new keep now s) s)
unfolding change_password change_found revoke_row
change-IsRevoked hasher salt u current new keep now i s r =
    elim (Option-cases (find user_key u s.users)) [
      | inl missing ↦ rw (missing, store_after) r
      | inr (user, found) ↦ elim (Bool-cases (hasher.verify user.password_hash current)) [
        | inr wrong ↦ rw (found, wrong, store_after) r
        | inl right ↦
            let (x, stored, revoked) = r in
            rw (found, right, store_after)
              (
                revoke_row user.id keep now x,
                find-revoke_others user.id keep now i s.sessions stored,
                ground arith,
              )
      ]
    ]

module _ (hasher : Hasher) where
  apply-IsRevoked :
      (c : Call) (i : String) (s : Store) → IsRevoked i s → IsRevoked i (apply hasher c s)
  unfolding apply
  apply-IsRevoked (open_session j u now) i s = open-IsRevoked j u now i s
  apply-IsRevoked (revoke j now) i s = revoke-IsRevoked j now i s
  apply-IsRevoked (new_password salt u current new keep now) i s =
      change-IsRevoked hasher salt u current new keep now i s

  run-IsRevoked :
      (cs : List Call) (i : String) (s : Store) → IsRevoked i s → IsRevoked i (run hasher cs s)
  unfolding run
  run-IsRevoked [] i s r = r
  run-IsRevoked (c ∷ cs) i s r = run-IsRevoked cs i (apply hasher c s) (apply-IsRevoked c i s r)

  -- A revoked session is refused at any time, after any sessions are opened or revoked and any
  -- passwords changed.
  pub revoked_stays_refused :
      (cs : List Call) (i : String) (now : ℕ) (s : Store)
      → IsRevoked i s
      → resolve_session hasher i now (run hasher cs s) ≡ err session_not_found
  unfolding resolve_session resolve_found
  revoked_stays_refused cs i now s r =
      let (x, stored, revoked) = run-IsRevoked cs i s r in ground arith

  changed_sessions :
      (salt : ℕ) (u current new : String) (keep : Option String) (now : ℕ) (s : Store) {user : User}
      {s' : Store}
      → change_password hasher salt u current new keep now s ≡ ok user s'
      → s'.sessions ≡ revoke_others u keep now s.sessions
  unfolding change_password change_found
  changed_sessions salt u current new keep now s {s' = s'} h =
      elim (Option-cases (find user_key u s.users)) [
        | inl missing ↦ cc (rw (missing, change_password) at h)
        | inr (user, found) ↦ ground (arith, find-key user_key u s.users found)
      ]

  -- A change of password that succeeds revokes, at the time of the change, every live session of that
  -- user but the one to keep, and leaves every other session as it was: the one to keep, those that
  -- were revoked before, and those of other users.
  pub change_password_sessions :
      (salt : ℕ) (u current new : String) (keep : Option String) (now : ℕ) (s : Store) {user : User}
      {s' : Store} (i : String) {x : Session}
      → change_password hasher salt u current new keep now s ≡ ok user s'
      → find session_key i s.sessions ≡ some x
      → ((x.user_id ≡ u)
          → is_kept keep x ≡ false
          → x.revoked_at ≡ none
          → find session_key i s'.sessions ≡ some (record x { revoked_at = some now }))
        × ((x.user_id ≢ u) ⊎ (is_kept keep x ≡ true) ⊎ (is_some x.revoked_at ≡ true)
            → find session_key i s'.sessions ≡ some x)
  change_password_sessions salt u current new keep now s {user = user} {s' = s'} i {x = x} h
        stored =
      let e = changed_sessions salt u current new keep now s h in
      let f = find-revoke_others u keep now i s.sessions stored in
      (
        λ same other live.
            ap (find session_key i) e
            ∙ f
            ∙ ap some (revoke_row_revokes u keep now x same other live),
        λ apart. ap (find session_key i) e ∙ f ∙ ap some (revoke_row_keeps u keep now x apart),
      )
