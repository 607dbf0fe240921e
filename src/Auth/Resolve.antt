-- ===== src/Auth/Resolve.antt =====
-- Which session stands for whom (services/auth_service.py).
use llama_web_ui.Prelude.{
  refl, sym, ap, subst, Option, [], ℕ, ◌<◌, ◌≡◌, ◌↔◌, inl, inr, String, none, some, arith,
  Option-cases,
}
use llama_web_ui.Prelude.Table.{find}
use llama_web_ui.Auth.State.{
  Role, role_key, User, Session, Store, user_key, session_key, ok, Hasher,
}
use llama_web_ui.Auth.Sessions.{
  role_name, role_privileges, AuthenticatedUser, authenticated_user, resolve_found, resolve_session,
}

-- A session that `resolve_session` may answer for at a time.
pub record IsLive (i : String) (now : ℕ) (s : Store) (x : Session) (user : User) : Type 0 where
  pub stored : find session_key i s.sessions ≡ some x
  pub unrevoked : x.revoked_at ≡ none
  pub unexpired : now < x.expires_at
  pub owned : find user_key x.user_id s.users ≡ some user

-- What the answer tells of the user's role: its name and privileges, or that it is unknown.
pub data HasRole (a : AuthenticatedUser) : Option Role → Type 0 where
  of_role : {r : Role} → a.role_name ≡ r.name → a.privileges ≡ r.privileges → HasRole a (some r)
  of_no_role : a.role_name ≡ "Unknown" → a.privileges ≡ [] → HasRole a none

-- The answer is about the user, with the role that the table has for the user now.
pub record Describes (hasher : Hasher) (s : Store) (user : User) (a : AuthenticatedUser)
    : Type 0 where
  pub same_id : a.id ≡ user.id
  pub same_name : a.username ≡ user.username
  pub same_description : a.description ≡ user.description
  pub same_role : a.role_id ≡ user.role_id
  pub defaults : a.default_credentials ≡ hasher.verify user.password_hash "admin"
  pub role : HasRole a (find role_key user.role_id s.roles)

role-HasRole :
    (hasher : Hasher) (s : Store) (user : User) (o : Option Role)
    → find role_key user.role_id s.roles ≡ o
    → HasRole (authenticated_user hasher s user) o
unfolding authenticated_user
role-HasRole hasher s user none e = of_no_role (ap role_name e) (ap role_privileges e)
role-HasRole hasher s user (some r) e = of_role (ap role_name e) (ap role_privileges e)

authenticated_user-Describes :
    (hasher : Hasher) (s : Store) (user : User)
    → Describes hasher s user (authenticated_user hasher s user)
authenticated_user-Describes hasher s user = record {
  same_id = unfold authenticated_user in refl;
  same_name = unfold authenticated_user in refl;
  same_description = unfold authenticated_user in refl;
  same_role = unfold authenticated_user in refl;
  defaults = unfold authenticated_user in refl;
  role = role-HasRole hasher s user (find role_key user.role_id s.roles) refl;
}

HasRole-role :
    (a : AuthenticatedUser) (o : Option Role)
    → HasRole a o
    → (a.role_name ≡ role_name o) × (a.privileges ≡ role_privileges o)
HasRole-role a o (of_role n p) = (n, p)
HasRole-role a o (of_no_role n p) = (n, p)

Describes-unique :
    (hasher : Hasher) (s : Store) (user : User) (a : AuthenticatedUser)
    → Describes hasher s user a
    → a ≡ authenticated_user hasher s user
unfolding authenticated_user
Describes-unique hasher s user a d =
    let (n, p) = HasRole-role a (find role_key user.role_id s.roles) d.role in
    ground (arith, n, p, d.same_id, d.same_name, d.same_description, d.same_role, d.defaults)

live_resolves :
    (hasher : Hasher) (i : String) (now : ℕ) (s : Store) {x : Session} {user : User}
    → IsLive i now s x user
    → resolve_session hasher i now s ≡ ok (authenticated_user hasher s user) s
unfolding resolve_session resolve_found
live_resolves hasher i now s l = ground arith

resolve_session-IsLive :
    (hasher : Hasher) (i : String) (now : ℕ) (s : Store) {a : AuthenticatedUser} {s' : Store}
    → resolve_session hasher i now s ≡ ok a s'
    → (x : Session) × (user : User) × IsLive i now s x user
      × (a ≡ authenticated_user hasher s user)
      × (s' ≡ s)
unfolding resolve_session resolve_found
resolve_session-IsLive hasher i now s {a = a} h =
    elim (Option-cases (find session_key i s.sessions)) [
      | inl missing ↦ cc (rw (missing, resolve_session) at h)
      | inr (x, found) ↦ elim (Option-cases (find user_key x.user_id s.users)) [
        | inl orphan ↦ absurd (ground arith)
        | inr (user, owner) ↦ (x, user, ground arith, ground arith, ground arith)
      ]
    ]

-- A session resolves exactly while its row is stored, is not revoked, has not expired and has a
-- user; the answer then has the fields of that user, whether the password is the default one, and the
-- name and privileges of the role that the table has for the user at that moment, or none for a role
-- that is missing, and nothing is changed.
pub resolve_session_iff :
    (hasher : Hasher) (i : String) (now : ℕ) (s : Store) (a : AuthenticatedUser) (s' : Store)
    → (resolve_session hasher i now s ≡ ok a s') ↔ (
        (x : Session) × (user : User) × IsLive i now s x user
        × Describes hasher s user a
        × (s' ≡ s))
resolve_session_iff hasher i now s a s' = (
  λ h.
      let (x, user, live, e, same) = resolve_session-IsLive hasher i now s h in
      (
        x,
        user,
        live,
        subst (Describes hasher s user) (sym e) (authenticated_user-Describes hasher s user),
        same,
      ),
  λ l.
      let (x, user, live, d, same) = l in
      rw (Describes-unique hasher s user a d, same) (live_resolves hasher i now s live),
)
