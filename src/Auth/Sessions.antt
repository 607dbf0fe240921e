-- ===== src/Auth/Sessions.antt =====
-- The sessions of auth_service.py, and the change of a password. Identifiers are given (the source
-- draws them at random), and so is the time.
use llama_web_ui.Prelude.{
  same_text, ℕ, ◌+◌, String, Bool, true, false, ◌||◌, ◌&&◌, not, Option, none, some, List, [], ◌∷◌,
  ◌++◌, leb, is_some, if◌then◌else◌,
}
use llama_web_ui.Prelude.Table.{find, store}
use llama_web_ui.Auth.State.{
  Role, User, Session, Store, role_key, user_key, session_key, Outcome, ok, err,
  authentication_error, session_not_found, administrator_role_missing, Hasher,
}
use llama_web_ui.Auth.Users.{
  set_password, role_by_name, default_admin_username, default_admin_password,
}

-- `SESSION_TTL`: seven days.
abbrev pub session_ttl : ℕ
session_ttl = 604_800

pub record AuthenticatedUser : Type 0 where
  pub id : String
  pub username : String
  pub default_credentials : Bool
  pub description : Option String
  pub role_id : String
  pub role_name : String
  pub privileges : List String

-- `_role_name` and `_privileges`.
abbrev pub role_name : Option Role → String
role_name none = "Unknown"
role_name (some r) = r.name

abbrev pub role_privileges : Option Role → List String
role_privileges none = []
role_privileges (some r) = r.privileges

-- `_authenticated_user`, with the answer of `_is_default_hash`.
unfoldable pub authenticated_user : Hasher → Store → User → AuthenticatedUser
authenticated_user hasher s user =
    let role = find role_key user.role_id s.roles in
    record {
      id = user.id;
      username = user.username;
      default_credentials = hasher.verify user.password_hash default_admin_password;
      description = user.description;
      role_id = user.role_id;
      role_name = role_name role;
      privileges = role_privileges role;
    }

unfoldable pub create_session : String → String → ℕ → Store → Outcome Session
create_session new_id user_id now s =
    let session : Session = record {
      id = new_id;
      user_id = user_id;
      expires_at = now + session_ttl;
      revoked_at = none;
    } in
    ok session (record s { sessions = s.sessions ++ (session ∷ []) })

-- `resolve_session`, for the session that was found.
unfoldable pub resolve_found : Hasher → ℕ → Store → Session → Outcome AuthenticatedUser
resolve_found hasher now s x =
    if is_some x.revoked_at
    then err session_not_found
    else if leb x.expires_at now
    then err session_not_found
    else elim (find user_key x.user_id s.users) [
      | none ↦ err session_not_found
      | some user ↦ ok (authenticated_user hasher s user) s
    ]

unfoldable pub resolve_session : Hasher → String → ℕ → Store → Outcome AuthenticatedUser
resolve_session hasher i now s = elim (find session_key i s.sessions) [
  | none ↦ err session_not_found
  | some x ↦ resolve_found hasher now s x
]

-- `revoke_session`, for the session that was found.
unfoldable pub revoke_found : ℕ → Store → Session → Outcome Session
revoke_found now s x =
    if is_some x.revoked_at
    then ok x s
    else (let x' : Session = record x { revoked_at = some now } in
        ok x' (record s { sessions = store session_key x' s.sessions }))

unfoldable pub revoke_session : String → ℕ → Store → Outcome Session
revoke_session i now s = elim (find session_key i s.sessions) [
  | none ↦ err session_not_found
  | some x ↦ revoke_found now s x
]

-- `record.id != keep_session_id`.
abbrev pub is_kept : Option String → Session → Bool
is_kept none x = false
is_kept (some k) x = same_text x.id k

-- The loop over the user's sessions that are not yet revoked.
unfoldable pub revoke_row : String → Option String → ℕ → Session → Session
revoke_row user_id keep now x =
    if same_text x.user_id user_id && (not (is_some x.revoked_at) && not (is_kept keep x))
    then record x { revoked_at = some now }
    else x

unfoldable pub revoke_others : String → Option String → ℕ → List Session → List Session
revoke_others user_id keep now [] = []
revoke_others user_id keep now (x ∷ xs) =
    revoke_row user_id keep now x ∷ revoke_others user_id keep now xs

-- `change_password`, for the user that was found.
unfoldable pub change_found :
    Hasher → ℕ → String → String → Option String → ℕ → Store → User → Outcome User
change_found hasher salt current new keep now s user =
    if not (hasher.verify user.password_hash current)
    then err authentication_error
    else (let hash = hasher.hash salt new in
        ok (record user { password_hash = hash })
          (record s {
            users = set_password user.id hash s.users;
            sessions = revoke_others user.id keep now s.sessions;
          }))

unfoldable pub change_password :
    Hasher → ℕ → String → String → String → Option String → ℕ → Store → Outcome User
change_password hasher salt user_id current new keep now s = elim (find user_key user_id s.users) [
  | none ↦ err authentication_error
  | some user ↦ change_found hasher salt current new keep now s user
]

-- `_purge_inactive_sessions`: the rows that its `delete` leaves.
unfoldable pub purge_inactive_sessions : ℕ → List Session → List Session
purge_inactive_sessions now [] = []
purge_inactive_sessions now (x ∷ xs) =
    let rest = purge_inactive_sessions now xs in
    if leb x.expires_at now || is_some x.revoked_at then rest else x ∷ rest

-- How a database session that changed tables is closed: with a commit, or without one, when what it
-- executed is undone.
pub data Closing : Type 0 where
  committed rolled_back : Closing

unfoldable pub closed : Closing → Store → Store → Store
closed committed working s = working
closed rolled_back working s = s

-- `ensure_default_admin`: the purge is executed first, on the tables the session works on; the
-- return for existing users closes the session without a commit.
unfoldable pub seed : Hasher → String → ℕ → Store → Store → Role → List User → Outcome Bool
seed hasher new_id salt working s administrator (_ ∷ _) = ok false (closed rolled_back working s)
seed hasher new_id salt working s administrator [] =
    let user : User = record {
      id = new_id;
      username = default_admin_username;
      password_hash = hasher.hash salt default_admin_password;
      description = none;
      role_id = administrator.id;
    } in
    ok true (closed committed (record working { users = user ∷ [] }) s)

unfoldable pub ensure_default_admin : Hasher → String → ℕ → ℕ → Store → Outcome Bool
ensure_default_admin hasher new_id salt now s =
    let working = record s { sessions = purge_inactive_sessions now s.sessions } in
    elim (role_by_name "Administrator" working.roles) [
      | none ↦ err administrator_role_missing
      | some administrator ↦ seed hasher new_id salt working s administrator working.users
    ]
