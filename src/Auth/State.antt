-- ===== src/Auth/State.antt =====
-- The tables of accounts (models.py), as lists of rows. The grants of a role, rows of a table of
-- their own that is deleted with the role, are a list in the role. Times are whole seconds.
use llama_web_ui.Prelude.{ℕ, String, Bool, Option, List}

pub record Role : Type 0 where
  pub id : String
  pub name : String
  pub description : Option String
  pub protected : Bool
  pub privileges : List String

pub record User : Type 0 where
  pub id : String
  pub username : String
  pub password_hash : String
  pub description : Option String
  pub role_id : String

pub record Session : Type 0 where
  pub id : String
  pub user_id : String
  pub expires_at : ℕ
  pub revoked_at : Option ℕ

pub record Store : Type 0 where
  pub roles : List Role
  pub users : List User
  pub sessions : List Session

abbrev pub role_key : Role → String
role_key r = r.id

abbrev pub user_key : User → String
user_key u = u.id

abbrev pub session_key : Session → String
session_key s = s.id

pub data AuthError : Type 0 where
  authentication_error session_not_found user_already_exists role_already_exists : AuthError
  role_not_found role_protected role_in_use invalid_privileges last_administrator : AuthError
  protected_user administrator_role_missing : AuthError

-- A method that raises commits nothing, so an error comes without tables.
pub data Outcome (A : Type 0) : Type 0 where
  ok : A → Store → Outcome A
  err : AuthError → Outcome A

abbrev pub store_after : {A : Type 0} → Outcome A → Store → Store
store_after (ok a s') s = s'
store_after (err e) s = s

-- argon2's `PasswordHasher`: `hash` draws its salt, which is given here, and what the code relies
-- on is that a hash verifies its own password.
pub record Hasher : Type 0 where
  pub hash : ℕ → String → String
  pub verify : String → String → Bool
  pub needs_rehash : String → Bool

-- What the standard library answers: `str.strip`.
pub record Text : Type 0 where
  pub strip : String → String
