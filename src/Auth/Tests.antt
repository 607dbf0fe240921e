-- ===== src/Auth/Tests.antt =====
-- Accounts, roles and sessions at concrete inputs.
use text.Mathlib.Text.{starts_with}
use mathlib.Core.Logic.{ite, if_pos}
use llama_web_ui.Prelude.{
  is_some, map, length, contains, ◌≤◌, ◌≡◌, ◌≢◌, ◌⊎◌, ◌↔◌, refl, String, true, false, none, some,
  [], ◌∷◌, arith, string_discrete,
}
use llama_web_ui.Prelude.Table.{find}
use llama_web_ui.Auth.State.{
  Role, User, Session, Store, store_after, ok, err, session_key, session_not_found, Hasher, Text,
}
use llama_web_ui.Auth.Privileges.{
  starts_or_stops, key_of, privilege_for_request, Fits, privilege_for_request-Fits, public_paths,
}
use llama_web_ui.Auth.Roles.{is_administrator}
use llama_web_ui.Auth.Users.{administrator_count, role_by_name, authenticate}
use llama_web_ui.Auth.Sessions.{
  authenticated_user, resolve_session, change_password, change_found, ensure_default_admin, is_kept,
}
use llama_web_ui.Auth.Administrators.{administrators_remain, drop_user, change_user}
use llama_web_ui.Auth.Administrators
use llama_web_ui.Auth.Access.{
  IsRevoked, revoked_stays_refused, change_password_sessions, open_session, new_password,
}
use llama_web_ui.Auth.Resolve.{IsLive, Describes, resolve_session_iff}
use llama_web_ui.Auth.Access
use llama_web_ui.Auth.HashCache.{ask_all, ask_all_lem}
use llama_web_ui.Auth.Startup.{first_run_logs_in}

abbrev plain : Text
plain = record { strip = λ s. s }

-- A hash that is the password.
abbrev open_hasher : Hasher
open_hasher = record {
  hash = λ salt p. p;
  verify = λ h p. ite (string_discrete h p) true false;
  needs_rehash = λ h. false;
}

abbrev administrators : Role
administrators = record {
  id = "r1";
  name = "Administrator";
  description = none;
  protected = true;
  privileges = [];
}

abbrev admin : User
admin = record {
  id = "u1";
  username = "admin";
  password_hash = "admin";
  description = none;
  role_id = "r1";
}

abbrev ann : User
ann = record {
  id = "u2";
  username = "ann";
  password_hash = "pw";
  description = none;
  role_id = "r1";
}

abbrev open_row : Session
open_row = record { id = "s1"; user_id = "u2"; expires_at = 100; revoked_at = none }

abbrev ended_row : Session
ended_row = record { id = "s2"; user_id = "u2"; expires_at = 100; revoked_at = some 5 }

abbrev two_users : Store
two_users = record {
  roles = administrators ∷ [];
  users = admin ∷ ann ∷ [];
  sessions = open_row ∷ ended_row ∷ [];
}

abbrev no_users : Store
no_users = record { roles = administrators ∷ []; users = []; sessions = ended_row ∷ [] }

users_path_is_closed : contains public_paths "/api/users" ≡ false
unfolding contains string_discrete
users_path_is_closed = refl

privilege_for_request-Fits_example :
    let k =
      key_of
        (starts_or_stops "/api/users")
        (starts_with "/api/users" "/api/benchmarks")
        "/api/users"
        "DELETE" in
    (privilege_for_request "/api/users" "DELETE" ≡ some k) × Fits "/api/users" "DELETE" k
privilege_for_request-Fits_example =
    privilege_for_request-Fits "/api/users" "DELETE" users_path_is_closed

two_administrators : 1 ≤ administrator_count two_users
unfolding administrator_count is_administrator find string_discrete
two_administrators = omega arith

administrators_remain_example :
    1
    ≤ administrator_count (
        Administrators.run plain open_hasher
          (drop_user "u2" "u1" ∷ change_user "u1" none "r2" ∷ [])
          two_users)
administrators_remain_example =
    administrators_remain plain open_hasher (drop_user "u2" "u1" ∷ change_user "u1" none "r2" ∷ [])
      two_users two_administrators

resolve_session_iff_example :
    (resolve_session open_hasher "s1" 50 two_users
      ≡ ok (authenticated_user open_hasher two_users ann) two_users)
    ↔ ((x : Session) × (u : User) × IsLive "s1" 50 two_users x u
        × Describes open_hasher two_users u (authenticated_user open_hasher two_users ann)
        × (two_users ≡ two_users))
resolve_session_iff_example =
    resolve_session_iff open_hasher "s1" 50 two_users (authenticated_user open_hasher two_users ann)
      two_users

ended_row-IsRevoked : IsRevoked "s2" two_users
unfolding find string_discrete
ended_row-IsRevoked = (ended_row, refl, refl)

revoked_stays_refused_example :
    resolve_session open_hasher "s2" 60 (
      Access.run open_hasher
        (open_session "s3" "u2" 50 ∷ new_password 0 "u2" "pw" "new" (some "s2") 55 ∷ [])
        two_users)
    ≡ err session_not_found
revoked_stays_refused_example =
    revoked_stays_refused open_hasher
      (open_session "s3" "u2" 50 ∷ new_password 0 "u2" "pw" "new" (some "s2") 55 ∷ []) "s2" 60
      two_users ended_row-IsRevoked

abbrev changed : Store
changed = store_after (change_password open_hasher 0 "u2" "pw" "new" none 55 two_users) two_users

abbrev ann_new : User
ann_new = record ann { password_hash = "new" }

password_is_changed :
    change_password open_hasher 0 "u2" "pw" "new" none 55 two_users ≡ ok ann_new changed
unfolding change_password change_found find string_discrete
password_is_changed = refl

s1_is_stored : find session_key "s1" two_users.sessions ≡ some open_row
unfolding find string_discrete
s1_is_stored = refl

change_password_sessions_example :
    ((open_row.user_id ≡ "u2")
      → is_kept none open_row ≡ false
      → open_row.revoked_at ≡ none
      → find session_key "s1" changed.sessions ≡ some (record open_row { revoked_at = some 55 }))
    × ((open_row.user_id ≢ "u2")
          ⊎ (is_kept none open_row ≡ true)
          ⊎ (is_some open_row.revoked_at ≡ true)
        → find session_key "s1" changed.sessions ≡ some open_row)
change_password_sessions_example =
    change_password_sessions open_hasher 0 "u2" "pw" "new" none 55 two_users "s1"
      password_is_changed s1_is_stored

same_text_refl : (a : String) → ite (string_discrete a a) true false ≡ true
same_text_refl a = if_pos (string_discrete a a) refl true false

administrator_is_named : role_by_name "Administrator" no_users.roles ≡ some administrators
unfolding role_by_name string_discrete
administrator_is_named = refl

first_run_logs_in_example :
    (u : User) × (s' : Store) × (authenticate plain open_hasher 0 "admin" "admin"
        (store_after (ensure_default_admin open_hasher "u1" 0 1000 no_users) no_users)
      ≡ ok u s')
    × (u.role_id ≡ "r1")
first_run_logs_in_example =
    first_run_logs_in plain open_hasher "u1" 0 0 1000 no_users administrators refl
      (λ n p. same_text_refl p) refl administrator_is_named

ask_all_lem_example :
    ((ask_all open_hasher ("admin" ∷ "pw" ∷ "admin" ∷ []) []).answers
      ≡ map (λ h. open_hasher.verify h "admin") ("admin" ∷ "pw" ∷ "admin" ∷ []))
    × (length (ask_all open_hasher ("admin" ∷ "pw" ∷ "admin" ∷ []) []).cache ≤ 256)
ask_all_lem_example = ask_all_lem open_hasher ("admin" ∷ "pw" ∷ "admin" ∷ [])
