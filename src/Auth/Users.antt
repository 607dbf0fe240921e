-- ===== src/Auth/Users.antt =====
-- The accounts of auth_service.py. Passwords go through argon2, the parameter `Hasher`; each new
-- hash is given its salt, and each new row its identifier.
use llama_web_ui.Prelude.{
  same_text, ℕ, String, Bool, true, false, ◌&&◌, not, Option, none, some, List, [], ◌∷◌, ◌++◌, leb,
  sum_of, if◌then◌else◌,
}
use llama_web_ui.Prelude.Table.{find, store, delete}
use llama_web_ui.Auth.State.{
  Role, User, Session, Store, role_key, user_key, Outcome, ok, err, authentication_error,
  user_already_exists, role_not_found, last_administrator, protected_user, Hasher, Text,
}
use llama_web_ui.Auth.Roles.{is_administrator}

abbrev pub default_admin_username : String
default_admin_username = "admin"

abbrev pub default_admin_password : String
default_admin_password = "admin"

-- `select(…).where(username == …)`: the first row, of the one at most.
unfoldable pub find_by_name : String → List User → Option User
find_by_name name [] = none
find_by_name name (u ∷ us) = if same_text u.username name then some u else find_by_name name us

unfoldable pub role_by_name : String → List Role → Option Role
role_by_name name [] = none
role_by_name name (r ∷ rs) = if same_text r.name name then some r else role_by_name name rs

abbrev pub count_if : Bool → ℕ
count_if true = 1
count_if false = 0

-- `_administrator_count`.
unfoldable pub administrator_count : Store → ℕ
administrator_count s = sum_of (λ u. count_if (is_administrator s.roles u.role_id)) s.users

-- `role_id or …`: the role that is asked for, or the one named "Administrator".
unfoldable pub selected_role : Option String → List Role → Option Role
selected_role none roles = role_by_name "Administrator" roles
selected_role (some i) roles =
    if same_text i "" then role_by_name "Administrator" roles else find role_key i roles

unfoldable pub create_managed_user :
    Text
    → Hasher
    → String
    → ℕ
    → String
    → String
    → Option String
    → Option String
    → Store
    → Outcome User
create_managed_user text hasher new_id salt username password description role_id s =
    let clean_username = text.strip username in
    elim (find_by_name clean_username s.users) [
      | some _ ↦ err user_already_exists
      | none ↦ elim (selected_role role_id s.roles) [
        | none ↦ err role_not_found
        | some role ↦
            let user : User = record {
              id = new_id;
              username = clean_username;
              password_hash = hasher.hash salt password;
              description = description;
              role_id = role.id;
            } in
            ok user (record s { users = s.users ++ (user ∷ []) })
      ]
    ]

-- `user.password_hash = …` and the commit: `UPDATE users SET password_hash = … WHERE id = …`.
unfoldable pub set_password : String → String → List User → List User
set_password i hash [] = []
set_password i hash (u ∷ us) =
    (if same_text u.id i then record u { password_hash = hash } else u) ∷ set_password i hash us

-- `authenticate`, for the user that was found.
unfoldable pub authenticate_user : Hasher → ℕ → String → Store → User → Outcome User
authenticate_user hasher salt password s user =
    if not (hasher.verify user.password_hash password)
    then err authentication_error
    else if hasher.needs_rehash user.password_hash
    then (let hash = hasher.hash salt password in
        ok (record user { password_hash = hash })
          (record s { users = set_password user.id hash s.users }))
    else ok user s

unfoldable pub authenticate : Text → Hasher → ℕ → String → String → Store → Outcome User
authenticate text hasher salt username password s =
    elim (find_by_name (text.strip username) s.users) [
      | none ↦ err authentication_error
      | some user ↦ authenticate_user hasher salt password s user
    ]

-- `update_user`, for the user that was found.
unfoldable pub update_found_user : Option String → String → Store → User → Outcome User
update_found_user description role_id s user = elim (find role_key role_id s.roles) [
  | none ↦ err role_not_found
  | some _ ↦
      if not (same_text user.role_id role_id)
        && (is_administrator s.roles user.role_id && leb (administrator_count s) 1)
      then err last_administrator
      else (let user' : User = record user { description = description; role_id = role_id } in
          ok user' (record s { users = store user_key user' s.users }))
]

unfoldable pub update_user : String → Option String → String → Store → Outcome User
update_user user_id description role_id s = elim (find user_key user_id s.users) [
  | none ↦ err authentication_error
  | some user ↦ update_found_user description role_id s user
]

-- `delete(SessionRecord).where(user_id == …)`.
unfoldable pub without_user : String → List Session → List Session
without_user i [] = []
without_user i (x ∷ xs) =
    let rest = without_user i xs in if same_text x.user_id i then rest else x ∷ rest

-- `delete_user`, for the user that was found.
unfoldable pub delete_found_user : String → Store → User → Outcome User
delete_found_user requesting_user_id s user =
    if same_text user.username default_admin_username
    then err protected_user
    else if same_text user.id requesting_user_id
    then err protected_user
    else if is_administrator s.roles user.role_id && leb (administrator_count s) 1
    then err last_administrator
    else ok user (record s {
      users = delete user_key user.id s.users;
      sessions = without_user user.id s.sessions;
    })

unfoldable pub delete_user : String → String → Store → Outcome User
delete_user user_id requesting_user_id s = elim (find user_key user_id s.users) [
  | none ↦ err authentication_error
  | some user ↦ delete_found_user requesting_user_id s user
]
