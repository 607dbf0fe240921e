-- ===== src/Auth/Roles.antt =====
-- The roles of auth_service.py.
use llama_web_ui.Prelude.{
  same_text, contains, String, Bool, true, false, ◌||◌, ◌&&◌, not, Option, none, some, List, [],
  ◌∷◌, ◌++◌, any, all, length, ◌==◌, if◌then◌else◌,
}
use llama_web_ui.Prelude.Table.{find, store, delete}
use llama_web_ui.Auth.State.{
  Role, User, Store, role_key, Outcome, ok, err, role_not_found, role_protected,
  role_already_exists, role_in_use, invalid_privileges, last_administrator, Text,
}
use llama_web_ui.Auth.Privileges.{privilege_keys}

-- `tuple(dict.fromkeys(privileges))`: each key once, in the order of its first occurrence.
unfoldable pub from_keys : List String → List String → List String
from_keys seen [] = []
from_keys seen (k ∷ ks) =
    let again = from_keys seen ks in
    let first = k ∷ from_keys (k ∷ seen) ks in if contains seen k then again else first

abbrev pub is_subset : List String → List String → Bool
is_subset xs ys = all (contains ys) xs

-- `_validate_privileges`; `none` is the error.
unfoldable pub validate_privileges : List String → Option (List String)
validate_privileges privileges =
    let clean = from_keys [] privileges in
    if not (length clean == length privileges) || not (is_subset clean privilege_keys)
    then none
    else some clean

-- `set(privileges) == set(PRIVILEGE_KEYS)`.
unfoldable pub is_full_privilege_set : List String → Bool
is_full_privilege_set ps = is_subset ps privilege_keys && is_subset privilege_keys ps

abbrev pub role_is_administrator : Option Role → Bool
role_is_administrator none = is_full_privilege_set []
role_is_administrator (some r) = r.protected || is_full_privilege_set r.privileges

-- `_is_administrator`.
unfoldable pub is_administrator : List Role → String → Bool
is_administrator roles role_id = role_is_administrator (find role_key role_id roles)

-- `select(RoleRecord).where(name == …, id != …)` finds a row.
abbrev pub name_taken : String → Option String → List Role → Bool
name_taken name own =
    any (λ r. same_text r.name name && elim own [ none ↦ true | some i ↦ not (same_text r.id i) ])

abbrev commit_roles : Role → List Role → Store → Outcome Role
commit_roles role roles s = ok role (record s { roles = roles })

unfoldable pub create_role :
    Text → String → String → Option String → List String → Store → Outcome Role
create_role text new_id name description privileges s = elim (validate_privileges privileges) [
  | none ↦ err invalid_privileges
  | some clean ↦
      let clean_name = text.strip name in
      if name_taken clean_name none s.roles
      then err role_already_exists
      else (let role : Role = record {
        id = new_id;
        name = clean_name;
        description = description;
        protected = false;
        privileges = clean;
      } in
          commit_roles role (s.roles ++ (role ∷ [])) s)
]

-- `update_role`, for the role that was found.
unfoldable pub update_found_role :
    Text → String → Option String → List String → Store → Role → Outcome Role
update_found_role text name description clean s role =
    if role.protected
    then err role_protected
    else if name_taken (text.strip name) (some role.id) s.roles
    then err role_already_exists
    else if is_administrator s.roles role.id && not (is_full_privilege_set clean)
    then err last_administrator
    else (let role' : Role = record role {
      name = text.strip name;
      description = description;
      privileges = clean;
    } in
        commit_roles role' (store role_key role' s.roles) s)

unfoldable pub update_role :
    Text → String → String → Option String → List String → Store → Outcome Role
update_role text role_id name description privileges s = elim (validate_privileges privileges) [
  | none ↦ err invalid_privileges
  | some clean ↦ elim (find role_key role_id s.roles) [
    | none ↦ err role_not_found
    | some role ↦ update_found_role text name description clean s role
  ]
]

abbrev pub has_role : String → User → Bool
has_role i u = same_text u.role_id i

-- `delete_role`, for the role that was found.
unfoldable pub delete_found_role : Store → Role → Outcome Role
delete_found_role s role =
    if role.protected
    then err role_protected
    else if any (has_role role.id) s.users
    then err role_in_use
    else commit_roles role (delete role_key role.id s.roles) s

unfoldable pub delete_role : String → Store → Outcome Role
delete_role role_id s = elim (find role_key role_id s.roles) [
  | none ↦ err role_not_found
  | some role ↦ delete_found_role s role
]
