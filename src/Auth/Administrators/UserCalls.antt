-- ===== src/Auth/Administrators/UserCalls.antt =====
-- The methods on accounts, and the number of administrators.
use llama_web_ui.Prelude.{
  same_text, ℕ, ◌≤◌, ◌≡◌, ◌<◌, ◌⊎◌, refl, sym, subst, inl, inr, String, false, ◌&&◌, not, Option,
  some, List, [], ◌∷◌, leb, sum_of, arith, Bool-cases, Option-cases,
}
use llama_web_ui.Prelude.Table.{
  find, store, delete, find-key, sum_of-store, sum_of-delete, sum_of-append,
}
use llama_web_ui.Auth.State.{
  Role, User, Session, Store, role_key, user_key, store_after, Hasher, Text,
}
use llama_web_ui.Auth.Roles.{is_administrator}
use llama_web_ui.Auth.Users.{
  administrator_count, default_admin_username, create_managed_user, authenticate, authenticate_user,
  set_password, update_user, update_found_user, delete_user, delete_found_user, find_by_name,
  selected_role,
}
use llama_web_ui.Auth.Administrators.Count.{is_admin, Safe}

pub create_managed_user-Safe :
    (t : Text) (hr : Hasher) (i : String) (salt : ℕ) (u p : String) (d r : Option String)
    (s : Store)
    → Safe s (create_managed_user t hr i salt u p d r s)
unfolding create_managed_user administrator_count
create_managed_user-Safe t hr i salt u p d r s h =
    elim (Option-cases (find_by_name (t.strip u) s.users)) [
      | inr (x, taken) ↦ rw (taken, store_after) h
      | inl free ↦ elim (Option-cases (selected_role r s.roles)) [
        | inl missing ↦ rw (free, missing, store_after) h
        | inr (role, found) ↦
            let user : User = record {
              id = i;
              username = t.strip u;
              password_hash = hr.hash salt p;
              description = d;
              role_id = role.id;
            } in
            rw (free, found, store_after)
              (omega (arith, sum_of-append user_key (is_admin s.roles) s.users (user ∷ [])))
      ]
    ]

-- Replacing a row keeps an administrator unless the row was the only one and stops being it.
store-Safe :
    (s : Store) (user user' : User)
    → find user_key user.id s.users ≡ some user
    → user'.id ≡ user.id
    → is_admin s.roles user ≤ is_admin s.roles user' ⊎ 1 < administrator_count s
    → 1 ≤ administrator_count s
    → 1 ≤ administrator_count (record s { users = store user_key user' s.users })
unfolding administrator_count
store-Safe s user user' found same c h =
    ground (arith, sum_of-store user_key (is_admin s.roles) user.id s.users user' found same)

pub update_user-Safe :
    (i : String) (d : Option String) (r : String) (s : Store) → Safe s (update_user i d r s)
unfolding update_user update_found_user
update_user-Safe i d r s h = elim (Option-cases (find user_key i s.users)) [
  | inl missing ↦ rw (missing, store_after) h
  | inr (user, found) ↦ elim (Option-cases (find role_key r s.roles)) [
    | inl missing ↦ rw (found, missing, store_after) h
    | inr (role, known) ↦
        elim (Bool-cases (
          not (same_text user.role_id r)
          && (is_administrator s.roles user.role_id && leb (administrator_count s) 1))) [
            | inl last ↦ rw (found, known, last, store_after) h
            | inr fine ↦
                let user' : User = record user { description = d; role_id = r } in
                let same = find-key user_key i s.users found in
                rw (found, known, fine, store_after)
                  (store-Safe s user user'
                    (subst (λ x. find user_key x s.users ≡ some user) (sym same) found) refl
                    (ground arith) h)
          ]
  ]
]

count-set_password :
    (roles : List Role) (i hash : String) (us : List User)
    → sum_of (is_admin roles) (set_password i hash us) ≡ sum_of (is_admin roles) us
unfolding set_password
count-set_password roles i hash [] = refl
count-set_password roles i hash (u ∷ us) = elim (Bool-cases (same_text u.id i)) [
  | inl same ↦ rw (same, count-set_password roles i hash us)
  | inr other ↦ rw (other, count-set_password roles i hash us)
]

pub authenticate-Safe :
    (t : Text) (hr : Hasher) (salt : ℕ) (u p : String) (s : Store)
    → Safe s (authenticate t hr salt u p s)
unfolding authenticate authenticate_user administrator_count
authenticate-Safe t hr salt u p s h = elim (Option-cases (find_by_name (t.strip u) s.users)) [
  | inl missing ↦ rw (missing, store_after) h
  | inr (user, found) ↦ elim (Bool-cases (hr.verify user.password_hash p)) [
    | inr wrong ↦ rw (found, wrong, store_after) h
    | inl right ↦ elim (Bool-cases (hr.needs_rehash user.password_hash)) [
      | inr fresh ↦ rw (found, right, fresh, store_after) h
      | inl old ↦
          rw (found, right, old, store_after)
            (rw (count-set_password s.roles user.id (hr.hash salt p) s.users) h)
    ]
  ]
]

delete-Safe :
    (s : Store) (user : User) (xs : List Session)
    → find user_key user.id s.users ≡ some user
    → is_administrator s.roles user.role_id && leb (administrator_count s) 1 ≡ false
    → 1 ≤ administrator_count s
    → 1 ≤ administrator_count (record s { users = delete user_key user.id s.users; sessions = xs })
unfolding administrator_count
delete-Safe s user xs found fine h =
    ground (arith, sum_of-delete user_key (is_admin s.roles) user.id s.users found)

pub delete_user-Safe : (i requester : String) (s : Store) → Safe s (delete_user i requester s)
unfolding delete_user delete_found_user
delete_user-Safe i requester s h = elim (Option-cases (find user_key i s.users)) [
  | inl missing ↦ rw (missing, store_after) h
  | inr (user, found) ↦ elim (Bool-cases (same_text user.username default_admin_username)) [
    | inl default ↦ rw (found, default, store_after) h
    | inr other ↦ elim (Bool-cases (same_text user.id requester)) [
      | inl self ↦ rw (found, other, self, store_after) h
      | inr another ↦
          elim (Bool-cases
            (is_administrator s.roles user.role_id && leb (administrator_count s) 1)) [
              | inl last ↦ rw (found, other, another, last, store_after) h
              | inr fine ↦
                  let same = find-key user_key i s.users found in
                  rw (found, other, another, fine, store_after)
                    (delete-Safe s user _
                      (subst (λ x. find user_key x s.users ≡ some user) (sym same) found) fine h)
            ]
    ]
  ]
]
