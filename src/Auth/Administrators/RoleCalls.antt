-- ===== src/Auth/Administrators/RoleCalls.antt =====
-- The methods on roles, and the number of administrators.
use native.Mathlib.Nat.{le_trans}
use llama_web_ui.Prelude.{
  ◌≡◌, refl, sym, subst, inl, inr, String, false, ◌&&◌, not, Option, none, some, List, [], ◌∷◌,
  ◌++◌, any, arith, Bool-cases, Option-cases,
}
use llama_web_ui.Prelude.Table.{find, store, find-key}
use llama_web_ui.Auth.State.{Role, Store, role_key, store_after, Text}
use llama_web_ui.Auth.Roles.{
  is_administrator, is_full_privilege_set, create_role, update_role, update_found_role, delete_role,
  delete_found_role, validate_privileges, has_role, name_taken,
}
use llama_web_ui.Auth.Users.{administrator_count}
use llama_web_ui.Auth.Administrators.Count.{
  count_mono, append-Keeps, update-Keeps, delete-count, SafeRole,
}

pub create_role-Safe :
    (t : Text) (i n : String) (d : Option String) (ps : List String) (s : Store)
    → SafeRole s (create_role t i n d ps s)
unfolding create_role administrator_count
create_role-Safe t i n d ps s h = elim (Option-cases (validate_privileges ps)) [
  | inl bad ↦ rw (bad, store_after) h
  | inr (clean, valid) ↦ elim (Bool-cases (name_taken (t.strip n) none s.roles)) [
    | inl taken ↦ rw (valid, taken, store_after) h
    | inr free ↦
        let role : Role = record {
          id = i;
          name = t.strip n;
          description = d;
          protected = false;
          privileges = clean;
        } in
        rw (valid, free, store_after)
          (omega (
            arith,
            count_mono s.roles (s.roles ++ (role ∷ [])) s.users (append-Keeps s.roles role),
          ))
  ]
]

update_found_role-Safe :
    (t : Text) (n : String) (d : Option String) (clean : List String) (s : Store) (role : Role)
    → find role_key role.id s.roles ≡ some role
    → SafeRole s (update_found_role t n d clean s role)
unfolding update_found_role administrator_count
update_found_role-Safe t n d clean s role found h = elim (Bool-cases role.protected) [
  | inl p ↦ rw (p, store_after) h
  | inr open_role ↦ elim (Bool-cases (name_taken (t.strip n) (some role.id) s.roles)) [
    | inl taken ↦ rw (open_role, taken, store_after) h
    | inr free ↦
        elim (Bool-cases (is_administrator s.roles role.id && not (is_full_privilege_set clean))) [
          | inl last ↦ rw (open_role, free, last, store_after) h
          | inr fine ↦
              let role' : Role = record {
                id = role.id;
                name = t.strip n;
                description = d;
                protected = false;
                privileges = clean;
              } in
              let keeps = update-Keeps s.roles role role' found refl (λ a. ground arith) in
              rw (open_role, free, fine, store_after)
                (le_trans h (count_mono s.roles (store role_key role' s.roles) s.users keeps))
        ]
  ]
]

pub update_role-Safe :
    (t : Text) (i n : String) (d : Option String) (ps : List String) (s : Store)
    → SafeRole s (update_role t i n d ps s)
unfolding update_role
update_role-Safe t i n d ps s h = elim (Option-cases (validate_privileges ps)) [
  | inl bad ↦ rw (bad, store_after) h
  | inr (clean, valid) ↦ elim (Option-cases (find role_key i s.roles)) [
    | inl missing ↦ rw (valid, missing, store_after) h
    | inr (role, found) ↦
        let same = find-key role_key i s.roles found in
        rw (valid, found, store_after)
          (update_found_role-Safe t n d clean s role
            (subst (λ x. find role_key x s.roles ≡ some role) (sym same) found) h)
  ]
]

pub delete_role-Safe : (i : String) (s : Store) → SafeRole s (delete_role i s)
unfolding delete_role delete_found_role administrator_count
delete_role-Safe i s h = elim (Option-cases (find role_key i s.roles)) [
  | inl missing ↦ rw (missing, store_after) h
  | inr (role, found) ↦ elim (Bool-cases role.protected) [
    | inl p ↦ rw (found, p, store_after) h
    | inr open_role ↦ elim (Bool-cases (any (has_role role.id) s.users)) [
      | inl used ↦ rw (found, open_role, used, store_after) h
      | inr unused ↦
          rw (found, open_role, unused, store_after)
            (omega (arith, delete-count s.roles role.id s.users unused))
    ]
  ]
]
