-- ===== src/Auth/Administrators/Count.antt =====
-- The number of administrators when roles change.
use llama_web_ui.Prelude.{
  contains, ℕ, ◌≤◌, ◌≡◌, refl, ◌∙◌, subst, inl, inr, String, true, false, some, List, [], ◌∷◌, ◌++◌,
  any, sum_of, arith, Option-cases, string_discrete,
}
use llama_web_ui.Prelude.Table.{
  find, store, delete, find-store_self, find-store_ne, find-delete_ne, find-append,
}
use llama_web_ui.Auth.State.{Role, User, Store, role_key, Outcome, store_after}
use llama_web_ui.Auth.Privileges.{privilege_keys, privilege_key}
use llama_web_ui.Auth.Roles.{
  is_administrator, is_full_privilege_set, role_is_administrator, has_role,
}
use llama_web_ui.Auth.Users.{administrator_count, count_if}

-- A role without privileges is no administrator.
pub empty_is_not_full : is_full_privilege_set [] ≡ false
unfolding is_full_privilege_set privilege_keys contains privilege_key
empty_is_not_full = refl

abbrev pub is_admin : List Role → User → ℕ
is_admin roles u = count_if (is_administrator roles u.role_id)

-- Roles that keep every administrator keep the count.
abbrev pub Keeps : List Role → List Role → Type 0
Keeps roles roles' =
    (i : String) → is_administrator roles i ≡ true → is_administrator roles' i ≡ true

pub count_mono :
    (roles roles' : List Role) (us : List User)
    → Keeps roles roles'
    → sum_of (is_admin roles) us ≤ sum_of (is_admin roles') us
count_mono roles roles' [] k = omega arith
count_mono roles roles' (u ∷ us) k = ground (arith, k u.role_id, count_mono roles roles' us k)

pub found_administrator :
    (roles : List Role) (i : String)
    → is_administrator roles i ≡ true
    → (r : Role) × (find role_key i roles ≡ some r) × (role_is_administrator (some r) ≡ true)
unfolding is_administrator
found_administrator roles i h = elim (Option-cases (find role_key i roles)) [
  | inl missing ↦ absurd (ground (arith, empty_is_not_full))
  | inr (r, found) ↦ (r, found, ground arith)
]

pub append-Keeps : (roles : List Role) (r : Role) → Keeps roles (roles ++ (r ∷ []))
unfolding is_administrator
append-Keeps roles r i h =
    let (q, found, admin) = found_administrator roles i h in
    rw (find-append role_key i roles (r ∷ []) found) admin

pub update-Keeps :
    (roles : List Role) (role role' : Role)
    → find role_key role.id roles ≡ some role
    → role'.id ≡ role.id
    → (is_administrator roles role.id ≡ true → is_full_privilege_set role'.privileges ≡ true)
    → Keeps roles (store role_key role' roles)
unfolding is_administrator
update-Keeps roles role role' found same full i h = elim (string_discrete i role.id) [
  | yes p ↦
      rw (p, find-store_self role_key role.id roles role' found same)
        (ground (arith, full (subst (λ x. is_administrator roles x ≡ true) p h)))
  | no n ↦ rw (find-store_ne role_key i roles role' (λ e. n (e ∙ same))) h
]

pub delete-count :
    (roles : List Role) (i : String) (us : List User)
    → any (has_role i) us ≡ false
    → sum_of (is_admin (delete role_key i roles)) us ≡ sum_of (is_admin roles) us
unfolding is_administrator
delete-count roles i [] h = refl
delete-count roles i (u ∷ us) h = elim (string_discrete u.role_id i) [
  | yes p ↦ absurd (ground arith)
  | no n ↦ rw (find-delete_ne role_key u.role_id i roles n, delete-count roles i us (ground arith))
]

-- An outcome that leaves an administrator.
abbrev pub Safe : Store → Outcome User → Type 0
Safe s o = 1 ≤ administrator_count s → 1 ≤ administrator_count (store_after o s)

abbrev pub SafeRole : Store → Outcome Role → Type 0
SafeRole s o = 1 ≤ administrator_count s → 1 ≤ administrator_count (store_after o s)
