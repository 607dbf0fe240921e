-- ===== src/Auth/Startup.antt =====
-- What `ensure_default_admin` of auth_service.py does to the tables.
use llama_web_ui.Prelude.{
  ℕ, ◌≡◌, refl, ap, ◌∙◌, inl, inr, String, true, none, some, List, [], ◌∷◌, Option-cases, arith,
  Bool-cases,
}
use llama_web_ui.Auth.State.{Role, User, Store, ok, store_after, Hasher, Text}
use llama_web_ui.Auth.Users.{
  role_by_name, authenticate, authenticate_user, set_password, find_by_name, default_admin_username,
  default_admin_password,
}
use llama_web_ui.Auth.Sessions.{purge_inactive_sessions, closed, seed, ensure_default_admin}

seed-accounts :
    (hasher : Hasher) (new_id : String) (salt : ℕ) (working s : Store) (r : Role)
    (users : List User) (u : User) (us : List User)
    → users ≡ u ∷ us
    → store_after (seed hasher new_id salt working s r users) s ≡ s
unfolding seed closed
seed-accounts hasher new_id salt working s r users u us h = rw h refl

abbrev purged : ℕ → Store → Store
purged now s = record s { sessions = purge_inactive_sessions now s.sessions }

seeded :
    (hasher : Hasher) (new_id : String) (salt now : ℕ) (s : Store) (r : Role)
    → role_by_name "Administrator" s.roles ≡ some r
    → ensure_default_admin hasher new_id salt now s
      ≡ seed hasher new_id salt (purged now s) s r s.users
unfolding ensure_default_admin
seeded hasher new_id salt now s r found = rw (found, ensure_default_admin) refl

-- A store that has accounts is left exactly as it was, its expired and revoked sessions included,
-- whatever roles it has.
ensure_default_admin-accounts :
    (hasher : Hasher) (new_id : String) (salt now : ℕ) (s : Store) (u : User) (us : List User)
    → s.users ≡ u ∷ us
    → store_after (ensure_default_admin hasher new_id salt now s) s ≡ s
unfolding ensure_default_admin
ensure_default_admin-accounts hasher new_id salt now s u us h =
    elim (Option-cases (role_by_name "Administrator" s.roles)) [
      | inl missing ↦ rw (missing, store_after) refl
      | inr (r, found) ↦
          ap (λ o. store_after o s) (seeded hasher new_id salt now s r found)
          ∙ seed-accounts hasher new_id salt (purged now s) s r s.users u us h
    ]

abbrev first_user : Hasher → String → ℕ → Role → User
first_user hasher new_id salt r = record {
  id = new_id;
  username = default_admin_username;
  password_hash = hasher.hash salt default_admin_password;
  description = none;
  role_id = r.id;
}

abbrev first_store : Hasher → String → ℕ → Store → Role → Store
first_store hasher new_id salt working r = record working {
  users = first_user hasher new_id salt r ∷ [];
}

seed_first :
    (hasher : Hasher) (new_id : String) (salt : ℕ) (working s : Store) (r : Role)
    (users : List User)
    → users ≡ []
    → seed hasher new_id salt working s r users ≡ ok true (first_store hasher new_id salt working r)
unfolding seed closed
seed_first hasher new_id salt working s r users h = rw h refl

only_account :
    (t : Text) (hasher : Hasher) (salt : ℕ) (s : Store) (u : User)
    → t.strip default_admin_username ≡ default_admin_username
    → hasher.verify u.password_hash default_admin_password ≡ true
    → u.username ≡ default_admin_username
    → s.users ≡ u ∷ []
    → (u' : User) × (s' : Store) × (authenticate t hasher salt default_admin_username
          default_admin_password s
        ≡ ok u' s')
      × (u'.role_id ≡ u.role_id)
unfolding authenticate authenticate_user find_by_name
only_account t hasher salt s u strips verifies named only =
    elim (Bool-cases (hasher.needs_rehash u.password_hash)) [
      | inl old ↦ (
        record u { password_hash = hasher.hash salt default_admin_password },
        record s { users = set_password u.id (hasher.hash salt default_admin_password) s.users },
        ground (arith, strips, only, named, verifies, old),
        refl,
      )
      | inr new ↦ (u, s, ground (arith, strips, only, named, verifies, new), refl)
    ]

-- On first run, with no account and a role named "Administrator", the account that is seeded logs in
-- with "admin" and "admin" at once and holds that role. This needs that a hash verifies its password
-- and that `strip` leaves "admin" as it is.
pub first_run_logs_in :
    (t : Text) (hasher : Hasher) (new_id : String) (salt salt' now : ℕ) (s : Store) (r : Role)
    → t.strip default_admin_username ≡ default_admin_username
    → ((n : ℕ) (p : String) → hasher.verify (hasher.hash n p) p ≡ true)
    → s.users ≡ []
    → role_by_name "Administrator" s.roles ≡ some r
    → (u : User) × (s' : Store) × (authenticate t hasher salt' default_admin_username
          default_admin_password
          (store_after (ensure_default_admin hasher new_id salt now s) s)
        ≡ ok u s')
      × (u.role_id ≡ r.id)
first_run_logs_in t hasher new_id salt salt' now s r strips verifies h found =
    let first = seed_first hasher new_id salt (purged now s) s r s.users h in
    let stored = ap (λ o. store_after o s) (seeded hasher new_id salt now s r found ∙ first) in
    let (u, s', logged_in, same) =
      only_account t hasher salt' (first_store hasher new_id salt (purged now s) r)
        (first_user hasher new_id salt r) strips (verifies salt default_admin_password) refl refl in
    (u, s', rw stored logged_in, same)
