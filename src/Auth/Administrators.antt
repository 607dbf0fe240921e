-- ===== src/Auth/Administrators.antt =====
-- Sequences of calls on the accounts and roles of auth_service.py, and the number of administrators.
pub mod Count
mod RoleCalls
mod UserCalls
use native.Mathlib.Nat.{le_trans}
use llama_web_ui.Prelude.{
  same_text, contains, ℕ, ◌≤◌, ◌≡◌, ◌<◌, ◌⊎◌, refl, sym, ◌∙◌, subst, inl, inr, String, true, false,
  ◌&&◌, not, Option, none, some, List, [], ◌∷◌, ◌++◌, any, leb, sum_of, arith, Bool-cases,
  Option-cases, string_discrete,
}
use llama_web_ui.Prelude.Table.{
  find, store, delete, find-key, find-store_self, find-store_ne, find-delete_ne, find-append,
  sum_of-store, sum_of-delete, sum_of-append,
}
use llama_web_ui.Auth.State.{
  Role, User, Session, Store, role_key, user_key, Outcome, store_after, Hasher, Text,
}
use llama_web_ui.Auth.Privileges.{privilege_keys, privilege_key}
use llama_web_ui.Auth.Roles.{
  is_administrator, is_full_privilege_set, role_is_administrator, create_role, update_role,
  update_found_role, delete_role, delete_found_role, validate_privileges, has_role, name_taken,
}
use llama_web_ui.Auth.Users.{
  administrator_count, count_if, default_admin_username, create_managed_user, authenticate,
  authenticate_user, set_password, update_user, update_found_user, delete_user, delete_found_user,
  find_by_name, selected_role,
}
use llama_web_ui.Auth.Administrators.RoleCalls.{
  create_role-Safe, update_role-Safe, delete_role-Safe,
}
use llama_web_ui.Auth.Administrators.UserCalls.{
  create_managed_user-Safe, update_user-Safe, delete_user-Safe, authenticate-Safe,
}

-- The calls that change accounts and roles.
pub data Call : Type 0 where
  new_role : String → String → Option String → List String → Call
  change_role : String → String → Option String → List String → Call
  drop_role : String → Call
  new_user : String → ℕ → String → String → Option String → Option String → Call
  change_user : String → Option String → String → Call
  drop_user : String → String → Call
  log_in : ℕ → String → String → Call

module _ (t : Text) (hr : Hasher) where
  pub apply : Call → Store → Store
  apply (new_role i n d ps) s = store_after (create_role t i n d ps s) s
  apply (change_role i n d ps) s = store_after (update_role t i n d ps s) s
  apply (drop_role i) s = store_after (delete_role i s) s
  apply (new_user i salt u p d r) s = store_after (create_managed_user t hr i salt u p d r s) s
  apply (change_user i d r) s = store_after (update_user i d r s) s
  apply (drop_user i requester) s = store_after (delete_user i requester s) s
  apply (log_in salt u p) s = store_after (authenticate t hr salt u p s) s

  pub run : List Call → Store → Store
  run [] s = s
  run (c ∷ cs) s = run cs (apply c s)

  apply-administrators :
      (c : Call) (s : Store) → 1 ≤ administrator_count s → 1 ≤ administrator_count (apply c s)
  unfolding apply
  apply-administrators (new_role i n d ps) s = create_role-Safe t i n d ps s
  apply-administrators (change_role i n d ps) s = update_role-Safe t i n d ps s
  apply-administrators (drop_role i) s = delete_role-Safe i s
  apply-administrators (new_user i salt u p d r) s = create_managed_user-Safe t hr i salt u p d r s
  apply-administrators (change_user i d r) s = update_user-Safe i d r s
  apply-administrators (drop_user i requester) s = delete_user-Safe i requester s
  apply-administrators (log_in salt u p) s = authenticate-Safe t hr salt u p s

  -- While there is an administrator, no sequence of calls on accounts and roles, whether they
  -- succeed or are refused, leaves the control plane without one.
  pub administrators_remain :
      (cs : List Call) (s : Store) → 1 ≤ administrator_count s → 1 ≤ administrator_count (run cs s)
  unfolding run
  administrators_remain [] s h = h
  administrators_remain (c ∷ cs) s h =
      administrators_remain cs (apply c s) (apply-administrators c s h)
