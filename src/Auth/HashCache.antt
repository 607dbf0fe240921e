-- ===== src/Auth/HashCache.antt =====
-- `_is_default_hash` of auth_service.py: whether a stored hash is that of the default password, kept
-- for a number of hashes.
use mathlib.Core.Logic.{if_pos, if_neg}
use mathlib.Core.Option.{some-injective}
use llama_web_ui.Prelude.{
  sym, ℕ, ◌≤◌, ◌≡◌, refl, ap, ◌∙◌, inl, inr, String, Bool, none, some, List, [], ◌∷◌, ◌++◌, All,
  leb, length, length-append, arith, Bool-cases, Option-cases, if◌then◌else◌, map, string_discrete,
}
use llama_web_ui.Prelude.Table.{find}
use llama_web_ui.Auth.State.{Hasher}
use llama_web_ui.Auth.Users.{default_admin_password}

-- `_DEFAULT_HASH_CACHE_SIZE`.
abbrev pub cache_size : ℕ
cache_size = 256

pub record Entry : Type 0 where
  pub password_hash : String
  pub is_default : Bool

abbrev pub entry_key : Entry → String
entry_key e = e.password_hash

-- The answer and the cache after it.
pub record Answer : Type 0 where
  pub is_default : Bool
  pub cache : List Entry

-- `_is_default_hash`, for a hash that is not cached.
unfoldable pub work_out : Hasher → String → List Entry → Answer
work_out hasher h cache =
    let default = hasher.verify h default_admin_password in
    let kept : List Entry = if leb cache_size (length cache) then [] else cache in
    let e : Entry = record { password_hash = h; is_default = default } in
    record { is_default = default; cache = kept ++ (e ∷ []) }

unfoldable pub is_default_hash : Hasher → String → List Entry → Answer
is_default_hash hasher h cache = elim (find entry_key h cache) [
  | some e ↦ record { is_default = e.is_default; cache = cache }
  | none ↦ work_out hasher h cache
]

-- The answers to a sequence of hashes, and the cache after them.
pub record Answers : Type 0 where
  pub answers : List Bool
  pub cache : List Entry

unfoldable pub ask_all : Hasher → List String → List Entry → Answers
ask_all hasher [] cache = record { answers = []; cache = cache }
ask_all hasher (h ∷ hs) cache =
    let first = is_default_hash hasher h cache in
    let rest = ask_all hasher hs first.cache in
    record { answers = first.is_default ∷ rest.answers; cache = rest.cache }

abbrev truth : Hasher → String → Bool
truth hasher h = hasher.verify h default_admin_password

module _ (hasher : Hasher) where
  abbrev IsTrue : List Entry → Type 0
  IsTrue = All (λ e. e.is_default ≡ truth hasher e.password_hash)

  record IsSound (cache : List Entry) : Type 0 where
    entries : IsTrue cache
    size : length cache ≤ cache_size

  append-IsTrue :
      (es : List Entry) (e : Entry)
      → IsTrue es
      → e.is_default ≡ truth hasher e.password_hash
      → IsTrue (es ++ (e ∷ []))
  append-IsTrue [] e all_true is_true = (is_true, tt)
  append-IsTrue (x ∷ xs) e all_true is_true = (all_true.0, append-IsTrue xs e all_true.1 is_true)

  find-IsTrue :
      (h : String) (es : List Entry) {e : Entry}
      → find entry_key h es ≡ some e
      → IsTrue es
      → e.is_default ≡ truth hasher h
  unfolding find
  find-IsTrue h [] found all_true = cc
  find-IsTrue h (x ∷ xs) found all_true = elim (string_discrete x.password_hash h) [
    | yes p ↦
        ap (λ q. q.is_default) (sym (some-injective _ _ (rw (if_pos _ p) at found)))
        ∙ all_true.0
        ∙ ap (truth hasher) p
    | no n ↦ find-IsTrue h xs (rw (if_neg _ n) at found) all_true.1
  ]

  work_out-IsSound :
      (h : String) (cache : List Entry) → IsSound cache → IsSound (work_out hasher h cache).cache
  unfolding work_out
  work_out-IsSound h cache sound =
      let e : Entry = record { password_hash = h; is_default = truth hasher h } in
      elim (Bool-cases (leb cache_size (length cache))) [
        | inl full ↦ rw full (record { entries = (refl, tt); size = omega arith })
        | inr room ↦ rw room (record {
          entries = append-IsTrue cache e sound.entries refl;
          size = ground (arith, length-append cache (e ∷ []), room);
        })
      ]

  ask-IsSound :
      (h : String) (cache : List Entry)
      → IsSound cache
      → ((is_default_hash hasher h cache).is_default ≡ truth hasher h)
        × IsSound (is_default_hash hasher h cache).cache
  unfolding is_default_hash work_out
  ask-IsSound h cache sound = elim (Option-cases (find entry_key h cache)) [
    | inl missing ↦ rw (missing, is_default_hash) (refl, work_out-IsSound h cache sound)
    | inr (e, found) ↦ rw (found, is_default_hash) (find-IsTrue h cache found sound.entries, sound)
  ]

  ask_all-IsSound :
      (hs : List String) (cache : List Entry)
      → IsSound cache
      → ((ask_all hasher hs cache).answers ≡ map (truth hasher) hs)
        × (length (ask_all hasher hs cache).cache ≤ cache_size)
  unfolding ask_all
  ask_all-IsSound [] cache sound = (refl, sound.size)
  ask_all-IsSound (h ∷ hs) cache sound =
      let (answer, sound') = ask-IsSound h cache sound in
      let (answers, size) = ask_all-IsSound hs (is_default_hash hasher h cache).cache sound' in
      (rw (answer, answers) refl, size)

-- From an empty cache, every answer is the hasher's own, whatever hashes are asked in whatever order,
-- and the cache never exceeds its size.
pub ask_all_lem :
    (hasher : Hasher) (hs : List String)
    → ((ask_all hasher hs []).answers ≡ map (λ h. hasher.verify h default_admin_password) hs)
      × (length (ask_all hasher hs []).cache ≤ cache_size)
ask_all_lem hasher hs = ask_all-IsSound hasher hs [] (record { entries = tt; size = omega arith })
