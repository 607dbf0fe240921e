-- ===== src/Profile/Catalog/Index.antt =====
-- What a catalog that loads answers about the flags and ids of its definitions.
use llama_web_ui.Prelude.{
  distinct, String, true, false, some, List, [], ◌∷◌, ◌++◌, ◌≡◌, inl, inr, refl, sym, subst, ap,
  ◌∙◌, is_some, arith, Bool-cases, All,
}
use mathlib.Core.List.{append_assoc}
use llama_web_ui.Profile.Catalog.{
  check_definition, ◌then◌, ArgumentCatalog, ArgumentDefinition, FlagEntry, find_flag, find_id,
  flags, get, resolve, loaded, index_flags, index_definitions, check_definitions, check_references,
  references, catalog_of,
}
use llama_web_ui.Profile.Catalog.Flags.{
  All-map, Extends, HasFlags, Loaded-cases, entry_of, find_flag-append, find_flag-new,
  loaded-injective, match_of, same_text_refl,
}

index_flags-index :
    (d : ArgumentDefinition) (fs : List String) (index : List FlagEntry) {index' : List FlagEntry}
    → index_flags d fs index ≡ loaded index'
    → Extends index index' × All (λ f. find_flag f index' ≡ some (match_of d f)) fs
unfolding index_flags
index_flags-index d [] index h =
    ((λ f m found. ap (find_flag f) (sym (loaded-injective h)) ∙ found), tt)
index_flags-index d (f ∷ fs) index h = elim (Bool-cases (is_some (find_flag f index))) [
  | inl twice ↦ cc (rw (twice, index_flags) at h)
  | inr new ↦
      let (extends, found) =
        index_flags-index d fs (index ++ (entry_of d f ∷ [])) (rw (new, index_flags) at h) in
      (
        (λ g m e. extends g m (find_flag-append g index _ e)),
        (extends f _ (find_flag-new d f index new), found),
      )
]

-- A definition that passes the checks has a new id.
check_definition-new :
    (categories tags : List String) (earlier : List ArgumentDefinition) (d : ArgumentDefinition)
    {u : Unit {0}}
    → check_definition categories tags earlier d ≡ loaded u
    → is_some (find_id d.id earlier) ≡ false
unfolding check_definition
check_definition-new categories tags earlier d h = ground arith

-- The stages of one turn of the loop.
index_definitions-turn :
    (categories tags : List String) (earlier ds : List ArgumentDefinition) (d : ArgumentDefinition)
    (index : List FlagEntry) {index' : List FlagEntry}
    → index_definitions categories tags earlier (d ∷ ds) index ≡ loaded index'
    → (middle : List FlagEntry) × ((is_some (find_id d.id earlier) ≡ false)
        × ((index_flags d (flags d) index ≡ loaded middle)
            × (index_definitions categories tags (earlier ++ (d ∷ [])) ds middle ≡ loaded index')))
unfolding index_definitions
index_definitions-turn categories tags earlier ds d index h =
    elim (Loaded-cases (check_definition categories tags earlier d)) [
      | inl (e, failed) ↦ cc (rw (failed, index_definitions) at h)
      | inr (u, checked) ↦
          let h1 = rw (checked, index_definitions) at h in
          elim (Loaded-cases (index_flags d (flags d) index)) [
            | inl (e, failed) ↦ cc (rw failed at h1)
            | inr (middle, indexed) ↦ (
              middle,
              (check_definition-new categories tags earlier d checked, (indexed, rw indexed at h1)),
            )
          ]
    ]

index_definitions-index :
    (categories tags : List String) (earlier ds : List ArgumentDefinition) (index : List FlagEntry)
    {index' : List FlagEntry}
    → index_definitions categories tags earlier ds index ≡ loaded index'
    → Extends index index' × All (HasFlags index') ds
unfolding index_definitions
index_definitions-index categories tags earlier [] index h =
    ((λ f m found. ap (find_flag f) (sym (loaded-injective h)) ∙ found), tt)
index_definitions-index categories tags earlier (d ∷ ds) index h =
    let (middle, (new, (indexed, later))) =
      index_definitions-turn categories tags earlier ds d index h in
    let (extends, found) = index_flags-index d (flags d) index indexed in
    let (extends', others) =
      index_definitions-index categories tags (earlier ++ (d ∷ [])) ds middle later in
    (
      (λ g m e. extends' g m (extends g m e)),
      (All-map _ _ (flags d) (λ f e. extends' f _ e) found, others),
    )

find_id-new :
    (d : ArgumentDefinition) (earlier rest : List ArgumentDefinition)
    → is_some (find_id d.id earlier) ≡ false
    → find_id d.id (earlier ++ (d ∷ rest)) ≡ some d
unfolding find_id
find_id-new d [] rest h = rw (same_text_refl d.id) refl
find_id-new d (q ∷ qs) rest h = ground (arith, find_id-new d qs rest)

index_definitions-ids :
    (categories tags : List String) (earlier ds : List ArgumentDefinition) (index : List FlagEntry)
    {index' : List FlagEntry}
    → index_definitions categories tags earlier ds index ≡ loaded index'
    → All (λ d. find_id d.id (earlier ++ ds) ≡ some d) ds
index_definitions-ids categories tags earlier [] index h = tt
index_definitions-ids categories tags earlier (d ∷ ds) index h =
    let (middle, (new, (indexed, later))) =
      index_definitions-turn categories tags earlier ds d index h in
    (
      find_id-new d earlier ds new,
      subst (λ all. All (λ q. find_id q.id all ≡ some q) ds) (append_assoc earlier (d ∷ []) ds)
          (index_definitions-ids categories tags (earlier ++ (d ∷ [])) ds middle later),
    )

check_references-known :
    (ds : List ArgumentDefinition) (is : List String) {u : Unit {0}}
    → check_references ds is ≡ loaded u
    → All (λ i. is_some (find_id i ds) ≡ true) is
unfolding check_references
check_references-known ds [] h = tt
check_references-known ds (i ∷ is) h = elim (Bool-cases (is_some (find_id i ds))) [
  | inl known ↦ (known, check_references-known ds is (rw (known, check_references) at h))
  | inr unknown ↦ cc (rw (unknown, check_references) at h)
]

check_definitions-known :
    (ds rest : List ArgumentDefinition) {u : Unit {0}}
    → check_definitions ds rest ≡ loaded u
    → All (λ d. All (λ i. is_some (find_id i ds) ≡ true) (references d)) rest
unfolding check_definitions
check_definitions-known ds [] h = tt
check_definitions-known ds (d ∷ rest) h = elim (Loaded-cases (check_references ds (references d))) [
  | inl (e, failed) ↦ cc (rw (failed, check_definitions) at h)
  | inr (u, known) ↦ (
    check_references-known ds (references d) known,
    check_definitions-known ds rest (rw (known, check_definitions) at h),
  )
]

-- What a catalog answers about one of its definitions.
abbrev pub IsIndexed : ArgumentCatalog → ArgumentDefinition → Type 0
IsIndexed c d =
    All (λ f. resolve c f ≡ some (match_of d f)) (flags d)
    × ((get c d.id ≡ some d) × All (λ i. is_some (get c i) ≡ true) (references d))

All-both {ℓ κ μ} :
    {A : Type ℓ} (P : A → Type κ) (Q : A → Type μ) (xs : List A)
    → All P xs
    → All Q xs
    → All (λ x. P x × Q x) xs
All-both P Q [] ps qs = tt
All-both P Q (x ∷ xs) (p, ps) (q, qs) = ((p, q), All-both P Q xs ps qs)

-- In a catalog that loads, each definition is found by its id, each of its flags resolves to it,
-- negated where the flag is a negation, and each id that it refers to is a definition's.
pub catalog_of-IsIndexed :
    (categories tags : List String) (ds : List ArgumentDefinition) {c : ArgumentCatalog}
    → catalog_of categories tags ds ≡ loaded c
    → All (IsIndexed c) ds
unfolding catalog_of
catalog_of-IsIndexed categories tags ds {c = c} h = elim (Bool-cases (distinct categories)) [
  | inr twice ↦ cc (rw (twice, catalog_of) at h)
  | inl once ↦ found (rw (once, catalog_of) at h)
]
  where
    found :
        (index_definitions categories tags [] ds [] then λ index.
        check_definitions ds ds then λ _. loaded (record { arguments = ds; by_flag = index }))
          ≡ loaded c
        → All (IsIndexed c) ds
    found h = elim (Loaded-cases (index_definitions categories tags [] ds [])) [
      | inl (e, failed) ↦ cc (rw failed at h)
      | inr (index, indexed) ↦
          let h1 = rw indexed at h in
          elim (Loaded-cases (check_definitions ds ds)) [
            | inl (e, failed) ↦ cc (rw failed at h1)
            | inr (u, known) ↦
                subst (λ c. All (IsIndexed c) ds) (loaded-injective (rw known at h1))
                  (All-both _ _ ds (index_definitions-index categories tags [] ds [] indexed).1 (
                    All-both _ _ ds (index_definitions-ids categories tags [] ds [] indexed)
                      (check_definitions-known ds ds known)))
          ]
    ]
