-- ===== src/Profile/Catalog.antt =====
-- The argument catalog (domain/argument_catalog.py): definitions, and the index of their flags.
pub mod Flags
pub mod Index
use llama_web_ui.Prelude.{
  String, Bool, true, false, Option, none, some, List, [], ◌∷◌, ◌++◌, contains, same_text, not, all,
  distinct, is_some, ◌||◌, if◌then◌else◌,
}
use llama_web_ui.Profile.Value.{Number}

pub data ValueType : Type 0 where
  boolean integer real_number string path enum list json : ValueType

pub data ItemType : Type 0 where
  string_item integer_item number_item path_item : ItemType

pub data Control : Type 0 where
  editable managed informational removed : Control

pub data PathKind : Type 0 where
  file directory any_path : PathKind

pub data Level : Type 0 where
  info warning danger : Level

-- `ValueSchema`, with the columns that coercion, emission and validation read. An empty separator or
-- negation, which the source takes for none, is `none`.
pub record ValueSchema : Type 0 where
  pub type : ValueType
  pub minimum : Option Number
  pub maximum : Option Number
  pub options : List String
  pub separator : Option String
  pub repeat : Bool
  pub item_type : Option ItemType
  pub path_kind : Option PathKind
  pub pattern : Option String
  pub special_values : List String
  pub negation : Option String
  pub negation_aliases : List String
  pub several_values : Bool  -- `arity > 1`

pub record Safety : Type 0 where
  pub level : Level
  pub requires_confirmation : Bool
  pub sensitive : Bool

pub record Deprecation : Type 0 where
  pub replacement : Option String

pub record ArgumentDefinition : Type 0 where
  pub id : String
  pub flag : String
  pub aliases : List String
  pub category : String
  pub tags : List String  -- its own and those of its help's effects
  pub control : Control
  pub value : ValueSchema
  pub safety : Option Safety
  pub deprecated : Option Deprecation
  pub conflicts : List String
  pub requires : List String
  pub requires_advertised_flag : Bool

abbrev pub is_editable : Control → Bool
is_editable editable = true
is_editable _ = false

abbrev pub is_removed : Control → Bool
is_removed removed = true
is_removed _ = false

abbrev pub some_text : Option String → List String
some_text none = []
some_text (some t) = t ∷ []

-- `ArgumentDefinition.flags`.
unfoldable pub flags : ArgumentDefinition → List String
flags d = d.flag ∷ (d.aliases ++ (some_text d.value.negation ++ d.value.negation_aliases))

-- `FlagMatch`.
pub record FlagMatch : Type 0 where
  pub definition : ArgumentDefinition
  pub negated : Bool

-- An entry of `_by_flag`.
pub record FlagEntry : Type 0 where
  pub flag : String
  pub found : FlagMatch

pub record ArgumentCatalog : Type 0 where
  pub arguments : List ArgumentDefinition
  pub by_flag : List FlagEntry

unfoldable pub find_flag : String → List FlagEntry → Option FlagMatch
find_flag f [] = none
find_flag f (e ∷ es) = if same_text e.flag f then some e.found else find_flag f es

unfoldable pub find_id : String → List ArgumentDefinition → Option ArgumentDefinition
find_id i [] = none
find_id i (d ∷ ds) = if same_text d.id i then some d else find_id i ds

-- `ArgumentCatalog.get` and `ArgumentCatalog.resolve`.
abbrev pub get : ArgumentCatalog → String → Option ArgumentDefinition
get c i = find_id i c.arguments

abbrev pub resolve : ArgumentCatalog → String → Option FlagMatch
resolve c f = find_flag f c.by_flag

pub data CatalogError : Type 0 where
  duplicate_id duplicate_flag unknown_reference unknown_category unknown_tags :
      String → CatalogError
  duplicate_category : CatalogError

pub data Loaded {ℓ} (A : Type ℓ) : Type ℓ where
  loaded : A → Loaded A
  refused : CatalogError → Loaded A

module _ {ℓ κ} {A : Type ℓ} {B : Type κ} where
  infixl 1 ◌then◌
  abbrev pub ◌then◌ : Loaded A → (A → Loaded B) → Loaded B
  (loaded a) then f = f a
  (refused e) then f = refused e

abbrev pub is_negation : ArgumentDefinition → String → Bool
is_negation d f = contains (some_text d.value.negation ++ d.value.negation_aliases) f

-- The loop over the flags of one definition.
unfoldable pub index_flags :
    ArgumentDefinition → List String → List FlagEntry → Loaded (List FlagEntry)
index_flags d [] index = loaded index
index_flags d (f ∷ fs) index =
    let rest = index_flags d fs (
      index
      ++ (record { flag = f; found = record { definition = d; negated = is_negation d f } }
          ∷ [])) in
    if is_some (find_flag f index) then refused (duplicate_flag f) else rest

-- The checks of a definition behind those that were indexed.
unfoldable pub check_definition :
    List String → List String → List ArgumentDefinition → ArgumentDefinition → Loaded (Unit {0})
check_definition categories tags earlier d =
    if is_some (find_id d.id earlier)
    then refused (duplicate_id d.id)
    else if not (contains categories d.category)
    then refused (unknown_category d.id)
    else if not (all (contains tags) d.tags)
    then refused (unknown_tags d.id)
    else loaded tt

-- The first loop of `ArgumentCatalog._consistent`.
unfoldable pub index_definitions :
    List String
    → List String
    → List ArgumentDefinition
    → List ArgumentDefinition
    → List FlagEntry
    → Loaded (List FlagEntry)
index_definitions categories tags earlier [] index = loaded index
index_definitions categories tags earlier (d ∷ ds) index =
    check_definition categories tags earlier d then λ _.
    index_flags d (flags d) index then λ index'.
    index_definitions categories tags (earlier ++ (d ∷ [])) ds index'

-- The ids that a definition refers to.
unfoldable pub references : ArgumentDefinition → List String
references d =
    d.conflicts
    ++ (d.requires
        ++ elim d.deprecated [ none ↦ [] | some deprecation ↦ some_text deprecation.replacement ])

unfoldable pub check_references : List ArgumentDefinition → List String → Loaded (Unit {0})
check_references ds [] = loaded tt
check_references ds (i ∷ is) =
    let rest = check_references ds is in
    if is_some (find_id i ds) then rest else refused (unknown_reference i)

-- The second loop of `_consistent`.
unfoldable pub check_definitions :
    List ArgumentDefinition → List ArgumentDefinition → Loaded (Unit {0})
check_definitions ds [] = loaded tt
check_definitions ds (d ∷ rest) =
    check_references ds (references d) then (λ _. check_definitions ds rest)

-- `_consistent`, on the ids of the categories, the effect tags and the arguments.
unfoldable pub catalog_of :
    List String → List String → List ArgumentDefinition → Loaded ArgumentCatalog
catalog_of categories tags ds =
    if distinct categories
    then (index_definitions categories tags [] ds [] then λ index.
        check_definitions ds ds then λ _. loaded (record { arguments = ds; by_flag = index }))
    else refused duplicate_category
