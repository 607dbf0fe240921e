-- ===== src/Profile/Validate.antt =====
-- The validation of a profile's arguments (domain/profile_arguments.py).
mod Issues
pub mod Reports
pub mod Accepts
pub mod Loop
unfoldable pub use Issues.*
use llama_web_ui.Prelude.{
  String, Bool, true, false, Option, none, some, List, [], ◌∷◌, ◌++◌, ◌&&◌, ◌||◌, not, map, any,
  contains, same_text, is_some, if◌then◌else◌,
}
use llama_web_ui.Prelude.Table.{find, store}
use llama_web_ui.Profile.Value.{
  ListItem, ArgumentValue, single, switch, items, item_text, Raw, raw_of, list, Result, ok, err,
  Python, format_item,
}
use llama_web_ui.Profile.Catalog.{
  ArgumentCatalog, ArgumentDefinition, FlagMatch, Control, managed, informational, is_removed,
  is_editable, Safety, Level, info, warning, danger, ValueType, path, ItemType, path_item, PathKind,
  file, directory, get, resolve, find_id,
}
use llama_web_ui.Profile.Coerce.{coerce_catalog_value}
use llama_web_ui.Profile.Emit.{ProfileArgument, EmittedOption, emit_argument}

-- `argument_identity`.
unfoldable pub argument_identity : ArgumentCatalog → ProfileArgument → String
argument_identity catalog argument = elim argument.catalog_id [
  | some i ↦ i
  | none ↦ elim (resolve catalog argument.flag) [
    | none ↦ argument.flag
    | some found ↦ found.definition.id
  ]
]

-- The loop of `_validate_runtime` over the emitted options.
unfoldable pub unsupported : Host → List EmittedOption → Bool
unsupported host [] = false
unsupported host (o ∷ os) = not (host.supports o.name) || unsupported host os

abbrev pub needs_no_flag : Option ArgumentDefinition → Bool
needs_no_flag none = false
needs_no_flag (some d) = not d.requires_advertised_flag

-- `_validate_runtime`.
unfoldable pub validate_runtime :
    Python
    → Host
    → ArgumentCatalog
    → ProfileArgument
    → Option ArgumentDefinition
    → List ArgumentIssue
validate_runtime py host catalog argument definition =
    if not host.help_parsed || needs_no_flag definition
    then []
    else if unsupported host (emit_argument py catalog argument)
    then warn not_advertised (argument_identity catalog argument)
    else []

-- `definition` in the loop of `validate_arguments`: of the catalog id, and without one of the flag.
abbrev pub definition_of_flag : ArgumentCatalog → String → Option ArgumentDefinition
definition_of_flag catalog flag = elim (resolve catalog flag) [
  | none ↦ none
  | some found ↦ some found.definition
]

unfoldable pub validated_definition : ArgumentCatalog → ProfileArgument → Option ArgumentDefinition
validated_definition catalog argument = elim argument.catalog_id [
  | none ↦ definition_of_flag catalog argument.flag
  | some i ↦ if same_text i "" then definition_of_flag catalog argument.flag else get catalog i
]

-- The loop's state.
pub record Validation : Type 0 where
  pub issues : List ArgumentIssue
  pub present : List ArgumentDefinition
  pub seen : List String

-- `present[definition.id] = definition`.
unfoldable pub put : ArgumentDefinition → List ArgumentDefinition → List ArgumentDefinition
put d ds = if is_some (find_id d.id ds) then store (λ q. q.id) d ds else ds ++ (d ∷ [])

-- The body of the loop from the check of a repeated identity on, by the argument's catalog id and
-- the definition found.
unfoldable pub argument_issues :
    Python
    → Host
    → ArgumentCatalog
    → List String
    → ProfileArgument
    → Option String
    → Option ArgumentDefinition
    → List ArgumentIssue
argument_issues py host catalog acknowledged a none none =
    validate_raw py host a none ++ validate_runtime py host catalog a none
argument_issues py host catalog acknowledged a none (some d) =
    validate_raw py host a (some d)
    ++ (validate_control a d acknowledged ++ validate_runtime py host catalog a (some d))
argument_issues py host catalog acknowledged a (some i) none =
    error unknown_argument (argument_identity catalog a)
argument_issues py host catalog acknowledged a (some i) (some d) =
    validate_typed py host a d
    ++ (validate_control a d acknowledged ++ validate_runtime py host catalog a (some d))

abbrev pub put_definition :
    Option ArgumentDefinition → List ArgumentDefinition → List ArgumentDefinition
put_definition none ds = ds
put_definition (some d) ds = put d ds

-- One turn of the loop of `validate_arguments`.
unfoldable pub validate_argument :
    Python → Host → ArgumentCatalog → List String → Validation → ProfileArgument → Validation
validate_argument py host catalog acknowledged state argument =
    let definition = validated_definition catalog argument in
    let identity = argument_identity catalog argument in
    let repeated = contains state.seen identity in
    record {
      issues =
          state.issues
          ++ ((if repeated then error repeated_flag identity else [])
              ++ argument_issues py host catalog acknowledged argument argument.catalog_id
                  definition);
      present = put_definition definition state.present;
      seen = if repeated then state.seen else state.seen ++ (identity ∷ []);
    }

unfoldable pub validate_loop :
    Python → Host → ArgumentCatalog → List String → Validation → List ProfileArgument → Validation
validate_loop py host catalog acknowledged state [] = state
validate_loop py host catalog acknowledged state (argument ∷ rest) =
    validate_loop py host catalog acknowledged
      (validate_argument py host catalog acknowledged state argument) rest

-- `pair in reported`, for a set of two ids.
unfoldable pub is_reported : List (String × String) → String → String → Bool
is_reported [] a b = false
is_reported ((c, d) ∷ rest) a b =
    (same_text a c && same_text b d) || (same_text a d && same_text b c) || is_reported rest a b

-- The loop of `_validate_relationships` over the conflicts of a definition.
unfoldable pub conflict_issues :
    List ArgumentDefinition
    → String
    → List String
    → List (String × String)
    → List ArgumentIssue × List (String × String)
conflict_issues present i [] reported = ([], reported)
conflict_issues present i (other ∷ others) reported =
    let skipped = conflict_issues present i others reported in
    let taken = conflict_issues present i others (reported ++ ((i, other) ∷ [])) in
    if is_some (find_id other present) && not (is_reported reported i other)
    then (warn conflict i ++ taken.0, taken.1)
    else skipped

abbrev pub missing_issues : List ArgumentDefinition → ArgumentDefinition → List ArgumentIssue
missing_issues present d = elim d.requires [
  | [] ↦ []
  | i ∷ is ↦
      if any (λ j. is_some (find_id j present)) (i ∷ is) then [] else warn missing_dependency d.id
]

-- `_validate_relationships`.
unfoldable pub validate_relationships :
    List ArgumentDefinition → List ArgumentDefinition → List (String × String) → List ArgumentIssue
validate_relationships present [] reported = []
validate_relationships present (d ∷ ds) reported =
    let (issues, reported') = conflict_issues present d.id d.conflicts reported in
    issues ++ (missing_issues present d ++ validate_relationships present ds reported')

-- `validate_arguments`.
unfoldable pub validate_arguments :
    Python → Host → ArgumentCatalog → List String → List ProfileArgument → List ArgumentIssue
validate_arguments py host catalog acknowledged arguments =
    let state =
      validate_loop py host catalog acknowledged (record { issues = []; present = []; seen = [] })
        arguments in
    state.issues ++ validate_relationships state.present state.present []
