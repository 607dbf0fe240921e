-- ===== src/Profile/Validate/Issues.antt =====
-- The issues of one argument (domain/profile_arguments.py).
use llama_web_ui.Prelude.{
  String, Bool, true, false, Option, none, some, List, [], ◌∷◌, ◌++◌, ◌&&◌, not, map, contains,
  same_text, is_some, if◌then◌else◌,
}
use llama_web_ui.Profile.Value.{
  ArgumentValue, single, switch, items, raw_of, ok, err, Python, format_item,
}
use llama_web_ui.Profile.Catalog.{
  ArgumentDefinition, Control, managed, informational, is_removed, is_editable, Level, info,
  ValueType, path, ItemType, path_item, file, directory,
}
use llama_web_ui.Profile.Coerce.{coerce_catalog_value}
use llama_web_ui.Profile.Emit.{ProfileArgument}

-- What the validation reads of the texts, the file system and the runtime.
pub record Host : Type 0 where
  pub is_raw_flag : String → Bool  -- `_RAW_FLAG_PATTERN.fullmatch`
  pub has_shell_syntax : String → Bool  -- `_SHELL_SYNTAX.search`
  pub is_absolute : String → Bool  -- of `Path(value).expanduser()`, as the next two
  pub is_file : String → Bool
  pub is_dir : String → Bool
  pub help_parsed : Bool  -- `capabilities.help_parsed`
  pub supports : String → Bool  -- `capabilities.supports`

pub data IssueLevel : Type 0 where
  error_issue warning_issue : IssueLevel

pub data Code : Type 0 where
  repeated_flag unknown_argument unsafe_flag control_characters shell_syntax : Code
  invalid_value managed_flag unconfirmed_security deprecated_option catalog_mismatch : Code
  catalogued_custom relative_path path_not_found open_cors security : Code
  not_advertised conflict missing_dependency : Code

-- `ArgumentIssue`, its message left out.
pub record ArgumentIssue : Type 0 where
  pub level : IssueLevel
  pub code : Code
  pub argument : String

-- `_IssueCollector.error` and `_IssueCollector.warning`, each the list of its one issue.
abbrev pub error : Code → String → List ArgumentIssue
error code argument = record { level = error_issue; code = code; argument = argument } ∷ []

abbrev pub warn : Code → String → List ArgumentIssue
warn code argument = record { level = warning_issue; code = code; argument = argument } ∷ []

-- `str(argument.value)`.
unfoldable pub show_argument : Python → ArgumentValue → String
show_argument py (single i) = format_item py i
show_argument py (switch true) = "True"
show_argument py (switch false) = "False"
show_argument py (items is) = py.show_other (raw_of (items is))

abbrev pub is_switched_on : ArgumentValue → Bool
is_switched_on (switch true) = true
is_switched_on _ = false

-- The issues of the flag and of the value of a raw argument.
unfoldable pub raw_errors : Python → Host → ProfileArgument → List ArgumentIssue
raw_errors py host argument =
    let text = show_argument py argument.value in
    (if host.is_raw_flag argument.flag then [] else error unsafe_flag argument.flag)
    ++ (if is_switched_on argument.value
        then []
        else if py.has_control text
        then error control_characters argument.flag
        else if host.has_shell_syntax text
        then error shell_syntax argument.flag
        else [])

abbrev pub is_origin : Option String → String → Bool
is_origin none name = false
is_origin (some origin) name = same_text origin name

-- `definition is None or definition.deprecated is None`.
abbrev pub lacks_notice : Option ArgumentDefinition → Bool
lacks_notice none = true
lacks_notice (some d) = not (is_some d.deprecated)

abbrev pub has_control_of_its_own : Option ArgumentDefinition → Bool
has_control_of_its_own none = false
has_control_of_its_own (some d) = is_editable d.control

-- The warning on a raw argument.
unfoldable pub raw_warnings : ProfileArgument → Option ArgumentDefinition → List ArgumentIssue
raw_warnings argument definition =
    if is_origin argument.origin "deprecated" && lacks_notice definition
    then warn deprecated_option argument.flag
    else if is_origin argument.origin "catalog-mismatch"
    then warn catalog_mismatch argument.flag
    else if has_control_of_its_own definition
    then warn catalogued_custom argument.flag
    else []

-- `_validate_raw`.
unfoldable pub validate_raw :
    Python → Host → ProfileArgument → Option ArgumentDefinition → List ArgumentIssue
validate_raw py host argument definition =
    raw_errors py host argument ++ raw_warnings argument definition

-- `_validate_path`.
unfoldable pub validate_path : Host → ArgumentDefinition → String → List ArgumentIssue
validate_path host definition value =
    if not (host.is_absolute value)
    then warn relative_path definition.id
    else elim definition.value.path_kind [
      | some file ↦ if host.is_file value then [] else warn path_not_found definition.id
      | some directory ↦ if host.is_dir value then [] else warn path_not_found definition.id
      | _ ↦ []
    ]

unfoldable pub validate_paths : Host → ArgumentDefinition → List String → List ArgumentIssue
validate_paths host definition [] = []
validate_paths host definition (value ∷ values) =
    validate_path host definition value ++ validate_paths host definition values

-- The texts of a value's items.
abbrev pub value_texts : Python → ArgumentValue → List String
value_texts py (items is) = map (format_item py) is
value_texts py value = show_argument py value ∷ []

abbrev pub is_path : ValueType → Option ItemType → Bool
is_path path item = true
is_path ValueType.list (some path_item) = true
is_path type item = false

abbrev pub opens_cors : Python → ArgumentValue → Bool
opens_cors py (items is) = contains (map (λ i. py.strip (format_item py i)) is) "*"
opens_cors py value = false

-- `_validate_typed`.
unfoldable pub validate_typed :
    Python → Host → ProfileArgument → ArgumentDefinition → List ArgumentIssue
validate_typed py host argument definition =
    elim (coerce_catalog_value py definition.value (raw_of argument.value)) [
      | err e ↦ error invalid_value definition.id
      | ok value ↦
          (if is_path definition.value.type definition.value.item_type
            then validate_paths host definition (value_texts py argument.value)
            else [])
          ++ (if same_text definition.id "cors-origins" && opens_cors py argument.value
              then warn open_cors definition.id
              else [])
    ]

abbrev pub is_managed : Control → Bool
is_managed managed = true
is_managed informational = true
is_managed _ = false

abbrev pub is_risky : Level → Bool
is_risky info = false
is_risky _ = true

-- The safety notice of a definition.
unfoldable pub safety_issues : List String → ArgumentDefinition → List ArgumentIssue
safety_issues acknowledged definition = elim definition.safety [
  | none ↦ []
  | some safety ↦
      if safety.requires_confirmation && not (contains acknowledged definition.id)
      then error unconfirmed_security definition.id
      else if is_risky safety.level
      then warn security definition.id
      else []
]

-- The warnings on a removed and on a deprecated option.
unfoldable pub notices : ProfileArgument → ArgumentDefinition → List ArgumentIssue
notices argument definition =
    (if is_removed definition.control && not (is_origin argument.origin "deprecated")
      then warn deprecated_option definition.id
      else [])
    ++ (if is_some definition.deprecated then warn deprecated_option definition.id else [])

-- `_validate_control`.
unfoldable pub validate_control :
    ProfileArgument → ArgumentDefinition → List String → List ArgumentIssue
validate_control argument definition acknowledged =
    if is_managed definition.control
    then error managed_flag definition.id
    else (notices argument definition ++ safety_issues acknowledged definition)
