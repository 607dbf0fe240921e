-- ===== src/Profile/Emit.antt =====
-- The options that stored arguments emit (domain/profile_arguments.py).
use llama_web_ui.Prelude.{
  String, Bool, true, false, Option, none, some, List, [], ◌∷◌, ◌++◌, ◌&&◌, map, same_text,
  if◌then◌else◌,
}
use llama_web_ui.Profile.Value.{ArgumentValue, single, switch, items, Python, format_item}
use llama_web_ui.Profile.Catalog.{
  ArgumentCatalog, ArgumentDefinition, FlagMatch, Safety, ValueType, boolean, list, get, resolve,
}

-- `ProfileArgument`, stored by its catalog id or raw.
pub record ProfileArgument : Type 0 where
  pub flag : String
  pub value : ArgumentValue
  pub catalog_id : Option String
  pub origin : Option String

-- The value of an option: `True`, or a text.
pub data OptionValue : Type 0 where
  given : OptionValue
  worth : String → OptionValue

-- `EmittedOption`.
pub record EmittedOption : Type 0 where
  pub name : String
  pub value : OptionValue
  pub sensitive : Bool
  pub several_values : Bool  -- `arity > 1`

-- `EmittedOption.preset_value`.
abbrev pub preset_value : OptionValue → String
preset_value given = "true"
preset_value (worth t) = t

abbrev pub redacted : String
redacted = "******"

-- `EmittedOption.argv`, `split_words` for `t.split()`.
unfoldable pub argv : (String → List String) → Bool → EmittedOption → List String
argv split_words redact option = elim option.value [
  | given ↦ option.name ∷ []
  | worth t ↦
      if redact && option.sensitive
      then option.name ∷ redacted ∷ []
      else option.name ∷ (if option.several_values then split_words t else t ∷ [])
]

-- `_format_value`.
unfoldable pub format_value : Python → ArgumentValue → String
format_value py (single i) = format_item py i
format_value py (switch true) = "true"
format_value py (switch false) = "false"
format_value py (items is) = py.join "," (map (format_item py) is)

-- The catalogued definition of an argument.
abbrev pub definition_of : ArgumentCatalog → Option String → Option ArgumentDefinition
definition_of catalog none = none
definition_of catalog (some i) = if same_text i "" then none else get catalog i

abbrev pub has_secret : Option Safety → Bool
has_secret none = false
has_secret (some safety) = safety.sensitive

abbrev pub match_secret : Option FlagMatch → Bool
match_secret none = false
match_secret (some found) = has_secret found.definition.safety

abbrev pub raw_option : Python → ArgumentValue → OptionValue
raw_option py (switch true) = given
raw_option py value = worth (format_value py value)

abbrev pub option : String → OptionValue → Bool → EmittedOption
option name value sensitive = record {
  name = name;
  value = value;
  sensitive = sensitive;
  several_values = false;
}

-- The options of a raw argument.
unfoldable pub emit_raw : Python → ArgumentCatalog → ProfileArgument → List EmittedOption
emit_raw py catalog argument =
    option argument.flag (raw_option py argument.value)
      (match_secret (resolve catalog argument.flag))
    ∷ []

-- The options of a Boolean argument: a flag, its negation or nothing.
unfoldable pub emit_boolean : ArgumentDefinition → ArgumentValue → List EmittedOption
emit_boolean definition (switch true) = option definition.flag given false ∷ []
emit_boolean definition (switch false) = elim definition.value.negation [
  | none ↦ []
  | some negation ↦ option negation given false ∷ []
]
emit_boolean definition value = []

-- The one option of an argument that is no Boolean and no list.
unfoldable pub emit_one : Python → ArgumentDefinition → ArgumentValue → List EmittedOption
emit_one py definition value =
    record {
      name = definition.flag;
      value = worth (format_value py value);
      sensitive = has_secret definition.safety;
      several_values = definition.value.several_values;
    }
    ∷ []

abbrev pub separator_or_comma : Option String → String
separator_or_comma none = ","
separator_or_comma (some separator) = separator

-- The options of a list: one for each item, or one for all of them.
unfoldable pub emit_list : Python → ArgumentDefinition → ArgumentValue → List EmittedOption
emit_list py definition (items is) =
    let secret = has_secret definition.safety in
    if definition.value.repeat
    then map (λ i. option definition.flag (worth (format_item py i)) secret) is
    else option definition.flag
        (worth (py.join (separator_or_comma definition.value.separator) (map (format_item py) is)))
        secret
      ∷ []
emit_list py definition value = emit_one py definition value

-- The options of a catalogued argument, by the type of its schema.
unfoldable pub emit_typed :
    Python → ArgumentDefinition → ValueType → ArgumentValue → List EmittedOption
emit_typed py definition boolean value = emit_boolean definition value
emit_typed py definition list value = emit_list py definition value
emit_typed py definition type value = emit_one py definition value

-- `emit_argument`.
unfoldable pub emit_argument : Python → ArgumentCatalog → ProfileArgument → List EmittedOption
emit_argument py catalog argument = elim (definition_of catalog argument.catalog_id) [
  | none ↦ emit_raw py catalog argument
  | some definition ↦ emit_typed py definition definition.value.type argument.value
]

-- `emit_arguments`.
unfoldable pub emit_arguments : Python → ArgumentCatalog → List ProfileArgument → List EmittedOption
emit_arguments py catalog [] = []
emit_arguments py catalog (argument ∷ arguments) =
    emit_argument py catalog argument ++ emit_arguments py catalog arguments
