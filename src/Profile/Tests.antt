-- ===== src/Profile/Tests.antt =====
-- The launch profiles' definitions on concrete inputs.
use llama_web_ui.Prelude.{
  ℤ, pos, distinct, String, Bool, true, false, not, all, map, Option, none, some, List, [], ◌∷◌,
  ◌≡◌, refl, ◌&&◌, All, append_text, same_text,
}
use llama_web_ui.Profile.Value.{
  int, float, text, number, one, ArgumentValue, single, item_text, item_number, raw_of, ok, err,
  Python, not_whole,
}
use llama_web_ui.Profile.Catalog.{
  ValueType, boolean, integer, string, Control, editable, removed, managed, ValueSchema, Safety,
  danger, ArgumentDefinition, ArgumentCatalog, FlagEntry, catalog_of, loaded, resolve, flags,
}
use llama_web_ui.Profile.Catalog.Index.{IsIndexed, catalog_of-IsIndexed}
use llama_web_ui.Profile.Coerce.{
  coerce_catalog_value, coerce_as, coerce_number, read_number, check_number, special_value,
}
use llama_web_ui.Profile.Coerce.Stable.{coerce_catalog_value-Stable}
use llama_web_ui.Profile.Coerce.Types.{HasType}
use llama_web_ui.Profile.Coerce.Typed.{coerce_catalog_value-HasType}
use llama_web_ui.Profile.Emit.{ProfileArgument, emit_arguments}
use llama_web_ui.Profile.Legacy.{LegacyConfiguration, AdvancedEntry, migrate_legacy_configuration}
use llama_web_ui.Profile.Legacy.Options.{migrate_legacy_configuration-legacy_options}
use llama_web_ui.Profile.Legacy.Entries.{preset_entries, legacy_options}
use llama_web_ui.Profile.Validate.{Host, argument_identity, validate_arguments}
use llama_web_ui.Profile.Validate.Reports.{has_errors, is_acceptable}
use llama_web_ui.Profile.Validate.Loop.{validate_arguments-is_acceptable}

abbrev join_texts : String → List String → String
join_texts separator [] = ""
join_texts separator (t ∷ ts) = append_text t (append_text separator (join_texts separator ts))

-- Functions for Python's: texts are stripped already, and hold neither numbers nor separators.
abbrev python : Python
python = record {
  strip = λ t. t;
  lower = λ t. t;
  parse_int = λ t. if_eight t;
  parse_float = λ t. none;
  is_integer = λ f. false;
  to_int = λ f. pos 0;
  is_finite = λ f. true;
  less = λ a b. false;
  show_int = λ n. "8";
  show_other = λ raw. "other";
  is_json = λ t. true;
  has_control = λ t. false;
  search = λ pattern t. true;
  split = λ separator t. t ∷ [];
  occurs = λ separator t. false;
  join = join_texts;
  strip_dashes = λ t. t;
}
  where
    if_eight : String → Option ℤ
    if_eight t = elim (same_text t "8") [ true ↦ some (pos 8) | false ↦ none ]

abbrev schema : ValueType → ValueSchema
schema type = record {
  type = type;
  minimum = none;
  maximum = none;
  options = [];
  separator = none;
  repeat = false;
  item_type = none;
  path_kind = none;
  pattern = none;
  special_values = "auto" ∷ [];
  negation = none;
  negation_aliases = [];
  several_values = false;
}

abbrev definition : String → String → Control → ValueSchema → ArgumentDefinition
definition i name control value = record {
  category = "server";
  tags = [];
  id = i;
  flag = name;
  aliases = [];
  control = control;
  value = value;
  safety = none;
  deprecated = none;
  conflicts = [];
  requires = [];
  requires_advertised_flag = false;
}

abbrev threads : ArgumentDefinition
threads = definition "threads" "--threads" editable (schema integer)

abbrev host_name : ArgumentDefinition
host_name = definition "host" "--host" managed (schema string)

abbrev definitions : List ArgumentDefinition
definitions = threads ∷ host_name ∷ []

abbrev catalog : ArgumentCatalog
catalog = record {
  arguments = definitions;
  by_flag =
      record { flag = "--threads"; found = record { definition = threads; negated = false } }
      ∷ record { flag = "--host"; found = record { definition = host_name; negated = false } }
      ∷ [];
}

definitions_load : catalog_of ("server" ∷ []) [] definitions ≡ loaded catalog
unfolding catalog_of llama_web_ui.Profile.Catalog.index_definitions
    llama_web_ui.Profile.Catalog.find_id llama_web_ui.Profile.Catalog.index_flags flags
    llama_web_ui.Profile.Catalog.find_flag llama_web_ui.Prelude.string_discrete
    llama_web_ui.Profile.Catalog.check_definitions llama_web_ui.Profile.Catalog.check_references
    llama_web_ui.Profile.Catalog.references llama_web_ui.Prelude.contains distinct
    llama_web_ui.Profile.Catalog.check_definition
definitions_load = refl

catalog_of-IsIndexed_example : All (IsIndexed catalog) definitions
catalog_of-IsIndexed_example = catalog_of-IsIndexed ("server" ∷ []) [] definitions definitions_load

eight :
    coerce_catalog_value python (schema integer) (one (text "8"))
    ≡ ok (single (item_number (int (pos 8))))
unfolding coerce_as coerce_number special_value llama_web_ui.Prelude.contains
    llama_web_ui.Prelude.string_discrete read_number check_number
eight = refl

half : coerce_catalog_value python (schema integer) (one (number (float "0.5"))) ≡ err not_whole
unfolding coerce_as coerce_number special_value read_number
half = refl

coerce_catalog_value-HasType_example :
    HasType python (schema integer) integer (single (item_number (int (pos 8))))
coerce_catalog_value-HasType_example =
    coerce_catalog_value-HasType python (schema integer) (one (text "8")) (λ s. refl) eight

coerce_catalog_value-Stable_example :
    coerce_catalog_value python (schema integer) (raw_of (single (item_number (int (pos 8)))))
    ≡ ok (single (item_number (int (pos 8))))
coerce_catalog_value-Stable_example =
    coerce_catalog_value-Stable python (schema integer) (one (text "8")) (λ s. refl) eight

-- A field that is stored as a typed argument, and a removed and an unknown option that are not.
abbrev flat : LegacyConfiguration
flat = record {
  field = λ name. elim (same_text name "threads") [
    | true ↦ some (one (number (int (pos 8))))
    | false ↦ none
  ];
  advanced = record { name = some "host"; value = some (one (text "::")) } ∷ [];
}

migrate_legacy_configuration-legacy_options_example :
    preset_entries
      (emit_arguments python catalog (migrate_legacy_configuration python catalog flat))
    ≡ preset_entries (legacy_options python flat)
migrate_legacy_configuration-legacy_options_example =
    migrate_legacy_configuration-legacy_options python catalog flat

flat_entries :
    preset_entries (legacy_options python flat) ≡ ("--threads", "8") ∷ ("--host", "::") ∷ []
unfolding legacy_options llama_web_ui.Profile.Legacy.is_true llama_web_ui.Prelude.string_discrete
    llama_web_ui.Profile.Legacy.legacy_raw_value llama_web_ui.Profile.Legacy.advanced_options
    llama_web_ui.Profile.Legacy.show_scalar
flat_entries = refl

abbrev machine : Host
machine = record {
  is_raw_flag = λ t. true;
  has_shell_syntax = λ t. false;
  is_absolute = λ t. true;
  is_file = λ t. true;
  is_dir = λ t. true;
  help_parsed = false;
  supports = λ t. true;
}

abbrev stored : ArgumentDefinition → ArgumentValue → ProfileArgument
stored d value = record { flag = d.flag; value = value; catalog_id = some d.id; origin = none }

abbrev chosen : List ProfileArgument
chosen =
    stored threads (single (item_number (int (pos 8))))
    ∷ stored host_name (single (item_text "::"))
    ∷ []

validate_arguments-is_acceptable_example :
    has_errors (validate_arguments python machine catalog [] chosen)
    ≡ not (
        distinct (map (argument_identity catalog) chosen)
        && all (is_acceptable python machine catalog []) chosen)
validate_arguments-is_acceptable_example =
    validate_arguments-is_acceptable python machine catalog [] chosen
