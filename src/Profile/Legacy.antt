-- ===== src/Profile/Legacy.antt =====
-- The migration of flat profile configurations (domain/profile_arguments.py).
pub mod Entries
pub mod Options
use llama_web_ui.Prelude.{
  String, Bool, true, false, Option, none, some, List, [], ◌∷◌, ◌++◌, ◌&&◌, not, map, same_text,
  is_some, if◌then◌else◌, append_text,
}
use llama_web_ui.Profile.Value.{
  Scalar, text, number, flag, other, Raw, one, list, ArgumentValue, single, switch, items,
  item_text, Result, ok, err, Python, format_number,
}
use llama_web_ui.Profile.Catalog.{
  ArgumentCatalog, ArgumentDefinition, FlagMatch, is_removed, is_editable, ValueType, boolean,
  resolve,
}
use llama_web_ui.Profile.Coerce.{coerce_catalog_value}
use llama_web_ui.Profile.Emit.{
  ProfileArgument, OptionValue, given, worth, EmittedOption, preset_value, emit_argument, option,
}

-- An entry of `advanced`: `name` is `none` for what is no mapping with a text as name, and `value`
-- where the entry has none.
pub record AdvancedEntry : Type 0 where
  pub name : Option String
  pub value : Option Raw

-- A flat configuration: a field that is missing or null is `none`, and an `advanced` that is no list
-- is empty.
pub record LegacyConfiguration : Type 0 where
  pub field : String → Option Raw
  pub advanced : List AdvancedEntry

-- `str(item)`.
unfoldable pub show_scalar : Python → Scalar → String
show_scalar py (text t) = t
show_scalar py (number n) = format_number py n
show_scalar py (flag true) = "True"
show_scalar py (flag false) = "False"
show_scalar py (other j) = py.show_other (one (other j))

-- `_legacy_raw_value`.
unfoldable pub legacy_raw_value : Python → Raw → OptionValue
legacy_raw_value py (one (flag true)) = given
legacy_raw_value py (one (flag false)) = worth "false"
legacy_raw_value py (one s) = worth (show_scalar py s)
legacy_raw_value py (list is) = worth (py.show_other (list is))

-- An option without a secret, as the migration writes them.
abbrev pub plain : String → OptionValue → EmittedOption
plain name value = option name value false

-- `str(option.value)`, and the value as a stored and as a raw one.
abbrev pub show_value : OptionValue → String
show_value given = "True"
show_value (worth t) = t

abbrev pub stored_value : OptionValue → ArgumentValue
stored_value given = switch true
stored_value (worth t) = single (item_text t)

abbrev pub raw_value : OptionValue → Raw
raw_value given = one (flag true)
raw_value (worth t) = one (text t)

abbrev pub raw_argument : String → EmittedOption → ProfileArgument
raw_argument origin o = record {
  flag = o.name;
  value = stored_value o.value;
  catalog_id = none;
  origin = some origin;
}

abbrev pub is_given : OptionValue → Bool
is_given given = true
is_given (worth t) = false

-- The value that `_migrate_option` tries, if the option has one.
unfoldable pub candidate_value : FlagMatch → EmittedOption → List EmittedOption → Option Raw
candidate_value found first rest = elim found.definition.value.type [
  | boolean ↦ if is_given first.value then some (one (flag (not found.negated))) else none
  | ValueType.list ↦
      if found.definition.value.repeat
      then some (list (map (λ o. text (show_value o.value)) (first ∷ rest)))
      else some (raw_value first.value)
  | _ ↦ some (raw_value first.value)
]

-- `actual == expected`: the names and preset values of two lists of options.
unfoldable pub same_options : List EmittedOption → List EmittedOption → Bool
same_options [] [] = true
same_options (o ∷ os) (q ∷ qs) =
    same_text o.name q.name
    && same_text (preset_value o.value) (preset_value q.value)
    && same_options os qs
same_options _ _ = false

-- The typed argument that the value is stored as.
abbrev pub candidate : ArgumentDefinition → ArgumentValue → ProfileArgument
candidate definition value = record {
  flag = definition.flag;
  value = value;
  catalog_id = some definition.id;
  origin = none;
}

-- `_migrate_option`, from the coerced candidate on.
unfoldable pub choose_candidate :
    Python
    → ArgumentCatalog
    → ArgumentDefinition
    → EmittedOption
    → List EmittedOption
    → Result ArgumentValue
    → ProfileArgument
choose_candidate py catalog definition first rest (err e) = raw_argument "catalog-mismatch" first
choose_candidate py catalog definition first rest (ok value) =
    if same_options (emit_argument py catalog (candidate definition value)) (first ∷ rest)
    then candidate definition value
    else raw_argument "catalog-mismatch" first

-- `_migrate_option`, for an option whose name is a flag of the catalog.
unfoldable pub migrate_match :
    Python → ArgumentCatalog → FlagMatch → EmittedOption → List EmittedOption → ProfileArgument
migrate_match py catalog found first rest =
    if is_removed found.definition.control
    then raw_argument "deprecated" first
    else if not (is_editable found.definition.control)
    then raw_argument "catalog-mismatch" first
    else elim (candidate_value found first rest) [
      | none ↦ raw_argument "catalog-mismatch" first
      | some raw ↦
          choose_candidate py catalog found.definition first rest
            (coerce_catalog_value py found.definition.value raw)
    ]

-- `_migrate_option`, on the first option of its tuple and the others.
unfoldable pub migrate_option :
    Python → ArgumentCatalog → EmittedOption → List EmittedOption → ProfileArgument
migrate_option py catalog first rest = elim (resolve catalog first.name) [
  | none ↦ raw_argument "catalog-mismatch" first
  | some found ↦ migrate_match py catalog found first rest
]

-- `_migrate_field`, and its loop over the fields of a table.
unfoldable pub migrate_fields :
    Python → ArgumentCatalog → LegacyConfiguration → List (String × String) → List ProfileArgument
migrate_fields py catalog configuration [] = []
migrate_fields py catalog configuration ((field_name, name) ∷ rest) =
    let others = migrate_fields py catalog configuration rest in
    elim (configuration.field field_name) [
      | none ↦ others
      | some raw ↦
          migrate_option py catalog (plain (append_text "--" name) (legacy_raw_value py raw)) []
          ∷ others
    ]

-- `_LEGACY_BEFORE_OVERRIDES` and `_LEGACY_AFTER_OVERRIDES`.
abbrev pub legacy_before_overrides : List (String × String)
legacy_before_overrides =
    ("n_gpu_layers", "n-gpu-layers")
    ∷ ("ctx_size", "ctx-size")
    ∷ ("flash_attn", "flash-attn")
    ∷ ("load_mode", "load-mode")
    ∷ ("lazy_mode", "lazy-mode")
    ∷ ("cache_ram", "cache-ram")
    ∷ ("fit", "fit")
    ∷ []

abbrev pub legacy_after_overrides : List (String × String)
legacy_after_overrides =
    ("cache_type_k", "cache-type-k")
    ∷ ("cache_type_v", "cache-type-v")
    ∷ ("threads", "threads")
    ∷ ("batch_size", "batch-size")
    ∷ ("ubatch_size", "ubatch-size")
    ∷ []

-- The options of the field `override_tensor`: a list's items, and none for what is no list.
abbrev pub override_options : Python → Option Raw → List EmittedOption
override_options py (some (list is)) =
    map (λ i. plain "--override-tensor" (worth (show_scalar py i))) is
override_options py _ = []

-- The block of `migrate_legacy_configuration` on the overrides.
unfoldable pub migrate_overrides :
    Python → ArgumentCatalog → List EmittedOption → List ProfileArgument
migrate_overrides py catalog [] = []
migrate_overrides py catalog (first ∷ rest) =
    let migrated = migrate_option py catalog first rest in
    if is_some migrated.catalog_id
    then migrated ∷ []
    else map (raw_argument "catalog-mismatch") (first ∷ rest)

-- The option of an entry of `advanced`.
unfoldable pub advanced_options : Python → AdvancedEntry → List EmittedOption
advanced_options py entry = elim entry.name [
  | none ↦ []
  | some name ↦
      plain (append_text "--" (py.strip_dashes (py.strip name)))
        (elim entry.value [ none ↦ given | some raw ↦ legacy_raw_value py raw ])
      ∷ []
]

-- The loop over `advanced`.
unfoldable pub migrate_advanced :
    Python → ArgumentCatalog → List AdvancedEntry → List ProfileArgument
migrate_advanced py catalog [] = []
migrate_advanced py catalog (entry ∷ rest) =
    map (λ o. migrate_option py catalog o []) (advanced_options py entry)
    ++ migrate_advanced py catalog rest

unfoldable pub is_true : Option Raw → Bool
is_true (some (one (flag true))) = true
is_true _ = false

-- The arguments of `migrate_legacy_configuration`.
unfoldable pub migrate_legacy_configuration :
    Python → ArgumentCatalog → LegacyConfiguration → List ProfileArgument
migrate_legacy_configuration py catalog configuration =
    (if is_true (configuration.field "no_reasoning_preserve")
      then (migrate_option py catalog (plain "--no-reasoning-preserve" given) [] ∷ [])
      else [])
    ++ (migrate_fields py catalog configuration legacy_before_overrides
        ++ (migrate_overrides py catalog
              (override_options py (configuration.field "override_tensor"))
            ++ (migrate_fields py catalog configuration legacy_after_overrides
                ++ migrate_advanced py catalog configuration.advanced)))
