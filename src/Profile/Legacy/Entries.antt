-- ===== src/Profile/Legacy/Entries.antt =====
-- The arguments that one option of a flat configuration is migrated to, and what they emit
-- (domain/profile_arguments.py).
use llama_web_ui.Prelude.{
  String, true, none, some, List, [], ◌∷◌, ◌++◌, map, ◌≡◌, ◌⊎◌, inl, inr, refl, ap, same_text,
  arith, if-cases, string_discrete, if◌then◌else◌, append_text, not,
}
use mathlib.Core.Logic.{if_neg}
use llama_web_ui.Profile.Value.{Python, Result, ok, err, ArgumentValue}
use llama_web_ui.Profile.Catalog.{
  ArgumentCatalog, ArgumentDefinition, FlagMatch, resolve, is_removed, is_editable,
}
use llama_web_ui.Profile.Coerce.{coerce_catalog_value}
use llama_web_ui.Profile.Emit.{
  ProfileArgument, OptionValue, given, worth, EmittedOption, preset_value, emit_argument,
  emit_arguments, emit_raw, format_value, raw_option,
}
use llama_web_ui.Profile.Legacy.{
  AdvancedEntry, LegacyConfiguration, legacy_raw_value, plain, raw_argument, stored_value,
  candidate_value, same_options, choose_candidate, migrate_match, migrate_option,
  legacy_before_overrides, legacy_after_overrides, override_options, advanced_options, is_true,
}

-- What a preset file says of an option: its name and its value.
abbrev pub preset_entry : EmittedOption → String × String
preset_entry o = (o.name, preset_value o.value)

abbrev pub preset_entries : List EmittedOption → List (String × String)
preset_entries os = map preset_entry os

-- The options of the fields of a table, for the fields that the configuration has.
abbrev pub field_options :
    Python → LegacyConfiguration → List (String × String) → List EmittedOption
field_options py configuration [] = []
field_options py configuration ((field_name, name) ∷ rest) =
    let others = field_options py configuration rest in
    elim (configuration.field field_name) [
      | none ↦ others
      | some raw ↦ plain (append_text "--" name) (legacy_raw_value py raw) ∷ others
    ]

abbrev pub all_advanced : Python → List AdvancedEntry → List EmittedOption
all_advanced py [] = []
all_advanced py (entry ∷ rest) = advanced_options py entry ++ all_advanced py rest

-- The options of a flat configuration, in the order of the flat format.
unfoldable pub legacy_options : Python → LegacyConfiguration → List EmittedOption
legacy_options py configuration =
    (if is_true (configuration.field "no_reasoning_preserve")
      then plain "--no-reasoning-preserve" given ∷ []
      else [])
    ++ (field_options py configuration legacy_before_overrides
        ++ (override_options py (configuration.field "override_tensor")
            ++ (field_options py configuration legacy_after_overrides
                ++ all_advanced py configuration.advanced)))

same_text-eq : (s t : String) → same_text s t ≡ true → s ≡ t
same_text-eq s t h = elim (string_discrete s t) [ yes p ↦ p | no n ↦ cc (rw (if_neg _ n) at h) ]

same_options-entries :
    (os qs : List EmittedOption) → same_options os qs ≡ true → preset_entries os ≡ preset_entries qs
unfolding same_options
same_options-entries [] [] h = refl
same_options-entries [] (q ∷ qs) h = cc
same_options-entries (o ∷ os) [] h = cc
same_options-entries (o ∷ os) (q ∷ qs) h = ground (
  arith,
  same_options-entries os qs,
  same_text-eq o.name q.name,
  same_text-eq (preset_value o.value) (preset_value q.value),
)

module _ (py : Python) (catalog : ArgumentCatalog) where
  stored_value-preset :
      (v : OptionValue) → preset_value (raw_option py (stored_value v)) ≡ preset_value v
  unfolding format_value
  stored_value-preset given = refl
  stored_value-preset (worth t) = refl

  pub raw_argument-entries :
      (origin : String) (o : EmittedOption)
      → preset_entries (emit_argument py catalog (raw_argument origin o)) ≡ preset_entry o ∷ []
  unfolding emit_argument emit_raw
  raw_argument-entries origin o = ap (λ t. (o.name, t) ∷ []) (stored_value-preset o.value)

  -- What migration makes of an option and those that repeat it: a catalogued argument that emits
  -- them all, or a raw one that emits the first.
  abbrev Keeps : EmittedOption → List EmittedOption → ProfileArgument → Type 0
  Keeps first rest a =
      (preset_entries (emit_argument py catalog a) ≡ preset_entries (first ∷ rest))
      ⊎ ((a.catalog_id ≡ none)
          × (preset_entries (emit_argument py catalog a) ≡ preset_entry first ∷ []))

  raw_argument-Keeps :
      (origin : String) (first : EmittedOption) (rest : List EmittedOption)
      → Keeps first rest (raw_argument origin first)
  raw_argument-Keeps origin first rest = inr (refl, raw_argument-entries origin first)

  choose_candidate-Keeps :
      (definition : ArgumentDefinition) (first : EmittedOption) (rest : List EmittedOption)
      (result : Result ArgumentValue)
      → Keeps first rest (choose_candidate py catalog definition first rest result)
  unfolding choose_candidate
  choose_candidate-Keeps definition first rest (err e) = raw_argument-Keeps _ first rest
  choose_candidate-Keeps definition first rest (ok v) =
      if-cases (Keeps first rest) (same_options _ _) (λ same. inl (same_options-entries _ _ same))
        (λ _. raw_argument-Keeps _ first rest)

  migrate_match-Keeps :
      (found : FlagMatch) (first : EmittedOption) (rest : List EmittedOption)
      → Keeps first rest (migrate_match py catalog found first rest)
  unfolding migrate_match
  migrate_match-Keeps found first rest =
      if-cases (Keeps first rest) (is_removed found.definition.control)
        (λ _. raw_argument-Keeps _ first rest)
        (λ _.
          if-cases (Keeps first rest) (not (is_editable found.definition.control))
            (λ _. raw_argument-Keeps _ first rest)
            (λ _.
              elim (candidate_value found first rest)
                as (λ raw. Keeps first rest (elim raw [
                  | none ↦ raw_argument "catalog-mismatch" first
                  | some raw ↦
                      choose_candidate py catalog found.definition first rest
                        (coerce_catalog_value py found.definition.value raw)
                ])) [
                  | none ↦ raw_argument-Keeps _ first rest
                  | some raw ↦ choose_candidate-Keeps found.definition first rest _
                ]))

  pub migrate_option-Keeps :
      (first : EmittedOption) (rest : List EmittedOption)
      → Keeps first rest (migrate_option py catalog first rest)
  unfolding migrate_option
  migrate_option-Keeps first rest =
      elim (resolve catalog first.name)
        as (λ found. Keeps first rest (elim found [
          | none ↦ raw_argument "catalog-mismatch" first
          | some found ↦ migrate_match py catalog found first rest
        ])) [
          | none ↦ raw_argument-Keeps _ first rest
          | some found ↦ migrate_match-Keeps found first rest
        ]

  -- An option on its own keeps its name and value.
  pub migrate_option-entries :
      (o : EmittedOption)
      → preset_entries (emit_argument py catalog (migrate_option py catalog o []))
        ≡ preset_entry o ∷ []
  migrate_option-entries o = elim (migrate_option-Keeps o []) [
    | inl same ↦ same
    | inr (raw, same) ↦ same
  ]

  -- The arguments emit options with the names and preset values of these.
  pub record Emits (arguments : List ProfileArgument) (os : List EmittedOption) : Type 0 where
    pub entries : preset_entries (emit_arguments py catalog arguments) ≡ preset_entries os
