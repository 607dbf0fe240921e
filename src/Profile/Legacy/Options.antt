-- ===== src/Profile/Legacy/Options.antt =====
-- The options that a migrated configuration emits.
use llama_web_ui.Prelude.{
  String, true, false, none, some, List, [], ◌∷◌, ◌++◌, map, ◌≡◌, inl, inr, refl, sym, ap, ◌∙◌,
  is_some, if-cases, if◌then◌else◌, append_text,
}
use mathlib.Core.List.{map-append, append_assoc, append-nil}
use llama_web_ui.Profile.Value.{Python}
use llama_web_ui.Profile.Catalog.{ArgumentCatalog}
use llama_web_ui.Profile.Emit.{ProfileArgument, given, EmittedOption, emit_argument, emit_arguments}
use llama_web_ui.Profile.Legacy.{
  AdvancedEntry, LegacyConfiguration, legacy_raw_value, plain, raw_argument, migrate_option,
  migrate_fields, migrate_overrides, advanced_options, migrate_advanced, is_true,
  migrate_legacy_configuration,
}
use llama_web_ui.Profile.Legacy.Entries.{
  Emits, all_advanced, field_options, legacy_options, migrate_option-Keeps, migrate_option-entries,
  preset_entries, preset_entry, raw_argument-entries,
}

module _ (py : Python) (catalog : ArgumentCatalog) where
  Emits-cons :
      (a : ProfileArgument) (o : EmittedOption) {arguments : List ProfileArgument}
      {os : List EmittedOption}
      → preset_entries (emit_argument py catalog a) ≡ preset_entry o ∷ []
      → Emits py catalog arguments os
      → Emits py catalog (a ∷ arguments) (o ∷ os)
  unfolding emit_arguments
  Emits-cons a o {arguments = arguments} h hs = record {
    entries =
        map-append preset_entry (emit_argument py catalog a) (emit_arguments py catalog arguments)
        ∙ rw h (ap (◌∷◌ (preset_entry o)) hs.entries);
  }

  emit_arguments-append :
      (xs ys : List ProfileArgument)
      → preset_entries (emit_arguments py catalog (xs ++ ys))
        ≡ preset_entries (emit_arguments py catalog xs)
          ++ preset_entries (emit_arguments py catalog ys)
  unfolding emit_arguments
  emit_arguments-append [] ys = refl
  emit_arguments-append (x ∷ xs) ys =
      let here = emit_argument py catalog x in
      let there = emit_arguments py catalog xs in
      map-append preset_entry here (emit_arguments py catalog (xs ++ ys))
      ∙ ap (◌++◌ (preset_entries here)) (emit_arguments-append xs ys)
      ∙ sym (
          append_assoc (preset_entries here) (preset_entries there)
            (preset_entries (emit_arguments py catalog ys)))
      ∙ ap (λ es. es ++ preset_entries (emit_arguments py catalog ys))
          (sym (map-append preset_entry here there))

  Emits-append :
      (xs ys : List ProfileArgument) {os qs : List EmittedOption}
      → Emits py catalog xs os
      → Emits py catalog ys qs
      → Emits py catalog (xs ++ ys) (os ++ qs)
  Emits-append xs ys {os = os} {qs = qs} h k = record {
    entries =
        emit_arguments-append xs ys
        ∙ rw (h.entries) (rw (k.entries) (sym (map-append preset_entry os qs)));
  }

  Emits-nil : Emits py catalog [] []
  unfolding emit_arguments
  Emits-nil = record { entries = refl }

  Emits-only :
      (a : ProfileArgument) (os : List EmittedOption)
      → preset_entries (emit_argument py catalog a) ≡ preset_entries os
      → Emits py catalog (a ∷ []) os
  unfolding emit_arguments
  Emits-only a os h = record {
    entries = ap preset_entries (append-nil (emit_argument py catalog a)) ∙ h;
  }

  migrate_fields-Emits :
      (configuration : LegacyConfiguration) (table : List (String × String))
      → Emits py catalog
          (migrate_fields py catalog configuration table)
          (field_options py configuration table)
  unfolding migrate_fields
  migrate_fields-Emits configuration [] = Emits-nil
  migrate_fields-Emits configuration ((field_name, name) ∷ rest) =
      elim (configuration.field field_name)
        as (λ found.
          Emits py catalog
            (elim found [
              | none ↦ migrate_fields py catalog configuration rest
              | some raw ↦
                  migrate_option py catalog
                    (plain (append_text "--" name) (legacy_raw_value py raw)) []
                  ∷ migrate_fields py catalog configuration rest
            ])
            (elim found [
              | none ↦ field_options py configuration rest
              | some raw ↦
                  plain (append_text "--" name) (legacy_raw_value py raw)
                  ∷ field_options py configuration rest
            ])) [
              | none ↦ migrate_fields-Emits configuration rest
              | some raw ↦
                  Emits-cons _ (plain (append_text "--" name) (legacy_raw_value py raw))
                    (migrate_option-entries py catalog _) (migrate_fields-Emits configuration rest)
            ]

  raw_arguments-Emits :
      (origin : String) (os : List EmittedOption)
      → Emits py catalog (map (raw_argument origin) os) os
  raw_arguments-Emits origin [] = Emits-nil
  raw_arguments-Emits origin (o ∷ os) =
      Emits-cons _ o (raw_argument-entries py catalog origin o) (raw_arguments-Emits origin os)

  migrate_overrides-Emits :
      (os : List EmittedOption) → Emits py catalog (migrate_overrides py catalog os) os
  unfolding migrate_overrides
  migrate_overrides-Emits [] = Emits-nil
  migrate_overrides-Emits (o ∷ os) =
      if-cases (λ arguments. Emits py catalog arguments (o ∷ os))
        (is_some (migrate_option py catalog o os).catalog_id)
        (λ typed. elim (migrate_option-Keeps py catalog o os) [
          | inl same ↦ Emits-only _ _ same
          | inr (raw, same) ↦ cc (rw raw at typed)
        ])
        (λ _. raw_arguments-Emits _ (o ∷ os))

  migrate_advanced-Emits :
      (entries : List AdvancedEntry)
      → Emits py catalog (migrate_advanced py catalog entries) (all_advanced py entries)
  unfolding migrate_advanced
  migrate_advanced-Emits [] = Emits-nil
  migrate_advanced-Emits (entry ∷ rest) =
      Emits-append _ _ (migrated (advanced_options py entry)) (migrate_advanced-Emits rest)
    where
      migrated :
          (os : List EmittedOption)
          → Emits py catalog (map (λ o. migrate_option py catalog o []) os) os
      migrated [] = Emits-nil
      migrated (o ∷ os) = Emits-cons _ o (migrate_option-entries py catalog o) (migrated os)

  migrate_legacy_configuration-Emits :
      (configuration : LegacyConfiguration)
      → Emits py catalog
          (migrate_legacy_configuration py catalog configuration)
          (legacy_options py configuration)
  unfolding migrate_legacy_configuration legacy_options
  migrate_legacy_configuration-Emits configuration = Emits-append _ _ preserved (
      Emits-append _ _ (migrate_fields-Emits configuration _) (
        Emits-append _ _ (migrate_overrides-Emits _) (
          Emits-append _ _ (migrate_fields-Emits configuration _)
            (migrate_advanced-Emits configuration.advanced))))
    where
      preserved :
          Emits py catalog
            (if is_true (configuration.field "no_reasoning_preserve")
              then (migrate_option py catalog (plain "--no-reasoning-preserve" given) [] ∷ [])
              else [])
            (if is_true (configuration.field "no_reasoning_preserve")
              then plain "--no-reasoning-preserve" given ∷ []
              else [])
      preserved =
          elim (is_true (configuration.field "no_reasoning_preserve"))
            as (λ b.
              Emits py catalog
                (if b
                  then (migrate_option py catalog (plain "--no-reasoning-preserve" given) [] ∷ [])
                  else [])
                (if b then plain "--no-reasoning-preserve" given ∷ [] else [])) [
                  | true ↦ Emits-only _ _ (migrate_option-entries py catalog _)
                  | false ↦ Emits-nil
                ]

-- The arguments that a flat configuration is migrated to emit its options: as many, with the same
-- names and preset values, in the same order.
pub migrate_legacy_configuration-legacy_options :
    (py : Python) (catalog : ArgumentCatalog) (configuration : LegacyConfiguration)
    → preset_entries
        (emit_arguments py catalog (migrate_legacy_configuration py catalog configuration))
      ≡ preset_entries (legacy_options py configuration)
migrate_legacy_configuration-legacy_options py catalog configuration =
    (migrate_legacy_configuration-Emits py catalog configuration).entries
