-- ===== src/Profile/Coerce/Typed.antt =====
-- The values that coercion gives, and the types that they have (domain/profile_arguments.py).
use llama_web_ui.Prelude.{
  ◌≡◌, refl, sym, subst, String, true, false, none, List, [], ◌∷◌, All, contains, if-cases,
}
use llama_web_ui.Profile.Value.{
  Scalar, Raw, one, item_text, ArgumentValue, single, items, Result, ok, err, ◌>>=◌, Python,
}
use llama_web_ui.Profile.Catalog.{
  ValueSchema, ValueType, boolean, integer, real_number, string, path, enum, json,
}
use llama_web_ui.Profile.Coerce.{
  coerce_boolean, coerce_text, coerce_text_item, coerce_item, coerce_items, coerce_list, raw_items,
  check_kind, coerce_as, coerce_catalog_value, ItemKind, whole_item, fraction_item, text_item,
  item_kind, has_separator,
}
use llama_web_ui.Profile.Coerce.Types.{
  IsText, IsFormed, IsItem, HasType, of_boolean, of_integer, of_number, of_list, of_string, of_path,
  of_enum, of_json,
}
use llama_web_ui.Profile.Coerce.Checks.{
  Gives, gives, refuses, >>=-Gives, Gives-ok, coerce_text-IsText, check_pattern-IsFormed,
  coerce_number-IsNumeric,
}

module _ (py : Python) where
  module _ (idem : (s : String) → py.strip (py.strip s) ≡ py.strip s) where
    coerce_text_item-IsItem :
        (schema : ValueSchema) (item : Scalar)
        → Gives (IsItem py schema text_item) (coerce_text_item py schema item)
    unfolding coerce_text_item
    coerce_text_item-IsItem schema item = >>=-Gives _ (coerce_text-IsText py (one item)) (λ t good.
        if-cases (Gives (IsItem py schema text_item)) (has_separator py schema.separator t)
          (λ _. refuses)
          (λ free.
            >>=-Gives _
              (check_pattern-IsFormed py schema.pattern t
                {P = λ x. (x ≡ t) × IsFormed py schema.pattern t} (λ formed. (refl, formed)))
              (λ t' (same, formed). gives (
                subst (λ x. IsItem py schema text_item (item_text x)) (sym same)
                  (good, (free, formed))))))

    coerce_item-IsItem :
        (schema : ValueSchema) (kind : ItemKind) (item : Scalar)
        → Gives (IsItem py schema kind) (coerce_item py schema kind item)
    unfolding coerce_item
    coerce_item-IsItem schema whole_item item =
        coerce_number-IsNumeric py idem true [] none none (one item)
    coerce_item-IsItem schema fraction_item item =
        coerce_number-IsNumeric py idem false [] none none (one item)
    coerce_item-IsItem schema text_item item = coerce_text_item-IsItem schema item

    coerce_items-All :
        (schema : ValueSchema) (raws : List Scalar)
        → Gives (All (IsItem py schema (item_kind schema.item_type))) (coerce_items py schema raws)
    unfolding coerce_items
    coerce_items-All schema [] = gives tt
    coerce_items-All schema (raw ∷ raws) =
        >>=-Gives _ (coerce_item-IsItem schema (item_kind schema.item_type) raw)
          (λ i h. >>=-Gives _ (coerce_items-All schema raws) (λ is hs. gives (h, hs)))

    coerce_items-cons :
        (schema : ValueSchema) (raw : Scalar) (raws : List Scalar)
        → Gives
            (λ is. HasType py schema ValueType.list (items is))
            (coerce_items py schema (raw ∷ raws))
    unfolding coerce_items
    coerce_items-cons schema raw raws =
        >>=-Gives _ (coerce_item-IsItem schema (item_kind schema.item_type) raw) (λ i h.
          >>=-Gives _ (coerce_items-All schema raws) (λ is hs. gives (of_list (λ e. cc) (h, hs))))

    coerce_list-HasType :
        (schema : ValueSchema) (raw : Raw)
        → Gives (HasType py schema ValueType.list) (coerce_list py schema raw)
    unfolding coerce_list
    coerce_list-HasType schema raw = from_items (raw_items py schema.separator raw) refl
      where
        from_items :
            (raws : List Scalar)
            → raw_items py schema.separator raw ≡ raws
            → Gives (HasType py schema ValueType.list) (coerce_list py schema raw)
        from_items [] e = rw (e, coerce_list) refuses
        from_items (r ∷ rs) e =
            rw (e, coerce_list) (>>=-Gives _ (coerce_items-cons schema r rs) (λ is h. gives h))

    coerce_text-HasType :
        (schema : ValueSchema) (type : ValueType) (raw : Raw)
        → ((t : String)
            → IsText py t
            → Gives
                (λ t'. HasType py schema type (single (item_text t')))
                (check_kind py schema type t))
        → Gives
            (HasType py schema type)
            (coerce_text py raw >>= check_kind py schema type >>= λ t. ok (single (item_text t)))
    coerce_text-HasType schema type raw on =
        >>=-Gives _ (>>=-Gives _ (coerce_text-IsText py raw) on) (λ t h. gives h)

    Gives-any {ℓ} : {A : Type ℓ} (r : Result A) → Gives (λ a. Unit) r
    Gives-any (ok a) = gives tt
    Gives-any (err e) = refuses

    coerce_as-HasType :
        (schema : ValueSchema) (type : ValueType) (raw : Raw)
        → Gives (HasType py schema type) (coerce_as py schema type raw)
    unfolding coerce_as check_kind
    coerce_as-HasType schema boolean raw =
        >>=-Gives _ (Gives-any (coerce_boolean py raw)) (λ b _. gives of_boolean)
    coerce_as-HasType schema ValueType.list raw = coerce_list-HasType schema raw
    coerce_as-HasType schema integer raw =
        >>=-Gives _ (coerce_number-IsNumeric py idem true _ _ _ raw) (λ i h. gives (of_integer h))
    coerce_as-HasType schema real_number raw =
        >>=-Gives _ (coerce_number-IsNumeric py idem false _ _ _ raw) (λ i h. gives (of_number h))
    coerce_as-HasType schema string raw =
        coerce_text-HasType schema string raw
          (λ t h. check_pattern-IsFormed py schema.pattern t (of_string h))
    coerce_as-HasType schema path raw =
        coerce_text-HasType schema path raw
          (λ t h. check_pattern-IsFormed py schema.pattern t (of_path h))
    coerce_as-HasType schema enum raw = coerce_text-HasType schema enum raw (λ t h.
        if-cases (Gives (λ t'. HasType py schema enum (single (item_text t'))))
          (contains schema.options t)
          (λ listed. check_pattern-IsFormed py schema.pattern t (of_enum h listed)) (λ _. refuses))
    coerce_as-HasType schema json raw = coerce_text-HasType schema json raw (λ t h.
        if-cases (Gives (λ t'. HasType py schema json (single (item_text t')))) (py.is_json t)
          (λ valid. check_pattern-IsFormed py schema.pattern t (of_json h valid)) (λ _. refuses))

-- A value that coercion gives has the type of the schema: a Boolean; a special value, or a number of
-- the kind within the bounds; a text that is not empty, has no control characters, is an option or
-- JSON where the schema asks for it, and matches its pattern; or a list with at least one item, each
-- such a number or such a text without the separator; if stripping a stripped text changes nothing.
pub coerce_catalog_value-HasType :
    (py : Python) (schema : ValueSchema) (raw : Raw) {v : ArgumentValue}
    → ((s : String) → py.strip (py.strip s) ≡ py.strip s)
    → coerce_catalog_value py schema raw ≡ ok v
    → HasType py schema schema.type v
coerce_catalog_value-HasType py schema raw idem h =
    Gives-ok (coerce_as-HasType py idem schema schema.type raw) h
