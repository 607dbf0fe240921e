-- ===== src/Profile/Coerce/Stable.antt =====
-- Coercion of a value that has the type of the schema (domain/profile_arguments.py).
use llama_web_ui.Prelude.{
  ◌≡◌, refl, ap, String, Bool, true, false, Option, none, some, List, [], ◌∷◌, map, contains, arith,
  All,
}
use llama_web_ui.Profile.Value.{
  Number, int, float, number, Raw, one, list, ListItem, item_text, item_number, ArgumentValue,
  items, scalar_of, raw_of, ok, Python,
}
use llama_web_ui.Profile.Catalog.{ValueSchema, ValueType}
use llama_web_ui.Profile.Coerce.{
  coerce_boolean, check_text, coerce_text, read_number, check_number, special_value, coerce_number,
  check_pattern, coerce_text_item, coerce_item, coerce_items, coerce_list, raw_items, check_kind,
  coerce_as, coerce_catalog_value, ItemKind, whole_item, fraction_item, text_item, item_kind,
}
use llama_web_ui.Profile.Coerce.Types.{
  IsText, IsFormed, IsOfKind, IsInRange, IsNumeric, IsItem, HasType, of_boolean, of_integer,
  of_number, of_list, of_string, of_path, of_enum, of_json,
}
use llama_web_ui.Profile.Coerce.Typed.{coerce_catalog_value-HasType}

module _ (py : Python) where
  check_text-ok : (t : String) → IsText py t → check_text py t ≡ ok t
  unfolding check_text
  check_text-ok t (some_text, clean) = rw (some_text, clean) refl

  check_pattern-ok :
      (p : Option String) (t : String) → IsFormed py p t → check_pattern py p t ≡ ok t
  unfolding check_pattern
  check_pattern-ok none t formed = refl
  check_pattern-ok (some p) t formed = rw formed refl

  read_number-ok :
      (whole : Bool) (n : Number)
      → IsOfKind py whole n
      → read_number py whole (one (number n)) ≡ ok n
  unfolding read_number
  read_number-ok whole (int n) k = refl
  read_number-ok false (float f) k = refl
  read_number-ok true (float f) k = absurd k

  check_number-ok :
      (minimum maximum : Option Number) (n : Number)
      → IsInRange py minimum maximum n
      → check_number py minimum maximum n ≡ ok (item_number n)
  unfolding check_number
  check_number-ok minimum maximum n (finite, least, most) = ground (arith, finite, least, most)

  coerce_number-ok :
      (whole : Bool) (specials : List String) (minimum maximum : Option Number) (i : ListItem)
      → IsNumeric py whole specials minimum maximum i
      → coerce_number py whole specials minimum maximum (one (scalar_of i)) ≡ ok i
  unfolding coerce_number special_value
  coerce_number-ok whole specials minimum maximum (item_text t) (special, stripped) =
      ground (arith, special, stripped, ap (contains specials) stripped)
  coerce_number-ok whole specials minimum maximum (item_number n) (kind, range) =
      rw (read_number-ok whole n kind) (check_number-ok minimum maximum n range)

  coerce_item-ok :
      (schema : ValueSchema) (kind : ItemKind) (i : ListItem)
      → IsItem py schema kind i
      → coerce_item py schema kind (scalar_of i) ≡ ok i
  unfolding coerce_item coerce_text_item coerce_text
  coerce_item-ok schema whole_item i h = coerce_number-ok true [] none none i h
  coerce_item-ok schema fraction_item i h = coerce_number-ok false [] none none i h
  coerce_item-ok schema text_item (item_text t) (good, (free, formed)) =
      rw (check_text-ok t good) (rw free (rw (check_pattern-ok schema.pattern t formed) refl))
  coerce_item-ok schema text_item (item_number n) h = absurd h

  coerce_items-ok :
      (schema : ValueSchema) (is : List ListItem)
      → All (IsItem py schema (item_kind schema.item_type)) is
      → coerce_items py schema (map scalar_of is) ≡ ok is
  unfolding coerce_items
  coerce_items-ok schema [] h = refl
  coerce_items-ok schema (i ∷ is) (h, hs) =
      rw (coerce_item-ok schema (item_kind schema.item_type) i h, coerce_items-ok schema is hs) refl

  coerce_list-ok :
      (schema : ValueSchema) (is : List ListItem)
      → HasType py schema ValueType.list (items is)
      → coerce_list py schema (list (map scalar_of is)) ≡ ok (items is)
  unfolding coerce_list raw_items
  coerce_list-ok schema [] (of_list some_item h) = absurd (some_item refl)
  coerce_list-ok schema (i ∷ is) (of_list some_item h) = rw (coerce_items-ok schema (i ∷ is) h) refl

  coerce_as-ok :
      (schema : ValueSchema) {type : ValueType} {v : ArgumentValue}
      → HasType py schema type v
      → coerce_as py schema type (raw_of v) ≡ ok v
  unfolding coerce_as coerce_text check_kind
  coerce_as-ok schema of_boolean = unfold coerce_boolean in refl
  coerce_as-ok schema (of_integer {i = i} h) = rw (coerce_number-ok true _ _ _ i h) refl
  coerce_as-ok schema (of_number {i = i} h) = rw (coerce_number-ok false _ _ _ i h) refl
  coerce_as-ok schema (of_list some_item h) = coerce_list-ok schema _ (of_list some_item h)
  coerce_as-ok schema (of_string {t = t} good formed) =
      rw (check_text-ok t good, check_pattern-ok schema.pattern t formed) refl
  coerce_as-ok schema (of_path {t = t} good formed) =
      rw (check_text-ok t good, check_pattern-ok schema.pattern t formed) refl
  coerce_as-ok schema (of_enum {t = t} good listed formed) =
      rw (check_text-ok t good, listed, check_pattern-ok schema.pattern t formed) refl
  coerce_as-ok schema (of_json {t = t} good valid formed) =
      rw (check_text-ok t good, valid, check_pattern-ok schema.pattern t formed) refl

-- A value that coercion gave for a schema is coerced to itself by that schema, if stripping a
-- stripped text changes nothing.
pub coerce_catalog_value-Stable :
    (py : Python) (schema : ValueSchema) (raw : Raw) {v : ArgumentValue}
    → ((s : String) → py.strip (py.strip s) ≡ py.strip s)
    → coerce_catalog_value py schema raw ≡ ok v
    → coerce_catalog_value py schema (raw_of v) ≡ ok v
coerce_catalog_value-Stable py schema raw idem h =
    coerce_as-ok py schema (coerce_catalog_value-HasType py schema raw idem h)
