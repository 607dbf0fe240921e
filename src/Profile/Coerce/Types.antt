-- ===== src/Profile/Coerce/Types.antt =====
-- The types of the values of launch arguments, by the schema of a definition
-- (domain/profile_arguments.py).
use llama_web_ui.Prelude.{
  ◌≡◌, ◌≢◌, String, Bool, true, false, Option, none, some, List, [], All, contains, same_text,
}
use llama_web_ui.Profile.Value.{
  Number, float, ListItem, item_text, item_number, ArgumentValue, single, switch, items, Python,
}
use llama_web_ui.Profile.Catalog.{
  ValueSchema, ValueType, boolean, integer, real_number, string, path, enum, json,
}
use llama_web_ui.Profile.Coerce.{
  ItemKind, whole_item, fraction_item, text_item, item_kind, has_separator, is_infinite, is_below,
  is_above,
}

module _ (py : Python) where
  -- A text that is not empty, without control characters.
  abbrev pub IsText : String → Type 0
  IsText t = (same_text t "" ≡ false) × (py.has_control t ≡ false)

  abbrev pub IsFormed : Option String → String → Type 0
  IsFormed none t = Unit
  IsFormed (some pattern) t = py.search pattern t ≡ true

  -- A number of the kind, whole or not.
  abbrev pub IsOfKind : Bool → Number → Type 0
  IsOfKind true (float f) = ⊥
  IsOfKind whole n = Unit

  -- A number that is finite and within the bounds that the schema sets.
  abbrev pub IsInRange : Option Number → Option Number → Number → Type 0
  IsInRange minimum maximum n =
      (is_infinite py n ≡ false) × (is_below py n minimum ≡ false) × (is_above py n maximum ≡ false)

  -- A special value, stripped, or such a number.
  abbrev pub IsNumeric : Bool → List String → Option Number → Option Number → ListItem → Type 0
  IsNumeric whole specials minimum maximum (item_text t) =
      (contains specials t ≡ true) × (py.strip t ≡ t)
  IsNumeric whole specials minimum maximum (item_number n) =
      IsOfKind whole n × IsInRange minimum maximum n

  abbrev pub IsItem : ValueSchema → ItemKind → ListItem → Type 0
  IsItem schema whole_item i = IsNumeric true [] none none i
  IsItem schema fraction_item i = IsNumeric false [] none none i
  IsItem schema text_item (item_text t) =
      IsText t × ((has_separator py schema.separator t ≡ false) × IsFormed schema.pattern t)
  IsItem schema text_item (item_number n) = ⊥

  -- The value has the type of the schema.
  pub data HasType (schema : ValueSchema) : ValueType → ArgumentValue → Type 0 where
    of_boolean : {b : Bool} → HasType schema boolean (switch b)
    of_integer :
        {i : ListItem}
        → IsNumeric true schema.special_values schema.minimum schema.maximum i
        → HasType schema integer (single i)
    of_number :
        {i : ListItem}
        → IsNumeric false schema.special_values schema.minimum schema.maximum i
        → HasType schema real_number (single i)
    of_list :
        {is : List ListItem}
        → is ≢ []
        → All (IsItem schema (item_kind schema.item_type)) is
        → HasType schema ValueType.list (items is)
    of_string :
        {t : String}
        → IsText t
        → IsFormed schema.pattern t
        → HasType schema string (single (item_text t))
    of_path :
        {t : String}
        → IsText t
        → IsFormed schema.pattern t
        → HasType schema path (single (item_text t))
    of_enum :
        {t : String}
        → IsText t
        → contains schema.options t ≡ true
        → IsFormed schema.pattern t
        → HasType schema enum (single (item_text t))
    of_json :
        {t : String}
        → IsText t
        → py.is_json t ≡ true
        → IsFormed schema.pattern t
        → HasType schema json (single (item_text t))
