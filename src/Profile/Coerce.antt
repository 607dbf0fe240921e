-- ===== src/Profile/Coerce.antt =====
-- The coercion of values (domain/profile_arguments.py): from what the API, an import or the store
-- holds to the canonical value of a definition.
pub mod Stable
pub mod Types
pub mod Checks
pub mod Typed
use llama_web_ui.Prelude.{
  ℕ, String, Bool, true, false, Option, none, some, List, [], ◌∷◌, ◌&&◌, ◌||◌, not, map, any,
  contains, same_text, if◌then◌else◌,
}
use llama_web_ui.Profile.Value.{
  Number, int, float, Scalar, text, number, flag, other, Raw, one, list, ListItem, item_text,
  item_number, ArgumentValue, single, switch, items, Result, ok, err, ◌>>=◌, Python, format_number,
  not_boolean, not_text, empty_value, control_character, not_a_number, not_whole, not_finite,
  below_minimum, above_maximum, no_items, separator_in_item, not_an_option, not_json, bad_format,
}
use llama_web_ui.Profile.Catalog.{
  ValueSchema, ValueType, boolean, integer, real_number, string, path, enum, json, ItemType,
  string_item, integer_item, number_item, path_item,
}

-- `_coerce_boolean`.
unfoldable pub coerce_boolean : Python → Raw → Result Bool
coerce_boolean py (one (flag b)) = ok b
coerce_boolean py (one (text t)) =
    let word = py.lower (py.strip t) in
    if contains ("true" ∷ "1" ∷ "on" ∷ "yes" ∷ []) word
    then ok true
    else if contains ("false" ∷ "0" ∷ "off" ∷ "no" ∷ []) word
    then ok false
    else err not_boolean
coerce_boolean py _ = err not_boolean

-- The checks of `_coerce_text` on its text.
unfoldable pub check_text : Python → String → Result String
check_text py t =
    if same_text t ""
    then err empty_value
    else if py.has_control t
    then err control_character
    else ok t

-- `_coerce_text`.
unfoldable pub coerce_text : Python → Raw → Result String
coerce_text py (one (text t)) = check_text py t
coerce_text py (one (number n)) = check_text py (format_number py n)
coerce_text py _ = err not_text

-- The number that `_coerce_number` reads.
unfoldable pub read_number : Python → Bool → Raw → Result Number
read_number py whole (one (number (int n))) = ok (int n)
read_number py whole (one (number (float f))) =
    if whole
    then (if py.is_integer f then ok (int (py.to_int f)) else err not_whole)
    else ok (float f)
read_number py whole (one (text t)) = elim (py.parse_int (py.strip t)) [
  | some n ↦ ok (int n)
  | none ↦
      if whole
      then err not_a_number
      else elim (py.parse_float (py.strip t)) [ some f ↦ ok (float f) | none ↦ err not_a_number ]
]
read_number py whole _ = err not_a_number

abbrev pub is_below : Python → Number → Option Number → Bool
is_below py n none = false
is_below py n (some least) = py.less n least

abbrev pub is_above : Python → Number → Option Number → Bool
is_above py n none = false
is_above py n (some most) = py.less most n

abbrev pub is_infinite : Python → Number → Bool
is_infinite py (int n) = false
is_infinite py (float f) = not (py.is_finite f)

-- The checks of `_coerce_number` on its number.
unfoldable pub check_number : Python → Option Number → Option Number → Number → Result ListItem
check_number py minimum maximum n =
    if is_infinite py n
    then err not_finite
    else if is_below py n minimum
    then err below_minimum
    else if is_above py n maximum
    then err above_maximum
    else ok (item_number n)

-- The special value that a text is, stripped.
unfoldable pub special_value : Python → List String → Raw → Option String
special_value py specials (one (text t)) =
    if contains specials (py.strip t) then some (py.strip t) else none
special_value py specials _ = none

-- `_coerce_number`, with what it reads of the schema.
unfoldable pub coerce_number :
    Python → Bool → List String → Option Number → Option Number → Raw → Result ListItem
coerce_number py whole specials minimum maximum raw = elim (special_value py specials raw) [
  | some t ↦ ok (item_text t)
  | none ↦ read_number py whole raw >>= check_number py minimum maximum
]

-- `_check_pattern`.
unfoldable pub check_pattern : Python → Option String → String → Result String
check_pattern py none t = ok t
check_pattern py (some pattern) t = if py.search pattern t then ok t else err bad_format

-- What an item of a list is read as.
pub data ItemKind : Type 0 where
  whole_item fraction_item text_item : ItemKind

abbrev pub item_kind : Option ItemType → ItemKind
item_kind (some integer_item) = whole_item
item_kind (some number_item) = fraction_item
item_kind _ = text_item

abbrev pub has_separator : Python → Option String → String → Bool
has_separator py none t = false
has_separator py (some separator) t = py.occurs separator t

-- A text item: `_coerce_text`, the separator and `_check_pattern`.
unfoldable pub coerce_text_item : Python → ValueSchema → Scalar → Result ListItem
coerce_text_item py schema item = coerce_text py (one item) >>= λ t.
    (if has_separator py schema.separator t
      then err separator_in_item
      else (check_pattern py schema.pattern t >>= λ t'. ok (item_text t')))

-- One turn of the loop of `_coerce_list`.
unfoldable pub coerce_item : Python → ValueSchema → ItemKind → Scalar → Result ListItem
coerce_item py schema whole_item item = coerce_number py true [] none none (one item)
coerce_item py schema fraction_item item = coerce_number py false [] none none (one item)
coerce_item py schema text_item item = coerce_text_item py schema item

unfoldable pub coerce_items : Python → ValueSchema → List Scalar → Result (List ListItem)
coerce_items py schema [] = ok []
coerce_items py schema (item ∷ rest) =
    coerce_item py schema (item_kind schema.item_type) item >>= λ i.
    coerce_items py schema rest >>= λ is. ok (i ∷ is)

-- The items that a raw value has.
unfoldable pub raw_items : Python → Option String → Raw → List Scalar
raw_items py separator (list is) = is
raw_items py (some separator) (one (text t)) = map text (py.split separator t)
raw_items py separator (one s) = s ∷ []

-- `_coerce_list`.
unfoldable pub coerce_list : Python → ValueSchema → Raw → Result ArgumentValue
coerce_list py schema raw = elim (raw_items py schema.separator raw) [
  | [] ↦ err no_items
  | i ∷ is ↦ coerce_items py schema (i ∷ is) >>= λ coerced. ok (items coerced)
]

-- The check of an enumeration or a JSON text, and `_check_pattern`.
unfoldable pub check_kind : Python → ValueSchema → ValueType → String → Result String
check_kind py schema enum t =
    if contains schema.options t then check_pattern py schema.pattern t else err not_an_option
check_kind py schema json t =
    if py.is_json t then check_pattern py schema.pattern t else err not_json
check_kind py schema _ t = check_pattern py schema.pattern t

-- The branches of `coerce_catalog_value`.
unfoldable pub coerce_as : Python → ValueSchema → ValueType → Raw → Result ArgumentValue
coerce_as py schema boolean raw = coerce_boolean py raw >>= λ b. ok (switch b)
coerce_as py schema ValueType.list raw = coerce_list py schema raw
coerce_as py schema integer raw =
    coerce_number py true schema.special_values schema.minimum schema.maximum raw >>= λ i.
    ok (single i)
coerce_as py schema real_number raw =
    coerce_number py false schema.special_values schema.minimum schema.maximum raw >>= λ i.
    ok (single i)
coerce_as py schema type raw =
    coerce_text py raw >>= check_kind py schema type >>= λ t. ok (single (item_text t))

abbrev pub coerce_catalog_value : Python → ValueSchema → Raw → Result ArgumentValue
coerce_catalog_value py schema raw = coerce_as py schema schema.type raw
