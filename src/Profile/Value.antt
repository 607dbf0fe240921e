-- ===== src/Profile/Value.antt =====
-- The values of launch arguments (domain/profile_arguments.py), and what Python's own functions
-- answer about them, the record `Python`.
use llama_web_ui.Prelude.{ℤ, String, Bool, Option, List, map}

-- An `int`, or a `float` by its `repr`, which no two floats share.
pub data Number : Type 0 where
  int : ℤ → Number
  float : String → Number

-- A value of the API, of an import or of the store that is not a list: `other` is one that is no
-- text, number or Boolean, by its JSON text.
pub data Scalar : Type 0 where
  text : String → Scalar
  number : Number → Scalar
  flag : Bool → Scalar
  other : String → Scalar

pub data Raw : Type 0 where
  one : Scalar → Raw
  list : List Scalar → Raw

-- `ListItem` and `ArgumentValue`.
pub data ListItem : Type 0 where
  item_text : String → ListItem
  item_number : Number → ListItem

pub data ArgumentValue : Type 0 where
  single : ListItem → ArgumentValue
  switch : Bool → ArgumentValue
  items : List ListItem → ArgumentValue

abbrev pub scalar_of : ListItem → Scalar
scalar_of (item_text t) = text t
scalar_of (item_number n) = number n

-- A value as it is read again: a tuple as a list.
abbrev pub raw_of : ArgumentValue → Raw
raw_of (single i) = one (scalar_of i)
raw_of (switch b) = one (flag b)
raw_of (items is) = list (map scalar_of is)

-- The errors of this file, by the check that finds them.
pub data ValueError : Type 0 where
  not_boolean not_text empty_value control_character not_a_number not_whole : ValueError
  not_finite below_minimum above_maximum no_items separator_in_item not_an_option : ValueError
  not_json bad_format : ValueError

pub data Result {ℓ} (A : Type ℓ) : Type ℓ where
  ok : A → Result A
  err : ValueError → Result A

module _ {ℓ κ} {A : Type ℓ} {B : Type κ} where
  infixl 1 ◌>>=◌
  abbrev pub ◌>>=◌ : Result A → (A → Result B) → Result B
  ok a >>= f = f a
  err e >>= f = err e

pub record Python : Type 0 where
  pub strip : String → String
  pub lower : String → String
  pub parse_int : String → Option ℤ  -- `int(t)`, if `_INTEGER_PATTERN` matches all of it
  pub parse_float : String → Option String  -- `float(t)`, if it does not raise
  pub is_integer : String → Bool  -- `float.is_integer`
  pub to_int : String → ℤ  -- `int(f)`
  pub is_finite : String → Bool  -- `math.isfinite`
  pub less : Number → Number → Bool
  pub show_int : ℤ → String  -- `str(n)`
  pub show_other : Raw → String  -- `str` of a list, `None` or a dictionary
  pub is_json : String → Bool  -- `json.loads` does not raise
  pub has_control : String → Bool  -- `_CONTROL_CHARACTERS.search`
  pub search : String → String → Bool  -- `re.search(pattern, t) is not None`
  pub split : String → String → List String  -- `t.split(separator)`, the separator first
  pub occurs : String → String → Bool  -- `separator in t`
  pub join : String → List String → String  -- `separator.join(texts)`
  pub strip_dashes : String → String  -- `t.lstrip("-")`

-- `_format_number`, and `str` of a list item.
abbrev pub format_number : Python → Number → String
format_number py (int n) = py.show_int n
format_number py (float f) = f

abbrev pub format_item : Python → ListItem → String
format_item py (item_text t) = t
format_item py (item_number n) = format_number py n
