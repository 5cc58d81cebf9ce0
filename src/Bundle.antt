-- ===== src/Bundle.antt =====
-- configdirector-server-sdk/src/configdirector/_bundle.py, over the value that `json.loads` returns.
-- A key stands once in an object, as in a Python dictionary. `NotAConfigBundleError` is a
-- `ValueError`. A warning that is logged is left out.
pub mod Definitions
use python_server_sdk.Base.{
  ◌≡◌, Bool, true, false, not, ◌&&◌, Option, none, some, List, [], ◌∷◌, ℕ, zero, Text, codes,
  text_eq, ◌==◌, Error, Exc, ok, raised, ◌>>=◌, value_error, overflow_error, type_error, key_error,
  attribute_error, is_empty, if◌then◌else◌,
}
use python_server_sdk.Base.Dict.{Dict}
use python_server_sdk.Base.Int.{ℤ, pos, negsuc}
use python_server_sdk.Base.Python.{Python}
use python_server_sdk.Base.Json.{
  Scalar, text, int, float, bool, Value, Items, Fields, null, scalar, array, object, nil, cons, end,
  field, to_json_string,
}
use python_server_sdk.Evaluation.Pointer.{member}
use python_server_sdk.Evaluation.Types.{
  AttributeCondition, SegmentCondition, Condition, attribute_condition, segment_condition, Segment,
  Segments, Percentage, ConditionalRule, PercentageRule, Rule, conditional_rule, percentage_rule,
  TargetingRules, Variation, TypeConstraints, numeric_constraints, enum_constraints, Config,
}
use python_server_sdk.Client.{BundleKind, full, delta, ConfigBundle}

-- `except (AttributeError, KeyError, TypeError, ValueError)`
unfoldable pub is_caught : Error → Bool
is_caught value_error = true
is_caught type_error = true
is_caught key_error = true
is_caught attribute_error = true
is_caught _ = false

module _ {A B : Type 0} where
  -- `[f(x) for x in xs]`
  unfoldable pub for_each : (A → Exc B) → List A → Exc (List B)
  for_each f [] = ok []
  for_each f (a ∷ l) = do b ← f a; rest ← for_each f l; ok (b ∷ rest)

module _ {F : Type 0} where
  unfoldable pub or_null : Option (Value F) → Value F
  or_null none = null
  or_null (some v) = v

  -- `raw.get(key)`, where a missing value and a JSON null are both `None`
  unfoldable pub get_member : Text → Value F → Exc (Value F)
  unfolding or_null
  get_member key (object fields) = ok (or_null (member fields key))
  get_member key _ = raised attribute_error

  unfoldable pub found : Option (Value F) → Exc (Value F)
  found none = raised key_error
  found (some v) = ok v

  -- `raw[key]`
  unfoldable pub item_of : Text → Value F → Exc (Value F)
  unfolding found
  item_of key (object fields) = found (member fields key)
  item_of key _ = raised type_error

  unfoldable pub values_of : Items F → List (Value F)
  values_of nil = []
  values_of (cons v items) = v ∷ values_of items

  unfoldable pub keys_of : Fields F → List (Value F)
  keys_of end = []
  keys_of (field k v fields) = scalar (text k) ∷ keys_of fields

  unfoldable pub characters_of : Text → List (Value F)
  characters_of [] = []
  characters_of (c ∷ s) = scalar (text (c ∷ [])) ∷ characters_of s

  -- `for x in value`
  unfoldable pub iterate : Value F → Exc (List (Value F))
  unfolding values_of keys_of characters_of
  iterate (array items) = ok (values_of items)
  iterate (object fields) = ok (keys_of fields)
  iterate (scalar (text s)) = ok (characters_of s)
  iterate _ = raised type_error

  -- `_optional_string`
  unfoldable pub optional_string : Value F → Option Text
  optional_string (scalar (text s)) = some s
  optional_string _ = none

-- `str`, `json.dumps` and `int` where they are not written out: the text of a value that is not a
-- text, the compact JSON of an array or an object, and a finite float cut to an integer.
pub record Conversions (F : Type 0) : Type 0 where
  pub other_text : Value F → Text
  pub dumps : Value F → Text
  pub truncate : F → ℤ

module _ (py : Python) (conv : Conversions py.Float) where
  open py use {Float}

  -- `bool(value)`
  unfoldable pub truthy : Value Float → Bool
  truthy null = false
  truthy (scalar (text s)) = not (is_empty s)
  truthy (scalar (int (pos zero))) = false
  truthy (scalar (int _)) = true
  truthy (scalar (float x)) = not (py.float_eq x (py.whole 0))
  truthy (scalar (bool b)) = b
  truthy (array nil) = false
  truthy (array _) = true
  truthy (object end) = false
  truthy (object _) = true

  -- `for x in raw.get(key) or []`
  unfoldable pub items_at : Text → Value Float → Exc (List (Value Float))
  unfolding get_member iterate truthy
  items_at key raw = do v ← get_member key raw; if truthy v then iterate v else ok []

  -- `str(value)`
  unfoldable pub text_of : Value Float → Text
  text_of (scalar (text s)) = s
  text_of v = conv.other_text v

  -- `str(raw[key])`
  unfoldable pub text_at : Text → Value Float → Exc Text
  unfolding item_of text_of
  text_at key raw = do v ← item_of key raw; ok (text_of v)

  -- `_optional_string(raw.get(key))`
  unfoldable pub optional_at : Text → Value Float → Exc (Option Text)
  unfolding get_member optional_string
  optional_at key raw = do v ← get_member key raw; ok (optional_string v)

  -- `_as_string`
  unfoldable pub as_string : Value Float → Exc Text
  as_string null = ok []
  as_string (scalar v) = to_json_string py v
  as_string v = ok (conv.dumps v)

  -- `_rule_value`
  unfoldable pub rule_value : Value Float → Option (Scalar Float)
  rule_value null = none
  rule_value (scalar v) = some v
  rule_value v = some (text (conv.dumps v))

  -- `_optional_int`
  unfoldable pub optional_int : Value Float → Exc (Option ℤ)
  optional_int (scalar (int n)) = ok (some n)
  optional_int (scalar (float x)) =
      if py.is_nan x
      then raised value_error
      else if py.is_infinite x
      then raised overflow_error
      else ok (some (conv.truncate x))
  optional_int _ = ok none

  -- `float(value)`
  unfoldable pub to_float : Value Float → Exc Float
  to_float (scalar (int n)) = py.float_of_int n
  to_float (scalar (float x)) = ok x
  to_float (scalar (bool true)) = ok (py.whole 1)
  to_float (scalar (bool false)) = ok (py.whole 0)
  to_float (scalar (text s)) = elim (py.float_of_text s) [
    | none ↦ raised value_error
    | some x ↦ ok x
  ]
  to_float _ = raised type_error

  -- `_parse_percentage`
  unfoldable pub parse_percentage : Value Float → Exc (Percentage Float)
  unfolding text_at item_of to_float get_member rule_value optional_at
  parse_percentage raw = do
    id ← text_at (codes "id") raw
    share ← item_of (codes "percentage") raw
    percentage ← to_float share
    value ← get_member (codes "value") raw
    value_id ← optional_at (codes "valueId") raw
    ok (record { id = id; percentage = percentage; value = rule_value value; value_id = value_id })

  -- `raw.get("kind", "attribute")`: a null that is there is not missing
  unfoldable pub kind_or : Option (Value Float) → Text
  unfolding text_of
  kind_or none = codes "attribute"
  kind_or (some v) = text_of v

  -- `_condition_kind`
  unfoldable pub condition_kind : Value Float → Exc Text
  unfolding kind_or
  condition_kind (object fields) = ok (kind_or (member fields (codes "kind")))
  condition_kind _ = raised attribute_error

  unfoldable pub attribute_fields : Bool → Value Float → Exc AttributeCondition
  unfolding text_at items_at for_each as_string optional_at
  attribute_fields false raw = raised value_error
  attribute_fields true raw = do
    id ← text_at (codes "id") raw
    attribute ← text_at (codes "attribute") raw
    operator ← text_at (codes "operator") raw
    target_type ← text_at (codes "targetType") raw
    targets ← items_at (codes "targetValues") raw
    target_values ← for_each as_string targets
    trait ← optional_at (codes "trait") raw
    ok (record {
      id = id;
      attribute = attribute;
      operator = operator;
      target_type = target_type;
      target_values = target_values;
      trait = trait;
    })

  -- `_parse_attribute_condition`
  unfoldable pub parse_attribute_condition : Value Float → Exc AttributeCondition
  unfolding condition_kind attribute_fields
  parse_attribute_condition raw = do
    kind ← condition_kind raw
    attribute_fields (kind == codes "attribute") raw

  unfoldable pub segment_fields : Value Float → Exc SegmentCondition
  unfolding text_at
  segment_fields raw = do
    id ← text_at (codes "id") raw
    operator ← text_at (codes "operator") raw
    segment_id ← text_at (codes "segmentId") raw
    ok (record { id = id; operator = operator; segment_id = segment_id })

  unfoldable pub condition_of : Text → Value Float → Exc Condition
  unfolding parse_attribute_condition segment_fields
  condition_of kind raw =
      if kind == codes "attribute"
      then (do c ← parse_attribute_condition raw; ok (attribute_condition c))
      else if kind == codes "segment"
      then (do c ← segment_fields raw; ok (segment_condition c))
      else raised value_error

  -- `_parse_condition`
  unfoldable pub parse_condition : Value Float → Exc Condition
  unfolding condition_kind condition_of
  parse_condition raw = do kind ← condition_kind raw; condition_of kind raw
