-- ===== src/Bundle/Definitions.antt =====
-- The definitions of a bundle: rules, configs and segments of
-- configdirector-server-sdk/src/configdirector/_bundle.py, and `parse_bundle`.
pub mod Unreadable
use python_server_sdk.Base.{
  ◌≡◌, Bool, true, false, not, ◌&&◌, Option, none, some, List, [], ◌∷◌, ℕ, zero, Text, codes,
  text_eq, ◌==◌, Error, Exc, ok, raised, ◌>>=◌, value_error, overflow_error, type_error, key_error,
  attribute_error, is_empty, if◌then◌else◌,
}
use python_server_sdk.Base.Dict.{Dict}
use python_server_sdk.Base.Python.{Python}
use python_server_sdk.Base.Json.{
  Scalar, text, int, float, bool, Value, Items, Fields, null, scalar, array, object, nil, cons, end,
  field, to_json_string,
}
use python_server_sdk.Evaluation.Pointer.{member}
use python_server_sdk.Evaluation.Types.{
  AttributeCondition, SegmentCondition, Condition, attribute_condition, segment_condition, Segment,
  Segments, Percentage, ConditionalRule, PercentageRule, Rule, conditional_rule, percentage_rule,
  TargetingRules, Variation, TypeConstraints, numeric_constraints, enum_constraints, Config,
}
use python_server_sdk.Client.{BundleKind, full, delta, ConfigBundle}
use python_server_sdk.Bundle.{
  is_caught, for_each, get_member, item_of, iterate, optional_string, Conversions, truthy, items_at,
  text_of, text_at, optional_at, as_string, rule_value, optional_int, parse_percentage,
  parse_attribute_condition, parse_condition,
}

-- The configs that were read, in order, and the keys of the others.
abbrev pub Sorted : Type 0 → Type 0
Sorted F = Dict Text (Config F) × List Text

module _ {F : Type 0} where
  -- `raw[key] = ...` or, if it raised an exception that is caught, the key set aside.
  unfoldable pub sort_config : Text → Exc (Config F) → Exc (Sorted F) → Exc (Sorted F)
  sort_config key (ok config) rest = do r ← rest; ok ((key, config) ∷ r.0, r.1)
  sort_config key (raised e) rest =
      if is_caught e then (do r ← rest; ok (r.0, key ∷ r.1)) else raised e

unfoldable pub sort_segment : Text → Exc Segment → Exc Segments → Exc Segments
sort_segment key (ok segment) rest = do r ← rest; ok ((key, segment) ∷ r)
sort_segment key (raised e) rest = if is_caught e then rest else raised e

unfoldable pub is_text : {F : Type 0} → Value F → Text → Bool
is_text (scalar (text s)) t = s == t
is_text v t = false

module _ (py : Python) (conv : Conversions py.Float) where
  open py use {Float}

  unfoldable pub rule_target : Value Float → Text
  rule_target v = if truthy py conv v then text_of py conv v else codes "value"

  unfoldable pub rule_type : Value Float → Text
  rule_type null = codes "conditional"
  rule_type v = text_of py conv v

  unfoldable pub percentage_fields : Value Float → List (Percentage Float) → Exc (Rule Float)
  percentage_fields raw percentages = do
    id ← text_at py conv (codes "id") raw
    place ← get_member (codes "order") raw
    order ← optional_int py conv place
    ok (
        percentage_rule (record {
          id = id;
          order = order;
          percentages = percentages;
          target = codes "percentage";
          type = codes "percentage";
        }))

  unfoldable pub conditional_fields :
      Value Float → Value Float → List (Percentage Float) → Exc (Rule Float)
  unfolding rule_target rule_type
  conditional_fields kind raw percentages = do
    id ← text_at py conv (codes "id") raw
    place ← get_member (codes "order") raw
    order ← optional_int py conv place
    value ← get_member (codes "value") raw
    items ← items_at py conv (codes "conditions") raw
    conditions ← for_each (parse_condition py conv) items
    target ← get_member (codes "target") raw
    value_id ← optional_at py conv (codes "valueId") raw
    ok (
        conditional_rule (record {
          id = id;
          order = order;
          value = rule_value py conv value;
          conditions = conditions;
          percentages = percentages;
          target = rule_target target;
          type = rule_type kind;
          value_id = value_id;
        }))

  -- `_parse_rule`
  unfoldable pub parse_rule : Value Float → Exc (Rule Float)
  unfolding percentage_fields conditional_fields is_text
  parse_rule raw = do
    kind ← get_member (codes "type") raw
    items ← items_at py conv (codes "percentages") raw
    percentages ← for_each (parse_percentage py conv) items
    if is_text kind (codes "percentage")
        then percentage_fields raw percentages
        else conditional_fields kind raw percentages

  unfoldable pub variation_value : Value Float → Exc (Scalar Float)
  variation_value (scalar v) = ok v
  variation_value v = do s ← as_string py conv v; ok (text s)

  -- `_parse_variation`
  unfoldable pub parse_variation : Value Float → Exc (Variation Float)
  unfolding variation_value
  parse_variation raw = do
    v ← get_member (codes "value") raw
    value ← variation_value v
    name ← optional_at py conv (codes "name") raw
    ok (record { value = value; name = name })

  unfoldable pub enum_of : Value Float → Value Float → Exc (TypeConstraints Float)
  unfolding is_text
  enum_of kind raw = do
    items ← items_at py conv (codes "values") raw
    values ← for_each (as_string py conv) items
    ok (
        enum_constraints (if is_text kind (codes "number") then codes "number" else codes "string")
          values)

  unfoldable pub constraints_of : Option (Value Float) → Value Float → Exc (TypeConstraints Float)
  unfolding enum_of
  constraints_of (some kind) raw = enum_of kind raw
  constraints_of none raw = do
    low ← get_member (codes "min") raw
    high ← get_member (codes "max") raw
    ok (numeric_constraints low high)

  -- `_parse_type_constraints`
  unfoldable pub parse_type_constraints : Value Float → Exc (Option (TypeConstraints Float))
  unfolding constraints_of
  parse_type_constraints (object fields) = do
    c ← constraints_of (member fields (codes "valueType")) (object fields)
    ok (some c)
  parse_type_constraints _ = ok none

  -- `_parse_config`
  unfoldable pub parse_config : Value Float → Exc (Config Float)
  unfolding parse_rule parse_variation parse_type_constraints
  parse_config raw = do
    target ← item_of (codes "target") raw
    id ← text_at py conv (codes "id") raw
    key ← text_at py conv (codes "key") raw
    type ← item_of (codes "type") raw
    default ← get_member (codes "defaultValue") target
    default_value ← as_string py conv default
    raw_rules ← items_at py conv (codes "rules") target
    rules ← for_each parse_rule raw_rules
    default_value_id ← optional_at py conv (codes "defaultValueId") target
    raw_variations ← items_at py conv (codes "variations") raw
    variations ← for_each parse_variation raw_variations
    raw_constraints ← get_member (codes "typeConstraints") raw
    type_constraints ← parse_type_constraints raw_constraints
    ok (record {
      id = id;
      key = key;
      type = type;
      variations = variations;
      type_constraints = type_constraints;
      target = record {
        default_value = default_value;
        rules = rules;
        default_value_id = default_value_id;
      };
    })

  -- `_parse_configs`
  unfoldable pub parse_configs : Fields Float → Exc (Sorted Float)
  unfolding sort_config parse_config
  parse_configs end = ok ([], [])
  parse_configs (field key definition raw) =
      sort_config key (parse_config definition) (parse_configs raw)

  unfoldable pub parse_group : Value Float → Exc (List AttributeCondition)
  parse_group raw = do items ← iterate raw; for_each (parse_attribute_condition py conv) items

  -- `_parse_segment`
  unfoldable pub parse_segment : Value Float → Exc Segment
  unfolding parse_group
  parse_segment raw = do
    value ← item_of (codes "groups") raw
    items ← iterate value
    groups ← for_each parse_group items
    ok (record { groups = groups })

  unfoldable pub segments_of : Fields Float → Exc Segments
  unfolding sort_segment parse_segment
  segments_of end = ok []
  segments_of (field key definition raw) =
      sort_segment key (parse_segment definition) (segments_of raw)

  -- `_parse_segments`
  unfoldable pub parse_segments : Value Float → Exc Segments
  unfolding segments_of
  parse_segments (object raw) = segments_of raw
  parse_segments _ = ok []

  unfoldable pub bundle_with : Value Float → Value Float → Exc (ConfigBundle Float)
  unfolding parse_configs parse_segments is_text optional_string
  bundle_with document (object raw) = do
    sorted ← parse_configs raw
    raw_segments ← get_member (codes "segments") document
    segments ← parse_segments raw_segments
    kind ← get_member (codes "kind") document
    environment ← get_member (codes "environmentId") document
    project ← get_member (codes "projectId") document
    timestamp ← get_member (codes "timestamp") document
    ok (record {
      configs = sorted.0;
      segments = segments;
      unreadable_keys = sorted.1;
      kind = if is_text kind (codes "delta") then delta else full;
      environment_id = optional_string environment;
      project_id = optional_string project;
      timestamp = optional_string timestamp;
    })
  bundle_with document _ = raised value_error

  -- `parse_bundle` behind `json.loads`
  unfoldable pub parse_bundle : Value Float → Exc (ConfigBundle Float)
  unfolding bundle_with
  parse_bundle (object fields) = do
    configs ← get_member (codes "configs") (object fields)
    bundle_with (object fields) configs
  parse_bundle _ = raised value_error
