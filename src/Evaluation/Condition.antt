-- ===== src/Evaluation/Condition.antt =====
-- condition_evaluator.py and segment_evaluator.py of
-- configdirector-server-sdk/src/configdirector/_evaluation, and the kinds of
-- configdirector-server-sdk/src/configdirector/_context_kind.py.
use python_server_sdk.Base.{
  Bool, true, false, not, ◌&&◌, Option, none, some, List, [], ◌∷◌, Text, codes, text_eq, nat_eq,
  ◌==◌, contains, all, length, leb, ltb, ℕ, take, Exc, ok, ◌>>=◌, if◌then◌else◌,
}
use python_server_sdk.Base.Dict
use python_server_sdk.Base.Python.{Python}
use python_server_sdk.Base.Json.{Value, null, scalar, object, text, to_json_string}
use python_server_sdk.Evaluation.Types.{
  Context, Metadata, EvaluationContext, AttributeCondition, SegmentCondition, Condition,
  attribute_condition, segment_condition, Segments,
}
use python_server_sdk.Evaluation.Text.{compare_text, compare_array}
use python_server_sdk.Evaluation.Numeric.{compare_numeric}
use python_server_sdk.Evaluation.Semver.{compare_semver}
use python_server_sdk.Evaluation.Date.{compare_date}
use python_server_sdk.Evaluation.Pointer.{find_by_pointer}

abbrev pub default_kind : Text
default_kind = codes "user"

kind_of : Option Text → Text
kind_of none = default_kind
kind_of (some kind) = kind

unfoldable pub effective_kind : {F : Type 0} → Option (Context F) → Text
unfolding kind_of
effective_kind none = default_kind
effective_kind (some context) = kind_of context.kind

-- `is_valid_kind` of a text; a value of another type is not valid
unfoldable pub is_valid_kind : Text → Bool
is_valid_kind kind =
    ltb 0 (length kind)
    && leb (length kind) 64
    && all (contains (codes "abcdefghijklmnopqrstuvwxyz0123456789-_")) kind

-- `kind_sample` of a text
unfoldable pub kind_sample : Text → Text
kind_sample kind = take 128 kind

-- What a condition reads: a value, `_ABSENT` or `_UNKNOWN_ATTRIBUTE`.
pub data Resolved (F : Type 0) : Type 0 where
  present : Value F → Resolved F
  absent : Resolved F
  unknown_attribute : Resolved F

abbrev empty_metadata : Metadata
empty_metadata = record { app_name = none; app_version = none }

given_metadata : Option Metadata → Metadata
given_metadata none = empty_metadata
given_metadata (some m) = m

module _ {F : Type 0} where
  abbrev empty_context : Context F
  empty_context = record { id = none; name = none; traits = none; anonymous = false; kind = none }

  given_context : Option (Context F) → Context F
  given_context none = empty_context
  given_context (some c) = c

  context_of : Option (EvaluationContext F) → Context F
  unfolding given_context
  context_of none = empty_context
  context_of (some context) = given_context context.context

  metadata_of : Option (EvaluationContext F) → Metadata
  unfolding given_metadata
  metadata_of none = empty_metadata
  metadata_of (some context) = given_metadata context.metadata

  text_or_absent : Option Text → Resolved F
  text_or_absent none = absent
  text_or_absent (some s) = present (scalar (text s))

  value_or_absent : Option (Value F) → Resolved F
  value_or_absent none = absent
  value_or_absent (some null) = absent
  value_or_absent (some v) = present v

  traits_document : Context F → Value F
  traits_document c = elim c.traits [ none ↦ null | some fields ↦ object fields ]

  trait_of : ℕ → Option Text → Context F → Exc (Resolved F)
  unfolding value_or_absent traits_document
  trait_of limit none c = ok absent
  trait_of limit (some []) c = ok absent
  trait_of limit (some trait) c = do
    found ← find_by_pointer limit trait (traits_document c)
    ok (value_or_absent found)

  -- `_resolve`
  pub resolve : ℕ → AttributeCondition → Option (EvaluationContext F) → Exc (Resolved F)
  unfolding context_of metadata_of text_or_absent trait_of effective_kind
  resolve limit condition context =
      let attribute = condition.attribute in
      if attribute == codes "identifier"
      then ok (text_or_absent (context_of context).id)
      else if attribute == codes "name"
      then ok (text_or_absent (context_of context).name)
      else if attribute == codes "kind"
      then ok (present (scalar (text (effective_kind (some (context_of context))))))
      else if attribute == codes "appName"
      then ok (text_or_absent (metadata_of context).app_name)
      else if attribute == codes "appVersion"
      then ok (text_or_absent (metadata_of context).app_version)
      else if attribute == codes "traits"
      then trait_of limit condition.trait (context_of context)
      else ok unknown_attribute

module _ (py : Python) where
  open py use {Float}

  -- `_render` and `_unwrap`
  render : Resolved Float → Exc Text
  render (present (scalar v)) = to_json_string py v
  render _ = ok []

  unwrap : Resolved Float → Value Float
  unwrap (present v) = v
  unwrap _ = null

  -- The comparison that the target type selects.
  compare_resolved : AttributeCondition → Resolved Float → Exc Bool
  unfolding render unwrap
  compare_resolved condition unknown_attribute = ok false
  compare_resolved condition value =
      let kind = condition.target_type in
      let targets = condition.target_values in
      if kind == codes "text"
      then (do s ← render value; ok (compare_text py s condition.operator targets))
      else if kind == codes "number"
      then compare_numeric py (unwrap value) condition.operator targets
      else if kind == codes "datetime"
      then (do s ← render value; compare_date py s condition.operator targets)
      else if kind == codes "semver"
      then (do s ← render value; ok (compare_semver py s condition.operator targets))
      else if kind == codes "array"
      then compare_array py (unwrap value) condition.operator targets
      else ok false

  unfoldable pub evaluate_condition :
      AttributeCondition → Option (EvaluationContext Float) → Exc Bool
  unfolding resolve compare_resolved
  evaluate_condition condition context = do
    value ← resolve py.max_int_digits condition context
    compare_resolved condition value

  -- `all(evaluate_condition(condition, context) for condition in group)`
  unfoldable pub group_holds : Option (EvaluationContext Float) → List AttributeCondition → Exc Bool
  group_holds context [] = ok true
  group_holds context (condition ∷ group) = do
    holds ← evaluate_condition condition context
    if holds then group_holds context group else ok false

  -- `_in_segment`, over the groups
  unfoldable pub in_groups :
      Option (EvaluationContext Float) → List (List AttributeCondition) → Exc Bool
  unfolding group_holds
  in_groups context [] = ok false
  in_groups context (group ∷ groups) = do
    holds ← group_holds context group
    if holds then ok true else in_groups context groups

  -- The cases of the operator, in lower case.
  unfoldable pub segment_operator : Text → Bool → Bool
  segment_operator op member =
      if op == codes "in" then member else if op == codes "not in" then not member else false

  unfoldable pub evaluate_segment_condition :
      SegmentCondition → Option Segments → Option (EvaluationContext Float) → Exc Bool
  unfolding in_groups segment_operator
  evaluate_segment_condition condition none context = ok false
  evaluate_segment_condition condition (some segments) context =
      elim (Dict.get condition.segment_id segments) [
        | none ↦ ok false
        | some segment ↦ do
          member ← in_groups context segment.groups
          ok (segment_operator (py.lower condition.operator) member)
      ]

  -- `_condition_holds` of config_evaluator.py
  unfoldable pub condition_holds :
      Condition → Option (EvaluationContext Float) → Option Segments → Exc Bool
  unfolding evaluate_segment_condition
  condition_holds (segment_condition c) context segments =
      evaluate_segment_condition c segments context
  condition_holds (attribute_condition c) context segments = evaluate_condition c context
