-- ===== src/Evaluation/Config.antt =====
-- configdirector-server-sdk/src/configdirector/_evaluation/config_evaluator.py. A warning that is
-- logged has no other effect and is left out.
pub mod Sorting
pub mod Order
use python_server_sdk.Base.{
  ◌≡◌, refl, ap, Bool, true, false, ◌&&◌, Option, none, some, List, [], ◌∷◌, ℕ, Text, codes,
  text_eq, ◌==◌, Exc, ok, raised, ◌>>=◌, if◌then◌else◌,
}
use python_server_sdk.Base.Int.{ℤ}
use python_server_sdk.Base.Python.{Python}
use python_server_sdk.Base.Json.{Scalar, to_json_string}
use python_server_sdk.Evaluation.Types.{
  Context, EvaluationContext, Condition, Percentage, ConditionalRule, PercentageRule, Rule,
  conditional_rule, percentage_rule, Config, ConfigState, Segments,
}
use python_server_sdk.Evaluation.Condition.{effective_kind, condition_holds}
use python_server_sdk.Evaluation.Percent.{assign_percentage, find_bucket}
use python_server_sdk.Evaluation.Config.Sorting.{sorted}

-- `_RuleResult`, where a match has its value and the value's id
pub data RuleResult : Type 0 where
  no_match : RuleResult
  matched : Text → Option Text → RuleResult

-- `rule.order`
pub order_of : {F : Type 0} → Rule F → Option ℤ
order_of (conditional_rule r) = r.order
order_of (percentage_rule r) = r.order

-- `except Exception`: a rule that raises is disregarded.
disregard : Exc RuleResult → RuleResult
disregard (ok r) = r
disregard (raised e) = no_match

module _ (py : Python) where
  open py use {Float}

  supplied_context : Option (EvaluationContext Float) → Option (Context Float)
  supplied_context none = none
  supplied_context (some context) = context.context

  supplied_identifier : Option (Context Float) → Option Text
  supplied_identifier none = none
  supplied_identifier (some context) = context.id

  assigned_to : Config Float → Option (Context Float) → Option Text → Float
  assigned_to config supplied none = py.whole 0
  assigned_to config supplied (some identifier) =
      assign_percentage py config.id identifier (effective_kind supplied)

  -- A value, rendered, with its id; a missing value is no match.
  value_result : Option (Scalar Float) → Option Text → Exc RuleResult
  value_result none value_id = ok no_match
  value_result (some v) value_id = do s ← to_json_string py v; ok (matched s value_id)

  bucket_result : Option (Percentage Float) → Exc RuleResult
  unfolding value_result
  bucket_result none = ok no_match
  bucket_result (some bucket) = value_result bucket.value bucket.value_id

  -- `_evaluate_percentage`
  evaluate_percentage :
      List (Percentage Float) → Config Float → Option (EvaluationContext Float) → Exc RuleResult
  unfolding bucket_result assigned_to supplied_identifier supplied_context
  evaluate_percentage percentages config context =
      let supplied = supplied_context context in
      let assigned = assigned_to config supplied (supplied_identifier supplied) in
      bucket_result (find_bucket py assigned (py.whole 0) percentages)

  -- `all(_condition_holds(condition, context, segments) for condition in conditions)`
  all_hold : List Condition → Option (EvaluationContext Float) → Option Segments → Exc Bool
  all_hold [] context segments = ok true
  all_hold (condition ∷ conditions) context segments = do
    holds ← condition_holds py condition context segments
    if holds then all_hold conditions context segments else ok false

  -- `_evaluate_conditional_rule` once its conditions are decided
  targeted :
      Bool
      → ConditionalRule Float
      → Config Float
      → Option (EvaluationContext Float)
      → Exc RuleResult
  unfolding value_result evaluate_percentage
  targeted false rule config context = ok no_match
  targeted true rule config context =
      if rule.target == codes "value"
      then value_result rule.value rule.value_id
      else if rule.target == codes "percentage"
      then evaluate_percentage rule.percentages config context
      else ok no_match

  evaluate_conditional_rule :
      ConditionalRule Float
      → Config Float
      → Option (EvaluationContext Float)
      → Option Segments
      → Exc RuleResult
  unfolding all_hold targeted
  evaluate_conditional_rule rule config context segments = do
    holds ← all_hold rule.conditions context segments
    targeted holds rule config context

  -- `_evaluate_rule`
  unfoldable pub evaluate_rule :
      Rule Float → Config Float → Option (EvaluationContext Float) → Option Segments → RuleResult
  unfolding evaluate_percentage evaluate_conditional_rule disregard
  evaluate_rule (percentage_rule r) config context segments =
      if r.type == codes "percentage"
      then disregard (evaluate_percentage r.percentages config context)
      else no_match
  evaluate_rule (conditional_rule r) config context segments =
      if r.type == codes "conditional"
      then disregard (evaluate_conditional_rule r config context segments)
      else no_match

  -- The loop of `_get_config_value` over the sorted rules.
  unfoldable pub first_match :
      List (Rule Float)
      → Config Float
      → Option (EvaluationContext Float)
      → Option Segments
      → RuleResult
  first_match [] config context segments = no_match
  first_match (rule ∷ rules) config context segments =
      let rest = first_match rules config context segments in
      elim (evaluate_rule rule config context segments) [
        | no_match ↦ rest
        | matched v i ↦ matched v i
      ]

  -- The value and its id: those of a match, or the default's.
  pub or_default : RuleResult → Config Float → Option Text × Option Text
  or_default no_match config = (some config.target.default_value, config.target.default_value_id)
  or_default (matched v i) config = (some v, i)

  -- `_get_config_value`
  unfoldable pub get_config_value :
      Config Float → Option (EvaluationContext Float) → Option Segments → Option Text × Option Text
  unfolding first_match or_default
  get_config_value config context segments =
      or_default (first_match (sorted order_of config.target.rules) config context segments) config

  unfoldable pub evaluate :
      Config Float → Option (EvaluationContext Float) → Option Segments → ConfigState Float
  unfolding get_config_value
  evaluate config context segments =
      let (value, value_id) = get_config_value config context segments in
      record {
        id = config.id;
        key = config.key;
        type = config.type;
        value = value;
        value_id = value_id;
      }

  -- A config without rules is its default, whatever the context.
  pub evaluate_no_rules :
      (config : Config Float) (context : Option (EvaluationContext Float))
      (segments : Option Segments)
      → config.target.rules ≡ []
      → ((evaluate config context segments).type ≡ config.type)
        × ((evaluate config context segments).value ≡ some config.target.default_value)
        × ((evaluate config context segments).value_id ≡ config.target.default_value_id)
  unfolding evaluate get_config_value first_match or_default sorted
  evaluate_no_rules config context segments h =
      (refl, ap (λ rules. (chosen rules).0) h, ap (λ rules. (chosen rules).1) h)
    where
      chosen : List (Rule Float) → Option Text × Option Text
      chosen rules = or_default (first_match (sorted order_of rules) config context segments) config
