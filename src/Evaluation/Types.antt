-- ===== src/Evaluation/Types.antt =====
-- configdirector-server-sdk/src/configdirector/_evaluation/types.py, and the context, the metadata
-- and the state of configdirector-server-sdk/src/configdirector/types.py that it is evaluated with.
-- `F` is the type of floats. A wire text that the code only compares is a `Text`.
use python_server_sdk.Base.{Bool, Option, List, Text}
use python_server_sdk.Base.Dict.{Dict}
use python_server_sdk.Base.Int.{ℤ}
use python_server_sdk.Base.Json.{Scalar, Value, Fields}

pub record Context (F : Type 0) : Type 0 where
  pub id : Option Text
  pub name : Option Text
  pub traits : Option (Fields F)
  pub anonymous : Bool
  pub kind : Option Text

pub record Metadata : Type 0 where
  pub app_name : Option Text
  pub app_version : Option Text

pub record EvaluationContext (F : Type 0) : Type 0 where
  pub context : Option (Context F)
  pub metadata : Option Metadata

pub record AttributeCondition : Type 0 where
  pub id : Text
  pub attribute : Text
  pub operator : Text
  pub target_type : Text
  pub target_values : List Text
  pub trait : Option Text

pub record SegmentCondition : Type 0 where
  pub id : Text
  pub operator : Text
  pub segment_id : Text

pub data Condition : Type 0 where
  attribute_condition : AttributeCondition → Condition
  segment_condition : SegmentCondition → Condition

pub record Segment : Type 0 where
  pub groups : List (List AttributeCondition)

abbrev pub Segments : Type 0
Segments = Dict Text Segment

pub record Percentage (F : Type 0) : Type 0 where
  pub id : Text
  pub percentage : F
  pub value : Option (Scalar F)
  pub value_id : Option Text

pub record ConditionalRule (F : Type 0) : Type 0 where
  pub id : Text
  pub order : Option ℤ
  pub value : Option (Scalar F)
  pub conditions : List Condition
  pub percentages : List (Percentage F)
  pub target : Text
  pub type : Text
  pub value_id : Option Text

pub record PercentageRule (F : Type 0) : Type 0 where
  pub id : Text
  pub order : Option ℤ
  pub percentages : List (Percentage F)
  pub target : Text
  pub type : Text

pub data Rule (F : Type 0) : Type 0 where
  conditional_rule : ConditionalRule F → Rule F
  percentage_rule : PercentageRule F → Rule F

pub record TargetingRules (F : Type 0) : Type 0 where
  pub default_value : Text
  pub rules : List (Rule F)
  pub default_value_id : Option Text

pub record Variation (F : Type 0) : Type 0 where
  pub value : Scalar F
  pub name : Option Text

-- A bound is carried as it was received.
pub data TypeConstraints (F : Type 0) : Type 0 where
  numeric_constraints : Value F → Value F → TypeConstraints F
  enum_constraints : Text → List Text → TypeConstraints F

-- The type is carried as it was received.
pub record Config (F : Type 0) : Type 0 where
  pub id : Text
  pub key : Text
  pub type : Value F
  pub target : TargetingRules F
  pub variations : List (Variation F)
  pub type_constraints : Option (TypeConstraints F)

pub record ConfigState (F : Type 0) : Type 0 where
  pub id : Text
  pub key : Text
  pub type : Value F
  pub value : Option Text
  pub value_id : Option Text
