-- ===== src/Telemetry/Events.antt =====
-- configdirector-server-sdk/src/configdirector/_telemetry/events.py and compact_json.py, over values of
-- JSON, none of which `to_compact_json` refuses. A config type is a value as it was received, null for
-- none.
pub mod Equality
use python_server_sdk.Base.{
  ℕ, Bool, true, false, not, ◌&&◌, ◌||◌, Option, none, some, List, [], ◌∷◌, ◌++◌, Text, codes,
  text_eq, ◌==◌, join, is_empty, length, leb, Exc, ok, ◌>>=◌, if◌then◌else◌,
}
use python_server_sdk.Base.Python.{Python}
use python_server_sdk.Base.Json.{
  Value, Items, Fields, nil, cons, end, field, null, scalar, array, object, text, int, float, bool,
  int_text, to_json_string,
}
use python_server_sdk.Values.{
  EvaluationReason, found_match, config_state_missing, client_not_ready, type_mismatch,
  value_missing, invalid_number, invalid_json, invalid_boolean,
}
use python_server_sdk.Telemetry.Counting.{Keys}

-- `json.dumps` of a text, and `str` of a value that is no text, number or Boolean
pub record Renderers (F : Type 0) : Type 0 where
  pub quote : Text → Text
  pub other_text : Value F → Exc Text

unfoldable pub value_max_length : ℕ
value_max_length = 500

pub record TelemetryValue : Type 0 where
  pub value : Option Text
  pub value_id : Option Text
  pub type : Option Text

pub record EvaluatedConfigEvent (F : Type 0) : Type 0 where
  pub key : Text
  pub default_value : TelemetryValue
  pub evaluated_value : TelemetryValue
  pub requested_type : Text
  pub used_default : Bool
  pub evaluation_reason : EvaluationReason
  pub context_id : Option Text
  pub context_kind : Option Text
  pub type : Value F
  pub evaluated_value_id : Option Text

module _ {F : Type 0} where
  -- `requested_type_of`
  unfoldable pub requested_type_of : Value F → Text
  requested_type_of (scalar (bool b)) = codes "bool"
  requested_type_of (scalar (int n)) = codes "int"
  requested_type_of (scalar (float x)) = codes "float"
  requested_type_of (scalar (text s)) = codes "str"
  requested_type_of (object fields) = codes "dict"
  requested_type_of (array items) = codes "list"
  requested_type_of null = codes "NoneType"

  unfoldable pub is_container : Value F → Bool
  is_container (object fields) = true
  is_container (array items) = true
  is_container _ = false

  -- `_is_json`
  unfoldable pub is_json : Value F → Value F → Bool
  unfolding is_container
  is_json v null = is_container v
  is_json v (scalar (text type)) = type == codes "json"
  is_json v type = false

module _ (py : Python) (renderers : Renderers py.Float) where
  open py use {Float}

  float_compact : Float → Exc Text
  float_compact x =
      if py.is_nan x || py.is_infinite x then ok (codes "null") else to_json_string py (float x)

  unfoldable mutual
    unfolding float_compact

    pub to_compact_json : Value Float → Exc Text
    to_compact_json null = ok (codes "null")
    to_compact_json (scalar (bool true)) = ok (codes "true")
    to_compact_json (scalar (bool false)) = ok (codes "false")
    to_compact_json (scalar (int n)) = int_text py n
    to_compact_json (scalar (float x)) = float_compact x
    to_compact_json (scalar (text s)) = ok (renderers.quote s)
    to_compact_json (array items) =
        compact_items items >>= (λ parts. ok (b'[' ∷ join (codes ",") parts ++ codes "]"))
    to_compact_json (object fields) =
        compact_members fields >>= (λ parts. ok (b'{' ∷ join (codes ",") parts ++ codes "}"))

    compact_items : Items Float → Exc (List Text)
    compact_items nil = ok []
    compact_items (cons v items) =
        to_compact_json v >>= (λ part. compact_items items >>= (λ parts. ok (part ∷ parts)))

    compact_members : Fields Float → Exc (List Text)
    compact_members end = ok []
    compact_members (field key v fields) = to_compact_json v >>= (λ part.
        compact_members fields >>= (λ parts. ok ((renderers.quote key ++ b':' ∷ part) ∷ parts)))

  json_string : Value Float → Exc Text
  json_string (scalar s) = to_json_string py s
  json_string v = renderers.other_text v

  -- `render_value`
  unfoldable pub render_value : Value Float → Value Float → Exc Text
  unfolding json_string
  render_value v type = if is_json v type then to_compact_json v else json_string v

  -- The value that is reported inline or by the server's id.
  in_short : Option Text → Text → TelemetryValue
  in_short value_id rendered =
      if leb (length rendered) value_max_length
      then record { value = some rendered; value_id = none; type = none }
      else elim value_id [
        | none ↦ record { value = some rendered; value_id = none; type = none }
        | some id ↦ record { value = none; value_id = some id; type = none }
      ]

  json_by : Option Text → Exc Text → Exc TelemetryValue
  json_by none rendered =
      rendered
      >>= (λ s. ok (record { value = some s; value_id = none; type = some (codes "json") }))
  json_by (some id) rendered =
      ok (record { value = none; value_id = some id; type = some (codes "json") })

  -- `TelemetryValue.of`
  unfoldable pub telemetry_value : Value Float → Option Text → Value Float → Exc TelemetryValue
  unfolding in_short json_by
  telemetry_value v value_id type =
      if is_json v type
      then json_by value_id (render_value v type)
      else (render_value v type >>= (λ rendered. ok (in_short value_id rendered)))

  -- `EvaluatedConfigEvent.of`
  unfoldable pub evaluated_event :
      Text
      → Value Float
      → Value Float
      → Bool
      → EvaluationReason
      → Option Text
      → Option Text
      → Value Float
      → Option Text
      → Exc (EvaluatedConfigEvent Float)
  evaluated_event key default value used_default reason context_id context_kind type value_id = do
    default_value ← telemetry_value default none type
    evaluated_value ← telemetry_value value value_id type
    ok (record {
      key = key;
      default_value = default_value;
      evaluated_value = evaluated_value;
      requested_type = requested_type_of default;
      used_default = used_default;
      evaluation_reason = reason;
      context_id = context_id;
      context_kind = context_kind;
      type = type;
      evaluated_value_id = value_id;
    })

-- `value_id_of` is `generate_value_id`, whose `encode` raises for a text that has no UTF-8.
module _ (value_id_of : Text → Exc Text) where
  is_large : Option Text → Text → Bool
  is_large type s = elim type [
    | some t ↦ t == codes "json" || not (leb (length s) value_max_length)
    | none ↦ not (leb (length s) value_max_length)
  ]

  by_id : Exc Text → Exc TelemetryValue
  by_id id = do i ← id; ok (record { value = none; value_id = some i; type = none })

  -- `compacted` of a value
  unfoldable pub compacted_value : TelemetryValue → Exc TelemetryValue
  unfolding is_large by_id
  compacted_value t = elim t.value_id [
    | some id ↦ ok (record { value = none; value_id = some id; type = none })
    | none ↦ elim t.value [
      | none ↦ ok (record { value = none; value_id = none; type = none })
      | some s ↦
          if not (is_empty s) && is_large t.type s
          then by_id (value_id_of s)
          else ok (record { value = some s; value_id = none; type = none })
    ]
  ]

  -- `compacted` of an event
  unfoldable pub compacted : {F : Type 0} → EvaluatedConfigEvent F → Exc (EvaluatedConfigEvent F)
  unfolding compacted_value
  compacted e = do
    default_value ← compacted_value e.default_value
    evaluated_value ← compacted_value e.evaluated_value
    ok (record e { default_value = default_value; evaluated_value = evaluated_value })

-- The equality and the hash that the dataclasses have by their fields. A config type is a value as
-- it was received, of which `type_same` is `==`; an array or an object cannot be hashed.
module _ {F : Type 0} (type_same : Value F → Value F → Bool) where
  unfoldable pub text_same : Option Text → Option Text → Bool
  text_same none none = true
  text_same (some s) (some t) = s == t
  text_same s t = false

  unfoldable pub value_same : TelemetryValue → TelemetryValue → Bool
  unfolding text_same
  value_same v w =
      text_same v.value w.value && text_same v.value_id w.value_id && text_same v.type w.type

  unfoldable pub bool_same : Bool → Bool → Bool
  bool_same true b = b
  bool_same false b = not b

  unfoldable pub reason_same : EvaluationReason → EvaluationReason → Bool
  reason_same found_match found_match = true
  reason_same config_state_missing config_state_missing = true
  reason_same client_not_ready client_not_ready = true
  reason_same type_mismatch type_mismatch = true
  reason_same value_missing value_missing = true
  reason_same invalid_number invalid_number = true
  reason_same invalid_json invalid_json = true
  reason_same invalid_boolean invalid_boolean = true
  reason_same r s = false

  unfoldable pub event_same : EvaluatedConfigEvent F → EvaluatedConfigEvent F → Bool
  unfolding value_same bool_same reason_same text_same
  event_same a b =
      a.key == b.key
      && value_same a.default_value b.default_value
      && value_same a.evaluated_value b.evaluated_value
      && a.requested_type == b.requested_type
      && bool_same a.used_default b.used_default
      && reason_same a.evaluation_reason b.evaluation_reason
      && text_same a.context_id b.context_id
      && text_same a.context_kind b.context_kind
      && type_same a.type b.type
      && text_same a.evaluated_value_id b.evaluated_value_id

  unfoldable pub event_keys : Keys (EvaluatedConfigEvent F)
  unfolding event_same is_container
  event_keys = record { hashable = λ a. not (is_container a.type); same = event_same }
