-- ===== src/Client/Evaluation.antt =====
-- `get_value` of configdirector-server-sdk/src/configdirector/client.py, with what it records in the
-- telemetry collector and the event that it emits; `_emit` is the calls of the handlers, in order.
pub mod Counted
pub mod Reported
use python_server_sdk.Base.{
  ◌≡◌, ℕ, ◌+◌, Bool, true, false, not, ◌&&◌, Option, none, some, List, [], ◌∷◌, ◌++◌, Text,
  is_empty, Eq, Exc, ok, raised, ◌>>=◌, validation_error, type_error, if◌then◌else◌,
}
use python_server_sdk.Base.Python.{Python}
use python_server_sdk.Base.Json.{Value, null}
use python_server_sdk.Evaluation.Types.{
  Context, Metadata, EvaluationContext, Config, ConfigState, Segments,
}
use python_server_sdk.Evaluation.Config.{evaluate}
use python_server_sdk.Values.{
  EvaluationReason, config_state_missing, client_not_ready, ParseResult, Readers,
  parse_config_value,
}
use python_server_sdk.Telemetry.Events.{
  Renderers, EvaluatedConfigEvent, evaluated_event, render_value,
}
use python_server_sdk.Telemetry.Collector.{
  Collector, capture_key, record_evaluation, record_invalid_context,
}
use python_server_sdk.Native.{has_content}
use python_server_sdk.Client.{Client, config_evaluated, handlers, definition_for}
use python_server_sdk.Client.Reads.{context_to_evaluate}

-- `ConfigEvaluation` of types.py
pub record ConfigEvaluation (F : Type 0) : Type 0 where
  pub key : Text
  pub value : Value F
  pub is_default : Bool
  pub reason : EvaluationReason
  pub value_id : Text
  pub context : Option (Context F)

-- A call of a handler with an evaluation.
abbrev pub Emission : Type 0 → Type 0
Emission F = ℕ × ConfigEvaluation F

-- What an evaluation leaves: its value, the collector, and the calls of handlers.
pub record Outcome (F : Type 0) : Type 0 where
  pub value : Value F
  pub collector : Collector (EvaluatedConfigEvent F) F
  pub emitted : List (Emission F)

-- `result.value_id or value_id_for(...)`
id_or : Option Text → Exc Text → Exc Text
id_or none other = other
id_or (some []) other = other
id_or (some id) other = ok id

-- `_emit`
unfoldable pub emit : {F : Type 0} → List ℕ → ConfigEvaluation F → List (Emission F)
emit [] evaluation = []
emit (handler ∷ hs) evaluation = (handler, evaluation) ∷ emit hs evaluation

module _ {F : Type 0} where
  -- The id of the context of an event, as the collector captures it.
  captured_id : Option ((Text × Text) × Context F) → Option Text
  captured_id none = none
  captured_id (some ((kind, id), context)) = some id

  captured_kind : Option ((Text × Text) × Context F) → Option Text
  captured_kind none = none
  captured_kind (some ((kind, id), context)) = some kind

  -- The invalid context of an evaluation is recorded.
  pub noted :
      ℕ → Option Text → Collector (EvaluatedConfigEvent F) F → Collector (EvaluatedConfigEvent F) F
  noted now none c = c
  noted now (some sample) c = (record_invalid_context now sample c).1

  -- `_validate_default`, where the other types that are refused are no values of JSON
  unfoldable pub validate_default : Value F → Exc (Value F)
  validate_default null = raised type_error
  validate_default v = ok v

module _ (py : Python) (readers : Readers py.Float) (renderers : Renderers py.Float)
    (value_id_of : Text → Text) where
  open py use {Float}

  -- `value_id_for`
  unfoldable pub value_id_for : Value Float → Value Float → Exc Text
  value_id_for v type = do s ← render_value py renderers v type; ok (value_id_of s)

  -- `record_evaluation` of the collector with the event that it makes
  recorded :
      ℕ
      → Value Float
      → ConfigEvaluation Float
      → Value Float
      → Collector (EvaluatedConfigEvent Float) Float
      → Exc (Collector (EvaluatedConfigEvent Float) Float)
  unfolding captured_id captured_kind
  recorded now default e type c =
      let captured = capture_key e.context in
      if c.collecting
      then (do
        event ←
            evaluated_event py renderers e.key default e.value e.is_default e.reason
              (captured_id captured) (captured_kind captured) type (some e.value_id)
        ok (record_evaluation now event e.context c))
      else ok c

  -- What the evaluation is once its value is known: it is recorded, then emitted.
  pub reported :
      ℕ
      → List ℕ
      → Value Float
      → ConfigEvaluation Float
      → Value Float
      → Collector (EvaluatedConfigEvent Float) Float
      → Exc (Outcome Float)
  unfolding recorded emit
  reported now hs default e type c = do
    d ← recorded now default e type c
    ok (record { value = e.value; collector = d; emitted = emit hs e })

  -- The evaluation of a config without state.
  without_state : Bool → Text → Value Float → Option (Context Float) → Exc (ConfigEvaluation Float)
  without_state ready key default context = do
    id ← value_id_for default null
    ok (record {
      key = key;
      value = default;
      is_default = true;
      reason = if ready then config_state_missing else client_not_ready;
      value_id = id;
      context = context;
    })

  -- The evaluation of a state.
  with_state :
      Text → Value Float → Option (Context Float) → ConfigState Float → Exc (ConfigEvaluation Float)
  unfolding id_or
  with_state key default context state = do
    result ← parse_config_value py readers state default
    id ← id_or result.value_id (value_id_for result.value state.type)
    ok (record {
      key = key;
      value = result.value;
      is_default = result.used_default;
      reason = result.reason;
      value_id = id;
      context = context;
    })

  -- `_evaluate`
  unfoldable pub evaluate_for :
      ℕ
      → Option Metadata
      → Bool
      → List ℕ
      → Text
      → Option (Config Float)
      → Value Float
      → Option (Context Float)
      → Segments
      → Collector (EvaluatedConfigEvent Float) Float
      → Exc (Outcome Float)
  unfolding noted without_state with_state reported
  evaluate_for now metadata ready hs key none default supplied segments c =
      let (context, sample) = context_to_evaluate supplied in
      without_state ready key default context
      >>= (λ e. reported now hs default e null (noted now sample c))
  evaluate_for now metadata ready hs key (some definition) default supplied segments c =
      let (context, sample) = context_to_evaluate supplied in
      let state =
        evaluate py definition (some (record { context = context; metadata = metadata }))
          (some segments) in
      with_state key default context state
      >>= (λ e. reported now hs default e state.type (noted now sample c))

  -- `get_value`
  unfoldable pub get_value :
      {V : Type 0}
      → ℕ
      → Option Metadata
      → Text
      → Value Float
      → Option (Context Float)
      → Client Float V
      → Collector (EvaluatedConfigEvent Float) Float
      → Exc (Outcome Float)
  unfolding evaluate_for validate_default
  get_value now metadata key default supplied c telemetry =
      if has_content py key
      then (do
        valid ← validate_default default
        evaluate_for now metadata c.ready (handlers config_evaluated c) key (definition_for key c)
            default supplied c.segments telemetry)
      else raised validation_error
