-- ===== src/Telemetry/Wire.antt =====
-- What a report is as JSON: `to_wire` of configdirector-server-sdk/src/configdirector/_telemetry/events.py and
-- the functions of _telemetry/reporter.py. A time in RFC 3339 is an argument.
use python_server_sdk.Base.{ℕ, Option, none, some, List, [], ◌∷◌, Text, codes}
use python_server_sdk.Base.Dict.{Dict}
use python_server_sdk.Base.Int.{pos}
use python_server_sdk.Base.Json.{
  Value, Items, Fields, nil, cons, end, field, null, scalar, array, object, text, int, bool,
}
use python_server_sdk.Evaluation.Types.{Context}
use python_server_sdk.Evaluation.Condition.{effective_kind}
use python_server_sdk.Values.{
  EvaluationReason, found_match, config_state_missing, client_not_ready, type_mismatch,
  value_missing, invalid_number, invalid_json, invalid_boolean,
}
use python_server_sdk.Telemetry.Counting.{AggregatedEvent}
use python_server_sdk.Telemetry.InvalidContexts.{InvalidContextEntry}
use python_server_sdk.Telemetry.Events.{TelemetryValue, EvaluatedConfigEvent}
use python_server_sdk.Telemetry.Reporter.{EventReport}

-- The texts of `EvaluationReason`.
unfoldable pub reason_text : EvaluationReason → Text
reason_text found_match = codes "found-match"
reason_text config_state_missing = codes "config-state-missing"
reason_text client_not_ready = codes "client-not-ready"
reason_text type_mismatch = codes "type-mismatch"
reason_text value_missing = codes "value-missing"
reason_text invalid_number = codes "invalid-number"
reason_text invalid_json = codes "invalid-json"
reason_text invalid_boolean = codes "invalid-boolean"

module _ {F : Type 0} where
  string : Text → Value F
  string s = scalar (text s)

  -- A member that is left out where there is no text.
  text_member : Text → Option Text → Fields F → Fields F
  unfolding string
  text_member key none fields = fields
  text_member key (some s) fields = field key (string s) fields

  -- A member that is left out where the value is null.
  value_member : Text → Value F → Fields F → Fields F
  value_member key null fields = fields
  value_member key v fields = field key v fields

  -- `to_wire` of a value
  unfoldable pub value_to_wire : TelemetryValue → Value F
  unfolding text_member
  value_to_wire t = object (
      text_member (codes "value") t.value
        (text_member (codes "valueId") t.value_id (text_member (codes "type") t.type end)))

  -- `to_wire` of an event
  unfoldable pub event_to_wire : EvaluatedConfigEvent F → Value F
  unfolding text_member value_member string value_to_wire reason_text
  event_to_wire e =
      let verdict =
        field (codes "usedDefault") (scalar (bool e.used_default))
          (field (codes "evaluationReason") (string (reason_text e.evaluation_reason)) end) in
      let values = field (codes "defaultValue") (value_to_wire e.default_value) (
        field (codes "requestedType") (string e.requested_type) (
          field (codes "evaluatedValue") (value_to_wire e.evaluated_value)
            (text_member (codes "evaluatedValueId") e.evaluated_value_id verdict))) in
      object (
        text_member (codes "contextId") e.context_id (
          text_member (codes "contextKind") e.context_kind
            (field (codes "key") (string e.key) (value_member (codes "type") e.type values))))

  traits_member : Option (Fields F) → Fields F
  traits_member none = end
  traits_member (some traits) = field (codes "traits") (object traits) end

  -- An id that a captured context always has.
  id_value : Option Text → Value F
  unfolding string
  id_value none = null
  id_value (some id) = string id

  -- `_context_to_wire`
  unfoldable pub context_to_wire : Context F → Value F
  unfolding string text_member traits_member id_value
  context_to_wire context = object (
      field (codes "id") (id_value context.id) (
        field (codes "kind") (string (effective_kind (some context)))
          (text_member (codes "name") context.name (traits_member context.traits))))

  -- A list of values, each as it is sent.
  all_to_wire : {A : Type 0} → (A → Value F) → List A → Items F
  all_to_wire to_wire [] = nil
  all_to_wire to_wire (a ∷ rest) = cons (to_wire a) (all_to_wire to_wire rest)

  text_fields : Dict Text Text → Fields F
  unfolding string
  text_fields [] = end
  text_fields ((key, s) ∷ rest) = field key (string s) (text_fields rest)

  count_value : ℕ → Value F
  count_value n = scalar (int (pos n))

module _ {F : Type 0} (timestamp : ℕ → Text) where
  -- The members of an event that was counted.
  counted_to_wire : ℕ → ℕ → ℕ → Value F → Value F
  unfolding string count_value
  counted_to_wire start_time end_time count event = object (
      field (codes "startTime") (string (timestamp start_time)) (
        field (codes "endTime") (string (timestamp end_time))
          (field (codes "count") (count_value count) (field (codes "event") event end))))

  -- `_aggregated_to_wire`
  unfoldable pub aggregated_to_wire : AggregatedEvent (EvaluatedConfigEvent F) → Value F
  unfolding counted_to_wire event_to_wire
  aggregated_to_wire a = counted_to_wire a.start_time a.end_time a.count (event_to_wire a.event)

  -- `_invalid_context_to_wire`
  unfoldable pub invalid_context_to_wire : InvalidContextEntry → Value F
  unfolding counted_to_wire text_member string
  invalid_context_to_wire entry = counted_to_wire entry.start_time entry.end_time entry.count (
      object (
        field (codes "reason") (string (codes "invalid-context-kind"))
          (text_member (codes "kindSample") entry.kind_sample end)))

  -- `_payload`
  unfoldable pub payload :
      Text → Dict Text Text → EventReport (EvaluatedConfigEvent F) (Context F) → Value F
  unfolding all_to_wire text_fields aggregated_to_wire invalid_context_to_wire context_to_wire
      count_value string
  payload server_sdk_key meta_context report =
      let dropped =
        field (codes "evaluatedConfig") (count_value report.dropped_evaluations)
          (field (codes "capturedContexts") (count_value report.dropped_contexts) end) in
      let aggregated =
        field (codes "evaluatedConfig") (array (all_to_wire aggregated_to_wire report.evaluations))
          (field (codes "invalidContext")
            (array (all_to_wire invalid_context_to_wire report.invalid_contexts)) end) in
      let discrete =
        field (codes "capturedContexts") (array (all_to_wire context_to_wire report.contexts))
          end in
      object (
        field (codes "serverSdkKey") (string server_sdk_key) (
          field (codes "metaContext") (object (text_fields meta_context)) (
            field (codes "discreteEvents") (object discrete) (
              field (codes "aggregatedEvents") (object aggregated)
                (field (codes "droppedEvents") (object dropped) end)))))
