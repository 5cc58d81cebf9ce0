-- ===== src/Tests/Evaluated.antt =====
-- `get_value` of a client that has received nothing, and the identifier of a value.
use python_server_sdk.Base.{
  ◌≡◌, refl, is_empty, ◌||◌, if◌then◌else◌, ℕ, zero, suc, ◌+◌, [], ◌∷◌, List, none, some, true,
  false, Bool, Text, codes, ok, raised, value_error, take, length, map,
}
use python_server_sdk.Base.Json.{Value, null, scalar, bool, to_json_string}
use python_server_sdk.Client.Delivery.{on_bundles}
use python_server_sdk.Client.Delivery.Ready.{ready_count, on_bundles-ready_count}
use python_server_sdk.Client.{
  ConfigBundle, full, Client, config_evaluated, handlers, definition_for,
}
use python_server_sdk.Client.Reads.{context_to_evaluate}
use python_server_sdk.Base.Dict
use python_server_sdk.Client.Evaluation.{ConfigEvaluation, Outcome, value_id_for, get_value}
use python_server_sdk.Client.Evaluation.Reported.{IsAnswered, get_value-IsAnswered}
use python_server_sdk.Native.{has_content}
use python_server_sdk.Values.{Readers, client_not_ready}
use python_server_sdk.Telemetry.EventQueue
use python_server_sdk.Telemetry.Reporter
use python_server_sdk.Telemetry.Events.{
  Renderers, EvaluatedConfigEvent, TelemetryValue, render_value, is_json, requested_type_of,
  telemetry_value, evaluated_event, value_max_length,
}
use python_server_sdk.Telemetry.Collector
use python_server_sdk.Telemetry.Collector.{Collector, record_evaluation, capture_key}
use python_server_sdk.Telemetry.ValueId.{
  digit, to_base62, from_bytes, generate_value_id, number_of, number_of-generate_value_id,
}
use python_server_sdk.Tests.Evaluation.{toy}

abbrev readers : Readers ℕ
readers = record {
  loads = λ s. raised value_error;
  int_of_text = λ s. none;
  whole_number = λ x. none;
}

abbrev renderers : Renderers ℕ
renderers = record { quote = λ s. s; other_text = λ v. raised value_error }

abbrev itself : Text → Text
itself s = s

abbrev listening : Client ℕ ℕ
listening = record {
  ready = false;
  closed = false;
  configs = none;
  segments = [];
  watchers = [];
  ready_handlers = [];
  updated_handlers = [];
  evaluated_handlers = 5 ∷ [];
  next_ident = 0;
}

abbrev collector : Collector (EvaluatedConfigEvent ℕ) ℕ
collector = Collector.new 10 Reporter.new

abbrev off : TelemetryValue
off = record { value = some (codes "false"); value_id = none; type = none }

abbrev event : EvaluatedConfigEvent ℕ
event = record {
  key = codes "k";
  default_value = off;
  evaluated_value = off;
  requested_type = codes "bool";
  used_default = true;
  evaluation_reason = client_not_ready;
  context_id = none;
  context_kind = none;
  type = null;
  evaluated_value_id = some (codes "false");
}

abbrev evaluation : ConfigEvaluation ℕ
evaluation = record {
  key = codes "k";
  value = scalar (bool false);
  is_default = true;
  reason = client_not_ready;
  value_id = codes "false";
  context = none;
}

abbrev outcome : Outcome ℕ
outcome = record {
  value = scalar (bool false);
  collector = record_evaluation 1 event none collector;
  emitted = (5, evaluation) ∷ [];
}

answer :
    get_value toy readers renderers itself 1 none
      (codes "k")
      (scalar (bool false))
      none
      listening
      collector
    ≡ ok outcome
unfolding get_value has_content definition_for Dict.get value_id_for render_value is_json
    to_json_string context_to_evaluate Collector.new evaluated_event telemetry_value
    record_evaluation EventQueue.push EventQueue.new handlers value_max_length requested_type_of
    capture_key
answer = refl

get_value-IsAnswered_example :
    IsAnswered toy readers renderers itself 1
      (handlers config_evaluated listening)
      (codes "k")
      (scalar (bool false))
      collector
      outcome
get_value-IsAnswered_example =
    get_value-IsAnswered toy readers renderers itself 1 none (codes "k") (scalar (bool false)) none
      listening collector outcome answer

abbrev empty_bundle : ConfigBundle ℕ
empty_bundle = record {
  configs = [];
  segments = [];
  kind = full;
  unreadable_keys = [];
  environment_id = none;
  project_id = none;
  timestamp = none;
}

-- A client with a handler of the event that it is ready.
abbrev waiting_client : Client ℕ (Value ℕ)
waiting_client = record {
  ready = false;
  closed = false;
  configs = none;
  segments = [];
  watchers = [];
  ready_handlers = 7 ∷ [];
  updated_handlers = 8 ∷ [];
  evaluated_handlers = [];
  next_ident = 0;
}

on_bundles-ready_count_example :
    ready_count (
      on_bundles toy readers renderers itself 1 none
        (empty_bundle ∷ empty_bundle ∷ [])
        waiting_client
        collector)
    ≡ (if waiting_client.ready || is_empty (empty_bundle ∷ empty_bundle ∷ [])
        then 0
        else length waiting_client.ready_handlers)
on_bundles-ready_count_example =
    on_bundles-ready_count toy readers renderers itself 1 none (empty_bundle ∷ empty_bundle ∷ [])
      waiting_client collector refl

-- Numbers from 0 on, to the alphabet that they write.
up_to : ℕ → ℕ → List ℕ
up_to zero n = []
up_to (suc count) n = n ∷ up_to count (n + 1)

alphabet :
    map digit (up_to 62 0) ≡ codes "0123456789ABCDEFGHIJKLMNOPQRSTUVWXYZabcdefghijklmnopqrstuvwxyz"
unfolding up_to digit
alphabet = refl

abbrev sixteen_bytes : List ℕ → List ℕ
sixteen_bytes bytes = 0 ∷ 0 ∷ 0 ∷ 0 ∷ 0 ∷ 0 ∷ 0 ∷ 0 ∷ 0 ∷ 0 ∷ 0 ∷ 0 ∷ 0 ∷ 0 ∷ 1 ∷ 255 ∷ []

short_id : generate_value_id toy sixteen_bytes (codes "v") ≡ codes "000000000000000000008F"
unfolding generate_value_id from_bytes to_base62 digit
short_id = refl

number_of-generate_value_id_example :
    (number_of 0 (generate_value_id toy sixteen_bytes (codes "v"))
      ≡ from_bytes 0 (take 16 (sixteen_bytes (toy.utf8 (codes "v")))))
    × (length (generate_value_id toy sixteen_bytes (codes "v")) ≡ 22)
number_of-generate_value_id_example =
    number_of-generate_value_id toy sixteen_bytes (codes "v") (λ bytes. refl {A = Bool})
