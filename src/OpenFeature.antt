-- ===== src/OpenFeature.antt =====
-- configdirector-openfeature-server-provider/src/configdirector_openfeature: _resolution.py, and the
-- startup of ConfigDirectorProvider in provider.py. What the OpenFeature package does with an event or an
-- exception is outside; whether its registry has recorded the failure of an initialization is part of
-- the state.
pub mod Startup
use python_server_sdk.Base.{
  List, [], ◌∷◌, nat_eq, ◌==◌, Exc, ok, raised, ◌>>=◌, ℕ, ◌+◌, Bool, true, false, Option, none,
  some, Text, if◌then◌else◌,
}
use python_server_sdk.Base.Json.{Value}
use python_server_sdk.Values.{
  EvaluationReason, found_match, config_state_missing, client_not_ready, type_mismatch,
  value_missing, invalid_number, invalid_json, invalid_boolean, Readers,
}
use python_server_sdk.Base.Python.{Python}
use python_server_sdk.Evaluation.Types.{Context, Metadata}
use python_server_sdk.Telemetry.Events.{Renderers, EvaluatedConfigEvent}
use python_server_sdk.Telemetry.Collector.{Collector}
use python_server_sdk.Client.{Client}
use python_server_sdk.Client.Evaluation.{ConfigEvaluation, Emission, get_value}

-- The codes and reasons of the OpenFeature package that the source names.
pub data ErrorCode : Type 0 where
  flag_not_found provider_not_ready flag_type_mismatch : ErrorCode

pub data Reason : Type 0 where
  targeting_match default_reason error_reason : Reason

pub record FlagResolutionDetails (F : Type 0) : Type 0 where
  pub value : Value F
  pub variant : Option Text
  pub reason : Option Reason
  pub error_code : Option ErrorCode

module _ {F : Type 0} where
  -- `_error`
  error_details : Value F → ErrorCode → FlagResolutionDetails F
  error_details value code = record {
    value = value;
    variant = none;
    reason = some error_reason;
    error_code = some code;
  }

  plain_details : Value F → FlagResolutionDetails F
  plain_details value = record { value = value; variant = none; reason = none; error_code = none }

  mismatch_if : Bool → Value F → FlagResolutionDetails F
  unfolding error_details plain_details
  mismatch_if is_default value =
      if is_default then error_details value flag_type_mismatch else plain_details value

  -- `to_resolution_details`
  unfoldable pub to_resolution_details :
      Value F → Option (ConfigEvaluation F) → FlagResolutionDetails F
  unfolding error_details plain_details mismatch_if
  to_resolution_details value none = plain_details value
  to_resolution_details value (some e) = elim e.reason [
    | found_match ↦ record {
      value = value;
      variant = some e.value_id;
      reason = some targeting_match;
      error_code = none;
    }
    | value_missing ↦ record {
      value = value;
      variant = none;
      reason = some default_reason;
      error_code = none;
    }
    | config_state_missing ↦ error_details value flag_not_found
    | client_not_ready ↦ error_details value provider_not_ready
    | type_mismatch ↦ mismatch_if e.is_default value
    | invalid_number ↦ mismatch_if e.is_default value
    | invalid_json ↦ mismatch_if e.is_default value
    | invalid_boolean ↦ mismatch_if e.is_default value
  ]

-- The last evaluation that a handler was called with.
last_for : {F : Type 0} → ℕ → List (Emission F) → Option (ConfigEvaluation F)
last_for handler [] = none
last_for handler ((h, e) ∷ emitted) = elim (last_for handler emitted) [
  | some later ↦ some later
  | none ↦ if h == handler then some e else none
]

-- `_resolve`, where `_on_config_evaluated` is the handler of the client's evaluations
unfoldable pub resolve :
    {V : Type 0} (py : Python)
    → Readers py.Float
    → Renderers py.Float
    → (Text → Text)
    → ℕ
    → Option Metadata
    → ℕ
    → Text
    → Value py.Float
    → Option (Context py.Float)
    → Client py.Float V
    → Collector (EvaluatedConfigEvent py.Float) py.Float
    → Exc (FlagResolutionDetails py.Float × Collector (EvaluatedConfigEvent py.Float) py.Float)
unfolding last_for to_resolution_details
resolve py readers renderers value_id_of now metadata handler key default context c telemetry = do
  r ← get_value py readers renderers value_id_of now metadata key default context c telemetry
  ok (to_resolution_details r.value (last_for handler r.emitted), r.collector)

-- `_Startup`
pub data Phase : Type 0 where
  initializing awaiting_recorded_failure awaiting_config ready : Phase

-- Where the thread of the readiness check is: it waits for the recorded failure, it has seen it and
-- is to report, or it has returned.
pub data Check : Type 0 where
  not_started waiting reporting returned : Check

-- Whether the client's event that it is ready is still to come, on its way, or handled.
pub data Notice : Type 0 where
  to_come due handled : Notice

-- The provider, whether its client is ready or closed, and whether the registry has recorded that the
-- initialization failed.
pub record Provider : Type 0 where
  pub phase : Phase
  pub check : Check
  pub client_ready : Bool
  pub client_closed : Bool
  pub notice : Notice
  pub failure_recorded : Bool
  pub shut_down : Bool
  pub ready_events : ℕ

unfoldable pub new : Provider
new = record {
  phase = initializing;
  check = not_started;
  client_ready = false;
  client_closed = false;
  notice = to_come;
  failure_recorded = false;
  shut_down = false;
  ready_events = 0;
}

-- `_report_ready_if_config_arrived`
unfoldable pub report_ready_if_config_arrived : Provider → Provider
report_ready_if_config_arrived p = elim p.phase [
  | awaiting_config ↦
      if p.client_ready then record p { phase = ready; ready_events = p.ready_events + 1 } else p
  | _ ↦ p
]

-- `initialize`, once the client's has returned
unfoldable pub finish_initialize : Provider → Provider
finish_initialize p =
    if p.client_ready
    then record p { phase = ready }
    else record p { phase = awaiting_recorded_failure; check = waiting }

-- `_on_client_ready`
unfoldable pub on_client_ready : Provider → Provider
unfolding report_ready_if_config_arrived
on_client_ready p = report_ready_if_config_arrived (record p { notice = handled })

-- The check once the failure is recorded, under the lock.
unfoldable pub await_config : Provider → Provider
await_config p = record p { phase = awaiting_config; check = reporting }

-- The report at the end of the check.
unfoldable pub end_check : Provider → Provider
unfolding report_ready_if_config_arrived
end_check p = report_ready_if_config_arrived (record p { check = returned })

-- The close of the client at the end of `shutdown`
unfoldable pub close_client : Provider → Provider
close_client p = record p { client_ready = false; client_closed = true }
