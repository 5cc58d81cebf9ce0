-- ===== src/Client/Options.antt =====
-- The checks of the options that a client is created with, and of the timeout of `initialize`, of
-- configdirector-server-sdk/src/configdirector/client.py.
use python_server_sdk.Base.{
  Bool, true, false, not, ◌&&◌, ◌||◌, Option, none, some, [], ◌∷◌, Text, codes, text_eq, ◌==◌, Exc,
  ok, raised, validation_error, if◌then◌else◌,
}
use python_server_sdk.Base.Dict
use python_server_sdk.Base.Dict.{Dict}
use python_server_sdk.Base.Int.{ℤ, pos, ≤ℤ?}
use python_server_sdk.Base.Python.{Python}
use python_server_sdk.Evaluation.Types.{Metadata}
use python_server_sdk.Offline.{LiveConnectionMode, streaming, polling}
use python_server_sdk.Client.{Client, ClientEvent, client_ready, configs_updated, config_evaluated}

pub record TelemetryOptions (F : Type 0) : Type 0 where
  pub event_queue_limit : ℤ
  pub flush_interval : F

-- `_validate_event_name`
unfoldable pub validate_event_name : Text → Exc ClientEvent
validate_event_name name =
    if name == codes "client_ready"
    then ok client_ready
    else if name == codes "configs_updated"
    then ok configs_updated
    else if name == codes "config_evaluated"
    then ok config_evaluated
    else raised validation_error

-- A name that is sent where it is known.
with_name : Text → Option Text → Dict Text Text → Dict Text Text
with_name key none context = context
with_name key (some name) context = Dict.set key name context

-- `_meta_context`
unfoldable pub meta_context : Metadata → Text → Text → Dict Text Text
unfolding with_name
meta_context metadata sdk_name sdk_version = with_name (codes "appVersion") metadata.app_version (
    with_name (codes "appName") metadata.app_name
      ((codes "sdkName", sdk_name) ∷ (codes "sdkVersion", sdk_version) ∷ []))

is_polling : LiveConnectionMode → Bool
is_polling streaming = false
is_polling polling = true

module _ (py : Python) where
  open py use {Float}

  -- `_validated_telemetry`
  unfoldable pub validated_telemetry : TelemetryOptions Float → Exc (TelemetryOptions Float)
  validated_telemetry options =
      if not (≤ℤ? (pos 100) options.event_queue_limit && ≤ℤ? options.event_queue_limit (pos 100000))
      then raised validation_error
      else if py.float_le options.flush_interval (py.whole 0)
      then raised validation_error
      else ok options

  -- `_resolve_polling_interval`
  unfoldable pub resolve_polling_interval : LiveConnectionMode → Option Float → Float
  unfolding is_polling
  resolve_polling_interval mode none = py.whole 300
  resolve_polling_interval mode (some interval) =
      if not (is_polling mode) || py.float_le (py.whole 60) interval then interval else py.whole 60

  -- `_connect_and_wait` up to the connection, with the timeout that it takes
  unfoldable pub effective_timeout :
      {V : Type 0} → Option Float → Float → Client Float V → Exc Float
  effective_timeout given default c =
      let timeout : Float = elim given [ none ↦ default | some t ↦ t ] in
      if py.float_le timeout (py.whole 0)
      then raised validation_error
      else if c.closed
      then raised validation_error
      else ok timeout
