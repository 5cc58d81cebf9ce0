-- ===== src/Offline.antt =====
-- configdirector-server-sdk/src/configdirector/_connection_plan.py and _transport/offline.py, and
-- `initialize` of client.py for a client that stays offline.
pub mod Plan
pub mod Served
use python_server_sdk.Base.{
  Bool, true, false, not, ◌&&◌, ◌||◌, Option, none, some, List, [], ◌∷◌, ◌++◌, Text, codes, text_eq,
  ◌==◌, Exc, ok, raised, ◌>>=◌, Error, value_error, type_error, validation_error,
  initialization_error, if◌then◌else◌,
}
use python_server_sdk.Base.Dict
use python_server_sdk.Base.Dict.{Dict}
use python_server_sdk.Base.Python.{Python}
use python_server_sdk.Base.Json.{Value, Fields, end, field, object}
use python_server_sdk.Evaluation.Types.{Config}
use python_server_sdk.Client.{full, ConfigBundle, Client, Update, apply_bundle}
use python_server_sdk.Native.{Writers, validated_server_sdk_key, unconditional_config}

-- What is read of an offline file: nothing, or what `json.loads` makes of it.
pub data Contents (F : Type 0) : Type 0 where
  unreadable : Contents F
  contents : Exc (Value F) → Contents F

-- `OfflineSource`, a file with what is read of it
pub data OfflineSource (F : Type 0) : Type 0 where
  in_code_defaults : OfflineSource F
  offline_file : Contents F → OfflineSource F
  inline_values : Dict Text (Value F) → OfflineSource F
  rejected_source : OfflineSource F

pub data LiveConnectionMode : Type 0 where
  streaming polling : LiveConnectionMode

pub data ConnectionPlan (F : Type 0) : Type 0 where
  connect : LiveConnectionMode → Text → Text → ConnectionPlan F
  stay_offline : OfflineSource F → ConnectionPlan F

-- The options of types.py that a plan depends on.
pub record ConnectionOptions (F : Type 0) : Type 0 where
  pub mode : Text
  pub url : Option Text
  pub file : Option (Contents F)
  pub values : Option (Dict Text (Value F))

unfoldable pub default_base_url : Text
default_base_url = codes "https://server-sdk-api.configdirector.com"

-- `_live_mode_of`
unfoldable pub live_mode_of : Text → Exc LiveConnectionMode
live_mode_of mode =
    if mode == codes "streaming"
    then ok streaming
    else if mode == codes "polling"
    then ok polling
    else raised validation_error

-- `_base_url_of`, where `urlparse` says whether a URL has a scheme and a host
unfoldable pub base_url_of : (Text → Exc Bool) → Option Text → Exc Text
unfolding default_base_url
base_url_of urlparse none = ok default_base_url
base_url_of urlparse (some url) = do
  complete ← urlparse url
  if complete then ok url else raised validation_error

module _ {F : Type 0} where
  -- `_offline_source_of`
  unfoldable pub offline_source_of :
      Option (Contents F) → Option (Dict Text (Value F)) → OfflineSource F
  offline_source_of none none = in_code_defaults
  offline_source_of none (some values) = inline_values values
  offline_source_of (some file) none = offline_file file
  offline_source_of (some file) (some values) = rejected_source

  given : Option (Contents F) → Option (Dict Text (Value F)) → Bool
  given none none = false
  given _ _ = true

  -- The members of an object, the last of a key that stands twice.
  members : Fields F → Dict Text (Value F) → Dict Text (Value F)
  members end values = values
  members (field key v fields) values = members fields (Dict.set key v values)

  -- `_values_in_file`
  unfoldable pub values_in_file : Contents F → Exc (Dict Text (Value F))
  unfolding members
  values_in_file unreadable = raised initialization_error
  values_in_file (contents (raised value_error)) = raised initialization_error
  values_in_file (contents (raised e)) = raised e
  values_in_file (contents (ok (object fields))) = ok (members fields [])
  values_in_file (contents (ok _)) = raised initialization_error

  -- The bundle that `connect` delivers.
  unfoldable pub offline_bundle : Dict Text (Config F) → ConfigBundle F
  offline_bundle configs = record {
    configs = configs;
    segments = [];
    kind = full;
    unreadable_keys = [];
    environment_id = some (codes "offline");
    project_id = some (codes "offline");
    timestamp = none;
  }

-- What `_unconditional_configs` makes of an exception: one of the SDK for a value becomes one for the
-- initialization.
unfoldable pub as_initialization : Error → Error
as_initialization type_error = initialization_error
as_initialization validation_error = initialization_error
as_initialization e = e

module _ (py : Python) where
  open py use {Float}

  -- `plan_connection`
  unfoldable pub plan_connection :
      (Text → Exc Bool) → Option Text → ConnectionOptions Float → Exc (ConnectionPlan Float)
  unfolding offline_source_of live_mode_of given base_url_of
  plan_connection urlparse key options =
      if options.mode == codes "offline"
      then ok (stay_offline (offline_source_of options.file options.values))
      else (live_mode_of options.mode >>= (λ mode. validated_server_sdk_key py key >>= (λ live_key.
          if given options.file options.values
          then ok (stay_offline rejected_source)
          else (base_url_of urlparse options.url >>= (λ url. ok (connect mode live_key url))))))

module _ (py : Python) (writers : Writers py.Float) where
  open py use {Float}

  -- The config of one value.
  unfoldable pub offline_config : Text → Value Float → Exc (Config Float)
  offline_config key v = unconditional_config py writers key v (codes "offline:" ++ key) none

  encode_all : Dict Text (Value Float) → Exc (Dict Text (Config Float))
  unfolding offline_config
  encode_all [] = ok []
  encode_all ((key, v) ∷ values) = do
    config ← offline_config key v
    configs ← encode_all values
    ok ((key, config) ∷ configs)

  converted : Exc (Dict Text (Config Float)) → Exc (Dict Text (Config Float))
  unfolding as_initialization
  converted (ok configs) = ok configs
  converted (raised e) = raised (as_initialization e)

  -- `_unconditional_configs`
  unfoldable pub unconditional_configs : Dict Text (Value Float) → Exc (Dict Text (Config Float))
  unfolding encode_all converted
  unconditional_configs values = converted (encode_all values)

  -- `_offline_configs`
  unfoldable pub offline_configs : OfflineSource Float → Exc (Dict Text (Config Float))
  unfolding values_in_file unconditional_configs
  offline_configs in_code_defaults = ok []
  offline_configs (offline_file file) = do
    values ← values_in_file file
    unconditional_configs values
  offline_configs (inline_values values) = unconditional_configs values
  offline_configs rejected_source = raised initialization_error

  -- `initialize` of a client that stays offline, with the `connect` of its transport
  unfoldable pub initialize :
      {V : Type 0}
      → OfflineSource Float
      → Client Float V
      → Exc (Client Float V × Option (Update Float V))
  unfolding offline_bundle
  initialize source c =
      if c.closed
      then raised validation_error
      else (do configs ← offline_configs source; ok (apply_bundle (offline_bundle configs) c))
