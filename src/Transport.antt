-- ===== src/Transport.antt =====
-- configdirector-server-sdk/src/configdirector/_transport: what base.py says of a response, and the
-- two transports that receive bundles.
pub mod Streaming
pub mod Polling
use python_server_sdk.Base.{
  ℕ, Bool, true, false, not, ◌&&◌, ◌||◌, Option, none, some, Text, nat_eq, ◌==◌, leb, ltb,
  if◌then◌else◌, Error, Exc, ok, raised, ◌>>=◌, value_error,
}
use python_server_sdk.Base.Python.{Python}
use python_server_sdk.Base.Json.{Value}
use python_server_sdk.Client.{ConfigBundle}
use python_server_sdk.Bundle.{Conversions}
use python_server_sdk.Bundle.Definitions.{parse_bundle}

-- `is_fatal_status`
unfoldable pub is_fatal_status : Option ℕ → Bool
is_fatal_status none = false
is_fatal_status (some status) = leb 400 status && ltb status 500 && not (status == 429)

-- `HttpResponse.ok` of _http.py
unfoldable pub is_ok : ℕ → Bool
is_ok status = leb 200 status && ltb status 300

-- What becomes of a payload: a bundle, a `ValueError` of `json.loads` or of the parser, or an
-- exception that the transports do not expect.
pub data Parsed (F : Type 0) : Type 0 where
  bundle : ConfigBundle F → Parsed F
  invalid : Parsed F
  unexpected : Error → Parsed F

unfoldable pub sort_out : {F : Type 0} → Exc (ConfigBundle F) → Parsed F
sort_out (ok b) = bundle b
sort_out (raised value_error) = invalid
sort_out (raised e) = unexpected e

-- `parse_bundle` of a payload, from what `json.loads` makes of it
unfoldable pub parse_payload :
    (py : Python) → Conversions py.Float → Exc (Value py.Float) → Parsed py.Float
unfolding sort_out
parse_payload py conv loaded = sort_out (loaded >>= parse_bundle py conv)
