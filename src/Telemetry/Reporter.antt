-- ===== src/Telemetry/Reporter.antt =====
-- EventReport and HttpEventReporter of
-- configdirector-server-sdk/src/configdirector/_telemetry/reporter.py. What a request comes back with is
-- an argument, and the reports that the reporter tries to send are recorded.
use python_server_sdk.Base.{
  ℕ, Bool, true, false, not, ◌&&◌, Option, none, some, List, [], ◌∷◌, ◌++◌, is_empty, eqb,
  if◌then◌else◌,
}
use python_server_sdk.Telemetry.Counting.{AggregatedEvent}
use python_server_sdk.Telemetry.InvalidContexts.{InvalidContextEntry}
use python_server_sdk.Transport.{is_fatal_status, is_ok}

pub record EventReport (E C : Type 0) : Type 0 where
  pub evaluations : List (AggregatedEvent E)
  pub dropped_evaluations : ℕ
  pub contexts : List C
  pub dropped_contexts : ℕ
  pub invalid_contexts : List InvalidContextEntry

pub record ReporterResponse : Type 0 where
  pub success : Bool
  pub fatal : Bool

-- What becomes of a request: the report cannot be written as JSON, which raises, the URL is not
-- usable, there is no response, or one with a status.
pub data Posting : Type 0 where
  unserializable unusable_url no_response : Posting
  answered : ℕ → Posting

pub record Reporter (E C : Type 0) : Type 0 where
  pub send_requests : Bool
  pub tried : List (EventReport E C)

-- `_send`, where nothing is the exception of the writing
unfoldable pub response_to : Posting → Option ReporterResponse
response_to unserializable = none
response_to unusable_url = some (record { success = false; fatal = true })
response_to no_response = some (record { success = false; fatal = false })
response_to (answered status) =
    if is_fatal_status (some status)
    then some (record { success = false; fatal = true })
    else some (record { success = is_ok status; fatal = false })

module _ {E C : Type 0} where
  -- `is_empty` of a report
  unfoldable pub report_is_empty : EventReport E C → Bool
  report_is_empty r =
      is_empty r.evaluations
      && (is_empty r.contexts
          && (is_empty r.invalid_contexts
              && (eqb r.dropped_evaluations 0 && eqb r.dropped_contexts 0)))

  unfoldable pub new : Reporter E C
  new = record { send_requests = true; tried = [] }

  unfoldable pub latched : Option ReporterResponse → Reporter E C → Reporter E C
  latched none s = s
  latched (some r) s = if r.fatal then record s { send_requests = false } else s

  -- The method `report`
  unfoldable pub report :
      Posting → EventReport E C → Reporter E C → Option ReporterResponse × Reporter E C
  unfolding latched
  report posting r s =
      if not s.send_requests
      then (some (record { success = false; fatal = true }), s)
      else if report_is_empty r
      then (some (record { success = true; fatal = false }), s)
      else (
        response_to posting,
        latched (response_to posting) (record s { tried = s.tried ++ r ∷ [] }),
      )
