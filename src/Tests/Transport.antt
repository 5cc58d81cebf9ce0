-- ===== src/Tests/Transport.antt =====
-- The transports of configdirector/_transport on concrete responses.
use python_server_sdk.Base.{
  ◌≡◌, refl, ℕ, [], ◌∷◌, none, some, false, ok, raised, value_error, stream_closed, List, codes,
}
use python_server_sdk.Base.Json.{Value, scalar, text, object, end, field}
use python_server_sdk.Base.{text_beq}
use python_server_sdk.Transport.{is_ok, parse_payload}
use python_server_sdk.Bundle.Definitions.{parse_bundle}
use python_server_sdk.Bundle.{get_member}
use python_server_sdk.Evaluation.Pointer.{member}
use python_server_sdk.Transport.Polling.{
  Poller, Response, too_large, cut_off, responded, no_response, poll, Echoes, poll-Echoes,
  last_timestamp,
}
use python_server_sdk.Tests.Evaluation.{toy}
use python_server_sdk.Tests.Bundle.{plain}

abbrev fresh_poller : Poller ℕ
fresh_poller = record {
  fatal = false;
  stopped = false;
  last_update_timestamp = none;
  exchanges = [];
}

-- No response, one that is too large, a payload that is not JSON, a busy server, and a key that is rejected.
abbrev responses : List (Response ℕ)
responses =
    no_response
    ∷ too_large
    ∷ responded 200 (raised value_error)
    ∷ responded 503 (raised value_error)
    ∷ responded 401 (raised value_error)
    ∷ []

-- A bundle with a timestamp, a body that is cut off, and what they leave of a poll.
abbrev stamped : Value ℕ
stamped = object (
    field (codes "timestamp") (scalar (text (codes "t1"))) (
      field (codes "configs") (object end)
        (field (codes "kind") (scalar (text (codes "full"))) end)))

abbrev two_requests : List (Response ℕ)
two_requests = responded 200 (ok stamped) ∷ cut_off stream_closed ∷ no_response ∷ []

second_echoes :
    (poll toy plain two_requests fresh_poller).0.last_update_timestamp ≡ some (codes "t1")
unfolding poll is_ok parse_payload parse_bundle get_member member text_beq
second_echoes = refl

cut_off_ends : (poll toy plain two_requests fresh_poller).1 ≡ false
unfolding poll is_ok parse_payload parse_bundle get_member member text_beq
cut_off_ends = refl

poll-Echoes_example : Echoes toy plain (poll toy plain two_requests fresh_poller).0
unfolding last_timestamp
poll-Echoes_example =
    poll-Echoes toy plain two_requests fresh_poller (record { next = refl; all = tt })
