-- ===== src/Transport/Streaming.antt =====
-- The handlers that StreamingTransport of
-- configdirector-server-sdk/src/configdirector/_transport/streaming.py gives to its event source, and
-- what the event source's worker does with their answers.
use Prim.Native.Nat.{◌^◌}
use native.Mathlib.Nat.{one-le-pow, pow-le-pow_right}
use python_server_sdk.Base.{
  ◌≡◌, refl, ℕ, ◌≤◌, Bool, true, false, Option, none, some, Text, nat_eq, leb, if◌then◌else◌, Error,
  Exc, ok, raised, arith,
}
use python_server_sdk.Base.Python.{Python}
use python_server_sdk.Base.Json.{scalar, float}
use python_server_sdk.Client.{ConfigBundle}
use python_server_sdk.EventSource.Parser.{Options}
use python_server_sdk.EventSource.Worker.{
  ReconnectionState, Source, in_range, checked, as_seconds, finite, reconnect_delay,
}
use python_server_sdk.Transport.{is_fatal_status, Parsed, bundle, invalid, unexpected}

-- The attributes that the handlers change; `fatal_error` is the status and the error that it names.
pub record Streaming : Type 0 where
  pub settled : Bool
  pub fatal_error : Option (Option ℕ × Option Error)
  pub session_id : Option Text

-- `connect`, up to the start of the event source
unfoldable pub restart : Streaming → Streaming
restart t = record t { settled = false; fatal_error = none }

-- `_build_request_body`, with the identifier that `uuid4` gives
unfoldable pub build_request_body : Text → Streaming → Streaming
build_request_body fresh t = record t { session_id = some fresh }

-- `_on_connect`
unfoldable pub on_connect : Streaming → Streaming
on_connect t = record t { settled = true }

-- The heartbeat that `_send_heartbeat` sends, with its session.
unfoldable pub heartbeat : Bool → Streaming → Option Text
heartbeat connected t = if connected then t.session_id else none

-- `_should_reconnect`
unfoldable pub should_reconnect : {F : Type 0} → ReconnectionState F → Streaming → Bool × Streaming
should_reconnect state t =
    if is_fatal_status state.status
    then (false, record t { fatal_error = some (state.status, state.error); settled = true })
    else (true, t)

-- What `_on_message` does with a payload: a bundle is handed on, and a `ValueError` of the payload
-- is logged; another exception goes to the event source.
unfoldable pub on_message : {F : Type 0} → Parsed F → Exc (Option (ConfigBundle F))
on_message (bundle b) = ok (some b)
on_message invalid = ok none
on_message (unexpected e) = raised e

abbrev smaller : ℕ → ℕ → ℕ
smaller a b = if leb a b then a else b

-- `2 ** min(state.attempt, _MAX_BACKOFF_EXPONENT)`
unfoldable pub backoff : ℕ → ℕ
backoff attempt = 2 ^ smaller attempt 9

-- What floats are to the numbers from 1 to 3600: they hold them, in their order, and 0.001 is less.
pub record IsOrdered (py : Python) (of_milliseconds : ℕ → Exc py.Float) : Type 0 where
  pub low :
      (d : py.Float) × (of_milliseconds 1 ≡ ok d)
      × ((n : ℕ) → 1 ≤ n → n ≤ 3600 → py.float_le d (py.whole n) ≡ true)
  pub high : (n : ℕ) → 1 ≤ n → n ≤ 3600 → py.float_le (py.whole n) (py.whole 3600) ≡ true
  pub not_nan : (n : ℕ) → 1 ≤ n → n ≤ 3600 → py.is_nan (py.whole n) ≡ false
  pub not_infinite : (n : ℕ) → 1 ≤ n → n ≤ 3600 → py.is_infinite (py.whole n) ≡ false

power_bounds : (k : ℕ) → k ≤ 9 → (1 ≤ 2 ^ k) × (2 ^ k ≤ 512)
power_bounds k h = (one-le-pow k 2 (omega arith), pow-le-pow_right {n = 2} (omega arith) h)

backoff_bounds : (attempt : ℕ) → (1 ≤ backoff attempt) × (backoff attempt ≤ 512)
unfolding backoff
backoff_bounds attempt = power_bounds (smaller attempt 9) (ground arith)

module _ (py : Python) (of_milliseconds : ℕ → Exc py.Float) (o : Options)
    (exact : IsOrdered py of_milliseconds) where
  open py use {Float}

  in_range-whole : (n : ℕ) → 1 ≤ n → n ≤ 3600 → in_range py of_milliseconds o (py.whole n) ≡ true
  unfolding in_range
  in_range-whole n above below =
      let (d, found, le) = exact.low in
      ground (arith, found, le n above below, exact.high n above below)

  -- With floats that order the numbers from 1 to 3600, the delay that the transport calculates for
  -- an attempt is what the worker waits: `2 ** min(attempt, 9)` seconds, from 1 to 512.
  pub reconnect_delay-backoff :
      (attempt : ℕ) (s : Source Float)
      → (reconnect_delay py of_milliseconds o (some (scalar (float (py.whole (backoff attempt))))) s
          ≡ ok (py.whole (backoff attempt), s))
        × (1 ≤ backoff attempt)
        × (backoff attempt ≤ 512)
  unfolding reconnect_delay as_seconds finite checked
  reconnect_delay-backoff attempt s =
      let n = backoff attempt in
      let (low, high) = backoff_bounds attempt in
      (
        rw
            (
              exact.not_nan n low (omega arith),
              exact.not_infinite n low (omega arith),
              in_range-whole n low (omega arith),
            )
            refl,
        low,
        high,
      )
