-- ===== src/EventSource/Worker.antt =====
-- EventSourceClient of configdirector-server-sdk/src/configdirector/_eventsource/client.py: the worker
-- that connects, reads and reconnects. What the world does to one attempt is a `Session`: what the
-- transport answers, the texts that the decoder returns, what the two questions are answered, and at
-- which of the worker's looks at `_stop` the writes of a `close` of another thread are seen. A `close`
-- writes the state and then `_stop`, with no lock that the worker takes, so either write can land at
-- any of these moments, and a setting of the state has a moment between its look and its write. What
-- the handlers do is outside, their calls are recorded.
pub mod Delays
pub mod Attempts
pub mod Loop
pub mod Retries
use python_server_sdk.Base.{
  ℕ, ◌+◌, Bool, true, false, not, ◌&&◌, ◌||◌, Option, none, some, List, [], ◌∷◌, ◌++◌, Text, nat_eq,
  ◌==◌, leb, ◌>>=◌, if◌then◌else◌, Error, Exc, ok, raised, overflow_error, stream_closed,
  value_out_of_range,
}
use python_server_sdk.Base.Python.{Python}
use python_server_sdk.Base.Json.{Value, scalar, int, float}
use python_server_sdk.EventSource.Parser.{
  EventSourceMessage, Call, on_event, on_retry, on_comment, Options, Parser, Run, init, feed,
  ◌>>=◌ as and_then,
}

pub data ReadyState : Type 0 where
  connecting open_stream closed : ReadyState

pub record ReconnectionState (F : Type 0) : Type 0 where
  pub attempt : ℕ
  pub server_reconnect_delay : F
  pub status : Option ℕ
  pub error : Option Error

-- A call of a handler, or the delay that the worker waits.
pub data Notice (F : Type 0) : Type 0 where
  connected disconnected : Notice F
  message : EventSourceMessage → Notice F
  comment : Text → Notice F
  failed : Error → Notice F
  asked : ReconnectionState F → Notice F
  waiting : F → Notice F

-- The attributes of the client that change.
pub record Source (F : Type 0) : Type 0 where
  pub ready_state : ReadyState
  pub attempt : ℕ
  pub server_delay : F
  pub stopped : Bool
  pub last_event_id : Option Text
  pub notices : List (Notice F)

-- `_Failure`
pub record Failure : Type 0 where
  pub status : Option ℕ
  pub error : Option Error

pub data Opening : Type 0 where
  refused : Error → Opening
  answered : ℕ → Opening

-- What another thread's `close` wrote up to a moment, since the last one: nothing, the state, then
-- `_stop`, or both.
pub data Landing : Type 0 where
  nothing marks stops closing : Landing

-- A text of the stream, and what a `close` wrote before `_stop` was looked at.
pub record Read : Type 0 where
  pub closes : Landing
  pub content : Text

-- `ending` is the exception that the stream ends with, if any, and `rest` what the decoder still
-- holds at the end. `reconnects` is the answer of `should_reconnect` and `delay` that of
-- `calculate_reconnect_delay`, nothing where no callback is given or it raises.
pub record Session (F : Type 0) : Type 0 where
  pub opening : Opening
  pub closes_opening : Landing
  pub closes_published : Landing
  pub closes_starting : Landing
  pub closes_setting_open : Landing
  pub reads : List Read
  pub closes_ending : Landing
  pub ending : Option Error
  pub rest : Text
  pub closes_read : Landing
  pub closes_failed : Landing
  pub reconnects : Option Bool
  pub delay : Option (Value F)
  pub closes_asked : Landing
  pub closes_setting_connecting : Landing
  pub closes_waiting : Landing

-- Where the worker is after a round: at the next one, or returned.
pub record Round (F : Type 0) : Type 0 where
  pub source : Source F
  pub alive : Bool

module _ {F : Type 0} where
  -- `connect`, where a new worker starts if the client is closed
  unfoldable pub connect : Source F → Source F
  connect s = elim s.ready_state [
    | closed ↦ record s { ready_state = connecting; attempt = 0; stopped = false }
    | _ ↦ s
  ]

  -- The two writes of `close`, the first of them under its lock.
  unfoldable pub mark_closed : Source F → Source F
  mark_closed s = record s { ready_state = closed }

  unfoldable pub set_stop : Source F → Source F
  set_stop s = record s { stopped = true }

  unfoldable pub close : Source F → Source F
  unfolding mark_closed set_stop
  close s = set_stop (mark_closed s)

  -- What a moment of the worker finds.
  unfoldable pub look : Landing → Source F → Source F
  unfolding close mark_closed set_stop
  look nothing s = s
  look marks s = mark_closed s
  look stops s = set_stop s
  look closing s = close s

  -- `_notify`
  unfoldable pub notify : Notice F → Source F → Source F
  notify n s = record s { notices = s.notices ++ n ∷ [] }

  -- `_set_state`, with what lands before its look at `_stop`, and between that and its write
  unfoldable pub set_state : Landing → Landing → ReadyState → Source F → Source F
  unfolding look
  set_state before within r s =
      let t = look before s in
      if t.stopped then look within t else record (look within t) { ready_state = r }

  -- `_begin_stream`
  unfoldable pub begin_stream : Landing → Landing → Source F → Source F
  unfolding set_state notify
  begin_stream before within s =
      notify connected (record (set_state before within open_stream s) { attempt = 0 })

  -- `_disconnected`
  unfoldable pub disconnect : Source F → Source F
  unfolding close mark_closed set_stop notify
  disconnect s = notify disconnected (close s)

  -- `_handle_event`
  handle_event : EventSourceMessage → Source F → Source F
  unfolding notify
  handle_event m s =
      notify (message m) (elim m.id [ none ↦ s | some i ↦ record s { last_event_id = some i } ])

  -- The state that `should_reconnect` is asked with.
  unfoldable pub asked_with : Failure → Source F → ReconnectionState F
  asked_with f s = record {
    attempt = s.attempt;
    server_reconnect_delay = s.server_delay;
    status = f.status;
    error = f.error;
  }

-- `_ask`, for a question whose default is yes
unfoldable pub yes_unless : Option Bool → Bool
yes_unless none = true
yes_unless (some b) = b

module _ (py : Python) (of_milliseconds : ℕ → Exc py.Float) (o : Options) where
  open py use {Float}

  with_delay : Exc Float → Source Float → Run (Source Float)
  with_delay (ok d) s = Run.done (record s { server_delay = d })
  with_delay (raised e) s = Run.raised e s

  -- The parser's calls: `_handle_event`, `_handle_retry` and the handler of comments.
  handle : Call → Source Float → Run (Source Float)
  unfolding handle_event with_delay notify
  handle (on_event m) s = Run.done (handle_event m s)
  handle (on_retry n) s = with_delay (of_milliseconds n) s
  handle (on_comment t) s = Run.done (notify (comment t) s)

  unfoldable pub handle_all : List Call → Source Float → Run (Source Float)
  unfolding handle
  handle_all [] s = Run.done s
  handle_all (c ∷ calls) s = and_then (handle c s) (handle_all calls)

  -- A `feed` with the handlers that it calls; `go_on` reads the rest of the stream.
  fed :
      Run Parser → (Parser → Source Float → Run (Source Float)) → Source Float → Run (Source Float)
  unfolding handle_all
  fed (Run.done p) go_on s = and_then (handle_all p.events.calls s) (go_on p)
  fed (Run.raised e p) go_on s = and_then (handle_all p.events.calls s) (Run.raised e)

  -- The parser with no calls behind it.
  silent : Parser → Parser
  silent p = record p { events = record p.events { calls = [] } }

  -- The loop of `_read` over the chunks; `_stop` is looked at before each of them and at the end.
  unfoldable pub read_stream :
      List Read → Session Float → Parser → Source Float → Run (Source Float)
  unfolding fed silent look
  read_stream [] session p s =
      let s' = look session.closes_ending s in
      elim session.ending [
        | some e ↦ Run.raised e s'
        | none ↦
            if s'.stopped
            then Run.done s'
            else fed (feed o session.rest (silent p)) (λ q t. Run.done t) s'
      ]
  read_stream (r ∷ reads) session p s =
      let s' = look r.closes s in
      let more = fed (feed o r.content (silent p)) (read_stream reads session) s' in
      if s'.stopped then Run.done s' else more

  -- The end of `_connect_once`, once the stream is read.
  unfoldable pub after_read : ℕ → Landing → Run (Source Float) → Source Float × Option Failure
  unfolding look notify
  after_read status closes (Run.done s) =
      let s' = look closes s in
      if s'.stopped
      then (s', none)
      else (s', some (record { status = some status; error = some stream_closed }))
  after_read status closes (Run.raised e s) =
      let s' = look closes s in
      if s'.stopped
      then (s', none)
      else (notify (failed e) s', some (record { status = some status; error = some e }))

  -- `_connect_once` once the transport has answered and `_stop` is not set
  unfoldable pub on_answer : ℕ → Session Float → Source Float → Source Float × Option Failure
  unfolding disconnect look begin_stream read_stream after_read
  on_answer status session s =
      let s' = look session.closes_published s in
      if status == 204
      then (disconnect s, none)
      else if leb 400 status
      then (s, some (record { status = some status; error = none }))
      else if s'.stopped
      then (s', none)
      else after_read status session.closes_read (
          read_stream session.reads session init
            (begin_stream session.closes_starting session.closes_setting_open s'))

  -- `_connect_once`. A response that comes after a `close` raises StreamClosedError, which ends the
  -- worker as `_stop` is set.
  unfoldable pub connect_once : Session Float → Source Float → Source Float × Option Failure
  unfolding look notify on_answer
  connect_once session s =
      let s' = look session.closes_opening s in
      if s'.stopped then (s', none) else elim session.opening [
        | refused e ↦ (notify (failed e) s', some (record { status = none; error = some e }))
        | answered status ↦ on_answer status session s'
      ]

  -- `_as_seconds`
  unfoldable pub finite : Float → Option Float
  finite x = if py.is_nan x || py.is_infinite x then none else some x

  unfoldable pub as_seconds : Value Float → Exc (Option Float)
  unfolding finite
  as_seconds (scalar (int n)) = do x ← py.float_of_int n; ok (finite x)
  as_seconds (scalar (float x)) = ok (finite x)
  as_seconds _ = ok none

  -- `_MIN_RECONNECT_DELAY <= delay <= _MAX_RECONNECT_DELAY`, where 0.001 is `1 / 1000.0`
  unfoldable pub in_range : Float → Bool
  in_range x = elim (of_milliseconds 1) [
    | ok low ↦ py.float_le low x && py.float_le x (py.whole 3600)
    | raised e ↦ false
  ]

  unfoldable pub checked : Option Float → Source Float → Float × Source Float
  unfolding in_range notify
  checked none s = (s.server_delay, notify (failed value_out_of_range) s)
  checked (some x) s =
      if in_range x then (x, s) else (s.server_delay, notify (failed value_out_of_range) s)

  -- `_reconnect_delay`
  unfoldable pub reconnect_delay : Option (Value Float) → Source Float → Exc (Float × Source Float)
  unfolding as_seconds checked
  reconnect_delay none s = ok (checked (some s.server_delay) s)
  reconnect_delay (some v) s = do seconds ← as_seconds v; ok (checked seconds s)

  -- The wait for the next attempt, of a delay that `Event.wait` takes: it raises OverflowError for
  -- one above `threading.TIMEOUT_MAX`. An exception ends the loop with the client closed.
  unfoldable pub wait : Landing → Exc (Float × Source Float) → Source Float → Round Float
  unfolding look notify
  wait closes (raised e) s = record {
    source = record (look closes s) { ready_state = closed };
    alive = false;
  }
  wait closes (ok (d, t)) s =
      let t' = look closes (notify (waiting d) t) in
      if t.stopped
      then record { source = look closes t; alive = false }
      else if py.float_lt py.timeout_max d
      then record { source = record (look closes t) { ready_state = closed }; alive = false }
      else record { source = t'; alive = not t'.stopped }

  -- The round once `should_reconnect` has answered.
  unfoldable pub proceed : Bool → Session Float → Source Float → Round Float
  unfolding disconnect set_state reconnect_delay wait
  proceed false session s = record { source = disconnect s; alive = false }
  proceed true session s =
      let t = set_state session.closes_asked session.closes_setting_connecting connecting s in
      wait session.closes_waiting (reconnect_delay session.delay t) t

  -- The rest of a round of `_run`, after a failure.
  unfoldable pub after_failure : Session Float → Failure → Source Float → Round Float
  unfolding notify proceed asked_with yes_unless
  after_failure session f s =
      let t = record s { attempt = s.attempt + 1 } in
      proceed (yes_unless session.reconnects) session (notify (asked (asked_with f t)) t)

  -- What `_run` does with the failure of an attempt.
  unfoldable pub after_attempt : Session Float → Source Float × Option Failure → Round Float
  unfolding after_failure look
  after_attempt session (s, none) = record { source = s; alive = false }
  after_attempt session (s, some failure) =
      let t = look session.closes_failed s in
      if t.stopped then record { source = t; alive = false } else after_failure session failure t

  -- One round of `_run`.
  unfoldable pub round : Session Float → Source Float → Round Float
  unfolding connect_once after_attempt
  round session s = after_attempt session (connect_once session s)

  -- `_run` over what happens in its rounds, until the worker returns.
  unfoldable pub run : List (Session Float) → Source Float → Round Float
  unfolding round
  run [] s = record { source = s; alive = true }
  run (session ∷ sessions) s =
      let r = round session s in let more = run sessions r.source in if r.alive then more else r
