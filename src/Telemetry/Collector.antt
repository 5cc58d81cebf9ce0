-- ===== src/Telemetry/Collector.antt =====
-- TelemetryCollector of configdirector-server-sdk/src/configdirector/_telemetry/collector.py, over any
-- events with the form that is sent of each and the equality that a report counts them by. Each
-- method is one step, but a flush, which its request parts in two, so that other calls run beside
-- it; an evaluation that is recorded while another thread stops the collector comes before or after
-- that. The time that a method reads is its argument `now`, and what becomes of the request of a
-- flush is `posting`.
pub mod Conservation
pub mod Begun
pub mod Runs
use python_server_sdk.Base.{
  ◌≡◌, refl, ℕ, ◌+◌, ◌-◌, ◌*◌, ◌/◌, Bool, true, false, not, ◌&&◌, Option, none, some, List, [], ◌∷◌,
  ◌++◌, is_empty, Exc, ok, raised, ◌>>=◌, Error, Text, text_eq, pair_eq, if◌then◌else◌, arith,
}
use python_server_sdk.Evaluation.Types.{Context}
use python_server_sdk.Evaluation.Condition.{effective_kind}
use python_server_sdk.Telemetry.Counting.{Keys, aggregate}
use python_server_sdk.Telemetry.EventQueue
use python_server_sdk.Telemetry.ContextRegistry
use python_server_sdk.Telemetry.InvalidContexts
use python_server_sdk.Telemetry.Reporter.{
  EventReport, ReporterResponse, Posting, Reporter, report_is_empty, report,
}

pub record Collector (E F : Type 0) : Type 0 where
  pub events : EventQueue.EventQueue E
  pub contexts : ContextRegistry.ContextRegistry (Text × Text) (Context F)
  pub invalid_contexts : InvalidContexts.InvalidContextSubmissions
  pub invalid_contexts_after_stopping : InvalidContexts.InvalidContextSubmissions
  pub collecting : Bool
  pub closed : Bool
  pub reporter : Reporter E (Context F)
  pub in_flight : Option (EventReport E (Context F))

module _ {F : Type 0} where
  -- The key under which the context of an evaluation is captured: it has an id that is not empty
  -- and is not anonymous.
  unfoldable pub capture_key : Option (Context F) → Option ((Text × Text) × Context F)
  capture_key none = none
  capture_key (some context) = elim context.id [
    | none ↦ none
    | some id ↦
        if not (is_empty id) && not context.anonymous
        then some ((effective_kind (some context), id), context)
        else none
  ]

module _ {F : Type 0} where
  pub captured :
      Option ((Text × Text) × Context F)
      → ContextRegistry.ContextRegistry (Text × Text) (Context F)
      → ContextRegistry.ContextRegistry (Text × Text) (Context F)
  captured none contexts = contexts
  captured (some (key, context)) contexts = ContextRegistry.add key context contexts

module _ {E F : Type 0} where
  unfoldable pub new : ℕ → Reporter E (Context F) → Collector E F
  new limit reporter =
      let evaluation_limit = limit * 7 / 10 in
      record {
        events = EventQueue.new evaluation_limit;
        contexts = ContextRegistry.new (limit - evaluation_limit);
        invalid_contexts = InvalidContexts.new;
        invalid_contexts_after_stopping = InvalidContexts.new;
        collecting = true;
        closed = false;
        reporter = reporter;
        in_flight = none;
      }

  -- `record_evaluation`, of the event that is made for it
  unfoldable pub record_evaluation : ℕ → E → Option (Context F) → Collector E F → Collector E F
  unfolding captured
  record_evaluation now event context c =
      if c.collecting
      then record c {
        contexts = captured (capture_key context) c.contexts;
        events = EventQueue.push now event c.events;
      }
      else c

  -- `record_invalid_context`
  unfoldable pub record_invalid_context :
      ℕ → Text → Collector E F → InvalidContexts.InvalidContextRecording × Collector E F
  record_invalid_context now sample c =
      let during = InvalidContexts.record_kind now sample c.invalid_contexts in
      let after = InvalidContexts.record_kind now sample c.invalid_contexts_after_stopping in
      if c.collecting
      then (during.0, record c { invalid_contexts = during.1 })
      else (after.0, record c { invalid_contexts_after_stopping = after.1 })

  unfoldable pub clear : Collector E F → Collector E F
  clear c = record c {
    events = EventQueue.reset c.events;
    contexts = ContextRegistry.reset c.contexts;
    invalid_contexts = InvalidContexts.reset c.invalid_contexts;
  }

  -- `_stop_collecting`
  unfoldable pub stop_collecting : Collector E F → Collector E F
  unfolding clear
  stop_collecting c = if c.collecting then clear (record c { collecting = false }) else c

  -- What a flush does with the reporter's response, where nothing is an exception.
  unfoldable pub on_response : Option ReporterResponse → Collector E F → Collector E F
  unfolding stop_collecting
  on_response none c = c
  on_response (some r) c = if r.fatal then stop_collecting c else c

module _ {E : Type 0} (compact : E → Exc E) where
  -- `[event.compacted() for event in events]`
  unfoldable pub compact_all : List E → Exc (List E)
  compact_all [] = ok []
  compact_all (event ∷ events) = do
    first ← compact event
    rest ← compact_all events
    ok (first ∷ rest)

abbrev pub is_some : {A : Type 0} → Option A → Bool
is_some none = false
is_some (some a) = true

module _ {E F : Type 0} (keys : Keys E) (compact : E → Exc E) where
  -- The report of a flush.
  unfoldable pub report_of : ℕ → Collector E F → Exc (EventReport E (Context F))
  unfolding compact_all
  report_of now c =
      let snapshot = (EventQueue.take_snapshot now c.events).0 in
      let (contexts, dropped) = (ContextRegistry.take_snapshot c.contexts).0 in
      let invalid_contexts = (InvalidContexts.take_snapshot now c.invalid_contexts).0 in
      do
        events ← compact_all compact snapshot.events
        lines ← aggregate keys events snapshot.start_time snapshot.end_time
        ok (record {
          evaluations = lines;
          dropped_evaluations = snapshot.dropped_count;
          contexts = contexts;
          dropped_contexts = dropped;
          invalid_contexts = invalid_contexts;
        })

  -- The collector once the snapshots of the events and of the contexts are taken.
  unfoldable pub emptied : ℕ → Collector E F → Collector E F
  emptied now c = record c {
    events = (EventQueue.take_snapshot now c.events).1;
    contexts = (ContextRegistry.take_snapshot c.contexts).1;
  }

  -- A flush up to the request, once its report is there: an exception of the report leaves the
  -- snapshots taken, and is raised.
  unfoldable pub begin_with :
      ℕ → Exc (EventReport E (Context F)) → Collector E F → Collector E F × Option Error
  unfolding emptied
  begin_with now (raised x) c = (emptied now c, some x)
  begin_with now (ok r) c =
      let d = record (emptied now c) {
        invalid_contexts = (InvalidContexts.take_snapshot now c.invalid_contexts).1;
      } in
      if report_is_empty r then (d, none) else (record d { in_flight = some r }, none)

  -- `flush` up to the request; a flush waits for the one that is under way.
  unfoldable pub begin_flush : ℕ → Collector E F → Collector E F × Option Error
  unfolding begin_with report_of
  begin_flush now c = if is_some c.in_flight then (c, none) else begin_with now (report_of now c) c

module _ {E F : Type 0} where
  -- The rest of `flush`, if one is under way: the request, and what its response means.
  unfoldable pub end_with :
      Posting → Option (EventReport E (Context F)) → Collector E F → Collector E F
  unfolding on_response
  end_with posting none c = c
  end_with posting (some r) c =
      let (response, reporter) = report posting r c.reporter in
      on_response response (record c { reporter = reporter; in_flight = none })

  unfoldable pub end_flush : Posting → Collector E F → Collector E F
  unfolding end_with
  end_flush posting c = end_with posting c.in_flight c

module _ {E F : Type 0} (keys : Keys E) (compact : E → Exc E) where
  -- The last flush of `close`; an exception of it leaves `close` at once.
  unfoldable pub close_with : Posting → Collector E F × Option Error → Collector E F × Option Error
  unfolding end_flush clear
  close_with posting (c, some x) = (c, some x)
  close_with posting (c, none) = (clear (end_flush posting c), none)

  -- `close`. A flush that is under way ends first, with the answer `beside`: the last one waits for
  -- its lock.
  unfoldable pub close : ℕ → Posting → Posting → Collector E F → Collector E F × Option Error
  unfolding begin_flush end_flush clear close_with
  close now beside posting c =
      let closing = record c { closed = true; collecting = false } in
      if c.closed
      then (c, none)
      else if c.collecting
      then close_with posting (begin_flush keys compact now (end_flush beside closing))
      else (clear closing, none)
