-- ===== src/Lib.antt =====
-- The server SDK of ConfigDirector for Python: feature configs that are received over a stream or
-- by polling, evaluated in the process against a context, and reported back.
--
-- The program's parts. Paths below are under configdirector-server-sdk/src/configdirector.
--   EventSource: the parser of server-sent events, _eventsource/parser.py. `feed` and `finish` are
--     the methods of EventSourceParser; `scan` is the loop of `feed`. The callbacks are the list
--     of calls that the parser makes. Parser/Reference reads the same stream one character at a
--     time and knows no chunks.
--     Worker is EventSourceClient of _eventsource/client.py: `round` is a turn of the loop of
--     `_run`, and a `Session` is what the world does in it, with the looks at `_stop` that find a
--     close of another thread.
--   Transport: _transport. Polling is the loop of PollingTransport over the responses that it gets;
--     Streaming has the handlers that StreamingTransport gives to its event source client.
--   Telemetry: the buffers of _telemetry/queue.py. EventQueue, ContextRegistry and InvalidContexts
--     are the three classes, Counting is `aggregate`. The time that an operation reads from the
--     clock is its argument. Reporter is HttpEventReporter of _telemetry/reporter.py and Collector
--     is TelemetryCollector of _telemetry/collector.py; Collector/Runs is any sequence of calls, with
--     the two halves of a flush, before and behind its request, as two of them.
--     Events is events.py with compact_json.py, ValueId is value_id.py, Wire the payload of a
--     report.
--   Evaluation: _evaluation. Types has the definitions; Text, Numeric, Semver, Date are the
--     comparisons of the values of conditions; Pointer the walk of a JSON pointer into the traits;
--     Condition the conditions and segments, with _context_kind.py; Rapidhash and Percent the
--     share of a context; Config the rules of a config, ConfigEvaluator.
--   Bundle: _bundle.py, over the JSON value that the payload of an event stands for. Bundle has the
--     readers of single members and conditions, Definitions those of rules, configs, segments and
--     the bundle.
--   Values: _value_parser.py, the value of a state in the type of a default.
--     Values/Written has that a native value which is written as a text is read as itself.
--   Native: _native_values.py and _validation.py, the text of a value that is given in code.
--   Offline: _connection_plan.py and _transport/offline.py. `initialize` is that of client.py for a
--     plan to stay offline, with the `connect` of its transport.
--   InMemory: what the state lock of _in_memory_connection.py guards, with the update that each
--     operation delivers; `connect` is `_connect` up to the delivery or the wait.
--   Client: the state of _ConfigDirectorClient in client.py that its lock guards. Every operation
--     under the lock is one function, and the steps of all threads are a relation on the state
--     (Client/Lifecycle). `apply_bundle` is `_on_bundle` up to the end of the lock.
--     Client/Reads has `get_all_configs`, Client/Evaluation `get_value` with the collector,
--     Client/Delivery the calls that `_on_bundle` makes, Client/Options the checks of options.
--   OpenFeature: configdirector-openfeature-server-provider/src/configdirector_openfeature. The
--     startup of ConfigDirectorProvider in provider.py, whose interleavings are the relation of
--     OpenFeature/Startup, and _resolution.py.
--   Base: the names that all of these share, dictionaries as lists of items in insertion order
--     (Dict), `int`, JSON values, and the errors that an expression raises.
-- The events that a stream delivers (EventSource, Transport) carry bundles (Bundle), which are
-- applied to the client (Client). It keeps the definitions that an evaluation reads (Evaluation);
-- the state that an evaluation gives becomes a value (Values) and is counted (Telemetry).
--
-- Floats, the tables of Unicode, and UTF-8 are not written out: they are the fields of the record
-- Python of Base/Python, an argument of what uses them. So are `str`, `json.dumps` and `int` where
-- Bundle needs them, the fields of its record Conversions, and `json.loads` and `int` where Values
-- needs them, those of Readers. What a theorem relies on is its own hypothesis, such as IsExact for
-- the sums of whole percentages.
--
-- Bounds and fuel. The loop over blocks in `rapidhash` has the number of bytes as fuel, and each
-- round takes 112 of them. The digits of a decimal number have one more than the number as fuel.
-- The digits of base 62 have the number as fuel, and each round divides it. All other loops are
-- structural. Hashes are computed modulo 2^64, as the source does.
--
-- Not modelled: threads, HTTP and logging; what the responses and the decoder return is an
-- argument, as are the moments at which the worker of the event source meets the two writes of a
-- close. Nor the queue of the in-memory connection, the wait of `initialize`, and the conversion of
-- the contexts of OpenFeature.
pub mod Base
pub mod EventSource
pub mod Telemetry
pub mod Evaluation
pub mod Client
pub mod Bundle
pub mod Values
pub mod InMemory
pub mod Native
pub mod Offline
pub mod OpenFeature
pub mod Transport
mod Tests
