-- ===== src/Client/Delivery.antt =====
-- The method `_on_bundle` of configdirector-server-sdk/src/configdirector/client.py with the calls that it
-- makes once the lock is released. A watcher whose evaluation raises is passed over, with what it
-- recorded.
pub mod Ready
use python_server_sdk.Base.{
  ◌≡◌, refl, ap, ◌∙◌, ℕ, ◌+◌, Bool, true, false, not, Option, none, some, List, [], ◌∷◌, ◌++◌, map,
  Text, text_eq, length, length-append, Exc, ok, raised, if◌then◌else◌, arith,
}
use python_server_sdk.Base.Dict
use python_server_sdk.Base.Dict.{Dict}
use python_server_sdk.Base.Python.{Python}
use python_server_sdk.Base.Json.{Value}
use python_server_sdk.Evaluation.Types.{Context, Metadata, Config, Segments}
use python_server_sdk.Values.{Readers}
use python_server_sdk.Telemetry.Events.{Renderers, EvaluatedConfigEvent}
use python_server_sdk.Telemetry.Collector.{Collector}
use python_server_sdk.Client.{
  ConfigBundle, Watcher, Client, Update, apply_bundle, config_evaluated, handlers,
}
use python_server_sdk.Client.Evaluation.{Emission, Outcome, evaluate_for}

-- A call of a handler or a watcher.
pub data HandlerCall (F : Type 0) : Type 0 where
  updated_call : ℕ → List Text → List Text → HandlerCall F
  evaluated_call : Emission F → HandlerCall F
  watcher_call : ℕ → Value F → HandlerCall F
  ready_call : ℕ → HandlerCall F

-- The client and the collector after a bundle, and the calls in their order.
pub record Delivered (F : Type 0) : Type 0 where
  pub client : Client F (Value F)
  pub collector : Collector (EvaluatedConfigEvent F) F
  pub calls : List (HandlerCall F)

module _ {F : Type 0} where
  -- `definitions[config_key]`
  definition_in : Text → Dict Text (Option (Config F)) → Option (Config F)
  definition_in key definitions = elim (Dict.get key definitions) [ none ↦ none | some d ↦ d ]

  updated_calls : List Text → List Text → List ℕ → List (HandlerCall F)
  updated_calls keys removed [] = []
  updated_calls keys removed (h ∷ hs) = updated_call h keys removed ∷ updated_calls keys removed hs

  evaluated_calls : List (Emission F) → List (HandlerCall F)
  evaluated_calls [] = []
  evaluated_calls (e ∷ emitted) = evaluated_call e ∷ evaluated_calls emitted

  ready_calls : List ℕ → List (HandlerCall F)
  ready_calls [] = []
  ready_calls (h ∷ hs) = ready_call h ∷ ready_calls hs

  -- A watcher that was evaluated, in front of the calls of those behind it.
  pub notified :
      ℕ
      → Collector (EvaluatedConfigEvent F) F
      → Exc (Outcome F)
      → (Collector (EvaluatedConfigEvent F) F
          → Collector (EvaluatedConfigEvent F) F × List (HandlerCall F))
      → Collector (EvaluatedConfigEvent F) F × List (HandlerCall F)
  unfolding evaluated_calls
  notified handler c (raised e) rest = rest c
  notified handler c (ok r) rest =
      let (d, calls) = rest r.collector in
      (d, evaluated_calls r.emitted ++ watcher_call handler r.value ∷ calls)

module _ (py : Python) (readers : Readers py.Float) (renderers : Renderers py.Float)
    (value_id_of : Text → Text) where
  open py use {Float}

  module _ (now : ℕ) (metadata : Option Metadata) (ready : Bool) (hs : List ℕ)
      (segments : Segments) where
    -- The watchers of one key.
    notify_entries :
        Text
        → Option (Config Float)
        → List (Watcher (Value Float) (Context Float))
        → Collector (EvaluatedConfigEvent Float) Float
        → Collector (EvaluatedConfigEvent Float) Float × List (HandlerCall Float)
    unfolding notified
    notify_entries key definition [] c = (c, [])
    notify_entries key definition (w ∷ entries) c =
        notified w.handler c
          (evaluate_for py readers renderers value_id_of now metadata ready hs key definition
            w.default w.context segments c)
          (notify_entries key definition entries)

    -- `_notify_watchers`
    unfoldable pub notify_watchers :
        Dict Text (List (Watcher (Value Float) (Context Float)))
        → Dict Text (Option (Config Float))
        → Collector (EvaluatedConfigEvent Float) Float
        → Collector (EvaluatedConfigEvent Float) Float × List (HandlerCall Float)
    unfolding notify_entries definition_in
    notify_watchers [] definitions c = (c, [])
    notify_watchers ((key, entries) ∷ watchers) definitions c =
        let (d, calls) = notify_entries key (definition_in key definitions) entries c in
        let (d', more) = notify_watchers watchers definitions d in (d', calls ++ more)

  announce :
      ℕ
      → Option Metadata
      → Client Float (Value Float)
      → Option (Update Float (Value Float))
      → Collector (EvaluatedConfigEvent Float) Float
      → Delivered Float
  unfolding updated_calls ready_calls notify_watchers
  announce now metadata c none telemetry = record { client = c; collector = telemetry; calls = [] }
  announce now metadata c (some u) telemetry =
      let (d, calls) =
        notify_watchers now metadata c.ready (handlers config_evaluated c) u.segments u.watchers
          u.definitions telemetry in
      record {
        client = c;
        collector = d;
        calls =
            updated_calls u.updated_keys u.removed_keys c.updated_handlers
            ++ (calls ++ (if u.first_bundle then ready_calls c.ready_handlers else []));
      }

  -- `_on_bundle`
  unfoldable pub on_bundle :
      ℕ
      → Option Metadata
      → ConfigBundle Float
      → Client Float (Value Float)
      → Collector (EvaluatedConfigEvent Float) Float
      → Delivered Float
  unfolding announce
  on_bundle now metadata bundle c telemetry =
      let (d, u) = apply_bundle bundle c in announce now metadata d u telemetry

  -- The calls that a sequence of bundles makes.
  unfoldable pub on_bundles :
      ℕ
      → Option Metadata
      → List (ConfigBundle Float)
      → Client Float (Value Float)
      → Collector (EvaluatedConfigEvent Float) Float
      → List (HandlerCall Float)
  unfolding on_bundle
  on_bundles now metadata [] c telemetry = []
  on_bundles now metadata (bundle ∷ bundles) c telemetry =
      let r = on_bundle now metadata bundle c telemetry in
      r.calls ++ on_bundles now metadata bundles r.client r.collector
