-- ===== src/Client/Delivery/Ready.antt =====
-- The event that the client is ready, over the bundles of the client's life.
use python_server_sdk.Base.{
  ◌≡◌, refl, ap, ◌∙◌, ℕ, ◌+◌, Bool, true, false, not, ◌||◌, Option, none, some, List, [], ◌∷◌, ◌++◌,
  Text, length, is_empty, Exc, ok, raised, if◌then◌else◌, arith,
}
use python_server_sdk.Base.Dict.{Dict}
use python_server_sdk.Base.Python.{Python}
use python_server_sdk.Base.Json.{Value}
use python_server_sdk.Evaluation.Types.{Context, Metadata, Config, Segments}
use python_server_sdk.Values.{Readers}
use python_server_sdk.Telemetry.Events.{Renderers, EvaluatedConfigEvent}
use python_server_sdk.Telemetry.Collector.{Collector}
use python_server_sdk.Client.{
  ConfigBundle, Watcher, Client, Update, apply_bundle, config_evaluated, handlers,
}
use python_server_sdk.Client.Evaluation.{Emission, Outcome, evaluate_for}
use python_server_sdk.Client.Delivery.{
  HandlerCall, updated_call, evaluated_call, watcher_call, ready_call, updated_calls,
  evaluated_calls, ready_calls, notified, definition_in, notify_entries, notify_watchers, announce,
  on_bundle, on_bundles,
}

module _ {F : Type 0} where
  -- The calls of handlers of the event.
  unfoldable pub ready_count : List (HandlerCall F) → ℕ
  ready_count [] = 0
  ready_count (ready_call h ∷ calls) = 1 + ready_count calls
  ready_count (updated_call h keys removed ∷ calls) = ready_count calls
  ready_count (evaluated_call e ∷ calls) = ready_count calls
  ready_count (watcher_call h v ∷ calls) = ready_count calls

  ready_count-append :
      (calls more : List (HandlerCall F))
      → ready_count (calls ++ more) ≡ ready_count calls + ready_count more
  unfolding ready_count
  ready_count-append [] more = omega arith
  ready_count-append (ready_call h ∷ calls) more = omega (arith, ready_count-append calls more)
  ready_count-append (updated_call h keys removed ∷ calls) more = ready_count-append calls more
  ready_count-append (evaluated_call e ∷ calls) more = ready_count-append calls more
  ready_count-append (watcher_call h v ∷ calls) more = ready_count-append calls more

  ready_count-evaluated_calls :
      (emitted : List (Emission F)) → ready_count (evaluated_calls emitted) ≡ 0
  unfolding ready_count evaluated_calls
  ready_count-evaluated_calls [] = refl
  ready_count-evaluated_calls (e ∷ emitted) = ready_count-evaluated_calls emitted

  ready_count-notified :
      (handler : ℕ) (c : Collector (EvaluatedConfigEvent F) F) (x : Exc (Outcome F))
      (rest : Collector (EvaluatedConfigEvent F) F
        → Collector (EvaluatedConfigEvent F) F × List (HandlerCall F))
      → ((d : Collector (EvaluatedConfigEvent F) F) → ready_count (rest d).1 ≡ 0)
      → ready_count (notified handler c x rest).1 ≡ 0
  unfolding notified ready_count
  ready_count-notified handler c (raised e) rest h = h c
  ready_count-notified handler c (ok r) rest h = omega (
    arith,
    h r.collector,
    ready_count-evaluated_calls r.emitted,
    ready_count-append (evaluated_calls r.emitted)
        (watcher_call handler r.value ∷ (rest r.collector).1),
  )

ready_count-updated_calls :
    (F : Type 0) (keys removed : List Text) (hs : List ℕ)
    → ready_count (updated_calls {F = F} keys removed hs) ≡ 0
unfolding ready_count updated_calls
ready_count-updated_calls F keys removed [] = refl
ready_count-updated_calls F keys removed (h ∷ hs) = ready_count-updated_calls F keys removed hs

ready_count-ready_calls :
    (F : Type 0) (hs : List ℕ) → ready_count (ready_calls {F = F} hs) ≡ length hs
unfolding ready_count ready_calls
ready_count-ready_calls F [] = refl
ready_count-ready_calls F (h ∷ hs) = omega (arith, ready_count-ready_calls F hs)

module _ {F V : Type 0} where
  -- What a bundle makes of an open client.
  record IsApplied (c : Client F V) (r : Client F V × Option (Update F V)) : Type 0 where
    open_ : r.0.closed ≡ false
    now_ready : r.0.ready ≡ true
    same_handlers : r.0.ready_handlers ≡ c.ready_handlers
    update : (u : Update F V) × (r.1 ≡ some u) × (u.first_bundle ≡ not c.ready)

  apply_bundle-IsApplied :
      (bundle : ConfigBundle F) (c : Client F V)
      → c.closed ≡ false
      → IsApplied c (apply_bundle bundle c)
  unfolding apply_bundle
  apply_bundle-IsApplied bundle c h = record {
    open_ = ground (arith, h);
    now_ready = ground (arith, h);
    same_handlers = ground (arith, h);
    update = rw h (_, refl, refl);
  }

abbrev first_in : {F V : Type 0} → Option (Update F V) → Bool
first_in none = false
first_in (some u) = u.first_bundle

first_calls :
    (F : Type 0) (first ready : Bool) (hs : List ℕ)
    → first ≡ not ready
    → ready_count {F = F} (if first then ready_calls hs else []) ≡ (if ready then 0 else length hs)
unfolding ready_count
first_calls F true true hs h = absurd (ground (arith, h))
first_calls F true false hs h = ready_count-ready_calls F hs
first_calls F false true hs h = refl
first_calls F false false hs h = absurd (ground (arith, h))

module _ (py : Python) (readers : Readers py.Float) (renderers : Renderers py.Float)
    (value_id_of : Text → Text) where
  open py use {Float}

  entries_silent :
      (now : ℕ) (metadata : Option Metadata) (ready : Bool) (hs : List ℕ) (segments : Segments)
      (key : Text) (definition : Option (Config Float))
      (entries : List (Watcher (Value Float) (Context Float)))
      (c : Collector (EvaluatedConfigEvent Float) Float)
      → ready_count
          (notify_entries py readers renderers value_id_of now metadata ready hs segments key
            definition entries c).1
        ≡ 0
  unfolding notify_entries ready_count
  entries_silent now metadata ready hs segments key definition [] c = refl
  entries_silent now metadata ready hs segments key definition (w ∷ entries) c =
      ready_count-notified w.handler c
        (evaluate_for py readers renderers value_id_of now metadata ready hs key definition
          w.default w.context segments c)
        (notify_entries py readers renderers value_id_of now metadata ready hs segments key
          definition entries)
        (entries_silent now metadata ready hs segments key definition entries)

  watchers_silent :
      (now : ℕ) (metadata : Option Metadata) (ready : Bool) (hs : List ℕ) (segments : Segments)
      (watchers : Dict Text (List (Watcher (Value Float) (Context Float))))
      (definitions : Dict Text (Option (Config Float)))
      (c : Collector (EvaluatedConfigEvent Float) Float)
      → ready_count
          (notify_watchers py readers renderers value_id_of now metadata ready hs segments watchers
            definitions c).1
        ≡ 0
  unfolding notify_watchers ready_count
  watchers_silent now metadata ready hs segments [] definitions c = refl
  watchers_silent now metadata ready hs segments ((key, entries) ∷ watchers) definitions c =
      let definition = definition_in key definitions in
      let r =
        notify_entries py readers renderers value_id_of now metadata ready hs segments key
          definition entries c in
      omega (
        arith,
        ready_count-append r.1
            (notify_watchers py readers renderers value_id_of now metadata ready hs segments
              watchers definitions r.0).1,
        entries_silent now metadata ready hs segments key definition entries c,
        watchers_silent now metadata ready hs segments watchers definitions r.0,
      )

  announced :
      (now : ℕ) (metadata : Option Metadata) (c d : Client Float (Value Float))
      (o : Option (Update Float (Value Float)))
      (telemetry : Collector (EvaluatedConfigEvent Float) Float)
      → IsApplied c (d, o)
      → let r = announce py readers renderers value_id_of now metadata d o telemetry in
        (r.client ≡ d) × (ready_count r.calls ≡ (if c.ready then 0 else length c.ready_handlers))
  unfolding announce
  announced now metadata c d none telemetry h = absurd (ground (arith, h.update.1))
  announced now metadata c d (some u) telemetry h =
      let r =
        notify_watchers py readers renderers value_id_of now metadata d.ready
          (handlers config_evaluated d) u.segments u.watchers u.definitions telemetry in
      let first : List (HandlerCall Float) =
        if u.first_bundle then ready_calls d.ready_handlers else [] in
      (
        refl,
        omega (
          arith,
          ready_count-append (updated_calls u.updated_keys u.removed_keys d.updated_handlers)
              (r.1 ++ first),
          ready_count-updated_calls Float u.updated_keys u.removed_keys d.updated_handlers,
          ready_count-append r.1 first,
          watchers_silent now metadata d.ready (handlers config_evaluated d) u.segments u.watchers
              u.definitions telemetry,
        )
            ∙ first_calls Float u.first_bundle c.ready d.ready_handlers
                (ap first_in h.update.1 ∙ h.update.2)
            ∙ ap (λ hs. if c.ready then 0 else length hs) h.same_handlers,
      )

  -- Whatever the bundles, an open client that is not ready makes, over all of them, as many calls of
  -- handlers with the event that it is ready as it has such handlers, if there is a bundle at all; a
  -- ready client makes none.
  pub on_bundles-ready_count :
      (now : ℕ) (metadata : Option Metadata) (bundles : List (ConfigBundle Float))
      (c : Client Float (Value Float)) (telemetry : Collector (EvaluatedConfigEvent Float) Float)
      → c.closed ≡ false
      → ready_count (on_bundles py readers renderers value_id_of now metadata bundles c telemetry)
        ≡ (if c.ready || is_empty bundles then 0 else length c.ready_handlers)
  unfolding on_bundles on_bundle ready_count
  on_bundles-ready_count now metadata [] c telemetry h = ground arith
  on_bundles-ready_count now metadata (bundle ∷ bundles) c telemetry h =
      let (d, u) = apply_bundle bundle c in
      let applied = apply_bundle-IsApplied bundle c h in
      let r = announce py readers renderers value_id_of now metadata d u telemetry in
      let (same, count) = announced now metadata c d u telemetry applied in
      let rest : ready_count
            (on_bundles py readers renderers value_id_of now metadata bundles r.client r.collector)
          ≡ 0 =
        on_bundles-ready_count now metadata bundles r.client r.collector
          (ap (λ x. x.closed) same ∙ applied.open_)
        ∙ ap (λ b. if b || is_empty bundles then 0 else length r.client.ready_handlers)
            (ap (λ x. x.ready) same ∙ applied.now_ready) in
      ready_count-append r.calls
        (on_bundles py readers renderers value_id_of now metadata bundles r.client r.collector)
      ∙ ground (arith, count, rest)
