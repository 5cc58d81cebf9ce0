-- ===== src/Client/Evaluation/Counted.antt =====
-- What `get_value` records and emits of an evaluation.
use python_server_sdk.Base.{
  ◌≡◌, refl, sym, subst, ap, ◌∙◌, ℕ, Bool, true, false, Option, none, some, List, Text, Exc, ok,
  raised, ◌>>=◌, if◌then◌else◌, arith, ◌⊎◌, inl, inr,
}
use python_server_sdk.Base.Python.{Python}
use python_server_sdk.Base.Json.{Value}
use python_server_sdk.Evaluation.Types.{Context}
use python_server_sdk.Values.{Readers}
use python_server_sdk.Telemetry.EventQueue
use python_server_sdk.Telemetry.Events.{
  Renderers, EvaluatedConfigEvent, evaluated_event, telemetry_value, TelemetryValue,
  requested_type_of,
}
use python_server_sdk.Telemetry.Collector.{
  Collector, capture_key, captured, record_evaluation, record_invalid_context,
}
use python_server_sdk.Client.Evaluation.{ConfigEvaluation, Outcome, emit, noted, recorded, reported}

module _ {F : Type 0} where
  -- A collector that collects has one more event, with what the evaluation says, and another none.
  pub IsCounted :
      ℕ
      → ConfigEvaluation F
      → Collector (EvaluatedConfigEvent F) F
      → Collector (EvaluatedConfigEvent F) F
      → Type 0
  IsCounted now e c d =
      ((c.collecting ≡ true)
        × (event : EvaluatedConfigEvent F) × (event.key ≡ e.key)
        × (event.used_default ≡ e.is_default)
        × (event.evaluation_reason ≡ e.reason)
        × (d.events ≡ EventQueue.push now event c.events))
      ⊎ ((c.collecting ≡ false) × (d.events ≡ c.events))

  -- What is reported of an evaluation.
  unfoldable pub IsReported :
      ℕ → List ℕ → ConfigEvaluation F → Collector (EvaluatedConfigEvent F) F → Outcome F → Type 0
  IsReported now hs e c r =
      (r.value ≡ e.value) × (r.emitted ≡ emit hs e) × IsCounted now e c r.collector

  noted_keeps :
      (now : ℕ) (sample : Option Text) (c : Collector (EvaluatedConfigEvent F) F)
      → ((noted now sample c).events ≡ c.events) × ((noted now sample c).collecting ≡ c.collecting)
  unfolding noted record_invalid_context
  noted_keeps now none c = (refl, refl)
  noted_keeps now (some sample) c = (ground arith, ground arith)

module _ {F : Type 0} where
  -- The events of a collector that an expression returns.
  abbrev events_in :
      Exc (Collector (EvaluatedConfigEvent F) F) → EventQueue.EventQueue (EvaluatedConfigEvent F)
  events_in (ok c) = c.events
  events_in (raised x) = EventQueue.new 0

  recorded-events :
      (now : ℕ) (event : EvaluatedConfigEvent F) (context : Option (Context F))
      (c : Collector (EvaluatedConfigEvent F) F)
      → c.collecting ≡ true
      → (record_evaluation now event context c).events ≡ EventQueue.push now event c.events
  unfolding record_evaluation
  recorded-events now event context c k = recorded_if c.collecting k
    where
      recorded_if :
          (b : Bool)
          → b ≡ true
          → (if b
              then record c {
                contexts = captured (capture_key context) c.contexts;
                events = EventQueue.push now event c.events;
              }
              else c).events
            ≡ EventQueue.push now event c.events
      recorded_if true k = refl
      recorded_if false k = absurd (ground (arith, k))

pub same_result : {A : Type 0} {x y : A} → ok x ≡ ok y → x ≡ y
same_result h = ground (arith, h)

module _ (py : Python) (readers : Readers py.Float) (renderers : Renderers py.Float)
    (value_id_of : Text → Text) where
  open py use {Float}

  -- An event that is made says what the evaluation says.
  event_says :
      (e : ConfigEvaluation Float) (default : Value Float) (context_id context_kind : Option Text)
      (type : Value Float) (event : EvaluatedConfigEvent Float)
      → evaluated_event py renderers e.key default e.value e.is_default e.reason context_id
          context_kind type
          (some e.value_id)
        ≡ ok event
      → (event.key ≡ e.key)
        × (event.used_default ≡ e.is_default)
        × (event.evaluation_reason ≡ e.reason)
  unfolding evaluated_event
  event_says e default context_id context_kind type event h =
      made (telemetry_value py renderers default none type)
        (telemetry_value py renderers e.value (some e.value_id) type) h
    where
      made :
          (a b : Exc TelemetryValue)
          → (a >>= (λ x. b >>= (λ y. ok (record {
            key = e.key;
            default_value = x;
            evaluated_value = y;
            requested_type = requested_type_of default;
            used_default = e.is_default;
            evaluation_reason = e.reason;
            context_id = context_id;
            context_kind = context_kind;
            type = type;
            evaluated_value_id = some e.value_id;
          }))))
            ≡ ok event
          → (event.key ≡ e.key)
            × (event.used_default ≡ e.is_default)
            × (event.evaluation_reason ≡ e.reason)
      made (ok x) (ok y) h = (ground (arith, h), ground (arith, h), ground (arith, h))
      made (ok x) (raised z) h = absurd (ground (arith, h))
      made (raised z) b h = absurd (ground (arith, h))

  recorded-IsCounted :
      (now : ℕ) (default : Value Float) (e : ConfigEvaluation Float) (type : Value Float)
      (c d : Collector (EvaluatedConfigEvent Float) Float)
      → recorded py readers renderers value_id_of now default e type c ≡ ok d
      → IsCounted now e c d
  unfolding recorded IsCounted
  recorded-IsCounted now default e type c d h =
      counted_if c.collecting _ refl (λ event k. event_says e default _ _ type event k) h
    where
      counted_if :
          (b : Bool) (x : Exc (EvaluatedConfigEvent Float))
          → c.collecting ≡ b
          → ((event : EvaluatedConfigEvent Float)
              → x ≡ ok event
              → (event.key ≡ e.key)
                × (event.used_default ≡ e.is_default)
                × (event.evaluation_reason ≡ e.reason))
          → (if b then (x >>= (λ event. ok (record_evaluation now event e.context c))) else ok c)
            ≡ ok d
          → IsCounted now e c d
      counted_if true (ok event) k says h =
          let (key, used, reason) = says event refl in
          inl (
            k,
            event,
            key,
            used,
            reason,
            sym (ap events_in h) ∙ recorded-events now event e.context c k,
          )
      counted_if true (raised x) k says h = absurd (ground (arith, h))
      counted_if false x k says h = inr (k, sym (ap events_in h))

  pub reported-IsReported :
      (now : ℕ) (hs : List ℕ) (default : Value Float) (e : ConfigEvaluation Float)
      (type : Value Float) (c : Collector (EvaluatedConfigEvent Float) Float) (r : Outcome Float)
      → reported py readers renderers value_id_of now hs default e type c ≡ ok r
      → IsReported now hs e c r
  unfolding reported IsReported
  reported-IsReported now hs default e type c r h =
      left (recorded py readers renderers value_id_of now default e type c)
        (λ d k. recorded-IsCounted now default e type c d k) h
    where
      left :
          (x : Exc (Collector (EvaluatedConfigEvent Float) Float))
          → ((d : Collector (EvaluatedConfigEvent Float) Float) → x ≡ ok d → IsCounted now e c d)
          → (x >>= (λ d. ok (record { value = e.value; collector = d; emitted = emit hs e })))
            ≡ ok r
          → IsReported now hs e c r
      left (ok d) k h = subst (IsReported now hs e c) (same_result h) (refl, refl, k d refl)
      left (raised x) k h = absurd (ground (arith, h))

  pub noted-IsCounted :
      (now : ℕ) (e : ConfigEvaluation Float) (sample : Option Text)
      (c d : Collector (EvaluatedConfigEvent Float) Float)
      → IsCounted now e (noted now sample c) d
      → IsCounted now e c d
  unfolding IsCounted
  noted-IsCounted now e sample c d (inl (k, event, key, used, reason, h)) =
      let (events, collecting) = noted_keeps now sample c in
      inl (sym collecting ∙ k, event, key, used, reason, h ∙ ap (EventQueue.push now event) events)
  noted-IsCounted now e sample c d (inr (k, h)) =
      let (events, collecting) = noted_keeps now sample c in inr (sym collecting ∙ k, h ∙ events)
