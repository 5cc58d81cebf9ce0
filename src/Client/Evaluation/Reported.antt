-- ===== src/Client/Evaluation/Reported.antt =====
-- What a value that `get_value` returns is, and that it is reported.
use python_server_sdk.Base.{
  ◌≡◌, ◌≢◌, refl, subst, ℕ, Bool, true, false, Option, none, some, List, Text, Exc, ok, raised,
  ◌>>=◌, validation_error, if◌then◌else◌, arith, ◌⊎◌, inl, inr,
}
use python_server_sdk.Base.Python.{Python}
use python_server_sdk.Base.Json.{Value, null}
use python_server_sdk.Evaluation.Types.{Context, Metadata, Config, ConfigState, Segments}
use python_server_sdk.Evaluation.Config.{evaluate}
use python_server_sdk.Values.{
  config_state_missing, client_not_ready, ParseResult, Readers, found_match, parse_config_value,
}
use python_server_sdk.Values.Shape.{same_type, IsFor, kept, read, parse_config_value-IsFor}
use python_server_sdk.Telemetry.Events.{Renderers, EvaluatedConfigEvent}
use python_server_sdk.Telemetry.Collector.{Collector}
use python_server_sdk.Native.{has_content}
use python_server_sdk.Client.{Client, config_evaluated, handlers, definition_for}
use python_server_sdk.Client.Reads.{context_to_evaluate}
use python_server_sdk.Client.Evaluation.{
  ConfigEvaluation, Outcome, noted, validate_default, id_or, value_id_for, reported, without_state,
  with_state, evaluate_for, get_value,
}
use python_server_sdk.Client.Evaluation.Counted.{
  IsReported, reported-IsReported, noted-IsCounted, same_result,
}

module _ {F : Type 0} where
  -- The evaluation says truly whether its value is the default, which else is a match of its type.
  pub IsTrue : Value F → ConfigEvaluation F → Type 0
  IsTrue default e =
      ((e.is_default ≡ true) × (e.value ≡ default))
      ⊎ ((e.is_default ≡ false) × (e.reason ≡ found_match) × (same_type default e.value ≡ true))

module _ (py : Python) (readers : Readers py.Float) (renderers : Renderers py.Float)
    (value_id_of : Text → Text) where
  open py use {Float}

  without_state-IsTrue :
      (ready : Bool) (key : Text) (default : Value Float) (context : Option (Context Float))
      (e : ConfigEvaluation Float)
      → without_state py readers renderers value_id_of ready key default context ≡ ok e
      → (e.key ≡ key) × IsTrue default e
  unfolding without_state IsTrue
  without_state-IsTrue ready key default context e h =
      by_id (value_id_for py readers renderers value_id_of default null) h
    where
      by_id :
          (x : Exc Text)
          → (x >>= (λ id. ok (record {
            key = key;
            value = default;
            is_default = true;
            reason = if ready then config_state_missing else client_not_ready;
            value_id = id;
            context = context;
          })))
            ≡ ok e
          → (e.key ≡ key) × IsTrue default e
      by_id (ok id) h = (ground (arith, h), inl (ground (arith, h), ground (arith, h)))
      by_id (raised x) h = absurd (ground (arith, h))

  parsed-IsTrue :
      (state : ConfigState Float) (key : Text) (default : Value Float)
      (context : Option (Context Float)) (id : Text) (result : ParseResult Float)
      → IsFor state default result
      → IsTrue default (record {
        key = key;
        value = result.value;
        is_default = result.used_default;
        reason = result.reason;
        value_id = id;
        context = context;
      })
  unfolding IsTrue
  parsed-IsTrue state key default context id result (kept v u i) = inl (u, v)
  parsed-IsTrue state key default context id result (read s u r i) = inr (u, r, s)

  with_state-IsTrue :
      (key : Text) (default : Value Float) (context : Option (Context Float))
      (state : ConfigState Float) (e : ConfigEvaluation Float)
      → default ≢ null
      → with_state py readers renderers value_id_of key default context state ≡ ok e
      → (e.key ≡ key) × IsTrue default e
  unfolding with_state
  with_state-IsTrue key default context state e some_default h =
      parsed (parse_config_value py readers state default)
        (λ result k. parse_config_value-IsFor py readers state default result some_default k) h
    where
      parsed :
          (x : Exc (ParseResult Float))
          → ((result : ParseResult Float) → x ≡ ok result → IsFor state default result)
          → (x >>= (λ result.
              id_or result.value_id
                (value_id_for py readers renderers value_id_of result.value state.type)
              >>= (λ id. ok (record {
                key = key;
                value = result.value;
                is_default = result.used_default;
                reason = result.reason;
                value_id = id;
                context = context;
              }))))
            ≡ ok e
          → (e.key ≡ key) × IsTrue default e
      parsed (raised x) k h = absurd (ground (arith, h))
      parsed (ok result) k h =
          with_id
            (id_or result.value_id
              (value_id_for py readers renderers value_id_of result.value state.type))
            h
        where
          with_id :
              (y : Exc Text)
              → (y >>= (λ id. ok (record {
                key = key;
                value = result.value;
                is_default = result.used_default;
                reason = result.reason;
                value_id = id;
                context = context;
              })))
                ≡ ok e
              → (e.key ≡ key) × IsTrue default e
          with_id (ok id) h =
              subst (λ e. (e.key ≡ key) × IsTrue default e) (same_result h)
                (refl, parsed-IsTrue state key default context id result (k result refl))
          with_id (raised x) h = absurd (ground (arith, h))

  -- An evaluation that says what it is, and is reported.
  pub IsAnswered :
      ℕ
      → List ℕ
      → Text
      → Value Float
      → Collector (EvaluatedConfigEvent Float) Float
      → Outcome Float
      → Type 0
  IsAnswered now hs key default c r =
      (e : ConfigEvaluation Float) × (e.key ≡ key) × IsTrue default e × IsReported now hs e c r

  answered :
      (now : ℕ) (hs : List ℕ) (key : Text) (default type : Value Float) (sample : Option Text)
      (c : Collector (EvaluatedConfigEvent Float) Float) (r : Outcome Float)
      (x : Exc (ConfigEvaluation Float))
      → ((e : ConfigEvaluation Float) → x ≡ ok e → (e.key ≡ key) × IsTrue default e)
      → (x >>= (λ e.
          reported py readers renderers value_id_of now hs default e type (noted now sample c)))
        ≡ ok r
      → IsAnswered now hs key default c r
  unfolding IsAnswered IsReported
  answered now hs key default type sample c r (ok e) says h =
      let (k, t) = says e refl in
      let (v, m, counted) =
        reported-IsReported py readers renderers value_id_of now hs default e type
          (noted now sample c) r h in
      (
        e,
        k,
        t,
        (v, m, noted-IsCounted py readers renderers value_id_of now e sample c r.collector counted),
      )
  answered now hs key default type sample c r (raised x) says h = absurd (ground (arith, h))

  evaluate_for-IsAnswered :
      (now : ℕ) (metadata : Option Metadata) (ready : Bool) (hs : List ℕ) (key : Text)
      (definition : Option (Config Float)) (default : Value Float)
      (supplied : Option (Context Float)) (segments : Segments)
      (c : Collector (EvaluatedConfigEvent Float) Float) (r : Outcome Float)
      → default ≢ null
      → evaluate_for py readers renderers value_id_of now metadata ready hs key definition default
          supplied segments c
        ≡ ok r
      → IsAnswered now hs key default c r
  unfolding evaluate_for
  evaluate_for-IsAnswered now metadata ready hs key none default supplied segments c r some_default
        h =
      let (context, sample) = context_to_evaluate supplied in
      answered now hs key default null sample c r _
        (λ e k. without_state-IsTrue ready key default context e k) h
  evaluate_for-IsAnswered now metadata ready hs key (some definition) default supplied segments c r
        some_default h =
      let (context, sample) = context_to_evaluate supplied in
      let state =
        evaluate py definition (some (record { context = context; metadata = metadata }))
          (some segments) in
      answered now hs key default state.type sample c r _
        (λ e k. with_state-IsTrue key default context state e some_default k) h

  -- A value that `get_value` returns is the default or a match of the default's type, and the one
  -- evaluation that is emitted to each handler, in order, with the key and the value says truly which.
  -- If the telemetry collects, exactly one event is pushed, with the same key and verdict; else none.
  pub get_value-IsAnswered :
      {V : Type 0} (now : ℕ) (metadata : Option Metadata) (key : Text) (default : Value Float)
      (supplied : Option (Context Float)) (c : Client Float V)
      (telemetry : Collector (EvaluatedConfigEvent Float) Float) (r : Outcome Float)
      → get_value py readers renderers value_id_of now metadata key default supplied c telemetry
        ≡ ok r
      → IsAnswered now (handlers config_evaluated c) key default telemetry r
  unfolding get_value validate_default
  get_value-IsAnswered now metadata key default supplied c telemetry r h =
      validated (has_content py key) default h
    where
      validated :
          (b : Bool) (default : Value Float)
          → (if b
              then (validate_default default >>= (λ valid.
                  evaluate_for py readers renderers value_id_of now metadata c.ready
                    (handlers config_evaluated c)
                    key
                    (definition_for key c)
                    default
                    supplied
                    c.segments
                    telemetry))
              else raised validation_error)
            ≡ ok r
          → IsAnswered now (handlers config_evaluated c) key default telemetry r
      validated false default h = absurd (ground (arith, h))
      validated true null h = absurd (ground (arith, h))
      validated true default h =
          evaluate_for-IsAnswered now metadata c.ready (handlers config_evaluated c) key
            (definition_for key c) default supplied c.segments telemetry r
            (λ e. absurd (ground (arith, e))) h
