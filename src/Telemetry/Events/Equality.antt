-- ===== src/Telemetry/Events/Equality.antt =====
-- The equality of the events of _telemetry/events.py, by which a report counts them.
use python_server_sdk.Base.{
  ◌≡◌, refl, Bool, true, Option, none, some, Text, text_eq, ◌==◌, ◌&&◌, arith,
}
use python_server_sdk.Base.Json.{Value}
use python_server_sdk.Values.{EvaluationReason}
use python_server_sdk.Telemetry.Counting.{IsKeys}
use python_server_sdk.Telemetry.Events.{
  TelemetryValue, text_same, value_same, bool_same, reason_same, event_same, event_keys,
}

both :
    {a b c d e f : Bool}
    → (a ≡ true → b ≡ true → c ≡ true)
    → (d ≡ true → e ≡ true → f ≡ true)
    → (a && d) ≡ true
    → (b && e) ≡ true
    → (c && f) ≡ true
both p q h k =
    let third = p (ground (arith, h)) (ground (arith, k)) in
    let last = q (ground (arith, h)) (ground (arith, k)) in ground (arith, third, last)

pub text_symmetric : (s t : Text) → (s == t) ≡ (t == s)
text_symmetric s t = ground (arith, text_eq.same_iff s t, text_eq.same_iff t s)

pub text_transitive : (s t u : Text) → (s == t) ≡ true → (t == u) ≡ true → (s == u) ≡ true
text_transitive s t u h k =
    ground (arith, text_eq.same_iff s t, text_eq.same_iff t u, text_eq.same_iff s u, h, k)

module _ {F : Type 0} (type_same : Value F → Value F → Bool) where
  text_same_symmetric : (s t : Option Text) → text_same type_same s t ≡ text_same type_same t s
  unfolding text_same
  text_same_symmetric none none = refl
  text_same_symmetric none (some t) = refl
  text_same_symmetric (some s) none = refl
  text_same_symmetric (some s) (some t) = text_symmetric s t

  text_same_transitive :
      (s t u : Option Text)
      → text_same type_same s t ≡ true
      → text_same type_same t u ≡ true
      → text_same type_same s u ≡ true
  unfolding text_same
  text_same_transitive none none none h k = refl
  text_same_transitive (some s) (some t) (some u) h k = text_transitive s t u h k
  text_same_transitive none none (some u) h k = k
  text_same_transitive none (some t) u h k = absurd (ground (arith, h))
  text_same_transitive (some s) none u h k = absurd (ground (arith, h))
  text_same_transitive (some s) (some t) none h k = k

  value_same_symmetric :
      (v w : TelemetryValue) → value_same type_same v w ≡ value_same type_same w v
  unfolding value_same
  value_same_symmetric v w = ground (
    arith,
    text_same_symmetric v.value w.value,
    text_same_symmetric v.value_id w.value_id,
    text_same_symmetric v.type w.type,
  )

  value_same_transitive :
      (v w x : TelemetryValue)
      → value_same type_same v w ≡ true
      → value_same type_same w x ≡ true
      → value_same type_same v x ≡ true
  unfolding value_same
  value_same_transitive v w x h k = ground (
    arith,
    h,
    k,
    text_same_transitive v.value w.value x.value,
    text_same_transitive v.value_id w.value_id x.value_id,
    text_same_transitive v.type w.type x.type,
  )

  bool_same_symmetric : (a b : Bool) → bool_same type_same a b ≡ bool_same type_same b a
  unfolding bool_same
  bool_same_symmetric a b = ground arith

  bool_same_transitive :
      (a b c : Bool)
      → bool_same type_same a b ≡ true
      → bool_same type_same b c ≡ true
      → bool_same type_same a c ≡ true
  unfolding bool_same
  bool_same_transitive a b c h k = ground (arith, h, k)

  reason_same_symmetric :
      (r s : EvaluationReason) → reason_same type_same r s ≡ reason_same type_same s r
  unfolding reason_same
  reason_same_symmetric r s = ground arith

  reason_same_transitive :
      (r s t : EvaluationReason)
      → reason_same type_same r s ≡ true
      → reason_same type_same s t ≡ true
      → reason_same type_same r t ≡ true
  unfolding reason_same
  reason_same_transitive r s t h k = ground (arith, h, k)

  -- The events are keys if the config types are.
  pub event_keys-IsKeys :
      ((a b : Value F) → type_same a b ≡ type_same b a)
      → ((a b c : Value F) → type_same a b ≡ true → type_same b c ≡ true → type_same a c ≡ true)
      → IsKeys (event_keys type_same)
  unfolding event_keys event_same
  event_keys-IsKeys sym_types trans_types = record {
    symmetric = λ a b. ground (
      arith,
      text_symmetric a.key b.key,
      value_same_symmetric a.default_value b.default_value,
      value_same_symmetric a.evaluated_value b.evaluated_value,
      text_symmetric a.requested_type b.requested_type,
      bool_same_symmetric a.used_default b.used_default,
      reason_same_symmetric a.evaluation_reason b.evaluation_reason,
      text_same_symmetric a.context_id b.context_id,
      text_same_symmetric a.context_kind b.context_kind,
      sym_types a.type b.type,
      text_same_symmetric a.evaluated_value_id b.evaluated_value_id,
    );
    transitive = λ a b c.
        both
          (both
            (both
              (both
                (both
                  (both
                    (both
                      (both
                        (both (text_transitive a.key b.key c.key)
                          (value_same_transitive a.default_value b.default_value c.default_value))
                        (value_same_transitive a.evaluated_value b.evaluated_value
                          c.evaluated_value))
                      (text_transitive a.requested_type b.requested_type c.requested_type))
                    (bool_same_transitive a.used_default b.used_default c.used_default))
                  (reason_same_transitive a.evaluation_reason b.evaluation_reason
                    c.evaluation_reason))
                (text_same_transitive a.context_id b.context_id c.context_id))
              (text_same_transitive a.context_kind b.context_kind c.context_kind))
            (trans_types a.type b.type c.type))
          (text_same_transitive a.evaluated_value_id b.evaluated_value_id c.evaluated_value_id);
  }
