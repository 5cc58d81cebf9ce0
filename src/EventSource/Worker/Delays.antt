-- ===== src/EventSource/Worker/Delays.antt =====
-- The delays between two attempts, `_reconnect_delay` of _eventsource/client.py.
use python_server_sdk.Base.{
  ℕ, ◌≡◌, refl, sym, ◌∙◌, subst, true, ◌&&◌, Option, none, some, ◌>>=◌, Exc, ok, raised,
  value_out_of_range, arith, Bool-cases, inl, inr, ◌⊎◌,
}
use python_server_sdk.Base.Python.{Python}
use python_server_sdk.Base.Json.{Value}
use python_server_sdk.EventSource.Parser.{Options}
use python_server_sdk.EventSource.Worker.{
  Notice, Source, notify, in_range, checked, as_seconds, reconnect_delay,
}

same_result : {A : Type 0} {x y : A} → ok x ≡ ok y → x ≡ y
same_result e = ground (arith, e)

module _ (py : Python) (of_milliseconds : ℕ → Exc py.Float) (o : Options) where
  open py use {Float}

  -- The delay is at least the float `low` and at most 3600, or it is the server's, and the failure
  -- is reported.
  pub IsChecked : Float → Source Float → Float × Source Float → Type 0
  IsChecked low s p =
      ((py.float_le low p.0 ≡ true) × (py.float_le p.0 (py.whole 3600) ≡ true))
      ⊎ ((p.0 ≡ s.server_delay) × (p.1 ≡ notify (Notice.failed value_out_of_range) s))

  in_range_at :
      (low x : Float)
      → of_milliseconds 1 ≡ ok low
      → in_range py of_milliseconds o x ≡ (py.float_le low x && py.float_le x (py.whole 3600))
  unfolding in_range
  in_range_at low x least = rw (in_range, least) refl

  within :
      (low x : Float)
      → (py.float_le low x && py.float_le x (py.whole 3600)) ≡ true
      → (py.float_le low x ≡ true) × (py.float_le x (py.whole 3600) ≡ true)
  within low x t = ground (arith, t)

  checked-IsChecked :
      (low : Float) (x : Option Float) (s : Source Float)
      → of_milliseconds 1 ≡ ok low
      → IsChecked low s (checked py of_milliseconds o x s)
  unfolding checked IsChecked
  checked-IsChecked low none s least = inr (refl, refl)
  checked-IsChecked low (some x) s least = elim (Bool-cases (in_range py of_milliseconds o x)) [
    | inl t ↦ rw t (inl (within low x (sym (in_range_at low x least) ∙ t)))
    | inr f ↦ rw f (inr (refl, refl))
  ]

  calculated-IsChecked :
      (low : Float) (d : Exc (Option Float)) (s : Source Float) (p : Float × Source Float)
      → of_milliseconds 1 ≡ ok low
      → (d >>= (λ seconds. ok (checked py of_milliseconds o seconds s))) ≡ ok p
      → IsChecked low s p
  calculated-IsChecked low (ok x) s p least e =
      subst (IsChecked low s) (same_result e) (checked-IsChecked low x s least)
  calculated-IsChecked low (raised x) s p least e = absurd (ground (arith, e))

  -- A delay that is worked out is, with `low` the float of the least one, 0.001 seconds, at least `low`
  -- and at most 3600 seconds, or it is the one that the server asked for, which is not checked in its
  -- turn, and then the client's handler of errors was told that the delay is out of range.
  pub reconnect_delay-IsChecked :
      (low : Float) (v : Option (Value Float)) (s : Source Float) (p : Float × Source Float)
      → of_milliseconds 1 ≡ ok low
      → reconnect_delay py of_milliseconds o v s ≡ ok p
      → IsChecked low s p
  unfolding reconnect_delay
  reconnect_delay-IsChecked low none s p least e =
      subst (IsChecked low s) (same_result e) (checked-IsChecked low (some s.server_delay) s least)
  reconnect_delay-IsChecked low (some v) s p least e =
      calculated-IsChecked low (as_seconds py of_milliseconds o v) s p least e
