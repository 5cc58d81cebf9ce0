-- ===== src/Base/Errors.antt =====
-- A Python expression that returns a value or raises.

-- The classes of exception that the modelled code raises or catches.
pub data Error : Type 0 where
  value_error overflow_error type_error key_error attribute_error stream_closed value_out_of_range
        validation_error connection_error initialization_error stream_too_large :
      Error

pub data Exc {ℓ} (A : Type ℓ) : Type ℓ where
  ok : A → Exc A
  raised : Error → Exc A

infixl 5 ◌>>=◌
abbrev pub ◌>>=◌ {ℓ κ} : {A : Type ℓ} {B : Type κ} → Exc A → (A → Exc B) → Exc B
ok a >>= f = f a
raised e >>= f = raised e
