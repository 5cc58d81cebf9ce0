-- ===== src/Base/Json.antt =====
-- A value as `json.loads` returns it, and
-- configdirector-server-sdk/src/configdirector/_evaluation/_json_value.py.
use Prim.Native.Nat.{ℕ}
use mathlib.Core.Bool.{Bool, true, false}
use mathlib.Core.Option.{none, some}
use python_server_sdk.Base.Tests.{ltb, if◌then◌else◌}
use python_server_sdk.Base.Lists.{length}
use python_server_sdk.Base.Strings.{Text, codes}
use python_server_sdk.Base.Errors.{Exc, ok, raised, value_error}
use python_server_sdk.Base.Int.{ℤ, pos, negsuc, str_ℕ, str_ℤ}
use python_server_sdk.Base.Python.{Python}

-- `str | int | float | bool`
pub data Scalar (F : Type 0) : Type 0 where
  text : Text → Scalar F
  int : ℤ → Scalar F
  float : F → Scalar F
  bool : Bool → Scalar F

mutual
  pub data Value (F : Type 0) : Type 0 where
    null : Value F
    scalar : Scalar F → Value F
    array : Items F → Value F
    object : Fields F → Value F

  pub data Items (F : Type 0) : Type 0 where
    nil : Items F
    cons : Value F → Items F → Items F

  pub data Fields (F : Type 0) : Type 0 where
    end : Fields F
    field : Text → Value F → Fields F → Fields F

abbrev digits_of : ℤ → ℕ
digits_of (pos n) = length (str_ℕ n)
digits_of (negsuc n) = length (str_ℕ (Prim.Native.Nat.suc n))

module _ (py : Python) where
  open py use {Float}

  -- `str(n)` of an `int`, which raises over the interpreter's limit on digits
  unfoldable pub int_text : ℤ → Exc Text
  int_text n = if ltb py.max_int_digits (digits_of n) then raised value_error else ok (str_ℤ n)

  float_json : Float → Text
  float_json x =
      if py.is_nan x
      then codes "NaN"
      else if py.is_infinite x
      then (if py.is_positive x then codes "Infinity" else codes "-Infinity")
      else elim (py.small_integer x) [ none ↦ py.float_text x | some n ↦ str_ℤ n ]

  unfoldable pub to_json_string : Scalar Float → Exc Text
  unfolding int_text float_json
  to_json_string (bool true) = ok (codes "true")
  to_json_string (bool false) = ok (codes "false")
  to_json_string (float x) = ok (float_json x)
  to_json_string (int n) = int_text n
  to_json_string (text s) = ok s
