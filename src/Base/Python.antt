-- ===== src/Base/Python.antt =====
-- What the code takes from the interpreter and its standard library that is not written out in this
-- development: floating point numbers, the character tables of Unicode, and UTF-8.
use Prim.Native.Nat.{ℕ}
use mathlib.Core.Bool.{Bool}
use mathlib.Core.List.{List}
use mathlib.Core.Option.{Option}
use python_server_sdk.Base.Errors.{Exc}
use python_server_sdk.Base.Int.{ℤ}

pub record Python : Type 1 where
  -- `float`, with `<`, `<=`, `==`, `+` and the conversions that the code makes
  pub Float : Type 0
  pub float_lt : Float → Float → Bool
  pub float_le : Float → Float → Bool
  pub float_eq : Float → Float → Bool
  pub float_add : Float → Float → Float
  -- the float of a whole number that has one, as `0.0` and the percentage `25` have
  pub whole : ℕ → Float
  -- `float(n) / 10.0`
  pub tenths : ℕ → Float
  -- `float(n)` of any `int`, which overflows for a large one
  pub float_of_int : ℤ → Exc Float
  -- `float(text)`, with nothing for a `ValueError`
  pub float_of_text : List ℕ → Option Float
  pub is_nan : Float → Bool
  pub is_infinite : Float → Bool
  pub is_positive : Float → Bool
  -- `int(x)`, for an `x` with `x.is_integer()` and `abs(x) < 1e21`
  pub small_integer : Float → Option ℤ
  -- `str(x)`
  pub float_text : Float → List ℕ
  -- `text.lower()`
  pub lower : List ℕ → List ℕ
  -- the digit that a character of the class `\d` writes
  pub digit_of : ℕ → Option ℕ
  -- `character.isspace()`, for which `text.strip()` looks
  pub is_space : ℕ → Bool
  -- `text.encode("utf-8")`
  pub utf8 : List ℕ → List ℕ
  -- `threading.TIMEOUT_MAX`, above which a wait raises OverflowError
  pub timeout_max : Float
  -- the interpreter's limit on the digits of an `int` that is read or written
  pub max_int_digits : ℕ
