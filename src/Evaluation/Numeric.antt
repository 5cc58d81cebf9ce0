-- ===== src/Evaluation/Numeric.antt =====
-- configdirector-server-sdk/src/configdirector/_evaluation/numeric_comparison.py.
use python_server_sdk.Base.{
  Bool, false, not, ◌||◌, Option, none, some, List, [], ◌∷◌, Text, codes, text_eq, nat_eq, ◌==◌,
  contains, all, is_empty, Exc, ok, ◌>>=◌, if◌then◌else◌,
}
use python_server_sdk.Base.Python.{Python}
use python_server_sdk.Base.Json.{Value, scalar, text, int, float}

module _ (py : Python) where
  open py use {Float}

  finite : Float → Option Float
  finite x = if py.is_nan x || py.is_infinite x then none else some x

  -- `_parse_finite`
  unfoldable pub parse_finite : Value Float → Exc (Option Float)
  unfolding finite
  parse_finite (scalar (int n)) = do x ← py.float_of_int n; ok (some x)
  parse_finite (scalar (float x)) = ok (finite x)
  parse_finite (scalar (text s)) =
      if is_empty s || not (all (contains (codes "0123456789+-.eE")) s)
      then ok none
      else ok (elim (py.float_of_text s) [ none ↦ none | some x ↦ finite x ])
  parse_finite _ = ok none

  -- The comparison of two finite numbers, on the operator in lower case.
  pub numeric_operator : Float → Text → Float → Bool
  numeric_operator parsed op target =
      if op == codes "=" || op == codes "equals"
      then py.float_eq parsed target
      else if op == codes "!=" || op == codes "does not equal"
      then not (py.float_eq parsed target)
      else if op == codes "<"
      then py.float_lt parsed target
      else if op == codes "<="
      then py.float_le parsed target
      else if op == codes ">"
      then py.float_lt target parsed
      else if op == codes ">="
      then py.float_le target parsed
      else false

  against : Text → Float → Option Float → Bool
  unfolding numeric_operator
  against op parsed none = false
  against op parsed (some target) = numeric_operator parsed op target

  compare_parsed : Option Float → Text → List Text → Exc Bool
  unfolding against parse_finite
  compare_parsed none op targets = ok (op == codes "!=" || op == codes "does not equal")
  compare_parsed (some parsed) op [] = ok false
  compare_parsed (some parsed) op (first ∷ rest) = do
    target ← parse_finite (scalar (text first))
    ok (against op parsed target)

  unfoldable pub compare_numeric : Value Float → Text → List Text → Exc Bool
  unfolding compare_parsed
  compare_numeric value operator targets = do
    parsed ← parse_finite value
    compare_parsed parsed (py.lower operator) targets
