-- ===== src/Values.antt =====
-- configdirector-server-sdk/src/configdirector/_value_parser.py. A value of a config is a value of
-- JSON, as the dictionaries and lists that it may be are.
pub mod Shape
pub mod Written
use python_server_sdk.Base.{
  ◌≡◌, Bool, true, false, not, ◌&&◌, ◌||◌, Option, none, some, List, [], ◌∷◌, Text, codes, text_eq,
  nat_eq, ◌==◌, contains, all, Exc, ok, raised, ◌>>=◌, Error, value_error, type_error,
  if◌then◌else◌,
}
use python_server_sdk.Base.Int.{ℤ}
use python_server_sdk.Base.Python.{Python}
use python_server_sdk.Base.Json.{Value, null, scalar, array, object, text, int, float, bool}
use python_server_sdk.Evaluation.Types.{ConfigState}

-- `EvaluationReason` of types.py
pub data EvaluationReason : Type 0 where
  found_match config_state_missing client_not_ready type_mismatch value_missing : EvaluationReason
  invalid_number invalid_json invalid_boolean : EvaluationReason

pub record ParseResult (F : Type 0) : Type 0 where
  pub value : Value F
  pub reason : EvaluationReason
  pub used_default : Bool
  pub value_id : Option Text

-- `json.loads`; `int(text)`, with nothing for a `ValueError`; and `int(x)` of a float for which
-- `x.is_integer()`
pub record Readers (F : Type 0) : Type 0 where
  pub loads : Text → Exc (Value F)
  pub int_of_text : Text → Option ℤ
  pub whole_number : F → Option ℤ

unfoldable pub decimal : Text → Bool
decimal = all (contains (codes "0123456789+-.eE"))

module _ {F : Type 0} where
  defaulted : Value F → EvaluationReason → Exc (ParseResult F)
  defaulted default reason =
      ok (record { value = default; reason = reason; used_default = true; value_id = none })

  -- `_matched`
  matched : Value F → ConfigState F → Exc (ParseResult F)
  matched value state = ok (record {
    value = value;
    reason = found_match;
    used_default = false;
    value_id = state.value_id;
  })

  -- `state.type in _CONFIG_TYPES_NOT_READABLE_AS_STRING`, which hashes the type
  not_readable_as_string : Value F → Exc Bool
  not_readable_as_string (scalar (text s)) =
      ok (s == codes "boolean" || s == codes "integer" || s == codes "float")
  not_readable_as_string (array items) = raised type_error
  not_readable_as_string (object fields) = raised type_error
  not_readable_as_string _ = ok false

  -- A parsed value, or the default.
  found_or : Option (Value F) → EvaluationReason → Value F → ConfigState F → Exc (ParseResult F)
  unfolding defaulted matched
  found_or none reason default state = defaulted default reason
  found_or (some v) reason default state = matched v state

  -- `isinstance(parsed, required_shape)`
  pub as_object : Value F → Option (Value F)
  as_object (object fields) = some (object fields)
  as_object _ = none

  pub as_array : Value F → Option (Value F)
  as_array (array items) = some (array items)
  as_array _ = none

  loaded :
      (Value F → Option (Value F)) → Exc (Value F) → Value F → ConfigState F → Exc (ParseResult F)
  unfolding found_or defaulted
  loaded shape (ok v) default state = found_or (shape v) invalid_json default state
  loaded shape (raised value_error) default state = defaulted default invalid_json
  loaded shape (raised e) default state = raised e

  read_text : Exc Bool → Text → Value F → ConfigState F → Exc (ParseResult F)
  unfolding defaulted matched
  read_text (ok true) raw default state = defaulted default type_mismatch
  read_text (ok false) raw default state = matched (scalar (text raw)) state
  read_text (raised e) raw default state = raised e

module _ (py : Python) (readers : Readers py.Float) where
  open py use {Float}

  -- `_parse_boolean`
  parse_boolean : Text → Option (Value Float)
  parse_boolean raw =
      let lowered = py.lower raw in
      if lowered == codes "true"
      then some (scalar (bool true))
      else if lowered == codes "false"
      then some (scalar (bool false))
      else none

  -- `_parse_float`
  parse_float : Text → Option Float
  unfolding decimal
  parse_float raw = if not (decimal raw) then none else elim (py.float_of_text raw) [
    | none ↦ none
    | some x ↦ if py.is_nan x || py.is_infinite x then none else some x
  ]

  float_value : Option Float → Option (Value Float)
  float_value none = none
  float_value (some x) = some (scalar (float x))

  int_value : Option ℤ → Option (Value Float)
  int_value none = none
  int_value (some n) = some (scalar (int n))

  whole_of : Option Float → Option ℤ
  whole_of none = none
  whole_of (some x) = readers.whole_number x

  -- `_parse_integer`
  parse_integer : Text → Option ℤ
  unfolding decimal parse_float whole_of
  parse_integer raw =
      if not (decimal raw)
      then none
      else elim (readers.int_of_text raw) [ none ↦ whole_of (parse_float raw) | some n ↦ some n ]

  -- The value of a text that is not empty, in the type of the default.
  read_as : Value Float → Text → ConfigState Float → Exc (ParseResult Float)
  unfolding parse_boolean parse_integer parse_float int_value float_value found_or loaded read_text
      not_readable_as_string
  read_as (scalar (bool b)) raw state =
      found_or (parse_boolean raw) invalid_boolean (scalar (bool b)) state
  read_as (scalar (text s)) raw state =
      read_text (not_readable_as_string state.type) raw (scalar (text s)) state
  read_as (scalar (int n)) raw state =
      found_or (int_value (parse_integer raw)) invalid_number (scalar (int n)) state
  read_as (scalar (float x)) raw state =
      found_or (float_value (parse_float raw)) invalid_number (scalar (float x)) state
  read_as (object fields) raw state = loaded as_object (readers.loads raw) (object fields) state
  read_as default raw state = loaded as_array (readers.loads raw) default state

  raw_or : Option Text → Value Float → ConfigState Float → Exc (ParseResult Float)
  unfolding read_as defaulted
  raw_or none default state = defaulted default value_missing
  raw_or (some []) default state = defaulted default value_missing
  raw_or (some raw) default state = read_as default raw state

  -- `parse_config_value`
  unfoldable pub parse_config_value : ConfigState Float → Value Float → Exc (ParseResult Float)
  unfolding raw_or
  parse_config_value state default = raw_or state.value default state
