-- ===== src/Values/Shape.antt =====
-- What a caller gets: a value of the type of the default.
use python_server_sdk.Base.{
  ◌≡◌, ◌≢◌, refl, Error, Bool, true, false, Option, none, some, [], ◌∷◌, Text, text_eq, Exc, ok,
  raised, arith,
}
use python_server_sdk.Base.Python.{Python}
use python_server_sdk.Base.Json.{
  Value, Fields, Items, null, scalar, array, object, text, int, float, bool,
}
use python_server_sdk.Evaluation.Types.{ConfigState}
use python_server_sdk.Values.{
  EvaluationReason, found_match, invalid_boolean, invalid_number, invalid_json, ParseResult,
  Readers, found_or, as_object, as_array, loaded, read_text, defaulted, matched,
  not_readable_as_string, parse_boolean, parse_float, parse_integer, int_value, float_value,
  read_as, raw_or, parse_config_value,
}

-- The two values have one of the types `bool`, `str`, `int`, `float`, `dict` and `list`.
unfoldable pub same_type : {F : Type 0} → Value F → Value F → Bool
same_type (scalar (bool a)) (scalar (bool b)) = true
same_type (scalar (text a)) (scalar (text b)) = true
same_type (scalar (int a)) (scalar (int b)) = true
same_type (scalar (float a)) (scalar (float b)) = true
same_type (object a) (object b) = true
same_type (array a) (array b) = true
same_type null null = true
same_type _ _ = false

module _ {F : Type 0} where
  -- The default itself, marked as such, or a match of its type with the id of the state.
  pub data IsFor (state : ConfigState F) (default : Value F) (r : ParseResult F) : Type 0 where
    kept : r.value ≡ default → r.used_default ≡ true → r.value_id ≡ none → IsFor state default r
    read :
        same_type default r.value ≡ true
        → r.used_default ≡ false
        → r.reason ≡ found_match
        → r.value_id ≡ state.value_id
        → IsFor state default r

  abbrev Outcome : ConfigState F → Value F → Exc (ParseResult F) → Type 0
  Outcome state default (ok r) = IsFor state default r
  Outcome state default (raised e) = Unit

  found_or-IsFor :
      (o : Option (Value F)) (reason : EvaluationReason) (default : Value F) (state : ConfigState F)
      → ((v : Value F) → o ≡ some v → same_type default v ≡ true)
      → Outcome state default (found_or o reason default state)
  unfolding found_or defaulted matched
  found_or-IsFor none reason default state h = kept refl refl refl
  found_or-IsFor (some v) reason default state h = read (h v refl) refl refl refl

  loaded-IsFor :
      (shape : Value F → Option (Value F)) (l : Exc (Value F)) (default : Value F)
      (state : ConfigState F)
      → ((v w : Value F) → shape v ≡ some w → same_type default w ≡ true)
      → Outcome state default (loaded shape l default state)
  unfolding loaded defaulted
  loaded-IsFor shape (ok v) default state h =
      found_or-IsFor (shape v) invalid_json default state (λ w e. h v w e)
  loaded-IsFor shape (raised Error.value_error) default state h = kept refl refl refl
  loaded-IsFor shape (raised _) default state h = tt

  read_text-IsFor :
      (mismatch : Exc Bool) (raw s : Text) (state : ConfigState F)
      → Outcome state (scalar (text s)) (read_text mismatch raw (scalar (text s)) state)
  unfolding read_text defaulted matched same_type
  read_text-IsFor (ok true) raw s state = kept refl refl refl
  read_text-IsFor (ok false) raw s state = read refl refl refl refl
  read_text-IsFor (raised e) raw s state = tt

object_type :
    {F : Type 0} (fields : Fields F) (v w : Value F)
    → as_object v ≡ some w
    → same_type (object fields) w ≡ true
unfolding as_object same_type
object_type fields (object f) w e = ground (arith, e)
object_type fields null w e = ground (arith, e)
object_type fields (scalar s) w e = ground (arith, e)
object_type fields (array s) w e = ground (arith, e)

array_type :
    {F : Type 0} (items : Items F) (v w : Value F)
    → as_array v ≡ some w
    → same_type (array items) w ≡ true
unfolding as_array same_type
array_type items (array i) w e = ground (arith, e)
array_type items null w e = ground (arith, e)
array_type items (scalar s) w e = ground (arith, e)
array_type items (object s) w e = ground (arith, e)

module _ (py : Python) (readers : Readers py.Float) where
  open py use {Float}

  read_as-IsFor :
      (default : Value Float) (raw : Text) (state : ConfigState Float)
      → default ≢ null
      → Outcome state default (read_as py readers default raw state)
  unfolding read_as same_type parse_boolean int_value float_value as_object as_array
  read_as-IsFor (scalar (bool b)) raw state h =
      found_or-IsFor (parse_boolean py readers raw) invalid_boolean (scalar (bool b)) state
        (λ v e. ground (arith, e))
  read_as-IsFor (scalar (text s)) raw state h =
      read_text-IsFor (not_readable_as_string state.type) raw s state
  read_as-IsFor (scalar (int n)) raw state h =
      found_or-IsFor (int_value py readers (parse_integer py readers raw)) invalid_number
        (scalar (int n)) state (λ v e. ground (arith, e))
  read_as-IsFor (scalar (float x)) raw state h =
      found_or-IsFor (float_value py readers (parse_float py readers raw)) invalid_number
        (scalar (float x)) state (λ v e. ground (arith, e))
  read_as-IsFor (object fields) raw state h =
      loaded-IsFor as_object (readers.loads raw) (object fields) state
        (λ v w e. object_type fields v w e)
  read_as-IsFor (array items) raw state h =
      loaded-IsFor as_array (readers.loads raw) (array items) state
        (λ v w e. array_type items v w e)
  read_as-IsFor null raw state h = absurd (h refl)

  raw_or-IsFor :
      (raw : Option Text) (default : Value Float) (state : ConfigState Float)
      → default ≢ null
      → Outcome state default (raw_or py readers raw default state)
  unfolding raw_or defaulted
  raw_or-IsFor none default state h = kept refl refl refl
  raw_or-IsFor (some []) default state h = kept refl refl refl
  raw_or-IsFor (some (c ∷ raw)) default state h = read_as-IsFor default (c ∷ raw) state h

  -- For a default that is not null, a value that is returned without an exception is the default,
  -- marked as used and without an id, or a match of the default's type with the id of the state.
  pub parse_config_value-IsFor :
      (state : ConfigState Float) (default : Value Float) (r : ParseResult Float)
      → default ≢ null
      → parse_config_value py readers state default ≡ ok r
      → IsFor state default r
  unfolding parse_config_value
  parse_config_value-IsFor state default r h e = rw e at (raw_or-IsFor state.value default state h)
