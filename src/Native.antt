-- ===== src/Native.antt =====
-- configdirector-server-sdk/src/configdirector/_native_values.py and _validation.py. A value is one of
-- JSON: the values of other types, and the keys that are no text, for which the code has an error
-- of its own, are left out.
use python_server_sdk.Base.{
  Bool, true, false, not, ◌&&◌, ◌||◌, Option, none, some, [], ◌∷◌, Text, codes, any, Exc, ok,
  raised, ◌>>=◌, value_error, type_error, validation_error, if◌then◌else◌,
}
use python_server_sdk.Base.Python.{Python}
use python_server_sdk.Base.Json.{
  Value, Items, Fields, nil, cons, end, field, null, scalar, array, object, text, int, float, bool,
  int_text,
}
use python_server_sdk.Evaluation.Types.{Config}

-- `format(Decimal(repr(x)).normalize(), "f")`, and `json.dumps` with the separators of the source
pub record Writers (F : Type 0) : Type 0 where
  pub plain_decimal : F → Text
  pub dumps : Value F → Exc Text

-- A `ValueError` of `str` or `json.dumps` becomes a `ConfigDirectorValidationError`.
unfoldable pub as_validation : Exc Text → Exc Text
as_validation (raised value_error) = raised validation_error
as_validation e = e

module _ (py : Python) where
  open py use {Float}

  -- `_has_content`
  unfoldable pub has_content : Text → Bool
  has_content = any (λ c. not (py.is_space c))

  -- `validated_server_sdk_key`
  unfoldable pub validated_server_sdk_key : Option Text → Exc Text
  unfolding has_content
  validated_server_sdk_key none = raised validation_error
  validated_server_sdk_key (some key) = if has_content key then ok key else raised validation_error

  not_finite : Float → Bool
  not_finite x = py.is_nan x || py.is_infinite x

  unfoldable mutual
    unfolding not_finite

    -- `_validate_json_contents`: whether there is no float that is not finite
    pub is_encodable : Value Float → Bool
    is_encodable (scalar (float x)) = not (not_finite x)
    is_encodable (array items) = all_encodable items
    is_encodable (object fields) = members_encodable fields
    is_encodable _ = true

    all_encodable : Items Float → Bool
    all_encodable nil = true
    all_encodable (cons v items) = is_encodable v && all_encodable items

    members_encodable : Fields Float → Bool
    members_encodable end = true
    members_encodable (field key v fields) = is_encodable v && members_encodable fields

module _ (py : Python) (writers : Writers py.Float) where
  open py use {Float}

  -- `_json_text`
  unfoldable pub json_text : Value Float → Exc Text
  json_text v =
      if is_encodable py v then as_validation (writers.dumps v) else raised validation_error

  -- `_encode` once the key is validated: the type and the text of a value
  unfoldable pub encode : Value Float → Exc (Text × Text)
  unfolding json_text not_finite as_validation
  encode null = raised type_error
  encode (scalar (bool true)) = ok (codes "boolean", codes "true")
  encode (scalar (bool false)) = ok (codes "boolean", codes "false")
  encode (scalar (int n)) = do s ← as_validation (int_text py n); ok (codes "integer", s)
  encode (scalar (float x)) =
      if not_finite py x
      then raised validation_error
      else ok (codes "float", writers.plain_decimal x)
  encode (scalar (text s)) = ok (codes "string", s)
  encode v = do s ← json_text v; ok (codes "json", s)

  -- The config of an encoded value.
  unfoldable pub config_of : Text → Text → Option Text → Text × Text → Config Float
  config_of key id value_id (type, s) = record {
    id = id;
    key = key;
    type = scalar (text type);
    target = record { default_value = s; rules = []; default_value_id = value_id };
    variations = record { value = text s; name = none } ∷ [];
    type_constraints = none;
  }

  unfoldable pub unconditional_config : Text → Value Float → Text → Option Text → Exc (Config Float)
  unfolding encode config_of
  unconditional_config key v id value_id =
      if has_content py key
      then (do e ← encode v; ok (config_of key id value_id e))
      else raised validation_error
