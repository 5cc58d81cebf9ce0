-- ===== src/Tests/Values.antt =====
-- The reading of concrete values of a config.
use python_server_sdk.Base.{
  ◌≡◌, ◌≢◌, refl, true, false, some, none, ℕ, codes, text_eq, text_beq, ok, raised, value_error,
  arith,
}
use python_server_sdk.Base.Json.{Value, null, scalar, text, bool}
use python_server_sdk.Evaluation.Types.{ConfigState}
use python_server_sdk.Values.{ParseResult, Readers, found_match, parse_config_value}
use python_server_sdk.Values.Shape.{IsFor, parse_config_value-IsFor}
use python_server_sdk.Tests.Evaluation.{toy}

abbrev no_readers : Readers ℕ
no_readers = record {
  loads = λ s. raised value_error;
  int_of_text = λ s. none;
  whole_number = λ x. none;
}

abbrev on_state : ConfigState ℕ
on_state = record {
  id = codes "1";
  key = codes "k";
  type = scalar (text (codes "boolean"));
  value = some (codes "true");
  value_id = some (codes "v");
}

abbrev on_result : ParseResult ℕ
on_result = record {
  value = scalar (bool true);
  reason = found_match;
  used_default = false;
  value_id = some (codes "v");
}

on_result-parsed : parse_config_value toy no_readers on_state (scalar (bool false)) ≡ ok on_result
unfolding parse_config_value text_beq
on_result-parsed = refl

abbrev off : Value ℕ
off = scalar (bool false)

bool_not_null : off ≢ null
bool_not_null e = ground (arith, e)

parse_config_value-IsFor_example : IsFor on_state (scalar (bool false)) on_result
parse_config_value-IsFor_example =
    parse_config_value-IsFor toy no_readers on_state (scalar (bool false)) on_result bool_not_null
      on_result-parsed
