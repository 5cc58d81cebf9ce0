-- ===== src/Tests/Bundle.antt =====
-- A bundle with a config that can be read and one that cannot.
use python_server_sdk.Base.{
  ◌≡◌, refl, some, none, [], ◌∷◌, ℕ, Text, codes, text_eq, text_beq, contains, ok, overflow_error,
}
use python_server_sdk.Base.Dict
use python_server_sdk.Base.Int.{pos, negsuc}
use python_server_sdk.Base.Json.{
  Value, Fields, nil, cons, int, null, scalar, text, object, array, end, field,
}
use python_server_sdk.Evaluation.Pointer.{member}
use python_server_sdk.Evaluation.Types.{Config}
use python_server_sdk.Bundle.{
  is_caught, for_each, or_null, get_member, found, item_of, values_of, iterate, optional_string,
  Conversions, truthy, items_at, text_of, text_at, optional_at, as_string, to_float,
  parse_percentage,
}
use python_server_sdk.Bundle.Definitions.{
  Sorted, sort_config, parse_rule, parse_type_constraints, parse_config, parse_configs,
}
use python_server_sdk.Bundle.Definitions.Unreadable.{
  readable, is_unreadable, IsObject, parse_configs-Sorts, error_of, first_ending,
  error_of-parse_configs,
}
use python_server_sdk.Tests.Evaluation.{toy}

abbrev pub plain : Conversions ℕ
plain = record { other_text = λ v. []; dumps = λ v. []; truncate = λ x. pos x }

abbrev word : Text → Value ℕ
word s = scalar (text s)

-- The second config has no target.
abbrev raw_configs : Fields ℕ
raw_configs =
    field (codes "a")
      (object (
        field (codes "target") (object end) (
          field (codes "id") (word (codes "1")) (
            field (codes "key") (word (codes "a"))
              (field (codes "type") (word (codes "string")) end)))))
      (field (codes "b") null end)

raw_configs-IsObject : IsObject raw_configs
unfolding member text_beq
raw_configs-IsObject = (refl, (refl, tt))

abbrev read_config : Config ℕ
read_config = record {
  id = codes "1";
  key = codes "a";
  type = word (codes "string");
  variations = [];
  type_constraints = none;
  target = record { default_value = []; rules = []; default_value_id = none };
}

abbrev sorted_configs : Sorted ℕ
sorted_configs = ((codes "a", read_config) ∷ [], codes "b" ∷ [])

raw_configs-sorted : parse_configs toy plain raw_configs ≡ ok sorted_configs
unfolding is_caught for_each or_null get_member found item_of values_of iterate optional_string
    truthy items_at text_of text_at optional_at as_string parse_type_constraints parse_config member
    text_beq sort_config parse_configs
raw_configs-sorted = refl

parse_configs-Sorts_example :
    (Dict.get (codes "b") sorted_configs.0 ≡ readable toy plain (member raw_configs (codes "b")))
    × (contains sorted_configs.1 (codes "b")
        ≡ is_unreadable toy plain (member raw_configs (codes "b")))
parse_configs-Sorts_example =
    parse_configs-Sorts toy plain raw_configs sorted_configs (codes "b") raw_configs-IsObject
      raw_configs-sorted

-- A percentage that `float` overflows on.
abbrev overflowing : Value ℕ
overflowing = object (
    field (codes "target")
      (object (
        field (codes "rules")
          (array (
            cons
              (object (
                field (codes "percentages")
                  (array (
                    cons
                      (object (
                        field (codes "id") (word (codes "p"))
                          (field (codes "percentage") (scalar (int (negsuc 0))) end)))
                      nil))
                  end))
              nil))
          end))
      (field (codes "id") (word (codes "1")) (
        field (codes "key") (word (codes "c")) (field (codes "type") (word (codes "string")) end))))

error_of-parse_configs_example :
    error_of (parse_configs toy plain (field (codes "c") overflowing raw_configs))
    ≡ first_ending toy plain (field (codes "c") overflowing raw_configs)
error_of-parse_configs_example =
    error_of-parse_configs toy plain (field (codes "c") overflowing raw_configs)

-- An order that is too large costs the bundle.
bundle_lost :
    error_of (parse_configs toy plain (field (codes "c") overflowing raw_configs))
    ≡ some overflow_error
unfolding is_caught for_each or_null get_member found item_of values_of iterate optional_string
    truthy items_at text_of text_at optional_at as_string to_float parse_percentage parse_rule
    parse_type_constraints parse_config member text_beq sort_config parse_configs error_of
bundle_lost = refl
