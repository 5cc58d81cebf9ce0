-- ===== src/Tests/Offline.antt =====
-- A client that stays offline, with concrete values.
use python_server_sdk.Base.{
  ◌≡◌, ◌≢◌, refl, ℕ, [], ◌∷◌, none, some, true, false, Bool, Option, Text, codes, text_eq, text_beq,
  Exc, ok, raised, value_error, if◌then◌else◌, ◌==◌, arith,
}
use python_server_sdk.Base.Int.{pos, str_ℕ, str_ℤ}
use python_server_sdk.Base.Dict
use python_server_sdk.Base.Dict.{Dict, Distinct}
use python_server_sdk.Base.Json.{Value, scalar, int, text, bool, int_text}
use python_server_sdk.Evaluation.Types.{Config}
use python_server_sdk.Evaluation.Config.{evaluate}
use python_server_sdk.Client.{Client, Update, new, definition_for}
use python_server_sdk.Native.{
  Writers, unconditional_config, encode, has_content, validated_server_sdk_key,
}
use python_server_sdk.Values.{Readers, found_match, parse_config_value}
use python_server_sdk.Values.Shape.{same_type}
use python_server_sdk.Values.Written.{ReadsBack}
use python_server_sdk.Offline.{
  offline_config, inline_values, initialize, ConnectionOptions, plan_connection, connect, streaming,
  default_base_url, live_mode_of, base_url_of,
}
use python_server_sdk.Offline.Plan.{IsLive, plan_connection-IsLive}
use python_server_sdk.Offline.Served.{AllEncode, initialize-serves}
use python_server_sdk.Tests.Evaluation.{toy}

-- No float or JSON is written here.
abbrev writers : Writers ℕ
writers = record { plain_decimal = λ x. []; dumps = λ v. raised value_error }

abbrev readers : Readers ℕ
readers = record {
  loads = λ s. raised value_error;
  int_of_text = λ s. if s == codes "20" then some (pos 20) else none;
  whole_number = λ x. none;
}

abbrev values : Dict Text (Value ℕ)
values = (codes "checkout", scalar (bool true)) ∷ (codes "items", scalar (int (pos 20))) ∷ []

values-Distinct : Distinct values
unfolding Dict.has text_beq
values-Distinct = (refl, (refl, tt))

values-AllEncode : AllEncode toy writers values
unfolding offline_config unconditional_config has_content encode int_text str_ℕ
values-AllEncode = ((_, refl), ((_, refl), tt))

items_here : Dict.get (codes "items") values ≡ some (scalar (int (pos 20)))
unfolding Dict.get text_beq
items_here = refl

items_back : ReadsBack toy readers writers (scalar (int (pos 20)))
unfolding ReadsBack text_beq str_ℤ
items_back = refl

abbrev twenty : Value ℕ
twenty = scalar (int (pos 20))

not_text : twenty ≢ scalar (text [])
not_text e = ground (arith, e)

abbrev client : Client ℕ ℕ
client = new

initialize-serves_example :
    (r : Client ℕ ℕ × Option (Update ℕ ℕ)) × (initialize toy writers (inline_values values) client
      ≡ ok r)
    × (d : Config ℕ) × (definition_for (codes "items") r.0 ≡ some d)
    × (parse_config_value toy readers (evaluate toy d none none) (scalar (int (pos 5)))
        ≡ ok (record {
          value = scalar (int (pos 20));
          reason = found_match;
          used_default = false;
          value_id = none;
        }))
unfolding new same_type
initialize-serves_example =
    initialize-serves toy readers writers values client (codes "items") (scalar (int (pos 20)))
      (scalar (int (pos 5))) none none refl values-Distinct values-AllEncode items_here items_back
      not_text refl

abbrev streaming_options : ConnectionOptions ℕ
streaming_options = record { mode = codes "streaming"; url = none; file = none; values = none }

abbrev any_url : Text → Exc Bool
any_url url = ok true

planned :
    plan_connection toy any_url (some (codes "key")) streaming_options
    ≡ ok (connect streaming (codes "key") default_base_url)
unfolding plan_connection live_mode_of validated_server_sdk_key has_content base_url_of text_beq
planned = refl

plan_connection-IsLive_example : IsLive toy (some (codes "key")) streaming_options (codes "key")
plan_connection-IsLive_example =
    plan_connection-IsLive toy any_url (some (codes "key")) streaming_options streaming
      (codes "key") default_base_url planned
