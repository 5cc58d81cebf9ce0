-- ===== src/Tests/Evaluation.antt =====
-- The evaluation of concrete configs, with floats that count tenths.
use python_server_sdk.Base.{
  ◌≡◌, refl, Bool, false, Option, some, none, [], ◌∷◌, ◌++◌, ℕ, ◌+◌, ◌*◌, ◌-◌, Text, codes, eqb,
  ltb, leb, arith, Exc, ok, raised, overflow_error, if◌then◌else◌,
}
use python_server_sdk.Base.Int.{ℤ, pos, negsuc}
use python_server_sdk.Base.Json.{scalar, text}
use python_server_sdk.Base.Python.{Python}
use python_server_sdk.Evaluation.Types.{Percentage, Rule, percentage_rule, Config}
use python_server_sdk.Evaluation.Config.{order_of, or_default, evaluate_rule, get_config_value}
use python_server_sdk.Evaluation.Config.Order.{get_config_value-best_match, best_match, forget}
use python_server_sdk.Evaluation.Percent.{find_bucket}
use python_server_sdk.Evaluation.Percent.Shares.{IsExact, find_bucket_share}

abbrev tenths_of : ℤ → Exc ℕ
tenths_of (pos n) = ok (n * 10)
tenths_of (negsuc n) = raised overflow_error

-- An interpreter for texts of ASCII characters and for floats from 0 that are whole tenths.
abbrev pub toy : Python
toy = record {
  Float = ℕ;
  timeout_max = 100000000;
  float_lt = ltb;
  float_le = leb;
  float_eq = eqb;
  float_add = λ a b. a + b;
  whole = λ n. n * 10;
  tenths = λ h. h;
  float_of_int = tenths_of;
  float_of_text = λ t. none;
  is_nan = λ x. false;
  is_infinite = λ x. false;
  is_positive = λ x. ltb 0 x;
  small_integer = λ x. none;
  float_text = λ x. [];
  lower = λ t. t;
  digit_of = λ c. if ltb c b'0' then none else if ltb b'9' c then none else some (c - b'0');
  is_space = λ c. eqb c b' ';
  utf8 = λ t. t;
  max_int_digits = 4300;
}

whole_sum : (a b : ℕ) → a * 10 + b * 10 ≡ (a + b) * 10
whole_sum a b = omega arith

toy-IsExact : IsExact toy
toy-IsExact = record {
  add_whole = λ a b le. whole_sum a b;
  tenths_lt = λ h n lt le. refl {A = Bool};
}

abbrev bucket : Text → ℕ → Percentage ℕ
bucket name n = record { id = name; percentage = n * 10; value = some (text name); value_id = none }

-- Of the hash values, 25 in 100 are for `a`, 50 for `b`, and the others for no bucket.
find_bucket_share_example :
    find_bucket toy 300 0 ((bucket (codes "a") 25 ∷ []) ++ bucket (codes "b") 50 ∷ [])
    ≡ some (bucket (codes "b") 50)
find_bucket_share_example =
    find_bucket_share toy toy-IsExact 300 50 (bucket (codes "a") 25 ∷ []) [] (bucket (codes "b") 50)
      (25 ∷ []) (omega arith) (refl, tt) refl (omega arith) (omega arith) (omega arith)

-- A rule without an order, and one with an order that stands behind it.
abbrev whole_rule : Text → Option ℤ → Rule ℕ
whole_rule name order = percentage_rule (record {
  id = name;
  order = order;
  percentages = bucket name 100 ∷ [];
  target = codes "percentage";
  type = codes "percentage";
})

abbrev ordered_config : Config ℕ
ordered_config = record {
  id = codes "1";
  key = codes "k";
  type = scalar (text (codes "string"));
  variations = [];
  type_constraints = none;
  target = record {
    default_value = codes "default";
    rules = whole_rule (codes "late") none ∷ whole_rule (codes "early") (some (pos 1)) ∷ [];
    default_value_id = none;
  };
}

get_config_value-best_match_example :
    get_config_value toy ordered_config none none
    ≡ or_default toy
        (forget (
          best_match order_of
            (λ r. evaluate_rule toy r ordered_config none none)
            ordered_config.target.rules))
        ordered_config
get_config_value-best_match_example = get_config_value-best_match toy ordered_config none none
