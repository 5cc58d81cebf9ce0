-- ===== src/Evaluation/Percent.antt =====
-- configdirector-server-sdk/src/configdirector/_evaluation/percent_hashing.py, and the choice of a
-- bucket in `_evaluate_percentage` of config_evaluator.py.
pub mod Shares
use python_server_sdk.Base.{
  ◌≡◌, Option, none, some, List, [], ◌∷◌, ◌++◌, ℕ, ◌%◌, Text, codes, text_eq, ◌==◌, if◌then◌else◌,
}
use python_server_sdk.Base.Python.{Python}
use python_server_sdk.Evaluation.Types.{Percentage}
use python_server_sdk.Evaluation.Condition.{default_kind}
use python_server_sdk.Evaluation.Rapidhash.{rapidhash}

abbrev pub hash_seed : ℕ
hash_seed = 0x397832987

-- `_hash_input`
pub hash_input : Text → Text → Text → Text
hash_input config_id context_identifier context_kind =
    let user_kind_input = context_identifier ++ (codes "-" ++ config_id) in
    if context_kind == default_kind
    then user_kind_input
    else user_kind_input ++ (codes ":" ++ context_kind)

module _ (py : Python) where
  open py use {Float}

  unfoldable pub assign_percentage : Text → Text → Text → Float
  unfolding hash_input
  assign_percentage config_id context_identifier context_kind =
      py.tenths (
        rapidhash (py.utf8 (hash_input config_id context_identifier context_kind)) hash_seed % 1000)

  -- The loop over the buckets, from the total of those before.
  unfoldable pub find_bucket : Float → Float → List (Percentage Float) → Option (Percentage Float)
  find_bucket assigned total [] = none
  find_bucket assigned total (p ∷ percentages) =
      let rest = find_bucket assigned (py.float_add total p.percentage) percentages in
      if py.float_lt assigned (py.float_add p.percentage total) then some p else rest
