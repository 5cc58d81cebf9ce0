-- ===== src/Evaluation/Config/Order.antt =====
-- Which rule decides a config: an account of `_get_config_value` that sorts nothing.
use python_server_sdk.Base.{
  ◌≡◌, refl, ap, sym, ◌∙◌, Option, none, some, List, [], ◌∷◌, if◌then◌else◌, Bool-cases, inl, inr,
  arith, Text,
}
use python_server_sdk.Base.Int.{ℤ}
use python_server_sdk.Base.Python.{Python}
use python_server_sdk.Evaluation.Types.{EvaluationContext, Rule, Config, Segments}
use python_server_sdk.Evaluation.Config.{
  RuleResult, no_match, matched, order_of, evaluate_rule, first_match, or_default, get_config_value,
}
use python_server_sdk.Evaluation.Config.Sorting.{
  order_le, insert, sorted, IsBelow, IsBelow-trans, IsSorted, sorted-IsSorted,
}

-- A match, with the order of its rule.
abbrev pub Match : Type 0
Match = Option ℤ × Text × Option Text

-- Of an earlier rule's result and the best match behind it, the one with the smaller order, the
-- earlier one where they are equal.
pub prefer : Option ℤ → RuleResult → Option Match → Option Match
prefer order no_match best = best
prefer order (matched v i) none = some (order, v, i)
prefer order (matched v i) (some best) =
    if order_le order best.0 then some (order, v, i) else some best

pub forget : Option Match → RuleResult
forget none = no_match
forget (some m) = matched m.1 m.2

module _ {A : Type 0} (key : A → Option ℤ) (result : A → RuleResult) where
  -- The best match of a list as it stands.
  pub best_match : List A → Option Match
  unfolding prefer
  best_match [] = none
  best_match (a ∷ rest) = prefer (key a) (result a) (best_match rest)

  first_keyed : List A → Option Match
  first_keyed [] = none
  first_keyed (a ∷ rest) =
      let more = first_keyed rest in
      elim (result a) [ no_match ↦ more | matched v i ↦ some (key a, v, i) ]

  -- Nothing is preferred to a result whose order is not larger than any behind it.
  prefer-first :
      (k : Option ℤ) (v : Text) (i : Option Text) (l : List A)
      → IsBelow key k l
      → prefer k (matched v i) (first_keyed l) ≡ some (k, v, i)
  unfolding prefer first_keyed
  prefer-first k v i [] b = refl
  prefer-first k v i (a ∷ l) b = ground (arith, b.0, prefer-first k v i l b.1)

  front :
      (a : A) (l : List A)
      → IsBelow key (key a) l
      → first_keyed (a ∷ l) ≡ prefer (key a) (result a) (first_keyed l)
  unfolding first_keyed prefer
  front a l b =
      elim (result a)
        as (λ r.
          elim r as (λ x. Option Match) [
            | no_match ↦ first_keyed l
            | matched v i ↦ some (key a, v, i)
          ]
          ≡ prefer (key a) r (first_keyed l)) [
            | no_match ↦ refl
            | matched v i ↦ sym (prefer-first (key a) v i l b)
          ]

  first_keyed-insert :
      (a : A) (l : List A)
      → IsSorted key l
      → first_keyed (insert key a l) ≡ prefer (key a) (result a) (first_keyed l)
  unfolding insert first_keyed prefer
  first_keyed-insert a [] s = front a [] tt
  first_keyed-insert a (b ∷ l) s = elim (Bool-cases (order_le (key a) (key b))) [
    | inl le ↦ rw le (front a (b ∷ l) (le, IsBelow-trans key (key a) (key b) l le s.0))
    | inr gt ↦ rw gt (ground (arith, gt, first_keyed-insert a l s.1))
  ]

  -- In the sorted list, the first match is the best one of the list as it stood.
  first_keyed-sorted : (l : List A) → first_keyed (sorted key l) ≡ best_match l
  unfolding sorted best_match first_keyed
  first_keyed-sorted [] = refl
  first_keyed-sorted (a ∷ l) =
      first_keyed-insert a (sorted key l) (sorted-IsSorted key l)
      ∙ ap (prefer (key a) (result a)) (first_keyed-sorted l)

module _ (py : Python) (config : Config py.Float) (context : Option (EvaluationContext py.Float))
    (segments : Option Segments) where
  first_match-forget :
      (rules : List (Rule py.Float))
      → first_match py rules config context segments
        ≡ forget (first_keyed order_of (λ r. evaluate_rule py r config context segments) rules)
  unfolding first_match first_keyed forget
  first_match-forget [] = refl
  first_match-forget (rule ∷ rules) = ground (arith, first_match-forget rules)

  -- The value of a config is that of its best rule: among the rules that match, the one with the
  -- smallest order, where a rule without an order comes last and the earlier of two with equal
  -- orders comes first. With no rule that matches, it is the default.
  pub get_config_value-best_match :
      get_config_value py config context segments
      ≡ or_default py
          (forget (
            best_match order_of
              (λ r. evaluate_rule py r config context segments)
              config.target.rules))
          config
  unfolding get_config_value
  get_config_value-best_match =
      ap (λ r. or_default py r config)
        (first_match-forget (sorted order_of config.target.rules)
          ∙ ap forget (
              first_keyed-sorted order_of (λ r. evaluate_rule py r config context segments)
                config.target.rules))
