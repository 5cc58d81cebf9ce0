-- ===== src/Evaluation/Text.antt =====
-- text_comparison.py and array_comparison.py of
-- configdirector-server-sdk/src/configdirector/_evaluation.
use python_server_sdk.Base.{
  Bool, false, not, ◌||◌, List, [], ◌∷◌, Text, codes, text_eq, ◌==◌, contains, any, starts_with,
  ends_with, Exc, ok, ◌>>=◌, if◌then◌else◌,
}
use python_server_sdk.Base.Python.{Python}
use python_server_sdk.Base.Json.{
  Value, Items, null, scalar, array, object, nil, cons, to_json_string,
}

-- `first is not None and test(first)`
abbrev pub on_first : List Text → (Text → Bool) → Bool
on_first [] test = false
on_first (first ∷ rest) test = test first

-- The cases of `compare_text`, on the operator in lower case.
pub text_operator : Text → Text → List Text → Bool
text_operator value op targets =
    if op == codes "=" || op == codes "equals"
    then on_first targets (λ first. value == first)
    else if op == codes "!=" || op == codes "does not equal"
    then on_first targets (λ first. not (value == first))
    else if op == codes "is one of"
    then contains targets value
    else if op == codes "is not one of"
    then not (contains targets value)
    else if op == codes "starts with any of"
    then any (starts_with value) targets
    else if op == codes "does not start with any of"
    then not (any (starts_with value) targets)
    else if op == codes "ends with any of"
    then any (ends_with value) targets
    else if op == codes "does not end with any of"
    then not (any (ends_with value) targets)
    else false

module _ (py : Python) where
  open py use {Float}

  unfoldable pub compare_text : Text → Text → List Text → Bool
  unfolding text_operator
  compare_text value operator targets = text_operator value (py.lower operator) targets

  -- The texts of the scalar items; the others have none and are dropped.
  unfoldable pub elements_of : Items Float → Exc (List Text)
  elements_of nil = ok []
  elements_of (cons (scalar v) items) = do
    s ← to_json_string py v
    rest ← elements_of items
    ok (s ∷ rest)
  elements_of (cons null items) = elements_of items
  elements_of (cons (array v) items) = elements_of items
  elements_of (cons (object v) items) = elements_of items

  array_operator : List Text → Text → List Text → Bool
  array_operator elements op targets =
      if op == codes "contains any of"
      then any (contains targets) elements
      else if op == codes "does not contain any of"
      then not (any (contains targets) elements)
      else false

  unfoldable pub compare_array : Value Float → Text → List Text → Exc Bool
  unfolding elements_of array_operator
  compare_array (array items) operator targets = do
    elements ← elements_of items
    ok (array_operator elements (py.lower operator) targets)
  compare_array _ operator targets = ok (py.lower operator == codes "does not contain any of")
