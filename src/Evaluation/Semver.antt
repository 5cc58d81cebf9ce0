-- ===== src/Evaluation/Semver.antt =====
-- configdirector-server-sdk/src/configdirector/_evaluation/semver_comparison.py. The search for the
-- pattern is written out: it stops at the first run of digits that is no longer than 16, and reads
-- up to two more components behind dots.
use python_server_sdk.Base.{
  Bool, true, false, not, ◌&&◌, Option, none, some, List, [], ◌∷◌, map, ℕ, ◌+◌, ◌*◌, Text, codes,
  text_eq, nat_eq, ◌==◌, any, all, length, leb, ltb, if◌then◌else◌,
}
use python_server_sdk.Base.Python.{Python}

abbrev pub Version : Type 0
Version = ℕ × ℕ × ℕ

-- `a < b` and `a == b` on tuples
unfoldable pub version_lt : Version → Version → Bool
version_lt a b =
    if ltb a.0 b.0
    then true
    else if ltb b.0 a.0
    then false
    else if ltb a.1 b.1
    then true
    else if ltb b.1 a.1
    then false
    else ltb a.2 b.2

unfoldable pub version_eq : Version → Version → Bool
version_eq a b = a.0 == b.0 && (a.1 == b.1 && a.2 == b.2)

-- `_equals` and `_ordered`
unfoldable pub equals : Option Version → Option Version → Bool
unfolding version_eq
equals (some a) (some b) = version_eq a b
equals _ _ = false

unfoldable pub ordered : (Version → Version → Bool) → Option Version → Option Version → Bool
ordered compare (some a) (some b) = compare a b
ordered compare _ _ = false

-- The first target, or nothing.
abbrev pub first_of : List (Option Version) → Option Version
first_of [] = none
first_of (first ∷ rest) = first

-- The cases of `compare_semver`, on the operator in lower case.
unfoldable pub semver_operator : Option Version → Text → List (Option Version) → Bool
unfolding equals ordered version_lt
semver_operator value op targets =
    let first = first_of targets in
    if op == codes "="
    then equals value first
    else if op == codes "<"
    then ordered version_lt value first
    else if op == codes "<="
    then ordered (λ a b. not (version_lt b a)) value first
    else if op == codes ">"
    then ordered (λ a b. version_lt b a) value first
    else if op == codes ">="
    then ordered (λ a b. not (version_lt a b)) value first
    else if op == codes "is one of"
    then any (equals value) targets
    else if op == codes "is not one of"
    then not (any (equals value) targets)
    else false

-- A run of digits in front of a text: its digits and what follows.
pub digit_run : (ℕ → Option ℕ) → Text → List ℕ × Text
digit_run digit_of [] = ([], [])
digit_run digit_of (c ∷ s) =
    let run = digit_run digit_of s in
    elim (digit_of c) [ none ↦ ([], c ∷ s) | some d ↦ (d ∷ run.0, run.1) ]

-- `int` of a run of digits
pub run_value : ℕ → List ℕ → ℕ
run_value n [] = n
run_value n (d ∷ digits) = run_value (n * 10 + d) digits

abbrev fits : List ℕ → Bool
fits run = leb 1 (length run) && leb (length run) 16

-- `(?:\.(\d{1,16}))?` with what follows it; a missing component is 0, and is missing again when it
-- is looked for a second time
component : (ℕ → Option ℕ) → Text → ℕ × Text
unfolding digit_run run_value
component digit_of [] = (0, [])
component digit_of (c ∷ s) =
    let run = digit_run digit_of s in
    if c == b'.' && fits run.0 then (run_value 0 run.0, run.1) else (0, c ∷ s)

-- The pattern behind its first group, where a run of digits may start
version_at : (ℕ → Option ℕ) → Text → Option Version
unfolding component
version_at digit_of s =
    let run = digit_run digit_of s in
    let minor = component digit_of run.1 in
    let patch = component digit_of minor.1 in
    if fits run.0 then some (run_value 0 run.0, minor.0, patch.0) else none

-- `_COERCE.search`; `boundary` says that no digit stands before the text
search_from : (ℕ → Option ℕ) → Bool → Text → Option Version
unfolding version_at
search_from digit_of boundary [] = none
search_from digit_of boundary (c ∷ s) =
    let is_digit : Bool = elim (digit_of c) [ none ↦ false | some d ↦ true ] in
    let rest = search_from digit_of (not is_digit) s in
    let here : Option Version =
      if boundary && is_digit then version_at digit_of (c ∷ s) else none in
    elim here [ none ↦ rest | some v ↦ some v ]

module _ (py : Python) where
  -- `_coerce`
  unfoldable pub coerce : Text → Option Version
  unfolding search_from
  coerce s = search_from py.digit_of true s

  unfoldable pub compare_semver : Text → Text → List Text → Bool
  unfolding semver_operator
  compare_semver value operator targets =
      let op = py.lower operator in
      if all py.is_space value
      then op == codes "is not one of"
      else semver_operator (coerce value) op (map coerce targets)
