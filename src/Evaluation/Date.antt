-- ===== src/Evaluation/Date.antt =====
-- configdirector-server-sdk/src/configdirector/_evaluation/date_comparison.py. A date is read to the
-- instant that it names, in milliseconds, with the pattern written out.
use python_server_sdk.Base.{
  Bool, true, false, not, ◌&&◌, ◌||◌, Option, none, some, List, [], ◌∷◌, ℕ, zero, suc, ◌+◌, ◌-◌,
  ◌*◌, ◌/◌, ◌%◌, Text, codes, text_eq, nat_eq, ◌==◌, is_empty, leb, ltb, Exc, ok, raised,
  value_error, ◌>>=◌, if◌then◌else◌,
}
use python_server_sdk.Base.Python.{Python}

-- What the groups of the pattern captured. The offset is its sign, true for a minus, and its
-- hours and minutes.
pub record Groups : Type 0 where
  pub negative_year : Bool
  pub year : ℕ
  pub month : Option ℕ
  pub day : Option ℕ
  pub hour : Option ℕ
  pub minute : Option ℕ
  pub second : Option ℕ
  pub fraction : List ℕ
  pub offset : Option (Bool × ℕ × ℕ)

infixl 5 ◌>>=?◌
abbrev ◌>>=?◌ : {A B : Type 0} → Option A → (A → Option B) → Option B
none >>=? f = none
some a >>=? f = f a

or_value : Option ℕ → ℕ → ℕ
or_value none d = d
or_value (some n) d = n

module _ (digit_of : ℕ → Option ℕ) where
  -- `\d{n}`: the number and what follows
  digits : ℕ → ℕ → Text → Option (ℕ × Text)
  digits zero value s = some (value, s)
  digits (suc n) value [] = none
  digits (suc n) value (c ∷ s) = elim (digit_of c) [
    | none ↦ none
    | some d ↦ digits n (value * 10 + d) s
  ]

  -- `\d*` as the digits and what follows
  digit_span : Text → List ℕ × Text
  digit_span [] = ([], [])
  digit_span (c ∷ s) =
      let span = digit_span s in
      elim (digit_of c) [ none ↦ ([], c ∷ s) | some d ↦ (d ∷ span.0, span.1) ]

  -- A separator and a number of two digits behind it; nothing if the group is not there.
  pair_behind : ℕ → Text → Option ℕ × Text
  unfolding digits
  pair_behind separator [] = (none, [])
  pair_behind separator (c ∷ s) =
      let found : Option ℕ × Text = elim (digits 2 0 s) [
        | none ↦ (none, c ∷ s)
        | some (n, rest) ↦ (some n, rest)
      ] in
      if c == separator then found else (none, c ∷ s)

  year_of : Text → Option (Bool × ℕ × Text)
  unfolding digits
  year_of [] = none
  year_of (c ∷ s) =
      let signed : Option (Bool × ℕ × Text) = digits 6 0 s >>=? λ r. some (c == b'-', r.0, r.1) in
      let plain : Option (Bool × ℕ × Text) = digits 4 0 (c ∷ s) >>=? λ r. some (false, r.0, r.1) in
      if c == b'+' || c == b'-' then signed else plain

  -- `(?:\.(?P<fraction>\d+))?`
  fraction_of : Text → List ℕ × Text
  unfolding digit_span
  fraction_of [] = ([], [])
  fraction_of (c ∷ s) =
      let span = digit_span s in if c == b'.' && not (is_empty span.0) then span else ([], c ∷ s)

  -- `(?P<offset>[Zz]|[+-]\d{2}:\d{2})?`; a `Z` is no offset
  offset_of : Text → Option (Bool × ℕ × ℕ) × Text
  unfolding digits pair_behind
  offset_of [] = (none, [])
  offset_of (c ∷ s) =
      let read : Option (ℕ × ℕ × Text) = digits 2 0 s >>=? λ h.
      let m = pair_behind b':' h.1 in
      elim m.0 [ none ↦ none | some minutes ↦ some (h.0, minutes, m.1) ] in
      let signed : Option (Bool × ℕ × ℕ) × Text = elim read [
        | none ↦ (none, c ∷ s)
        | some (hours, minutes, rest) ↦ (some (c == b'-', hours, minutes), rest)
      ] in
      if c == b'Z' || c == b'z'
      then (none, s)
      else if c == b'+' || c == b'-'
      then signed
      else (none, c ∷ s)

  -- The time group: hours and minutes are required, the rest is optional.
  time_of : Groups → Text → Groups × Text
  unfolding digits pair_behind fraction_of offset_of
  time_of g [] = (g, [])
  time_of g (c ∷ s) =
      let read : Option (Groups × Text) = digits 2 0 s >>=? λ h.
      let m = pair_behind b':' h.1 in
      elim m.0 [
        | none ↦ none
        | some minutes ↦
            let sec = pair_behind b':' m.1 in
            let none_read : List ℕ × Text = ([], sec.1) in
            let frac : List ℕ × Text = elim sec.0 [
              | none ↦ none_read
              | some _ ↦ fraction_of sec.1
            ] in
            let off = offset_of frac.1 in
            some (
              record g {
                hour = some h.0;
                minute = some minutes;
                second = sec.0;
                fraction = frac.0;
                offset = off.0;
              },
              off.1,
            )
      ] in
      let found : Groups × Text = elim read [ none ↦ (g, c ∷ s) | some r ↦ r ] in
      if c == b'T' then found else (g, c ∷ s)

  -- `$` holds at the end, and before a newline at the end.
  at_end : Text → Bool
  at_end [] = true
  at_end (c ∷ []) = c == 10
  at_end _ = false

  unfoldable pub match_iso : Text → Option Groups
  unfolding year_of pair_behind time_of at_end
  match_iso s = year_of s >>=? λ y.
      let month = pair_behind b'-' y.2 in
      let none_read : Option ℕ × Text = (none, month.1) in
      let day : Option ℕ × Text = elim month.0 [
        | none ↦ none_read
        | some _ ↦ pair_behind b'-' month.1
      ] in
      let start : Groups = record {
        negative_year = y.0;
        year = y.1;
        month = month.0;
        day = day.0;
        hour = none;
        minute = none;
        second = none;
        fraction = [];
        offset = none;
      } in
      let (g, rest) = time_of start day.1 in if at_end rest then some g else none

-- The proleptic Gregorian calendar of `datetime`.
is_leap : ℕ → Bool
is_leap y = y % 4 == 0 && (not (y % 100 == 0) || y % 400 == 0)

abbrev days_in_month : Bool → ℕ → ℕ
days_in_month leap m =
    if m == 2
    then (if leap then 29 else 28)
    else if m == 4 || m == 6 || m == 9 || m == 11
    then 30
    else 31

-- The days of the year before a month.
days_before_month : Bool → ℕ → ℕ
days_before_month leap zero = 0
days_before_month leap (suc zero) = 0
days_before_month leap (suc m) = days_before_month leap m + days_in_month leap m

pub ordinal : ℕ → ℕ → ℕ → ℕ
unfolding is_leap days_before_month
ordinal y m d =
    (y - 1) * 365
    + (y - 1) / 4
    - (y - 1) / 100
    + (y - 1) / 400
    + days_before_month (is_leap y) m
    + d

-- The milliseconds of `fraction[:3].ljust(3, "0")`
pub milliseconds : List ℕ → ℕ
milliseconds [] = 0
milliseconds (a ∷ []) = a * 100
milliseconds (a ∷ b ∷ []) = a * 100 + b * 10
milliseconds (a ∷ b ∷ c ∷ rest) = a * 100 + b * 10 + c

-- The offset in minutes, from 0 for -24:00 to 2880 for +24:00, which are both out of range for
-- `timezone`: it raises.
shifted_offset : Option (Bool × ℕ × ℕ) → Exc ℕ
shifted_offset none = ok 1440
shifted_offset (some (negative, hours, minutes)) =
    let offset = hours * 60 + minutes in
    if ltb offset 1440
    then ok (if negative then 1440 - offset else 1440 + offset)
    else raised value_error

-- The `datetime`, as its instant in UTC; nothing if a component is out of range.
instant_of : Groups → ℕ → Option ℕ
unfolding ordinal milliseconds is_leap or_value
instant_of g shift =
    let month = or_value g.month 1 in
    let day = or_value g.day 1 in
    let hour = or_value g.hour 0 in
    let minute = or_value g.minute 0 in
    let second = or_value g.second 0 in
    let minutes = (ordinal g.year month day * 24 + hour) * 60 + minute + 2880 - shift in
    if not g.negative_year
      && (leb 1 g.year && leb g.year 9999)
      && (leb 1 month && leb month 12)
      && (leb 1 day && leb day (days_in_month (is_leap g.year) month))
      && (ltb hour 24 && ltb minute 60 && ltb second 60)
    then some ((minutes * 60 + second) * 1000 + milliseconds g.fraction)
    else none

-- The pattern's groups, read into an instant. The zone is built before the date is checked.
read_groups : Option Groups → Exc (Option ℕ)
unfolding shifted_offset instant_of
read_groups none = ok none
read_groups (some g) = do shift ← shifted_offset g.offset; ok (instant_of g shift)

date_operator : Option ℕ → Text → Option ℕ → Bool
date_operator (some value) op (some target) =
    if op == codes "is after"
    then ltb target value
    else if op == codes "is before"
    then ltb value target
    else false
date_operator _ op _ = false

module _ (py : Python) where
  -- `_parse_date`
  unfoldable pub parse_date : Text → Exc (Option ℕ)
  unfolding match_iso read_groups
  parse_date value = read_groups (match_iso py.digit_of value)

  unfoldable pub compare_date : Text → Text → List Text → Exc Bool
  unfolding parse_date date_operator
  compare_date value op [] = ok false
  compare_date value op (first ∷ rest) = do
    parsed_value ← parse_date value
    parsed_target ← parse_date first
    ok (date_operator parsed_value op parsed_target)
