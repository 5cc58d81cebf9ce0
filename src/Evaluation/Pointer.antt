-- ===== src/Evaluation/Pointer.antt =====
-- configdirector-server-sdk/src/configdirector/_evaluation/_json_pointer.py.
use python_server_sdk.Base.{
  Bool, false, not, ◌&&◌, ◌||◌, Option, none, some, List, [], ◌∷◌, ℕ, zero, suc, ◌+◌, ◌-◌, ◌*◌,
  Text, text_eq, nat_eq, ◌==◌, all, length, leb, ltb, Exc, ok, raised, value_error, ◌>>=◌,
  if◌then◌else◌,
}
use python_server_sdk.Base.Json.{Value, Items, Fields, array, object, nil, cons, end, field}

-- `text.split("/")`: the token before the first slash, and those behind it.
unfoldable pub split_slash : Text → Text × List Text
split_slash [] = ([], [])
split_slash (c ∷ s) =
    let (token, rest) = split_slash s in if c == b'/' then ([], token ∷ rest) else (c ∷ token, rest)

-- `_INVALID_ESCAPE.search(token)`: a tilde that neither 0 nor 1 follows
unfoldable pub invalid_escape : Text → Bool
invalid_escape [] = false
invalid_escape (c ∷ []) = c == b'~'
invalid_escape (c ∷ d ∷ s) = c == b'~' && not (d == b'0' || d == b'1') || invalid_escape (d ∷ s)

-- `token.replace("~" + escape, replacement)`: left to right, without overlap
replace : ℕ → ℕ → Text → Text
replace escape replacement [] = []
replace escape replacement (c ∷ []) = c ∷ []
replace escape replacement (c ∷ d ∷ s) =
    let hit = replacement ∷ replace escape replacement s in
    let miss = c ∷ replace escape replacement (d ∷ s) in
    if c == b'~' && d == escape then hit else miss

unfoldable pub unescape : Text → Text
unfolding replace
unescape token = replace b'0' b'~' (replace b'1' b'/' token)

is_digit : ℕ → Bool
is_digit c = leb b'0' c && leb c b'9'

-- `_ARRAY_INDEX.fullmatch(token)`: `0|[1-9][0-9]*`
is_array_index : Text → Bool
unfolding is_digit
is_array_index [] = false
is_array_index (c ∷ []) = is_digit c
is_array_index (c ∷ s) = is_digit c && not (c == b'0') && all is_digit s

index_value : ℕ → Text → ℕ
index_value n [] = n
index_value n (c ∷ s) = index_value (n * 10 + (c - b'0')) s

module _ {F : Type 0} where
  item_at : Items F → ℕ → Option (Value F)
  item_at nil i = none
  item_at (cons v items) zero = some v
  item_at (cons v items) (suc i) = item_at items i

  unfoldable pub member : Fields F → Text → Option (Value F)
  member end k = none
  member (field j v fields) k = if j == k then some v else member fields k

  -- `_step`, where nothing is `_MISSING`; `limit` is the interpreter's limit on digits
  unfoldable pub step : ℕ → Value F → Text → Exc (Option (Value F))
  unfolding is_array_index index_value item_at member
  step limit (object fields) token = ok (member fields token)
  step limit (array items) token =
      if not (is_array_index token)
      then ok none
      else if ltb limit (length token)
      then raised value_error
      else ok (item_at items (index_value 0 token))
  step limit _ token = ok none

  -- The loop over the tokens.
  unfoldable pub walk : ℕ → Value F → List Text → Exc (Option (Value F))
  unfolding unescape invalid_escape step
  walk limit current [] = ok (some current)
  walk limit current (raw_token ∷ tokens) = if invalid_escape raw_token then ok none else do
    next ← step limit current (unescape raw_token)
    elim next [ none ↦ ok none | some v ↦ walk limit v tokens ]

  -- `None` is nothing here, and so is a JSON null that is found: the caller treats both alike.
  unfoldable pub find_by_pointer : ℕ → Text → Value F → Exc (Option (Value F))
  unfolding split_slash walk
  find_by_pointer limit [] document = ok none
  find_by_pointer limit (c ∷ pointer) document =
      let (token, rest) = split_slash pointer in
      if c == b'/' then walk limit document (token ∷ rest) else ok none
