-- ===== src/Values/Written.antt =====
-- A native value that is written as the text of a config, _native_values.py, and read in the type of a
-- default, _value_parser.py.
use python_server_sdk.Base.{
  ◌≡◌, ◌≢◌, refl, sym, ap, ◌∙◌, ℕ, ◌+◌, ◌<◌, Bool, true, false, ◌||◌, some, [], ◌∷◌, Text, codes,
  text_eq, nat_eq, text_beq, contains, is_empty, Exc, ok, raised, ◌>>=◌, value_error,
  validation_error, if◌then◌else◌, arith,
}
use python_server_sdk.Base.Int.{ℤ, str_ℤ, filled-str_ℤ, all-str_ℤ}
use python_server_sdk.Base.Python.{Python}
use python_server_sdk.Base.Json.{
  Value, Items, Fields, null, scalar, array, object, text, int, float, bool, int_text,
}
use python_server_sdk.Evaluation.Types.{ConfigState}
use python_server_sdk.Native.{Writers, encode, as_validation, is_encodable, json_text}
use python_server_sdk.Values.{
  found_match, ParseResult, Readers, decimal, parse_config_value, parse_boolean, parse_integer,
  parse_float, int_value, float_value, found_or, matched, loaded, read_text, not_readable_as_string,
  read_as, raw_or, as_object, as_array,
}
use python_server_sdk.Values.Shape.{same_type}

digit-decimal : (d : ℕ) → d < 10 → contains (codes "0123456789+-.eE") (b'0' + d) ≡ true
digit-decimal d h = ground (arith, h)

decimal-str_ℤ : (n : ℤ) → decimal (str_ℤ n) ≡ true
unfolding decimal
decimal-str_ℤ n = all-str_ℤ (contains (codes "0123456789+-.eE")) n digit-decimal refl

module _ (py : Python) (readers : Readers py.Float) (writers : Writers py.Float) where
  open py use {Float}

  -- The library reads what it has written of a value: `int` what `str` writes, `float` a plain decimal,
  -- `json.loads` what `json.dumps` writes, and `lower` leaves lower case as it is.
  unfoldable pub ReadsBack : Value Float → Type 0
  ReadsBack null = Unit
  ReadsBack (scalar (bool b)) =
      (py.lower (codes "true") ≡ codes "true") × (py.lower (codes "false") ≡ codes "false")
  ReadsBack (scalar (int n)) = readers.int_of_text (str_ℤ n) ≡ some n
  ReadsBack (scalar (float x)) =
      (py.float_of_text (writers.plain_decimal x) ≡ some x)
      × (decimal (writers.plain_decimal x) ≡ true)
      × (is_empty (writers.plain_decimal x) ≡ false)
  ReadsBack (scalar (text s)) = Unit
  ReadsBack v =
      (s : Text) → writers.dumps v ≡ ok s → (readers.loads s ≡ ok v) × (is_empty s ≡ false)

  raw_or-filled :
      (raw : Text) (default : Value Float) (state : ConfigState Float)
      → is_empty raw ≡ false
      → raw_or py readers (some raw) default state ≡ read_as py readers default raw state
  unfolding raw_or
  raw_or-filled [] default state h = absurd (ground (arith, h))
  raw_or-filled (c ∷ raw) default state h = refl

  -- The match of a value.
  unfoldable pub match_of : Value Float → ConfigState Float → ParseResult Float
  match_of v state = record {
    value = v;
    reason = found_match;
    used_default = false;
    value_id = state.value_id;
  }

  read_as-int :
      (n m : ℤ) (state : ConfigState Float)
      → readers.int_of_text (str_ℤ n) ≡ some n
      → read_as py readers (scalar (int m)) (str_ℤ n) state ≡ ok (match_of (scalar (int n)) state)
  unfolding read_as parse_integer int_value found_or matched match_of
  read_as-int n m state h = ground (arith, decimal-str_ℤ n, h)

  read_as-float :
      (x y : Float) (raw : Text) (state : ConfigState Float)
      → decimal raw ≡ true
      → py.float_of_text raw ≡ some x
      → (py.is_nan x || py.is_infinite x) ≡ false
      → read_as py readers (scalar (float y)) raw state ≡ ok (match_of (scalar (float x)) state)
  unfolding read_as parse_float float_value found_or matched match_of
  read_as-float x y raw state h k finite = rw (h, k, finite) refl

  read_as-object :
      (f g : Fields Float) (raw : Text) (state : ConfigState Float)
      → readers.loads raw ≡ ok (object f)
      → read_as py readers (object g) raw state ≡ ok (match_of (object f) state)
  unfolding read_as loaded as_object found_or matched match_of
  read_as-object f g raw state h = rw h refl

  read_as-array :
      (i j : Items Float) (raw : Text) (state : ConfigState Float)
      → readers.loads raw ≡ ok (array i)
      → read_as py readers (array j) raw state ≡ ok (match_of (array i) state)
  unfolding read_as loaded as_array found_or matched match_of
  read_as-array i j raw state h = rw h refl

  written_int : (n : ℤ) (s : Text) → as_validation (int_text py n) ≡ ok s → s ≡ str_ℤ n
  unfolding int_text as_validation
  written_int n s h = ground (arith, h)

  -- What is typed is the text of the computation.
  typed :
      (x : Exc Text) (type : Text) (e : Text × Text)
      → (x >>= (λ s. ok (type, s))) ≡ ok e
      → x ≡ ok e.1
  typed (ok s) type e h = ground (arith, h)
  typed (raised x) type e h = ground (arith, h)

  typed_as :
      (x : Exc Text) (type : Text) (e : Text × Text)
      → (x >>= (λ s. ok (type, s))) ≡ ok e
      → e.0 ≡ type
  typed_as (ok s) type e h = ground (arith, h)
  typed_as (raised x) type e h = ground (arith, h)

  from_raw :
      (raw : Text) (default : Value Float) (state : ConfigState Float) (r : ParseResult Float)
      → state.value ≡ some raw
      → is_empty raw ≡ false
      → read_as py readers default raw state ≡ ok r
      → parse_config_value py readers state default ≡ ok r
  unfolding parse_config_value
  from_raw raw default state r value filled h =
      ap (λ o. raw_or py readers o default state) value ∙ raw_or-filled raw default state filled ∙ h

  -- The text of what is encoded, and its type.
  abbrev text_in : Exc (Text × Text) → Text
  text_in (ok e) = e.1
  text_in (raised x) = []

  abbrev type_in : Exc (Text × Text) → Text
  type_in (ok e) = e.0
  type_in (raised x) = []

  read_as-true :
      (c : Bool) (state : ConfigState Float)
      → py.lower (codes "true") ≡ codes "true"
      → read_as py readers (scalar (bool c)) (codes "true") state
        ≡ ok (match_of (scalar (bool true)) state)
  unfolding read_as parse_boolean found_or matched match_of text_beq
  read_as-true c state h = rw h refl

  read_as-false :
      (c : Bool) (state : ConfigState Float)
      → py.lower (codes "false") ≡ codes "false"
      → read_as py readers (scalar (bool c)) (codes "false") state
        ≡ ok (match_of (scalar (bool false)) state)
  unfolding read_as parse_boolean found_or matched match_of text_beq
  read_as-false c state h = rw h refl

  read_as-text :
      (s t type : Text) (state : ConfigState Float)
      → type ≡ codes "string"
      → state.type ≡ scalar (text type)
      → read_as py readers (scalar (text t)) s state ≡ ok (match_of (scalar (text s)) state)
  unfolding read_as read_text not_readable_as_string matched match_of text_beq
  read_as-text s t type state h k =
      ap (λ x. read_text (not_readable_as_string x) s (scalar (text t)) state)
        (k ∙ ap (λ x. scalar (text x)) h)

  -- What is written as JSON.
  written_json :
      (v : Value Float) (type : Text) (e : Text × Text)
      → (json_text py writers v >>= (λ s. ok (type, s))) ≡ ok e
      → writers.dumps v ≡ ok e.1
  unfolding json_text as_validation
  written_json v type e h =
      dumped (is_encodable py v) (writers.dumps v) (typed (json_text py writers v) type e h)
    where
      dumped :
          (b : Bool) (x : Exc Text)
          → (if b then as_validation x else raised validation_error) ≡ ok e.1
          → x ≡ ok e.1
      dumped true (ok s) h = h
      dumped true (raised value_error) h = absurd (ground (arith, h))
      dumped true (raised y) h = absurd (ground (arith, h))
      dumped false x h = absurd (ground (arith, h))

  -- Any value that is not the empty text, once it is encoded, is read as itself with a default of its
  -- type.
  pub read_as-encode :
      (v default : Value Float) (e : Text × Text) (state : ConfigState Float)
      → encode py writers v ≡ ok e
      → ReadsBack v
      → v ≢ scalar (text [])
      → same_type default v ≡ true
      → state.type ≡ scalar (text e.0)
      → state.value ≡ some e.1
      → parse_config_value py readers state default ≡ ok (match_of v state)
  unfolding parse_config_value ReadsBack encode same_type
  read_as-encode (scalar (int n)) (scalar (int m)) e state written back filled same type value =
      from_raw (str_ℤ n) (scalar (int m)) state _
        (value ∙ ap some (written_int n e.1 (typed _ _ e written))) (filled-str_ℤ n)
        (read_as-int n m state back)
  read_as-encode (scalar (float x)) (scalar (float y)) e state written (k, d, s) filled same type
        value =
      let raw = writers.plain_decimal x in
      from_raw raw (scalar (float y)) state _ (ground (arith, value, written)) s
        (read_as-float x y raw state d k (ground (arith, written)))
  read_as-encode (scalar (bool true)) (scalar (bool c)) e state written back filled same type
        value =
      from_raw (codes "true") (scalar (bool c)) state _ (value ∙ ap some (sym (ap text_in written)))
        refl (read_as-true c state back.0)
  read_as-encode (scalar (bool false)) (scalar (bool c)) e state written back filled same type
        value =
      from_raw (codes "false") (scalar (bool c)) state _
        (value ∙ ap some (sym (ap text_in written))) refl (read_as-false c state back.1)
  read_as-encode (scalar (text [])) (scalar (text t)) e state written back filled same type value =
      absurd (filled refl)
  read_as-encode (scalar (text (c ∷ s))) (scalar (text t)) e state written back filled same type
        value =
      from_raw (c ∷ s) (scalar (text t)) state _ (value ∙ ap some (sym (ap text_in written))) refl
        (read_as-text (c ∷ s) t e.0 state (sym (ap type_in written)) type)
  read_as-encode (object f) (object g) e state written back filled same type value =
      let (h, s) = back e.1 (written_json (object f) _ e written) in
      from_raw e.1 (object g) state _ value s (read_as-object f g e.1 state h)
  read_as-encode (array i) (array j) e state written back filled same type value =
      let (h, s) = back e.1 (written_json (array i) _ e written) in
      from_raw e.1 (array j) state _ value s (read_as-array i j e.1 state h)
  read_as-encode v default e state written back filled same type value =
      absurd (ground (arith, same, written))
