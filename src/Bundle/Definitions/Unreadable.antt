-- ===== src/Bundle/Definitions/Unreadable.antt =====
-- One definition that cannot be read costs no other: `_parse_configs` sorts the keys of a bundle.
use python_server_sdk.Base.{
  ◌≡◌, refl, Bool, true, false, Option, none, some, Text, text_eq, contains, Error, value_error,
  type_error, key_error, attribute_error, overflow_error, stream_closed, value_out_of_range,
  validation_error, connection_error, initialization_error, stream_too_large, Exc, ok, raised,
  arith, ◌∙◌, ap, if◌then◌else◌,
}
use python_server_sdk.Base.Dict
use python_server_sdk.Base.Dict.{Dict}
use python_server_sdk.Base.Python.{Python}
use python_server_sdk.Base.Json.{Value, Fields, end, field}
use python_server_sdk.Evaluation.Pointer.{member}
use python_server_sdk.Evaluation.Types.{Config}
use python_server_sdk.Bundle.{is_caught, Conversions}
use python_server_sdk.Bundle.Definitions.{Sorted, sort_config, parse_config, parse_configs}

-- A key stands once in the object.
abbrev pub IsObject : {F : Type 0} → Fields F → Type 0
IsObject end = Unit
IsObject (field k v fields) = (member fields k ≡ none) × IsObject fields

succeeded : {A : Type 0} → Exc A → Option A
succeeded (ok a) = some a
succeeded (raised e) = none

failed : {A : Type 0} → Exc A → Bool
failed (ok a) = false
failed (raised e) = true

module _ (py : Python) (conv : Conversions py.Float) where
  open py use {Float}

  -- What a raw definition, if there is one, comes to.
  pub readable : Option (Value Float) → Option (Config Float)
  unfolding succeeded
  readable none = none
  readable (some v) = succeeded (parse_config py conv v)

  pub is_unreadable : Option (Value Float) → Bool
  unfolding failed
  is_unreadable none = false
  is_unreadable (some v) = failed (parse_config py conv v)

  -- The key `key` is where its raw definition belongs.
  abbrev Sorts : Text → Option (Value Float) → Sorted Float → Type 0
  Sorts key raw r = (Dict.get key r.0 ≡ readable raw) × (contains r.1 key ≡ is_unreadable raw)

  sort_config-Sorts :
      (key k : Text) (v : Value Float) (raw : Fields Float) (parsed : Exc (Config Float))
      (rest : Exc (Sorted Float)) (r : Sorted Float)
      → parse_config py conv v ≡ parsed
      → member raw k ≡ none
      → ((q : Sorted Float) → rest ≡ ok q → (j : Text) → Sorts j (member raw j) q)
      → sort_config k parsed rest ≡ ok r
      → Sorts key (member (field k v raw) key) r
  unfolding sort_config Dict.get member readable is_unreadable succeeded failed
  sort_config-Sorts key k v raw (ok c) (ok q) r p new ih e = ground (
    arith,
    p,
    new,
    (ih q refl key).0,
    (ih q refl key).1,
    (ih q refl k).0,
    (ih q refl k).1,
    e,
    text_eq.same_iff k key,
    text_eq.same_iff key k,
  )
  sort_config-Sorts key k v raw (ok c) (raised x) r p new ih e = ground (arith, e)
  sort_config-Sorts key k v raw (raised x) (ok q) r p new ih e = ground (
    arith,
    p,
    new,
    (ih q refl key).0,
    (ih q refl key).1,
    (ih q refl k).0,
    (ih q refl k).1,
    e,
    text_eq.same_iff k key,
    text_eq.same_iff key k,
  )
  sort_config-Sorts key k v raw (raised x) (raised y) r p new ih e = ground (arith, e)

  -- If the configs of a bundle are read at all, then each key of the raw object is either among the
  -- configs, with the definition that was read for it, or, exactly if its definition could not be
  -- read, among the unreadable keys; and no other key is among either. No
  -- key stands twice in the raw object.
  pub parse_configs-Sorts :
      (raw : Fields Float) (r : Sorted Float) (key : Text)
      → IsObject raw
      → parse_configs py conv raw ≡ ok r
      → (Dict.get key r.0 ≡ readable (member raw key))
        × (contains r.1 key ≡ is_unreadable (member raw key))
  unfolding parse_configs Dict.get member readable is_unreadable
  parse_configs-Sorts end r key h e = ground (arith, e)
  parse_configs-Sorts (field k v raw) r key h e =
      sort_config-Sorts key k v raw (parse_config py conv v) (parse_configs py conv raw) r refl h.0
        (λ q d j. parse_configs-Sorts raw q j h.1 d) e

-- What one definition that cannot be read must not cost the others: the comment of `_parse_configs`
-- means any exception, its `except` clause names four.
pub ends_the_bundle : Error → Bool
ends_the_bundle value_error = false
ends_the_bundle type_error = false
ends_the_bundle key_error = false
ends_the_bundle attribute_error = false
ends_the_bundle overflow_error = true
ends_the_bundle stream_closed = true
ends_the_bundle value_out_of_range = true
ends_the_bundle validation_error = true
ends_the_bundle connection_error = true
ends_the_bundle initialization_error = true
ends_the_bundle stream_too_large = true

-- The exception that is raised, if one is.
unfoldable pub error_of : {A : Type 0} → Exc A → Option Error
error_of (ok a) = none
error_of (raised e) = some e

-- The exception of one definition, if it ends the bundle.
pub ending : Option Error → Option Error
unfolding ends_the_bundle
ending none = none
ending (some e) = if ends_the_bundle e then some e else none

pub first_of : Option Error → Option Error → Option Error
first_of none later = later
first_of (some e) later = some e

module _ (py : Python) (conv : Conversions py.Float) where
  open py use {Float}

  -- The first exception of the object's definitions, in their order, that ends the bundle.
  pub first_ending : Fields Float → Option Error
  unfolding first_of ending error_of
  first_ending end = none
  first_ending (field k v raw) =
      first_of (ending (error_of (parse_config py conv v))) (first_ending raw)

  error_of-sort_config :
      (k : Text) (parsed : Exc (Config Float)) (rest : Exc (Sorted Float))
      → error_of (sort_config k parsed rest) ≡ first_of (ending (error_of parsed)) (error_of rest)
  unfolding sort_config error_of ending first_of ends_the_bundle is_caught
  error_of-sort_config k (ok c) (ok r) = refl
  error_of-sort_config k (ok c) (raised e) = refl
  error_of-sort_config k (raised e) (ok r) = ground arith
  error_of-sort_config k (raised e) (raised x) = ground arith

  -- The configs of a bundle are read exactly if no definition raises an exception other than
  -- ValueError, TypeError, KeyError and AttributeError; if some do, the first of these exceptions
  -- is raised and none of the configs is read.
  pub error_of-parse_configs :
      (raw : Fields Float) → error_of (parse_configs py conv raw) ≡ first_ending raw
  unfolding parse_configs first_ending error_of
  error_of-parse_configs end = refl
  error_of-parse_configs (field k v raw) =
      error_of-sort_config k (parse_config py conv v) (parse_configs py conv raw)
      ∙ ap (first_of (ending (error_of (parse_config py conv v)))) (error_of-parse_configs raw)
