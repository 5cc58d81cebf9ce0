-- ===== src/Offline/Served.antt =====
-- What a client that stays offline serves.
use python_server_sdk.Base.{
  ◌≡◌, ◌≢◌, refl, ap, ◌∙◌, Bool, true, false, Option, none, some, [], ◌∷◌, ◌++◌, Text, codes,
  text_eq, ◌==◌, Exc, ok, raised, ◌>>=◌, validation_error, if◌then◌else◌, arith, Bool-cases, inl,
  inr,
}
use python_server_sdk.Base.Dict
use python_server_sdk.Base.Dict.{Dict, Distinct}
use python_server_sdk.Base.Python.{Python}
use python_server_sdk.Base.Json.{Value, scalar, text}
use python_server_sdk.Evaluation.Types.{Config, EvaluationContext, Segments}
use python_server_sdk.Evaluation.Config.{evaluate, evaluate_no_rules}
use python_server_sdk.Client.{Client, Update, apply_bundle, definition_for}
use python_server_sdk.Client.Bundles.{expected, definition_for-apply_bundle}
use python_server_sdk.Native.{Writers, has_content, encode, config_of, unconditional_config}
use python_server_sdk.Values.{Readers, parse_config_value, found_match}
use python_server_sdk.Values.Shape.{same_type}
use python_server_sdk.Values.Written.{ReadsBack, read_as-encode, match_of}
use python_server_sdk.Offline.{
  offline_bundle, offline_config, encode_all, converted, unconditional_configs, offline_configs,
  inline_values, initialize,
}

module _ (py : Python) (writers : Writers py.Float) where
  open py use {Float}

  -- Each value can be written.
  abbrev pub AllEncode : Dict Text (Value Float) → Type 0
  AllEncode [] = Unit
  AllEncode ((key, v) ∷ values) =
      ((d : Config Float) × (offline_config py writers key v ≡ ok d)) × AllEncode values

  record Serves (values : Dict Text (Value Float)) (configs : Dict Text (Config Float))
      : Type 0 where
    encoded : encode_all py writers values ≡ ok configs
    same_keys : (key : Text) → Dict.has key configs ≡ Dict.has key values
    distinct : Distinct values → Distinct configs
    found :
        (key : Text) (v : Value Float)
        → Dict.get key values ≡ some v
        → (d : Config Float) × (Dict.get key configs ≡ some d)
          × (offline_config py writers key v ≡ ok d)

  encode_all-Serves :
      (values : Dict Text (Value Float))
      → AllEncode values
      → (configs : Dict Text (Config Float)) × Serves values configs
  unfolding encode_all Dict.get Dict.has
  encode_all-Serves [] h = (
    [],
    record {
      encoded = refl;
      same_keys = λ key. refl;
      distinct = λ h. h;
      found = λ key v e. absurd (ground (arith, e));
    },
  )
  encode_all-Serves ((k, w) ∷ values) ((d, h), hs) =
      let (configs, s) = encode_all-Serves values hs in
      (
        (k, d) ∷ configs,
        record {
          encoded = ground (arith, h, s.encoded);
          same_keys = λ key. ground (arith, s.same_keys key);
          distinct = λ (o, t). (s.same_keys k ∙ o, s.distinct t);
          found = λ key v e. found_in k w values d configs key v h s.found e;
        },
      )
    where
      found_in :
          (k : Text) (w : Value Float) (values : Dict Text (Value Float)) (d : Config Float)
          (configs : Dict Text (Config Float)) (key : Text) (v : Value Float)
          → offline_config py writers k w ≡ ok d
          → ((key : Text) (v : Value Float)
              → Dict.get key values ≡ some v
              → (d : Config Float) × (Dict.get key configs ≡ some d)
                × (offline_config py writers key v ≡ ok d))
          → Dict.get key ((k, w) ∷ values) ≡ some v
          → (d' : Config Float) × (Dict.get key ((k, d) ∷ configs) ≡ some d')
            × (offline_config py writers key v ≡ ok d')
      found_in k w values d configs key v h s e = elim (Bool-cases (k == key)) [
        | inl same ↦
            let key_path : k ≡ key = (text_eq.same_iff k key).0 same in
            (d, ground (arith, same), ground (arith, same, e, h, key_path))
        | inr other ↦
            let (d', g, o) = s key v (ground (arith, other, e)) in (d', ground (arith, other, g), o)
      ]

  -- A config that one value makes, by the type and the text of the value.
  offline_config-config_of :
      (key : Text) (v : Value Float) (d : Config Float)
      → offline_config py writers key v ≡ ok d
      → (e : Text × Text) × (encode py writers v ≡ ok e)
        × (d ≡ config_of py writers key (codes "offline:" ++ key) none e)
  unfolding offline_config unconditional_config
  offline_config-config_of key v d h = by_content (has_content py key) (encode py writers v) h
    where
      by_content :
          (b : Bool) (x : Exc (Text × Text))
          → (if b
              then (x >>= (λ e. ok (config_of py writers key (codes "offline:" ++ key) none e)))
              else raised validation_error)
            ≡ ok d
          → (e : Text × Text) × (x ≡ ok e)
            × (d ≡ config_of py writers key (codes "offline:" ++ key) none e)
      by_content true (ok e) h = (e, refl, ground (arith, h))
      by_content true (raised x) h = absurd (ground (arith, h))
      by_content false x h = absurd (ground (arith, h))

  expected-offline :
      (configs : Dict Text (Config Float)) (previous : Option (Dict Text (Config Float)))
      (key : Text)
      → expected (offline_bundle configs) previous key ≡ Dict.get key configs
  unfolding expected offline_bundle
  expected-offline configs none key = refl
  expected-offline configs (some previous) key = refl

  initialized :
      {V : Type 0} (values : Dict Text (Value Float)) (configs : Dict Text (Config Float))
      (c : Client Float V)
      → c.closed ≡ false
      → encode_all py writers values ≡ ok configs
      → initialize py writers (inline_values values) c
        ≡ ok (apply_bundle (offline_bundle configs) c)
  unfolding initialize offline_configs unconditional_configs converted
  initialized values configs c open_ h = rw (open_, h) refl

module _ (py : Python) (readers : Readers py.Float) (writers : Writers py.Float) where
  open py use {Float}

  -- For an open client, `initialize` with the inline values of a connection that stays offline, among
  -- which no key stands twice, returns if each value can be written as the text of a config. Then the
  -- client serves, for each key with a value that is not the empty text and that the library reads
  -- back, a config that gives, in any context and for any default of the value's type, that value,
  -- as a match.
  pub initialize-serves :
      {V : Type 0} (values : Dict Text (Value Float)) (c : Client Float V) (key : Text)
      (v default : Value Float) (context : Option (EvaluationContext Float))
      (segments : Option Segments)
      → c.closed ≡ false
      → Distinct values
      → AllEncode py writers values
      → Dict.get key values ≡ some v
      → ReadsBack py readers writers v
      → v ≢ scalar (text [])
      → same_type default v ≡ true
      → (r : Client Float V × Option (Update Float V)) × (initialize py writers
            (inline_values values)
            c
          ≡ ok r)
        × (d : Config Float) × (definition_for key r.0 ≡ some d)
        × (parse_config_value py readers (evaluate py d context segments) default
            ≡ ok
                (record { value = v; reason = found_match; used_default = false; value_id = none }))
  unfolding match_of config_of offline_bundle
  initialize-serves values c key v default context segments running distinct encodable here back
        filled same =
      let (configs, s) = encode_all-Serves py writers values encodable in
      let (d, got, made) = s.found key v here in
      let (e, written, is) = offline_config-config_of py writers key v d made in
      let state = evaluate py d context segments in
      let (type, value, id) =
        evaluate_no_rules py d context segments (ap (λ x. x.target.rules) is) in
      (
        apply_bundle (offline_bundle configs) c,
        initialized py writers values configs c running s.encoded,
        d,
        definition_for-apply_bundle (offline_bundle configs) c key running (s.distinct distinct)
            ∙ expected-offline py writers configs c.configs key
            ∙ got,
        read_as-encode py readers writers v default e state written back filled same
              (type ∙ ap (λ x. x.type) is) (value ∙ ap (λ x. some x.target.default_value) is)
            ∙ ap
                (λ i.
                  ok (record {
                    value = v;
                    reason = found_match;
                    used_default = false;
                    value_id = i;
                  }))
                (id ∙ ap (λ x. x.target.default_value_id) is),
      )
