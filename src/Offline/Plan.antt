-- ===== src/Offline/Plan.antt =====
-- When a client connects, _connection_plan.py.
use python_server_sdk.Base.{
  ◌≡◌, refl, Bool, true, false, Option, none, some, Text, codes, text_eq, ◌==◌, Exc, ok, raised,
  ◌>>=◌, if◌then◌else◌, arith, Bool-cases, inl, inr,
}
use python_server_sdk.Base.Dict.{Dict}
use python_server_sdk.Base.Python.{Python}
use python_server_sdk.Base.Json.{Value}
use python_server_sdk.Native.{has_content, validated_server_sdk_key}
use python_server_sdk.Offline.{
  Contents, LiveConnectionMode, connect, stay_offline, rejected_source, ConnectionOptions,
  offline_source_of, live_mode_of, base_url_of, given, plan_connection,
}

module _ (py : Python) where
  open py use {Float}

  -- What a plan to connect rests on.
  pub record IsLive (key : Option Text) (options : ConnectionOptions Float) (k : Text)
      : Type 0 where
    pub live : (options.mode == codes "offline") ≡ false
    pub has_key : key ≡ some k
    pub key_content : has_content py k ≡ true
    pub no_file : options.file ≡ none
    pub no_values : options.values ≡ none

  validated :
      (key : Option Text) (k : Text)
      → validated_server_sdk_key py key ≡ ok k
      → (key ≡ some k) × (has_content py k ≡ true)
  unfolding validated_server_sdk_key
  validated none k h = absurd (ground (arith, h))
  validated (some j) k h = elim (Bool-cases (has_content py j)) [
    | inl t ↦ (ground (arith, t, h), ground (arith, t, h))
    | inr f ↦ absurd (ground (arith, f, h))
  ]

  not_given :
      (file : Option (Contents Float)) (values : Option (Dict Text (Value Float)))
      → given file values ≡ false
      → (file ≡ none) × (values ≡ none)
  unfolding given
  not_given none none h = (refl, refl)
  not_given none (some values) h = absurd (ground (arith, h))
  not_given (some file) values h = absurd (ground (arith, h))

  -- A client is planned to connect only if its mode is not "offline", it has a key, which is more than
  -- white space, and no offline file or values are given; it connects with that key.
  pub plan_connection-IsLive :
      (urlparse : Text → Exc Bool) (key : Option Text) (options : ConnectionOptions Float)
      (mode : LiveConnectionMode) (k url : Text)
      → plan_connection py urlparse key options ≡ ok (connect mode k url)
      → IsLive key options k
  unfolding plan_connection
  plan_connection-IsLive urlparse key options mode k url h =
      planned (options.mode == codes "offline") (live_mode_of options.mode)
        (validated_server_sdk_key py key) (given options.file options.values)
        (base_url_of urlparse options.url) refl refl refl h
    where
      planned :
          (b : Bool) (m : Exc LiveConnectionMode) (j : Exc Text) (g : Bool) (u : Exc Text)
          → (options.mode == codes "offline") ≡ b
          → validated_server_sdk_key py key ≡ j
          → given options.file options.values ≡ g
          → (if b
              then ok (stay_offline (offline_source_of options.file options.values))
              else (m >>= (λ mode. j >>= (λ live_key.
                  if g
                  then ok (stay_offline rejected_source)
                  else (u >>= (λ url. ok (connect mode live_key url)))))))
            ≡ ok (connect mode k url)
          → IsLive key options k
      planned true m j g u e f i h = absurd (ground (arith, h))
      planned false (raised x) j g u e f i h = absurd (ground (arith, h))
      planned false (ok m) (raised x) g u e f i h = absurd (ground (arith, h))
      planned false (ok m) (ok j) true u e f i h = absurd (ground (arith, h))
      planned false (ok m) (ok j) false (raised x) e f i h = absurd (ground (arith, h))
      planned false (ok m) (ok j) false (ok u) e f i h =
          let (a, b) = validated key k (ground (arith, f, h)) in
          let (c, d) = not_given options.file options.values i in
          record { live = e; has_key = a; key_content = b; no_file = c; no_values = d }
