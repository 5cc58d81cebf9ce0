-- ===== src/Client/Bundles.antt =====
-- What a bundle changes: the definitions that the client serves, the keys that it reports, and the
-- watchers that it calls.
use python_server_sdk.Base.{
  ◌≡◌, refl, true, false, not, ◌&&◌, Option, none, some, List, [], ◌∷◌, Text, text_eq, contains,
  contains-sort_texts, arith, if◌then◌else◌,
}
use python_server_sdk.Base.Dict
use python_server_sdk.Base.Dict.{Dict, Distinct, get-set, get-update, get-eq-none, has-get, get-has}
use python_server_sdk.Evaluation.Types.{Config}
use python_server_sdk.Client.{
  full, delta, ConfigBundle, Client, keep_unreadable, merged_configs, missing_keys, removed_by,
  apply_bundle, definition_for,
}

module _ {F : Type 0} where
  -- The definition that a key is to have after a bundle, from the one that it had.
  unfoldable pub expected :
      ConfigBundle F → Option (Dict Text (Config F)) → Text → Option (Config F)
  expected bundle none key = Dict.get key bundle.configs
  expected bundle (some previous) key = elim bundle.kind [
    | full ↦
        if contains bundle.unreadable_keys key && Dict.has key previous
        then Dict.get key previous
        else Dict.get key bundle.configs
    | delta ↦
        if Dict.has key bundle.configs then Dict.get key bundle.configs else Dict.get key previous
  ]

  get-keep_unreadable :
      (j : Text) (ks : List Text) (previous configs : Dict Text (Config F))
      → Dict.get j (keep_unreadable ks previous configs)
        ≡ (if contains ks j && Dict.has j previous then Dict.get j previous else Dict.get j configs)
  unfolding keep_unreadable
  get-keep_unreadable j [] previous configs = refl
  get-keep_unreadable j (k ∷ ks) previous configs =
      kept (Dict.get k previous) refl (λ cs. get-keep_unreadable j ks previous cs)
    where
      kept :
          (o : Option (Config F))
          → Dict.get k previous ≡ o
          → ((cs : Dict Text (Config F))
              → Dict.get j (keep_unreadable ks previous cs) ≡ (
                  if contains ks j && Dict.has j previous
                  then Dict.get j previous
                  else Dict.get j cs))
          → Dict.get j (
              keep_unreadable ks previous
                (elim o [ none ↦ configs | some d ↦ Dict.set k d configs ]))
            ≡ (if contains (k ∷ ks) j && Dict.has j previous
                then Dict.get j previous
                else Dict.get j configs)
      kept none g ih = ground (arith, ih configs, text_eq.same_iff j k, get-has k previous g)
      kept (some d) g ih = ground (
        arith,
        ih (Dict.set k d configs),
        get-set k j d configs,
        has-get k previous d g,
        text_eq.same_iff j k,
        text_eq.same_iff k j,
      )

  get-merged_configs :
      (bundle : ConfigBundle F) (previous : Option (Dict Text (Config F))) (key : Text)
      → Distinct bundle.configs
      → Dict.get key (merged_configs bundle previous) ≡ expected bundle previous key
  unfolding merged_configs expected
  get-merged_configs bundle none key h = refl
  get-merged_configs bundle (some previous) key h = ground (
    arith,
    get-keep_unreadable key bundle.unreadable_keys previous bundle.configs,
    get-update key previous bundle.configs h,
  )

  contains-missing_keys :
      (key : Text) (previous configs : Dict Text (Config F))
      → contains (missing_keys previous configs) key
        ≡ (Dict.has key previous && not (Dict.has key configs))
  unfolding missing_keys Dict.has
  contains-missing_keys key [] configs = refl
  contains-missing_keys key ((k, d) ∷ previous) configs = ground (
    arith,
    contains-missing_keys key previous configs,
    text_eq.same_iff k key,
    text_eq.same_iff key k,
  )

  -- The keys that a full bundle reports as removed are those that the client had and has no more.
  pub contains-removed_by :
      (bundle : ConfigBundle F) (previous : Dict Text (Config F)) (key : Text)
      → bundle.kind ≡ full
      → contains (removed_by bundle (some previous)) key
        ≡ (Dict.has key previous && not (Dict.has key (merged_configs bundle (some previous))))
  unfolding removed_by
  contains-removed_by bundle previous key h =
      let merged = merged_configs bundle (some previous) in
      ground (
        arith,
        contains-sort_texts key (missing_keys previous merged),
        contains-missing_keys key previous merged,
      )

module _ {F V : Type 0} where
  -- An open client serves, after a bundle, for every key what the bundle makes of it: from a full
  -- bundle (and the first bundle counts as full) the bundle's definition, or the earlier one if the
  -- bundle's could not be read; from a delta the bundle's definition, or else the earlier one. No
  -- key stands twice among the bundle's configs.
  pub definition_for-apply_bundle :
      (bundle : ConfigBundle F) (c : Client F V) (key : Text)
      → c.closed ≡ false
      → Distinct bundle.configs
      → definition_for key (apply_bundle bundle c).0 ≡ expected bundle c.configs key
  unfolding definition_for apply_bundle
  definition_for-apply_bundle bundle c key h distinct =
      rw h (get-merged_configs bundle c.configs key distinct)

  -- A closed client takes nothing from a bundle and calls nobody.
  pub apply_bundle-closed :
      (bundle : ConfigBundle F) (c : Client F V)
      → c.closed ≡ true
      → apply_bundle bundle c ≡ (c, none)
  unfolding apply_bundle
  apply_bundle-closed bundle c h = rw h
