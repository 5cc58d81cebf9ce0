-- ===== src/InMemory/Mirror.antt =====
-- The client serves what the in-memory connection holds.
use python_server_sdk.Base.{
  ◌≡◌, ◌≢◌, refl, sym, ap, ◌∙◌, true, false, Option, none, some, [], ◌∷◌, Text, text_eq, ◌==◌,
  if◌then◌else◌, arith,
}
use python_server_sdk.Base.Dict
use python_server_sdk.Base.Dict.{Dict, Distinct, get-set}
use python_server_sdk.Evaluation.Types.{Config}
use python_server_sdk.Client.{
  full, delta, ConfigBundle, Client, items_of, apply_bundle, definition_for,
}
use python_server_sdk.Client.Bundles.{expected, definition_for-apply_bundle}
use python_server_sdk.InMemory.{
  Connection, bundle_of, full_update, update_if, set_value, replace_values,
}

module _ {F : Type 0} where
  expected-delta :
      (key j : Text) (d : Config F) (previous : Option (Dict Text (Config F)))
      → previous ≢ none
      → expected (bundle_of ((key, d) ∷ []) delta) previous j
        ≡ (if key == j then some d else Dict.get j (items_of previous))
  unfolding expected bundle_of Dict.get Dict.has
  expected-delta key j d none h = absurd (h refl)
  expected-delta key j d (some previous) h = ground arith

  expected-full :
      (configs : Dict Text (Config F)) (previous : Option (Dict Text (Config F))) (j : Text)
      → expected (bundle_of configs full) previous j ≡ Dict.get j configs
  unfolding expected bundle_of
  expected-full configs none j = refl
  expected-full configs (some previous) j = refl

module _ {F V : Type 0} where
  pub record Mirrors (m : Connection F) (c : Client F V) : Type 0 where
    pub same : (key : Text) → definition_for key c ≡ Dict.get key m.configs

  -- `_deliver_if_any` of an update that no other overtakes
  pub deliver_if_any : Option (ConfigBundle F) → Client F V → Client F V
  deliver_if_any none c = c
  deliver_if_any (some bundle) c = (apply_bundle bundle c).0

  unserved : (c : Client F V) (j : Text) → Dict.get j (items_of c.configs) ≡ definition_for j c
  unfolding definition_for
  unserved c j = refl

  -- While the connection is connected, an open client that has received configs and serves what the
  -- connection holds serves it again once the update of `set_value` is applied.
  pub set_value-Mirrors :
      (key : Text) (d : Config F) (m : Connection F) (c : Client F V)
      → m.connected ≡ true
      → c.closed ≡ false
      → c.configs ≢ none
      → Mirrors m c
      → Mirrors (set_value key d m).0 (deliver_if_any (set_value key d m).1 c)
  unfolding set_value deliver_if_any bundle_of Dict.has
  set_value-Mirrors key d m c on running configured h = record {
    same = λ j. rw on (
        definition_for-apply_bundle (bundle_of ((key, d) ∷ []) delta) c j running (one key d)
        ∙ expected-delta key j d c.configs configured
        ∙ ap (λ o. if key == j then some d else o) (unserved c j ∙ h.same j)
        ∙ sym (get-set key j d m.configs));
  }
    where
      one : (key : Text) (d : Config F) → Distinct (bundle_of ((key, d) ∷ []) delta).configs
      one key d = (refl, tt)

  -- While the connection is connected, an open client serves, once the update of `replace_values`
  -- is applied, the new configs, whatever it served before; no key stands twice in them.
  pub replace_values-Mirrors :
      (configs : Dict Text (Config F)) (m : Connection F) (c : Client F V)
      → m.connected ≡ true
      → c.closed ≡ false
      → Distinct configs
      → Mirrors (replace_values configs m).0 (deliver_if_any (replace_values configs m).1 c)
  unfolding replace_values update_if full_update deliver_if_any bundle_of
  replace_values-Mirrors configs m c on running distinct = record {
    same = λ j. rw on (
        definition_for-apply_bundle (bundle_of configs full) c j running distinct
        ∙ expected-full configs c.configs j);
  }
