-- ===== src/InMemory.antt =====
-- configdirector-server-sdk/src/configdirector/_in_memory_connection.py: what its state lock guards,
-- each operation one step, with the update that it delivers behind the lock. A definition is built
-- by the caller; attempts are known by number.
pub mod Mirror
use python_server_sdk.Base.{
  ◌≡◌, Bool, true, false, Option, none, some, List, [], ◌∷◌, ℕ, ◌+◌, Text, codes, text_eq, nat_eq,
  ◌==◌, if◌then◌else◌,
}
use python_server_sdk.Base.Dict
use python_server_sdk.Base.Dict.{Dict}
use python_server_sdk.Evaluation.Types.{Config}
use python_server_sdk.Client.{BundleKind, full, delta, ConfigBundle}

pub data Armed : Type 0 where
  hold failure : Armed

pub data Outcome : Type 0 where
  completed failed ended : Outcome

-- `settled` has the attempts that are settled with their outcomes.
pub record Connection (F : Type 0) : Type 0 where
  pub configs : Dict Text (Config F)
  pub armed : Option Armed
  pub held : Option ℕ
  pub connected : Bool
  pub settled : Dict ℕ Outcome
  pub next_attempt : ℕ

-- What `_connect` goes on to do.
pub data Picked (F : Type 0) : Type 0 where
  fatal : Picked F
  awaiting : ℕ → Picked F
  deliver : ConfigBundle F → Picked F

disarm_hold : Option Armed → Option Armed
disarm_hold none = none
disarm_hold (some hold) = none
disarm_hold (some failure) = some failure

module _ {F : Type 0} where
  -- `_bundle`
  pub bundle_of : Dict Text (Config F) → BundleKind → ConfigBundle F
  bundle_of configs kind = record {
    configs = configs;
    segments = [];
    kind = kind;
    unreadable_keys = [];
    environment_id = some (codes "test-environment");
    project_id = some (codes "test-project");
    timestamp = none;
  }

  pub full_update : Connection F → ConfigBundle F
  unfolding bundle_of
  full_update m = bundle_of m.configs full

  update_if : Connection F → Option (ConfigBundle F)
  unfolding full_update
  update_if m = if m.connected then some (full_update m) else none

  -- `set_value`
  unfoldable pub set_value : Text → Config F → Connection F → Connection F × Option (ConfigBundle F)
  unfolding bundle_of
  set_value key definition m = (
    record m { configs = Dict.set key definition m.configs },
    if m.connected then some (bundle_of ((key, definition) ∷ []) delta) else none,
  )

  -- `remove_value`
  unfoldable pub remove_value : Text → Connection F → Connection F × Option (ConfigBundle F)
  unfolding update_if
  remove_value key m =
      let next = record m { configs = Dict.delete key m.configs } in (next, update_if next)

  -- `replace_values`
  unfoldable pub replace_values :
      Dict Text (Config F) → Connection F → Connection F × Option (ConfigBundle F)
  unfolding update_if
  replace_values configs m =
      let next = record m { configs = configs; armed = none } in (next, update_if next)

  unfoldable pub hold_initialization : Connection F → Connection F
  hold_initialization m = record m { armed = some hold }

  -- `_HeldAttempt.settle`: the first outcome stays
  settle : ℕ → Outcome → Connection F → Connection F
  settle attempt outcome m =
      if Dict.has attempt m.settled
      then m
      else record m { settled = Dict.set attempt outcome m.settled }

  settle_held : Option ℕ → Outcome → Connection F → Connection F
  unfolding settle
  settle_held none outcome m = m
  settle_held (some attempt) outcome m = settle attempt outcome m

  -- `complete_initialization`
  unfoldable pub complete_initialization : Connection F → Connection F × Option (ConfigBundle F)
  unfolding settle full_update disarm_hold
  complete_initialization m = elim m.held [
    | none ↦ (record m { armed = disarm_hold m.armed }, none)
    | some attempt ↦ (
      settle attempt completed (record m { held = none; connected = true }),
      some (full_update m),
    )
  ]

  -- `fail_initialization`
  unfoldable pub fail_initialization : Connection F → Connection F
  unfolding settle
  fail_initialization m = elim m.held [
    | none ↦ record m { armed = some failure }
    | some attempt ↦ settle attempt failed (record m { held = none })
  ]

  pick_up : Option Armed → Connection F → Connection F × Picked F
  unfolding full_update
  pick_up (some failure) m = (m, fatal)
  pick_up (some hold) m = (
    record m { held = some m.next_attempt; next_attempt = m.next_attempt + 1 },
    awaiting m.next_attempt,
  )
  pick_up none m = (record m { connected = true }, deliver (full_update m))

  -- `_connect` up to the delivery or the wait
  unfoldable pub connect : Connection F → Connection F × Picked F
  unfolding settle_held pick_up
  connect m =
      pick_up m.armed
        (settle_held m.held ended (record m { connected = false; held = none; armed = none }))

  -- `_end`
  unfoldable pub end_attempt : ℕ → Connection F → Connection F
  unfolding settle
  end_attempt attempt m = elim m.held [
    | none ↦ m
    | some current ↦
        if current == attempt then settle attempt ended (record m { held = none }) else m
  ]

  -- `_close_transport`
  unfoldable pub close_transport : Connection F → Connection F
  unfolding settle_held
  close_transport m = settle_held m.held ended (record m { connected = false; held = none })
