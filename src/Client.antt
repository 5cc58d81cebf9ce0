-- ===== src/Client.antt =====
-- The state of `_ConfigDirectorClient` in configdirector-server-sdk/src/configdirector/client.py and
-- the operations that change it under its lock, each one step. Handlers and callbacks are known by
-- number, as `==` tells them apart; what they do when they are called is outside.
pub mod Bundles
pub mod Watchers
pub mod Lifecycle
pub mod Numbering
pub mod Reads
pub mod Evaluation
pub mod Delivery
pub mod Options
use python_server_sdk.Base.{
  ◌≡◌, Bool, true, false, not, ◌&&◌, ◌||◌, Option, none, some, List, [], ◌∷◌, ◌++◌, ℕ, ◌+◌, Text,
  codes, text_eq, nat_eq, ◌==◌, contains, any, is_empty, sort_texts, Exc, ok, raised,
  validation_error, type_error, if◌then◌else◌,
}
use python_server_sdk.Base.Dict
use python_server_sdk.Base.Dict.{Dict, keys}
use python_server_sdk.Evaluation.Types.{
  Context, Condition, segment_condition, attribute_condition, Rule, conditional_rule,
  percentage_rule, Config, Segments,
}

pub data BundleKind : Type 0 where
  full delta : BundleKind

-- `ConfigBundle` of _bundle.py
pub record ConfigBundle (F : Type 0) : Type 0 where
  pub configs : Dict Text (Config F)
  pub segments : Segments
  pub kind : BundleKind
  pub unreadable_keys : List Text
  pub environment_id : Option Text
  pub project_id : Option Text
  pub timestamp : Option Text

-- `_Watcher`; `ident` is the object's identity, by which two equal watches stay distinct
pub record Watcher (V C : Type 0) : Type 0 where
  pub ident : ℕ
  pub handler : ℕ
  pub default : V
  pub context : Option C

pub data ClientEvent : Type 0 where
  client_ready configs_updated config_evaluated : ClientEvent

-- The attributes that the lock guards. `V` is the type of default values. `next_ident` numbers the
-- watchers that are created.
pub record Client (F V : Type 0) : Type 0 where
  pub ready : Bool
  pub closed : Bool
  pub configs : Option (Dict Text (Config F))
  pub segments : Segments
  pub watchers : Dict Text (List (Watcher V (Context F)))
  pub ready_handlers : List ℕ
  pub updated_handlers : List ℕ
  pub evaluated_handlers : List ℕ
  pub next_ident : ℕ

-- What `_on_bundle` hands on from under the lock: the payload of the event, the watchers to call
-- with their definitions, and whether the client became ready.
pub record Update (F V : Type 0) : Type 0 where
  pub updated_keys : List Text
  pub removed_keys : List Text
  pub watchers : Dict Text (List (Watcher V (Context F)))
  pub definitions : Dict Text (Option (Config F))
  pub segments : Segments
  pub first_bundle : Bool

condition_uses : Segments → Condition → Bool
condition_uses segments (segment_condition c) = Dict.has c.segment_id segments
condition_uses segments (attribute_condition c) = false

-- `if handler in handlers: handlers.remove(handler)`
pub remove_first : ℕ → List ℕ → List ℕ
remove_first handler [] = []
remove_first handler (h ∷ hs) = if h == handler then hs else h ∷ remove_first handler hs

module _ {W : Type 0} where
  -- The watchers of the keys that changed, snapshotted.
  pub affected : List Text → List Text → Dict Text (List W) → Dict Text (List W)
  affected updated removed [] = []
  affected updated removed ((key, entries) ∷ watchers) =
      let rest = affected updated removed watchers in
      if not (is_empty entries) && (contains updated key || contains removed key)
      then (key, entries) ∷ rest
      else rest

  -- `watchers.setdefault(key, []).append(watcher)`
  pub append_watcher : Text → W → Dict Text (List W) → Dict Text (List W)
  append_watcher key w watchers = elim (Dict.get key watchers) [
    | none ↦ Dict.set key (w ∷ []) watchers
    | some entries ↦ Dict.set key (entries ++ w ∷ []) watchers
  ]

  -- The list of a key, edited in place if there is one.
  pub edit_watchers : Text → (List W → List W) → Dict Text (List W) → Dict Text (List W)
  edit_watchers key edit watchers = elim (Dict.get key watchers) [
    | none ↦ watchers
    | some entries ↦ Dict.set key (edit entries) watchers
  ]

module _ {F W : Type 0} where
  definitions_of : Dict Text (Config F) → Dict Text (List W) → Dict Text (Option (Config F))
  definitions_of configs [] = []
  definitions_of configs ((key, entries) ∷ watchers) =
      (key, Dict.get key configs) ∷ definitions_of configs watchers

module _ {V C : Type 0} where
  pub remove_handled : ℕ → List (Watcher V C) → List (Watcher V C)
  remove_handled callback [] = []
  remove_handled callback (w ∷ entries) =
      if w.handler == callback then entries else w ∷ remove_handled callback entries

  pub remove_ident : ℕ → List (Watcher V C) → List (Watcher V C)
  remove_ident ident [] = []
  remove_ident ident (w ∷ entries) =
      if w.ident == ident then entries else w ∷ remove_ident ident entries

module _ {F : Type 0} where
  -- `previous is None` or its items
  abbrev pub items_of : Option (Dict Text (Config F)) → Dict Text (Config F)
  items_of none = []
  items_of (some configs) = configs

  -- The definitions of the keys that could not be read are kept.
  pub keep_unreadable :
      List Text → Dict Text (Config F) → Dict Text (Config F) → Dict Text (Config F)
  keep_unreadable [] previous configs = configs
  keep_unreadable (key ∷ rest) previous configs =
      keep_unreadable rest previous (elim (Dict.get key previous) [
        | none ↦ configs
        | some definition ↦ Dict.set key definition configs
      ])

  -- The configs after a bundle. The first bundle is a full one, whatever its kind.
  pub merged_configs : ConfigBundle F → Option (Dict Text (Config F)) → Dict Text (Config F)
  unfolding keep_unreadable
  merged_configs bundle none = bundle.configs
  merged_configs bundle (some previous) = elim bundle.kind [
    | full ↦ keep_unreadable bundle.unreadable_keys previous bundle.configs
    | delta ↦ Dict.update previous bundle.configs
  ]

  pub merged_segments : ConfigBundle F → Option (Dict Text (Config F)) → Segments → Segments
  merged_segments bundle none segments = bundle.segments
  merged_segments bundle (some previous) segments = elim bundle.kind [
    | full ↦ bundle.segments
    | delta ↦ Dict.update segments bundle.segments
  ]

  missing_keys : Dict Text (Config F) → Dict Text (Config F) → List Text
  missing_keys [] configs = []
  missing_keys ((key, definition) ∷ previous) configs =
      let rest = missing_keys previous configs in if Dict.has key configs then rest else key ∷ rest

  -- `removed_keys`, which only a full bundle over earlier configs has
  pub removed_by : ConfigBundle F → Option (Dict Text (Config F)) → List Text
  unfolding missing_keys
  removed_by bundle none = []
  removed_by bundle (some previous) = elim bundle.kind [
    | full ↦ sort_texts (missing_keys previous (merged_configs bundle (some previous)))
    | delta ↦ []
  ]

  rule_uses : Segments → Rule F → Bool
  unfolding condition_uses
  rule_uses segments (conditional_rule r) = any (condition_uses segments) r.conditions
  rule_uses segments (percentage_rule r) = false

  -- `_uses_any_segment`
  pub uses_any_segment : Config F → Segments → Bool
  unfolding rule_uses
  uses_any_segment definition segments = any (rule_uses segments) definition.target.rules

  -- The keys behind those of the bundle whose definitions use a segment of the bundle.
  touched_keys : ConfigBundle F → Dict Text (Config F) → List Text
  touched_keys bundle [] = []
  touched_keys bundle ((key, definition) ∷ configs) =
      let rest = touched_keys bundle configs in
      if uses_any_segment definition bundle.segments && not (Dict.has key bundle.configs)
      then key ∷ rest
      else rest

  -- `sorted(updated_keys)`
  pub updated_by : ConfigBundle F → Option (Dict Text (Config F)) → List Text
  unfolding touched_keys
  updated_by bundle previous =
      sort_texts (keys bundle.configs ++ touched_keys bundle (merged_configs bundle previous))

module _ {F V : Type 0} where
  -- `_on_bundle` under the lock; nothing is handed on if the client is closed.
  unfoldable pub apply_bundle : ConfigBundle F → Client F V → Client F V × Option (Update F V)
  unfolding affected definitions_of
  apply_bundle bundle c =
      let configs = merged_configs bundle c.configs in
      let segments = merged_segments bundle c.configs c.segments in
      let updated = updated_by bundle c.configs in
      let removed = removed_by bundle c.configs in
      let watchers = affected updated removed c.watchers in
      if c.closed then (c, none) else (
        record c { ready = true; configs = some configs; segments = segments },
        some (record {
          updated_keys = updated;
          removed_keys = removed;
          watchers = watchers;
          definitions = definitions_of configs watchers;
          segments = segments;
          first_bundle = not c.ready;
        }),
      )

  -- The lookup of `get_value`
  unfoldable pub definition_for : Text → Client F V → Option (Config F)
  definition_for key c = Dict.get key (items_of c.configs)

  -- `watch` once its arguments are validated, with the watcher that the subscription removes
  unfoldable pub watch :
      Text → V → ℕ → Option (Context F) → Client F V → Watcher V (Context F) × Client F V
  unfolding append_watcher
  watch key default callback context c =
      let w : Watcher V (Context F) = record {
        ident = c.next_ident;
        handler = callback;
        default = default;
        context = context;
      } in
      (w, record c { watchers = append_watcher key w c.watchers; next_ident = c.next_ident + 1 })

  unfoldable pub unwatch : Text → Option ℕ → Client F V → Client F V
  unfolding edit_watchers remove_handled
  unwatch key none c = record c { watchers = edit_watchers key (λ entries. []) c.watchers }
  unwatch key (some callback) c = record c {
    watchers = edit_watchers key (remove_handled callback) c.watchers;
  }

  unfoldable pub unwatch_all : Client F V → Client F V
  unwatch_all c = record c { watchers = [] }

  -- `_remove_watcher`
  unfoldable pub remove_watcher : Text → Watcher V (Context F) → Client F V → Client F V
  unfolding edit_watchers remove_ident
  remove_watcher key w c = record c {
    watchers = edit_watchers key (remove_ident w.ident) c.watchers;
  }

  unfoldable pub handlers : ClientEvent → Client F V → List ℕ
  handlers client_ready c = c.ready_handlers
  handlers configs_updated c = c.updated_handlers
  handlers config_evaluated c = c.evaluated_handlers

  with_handlers : ClientEvent → List ℕ → Client F V → Client F V
  with_handlers client_ready hs c = record c { ready_handlers = hs }
  with_handlers configs_updated hs c = record c { updated_handlers = hs }
  with_handlers config_evaluated hs c = record c { evaluated_handlers = hs }

  -- `on` once its arguments are validated
  unfoldable pub on : ClientEvent → ℕ → Client F V → Client F V
  unfolding with_handlers handlers
  on event handler c = with_handlers event (handlers event c ++ handler ∷ []) c

  -- `off`, and with a handler also `_remove_handler`
  unfoldable pub off : ClientEvent → Option ℕ → Client F V → Client F V
  unfolding with_handlers handlers remove_first
  off event none c = with_handlers event [] c
  off event (some handler) c = with_handlers event (remove_first handler (handlers event c)) c

  -- `close` under the lock
  unfoldable pub close : Client F V → Client F V
  close c = if c.closed then c else record c {
    closed = true;
    ready = false;
    watchers = [];
    ready_handlers = [];
    updated_handlers = [];
    evaluated_handlers = [];
  }

  unfoldable pub new : Client F V
  new = record {
    ready = false;
    closed = false;
    configs = none;
    segments = [];
    watchers = [];
    ready_handlers = [];
    updated_handlers = [];
    evaluated_handlers = [];
    next_ident = 0;
  }
