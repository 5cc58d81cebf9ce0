-- ===== src/Client/Reads.antt =====
-- What `get_all_configs` and the context check of configdirector-server-sdk/src/configdirector/client.py
-- read of the client's state.
use python_server_sdk.Base.{
  ℕ, Option-cases, inl, inr, ◌≡◌, refl, ◌&&◌, ◌||◌, false, leb, nat_eq, length, all, codes, Bool,
  true, Option, none, some, List, [], ◌∷◌, Text, text_eq, contains, if◌then◌else◌, arith,
}
use python_server_sdk.Base.Dict
use python_server_sdk.Base.Dict.{Dict}
use python_server_sdk.Base.Python.{Python}
use python_server_sdk.Evaluation.Types.{
  Context, Metadata, EvaluationContext, Config, ConfigState, Segments,
}
use python_server_sdk.Evaluation.Condition.{is_valid_kind, kind_sample}
use python_server_sdk.Evaluation.Config.{evaluate}
use python_server_sdk.Client.{Client, items_of, definition_for}

-- `_context_to_evaluate`: the context, or no context and the sample that is recorded.
unfoldable pub context_to_evaluate :
    {F : Type 0} → Option (Context F) → Option (Context F) × Option Text
unfolding is_valid_kind
context_to_evaluate none = (none, none)
context_to_evaluate (some context) = elim context.kind [
  | none ↦ (some context, none)
  | some kind ↦ if is_valid_kind kind then (some context, none) else (none, some (kind_sample kind))
]

-- `config_keys is None` or the key is among them
pub requested : Option (List Text) → Text → Bool
requested none key = true
requested (some ks) key = contains ks key

-- A kind by the code points of its characters: 1 to 64 of a to z, 0 to 9, - and _.
abbrev pub may_stand : ℕ → Bool
may_stand c = leb 97 c && leb c 122 || leb 48 c && leb c 57 || nat_eq.same c 45 || nat_eq.same c 95

unfoldable pub is_kind : Text → Bool
is_kind [] = false
is_kind (c ∷ kind) = leb (length kind) 63 && all may_stand (c ∷ kind)

-- The context that counts: it is dropped exactly if it has a kind and that is none.
unfoldable pub counting_context : {F : Type 0} → Option (Context F) → Option (Context F)
unfolding is_kind
counting_context none = none
counting_context (some context) = elim context.kind [
  | none ↦ some context
  | some kind ↦ if is_kind kind then some context else none
]

kind_character : (c : ℕ) → contains (codes "abcdefghijklmnopqrstuvwxyz0123456789-_") c ≡ may_stand c
kind_character c = ground arith

all-kind_character :
    (kind : Text)
    → all (contains (codes "abcdefghijklmnopqrstuvwxyz0123456789-_")) kind ≡ all may_stand kind
all-kind_character [] = refl
all-kind_character (c ∷ kind) = rw (kind_character c, all-kind_character kind) refl

is_valid_kind-is_kind : (kind : Text) → is_valid_kind kind ≡ is_kind kind
unfolding is_valid_kind is_kind
is_valid_kind-is_kind [] = refl
is_valid_kind-is_kind (c ∷ kind) = rw (kind_character c, all-kind_character kind) (ground arith)

context_to_evaluate-counting :
    {F : Type 0} (context : Option (Context F))
    → (context_to_evaluate context).0 ≡ counting_context context
unfolding context_to_evaluate counting_context
context_to_evaluate-counting none = refl
context_to_evaluate-counting (some context) = elim (Option-cases context.kind) [
  | inl h ↦ ground (arith, h)
  | inr (kind, h) ↦ ground (arith, h, is_valid_kind-is_kind kind)
]

module _ (py : Python) where
  open py use {Float}

  evaluate_all :
      Option (List Text)
      → EvaluationContext Float
      → Segments
      → Dict Text (Config Float)
      → Dict Text (ConfigState Float)
  unfolding requested
  evaluate_all ks context segments [] = []
  evaluate_all ks context segments ((key, config) ∷ configs) =
      let rest = evaluate_all ks context segments configs in
      if requested ks key
      then (key, evaluate py config (some context) (some segments)) ∷ rest
      else rest

  unfoldable pub get_all_configs :
      {V : Type 0}
      → Option (Context Float)
      → Option (List Text)
      → Option Metadata
      → Client Float V
      → Dict Text (ConfigState Float)
  unfolding evaluate_all context_to_evaluate
  get_all_configs context ks metadata c =
      let evaluation_context : EvaluationContext Float = record {
        context = (context_to_evaluate context).0;
        metadata = metadata;
      } in
      if c.ready then evaluate_all ks evaluation_context c.segments (items_of c.configs) else []

  -- The state of a definition, if there is one.
  pub state_of :
      EvaluationContext Float → Segments → Option (Config Float) → Option (ConfigState Float)
  state_of context segments none = none
  state_of context segments (some config) = some (evaluate py config (some context) (some segments))

  get-evaluate_all :
      (ks : Option (List Text)) (context : EvaluationContext Float) (segments : Segments)
      (configs : Dict Text (Config Float)) (key : Text)
      → Dict.get key (evaluate_all ks context segments configs)
        ≡ (if requested ks key then state_of context segments (Dict.get key configs) else none)
  unfolding evaluate_all Dict.get state_of
  get-evaluate_all ks context segments [] key = ground arith
  get-evaluate_all ks context segments ((k, config) ∷ configs) key =
      ground (arith, get-evaluate_all ks context segments configs key, text_eq.same_iff k key)

  -- A ready client has, in the answer of `get_all_configs`, for each key that is requested exactly
  -- the evaluation of the definition that it serves for the key, and no other key. The context is
  -- left out of the evaluation exactly if it has a kind that is not 1 to 64 of the characters a to
  -- z, 0 to 9, - and _.
  pub get-get_all_configs :
      {V : Type 0} (context : Option (Context Float)) (ks : Option (List Text))
      (metadata : Option Metadata) (c : Client Float V) (key : Text)
      → c.ready ≡ true
      → Dict.get key (get_all_configs context ks metadata c) ≡ (
          if requested ks key
          then state_of
              (record { context = counting_context context; metadata = metadata })
              c.segments
              (definition_for key c)
          else none)
  unfolding get_all_configs definition_for
  get-get_all_configs context ks metadata c key h =
      rw (h, ← context_to_evaluate-counting context)
        (get-evaluate_all ks
          (record { context = (context_to_evaluate context).0; metadata = metadata }) c.segments
          (items_of c.configs) key)
