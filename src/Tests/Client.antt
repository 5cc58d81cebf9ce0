-- ===== src/Tests/Client.antt =====
-- The client's state on concrete bundles, watchers and handlers.
use python_server_sdk.Base.{
  ◌≡◌, refl, true, not, ◌&&◌, some, none, [], ◌∷◌, ℕ, Text, codes, text_eq, ◌==◌, contains,
  if◌then◌else◌,
}
use python_server_sdk.Base.Dict
use python_server_sdk.Base.Dict.{Dict}
use python_server_sdk.Evaluation.Types.{Config}
use python_server_sdk.Client.{
  full, ConfigBundle, Client, merged_configs, removed_by, apply_bundle, definition_for, watch,
  remove_watcher, on, close, new, client_ready,
}
use python_server_sdk.Base.Json.{scalar, text}
use python_server_sdk.Evaluation.Types.{EvaluationContext}
use python_server_sdk.Client.Reads.{
  counting_context, requested, get_all_configs, state_of, get-get_all_configs,
}
use python_server_sdk.Tests.Evaluation.{toy}
use python_server_sdk.Client.Bundles
use python_server_sdk.Client.Bundles.{expected}
use python_server_sdk.Client.Watchers.{IsNumbered, entries_of, remove_watcher-watch}
use python_server_sdk.Client.Numbering.{Reach-IsNumbered}
use python_server_sdk.Client.Lifecycle.{
  Reach, here, next, close_step, bundle_step, on_step, watch_step, IsConsistent, StaysClosed,
  Reach-IsConsistent, Reach-StaysClosed,
}

abbrev plain_config : Text → Config ℕ
plain_config name = record {
  id = name;
  key = name;
  type = scalar (text (codes "boolean"));
  target = record { default_value = codes "true"; rules = []; default_value_id = none };
  variations = [];
  type_constraints = none;
}

abbrev first_bundle : ConfigBundle ℕ
first_bundle = record {
  configs = (codes "a", plain_config (codes "1")) ∷ (codes "b", plain_config (codes "2")) ∷ [];
  segments = [];
  kind = full;
  unreadable_keys = [];
  environment_id = none;
  project_id = none;
  timestamp = none;
}

-- `a` cannot be read any more, and `b` is gone.
abbrev second_bundle : ConfigBundle ℕ
second_bundle = record {
  configs = (codes "c", plain_config (codes "3")) ∷ [];
  segments = [];
  kind = full;
  unreadable_keys = codes "a" ∷ [];
  environment_id = none;
  project_id = none;
  timestamp = none;
}

abbrev serving : Client ℕ ℕ
serving = record new { configs = some first_bundle.configs; ready = true }

-- After both bundles, `a` keeps its first definition.
definition_for-apply_bundle_example :
    definition_for (codes "a") (apply_bundle second_bundle serving).0
    ≡ expected second_bundle (some first_bundle.configs) (codes "a")
unfolding new Dict.has
definition_for-apply_bundle_example =
    Bundles.definition_for-apply_bundle second_bundle serving (codes "a") refl (refl, tt)

contains-removed_by_example :
    contains (removed_by second_bundle (some first_bundle.configs)) (codes "b") ≡ (
      Dict.has (codes "b") first_bundle.configs
      && not (Dict.has (codes "b") (merged_configs second_bundle (some first_bundle.configs))))
contains-removed_by_example =
    Bundles.contains-removed_by second_bundle first_bundle.configs (codes "b") refl

apply_bundle-closed_example :
    apply_bundle {V = ℕ} first_bundle (record new { closed = true })
    ≡ (record new { closed = true }, none)
apply_bundle-closed_example =
    Bundles.apply_bundle-closed first_bundle (record new { closed = true }) refl

-- A client with one watch of `a`, a handler and a bundle.
abbrev watched : Client ℕ ℕ
watched = (watch (codes "a") 0 7 none new).1

watched-Reach : Reach new watched
watched-Reach = next here (watch_step (codes "a") 0 7 none)

watched-IsNumbered : IsNumbered watched
watched-IsNumbered = Reach-IsNumbered (next here (watch_step (codes "a") 0 7 none))

remove_watcher-watch_example :
    Dict.get
      (codes "a")
      (remove_watcher
        (codes "a")
        (watch (codes "a") 5 9 none watched).0
        (watch (codes "a") 5 9 none watched).1).watchers
    ≡ (if codes "a" == codes "a"
        then some (entries_of (Dict.get (codes "a") watched.watchers))
        else Dict.get (codes "a") watched.watchers)
remove_watcher-watch_example =
    remove_watcher-watch (codes "a") (codes "a") 5 9 none watched watched-IsNumbered

abbrev closed_client : Client ℕ ℕ
closed_client = close (apply_bundle first_bundle watched).0

closed_client-Reach : Reach new closed_client
closed_client-Reach = next (next watched-Reach (bundle_step first_bundle)) close_step

Reach-IsConsistent_example : IsConsistent closed_client
Reach-IsConsistent_example = Reach-IsConsistent closed_client-Reach

abbrev later : Client ℕ ℕ
later = on client_ready 4 (apply_bundle second_bundle closed_client).0

later-Reach : Reach closed_client later
later-Reach = next (next here (bundle_step second_bundle)) (on_step client_ready 4)

closed_client-closed : closed_client.closed ≡ true
unfolding close apply_bundle watch new
closed_client-closed = refl

Reach-StaysClosed_example : StaysClosed closed_client later
Reach-StaysClosed_example = Reach-StaysClosed later-Reach closed_client-closed

abbrev nobody : EvaluationContext ℕ
nobody = record { context = counting_context {F = ℕ} none; metadata = none }

get-get_all_configs_example : Dict.get (codes "a") (get_all_configs toy none none none serving) ≡ (
    if requested none (codes "a")
    then state_of toy nobody serving.segments (definition_for (codes "a") serving)
    else none)
unfolding new
get-get_all_configs_example = get-get_all_configs toy none none none serving (codes "a") refl
