-- ===== src/Tests/InMemory.antt =====
-- A client under a connection that holds one config.
use python_server_sdk.Base.{
  ◌≢◌, refl, true, false, some, none, [], ◌∷◌, ℕ, Text, codes, text_eq, arith,
}
use python_server_sdk.Base.Dict
use python_server_sdk.Base.Json.{null}
use python_server_sdk.Evaluation.Types.{Config}
use python_server_sdk.Client.{Client, definition_for}
use python_server_sdk.InMemory.{Connection, set_value, replace_values}
use python_server_sdk.InMemory.Mirror.{
  Mirrors, deliver_if_any, set_value-Mirrors, replace_values-Mirrors,
}

abbrev held_config : Text → Config ℕ
held_config name = record {
  id = name;
  key = name;
  type = null;
  variations = [];
  type_constraints = none;
  target = record { default_value = name; rules = []; default_value_id = none };
}

abbrev connection : Connection ℕ
connection = record {
  configs = (codes "a", held_config (codes "1")) ∷ [];
  armed = none;
  held = none;
  connected = true;
  settled = [];
  next_attempt = 0;
}

abbrev client : Client ℕ ℕ
client = record {
  ready = true;
  closed = false;
  configs = some connection.configs;
  segments = [];
  watchers = [];
  ready_handlers = [];
  updated_handlers = [];
  evaluated_handlers = [];
  next_ident = 0;
}

client-Mirrors : Mirrors connection client
unfolding definition_for
client-Mirrors = record { same = λ key. refl }

client-configured : client.configs ≢ none
client-configured e = ground (arith, e)

set_value-Mirrors_example :
    Mirrors
      (set_value (codes "b") (held_config (codes "2")) connection).0
      (deliver_if_any (set_value (codes "b") (held_config (codes "2")) connection).1 client)
set_value-Mirrors_example =
    set_value-Mirrors (codes "b") (held_config (codes "2")) connection client refl refl
      client-configured client-Mirrors

replace_values-Mirrors_example :
    Mirrors (replace_values ((codes "c", held_config (codes "3")) ∷ []) connection).0 (
      deliver_if_any
        (replace_values ((codes "c", held_config (codes "3")) ∷ []) connection).1
        client)
unfolding Dict.has
replace_values-Mirrors_example =
    replace_values-Mirrors ((codes "c", held_config (codes "3")) ∷ []) connection client refl refl
      (refl, tt)
