-- ===== src/Store/Preload/Tests.antt =====
-- A store with a file and inline data.
use imposter_go.Common.{String, ◌≡◌, refl, true, Option, some, none, [], ◌∷◌}
use imposter_go.Common.Map.{Map, lookup}
use imposter_go.Common.Text.{has_prefix, join, split}
use imposter_go.Path.{validate_path, clean, reversed, clean_parts, push, join_path}
use imposter_go.Common.Value.{Value, string}
use imposter_go.Config.{Config}
use imposter_go.Store.{Env, init_stores, get_value, ensure_store, is_expired}
use imposter_go.Store.Handle.{Stores, open_store}
use imposter_go.Store.Preload.{
  preload_stores, preload_definitions, preload_store, preload_from_file, put_items,
  preload_from_inline,
}
use imposter_go.Store.Preload.Items.{NoneExpired, reading}
use imposter_go.Store.Preload.Laws.{after_configs, preload_stores-reading}

abbrev env : Env
env = record { store_key_prefix = ""; store_inmemory_ttl = ""; now = 100 }

abbrev file : String → Option (Map Value)
file path = some (("alice", string "from the file") ∷ ("bob", string "b") ∷ [])

abbrev users : Config
users = record {
  plugin = "rest";
  resources = [];
  interceptors = [];
  schedules = [];
  upstreams = [];
  system = some (record {
    stores =
        (
          "users",
          record { preload_file = "users.json"; preload_values = ("alice", string "a") ∷ [] },
        )
        ∷ [];
    xml_namespaces = [];
  });
  security = none;
  cors = none;
  config_dir = "/etc/imposter";
}

abbrev nothing : Stores
nothing = record { shared_provider = init_stores; request_provider = init_stores }

abbrev preloaded : Stores
preloaded = elim (preload_stores env file "/etc/imposter" (users ∷ []) nothing) [
  | none ↦ nothing
  | some r ↦ r.0
]

unexpired : NoneExpired env nothing
unfolding is_expired ensure_store lookup
unexpired name key = refl

succeeds : preload_stores env file "/etc/imposter" (users ∷ []) nothing ≡ some (preloaded, true)
unfolding preload_stores preload_definitions preload_store validate_path has_prefix clean join
    reversed clean_parts split push join_path preload_from_file put_items open_store
    preload_from_inline
succeeds = refl

preload_stores-reading_example :
    (get_value env "users" "alice" preloaded.shared_provider).0
    ≡ after_configs env file "/etc/imposter" (users ∷ []) (reading env nothing) "users" "alice"
preload_stores-reading_example =
    preload_stores-reading env file "/etc/imposter" (users ∷ []) nothing preloaded unexpired
      succeeds "users" "alice"
