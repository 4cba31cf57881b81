-- ===== src/Store/Preload.antt =====
-- PreloadStores of internal/store/store.go, on the in-memory provider. None is a panic: the store named
-- "request" is nil here.
pub mod Items
pub mod Laws
mod Tests
use imposter_go.Common.{
  String, Bool, true, false, Option, none, some, List, [], ◌∷◌, ◌==◌, if◌then◌else◌,
}
use imposter_go.Common.Map.{Map}
use imposter_go.Common.Maybe.{◌>>=◌}
use imposter_go.Common.Value.{Value}
use imposter_go.Config.{Config, System, StoreDefinition}
use imposter_go.Path.{validate_path}
use imposter_go.Store.{Env}
use imposter_go.Store.Handle.{Stores, open_store, put}

-- `read_json` is os.ReadFile with json.Unmarshal, none where either fails.
module _ (env : Env) (read_json : String → Option (Map Value)) (config_dir : String) where
  -- store := Open(storeName, nil), and the loop over the items.
  unfoldable pub put_items : String → Map Value → Stores → Option Stores
  put_items name [] w = some w
  put_items name ((k, v) ∷ items) w = do
    s ← open_store name none
    put_items name items (put env s k v w)

  -- preloadFromFile
  unfoldable pub preload_from_file : String → String → Stores → Option Stores
  preload_from_file name path w = elim (read_json path) [
    | none ↦ some w
    | some items ↦ put_items name items w
  ]

  -- preloadFromInline, which nothing follows.
  unfoldable pub preload_from_inline : String → Map Value → Stores → Option (Stores × Bool)
  preload_from_inline name values w = do w' ← put_items name values w; some (w', true)

  -- A store, and whether it has no error.
  unfoldable pub preload_store : String → StoreDefinition → Stores → Option (Stores × Bool)
  preload_store name definition w =
      if definition.preload_file == ""
      then preload_from_inline name definition.preload_values w
      else elim (validate_path definition.preload_file config_dir) [
        | none ↦ some (w, false)
        | some path ↦ do
          w' ← preload_from_file name path w
          preload_from_inline name definition.preload_values w'
      ]

  abbrev and_go_on : (Stores → Option (Stores × Bool)) → Stores × Bool → Option (Stores × Bool)
  and_go_on next (w, true) = next w
  and_go_on next (w, false) = some (w, false)

  unfoldable pub preload_definitions : Map StoreDefinition → Stores → Option (Stores × Bool)
  preload_definitions [] w = some (w, true)
  preload_definitions ((name, definition) ∷ more) w = do
    preloaded ← preload_store name definition w
    and_go_on (preload_definitions more) preloaded

  abbrev pub stores_of : Option System → Map StoreDefinition
  stores_of none = []
  stores_of (some s) = s.stores

  -- PreloadStores, and whether it returns without an error.
  unfoldable pub preload_stores : List Config → Stores → Option (Stores × Bool)
  preload_stores [] w = some (w, true)
  preload_stores (cfg ∷ more) w = do
    preloaded ← preload_definitions (stores_of cfg.system) w
    and_go_on (preload_stores more) preloaded
