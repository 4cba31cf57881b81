-- ===== src/Store/Handle.antt =====
-- internal/store/store.go: handles on named stores, over the two providers that a request sees (the
-- shared one and its own request store), and internal/store/request_store.go.
use imposter_go.Common.{String, Option, some, ◌==◌, if◌then◌else◌}
use imposter_go.Common.Int.{ℤ}
use imposter_go.Common.Map.{Map}
use imposter_go.Common.Value.{Value}
use imposter_go.Store.{
  Env, InMemoryStoreProvider, init_stores, get_value, store_value, get_all_values, delete_value,
  delete_store, atomic_increment, atomic_decrement,
}

-- Which provider a handle points to: the global `storeProvider`, or the provider that
-- NewRequestStore makes for one request.
pub data Provider : Type 0 where
  shared request : Provider

pub record Store : Type 0 where
  pub name : String
  pub provider : Provider

pub record Stores : Type 0 where
  pub shared_provider : InMemoryStoreProvider
  pub request_provider : InMemoryStoreProvider

-- NewRequestStore, and the stores at the start of a request.
abbrev pub new_request_store : Store
new_request_store = record { name = "request"; provider = request }

abbrev pub begin_request : Stores → Stores
begin_request w = record w { request_provider = init_stores }

-- Open: the store named "request" is the one that is given, which may be nil.
unfoldable pub open_store : String → Option Store → Option Store
open_store store_name request_store =
    if store_name == "request"
    then request_store
    else some (record { name = store_name; provider = shared })

abbrev pub provider_of : Provider → Stores → InMemoryStoreProvider
provider_of shared w = w.shared_provider
provider_of request w = w.request_provider

abbrev pub with_provider : Provider → InMemoryStoreProvider → Stores → Stores
with_provider shared p w = record w { shared_provider = p }
with_provider request p w = record w { request_provider = p }

-- The methods of a handle.
module _ (env : Env) (s : Store) where
  unfoldable pub get : String → Stores → Option Value × Stores
  get key w =
      let (found, p) = get_value env s.name key (provider_of s.provider w) in
      (found, with_provider s.provider p w)

  unfoldable pub put : String → Value → Stores → Stores
  put key value w =
      with_provider s.provider (store_value env s.name key value (provider_of s.provider w)) w

  unfoldable pub get_all : String → Stores → Map Value × Stores
  get_all key_prefix w =
      let (found, p) = get_all_values env s.name key_prefix (provider_of s.provider w) in
      (found, with_provider s.provider p w)

  unfoldable pub delete : String → Stores → Stores
  delete key w = with_provider s.provider (delete_value env s.name key (provider_of s.provider w)) w

  unfoldable pub increment : String → ℤ → Stores → ℤ × Stores
  increment key delta w =
      let (new, p) = atomic_increment env s.name key delta (provider_of s.provider w) in
      (new, with_provider s.provider p w)

  unfoldable pub decrement : String → ℤ → Stores → ℤ × Stores
  decrement key delta w =
      let (new, p) = atomic_decrement env s.name key delta (provider_of s.provider w) in
      (new, with_provider s.provider p w)

-- DeleteStore of the package, on the global provider.
unfoldable pub delete_all : String → Stores → Stores
delete_all store_name w = record w { shared_provider = delete_store store_name w.shared_provider }
