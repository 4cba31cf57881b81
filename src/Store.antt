-- ===== src/Store.antt =====
-- internal/store/inmemory_store.go and the key prefix of internal/store/store.go: the in-memory
-- provider as a record that each operation returns anew. The mutex makes an operation atomic, so it
-- is one function; the clock is read once in each.
pub mod Handle
pub mod View
pub mod Expiry
pub mod Counter
pub mod Listing
pub mod Invariant
pub mod Preload
mod Tests
use imposter_go.Common.{
  ℕ, ◌+◌, String, Bool, false, Option, none, some, [], ◌∷◌, ◌==◌, ltb, if◌then◌else◌,
}
use imposter_go.Common.Int.{ℤ, pos, negsuc, ◌+ℤ◌, neg, scale, wrap64, pos_part, ltb_ℤ, eqb_ℤ}
use imposter_go.Common.Map.{Map, lookup, insert, erase}
use imposter_go.Common.Text.{concat, has_prefix, trim_prefix}
use imposter_go.Common.Text.Number.{parse_int}
use imposter_go.Common.Value.{Value, int, int64, float64}

-- What the operations read from outside: two environment variables ("" when unset) and the clock,
-- in nanoseconds.
pub record Env : Type 0 where
  pub store_key_prefix : String
  pub store_inmemory_ttl : String
  pub now : ℕ

pub record StoreData : Type 0 where
  pub values : Map Value
  pub expiry_times : Map ℕ

pub record InMemoryStoreProvider : Type 0 where
  pub stores : Map StoreData

abbrev pub empty_store : StoreData
empty_store = record { values = []; expiry_times = [] }

abbrev pub init_stores : InMemoryStoreProvider
init_stores = record { stores = [] }

-- What precedes every key: nothing, or the prefix and a dot.
abbrev pub global_prefix : String → String
global_prefix prefix = if prefix == "" then "" else concat prefix "."

unfoldable pub apply_key_prefix : String → String → String
apply_key_prefix prefix key = if prefix == "" then key else concat (concat prefix ".") key

unfoldable pub remove_key_prefix : String → String → String
remove_key_prefix prefix key = if prefix == "" then key else trim_prefix key (concat prefix ".")

abbrev pub nanoseconds : ℕ
nanoseconds = 1_000_000_000

-- A duration in nanoseconds, an int64; -1 where none is configured.
unfoldable pub get_inmemory_ttl : Env → ℤ
get_inmemory_ttl env =
    if env.store_inmemory_ttl == "" then negsuc 0 else elim (parse_int env.store_inmemory_ttl) [
      | none ↦ negsuc 0
      | some ttl ↦ wrap64 (scale ttl nanoseconds)
    ]

-- expiry, hasExpiry := store.expiryTimes[key]; hasExpiry && time.Now().After(expiry)
unfoldable pub is_expired : Env → String → StoreData → Bool
is_expired env key s = elim (lookup key s.expiry_times) [
  | none ↦ false
  | some expiry ↦ ltb expiry env.now
]

unfoldable pub drop_key : String → StoreData → StoreData
drop_key key s = record { values = erase key s.values; expiry_times = erase key s.expiry_times }

-- The store of a name, made where it is missing.
unfoldable pub ensure_store : String → InMemoryStoreProvider → StoreData
ensure_store name p = elim (lookup name p.stores) [ none ↦ empty_store | some s ↦ s ]

abbrev pub with_store : String → StoreData → InMemoryStoreProvider → InMemoryStoreProvider
with_store name s p = record { stores = insert name s p.stores }

-- The expiry of a key, where a TTL is configured.
unfoldable pub set_expiry : Env → String → Map ℕ → Map ℕ
set_expiry env key times =
    let ttl = get_inmemory_ttl env in
    if ltb_ℤ (pos 0) ttl then insert key (env.now + pos_part ttl) times else times

unfoldable pub get_in : Env → String → StoreData → Option Value × StoreData
get_in env key s = if is_expired env key s then (none, drop_key key s) else (lookup key s.values, s)

unfoldable pub get_value :
    Env → String → String → InMemoryStoreProvider → Option Value × InMemoryStoreProvider
get_value env name key p = elim (lookup name p.stores) [
  | none ↦ (none, p)
  | some s ↦
      let (found, s') = get_in env (apply_key_prefix env.store_key_prefix key) s in
      (found, with_store name s' p)
]

unfoldable pub store_value :
    Env → String → String → Value → InMemoryStoreProvider → InMemoryStoreProvider
store_value env name key value p =
    let s = ensure_store name p in
    let full = apply_key_prefix env.store_key_prefix key in
    with_store name
      (record {
        values = insert full value s.values;
        expiry_times = set_expiry env full s.expiry_times;
      })
      p

-- The loop of GetAllValues: the live entries that have the prefix, under their own keys.
unfoldable pub collect : Env → String → StoreData → Map Value → Map Value
collect env prefix s [] = []
collect env prefix s ((k, v) ∷ rest) =
    let result = collect env prefix s rest in
    if is_expired env k s
    then result
    else if has_prefix k prefix
    then insert (remove_key_prefix env.store_key_prefix k) v result
    else result

-- The clean-up after the loop: what had expired is deleted.
unfoldable pub sweep : Env → StoreData → Map Value → StoreData → StoreData
sweep env s [] kept = kept
sweep env s ((k, v) ∷ rest) kept =
    sweep env s rest (if is_expired env k s then drop_key k kept else kept)

unfoldable pub get_all_values :
    Env → String → String → InMemoryStoreProvider → Map Value × InMemoryStoreProvider
get_all_values env name key_prefix p = elim (lookup name p.stores) [
  | none ↦ ([], p)
  | some s ↦ (
    collect env (apply_key_prefix env.store_key_prefix key_prefix) s s.values,
    with_store name (sweep env s s.values s) p,
  )
]

unfoldable pub delete_value : Env → String → String → InMemoryStoreProvider → InMemoryStoreProvider
delete_value env name key p = elim (lookup name p.stores) [
  | none ↦ p
  | some s ↦ with_store name (drop_key (apply_key_prefix env.store_key_prefix key) s) p
]

unfoldable pub delete_store : String → InMemoryStoreProvider → InMemoryStoreProvider
delete_store name p = record { stores = erase name p.stores }

-- The current value as an int64: 0 where there is none or it is no number.
unfoldable pub as_number : Option Value → ℤ
as_number none = pos 0
as_number (some (int64 v)) = v
as_number (some (int v)) = v
as_number (some (float64 whole rest)) = whole
as_number (some _) = pos 0

unfoldable pub drop_expired : Env → String → StoreData → StoreData
drop_expired env key s = if is_expired env key s then drop_key key s else s

-- The increment of a store in which the key is not expired.
unfoldable pub add_to : Env → String → ℤ → StoreData → ℤ × StoreData
add_to env key delta s =
    let current = as_number (lookup key s.values) in
    let new = wrap64 (current +ℤ delta) in
    (
      new,
      record {
        values = insert key (int64 new) s.values;
        expiry_times =
            if eqb_ℤ current (pos 0) then set_expiry env key s.expiry_times else s.expiry_times;
      },
    )

-- The error that the interface allows is never returned by this provider.
unfoldable pub atomic_increment :
    Env → String → String → ℤ → InMemoryStoreProvider → ℤ × InMemoryStoreProvider
atomic_increment env name key delta p =
    let full = apply_key_prefix env.store_key_prefix key in
    let (new, s) = add_to env full delta (drop_expired env full (ensure_store name p)) in
    (new, with_store name s p)

unfoldable pub atomic_decrement :
    Env → String → String → ℤ → InMemoryStoreProvider → ℤ × InMemoryStoreProvider
atomic_decrement env name key delta p = atomic_increment env name key (neg delta) p
