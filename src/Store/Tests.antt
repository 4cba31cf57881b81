-- ===== src/Store/Tests.antt =====
-- Runs of the in-memory store on concrete stores.
use imposter_go.Common.{◌≡◌, refl, none, some, List, [], ◌∷◌, arith}
use imposter_go.Common.Int.{pos, wrap64, scale, IsInt64, ◌<ℤ◌, ◌≤ℤ◌}
use imposter_go.Common.Map.{lookup, insert}
use imposter_go.Common.Text.Number.{parse_int}
use imposter_go.Common.Value.{string, int64}
use imposter_go.Store.{
  Env, InMemoryStoreProvider, get_value, store_value, atomic_increment, atomic_decrement,
  get_inmemory_ttl, as_number, ensure_store, apply_key_prefix, init_stores, get_in, set_expiry,
  is_expired,
}
use imposter_go.Store.Counter.{atomic_decrement-atomic_increment}
use imposter_go.Store.Invariant.{
  IsConsistent, run, run-IsConsistent, init_stores-IsConsistent, Operation,
}
use imposter_go.Store.Invariant

-- A store without a TTL, one with a TTL of ten seconds, and a key prefix.
abbrev forever : Env
forever = record { store_key_prefix = ""; store_inmemory_ttl = ""; now = 100 }

abbrev ten_seconds : Env
ten_seconds = record { store_key_prefix = "app"; store_inmemory_ttl = "10"; now = 100 }

abbrev one_value : InMemoryStoreProvider
one_value = store_value forever "users" "alice" (string "a") init_stores

ttl_positive : pos 0 <ℤ get_inmemory_ttl ten_seconds
unfolding get_inmemory_ttl parse_int wrap64 scale
ttl_positive = omega arith

ttl_none : get_inmemory_ttl forever ≤ℤ pos 0
unfolding get_inmemory_ttl
ttl_none = omega arith

nothing_expires :
    lookup
      (apply_key_prefix forever.store_key_prefix "bob")
      (ensure_store "users" init_stores).expiry_times
    ≡ none
unfolding ensure_store lookup apply_key_prefix
nothing_expires = refl

no_number : IsInt64 (as_number (get_value forever "users" "hits" init_stores).0)
unfolding get_value as_number lookup
no_number = (omega arith, omega arith)

atomic_decrement-atomic_increment_example :
    let counted = (atomic_increment forever "users" "hits" (pos 1) init_stores).1 in
    let result = atomic_decrement forever "users" "hits" (pos 1) counted in
    (result.0 ≡ as_number (get_value forever "users" "hits" init_stores).0)
    × ((get_value forever "users" "hits" result.1).0
        ≡ some (int64 (as_number (get_value forever "users" "hits" init_stores).0)))
atomic_decrement-atomic_increment_example =
    atomic_decrement-atomic_increment forever "users" "hits" init_stores no_number

abbrev two_operations : List (Env × Operation)
two_operations =
    (forever, Invariant.put "users" "alice" (string "a"))
    ∷ (ten_seconds, Invariant.increment "users" "hits" (pos 1))
    ∷ []

run-IsConsistent_example : IsConsistent (run two_operations init_stores)
run-IsConsistent_example = run-IsConsistent two_operations init_stores init_stores-IsConsistent

-- The value that was stored is read, also under a key prefix, until it expires.
one_value_test : (get_value forever "users" "alice" one_value).0 ≡ some (string "a")
unfolding get_value store_value get_in ensure_store set_expiry is_expired lookup insert
    apply_key_prefix get_inmemory_ttl
one_value_test = refl
