-- ===== src/Store/Invariant.antt =====
-- No expiry time is kept for a key that has no value: every operation preserves it.
use mathlib.Core.Path.{subst}
use imposter_go.Common.{
  Option-cases, ℕ, ◌+◌, String, ◌≡◌, true, some, is_some, List, [], ◌∷◌, arith, ◌==◌, if◌then◌else◌,
  Bool-cases, inl, inr,
}
use imposter_go.Common.Int.{ℤ, ◌+ℤ◌, wrap64, neg, pos_part}
use imposter_go.Common.Map.{Map, lookup, insert, lookup-insert, lookup-erase, lookup-empty}
use imposter_go.Common.Value.{Value, int64}
use imposter_go.Store.{
  Env, StoreData, InMemoryStoreProvider, with_store, init_stores, apply_key_prefix, set_expiry,
  get_inmemory_ttl, is_expired, ensure_store, empty_store, drop_key, drop_expired, as_number,
  add_to, get_in, get_value, store_value, delete_value, delete_store, sweep, get_all_values,
  atomic_increment, atomic_decrement,
}

-- A key with an expiry time has a value.
pub record HasNoStaleExpiry (s : StoreData) : Type 0 where
  pub kept :
      (k : String) → is_some (lookup k s.expiry_times) ≡ true → is_some (lookup k s.values) ≡ true

pub record IsConsistent (p : InMemoryStoreProvider) : Type 0 where
  pub each : (name : String) (s : StoreData) → lookup name p.stores ≡ some s → HasNoStaleExpiry s

drop_key-kept :
    (key : String) (s : StoreData) → HasNoStaleExpiry s → HasNoStaleExpiry (drop_key key s)
unfolding drop_key
drop_key-kept key s h = record {
  kept =
      λ k. ground (arith, h.kept k, lookup-erase key k s.values, lookup-erase key k s.expiry_times);
}

empty_store-kept : HasNoStaleExpiry empty_store
empty_store-kept = record { kept = λ k. ground (arith, lookup-empty {V = ℕ} k) }

insert-kept :
    (env : Env) (key : String) (v : Value) (s : StoreData)
    → HasNoStaleExpiry s
    → HasNoStaleExpiry (record {
      values = insert key v s.values;
      expiry_times = set_expiry env key s.expiry_times;
    })
unfolding set_expiry
insert-kept env key v s h = record {
  kept = λ k. ground (
    arith,
    h.kept k,
    lookup-insert key k v s.values,
    lookup-insert key k (env.now + pos_part (get_inmemory_ttl env)) s.expiry_times,
  );
}

add_to-kept :
    (env : Env) (key : String) (delta : ℤ) (s : StoreData)
    → HasNoStaleExpiry s
    → HasNoStaleExpiry (add_to env key delta s).1
unfolding add_to set_expiry
add_to-kept env key delta s h = record {
  kept = λ k. ground (
    arith,
    h.kept k,
    lookup-insert key k (int64 (wrap64 (as_number (lookup key s.values) +ℤ delta))) s.values,
    lookup-insert key k (env.now + pos_part (get_inmemory_ttl env)) s.expiry_times,
  );
}

drop_expired-kept :
    (env : Env) (key : String) (s : StoreData)
    → HasNoStaleExpiry s
    → HasNoStaleExpiry (drop_expired env key s)
unfolding drop_expired
drop_expired-kept env key s h = elim (Bool-cases (is_expired env key s)) [
  | inl old ↦ rw old (drop_key-kept key s h)
  | inr fresh ↦ rw fresh h
]

sweep-kept :
    (env : Env) (s kept : StoreData) (m : Map Value)
    → HasNoStaleExpiry kept
    → HasNoStaleExpiry (sweep env s m kept)
unfolding sweep
sweep-kept env s kept [] h = h
sweep-kept env s kept ((k, v) ∷ m) h =
    sweep-kept env s (if is_expired env k s then drop_key k kept else kept) m
      (elim (Bool-cases (is_expired env k s)) [
        | inl old ↦ rw old (drop_key-kept k kept h)
        | inr fresh ↦ rw fresh h
      ])

with_store-IsConsistent :
    (name : String) (s : StoreData) (p : InMemoryStoreProvider)
    → IsConsistent p
    → HasNoStaleExpiry s
    → IsConsistent (with_store name s p)
with_store-IsConsistent name s p h hs = record {
  each = λ other s' e. elim (Bool-cases (name == other)) [
    | inl same ↦
        let e' : s ≡ s' = ground (arith, lookup-insert name other s p.stores) in
        subst HasNoStaleExpiry e' hs
    | inr ne ↦ h.each other s' (ground (arith, lookup-insert name other s p.stores))
  ];
}

-- The store that an operation starts from.
ensure_store-kept :
    (name : String) (p : InMemoryStoreProvider)
    → IsConsistent p
    → HasNoStaleExpiry (ensure_store name p)
unfolding ensure_store
ensure_store-kept name p h = elim (Option-cases (lookup name p.stores)) [
  | inl missing ↦ rw (missing, ensure_store) empty_store-kept
  | inr (s, found) ↦ rw (found, ensure_store) (h.each name s found)
]

-- An operation that writes back what a clean-up leaves of a store, where there is one.
pub get_value-IsConsistent :
    (env : Env) (name key : String) (p : InMemoryStoreProvider)
    → IsConsistent p
    → IsConsistent (get_value env name key p).1
unfolding get_value
get_value-IsConsistent env name key p h = elim (Option-cases (lookup name p.stores)) [
  | inl missing ↦ rw (missing, get_value) h
  | inr (s, found) ↦
      rw (found, get_value)
        (with_store-IsConsistent name _ p h (
          unfold get_in in
          elim (Bool-cases (is_expired env (apply_key_prefix env.store_key_prefix key) s)) [
            | inl old ↦ rw old (drop_key-kept _ s (h.each name s found))
            | inr fresh ↦ rw fresh (h.each name s found)
          ]))
]

pub store_value-IsConsistent :
    (env : Env) (name key : String) (v : Value) (p : InMemoryStoreProvider)
    → IsConsistent p
    → IsConsistent (store_value env name key v p)
unfolding store_value
store_value-IsConsistent env name key v p h =
    with_store-IsConsistent name _ p h (insert-kept env _ v _ (ensure_store-kept name p h))

pub atomic_increment-IsConsistent :
    (env : Env) (name key : String) (delta : ℤ) (p : InMemoryStoreProvider)
    → IsConsistent p
    → IsConsistent (atomic_increment env name key delta p).1
unfolding atomic_increment
atomic_increment-IsConsistent env name key delta p h =
    with_store-IsConsistent name _ p h
      (add_to-kept env _ delta _ (drop_expired-kept env _ _ (ensure_store-kept name p h)))

pub delete_value-IsConsistent :
    (env : Env) (name key : String) (p : InMemoryStoreProvider)
    → IsConsistent p
    → IsConsistent (delete_value env name key p)
unfolding delete_value
delete_value-IsConsistent env name key p h = elim (Option-cases (lookup name p.stores)) [
  | inl missing ↦ rw (missing, delete_value) h
  | inr (s, found) ↦
      rw (found, delete_value)
        (with_store-IsConsistent name _ p h (drop_key-kept _ s (h.each name s found)))
]

pub get_all_values-IsConsistent :
    (env : Env) (name start : String) (p : InMemoryStoreProvider)
    → IsConsistent p
    → IsConsistent (get_all_values env name start p).1
unfolding get_all_values
get_all_values-IsConsistent env name start p h = elim (Option-cases (lookup name p.stores)) [
  | inl missing ↦ rw (missing, get_all_values) h
  | inr (s, found) ↦
      rw (found, get_all_values)
        (with_store-IsConsistent name _ p h (sweep-kept env s s s.values (h.each name s found)))
]

pub delete_store-IsConsistent :
    (name : String) (p : InMemoryStoreProvider)
    → IsConsistent p
    → IsConsistent (delete_store name p)
unfolding delete_store
delete_store-IsConsistent name p h = record {
  each = λ other s e. h.each other s (ground (arith, lookup-erase name other p.stores));
}

pub init_stores-IsConsistent : IsConsistent init_stores
init_stores-IsConsistent = record { each = λ name s e. cc (lookup-empty {V = StoreData} name) }

-- The operations of the provider, with their arguments.
pub data Operation : Type 0 where
  get : String → String → Operation
  put : String → String → Value → Operation
  list : String → String → Operation
  delete : String → String → Operation
  delete_all : String → Operation
  increment : String → String → ℤ → Operation
  decrement : String → String → ℤ → Operation

-- The provider that an operation leaves, at the time and with the settings of its call.
unfoldable pub apply : Env → Operation → InMemoryStoreProvider → InMemoryStoreProvider
apply env (get name key) p = (get_value env name key p).1
apply env (put name key v) p = store_value env name key v p
apply env (list name start) p = (get_all_values env name start p).1
apply env (delete name key) p = delete_value env name key p
apply env (delete_all name) p = delete_store name p
apply env (increment name key delta) p = (atomic_increment env name key delta p).1
apply env (decrement name key delta) p = (atomic_decrement env name key delta p).1

-- Calls one after the other, as the mutex orders them.
unfoldable pub run : List (Env × Operation) → InMemoryStoreProvider → InMemoryStoreProvider
run [] p = p
run ((env, op) ∷ ops) p = run ops (apply env op p)

apply-IsConsistent :
    (env : Env) (op : Operation) (p : InMemoryStoreProvider)
    → IsConsistent p
    → IsConsistent (apply env op p)
unfolding apply atomic_decrement
apply-IsConsistent env (get name key) p h = get_value-IsConsistent env name key p h
apply-IsConsistent env (put name key v) p h = store_value-IsConsistent env name key v p h
apply-IsConsistent env (list name start) p h = get_all_values-IsConsistent env name start p h
apply-IsConsistent env (delete name key) p h = delete_value-IsConsistent env name key p h
apply-IsConsistent env (delete_all name) p h = delete_store-IsConsistent name p h
apply-IsConsistent env (increment name key delta) p h =
    atomic_increment-IsConsistent env name key delta p h
apply-IsConsistent env (decrement name key delta) p h =
    atomic_increment-IsConsistent env name key (neg delta) p h

-- After any sequence of operations on a consistent provider, at any times and with any settings,
-- every key of every store that has an expiry time has a value.
pub run-IsConsistent :
    (ops : List (Env × Operation)) (p : InMemoryStoreProvider)
    → IsConsistent p
    → IsConsistent (run ops p)
unfolding run
run-IsConsistent [] p h = h
run-IsConsistent ((env, op) ∷ ops) p h =
    run-IsConsistent ops (apply env op p) (apply-IsConsistent env op p h)
