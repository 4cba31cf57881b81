-- ===== src/Store/Expiry.antt =====
-- Reads after writes: StoreValue, DeleteValue, DeleteStore and GetValue against the view.
use imposter_go.Common.{
  ℕ, ◌+◌, ◌≤◌, String, ◌≡◌, true, false, ◌&&◌, none, some, get_or, arith, ◌==◌, eq_iff, eq_refl,
  ltb, if◌then◌else◌,
}
use imposter_go.Common.Int.{pos, pos_part, ◌<ℤ◌, ◌≤ℤ◌}
use imposter_go.Common.Map.{lookup, insert, lookup-insert, lookup-erase}
use imposter_go.Common.Value.{Value}
use imposter_go.Store.{
  Env, StoreData, InMemoryStoreProvider, apply_key_prefix, is_expired, ensure_store, empty_store,
  set_expiry, get_inmemory_ttl, drop_key, get_in, get_value, store_value, delete_value,
  delete_store,
}
use imposter_go.Store.View.{
  at, live, view, eq-apply_key_prefix, view-with_store, live-drop_key, get_value-view, view_of,
  live-ensure_store,
}

-- The stored entry, looked at later: the same key and every other key.
live-stored_self :
    (env : Env) (t : ℕ) (full : String) (v : Value) (s : StoreData)
    → pos 0 <ℤ get_inmemory_ttl env
    → live (at env t) full (record {
      values = insert full v s.values;
      expiry_times = set_expiry env full s.expiry_times;
    })
      ≡ (if ltb (env.now + pos_part (get_inmemory_ttl env)) t then none else some v)
unfolding live is_expired set_expiry
live-stored_self env t full v s h = ground (
  arith,
  eq_refl full,
  lookup-insert full full v s.values,
  lookup-insert full full (env.now + pos_part (get_inmemory_ttl env)) s.expiry_times,
)

live-stored_ne :
    (env : Env) (t : ℕ) (full other : String) (v : Value) (s : StoreData)
    → (full == other) ≡ false
    → live (at env t) other (record {
      values = insert full v s.values;
      expiry_times = set_expiry env full s.expiry_times;
    })
      ≡ live (at env t) other s
unfolding live is_expired set_expiry
live-stored_ne env t full other v s h = ground (
  arith,
  lookup-insert full other v s.values,
  lookup-insert full other (env.now + pos_part (get_inmemory_ttl env)) s.expiry_times,
)

live-kept :
    (env : Env) (t : ℕ) (full : String) (v : Value) (s : StoreData)
    → get_inmemory_ttl env ≤ℤ pos 0
    → lookup full s.expiry_times ≡ none
    → live (at env t) full (record {
      values = insert full v s.values;
      expiry_times = set_expiry env full s.expiry_times;
    })
      ≡ some v
unfolding live is_expired set_expiry
live-kept env t full v s h clean = ground (arith, eq_refl full, lookup-insert full full v s.values)

-- The view of a store after StoreValue, at a later time.
pub view-store_value :
    (env : Env) (t : ℕ) (name other key j : String) (v : Value) (p : InMemoryStoreProvider)
    → view (at env t) other j (store_value env name key v p) ≡ (
        if name == other
        then live (at env t) (apply_key_prefix env.store_key_prefix j) (record {
          values =
              insert (apply_key_prefix env.store_key_prefix key) v (ensure_store name p).values;
          expiry_times =
              set_expiry env
                (apply_key_prefix env.store_key_prefix key)
                (ensure_store name p).expiry_times;
        })
        else view (at env t) other j p)
unfolding store_value
view-store_value env t name other key j v p = view-with_store (at env t) name other j _ p

-- With a TTL configured, a stored value is read back at exactly the times up to the moment of
-- storing plus the TTL, and no longer.
pub store_value-expiry :
    (env : Env) (t : ℕ) (name key : String) (v : Value) (p : InMemoryStoreProvider)
    → pos 0 <ℤ get_inmemory_ttl env
    → (get_value (at env t) name key (store_value env name key v p)).0
      ≡ (if ltb (env.now + pos_part (get_inmemory_ttl env)) t then none else some v)
store_value-expiry env t name key v p h =
    rw (get_value-view, view-store_value, eq_refl name)
      (live-stored_self env t (apply_key_prefix env.store_key_prefix key) v _ h)

-- StoreValue changes what is read under its own key of its own store, and nothing else.
pub store_value-frame :
    (env : Env) (t : ℕ) (name other key j : String) (v : Value) (p : InMemoryStoreProvider)
    → (name == other && key == j) ≡ false
    → (get_value (at env t) other j (store_value env name key v p)).0
      ≡ (get_value (at env t) other j p).0
store_value-frame env t name other key j v p h = rw get_value-view (
    rw get_value-view (
      ground (
        arith,
        eq_iff name other,
        view-store_value env t name other key j v p,
        eq-apply_key_prefix env.store_key_prefix key j,
        live-ensure_store (at env t) name j p,
        live-stored_ne env t (apply_key_prefix env.store_key_prefix key)
            (apply_key_prefix env.store_key_prefix j) v (ensure_store name p),
      )))

-- Without a TTL a value that is stored under a key with no expiry is read back at every time.
store_value-kept :
    (env : Env) (t : ℕ) (name key : String) (v : Value) (p : InMemoryStoreProvider)
    → get_inmemory_ttl env ≤ℤ pos 0
    → lookup (apply_key_prefix env.store_key_prefix key) (ensure_store name p).expiry_times ≡ none
    → (get_value (at env t) name key (store_value env name key v p)).0 ≡ some v
store_value-kept env t name key v p h clean =
    rw (get_value-view, view-store_value, eq_refl name)
      (live-kept env t (apply_key_prefix env.store_key_prefix key) v (ensure_store name p) h clean)

-- DeleteValue removes its own key, and leaves what is read under any other key or store.
delete_value-view :
    (env : Env) (name other key j : String) (p : InMemoryStoreProvider)
    → (get_value env other j (delete_value env name key p)).0
      ≡ (if name == other && key == j then none else (get_value env other j p).0)
delete_value-view env name other key j p = rw get_value-view (
    rw get_value-view (
      unfold delete_value view view_of in
      ground (
        arith,
        eq_iff name other,
        lookup-insert name other
            (drop_key (apply_key_prefix env.store_key_prefix key) (ensure_store name p)) p.stores,
        lookup-insert name other
            (drop_key (apply_key_prefix env.store_key_prefix key)
              (get_or (lookup name p.stores) empty_store))
            p.stores,
        eq-apply_key_prefix env.store_key_prefix key j,
        live-drop_key env (apply_key_prefix env.store_key_prefix key)
            (apply_key_prefix env.store_key_prefix j) (get_or (lookup name p.stores) empty_store),
      )))

-- DeleteStore removes every value of its own store, and leaves the other stores.
pub delete_store-view :
    (env : Env) (name other j : String) (p : InMemoryStoreProvider)
    → (get_value env other j (delete_store name p)).0
      ≡ (if name == other then none else (get_value env other j p).0)
delete_store-view env name other j p = rw get_value-view (
    rw get_value-view
      (unfold delete_store view view_of in ground (arith, lookup-erase name other p.stores)))

live-dropped :
    (env : Env) (t : ℕ) (full other : String) (s : StoreData)
    → env.now ≤ t
    → is_expired env full s ≡ true
    → live (at env t) other (drop_key full s) ≡ live (at env t) other s
unfolding live is_expired drop_key
live-dropped env t full other s le h = ground (
  arith,
  eq_iff full other,
  lookup-erase full other s.values,
  lookup-erase full other s.expiry_times,
)

-- GetValue deletes an expired entry on the way; at no later time does anyone see a difference.
get_value-unseen :
    (env : Env) (t : ℕ) (name other key j : String) (p : InMemoryStoreProvider)
    → env.now ≤ t
    → (get_value (at env t) other j (get_value env name key p).1).0
      ≡ (get_value (at env t) other j p).0
get_value-unseen env t name other key j p le = rw get_value-view (
    rw get_value-view (
      unfold get_value get_in view view_of in
      ground (
        arith,
        eq_iff name other,
        lookup-insert name other (get_or (lookup name p.stores) empty_store) p.stores,
        lookup-insert name other
            (drop_key (apply_key_prefix env.store_key_prefix key)
              (get_or (lookup name p.stores) empty_store))
            p.stores,
        live-dropped env t (apply_key_prefix env.store_key_prefix key)
            (apply_key_prefix env.store_key_prefix j) (get_or (lookup name p.stores) empty_store)
            le,
      )))
