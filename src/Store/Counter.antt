-- ===== src/Store/Counter.antt =====
-- AtomicIncrement and AtomicDecrement.
use imposter_go.Common.{
  ℕ, ◌+◌, ◌≤◌, String, ◌≡◌, refl, ap, ◌∙◌, false, ◌&&◌, some, arith, ◌==◌, eq_iff, eq_refl,
  if◌then◌else◌,
}
use imposter_go.Common.Int.{ℤ, pos, ◌+ℤ◌, wrap64, IsInt64, wrap64_undo, pos_part}
use imposter_go.Common.Map.{lookup, lookup-insert, lookup-erase}
use imposter_go.Common.Value.{int64}
use imposter_go.Store.{
  Env, StoreData, InMemoryStoreProvider, apply_key_prefix, is_expired, ensure_store, set_expiry,
  get_inmemory_ttl, drop_key, get_value, as_number, drop_expired, add_to, atomic_increment,
  atomic_decrement,
}
use imposter_go.Store.View.{
  at, live, view, eq-apply_key_prefix, view-with_store, get_value-view, live-ensure_store,
}

-- A key after the clean-up of that key.
is_expired-drop_expired :
    (env : Env) (full : String) (s : StoreData)
    → is_expired env full (drop_expired env full s) ≡ false
unfolding drop_expired is_expired drop_key
is_expired-drop_expired env full s =
    ground (arith, eq_refl full, lookup-erase full full s.expiry_times)

lookup-drop_expired :
    (env : Env) (full : String) (s : StoreData)
    → lookup full (drop_expired env full s).values ≡ live env full s
unfolding drop_expired live drop_key
lookup-drop_expired env full s = ground (arith, eq_refl full, lookup-erase full full s.values)

live-drop_expired :
    (env : Env) (t : ℕ) (full other : String) (s : StoreData)
    → env.now ≤ t
    → live (at env t) other (drop_expired env full s) ≡ live (at env t) other s
unfolding drop_expired live is_expired drop_key
live-drop_expired env t full other s le = ground (
  arith,
  eq_iff full other,
  lookup-erase full other s.values,
  lookup-erase full other s.expiry_times,
)

-- What is counted is read back at the same moment, TTL or not: a TTL ends later.
live-add_to :
    (env : Env) (full : String) (delta : ℤ) (s : StoreData)
    → is_expired env full s ≡ false
    → live env full (add_to env full delta s).1 ≡ some (int64 (add_to env full delta s).0)
unfolding add_to live is_expired set_expiry
live-add_to env full delta s fresh = ground (
  arith,
  eq_refl full,
  lookup-insert full full (int64 (wrap64 (as_number (lookup full s.values) +ℤ delta))) s.values,
  lookup-insert full full (env.now + pos_part (get_inmemory_ttl env)) s.expiry_times,
)

live-add_to_ne :
    (env : Env) (t : ℕ) (full other : String) (delta : ℤ) (s : StoreData)
    → (full == other) ≡ false
    → live (at env t) other (add_to env full delta s).1 ≡ live (at env t) other s
unfolding add_to live is_expired set_expiry
live-add_to_ne env t full other delta s ne = ground (
  arith,
  lookup-insert full other (int64 (wrap64 (as_number (lookup full s.values) +ℤ delta))) s.values,
  lookup-insert full other (env.now + pos_part (get_inmemory_ttl env)) s.expiry_times,
)

add_to-number :
    (env : Env) (full : String) (delta : ℤ) (s : StoreData)
    → (add_to env full delta s).0 ≡ wrap64 (as_number (lookup full s.values) +ℤ delta)
unfolding add_to
add_to-number env full delta s = refl

-- AtomicIncrement returns the number that is visible under the key, 0 where there is none or it is
-- expired or no number, plus the delta, as an int64.
pub atomic_increment-number :
    (env : Env) (name key : String) (delta : ℤ) (p : InMemoryStoreProvider)
    → (atomic_increment env name key delta p).0
      ≡ wrap64 (as_number (get_value env name key p).0 +ℤ delta)
atomic_increment-number env name key delta p =
    rw (get_value-view, ← live-ensure_store env name key p, ← lookup-drop_expired)
      (unfold atomic_increment in add_to-number env _ delta _)

-- The number that AtomicIncrement returns is the one that is visible under the key afterwards.
pub get_value-atomic_increment :
    (env : Env) (name key : String) (delta : ℤ) (p : InMemoryStoreProvider)
    → (get_value env name key (atomic_increment env name key delta p).1).0
      ≡ some (int64 (atomic_increment env name key delta p).0)
get_value-atomic_increment env name key delta p = rw get_value-view (
    unfold atomic_increment in
    rw (view-with_store, eq_refl name)
      (live-add_to env _ delta _ (is_expired-drop_expired env _ _)))

view-atomic_increment :
    (env : Env) (t : ℕ) (name other key j : String) (delta : ℤ) (p : InMemoryStoreProvider)
    → view (at env t) other j (atomic_increment env name key delta p).1 ≡ (
        if name == other
        then live
            (at env t)
            (apply_key_prefix env.store_key_prefix j)
            (add_to env (apply_key_prefix env.store_key_prefix key) delta (
              drop_expired env (apply_key_prefix env.store_key_prefix key) (ensure_store name p))).1
        else view (at env t) other j p)
unfolding atomic_increment
view-atomic_increment env t name other key j delta p = view-with_store (at env t) name other j _ p

-- AtomicIncrement leaves what is read under another key or in another store, now and later.
atomic_increment-frame :
    (env : Env) (t : ℕ) (name other key j : String) (delta : ℤ) (p : InMemoryStoreProvider)
    → env.now ≤ t
    → (name == other && key == j) ≡ false
    → (get_value (at env t) other j (atomic_increment env name key delta p).1).0
      ≡ (get_value (at env t) other j p).0
atomic_increment-frame env t name other key j delta p le ne = rw get_value-view (
    rw get_value-view (
      ground (
        arith,
        eq_iff name other,
        view-atomic_increment env t name other key j delta p,
        eq-apply_key_prefix env.store_key_prefix key j,
        live-ensure_store (at env t) name j p,
        live-drop_expired env t (apply_key_prefix env.store_key_prefix key)
            (apply_key_prefix env.store_key_prefix j) (ensure_store name p) le,
        live-add_to_ne env t (apply_key_prefix env.store_key_prefix key)
            (apply_key_prefix env.store_key_prefix j) delta
            (drop_expired env (apply_key_prefix env.store_key_prefix key) (ensure_store name p)),
      )))

decrement_returns :
    (env : Env) (name key : String) (p : InMemoryStoreProvider)
    → IsInt64 (as_number (get_value env name key p).0)
    → (atomic_decrement env name key (pos 1) (atomic_increment env name key (pos 1) p).1).0
      ≡ as_number (get_value env name key p).0
decrement_returns env name key p h =
    unfold atomic_decrement as_number in
    rw (atomic_increment-number, get_value-atomic_increment, atomic_increment-number)
      (wrap64_undo _ h)

get_value-atomic_decrement :
    (env : Env) (name key : String) (p : InMemoryStoreProvider)
    → (get_value env name key (atomic_decrement env name key (pos 1) p).1).0
      ≡ some (int64 (atomic_decrement env name key (pos 1) p).0)
unfolding atomic_decrement
get_value-atomic_decrement env name key p = get_value-atomic_increment env name key _ p

-- At one moment, so that no TTL ends in between, a decrement takes an increment by one back, also where
-- the counter wraps around: it returns the number that was visible under the key, and this number is
-- visible there again.
pub atomic_decrement-atomic_increment :
    (env : Env) (name key : String) (p : InMemoryStoreProvider)
    → IsInt64 (as_number (get_value env name key p).0)
    → let counted = (atomic_increment env name key (pos 1) p).1 in
      let result = atomic_decrement env name key (pos 1) counted in
      (result.0 ≡ as_number (get_value env name key p).0)
      × ((get_value env name key result.1).0
          ≡ some (int64 (as_number (get_value env name key p).0)))
atomic_decrement-atomic_increment env name key p h =
    let counted = (atomic_increment env name key (pos 1) p).1 in
    let returned = decrement_returns env name key p h in
    (returned, get_value-atomic_decrement env name key counted ∙ ap (λ n. some (int64 n)) returned)
