-- ===== src/Store/View.antt =====
-- What a client can see of the in-memory provider: the values that have not expired.
use text.Mathlib.TextLemmas.{nil-append}
use imposter_go.Common.{
  ℕ, ◌≤◌, String, ◌≡◌, refl, sym, true, Option, none, some, arith, ◌==◌, if◌then◌else◌, Bool-cases,
  inl, inr,
}
use imposter_go.Common.Map.{lookup, lookup-empty, lookup-insert, lookup-erase}
use imposter_go.Common.Text.{concat}
use imposter_go.Common.Text.Laws.{eq-concat}
use imposter_go.Common.Value.{Value}
use imposter_go.Store.{
  Env, StoreData, InMemoryStoreProvider, with_store, global_prefix, apply_key_prefix, is_expired,
  ensure_store, drop_key, get_in, get_value,
}

-- The same settings at another time.
abbrev pub at : Env → ℕ → Env
at env t = record env { now = t }

pub apply_key_prefix_lem :
    (prefix key : String) → apply_key_prefix prefix key ≡ concat (global_prefix prefix) key
unfolding apply_key_prefix
apply_key_prefix_lem prefix key = elim (Bool-cases (prefix == "")) [
  | inl unset ↦ rw unset (sym (nil-append key))
  | inr given ↦ rw given refl
]

-- Two keys are stored under the same name only if they are the same.
pub eq-apply_key_prefix :
    (prefix k j : String) → (apply_key_prefix prefix k == apply_key_prefix prefix j) ≡ (k == j)
eq-apply_key_prefix prefix k j =
    rw (apply_key_prefix_lem prefix k, apply_key_prefix_lem prefix j)
      (eq-concat (global_prefix prefix) k j)

-- The live value under a full key.
unfoldable pub live : Env → String → StoreData → Option Value
live env key s = if is_expired env key s then none else lookup key s.values

unfoldable pub view_of : Env → String → Option StoreData → Option Value
view_of env full none = none
view_of env full (some s) = live env full s

unfoldable pub view : Env → String → String → InMemoryStoreProvider → Option Value
unfolding view_of
view env name key p = view_of env (apply_key_prefix env.store_key_prefix key) (lookup name p.stores)

-- GetValue returns the live value.
pub get_value-view :
    (env : Env) (name key : String) (p : InMemoryStoreProvider)
    → (get_value env name key p).0 ≡ view env name key p
unfolding get_value get_in view view_of live
get_value-view env name key p = ground arith

pub live-drop_key :
    (env : Env) (k j : String) (s : StoreData)
    → live env j (drop_key k s) ≡ (if k == j then none else live env j s)
unfolding live drop_key is_expired
live-drop_key env k j s = ground (arith, lookup-erase k j s.values, lookup-erase k j s.expiry_times)

pub view-with_store :
    (env : Env) (name other key : String) (s : StoreData) (p : InMemoryStoreProvider)
    → view env other key (with_store name s p) ≡ (
        if name == other
        then live env (apply_key_prefix env.store_key_prefix key) s
        else view env other key p)
unfolding view view_of
view-with_store env name other key s p = ground (arith, lookup-insert name other s p.stores)

-- What has expired stays expired.
pub is_expired_later :
    (env : Env) (t : ℕ) (key : String) (s : StoreData)
    → env.now ≤ t
    → is_expired env key s ≡ true
    → is_expired (at env t) key s ≡ true
unfolding is_expired
is_expired_later env t key s le h = ground arith

-- A store that is made where it is missing shows nothing new.
pub live-ensure_store :
    (env : Env) (name key : String) (p : InMemoryStoreProvider)
    → live env (apply_key_prefix env.store_key_prefix key) (ensure_store name p)
      ≡ view env name key p
unfolding live view view_of ensure_store is_expired
live-ensure_store env name key p = ground (
  arith,
  lookup-empty {V = ℕ} (apply_key_prefix env.store_key_prefix key),
  lookup-empty {V = Value} (apply_key_prefix env.store_key_prefix key),
)
