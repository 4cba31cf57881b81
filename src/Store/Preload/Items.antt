-- ===== src/Store/Preload/Items.antt =====
-- What the writing of a store's items leaves.
use imposter_go.Common.{
  ◌+◌, String, ◌≡◌, refl, sym, ap, ◌∙◌, Bool, true, false, Option, none, some, [], ◌∷◌, ◌==◌,
  if◌then◌else◌, arith, eq_iff, eq_refl, Bool-cases, inl, inr,
}
use imposter_go.Common.Int.{pos_part}
use imposter_go.Common.Map.{Map, insert, lookup-insert}
use imposter_go.Common.Maybe.{Returns-map, Returns, Returns->>=}
use imposter_go.Common.Value.{Value}
use imposter_go.Store.{
  Env, InMemoryStoreProvider, StoreData, with_store, get_inmemory_ttl, apply_key_prefix, is_expired,
  ensure_store, set_expiry, get_value, store_value,
}
use imposter_go.Store.Expiry.{store_value-frame, view-store_value}
use imposter_go.Store.View.{live, get_value-view}
use imposter_go.Store.Handle.{Store, Stores, shared, put, open_store}
use imposter_go.Store.Preload.{put_items}

-- The value of a key after items are written one after the other.
abbrev pub after_items : Map Value → String → Option Value → Option Value
after_items [] key old = old
after_items ((k, v) ∷ items) key old = after_items items key (if k == key then some v else old)

-- What a store says of a key, by its name.
abbrev pub Reading : Type 0
Reading = String → String → Option Value

abbrev pub written : String → Map Value → Reading → Reading
written name items old other key =
    if name == other then after_items items key (old other key) else old other key

module _ (env : Env) where
  abbrev pub reading : Stores → Reading
  reading w name key = (get_value env name key w.shared_provider).0

  -- No value of the shared provider has expired.
  abbrev pub NoneExpired : Stores → Type 0
  NoneExpired w =
      (name key : String) → is_expired env key (ensure_store name w.shared_provider) ≡ false

  ensure_store-with_store :
      (name other : String) (d : StoreData) (p : InMemoryStoreProvider)
      → ensure_store other (with_store name d p)
        ≡ (if name == other then d else ensure_store other p)
  unfolding ensure_store
  ensure_store-with_store name other d p = ground (arith, lookup-insert name other d p.stores)

  -- An entry that is written now has not expired.
  unexpired_in :
      (k key : String) (v : Value) (d : StoreData)
      → is_expired env key d ≡ false
      → is_expired env key
          (record { values = insert k v d.values; expiry_times = set_expiry env k d.expiry_times })
        ≡ false
  unfolding is_expired set_expiry
  unexpired_in k key v d h =
      ground (arith, lookup-insert k key (env.now + pos_part (get_inmemory_ttl env)) d.expiry_times)

  put-NoneExpired :
      (s : Store) (k : String) (v : Value) (w : Stores)
      → s.provider ≡ shared
      → NoneExpired w
      → NoneExpired (put env s k v w)
  unfolding put store_value
  put-NoneExpired s k v w is_shared fresh name key =
      let full = apply_key_prefix env.store_key_prefix k in
      let d = ensure_store s.name w.shared_provider in
      rw (is_shared, ensure_store-with_store)
        (elim (Bool-cases (s.name == name)) [
          | inl own ↦ rw own (unexpired_in full key v d (fresh s.name key))
          | inr other ↦ rw other (fresh name key)
        ])

  live_stored :
      (full : String) (v : Value) (d : StoreData)
      → is_expired env full (record {
        values = insert full v d.values;
        expiry_times = set_expiry env full d.expiry_times;
      })
        ≡ false
      → live env full (record {
        values = insert full v d.values;
        expiry_times = set_expiry env full d.expiry_times;
      })
        ≡ some v
  unfolding live
  live_stored full v d h = ground (arith, h, eq_refl full, lookup-insert full full v d.values)

  get_value-store_value :
      (name k : String) (v : Value) (p : InMemoryStoreProvider)
      → is_expired env (apply_key_prefix env.store_key_prefix k) (ensure_store name p) ≡ false
      → (get_value env name k (store_value env name k v p)).0 ≡ some v
  get_value-store_value name k v p fresh =
      let full = apply_key_prefix env.store_key_prefix k in
      rw (get_value-view env, view-store_value env env.now, eq_refl name)
        (live_stored full v (ensure_store name p)
          (unexpired_in full full v (ensure_store name p) fresh))

  -- The stores after a part of the preloading, by what they held before.
  abbrev pub Reads : (Reading → Reading) → Stores → Stores → Type 0
  Reads f w w' =
      NoneExpired w' × ((name key : String) → reading w' name key ≡ f (reading w) name key)

  store_value-reading :
      (name other k key : String) (v : Value) (p : InMemoryStoreProvider)
      → is_expired env (apply_key_prefix env.store_key_prefix k) (ensure_store name p) ≡ false
      → (get_value env other key (store_value env name k v p)).0 ≡ (
          if name == other
          then (if k == key then some v else (get_value env other key p).0)
          else (get_value env other key p).0)
  store_value-reading name other k key v p fresh = elim (Bool-cases (name == other)) [
    | inr elsewhere ↦
        rw elsewhere
          (store_value-frame env env.now name other k key v p (ground (arith, elsewhere)))
    | inl here ↦ elim (Bool-cases (k == key)) [
      | inr other_key ↦
          rw (here, other_key)
            (store_value-frame env env.now name other k key v p (ground (arith, other_key)))
      | inl own ↦
          rw (here, own, sym ((eq_iff name other).0 here), sym ((eq_iff k key).0 own))
            (get_value-store_value name k v p fresh)
    ]
  ]

  opened_shared :
      (name : String)
      → Returns (λ s. (s.name ≡ name) × (s.provider ≡ shared)) (open_store name none)
  unfolding open_store
  opened_shared name = elim (Bool-cases (name == "request")) [
    | inl request ↦ rw request tt
    | inr other ↦ rw other (refl, refl)
  ]

  put-reading :
      (s : Store) (name other k key : String) (v : Value) (w : Stores)
      → s.name ≡ name
      → s.provider ≡ shared
      → NoneExpired w
      → reading (put env s k v w) other key ≡ (
          if name == other
          then (if k == key then some v else reading w other key)
          else reading w other key)
  unfolding put
  put-reading s name other k key v w named is_shared fresh =
      rw (is_shared, named)
        (store_value-reading name other k key v w.shared_provider
          (fresh name (apply_key_prefix env.store_key_prefix k)))

module _ (env : Env) (read_json : String → Option (Map Value)) (config_dir : String) where
  pub put_items-Reads :
      (name : String) (items : Map Value) (w : Stores)
      → NoneExpired env w
      → Returns (Reads env (written name items) w) (put_items env read_json config_dir name items w)
  unfolding put_items
  put_items-Reads name [] w fresh =
      (fresh, λ other key. same (name == other) (reading env w other key))
    where
      same : (b : Bool) (v : Option Value) → v ≡ (if b then v else v)
      same true v = refl
      same false v = refl
  put_items-Reads name ((k, v) ∷ items) w fresh =
      Returns->>= (λ s. (s.name ≡ name) × (s.provider ≡ shared))
        (Reads env (written name ((k, v) ∷ items)) w) (open_store name none)
        (λ s. put_items env read_json config_dir name items (put env s k v w))
        (opened_shared env name)
        (λ s (named, is_shared).
          Returns-map (Reads env (written name items) (put env s k v w))
            (Reads env (written name ((k, v) ∷ items)) w)
            (put_items env read_json config_dir name items (put env s k v w))
            (put_items-Reads name items (put env s k v w)
              (put-NoneExpired env s k v w is_shared fresh))
            (λ w' (fresh', read). (
              fresh',
              λ other key.
                  read other key
                  ∙ then_items (name == other) items k v key (reading env w other key)
                      (reading env (put env s k v w) other key)
                      (put-reading env s name other k key v w named is_shared fresh),
            )))
    where
      then_items :
          (b : Bool) (items : Map Value) (k : String) (v : Value) (key : String)
          (old new : Option Value)
          → new ≡ (if b then (if k == key then some v else old) else old)
          → (if b then after_items items key new else new)
            ≡ (if b then after_items ((k, v) ∷ items) key old else old)
      then_items true items k v key old new e = ap (after_items items key) e
      then_items false items k v key old new e = e
