-- ===== src/Store/Listing.antt =====
-- GetAllValues: what it lists, and that its clean-up is not seen.
use text.Mathlib.TextLemmas.{append_assoc}
use imposter_go.Common.{
  ℕ, ◌≤◌, String, ◌≡◌, refl, sym, ap, ◌∙◌, true, not, ◌&&◌, none, get_or, [], ◌∷◌, arith, ◌==◌,
  eq_iff, if◌then◌else◌, Bool-cases, inl, inr,
}
use imposter_go.Common.Map.{Map, lookup, lookup-insert, lookup-empty}
use imposter_go.Common.Text.{has_prefix, concat}
use imposter_go.Common.Text.Laws.{has_prefix-concat, trim_prefix-concat, has_prefix-cut_prefix}
use imposter_go.Common.Value.{Value}
use imposter_go.Store.{
  Env, StoreData, InMemoryStoreProvider, global_prefix, apply_key_prefix, remove_key_prefix,
  is_expired, empty_store, drop_key, get_value, collect, sweep, get_all_values,
}
use imposter_go.Store.View.{
  at, live, view, view_of, apply_key_prefix_lem, eq-apply_key_prefix, live-drop_key, get_value-view,
  is_expired_later,
}

-- The prefix of the settings does not matter to a search for a prefix.
has_prefix-apply_key_prefix :
    (prefix j start : String)
    → has_prefix (apply_key_prefix prefix j) (apply_key_prefix prefix start) ≡ has_prefix j start
has_prefix-apply_key_prefix prefix j start =
    rw (apply_key_prefix_lem prefix j, apply_key_prefix_lem prefix start)
      (has_prefix-concat (global_prefix prefix) j start)

remove_key_prefix-apply :
    (prefix key : String) → remove_key_prefix prefix (apply_key_prefix prefix key) ≡ key
unfolding remove_key_prefix apply_key_prefix
remove_key_prefix-apply prefix key = ground (arith, trim_prefix-concat (concat prefix ".") key)

-- A key found by a search is one that was stored with the prefix of the settings.
found_is_prefixed :
    (prefix start k : String)
    → has_prefix k (apply_key_prefix prefix start) ≡ true
    → k ≡ apply_key_prefix prefix (remove_key_prefix prefix k)
found_is_prefixed prefix start k h =
    let (r, e) = has_prefix-cut_prefix k _ h in
    let e' : k ≡ apply_key_prefix prefix (concat start r) =
      rw
        (
          apply_key_prefix_lem prefix (concat start r),
          ← append_assoc,
          ← apply_key_prefix_lem prefix start,
        )
        e in
    e'
    ∙ ap (apply_key_prefix prefix)
        (sym (ap (remove_key_prefix prefix) e' ∙ remove_key_prefix-apply prefix (concat start r)))

eq-remove_key_prefix :
    (prefix start k j : String)
    → has_prefix k (apply_key_prefix prefix start) ≡ true
    → (k == apply_key_prefix prefix j) ≡ (remove_key_prefix prefix k == j)
eq-remove_key_prefix prefix start k j h =
    ap (λ x. x == apply_key_prefix prefix j) (found_is_prefixed prefix start k h)
    ∙ eq-apply_key_prefix prefix (remove_key_prefix prefix k) j

lookup-collect :
    (env : Env) (start j : String) (s : StoreData) (m : Map Value)
    → lookup j (collect env (apply_key_prefix env.store_key_prefix start) s m) ≡ (
        if has_prefix j start && not (is_expired env (apply_key_prefix env.store_key_prefix j) s)
        then lookup (apply_key_prefix env.store_key_prefix j) m
        else none)
unfolding collect lookup
lookup-collect env start j s [] = ground arith
lookup-collect env start j s ((k, v) ∷ m) =
    let prefix = env.store_key_prefix in
    let full = apply_key_prefix prefix j in
    ground (
      arith,
      lookup-collect env start j s m,
      eq_iff k full,
      has_prefix-apply_key_prefix prefix j start,
      eq-remove_key_prefix prefix start k j,
      lookup-insert (remove_key_prefix prefix k) j v
          (collect env (apply_key_prefix prefix start) s m),
    )

-- GetAllValues lists exactly the live values whose keys begin with the given text, each under its
-- own key, whatever the prefix of the settings.
lookup-get_all_values :
    (env : Env) (name start j : String) (p : InMemoryStoreProvider)
    → lookup j (get_all_values env name start p).0
      ≡ (if has_prefix j start then (get_value env name j p).0 else none)
lookup-get_all_values env name start j p = rw get_value-view (
    unfold get_all_values view view_of live in
    ground (
      arith,
      lookup-empty {V = Value} j,
      lookup-collect env start j (get_or (lookup name p.stores) empty_store)
          (get_or (lookup name p.stores) empty_store).values,
    ))

live-sweep :
    (env : Env) (t : ℕ) (other : String) (s kept : StoreData) (m : Map Value)
    → env.now ≤ t
    → live (at env t) other kept ≡ live (at env t) other s
    → live (at env t) other (sweep env s m kept) ≡ live (at env t) other s
unfolding sweep
live-sweep env t other s kept [] le h = h
live-sweep env t other s kept ((k, v) ∷ m) le h =
    live-sweep env t other s (if is_expired env k s then drop_key k kept else kept) m le
      (elim (Bool-cases (is_expired env k s)) [
        | inr fresh ↦ rw fresh h
        | inl old ↦ rw old (
            rw live-drop_key (elim (Bool-cases (k == other)) [
              | inr ne ↦ rw ne h
              | inl same ↦ rw same (
                  sym (
                    unfold live in
                    rw (← (eq_iff k other).0 same, is_expired_later env t k s le old) refl))
            ]))
      ])

-- The clean-up of GetAllValues is not seen at any later time.
get_all_values-unseen :
    (env : Env) (t : ℕ) (name start other j : String) (p : InMemoryStoreProvider)
    → env.now ≤ t
    → (get_value (at env t) other j (get_all_values env name start p).1).0
      ≡ (get_value (at env t) other j p).0
get_all_values-unseen env t name start other j p le = rw get_value-view (
    rw get_value-view (
      unfold get_all_values view view_of in
      let s = get_or (lookup name p.stores) empty_store in
      ground (
        arith,
        eq_iff name other,
        lookup-insert name other (sweep env s s.values s) p.stores,
        live-sweep env t (apply_key_prefix env.store_key_prefix j) s s s.values le refl,
      )))
