-- ===== src/Store/Preload/Laws.antt =====
-- What a preloaded store holds.
use imposter_go.Common.{
  String, ◌≡◌, refl, ap, ◌∙◌, Bool, true, false, Option, none, some, List, [], ◌∷◌, ◌==◌,
  if◌then◌else◌, get_or, Bool-cases, Option-cases, inl, inr,
}
use imposter_go.Common.Map.{Map}
use imposter_go.Common.Maybe.{◌>>=◌, Returns, Returns->>=, Returns-some}
use imposter_go.Common.Value.{Value}
use imposter_go.Config.{Config, StoreDefinition}
use imposter_go.Path.{validate_path}
use imposter_go.Store.{Env, get_value}
use imposter_go.Store.Handle.{Stores}
use imposter_go.Store.Preload.{
  put_items, preload_from_file, preload_from_inline, preload_store, preload_definitions, and_go_on,
  stores_of, preload_stores,
}
use imposter_go.Store.Preload.Items.{
  after_items, Reading, written, reading, NoneExpired, Reads, put_items-Reads,
}

-- A change of readings that depends on what they say only.
abbrev IsPointwise : (Reading → Reading) → Type 0
IsPointwise h =
    (old old' : Reading)
    → ((name key : String) → old name key ≡ old' name key)
    → (name key : String) → h old name key ≡ h old' name key

written-IsPointwise : (name : String) (items : Map Value) → IsPointwise (written name items)
written-IsPointwise name items old old' same other key =
    ap (λ v. if name == other then after_items items key v else v) (same other key)

module _ (env : Env) (read_json : String → Option (Map Value)) (config_dir : String) where
  abbrev pub file_items : StoreDefinition → Map Value
  file_items definition =
      if definition.preload_file == ""
      then []
      else elim (validate_path definition.preload_file config_dir) [
        | none ↦ []
        | some path ↦ get_or (read_json path) []
      ]

  -- The file of a store is written before its inline data, and each configuration before the next.
  abbrev pub after_definitions : Map StoreDefinition → Reading → Reading
  after_definitions [] old = old
  after_definitions ((name, definition) ∷ more) old =
      after_definitions more
        (written name definition.preload_values (written name (file_items definition) old))

  abbrev pub after_configs : List Config → Reading → Reading
  after_configs [] old = old
  after_configs (cfg ∷ more) old =
      after_configs more (after_definitions (stores_of env read_json config_dir cfg.system) old)

  Reads-then :
      (f h : Reading → Reading) (w w' w'' : Stores)
      → IsPointwise h
      → Reads env f w w'
      → Reads env h w' w''
      → Reads env (λ old. h (f old)) w w''
  Reads-then f h w w' w'' pointwise (fresh, read) (fresh', read') = (
    fresh',
    λ name key. read' name key ∙ pointwise (reading env w') (f (reading env w)) read name key,
  )

  -- What a store that has no error leaves.
  abbrev Preloaded : (Reading → Reading) → Stores → Stores × Bool → Type 0
  Preloaded f w (w', true) = Reads env f w w'
  Preloaded f w (w', false) = Unit

  preload_from_inline-Preloaded :
      (name : String) (values : Map Value) (w : Stores)
      → NoneExpired env w
      → Returns
          (Preloaded (written name values) w)
          (preload_from_inline env read_json config_dir name values w)
  unfolding preload_from_inline
  preload_from_inline-Preloaded name values w fresh =
      Returns->>= (Reads env (written name values) w) (Preloaded (written name values) w)
        (put_items env read_json config_dir name values w) (λ w'. some (w', true))
        (put_items-Reads env read_json config_dir name values w fresh) (λ w' r. r)

  preload_from_file-Reads :
      (name path : String) (w : Stores)
      → NoneExpired env w
      → Returns
          (Reads env (written name (get_or (read_json path) [])) w)
          (preload_from_file env read_json config_dir name path w)
  unfolding preload_from_file put_items
  preload_from_file-Reads name path w fresh = elim (Option-cases (read_json path)) [
    | inl unreadable ↦
        rw (preload_from_file, unreadable)
          (put_items-Reads env read_json config_dir name [] w fresh)
    | inr (items, read) ↦
        rw (preload_from_file, read) (put_items-Reads env read_json config_dir name items w fresh)
  ]

  some-Preloaded :
      (f h : Reading → Reading) (w w' : Stores) (o : Option (Stores × Bool))
      → IsPointwise h
      → Reads env f w w'
      → Returns (Preloaded h w') o
      → Returns (Preloaded (λ old. h (f old)) w) o
  some-Preloaded f h w w' none pointwise r p = tt
  some-Preloaded f h w w' (some (w'', true)) pointwise r p = Reads-then f h w w' w'' pointwise r p
  some-Preloaded f h w w' (some (w'', false)) pointwise r p = tt

  and_go_on-Preloaded :
      (f h : Reading → Reading) (w : Stores) (next : Stores → Option (Stores × Bool))
      (r : Stores × Bool)
      → IsPointwise h
      → Preloaded f w r
      → ((w' : Stores) → NoneExpired env w' → Returns (Preloaded h w') (next w'))
      → Returns (Preloaded (λ old. h (f old)) w) (and_go_on env read_json config_dir next r)
  and_go_on-Preloaded f h w next (w', true) pointwise r goes =
      some-Preloaded f h w w' (next w') pointwise r (goes w' r.0)
  and_go_on-Preloaded f h w next (w', false) pointwise r goes = tt

  -- What a store definition writes.
  abbrev definition_written : String → Map Value → StoreDefinition → Reading → Reading
  definition_written name items d old = written name d.preload_values (written name items old)

  then_inline :
      (name : String) (items : Map Value) (d : StoreDefinition) (w : Stores) (o : Option Stores)
      → Returns (Reads env (written name items) w) o
      → Returns
          (Preloaded (definition_written name items d) w)
          (o >>= preload_from_inline env read_json config_dir name d.preload_values)
  then_inline name items d w o r =
      Returns->>= (Reads env (written name items) w) (Preloaded (definition_written name items d) w)
        o (preload_from_inline env read_json config_dir name d.preload_values) r
        (λ w' reads.
          some-Preloaded (written name items) (written name d.preload_values) w w'
            (preload_from_inline env read_json config_dir name d.preload_values w')
            (written-IsPointwise name d.preload_values) reads
            (preload_from_inline-Preloaded name d.preload_values w' reads.0))

  preload_store-Preloaded :
      (name : String) (d : StoreDefinition) (w : Stores)
      → NoneExpired env w
      → Returns
          (Preloaded (definition_written name (file_items d) d) w)
          (preload_store env read_json config_dir name d w)
  unfolding preload_store put_items
  preload_store-Preloaded name d w fresh = elim (Bool-cases (d.preload_file == "")) [
    | inl inline ↦
        rw (preload_store, inline)
          (then_inline name [] d w (some w)
            (put_items-Reads env read_json config_dir name [] w fresh))
    | inr file ↦ elim (Option-cases (validate_path d.preload_file config_dir)) [
      | inl outside ↦ rw (preload_store, file, outside) tt
      | inr (path, inside) ↦
          rw (preload_store, file, inside)
            (then_inline name (get_or (read_json path) []) d w
              (preload_from_file env read_json config_dir name path w)
              (preload_from_file-Reads name path w fresh))
    ]
  ]

  after_definitions-IsPointwise : (ds : Map StoreDefinition) → IsPointwise (after_definitions ds)
  after_definitions-IsPointwise [] old old' same = same
  after_definitions-IsPointwise ((name, d) ∷ ds) old old' same =
      after_definitions-IsPointwise ds (definition_written name (file_items d) d old)
        (definition_written name (file_items d) d old')
        (written-IsPointwise name d.preload_values (written name (file_items d) old)
          (written name (file_items d) old')
          (written-IsPointwise name (file_items d) old old' same))

  preload_definitions-Preloaded :
      (ds : Map StoreDefinition) (w : Stores)
      → NoneExpired env w
      → Returns
          (Preloaded (after_definitions ds) w)
          (preload_definitions env read_json config_dir ds w)
  unfolding preload_definitions
  preload_definitions-Preloaded [] w fresh = (fresh, λ name key. refl)
  preload_definitions-Preloaded ((name, d) ∷ ds) w fresh =
      let f = definition_written name (file_items d) d in
      Returns->>= (Preloaded f w) (Preloaded (λ old. after_definitions ds (f old)) w)
        (preload_store env read_json config_dir name d w)
        (and_go_on env read_json config_dir (preload_definitions env read_json config_dir ds))
        (preload_store-Preloaded name d w fresh)
        (λ r p.
          and_go_on-Preloaded f (after_definitions ds) w
            (preload_definitions env read_json config_dir ds) r (after_definitions-IsPointwise ds) p
            (λ w' fresh'. preload_definitions-Preloaded ds w' fresh'))

  after_configs-IsPointwise : (cs : List Config) → IsPointwise (after_configs cs)
  after_configs-IsPointwise [] old old' same = same
  after_configs-IsPointwise (c ∷ cs) old old' same =
      after_configs-IsPointwise cs _ _
        (after_definitions-IsPointwise (stores_of env read_json config_dir c.system) old old' same)

  preload_stores-Preloaded :
      (cs : List Config) (w : Stores)
      → NoneExpired env w
      → Returns (Preloaded (after_configs cs) w) (preload_stores env read_json config_dir cs w)
  unfolding preload_stores
  preload_stores-Preloaded [] w fresh = (fresh, λ name key. refl)
  preload_stores-Preloaded (c ∷ cs) w fresh =
      let f = after_definitions (stores_of env read_json config_dir c.system) in
      Returns->>= (Preloaded f w) (Preloaded (λ old. after_configs cs (f old)) w)
        (preload_definitions env read_json config_dir (stores_of env read_json config_dir c.system)
          w)
        (and_go_on env read_json config_dir (preload_stores env read_json config_dir cs))
        (preload_definitions-Preloaded (stores_of env read_json config_dir c.system) w fresh)
        (λ r p.
          and_go_on-Preloaded f (after_configs cs) w (preload_stores env read_json config_dir cs) r
            (after_configs-IsPointwise cs) p (λ w' fresh'. preload_stores-Preloaded cs w' fresh'))

  -- Where no value has expired, a preloading without an error leaves in every key of every store the
  -- last value that the files and the inline data of the configurations have for it, in their order, a
  -- file before the inline data of its store, or else the value it had.
  pub preload_stores-reading :
      (configs : List Config) (w w' : Stores)
      → NoneExpired env w
      → preload_stores env read_json config_dir configs w ≡ some (w', true)
      → (name key : String)
      → (get_value env name key w'.shared_provider).0
        ≡ after_configs configs (reading env w) name key
  preload_stores-reading configs w w' fresh done name key =
      (Returns-some (Preloaded (after_configs configs) w) (preload_stores-Preloaded configs w fresh)
          done).1
        name key
