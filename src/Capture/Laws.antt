-- ===== src/Capture/Laws.antt =====
-- Captures of a request that has matched.
use imposter_go.Common.{
  ◌≤◌, String, ◌≡◌, refl, true, ◌&&◌, Option, none, some, List, [], ◌∷◌, ◌==◌, if◌then◌else◌,
  is_some, arith, get_or, Bool-cases, Option-cases, inl, inr, eq_iff,
}
use imposter_go.Common.Lists.{length}
use imposter_go.Common.Map.{Map, insert}
use imposter_go.Common.Maybe.{>>=-eq-some}
use imposter_go.Common.Text.{has_prefix, has_suffix, trim, trim_left, trim_right, split}
use imposter_go.Common.Value.{string}
use imposter_go.Config.{RequestMatcher, Capture, CaptureConfig}
use imposter_go.Exchange.Context.{Exchange}
use imposter_go.External.{External}
use imposter_go.Matcher.Score.{segments, before_wildcard, match_path}
use imposter_go.Store.{Env}
use imposter_go.Store.Handle.{Store, open_store, put}
use imposter_go.Capture.{
  path_params_from, extract_path_params, get_value_from_capture_config, store_captured, capture_one,
  capture_request_data,
}

-- As many segments in the request are enough.
path_params_from-enough :
    (ss rs : List String) (params : Map String)
    → length ss ≤ length rs
    → is_some (path_params_from ss rs params) ≡ true
unfolding path_params_from
path_params_from-enough [] rs params h = refl
path_params_from-enough (s ∷ ss) [] params h = ground arith
path_params_from-enough (s ∷ ss) (r ∷ rs) params h =
    path_params_from-enough ss rs
      (if has_prefix s "{" && has_suffix s "}" then insert (trim s "{}") r params else params)
      (ground arith)

path_params_from-empty :
    (rs : List String) (params : Map String)
    → is_some (path_params_from (segments "") rs params) ≡ true
unfolding path_params_from has_prefix segments trim trim_left trim_right split
path_params_from-empty [] params = refl
path_params_from-empty (r ∷ rs) params = refl

path_params_from-star :
    (s : String) (rs : List String) (params : Map String)
    → s ≡ "*"
    → is_some (path_params_from (s ∷ []) rs params) ≡ true
unfolding path_params_from has_prefix
path_params_from-star s [] params e = rw e refl
path_params_from-star s (r ∷ rs) params e = refl

path_params_from-wildcard :
    (ss base rs : List String) (params : Map String)
    → before_wildcard ss ≡ some base
    → length base ≤ length rs
    → is_some (path_params_from ss rs params) ≡ true
unfolding path_params_from before_wildcard
path_params_from-wildcard [] base rs params e h = cc
path_params_from-wildcard (s ∷ []) base rs params e h = elim (Bool-cases (s == "*")) [
  | inr other ↦ cc
  | inl star ↦ path_params_from-star s rs params ((eq_iff s "*").0 star)
]
path_params_from-wildcard (s ∷ t ∷ ss) base [] params e h =
    let (init, found, last) = >>=-eq-some (before_wildcard (t ∷ ss)) (λ init. some (s ∷ init)) e in
    ground (arith, last)
path_params_from-wildcard (s ∷ t ∷ ss) base (r ∷ rs) params e h =
    let (init, found, last) = >>=-eq-some (before_wildcard (t ∷ ss)) (λ init. some (s ∷ init)) e in
    path_params_from-wildcard (t ∷ ss) init rs
      (if has_prefix s "{" && has_suffix s "}" then insert (trim s "{}") r params else params) found
      (ground (arith, last))

-- The segments of a request whose path matches carry all the parameters of the resource's path.
extract_path_params-match :
    (x : External) (m : RequestMatcher) (path : String)
    → is_some (match_path x m path) ≡ true
    → is_some (extract_path_params path m.path) ≡ true
unfolding extract_path_params match_path
extract_path_params-match x m path h = elim (Bool-cases (m.path == "")) [
  | inl empty ↦ rw ((eq_iff m.path "").0 empty) (path_params_from-empty (segments path) [])
  | inr other ↦ elim (Option-cases (before_wildcard (segments m.path))) [
    | inr (base, star) ↦
        path_params_from-wildcard (segments m.path) base (segments path) [] star
          (ground (arith, star, other))
    | inl whole ↦
        path_params_from-enough (segments m.path) (segments path) [] (ground (arith, whole, other))
  ]
]

module _ (x : External) (template : Exchange → Option RequestMatcher → String → String)
    (env : Env) where
  get_value_from_capture_config-some :
      (m : RequestMatcher) (e : Exchange) (key : CaptureConfig) (default : String)
      → is_some (extract_path_params e.request.path m.path) ≡ true
      → is_some (get_value_from_capture_config x template env m e key default) ≡ true
  unfolding get_value_from_capture_config
  get_value_from_capture_config-some m e key default h = ground arith

  some_of : {A : Type 0} (o : Option A) → is_some o ≡ true → (a : A) × (o ≡ some a)
  some_of none h = cc
  some_of (some a) h = (a, refl)

  open_store-some :
      (name : String) (s : Option Store) → is_some s ≡ true → is_some (open_store name s) ≡ true
  unfolding open_store
  open_store-some name s h = ground arith

  store_captured-some :
      (c : Capture) (item_name value : String) (e : Exchange)
      → is_some e.request_store ≡ true
      → (e' : Exchange) × (store_captured x template env c item_name value e ≡ some e')
        × (e'.request ≡ e.request)
        × (e'.request_store ≡ e.request_store)
  unfolding store_captured
  store_captured-some c item_name value e opened =
      let name = if c.store == "" then "request" else c.store in
      let (s, found) =
        some_of (open_store name e.request_store) (open_store-some name e.request_store opened) in
      elim (Bool-cases (value == "")) [
        | inl empty ↦ (e, rw empty refl, refl, refl)
        | inr other ↦ (
          record e { stores = put env s item_name (string value) e.stores },
          rw (other, found) refl,
          refl,
          refl,
        )
      ]

  -- One capture leaves the request and the handle on the request's store as they are.
  capture_one-some :
      (m : RequestMatcher) (key : String) (c : Capture) (e : Exchange)
      → is_some (extract_path_params e.request.path m.path) ≡ true
      → is_some e.request_store ≡ true
      → (e' : Exchange) × (capture_one x template env m key c e ≡ some e')
        × (e'.request ≡ e.request)
        × (e'.request_store ≡ e.request_store)
  unfolding capture_one
  capture_one-some m key c e params opened =
      let (name, n) =
        some_of (get_value_from_capture_config x template env m e c.key key)
          (get_value_from_capture_config-some m e c.key key params) in
      let (value, v) =
        some_of (get_value_from_capture_config x template env m e c.capture_config "")
          (get_value_from_capture_config-some m e c.capture_config "" params) in
      elim (Bool-cases (get_or c.enabled true)) [
        | inr off ↦ (e, rw off refl, refl, refl)
        | inl on ↦
            let (e', done, same, store) = store_captured-some c name value e opened in
            (e', rw (on, n, v) done, same, store)
      ]

  -- The captures of a resource whose path the request matches never panic, where the exchange has a
  -- request store.
  capture_request_data-some :
      (m : RequestMatcher) (captures : Map Capture) (e : Exchange)
      → is_some (match_path x m e.request.path) ≡ true
      → is_some e.request_store ≡ true
      → is_some (capture_request_data x template env m captures e) ≡ true
  unfolding capture_request_data
  capture_request_data-some m [] e matched opened = refl
  capture_request_data-some m ((key, c) ∷ captures) e matched opened =
      let (e', done, same, store) =
        capture_one-some m key c e (extract_path_params-match x m e.request.path matched) opened in
      rw done (capture_request_data-some m captures e' (rw same matched) (rw store opened))
