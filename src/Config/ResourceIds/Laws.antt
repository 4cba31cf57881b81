-- ===== src/Config/ResourceIds/Laws.antt =====
-- Every resource has a key.
use text.Mathlib.TextLemmas.{append-eq-nil_iff}
use imposter_go.Common.{
  String, ◌≡◌, true, false, List, [], ◌∷◌, ◌==◌, if◌then◌else◌, arith, eq_iff, Bool-cases, inl, inr,
}
use imposter_go.Common.Lists.{All}
use imposter_go.Common.Text.{concat}
use imposter_go.Common.Text.Case.{to_upper}
use imposter_go.Config.{RequestMatcher, Resource, Interceptor, Config}
use imposter_go.Config.ResourceIds.{
  base_key, generate_resource_key, with_resource_id, resources_with_ids, interceptors_with_ids,
  pre_calculate_resource_id,
}

-- A text with a colon in it is not empty.
middle : (a b : String) → (concat a (concat ":" b) == "") ≡ false
middle a b = elim (Bool-cases (concat a (concat ":" b) == "")) [
  | inr other ↦ other
  | inl empty ↦
      let rest = (append-eq-nil_iff.0 ((eq_iff (concat a (concat ":" b)) "").0 empty)).1 in
      let colon : (":" == "") ≡ true = (eq_iff ":" "").1 (append-eq-nil_iff.0 rest).0 in cc colon
]

module _ (generate_matcher_hash : RequestMatcher → String) where
  generate_resource_key-some :
      (method name : String) (m : RequestMatcher)
      → (generate_resource_key generate_matcher_hash method name m == "") ≡ false
  unfolding generate_resource_key base_key
  generate_resource_key-some method name m =
      let upper = to_upper (if method == "" then "*" else method) in
      let label = if name == "" then "*" else name in
      ground (
        arith,
        middle upper label,
        middle (concat upper (concat ":" label)) (generate_matcher_hash m),
      )

  resources_with_ids-All :
      (plugin : String) (rs : List Resource)
      → All
          (λ r. (r.resource_id == "") ≡ false)
          (resources_with_ids generate_matcher_hash plugin rs)
  unfolding resources_with_ids with_resource_id
  resources_with_ids-All plugin [] = tt
  resources_with_ids-All plugin (r ∷ rs) = (
    generate_resource_key-some r.method (if plugin == "soap" then r.operation else r.path)
        r.request_matcher,
    resources_with_ids-All plugin rs,
  )

  interceptors_with_ids-All :
      (plugin : String) (is : List Interceptor)
      → All
          (λ r. (r.resource_id == "") ≡ false)
          (interceptors_with_ids generate_matcher_hash plugin is)
  unfolding interceptors_with_ids with_resource_id
  interceptors_with_ids-All plugin [] = tt
  interceptors_with_ids-All plugin (i ∷ is) = (
    generate_resource_key-some i.method (if plugin == "soap" then i.operation else i.path)
        i.request_matcher,
    interceptors_with_ids-All plugin is,
  )

  -- Once the identifiers have been calculated, no resource and no interceptor is without one,
  -- whatever its method, its name and the hash are: the limiter never has to make a key at run time.
  pre_calculate_resource_id-All :
      (cfg : Config)
      → All
          (λ r. (r.resource_id == "") ≡ false)
          (pre_calculate_resource_id generate_matcher_hash cfg).resources
        × All
            (λ i. (i.resource_id == "") ≡ false)
            (pre_calculate_resource_id generate_matcher_hash cfg).interceptors
  unfolding pre_calculate_resource_id
  pre_calculate_resource_id-All cfg = (
    resources_with_ids-All cfg.plugin cfg.resources,
    interceptors_with_ids-All cfg.plugin cfg.interceptors,
  )
