-- ===== src/Matcher/ScoreLaws.antt =====
-- The score against an independent description: which conditions must hold, and how they count.
use imposter_go.Common.{
  ℕ, ◌+◌, String, ◌≡◌, refl, Bool, ◌&&◌, ◌||◌, Option, none, some, List, [], ◌∷◌, ◌==◌,
  if◌then◌else◌, is_some, arith,
}
use imposter_go.Common.Lists.{length, any, all, is_empty}
use imposter_go.Common.Map.{Map}
use imposter_go.Common.Maybe.{◌>>=◌}
use imposter_go.Common.Text.Case.{equal_fold}
use imposter_go.Config.{Matcher, RequestMatcher, RequestBody, ExpressionMatchCondition}
use imposter_go.Config.Match.{match, match_condition}
use imposter_go.Exchange.{Request, header_value, query_value, form_value}
use imposter_go.External.{External}
use imposter_go.Matcher.Body.{match_body_condition, single_body_matcher}
use imposter_go.Matcher.Score.{
  match_path, match_values, match_form, match_body, match_expressions, match_method, total_score,
}

module _ (x : External) where
  -- Every condition of a map holds of the value with its key.
  abbrev pub all_hold : (String → String) → Map Matcher → Bool
  all_hold actual conditions = all (λ c. match x c.1 (actual c.0)) conditions

  pub match_values-all :
      (actual : String → String) (conditions : Map Matcher)
      → match_values x actual conditions
        ≡ (if all_hold actual conditions then some (length conditions) else none)
  unfolding match_values
  match_values-all actual [] = refl
  match_values-all actual ((key, m) ∷ rest) = ground (arith, match_values-all actual rest)

  abbrev pub body_holds : RequestBody → String → Map String → Bool
  body_holds b body namespaces = elim (single_body_matcher b) [
    | some c ↦ match_body_condition x body c namespaces
    | none ↦
        if is_empty b.all_of
        then is_empty b.any_of || any (λ c. match_body_condition x body c namespaces) b.any_of
        else all (λ c. match_body_condition x body c namespaces) b.all_of
  ]

  -- How many conditions on the body count: a single one hides the lists, and "all of" hides
  -- "any of", which counts once.
  abbrev pub body_weight : RequestBody → ℕ
  body_weight b = elim (single_body_matcher b) [
    | some c ↦ 1
    | none ↦ if is_empty b.all_of then (if is_empty b.any_of then 0 else 1) else length b.all_of
  ]

  abbrev pub expressions_hold :
      (String → String) → List ExpressionMatchCondition → List ExpressionMatchCondition → Bool
  expressions_hold evaluate all_of any_of =
      if is_empty all_of
      then is_empty any_of
        || any (λ e. match_condition x e.match_condition (evaluate e.expression)) any_of
      else all (λ e. match_condition x e.match_condition (evaluate e.expression)) all_of

  abbrev pub expressions_weight : List ExpressionMatchCondition → List ExpressionMatchCondition → ℕ
  expressions_weight all_of any_of =
      if is_empty all_of then (if is_empty any_of then 0 else 1) else length all_of

  -- All conditions of a matcher but those on the path.
  abbrev pub conditions_hold : (String → String) → Request → RequestMatcher → Map String → Bool
  conditions_hold evaluate r m namespaces =
      (m.method == "" || equal_fold m.method r.method)
      && all_hold (header_value r) m.request_headers
      && all_hold (query_value r) m.query_params
      && (is_empty m.form_params || (is_some r.form && all_hold (form_value r) m.form_params))
      && body_holds m.request_body r.body namespaces
      && expressions_hold evaluate m.all_of m.any_of

  abbrev pub conditions_weight : RequestMatcher → ℕ
  conditions_weight m =
      (if m.method == "" then 0 else 1)
      + length m.request_headers
      + length m.query_params
      + length m.form_params
      + body_weight m.request_body
      + expressions_weight m.all_of m.any_of

  match_form-all :
      (params : Map Matcher) (r : Request)
      → match_form x params r ≡ (
          if is_empty params || (is_some r.form && all_hold (form_value r) params)
          then some (length params)
          else none)
  unfolding match_form
  match_form-all [] r = refl
  match_form-all (p ∷ ps) r = ground (arith, match_values-all (form_value r) (p ∷ ps))

  match_body-holds :
      (b : RequestBody) (body : String) (namespaces : Map String)
      → match_body x b body namespaces
        ≡ (if body_holds b body namespaces then some (body_weight b) else none)
  unfolding match_body
  match_body-holds b body namespaces = ground arith

  match_expressions-hold :
      (evaluate : String → String) (all_of any_of : List ExpressionMatchCondition)
      → match_expressions x evaluate all_of any_of ≡ (
          if expressions_hold evaluate all_of any_of
          then some (expressions_weight all_of any_of)
          else none)
  unfolding match_expressions
  match_expressions-hold evaluate all_of any_of = ground arith

  match_method-fold :
      (method actual : String)
      → match_method x method actual ≡ (
          if method == "" || equal_fold method actual
          then some (if method == "" then 0 else 1)
          else none)
  unfolding match_method
  match_method-fold method actual = ground arith

  -- What the score of a path and of the rest of the conditions come to.
  abbrev pub scored : Bool → ℕ → Option (ℕ × Bool) → Option (ℕ × Bool)
  scored b n path = do (score, wildcard) ← path; if b then some (score + n, wildcard) else none

  -- The score of a matcher is the score of its path and the weight of its other conditions, where
  -- all of them hold; where one does not, or the path does not match, there is no score. A method, a
  -- header, a query or form parameter and a single condition on the body weigh one each, a list of
  -- conditions that must all hold weighs its length, a list of which one must hold weighs one.
  pub total_score-sum :
      (evaluate : String → String) (r : Request) (m : RequestMatcher) (namespaces : Map String)
      → total_score x evaluate r m namespaces
        ≡ scored
            (conditions_hold evaluate r m namespaces)
            (conditions_weight m)
            (match_path x m r.path)
  unfolding total_score
  total_score-sum evaluate r m namespaces = ground (
    arith,
    match_method-fold m.method r.method,
    match_values-all (header_value r) m.request_headers,
    match_values-all (query_value r) m.query_params,
    match_form-all m.form_params r,
    match_body-holds m.request_body r.body namespaces,
    match_expressions-hold evaluate m.all_of m.any_of,
  )
