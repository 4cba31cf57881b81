-- ===== src/Matcher/Score.antt =====
-- CalculateMatchScore of internal/matcher/matcher.go. Each group of conditions gives its part of the
-- score, or none where the request does not match.
use imposter_go.Common.{
  ℕ, ◌+◌, suc, String, Bool, true, false, not, ◌&&◌, Option, none, some, List, [], ◌∷◌, ◌==◌,
  if◌then◌else◌, eqb, ltb, is_none,
}
use imposter_go.Common.Int.{ℤ, pos, negsuc}
use imposter_go.Common.Lists.{length, any, all, is_empty}
use imposter_go.Common.Map.{Map, lookup}
use imposter_go.Common.Maybe.{◌>>=◌}
use imposter_go.Common.Text.{has_prefix, has_suffix, contains, count_char, trim, split}
use imposter_go.Common.Text.Case.{equal_fold}
use imposter_go.Config.{Matcher, RequestMatcher, RequestBody, ExpressionMatchCondition}
use imposter_go.Config.Match.{match, match_condition}
use imposter_go.Exchange.{Request, header_value, query_value, form_value}
use imposter_go.External.{External}
use imposter_go.Matcher.Segment.{match_mixed_segment}
use imposter_go.Matcher.Body.{match_body_condition, single_body_matcher}

abbrev pub negative_match_score : ℤ
negative_match_score = negsuc 0

-- The segments of a path: strings.Split(strings.Trim(path, "/"), "/").
unfoldable pub segments : String → List String
segments path = split (trim path "/") b'/'

-- The list before a last element "*", where there is one.
unfoldable pub before_wildcard : List String → Option (List String)
before_wildcard [] = none
before_wildcard (s ∷ []) = if s == "*" then some [] else none
before_wildcard (s ∷ t ∷ rest) = do init ← before_wildcard (t ∷ rest); some (s ∷ init)

unfoldable pub take : ℕ → List String → List String
take ℕ.zero ss = []
take (suc n) [] = []
take (suc n) (s ∷ ss) = s ∷ take n ss

-- A segment that is one parameter and nothing else.
unfoldable pub is_pure_parameter : String → Bool
is_pure_parameter s =
    has_prefix s "{" && has_suffix s "}" && eqb (count_char s b'{') 1 && eqb (count_char s b'}') 1

-- The score of a group that counts as one condition.
abbrev pub one_if : Bool → Option ℕ
one_if b = if b then some 1 else none

module _ (x : External) where
  unfoldable pub match_segment : Map Matcher → String → String → Option ℕ
  match_segment path_params segment actual =
      if contains segment "{" && contains segment "}"
      then if is_pure_parameter segment
        then elim (lookup (trim segment "{}") path_params) [
          | none ↦ some 0
          | some m ↦ one_if (match x m actual)
        ]
        else match_mixed_segment x segment actual path_params
      else one_if (actual == segment)

  unfoldable pub match_segments : Map Matcher → List String → List String → Option ℕ
  match_segments path_params [] actuals = some 0
  match_segments path_params (s ∷ ss) [] = none
  match_segments path_params (s ∷ ss) (a ∷ as') = do
    score ← match_segment path_params s a
    rest ← match_segments path_params ss as'
    some (score + rest)

  -- The score of the path and whether it ends in a wildcard.
  unfoldable pub match_path : RequestMatcher → String → Option (ℕ × Bool)
  match_path m actual_path =
      if m.path == ""
      then some (0, false)
      else let resource_segments = segments m.path in
        let request_segments = segments actual_path in
        elim (before_wildcard resource_segments) [
          | some base ↦ if ltb (length request_segments) (length base) then none else do
            score ← match_segments m.path_params base (take (length base) request_segments)
            some (score, true)
          | none ↦
              if not (eqb (length resource_segments) (length request_segments)) then none else do
                score ← match_segments m.path_params resource_segments request_segments
                some (score, false)
        ]

  -- The loops over headers, query and form parameters: one for each condition.
  unfoldable pub match_values : (String → String) → Map Matcher → Option ℕ
  match_values actual [] = some 0
  match_values actual ((key, m) ∷ rest) =
      if match x m (actual key) then (do n ← match_values actual rest; some (n + 1)) else none

  unfoldable pub match_form : Map Matcher → Request → Option ℕ
  match_form params r =
      if is_empty params
      then some 0
      else if is_none r.form
      then none
      else match_values (form_value r) params

  unfoldable pub match_body : RequestBody → String → Map String → Option ℕ
  match_body b body system_namespaces = elim (single_body_matcher b) [
    | some c ↦ one_if (match_body_condition x body c system_namespaces)
    | none ↦
        if not (is_empty b.all_of)
        then if all (λ c. match_body_condition x body c system_namespaces) b.all_of
          then some (length b.all_of)
          else none
        else if not (is_empty b.any_of)
        then one_if (any (λ c. match_body_condition x body c system_namespaces) b.any_of)
        else some 0
  ]

  -- `evaluate` is evaluateExpression, which reports no error.
  unfoldable pub match_expressions :
      (String → String) → List ExpressionMatchCondition → List ExpressionMatchCondition → Option ℕ
  match_expressions evaluate all_of any_of =
      if not (is_empty all_of)
      then if all (λ e. match_condition x e.match_condition (evaluate e.expression)) all_of
        then some (length all_of)
        else none
      else if not (is_empty any_of)
      then one_if (any (λ e. match_condition x e.match_condition (evaluate e.expression)) any_of)
      else some 0

  unfoldable pub match_method : String → String → Option ℕ
  match_method method actual = if method == "" then some 0 else one_if (equal_fold method actual)

  -- The sum of the parts.
  unfoldable pub total_score :
      (String → String) → Request → RequestMatcher → Map String → Option (ℕ × Bool)
  total_score evaluate r m system_namespaces = do
    method ← match_method m.method r.method
    (path, wildcard) ← match_path m r.path
    headers ← match_values (header_value r) m.request_headers
    query ← match_values (query_value r) m.query_params
    form ← match_form m.form_params r
    body ← match_body m.request_body r.body system_namespaces
    expressions ← match_expressions evaluate m.all_of m.any_of
    some (method + path + headers + query + form + body + expressions, wildcard)

  -- A negative score where the request does not match.
  unfoldable pub calculate_match_score :
      (String → String) → Request → RequestMatcher → Map String → ℤ × Bool
  calculate_match_score evaluate r m system_namespaces =
      elim (total_score evaluate r m system_namespaces) [
        | none ↦ (negative_match_score, false)
        | some (score, wildcard) ↦ (pos score, wildcard)
      ]
