-- ===== src/Matcher/Body.antt =====
-- Body conditions of internal/matcher/matcher.go, and internal/query/jsonpath.go.
use imposter_go.Common.{String, Bool, false, not, ◌||◌, Option, none, some, [], ◌==◌, if◌then◌else◌}
use imposter_go.Common.Map.{Map, copy_into}
use imposter_go.Common.Text.{has_prefix}
use imposter_go.Common.Value.{Value, nil, string, array, Items, end, item}
use imposter_go.Config.{BodyMatchCondition, RequestBody}
use imposter_go.Config.Match.{match_condition}
use imposter_go.External.{External, found, failed}

module _ (x : External) where
  -- JsonPathQuery: none where it reports no success. A query for an unknown key gives nil.
  unfoldable pub json_path_query : String → String → Option Value
  json_path_query doc json_path_expr = elim (x.json_unmarshal doc) [
    | none ↦ none
    | some json_data ↦ elim (x.jsonpath_get json_path_expr json_data) [
      | found v ↦ some v
      | failed message ↦ if has_prefix message "unknown key" then some nil else none
    ]
  ]

  -- Whether a text among the items meets the condition.
  any_text : BodyMatchCondition → Items → Bool
  any_text c end = false
  any_text c (item (string s) rest) = match_condition x c.match_condition s || any_text c rest
  any_text c (item v rest) = any_text c rest

  match_result : BodyMatchCondition → Value → Bool
  match_result c (string s) = match_condition x c.match_condition s
  match_result c (array items) = any_text c items
  match_result c nil = match_condition x c.match_condition ""
  match_result c v = match_condition x c.match_condition (x.sprint v)

  unfoldable pub match_json_path : String → BodyMatchCondition → Bool
  unfolding match_result any_text json_path_query
  match_json_path body c = elim (json_path_query body c.json_path) [
    | none ↦ false
    | some v ↦ match_result c v
  ]

  -- The namespaces of the condition take precedence over those of the system.
  unfoldable pub match_x_path : String → BodyMatchCondition → Map String → Bool
  match_x_path body c system_namespaces =
      elim (x.xpath_query body c.x_path
        (copy_into c.xml_namespaces (copy_into system_namespaces []))) [
          | none ↦ false
          | some result ↦ match_condition x c.match_condition result
        ]

  unfoldable pub match_body_condition : String → BodyMatchCondition → Map String → Bool
  unfolding match_json_path match_x_path
  match_body_condition body c system_namespaces =
      if not (c.json_path == "")
      then match_json_path body c
      else if not (c.x_path == "")
      then match_x_path body c system_namespaces
      else match_condition x c.match_condition body

-- The single body condition, where the matcher has one that says something.
unfoldable pub single_body_matcher : RequestBody → Option BodyMatchCondition
single_body_matcher b = elim b.body_match_condition [
  | none ↦ none
  | some c ↦
      if not (c.value == "") || not (c.json_path == "") || not (c.x_path == "")
      then some c
      else none
]
