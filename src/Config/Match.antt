-- ===== src/Config/Match.antt =====
-- The Match methods of internal/config/model.go.
use imposter_go.Common.{String, Bool, false, not, ◌==◌, if◌then◌else◌}
use imposter_go.Common.Text.{contains}
use imposter_go.Config.{MatchCondition, Matcher, string_matcher, condition}
use imposter_go.External.{External}

module _ (x : External) where
  -- MatchCondition.Match
  unfoldable pub match_condition : MatchCondition → String → Bool
  match_condition m actual =
      if m.operator == "EqualTo"
      then actual == m.value
      else if m.operator == ""
      then actual == m.value
      else if m.operator == "NotEqualTo"
      then not (actual == m.value)
      else if m.operator == "Exists"
      then not (actual == "")
      else if m.operator == "NotExists"
      then actual == ""
      else if m.operator == "Contains"
      then contains actual m.value
      else if m.operator == "NotContains"
      then not (contains actual m.value)
      else if m.operator == "Matches"
      then x.regexp2_match m.value actual
      else if m.operator == "NotMatches"
      then not (x.regexp2_match m.value actual)
      else false

  -- Match of either Matcher
  unfoldable pub match : Matcher → String → Bool
  match (string_matcher s) actual = s == actual
  match (condition m) actual = match_condition m actual
