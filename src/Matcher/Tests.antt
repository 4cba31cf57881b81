-- ===== src/Matcher/Tests.antt =====
-- Matches of concrete requests. The texts are compared by a stand-in for the regular expressions.
use imposter_go.Common.{
  String, ◌≡◌, refl, Bool, true, false, none, some, List, [], ◌∷◌, ◌==◌, ltb, is_some,
}
use imposter_go.Common.Int.{pos, ◌≤ℤ◌}
use imposter_go.Common.Lists.{All}
use imposter_go.Common.Text.{cut_prefix}
use imposter_go.Config.{Resource, RequestMatcher, string_matcher, empty_matcher, empty_resource}
use imposter_go.Exchange.{Request}
use imposter_go.External.{External, failed, not_exist}
use imposter_go.Matcher.Segment.{Piece, literal, group, match_pieces, lazy}
use imposter_go.Matcher.SegmentLaws.{Renders, match_pieces_sound, match_pieces_complete}
use imposter_go.Matcher.Best.{MatchResult, find_best_match}
use imposter_go.Matcher.BestLaws.{rank, first_of_rank, count_rank, find_best_match-best}
use imposter_go.Matcher.Score.{total_score, match_path}
use imposter_go.Matcher.ScoreLaws.{scored, conditions_hold, conditions_weight, total_score-sum}

abbrev pub plain : External
plain = record {
  regexp2_match = λ pattern text. pattern == text;
  json_unmarshal = λ text. none;
  jsonpath_get = λ path v. failed "unknown key";
  xpath_query = λ doc path namespaces. none;
  sprint = λ v. "";
  read_file = λ path. not_exist;
  mime_type_by_extension = λ extension. "";
}

abbrev two_pieces : List Piece
two_pieces = literal "user-" ∷ group "id" ∷ []

matched : match_pieces two_pieces "user-7" ≡ some ("7" ∷ [])
unfolding match_pieces lazy cut_prefix
matched = refl

rendered : Renders two_pieces ("7" ∷ []) "user-7"
rendered = match_pieces_sound two_pieces "user-7" ("7" ∷ []) matched

match_pieces_sound_example : Renders two_pieces ("7" ∷ []) "user-7"
match_pieces_sound_example = match_pieces_sound two_pieces "user-7" ("7" ∷ []) matched

match_pieces_complete_example : is_some (match_pieces two_pieces "user-7") ≡ true
match_pieces_complete_example = match_pieces_complete two_pieces ("7" ∷ []) "user-7" rendered

abbrev any_resource : Resource
any_resource = record { base = empty_resource; security = none }

abbrev wildcard_match : MatchResult
wildcard_match = record {
  resource = any_resource;
  score = pos 3;
  wildcard = true;
  runtime_generated = false;
}

abbrev exact_match : MatchResult
exact_match = record {
  resource = any_resource;
  score = pos 3;
  wildcard = false;
  runtime_generated = false;
}

find_best_match-best_example :
    (best : MatchResult) × (tie : Bool) × (find_best_match (wildcard_match ∷ exact_match ∷ [])
      ≡ some (best, tie))
    × All (λ k. rank k ≤ℤ rank best) (wildcard_match ∷ exact_match ∷ [])
    × (first_of_rank (rank best) (wildcard_match ∷ exact_match ∷ []) ≡ some best)
    × (tie ≡ ltb 1 (count_rank (rank best) (wildcard_match ∷ exact_match ∷ [])))
find_best_match-best_example = find_best_match-best wildcard_match (exact_match ∷ [])

-- A request with a header, and a matcher for its path and the header.
abbrev pub get_users : Request
get_users = record {
  method = "GET";
  path = "/users/7";
  headers = ("Accept", "text/plain" ∷ []) ∷ [];
  query = [];
  form = none;
  body = "";
}

abbrev users : RequestMatcher
users = record empty_matcher {
  method = "GET";
  path = "/users/{id}";
  request_headers = ("accept", string_matcher "text/plain") ∷ [];
}

abbrev constant : String → String
constant expression = ""

total_score-sum_example :
    total_score plain constant get_users users []
    ≡ scored plain
        (conditions_hold plain constant get_users users [])
        (conditions_weight plain users)
        (match_path plain users get_users.path)
total_score-sum_example = total_score-sum plain constant get_users users []
