-- ===== src/Matcher/Segment.antt =====
-- matchMixedSegment of internal/matcher/matcher.go: a path segment with parameters and literal text,
-- and the regular expression that it becomes.
use Prim.Native.String.{[], ◌∷◌}
use mathlib.Core.Bool.{cond}
use imposter_go.Common.{ℕ, ◌+◌, String, Option, none, some, List, ◌==◌, if◌then◌else◌}
use imposter_go.Common.Lists.{is_empty}
use imposter_go.Common.Map.{Map, lookup}
use imposter_go.Common.Maybe.{◌>>=◌}
use imposter_go.Common.Text.{concat, is_code, cut_prefix}
use imposter_go.Config.{Matcher}
use imposter_go.Config.Match.{match}
use imposter_go.External.{External}

-- A piece of the pattern: quoted text, or the group ([^/]*?) of a named parameter.
pub data Piece : Type 0 where
  literal : String → Piece
  group : String → Piece

abbrev flush : String → List Piece → List Piece
flush text rest = if text == "" then rest else List.◌∷◌ (literal text) rest

-- The loop that finds the parameters, outside and inside of braces: an opening brace that is never
-- closed ends the pattern before it.
unfoldable mutual
  pub parse_literal : String → String → List Piece
  parse_literal [] text = flush text List.[]
  parse_literal (c ∷ s) text =
      let param = flush text (parse_param s "") in
      let more = parse_literal s (concat text (c ∷ [])) in cond (is_code c b'{') param more

  pub parse_param : String → String → List Piece
  parse_param [] name = List.[]
  parse_param (c ∷ s) name =
      let closed = List.◌∷◌ (group name) (parse_literal s "") in
      let more = parse_param s (concat name (c ∷ [])) in cond (is_code c b'}') closed more

-- A lazy group: the shortest text without a slash after which the rest of the pattern matches.
unfoldable pub lazy : (String → Option (List String)) → String → String → Option (List String)
lazy rest [] taken = elim (rest []) [ none ↦ none | some vs ↦ some (List.◌∷◌ taken vs) ]
lazy rest (c ∷ s) taken =
    let longer = lazy rest s (concat taken (c ∷ [])) in
    elim (rest (c ∷ s)) [
      | some vs ↦ some (List.◌∷◌ taken vs)
      | none ↦ cond (is_code c b'/') none longer
    ]

-- FindStringSubmatch of ^…$: the texts of the groups, in order.
unfoldable pub match_pieces : List Piece → String → Option (List String)
match_pieces List.[] s = if s == "" then some List.[] else none
match_pieces (List.◌∷◌ (literal text) ps) s = elim (cut_prefix s text) [
  | none ↦ none
  | some rest ↦ match_pieces ps rest
]
match_pieces (List.◌∷◌ (group name) ps) s = lazy (match_pieces ps) s ""

unfoldable pub param_names : List Piece → List String
param_names List.[] = List.[]
param_names (List.◌∷◌ (literal text) ps) = param_names ps
param_names (List.◌∷◌ (group name) ps) = List.◌∷◌ name (param_names ps)

module _ (x : External) where
  -- The loop over the parameters, with the values that their groups matched: the number of those
  -- with a condition, none if a condition does not hold.
  unfoldable pub check_params : Map Matcher → List String → List String → Option ℕ
  check_params path_params List.[] values = some 0
  check_params path_params (List.◌∷◌ name names) List.[] = none
  check_params path_params (List.◌∷◌ name names) (List.◌∷◌ value values) =
      let rest = check_params path_params names values in
      elim (lookup name path_params) [
        | none ↦ rest
        | some m ↦ if match x m value then (do n ← rest; some (n + 1)) else none
      ]

  -- none where the segment does not match, else its score.
  unfoldable pub match_mixed_segment : String → String → Map Matcher → Option ℕ
  match_mixed_segment resource_segment request_segment path_params =
      let pieces = parse_literal resource_segment "" in
      let names = param_names pieces in
      if is_empty names then none else do
        values ← match_pieces pieces request_segment
        score ← check_params path_params names values
        some (2 + score)
