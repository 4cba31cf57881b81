-- ===== src/Matcher/Best.antt =====
-- FindBestMatch of internal/matcher/matcher.go.
use imposter_go.Common.{
  Bool, true, false, not, ◌&&◌, Option, none, some, List, [], ◌∷◌, if◌then◌else◌,
}
use imposter_go.Common.Int.{ℤ, ltb_ℤ, eqb_ℤ}
use imposter_go.Config.{Resource}

-- A match of a resource. (The field for interceptors is never set.)
pub record MatchResult : Type 0 where
  pub resource : Resource
  pub score : ℤ
  pub wildcard : Bool
  pub runtime_generated : Bool

abbrev pub same : Bool → Bool → Bool
same true b = b
same false b = not b

-- One round of the loop.
unfoldable pub consider : MatchResult × Bool → MatchResult → MatchResult × Bool
consider (best, tie) m =
    if eqb_ℤ m.score best.score
    then if best.wildcard && not m.wildcard
      then (m, false)
      else if same best.wildcard m.wildcard
      then if best.runtime_generated && not m.runtime_generated
        then (m, false)
        else if same best.runtime_generated m.runtime_generated
        then (best, true)
        else (best, tie)
      else (best, tie)
    else if ltb_ℤ best.score m.score
    then (m, false)
    else (best, tie)

unfoldable pub best_of : MatchResult × Bool → List MatchResult → MatchResult × Bool
best_of state [] = state
best_of state (m ∷ ms) = best_of (consider state m) ms

-- The best match and whether there is another as good; none for no matches.
unfoldable pub find_best_match : List MatchResult → Option (MatchResult × Bool)
find_best_match [] = none
find_best_match (m ∷ ms) = some (best_of (m, false) ms)
