-- ===== src/Matcher/BestLaws.antt =====
-- FindBestMatch picks by one order, and reports exactly the ties at the top of it.
use imposter_go.Common.{
  ℕ, suc, ◌≡◌, refl, Bool, true, false, ◌||◌, Option, none, some, List, [], ◌∷◌, arith,
  if◌then◌else◌, ltb,
}
use imposter_go.Common.Int.{ℤ, pos, ◌+ℤ◌, scale, ◌≤ℤ◌, ltb_ℤ, eqb_ℤ}
use imposter_go.Common.Lists.{All}
use imposter_go.Matcher.Best.{MatchResult, consider, best_of, find_best_match}

-- By score, then without a wildcard first, then those not generated at run time.
preference : Bool → Bool → ℕ
preference true true = 0
preference true false = 1
preference false true = 2
preference false false = 3

unfoldable pub rank : MatchResult → ℤ
unfolding preference ◌+ℤ◌ scale
rank m = scale m.score 4 +ℤ pos (preference m.wildcard m.runtime_generated)

abbrev step : ℤ → ℤ → MatchResult → Bool → MatchResult → MatchResult × Bool
step rm rb best tie m =
    if eqb_ℤ rm rb then (best, true) else if ltb_ℤ rb rm then (m, false) else (best, tie)

-- A round of the loop goes by the rank.
consider-rank :
    (best : MatchResult) (tie : Bool) (m : MatchResult)
    → consider (best, tie) m ≡ step (rank m) (rank best) best tie m
unfolding consider rank
consider-rank best tie m = ground arith

-- The number of matches of a rank, and the first of them.
unfoldable pub count_rank : ℤ → List MatchResult → ℕ
count_rank r [] = 0
count_rank r (m ∷ ms) = if eqb_ℤ (rank m) r then suc (count_rank r ms) else count_rank r ms

unfoldable pub first_of_rank : ℤ → List MatchResult → Option MatchResult
first_of_rank r [] = none
first_of_rank r (m ∷ ms) = if eqb_ℤ (rank m) r then some m else first_of_rank r ms

-- What the loop has done from a best match and a tie, over the matches `ms`, when it ends in `r`.
record Done (best : MatchResult) (tie : Bool) (ms : List MatchResult) (r : MatchResult × Bool)
    : Type 0 where
  above : rank best ≤ℤ rank r.0
  all_above : All (λ m. rank m ≤ℤ rank r.0) ms
  tied : r.1 ≡ (
      if eqb_ℤ (rank best) (rank r.0)
      then tie || ltb 0 (count_rank (rank r.0) ms)
      else ltb 1 (count_rank (rank r.0) ms))
  first : first_of_rank (rank r.0) (best ∷ ms) ≡ some r.0

Done-cons :
    (best : MatchResult) (tie : Bool) (m : MatchResult) (ms : List MatchResult)
    (r : MatchResult × Bool)
    → Done (step (rank m) (rank best) best tie m).0 (step (rank m) (rank best) best tie m).1 ms r
    → Done best tie (m ∷ ms) r
unfolding count_rank first_of_rank
Done-cons best tie m ms r h = record {
  above = ground arith;
  all_above = (ground arith, h.all_above);
  tied = ground arith;
  first = ground arith;
}

best_of-Done :
    (best : MatchResult) (tie : Bool) (ms : List MatchResult)
    → Done best tie ms (best_of (best, tie) ms)
unfolding best_of
best_of-Done best tie [] = record {
  above = ground arith;
  all_above = tt;
  tied = unfold count_rank in ground arith;
  first = unfold first_of_rank in ground arith;
}
best_of-Done best tie (m ∷ ms) = rw (consider-rank best tie m) (
    Done-cons best tie m ms _ (
      best_of-Done (step (rank m) (rank best) best tie m).0 (step (rank m) (rank best) best tie m).1
        ms))

-- FindBestMatch returns a match of the highest rank (the score, then no wildcard, then not being
-- generated at run time), of those the first, and reports a tie exactly when another match has the
-- same rank.
pub find_best_match-best :
    (m : MatchResult) (ms : List MatchResult)
    → (best : MatchResult) × (tie : Bool) × (find_best_match (m ∷ ms) ≡ some (best, tie))
      × All (λ k. rank k ≤ℤ rank best) (m ∷ ms)
      × (first_of_rank (rank best) (m ∷ ms) ≡ some best)
      × (tie ≡ ltb 1 (count_rank (rank best) (m ∷ ms)))
unfolding find_best_match
find_best_match-best m ms =
    let h = best_of-Done m false ms in
    let r = best_of (m, false) ms in
    (
      r.0,
      r.1,
      refl,
      (h.above, h.all_above),
      h.first,
      unfold count_rank in (let t = h.tied in ground arith),
    )
