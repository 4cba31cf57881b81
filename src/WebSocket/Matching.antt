-- ===== src/WebSocket/Matching.antt =====
-- Which resources an event of a connection matches.
use mathlib.Core.List.{map}
use imposter_go.Common.{
  String, ◌≡◌, refl, ap, Bool, true, false, not, ◌&&◌, List, [], ◌∷◌, ◌==◌, if◌then◌else◌, arith,
  Bool-cases, inl, inr,
}
use imposter_go.Common.Int.{ℤ, pos, ltb_ℤ, ◌+ℤ◌}
use imposter_go.Common.Lists.{All}
use imposter_go.Config.{Config, Resource, normalised_on}
use imposter_go.Exchange.Context.{Exchange}
use imposter_go.Matcher.Best.{MatchResult}
use imposter_go.Pipeline.{Engines, match_all}
use imposter_go.WebSocket.{event_hooks, plain_score}

module _ (g : Engines) (cfg : Config) (event : String) (e : Exchange) where
  -- A resource for the event that the upgrade request and the message do not rule out.
  abbrev pub listens : Resource → Bool
  listens r =
      (normalised_on r.request_matcher == event)
      && not (ltb_ℤ (plain_score g cfg e r.request_matcher).0 (pos 0))

  abbrev pub listening : List Resource → List Resource
  listening [] = []
  listening (r ∷ rs) = let rest = listening rs in if listens r then r ∷ rest else rest

  -- What a match says of its resource.
  abbrev pub IsScored : MatchResult → Type 0
  IsScored m =
      (m.score ≡ (plain_score g cfg e m.resource.request_matcher).0 +ℤ pos 1)
      × (m.wildcard ≡ (plain_score g cfg e m.resource.request_matcher).1)
      × (m.runtime_generated ≡ m.resource.runtime_generated)

  abbrev hook_score : Resource → ℤ × Bool
  hook_score r = (event_hooks g cfg event).calculate_score e r.request_matcher

  score_listening :
      (r : Resource)
      → listens r ≡ true
      → (hook_score r ≡ (
        (plain_score g cfg e r.request_matcher).0 +ℤ pos 1,
        (plain_score g cfg e r.request_matcher).1,
      ))
        × (ltb_ℤ (pos 0) (hook_score r).0 ≡ true)
  unfolding event_hooks ◌+ℤ◌
  score_listening r h = ground arith

  score_deaf : (r : Resource) → listens r ≡ false → ltb_ℤ (pos 0) (hook_score r).0 ≡ false
  unfolding event_hooks ◌+ℤ◌
  score_deaf r h = ground arith

  -- For an event of a connection the resources that match are those for the event that the plain score
  -- does not rule out, in their order; the event adds one to the score.
  pub match_all-listening :
      (rs : List Resource)
      → (map (λ m. m.resource) (match_all g (event_hooks g cfg event) cfg rs e) ≡ listening rs)
        × All IsScored (match_all g (event_hooks g cfg event) cfg rs e)
  unfolding match_all
  match_all-listening [] = (refl, tt)
  match_all-listening (r ∷ rs) =
      let (same, scored) = match_all-listening rs in
      elim (Bool-cases (listens r)) [
        | inl heard ↦
            let (score, positive) = score_listening r heard in
            rw (positive, heard)
              (
                ap (λ rest. r ∷ rest) same,
                ((ap (λ s. s.0) score, ap (λ s. s.1) score, refl), scored),
              )
        | inr deaf ↦ rw (score_deaf r deaf, deaf) (same, scored)
      ]
