-- ===== src/RateLimiter/Counting.antt =====
-- CheckAndIncrement and Decrement over a store whose counters count.
use imposter_go.Common.{ℕ, ◌+◌, ◌<◌, String, ◌≡◌, some, List, ◌∷◌, arith, is_none, if◌then◌else◌}
use imposter_go.Common.Int.{ℤ, pos, two63}
use imposter_go.Config.{ConcurrencyLimit}
use imposter_go.RateLimiter.{
  Counters, find_matching_limit, get_resource_counter_key, decide, check_and_increment,
}

-- The counters of a store count by ones, from 0 up to the largest int64. `value` reads a counter.
pub record CounterLaws {S : Type 0} (c : Counters S) (value : String → S → ℤ) : Type 0 where
  pub increment_returns :
      (k : String) (s : S) (n : ℕ)
      → value k s ≡ pos n
      → n + 1 < two63
      → (c.increment k (pos 1) s).0 ≡ some (pos (n + 1))
  pub increment_counts :
      (k : String) (s : S) (n : ℕ)
      → value k s ≡ pos n
      → n + 1 < two63
      → value k (c.increment k (pos 1) s).1 ≡ pos (n + 1)
  pub decrement_counts :
      (k : String) (s : S) (n : ℕ)
      → value k s ≡ pos (n + 1)
      → n + 1 < two63
      → value k (c.decrement k (pos 1) s).1 ≡ pos n

module _ {S : Type 0} (c : Counters S) (value : String → S → ℤ) (laws : CounterLaws c value) where
  decide-counts :
      (key : String) (limits : List ConcurrencyLimit) (s : S) (n : ℕ)
      → value key s ≡ pos (n + 1)
      → n + 1 < two63
      → ((decide c key limits (some (pos (n + 1))) s).0 ≡ find_matching_limit (pos (n + 1)) limits)
        × (value key (decide c key limits (some (pos (n + 1))) s).1
            ≡ (if is_none (find_matching_limit (pos (n + 1)) limits) then pos (n + 1) else pos n))
  unfolding decide
  decide-counts key limits s n e lt = ground (arith, laws.decrement_counts key s n e lt)

  -- With `n` requests counted, CheckAndIncrement returns the limit that n + 1 requests exceed, if
  -- there is one; it counts the request then and only then that there is none.
  pub check_and_increment-counts :
      (resource_key : String) (l : ConcurrencyLimit) (ls : List ConcurrencyLimit) (s : S) (n : ℕ)
      → value (get_resource_counter_key resource_key) s ≡ pos n
      → n + 1 < two63
      → ((check_and_increment c resource_key (l ∷ ls) s).0
          ≡ find_matching_limit (pos (n + 1)) (l ∷ ls))
        × (value
              (get_resource_counter_key resource_key)
              (check_and_increment c resource_key (l ∷ ls) s).1
            ≡ (if is_none (find_matching_limit (pos (n + 1)) (l ∷ ls)) then pos (n + 1) else pos n))
  unfolding check_and_increment
  check_and_increment-counts resource_key l ls s n e lt =
      let key = get_resource_counter_key resource_key in
      rw (laws.increment_returns key s n e lt) (
        decide-counts key (l ∷ ls) (c.increment key (pos 1) s).1 n
          (laws.increment_counts key s n e lt) lt)
