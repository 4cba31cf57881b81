-- ===== src/RateLimiter/InMemory.antt =====
-- The counters that the limiter finds in the shared in-memory provider, under its store's name.
use imposter_go.Common.{ℕ, ◌+◌, ◌<◌, String, ◌≡◌, ap, some, arith}
use imposter_go.Common.Int.{ℤ, pos, ◌+ℤ◌, neg, wrap64, two63}
use imposter_go.Store.{Env, as_number, get_value, atomic_decrement}
use imposter_go.Store.Handle.{Store, Stores, shared, increment, decrement}
use imposter_go.Store.Counter.{atomic_increment-number, get_value-atomic_increment}
use imposter_go.RateLimiter.{Counters, rate_limiter_store_name}
use imposter_go.RateLimiter.Counting.{CounterLaws}

-- store.Open(rateLimiterStoreName, nil)
abbrev pub rate_limiter_store : Store
rate_limiter_store = record { name = rate_limiter_store_name; provider = shared }

module _ (env : Env) where
  unfoldable pub counters : Counters Stores
  counters = record {
    increment =
        λ key delta w. let (n, w') = increment env rate_limiter_store key delta w in (some n, w');
    decrement =
        λ key delta w. let (n, w') = decrement env rate_limiter_store key delta w in (some n, w');
  }

  -- The number that is visible under a key.
  unfoldable pub value : String → Stores → ℤ
  value key w = as_number (get_value env rate_limiter_store_name key w.shared_provider).0

  plus_one : (n : ℕ) → n + 1 < two63 → wrap64 (pos n +ℤ pos 1) ≡ pos (n + 1)
  unfolding ◌+ℤ◌ wrap64
  plus_one n lt = ground arith

  minus_one : (n : ℕ) → n + 1 < two63 → wrap64 (pos (n + 1) +ℤ neg (pos 1)) ≡ pos n
  unfolding ◌+ℤ◌ wrap64
  minus_one n lt = ground arith

  -- At one moment the counters of the in-memory provider count by ones.
  pub counters-CounterLaws : CounterLaws counters value
  unfolding counters value increment decrement atomic_decrement as_number
  counters-CounterLaws = record {
    increment_returns = λ k s n e lt. rw (atomic_increment-number, e) (ap some (plus_one n lt));
    increment_counts = λ k s n e lt.
        rw get_value-atomic_increment (rw (atomic_increment-number, e) (plus_one n lt));
    decrement_counts = λ k s n e lt.
        rw get_value-atomic_increment (rw (atomic_increment-number, e) (minus_one n lt));
  }
