-- ===== src/RateLimiter/Tests.antt =====
-- Runs of the limiter over the shared in-memory store.
use imposter_go.Common.{
  ◌+◌, String, ◌≡◌, refl, none, some, List, [], ◌∷◌, if◌then◌else◌, is_none, arith,
}
use imposter_go.Common.Int.{pos}
use imposter_go.Common.Map.{lookup}
use imposter_go.Config.{ConcurrencyLimit}
use imposter_go.Store.{Env, init_stores, get_value, as_number}
use imposter_go.Store.Handle.{Stores}
use imposter_go.RateLimiter.{
  find_matching_limit, get_resource_counter_key, decide, sort_limits, insert_limit, last_exceeded,
}
use imposter_go.RateLimiter.Limits.{IsHighest, find_matching_limit-IsHighest}
use imposter_go.RateLimiter.InMemory.{counters, value, counters-CounterLaws}
use imposter_go.RateLimiter.Interleaving.{
  Progress, Reach, IsWithin, check_and_increment-Reach, Reach-IsSound,
}

abbrev forever : Env
forever = record { store_key_prefix = ""; store_inmemory_ttl = ""; now = 100 }

-- Two limits, not in the order of their thresholds.
abbrev five : ConcurrencyLimit
five = record { threshold = pos 5; response = none }

abbrev one : ConcurrencyLimit
one = record { threshold = pos 1; response = none }

abbrev limits : List ConcurrencyLimit
limits = five ∷ one ∷ []

abbrev no_stores : Stores
no_stores = record { shared_provider = init_stores; request_provider = init_stores }

abbrev idle : Progress Stores
idle = record { store = no_stores; active = 0; refused = 0 }

abbrev key : String
key = get_resource_counter_key "GET:/"

nothing_counted : value forever key no_stores ≡ pos 0
unfolding value get_value as_number lookup
nothing_counted = refl

find_matching_limit-IsHighest_example :
    IsHighest (pos 3) limits (find_matching_limit (pos 3) limits)
find_matching_limit-IsHighest_example = find_matching_limit-IsHighest (pos 3) limits

three_exceed_one : find_matching_limit (pos 3) limits ≡ some one
unfolding find_matching_limit sort_limits insert_limit last_exceeded
three_exceed_one = refl

-- The first of the requests is let through.
first_count : ((counters forever).increment key (pos 1) no_stores).0 ≡ some (pos 1)
first_count =
    (counters-CounterLaws forever).increment_returns key no_stores 0 nothing_counted (omega arith)

abbrev after_one : Progress Stores
after_one = record {
  store =
      (decide (counters forever) key limits (some (pos 1))
        ((counters forever).increment key (pos 1) no_stores).1).1;
  active =
      if is_none
        (decide (counters forever) key limits (some (pos 1))
          ((counters forever).increment key (pos 1) no_stores).1).0
      then idle.active + 1
      else idle.active;
  refused = idle.refused;
}

one_request : Reach (counters forever) key limits idle after_one
one_request =
    check_and_increment-Reach (counters forever) key limits idle (pos 1) (omega arith) first_count

Reach-IsSound_example :
    (value forever key after_one.store ≡ pos (after_one.active + after_one.refused))
    × IsWithin (counters forever) key limits after_one.active
Reach-IsSound_example =
    Reach-IsSound (counters forever) key limits (value forever) (counters-CounterLaws forever) idle
      after_one nothing_counted refl refl one_request

-- The second limit is the one that six requests exceed first.
six_exceed_five : find_matching_limit (pos 6) limits ≡ some five
unfolding find_matching_limit sort_limits insert_limit last_exceeded
six_exceed_five = refl
