-- ===== src/RateLimiter.antt =====
-- internal/ratelimiter/ratelimiter.go: the limiter as a client of a store with atomic counters.
pub mod Limits
pub mod Counting
pub mod Interleaving
pub mod InMemory
mod Tests
use imposter_go.Common.{◌*◌, String, Option, none, some, List, [], ◌∷◌, ◌==◌, if◌then◌else◌}
use imposter_go.Common.Int.{ℤ, pos, scale, wrap64, ltb_ℤ}
use imposter_go.Common.Text.{concat}
use imposter_go.Common.Text.Number.{parse_int}
use imposter_go.Config.{ConcurrencyLimit}

-- What the limiter uses of a store: counters whose calls may fail (none).
pub record Counters (S : Type 0) : Type 0 where
  pub increment : String → ℤ → S → Option ℤ × S
  pub decrement : String → ℤ → S → Option ℤ × S

-- sort.Slice by threshold, ascending.
unfoldable pub insert_limit : ConcurrencyLimit → List ConcurrencyLimit → List ConcurrencyLimit
insert_limit l [] = l ∷ []
insert_limit l (m ∷ ms) =
    let later = m ∷ insert_limit l ms in if ltb_ℤ m.threshold l.threshold then later else l ∷ m ∷ ms

unfoldable pub sort_limits : List ConcurrencyLimit → List ConcurrencyLimit
sort_limits [] = []
sort_limits (l ∷ ls) = insert_limit l (sort_limits ls)

-- The loop over the sorted limits: the last one that the count is above.
unfoldable pub last_exceeded :
    ℤ → List ConcurrencyLimit → Option ConcurrencyLimit → Option ConcurrencyLimit
last_exceeded count [] matched = matched
last_exceeded count (l ∷ ls) matched =
    last_exceeded count ls (if ltb_ℤ l.threshold count then some l else matched)

unfoldable pub find_matching_limit : ℤ → List ConcurrencyLimit → Option ConcurrencyLimit
find_matching_limit count limits = last_exceeded count (sort_limits limits) none

abbrev pub rate_limiter_store_name : String
rate_limiter_store_name = "rate_limiter"

unfoldable pub get_resource_counter_key : String → String
get_resource_counter_key resource_key = concat "counter:" resource_key

-- A TTL in nanoseconds from IMPOSTER_RATE_LIMITER_TTL, 5 minutes by default. strconv.Atoi reads an
-- int, of 64 bits.
abbrev pub default_ttl : ℤ
default_ttl = pos (5 * 60 * 1_000_000_000)

unfoldable pub get_ttl_from_env : String → ℤ
get_ttl_from_env ttl = if ttl == "" then default_ttl else elim (parse_int ttl) [
  | none ↦ default_ttl
  | some seconds ↦ wrap64 (scale seconds 1_000_000_000)
]

module _ {S : Type 0} (c : Counters S) where
  -- The rest of CheckAndIncrement for the count that AtomicIncrement returned.
  unfoldable pub decide :
      String → List ConcurrencyLimit → Option ℤ → S → Option ConcurrencyLimit × S
  decide counter_key limits none s = (none, s)
  decide counter_key limits (some new_count) s = elim (find_matching_limit new_count limits) [
    | none ↦ (none, s)
    | some limit ↦ (some limit, (c.decrement counter_key (pos 1) s).1)
  ]

  -- The limit that is exceeded, if one is. The error that the method declares is always nil.
  unfoldable pub check_and_increment :
      String → List ConcurrencyLimit → S → Option ConcurrencyLimit × S
  check_and_increment resource_key [] s = (none, s)
  check_and_increment resource_key (l ∷ ls) s =
      let (new_count, s') = c.increment (get_resource_counter_key resource_key) (pos 1) s in
      decide (get_resource_counter_key resource_key) (l ∷ ls) new_count s'

  -- Decrement: whether it succeeded.
  unfoldable pub decrement : String → S → Option ℤ × S
  decrement resource_key s = c.decrement (get_resource_counter_key resource_key) (pos 1) s
