-- ===== src/RateLimiter/Limits.antt =====
-- findMatchingLimit: the highest limit that a count is above.
use mathlib.Core.Path.{subst}
use imposter_go.Common.{
  ◌≡◌, refl, ◌⊎◌, inl, inr, Option, none, some, List, [], ◌∷◌, arith, Bool-cases,
}
use imposter_go.Common.Int.{ℤ, ◌≤ℤ◌, ◌<ℤ◌, ltb_ℤ}
use imposter_go.Common.Lists.{All, In, All-map, All-In}
use imposter_go.Config.{ConcurrencyLimit}
use imposter_go.RateLimiter.{insert_limit, sort_limits, last_exceeded, find_matching_limit}

module _ (P : ConcurrencyLimit → Type 0) where
  All-insert_limit :
      (l : ConcurrencyLimit) (ls : List ConcurrencyLimit)
      → P l × All P ls
      → All P (insert_limit l ls)
  unfolding insert_limit
  All-insert_limit l [] (p, ps) = (p, tt)
  All-insert_limit l (m ∷ ms) (p, (q, qs)) = ground (arith, All-insert_limit l ms (p, qs))

  insert_limit-All :
      (l : ConcurrencyLimit) (ls : List ConcurrencyLimit)
      → All P (insert_limit l ls)
      → P l × All P ls
  unfolding insert_limit
  insert_limit-All l [] (p, ps) = (p, tt)
  insert_limit-All l (m ∷ ms) h = ground (arith, insert_limit-All l ms)

  sort_limits-All : (ls : List ConcurrencyLimit) → All P (sort_limits ls) → All P ls
  unfolding sort_limits
  sort_limits-All [] h = tt
  sort_limits-All (l ∷ ls) h =
      let (p, ps) = insert_limit-All l (sort_limits ls) h in (p, sort_limits-All ls ps)

  All-sort_limits : (ls : List ConcurrencyLimit) → All P ls → All P (sort_limits ls)
  unfolding sort_limits
  All-sort_limits [] h = tt
  All-sort_limits (l ∷ ls) (p, ps) = All-insert_limit l (sort_limits ls) (p, All-sort_limits ls ps)

some_path : {a b : ConcurrencyLimit} → some a ≡ some b → a ≡ b
some_path e = cc

-- Thresholds ascend.
abbrev IsSorted : List ConcurrencyLimit → Type 0
IsSorted [] = Unit
IsSorted (l ∷ ls) = All (λ m. l.threshold ≤ℤ m.threshold) ls × IsSorted ls

insert_limit-IsSorted :
    (l : ConcurrencyLimit) (ls : List ConcurrencyLimit) → IsSorted ls → IsSorted (insert_limit l ls)
unfolding insert_limit
insert_limit-IsSorted l [] h = (tt, tt)
insert_limit-IsSorted l (m ∷ ms) (below, sorted) =
    elim (Bool-cases (ltb_ℤ m.threshold l.threshold)) [
      | inl less ↦ rw less (
        All-insert_limit (λ k. m.threshold ≤ℤ k.threshold) l ms (ground arith, below),
        insert_limit-IsSorted l ms sorted,
      )
      | inr ge ↦
          let first : l.threshold ≤ℤ m.threshold = ground arith in
          rw ge (
            (first, All-map (λ k (h : m.threshold ≤ℤ k.threshold). omega arith) ms below),
            (below, sorted),
          )
    ]

sort_limits-IsSorted : (ls : List ConcurrencyLimit) → IsSorted (sort_limits ls)
unfolding sort_limits
sort_limits-IsSorted [] = tt
sort_limits-IsSorted (l ∷ ls) = insert_limit-IsSorted l _ (sort_limits-IsSorted ls)

-- What a result says of the limits: none is exceeded, or this one is and no exceeded one is higher.
abbrev pub IsHighest : ℤ → List ConcurrencyLimit → Option ConcurrencyLimit → Type 0
IsHighest count ls none = All (λ m. count ≤ℤ m.threshold) ls
IsHighest count ls (some l) =
    (l.threshold <ℤ count) × All (λ m. (count ≤ℤ m.threshold) ⊎ (m.threshold ≤ℤ l.threshold)) ls

last_exceeded_from :
    (count : ℤ) (a : ConcurrencyLimit) (ls : List ConcurrencyLimit)
    → a.threshold <ℤ count
    → All (λ m. a.threshold ≤ℤ m.threshold) ls
    → IsSorted ls
    → (l : ConcurrencyLimit) × (last_exceeded count ls (some a) ≡ some l)
      × (a.threshold ≤ℤ l.threshold)
      × (l.threshold <ℤ count)
      × All (λ m. (count ≤ℤ m.threshold) ⊎ (m.threshold ≤ℤ l.threshold)) ls
unfolding last_exceeded
last_exceeded_from count a [] ha below sorted = (a, refl, ground arith, ha, tt)
last_exceeded_from count a (m ∷ ms) ha (am, below) (mb, sorted) =
    elim (Bool-cases (ltb_ℤ m.threshold count)) [
      | inl over ↦
          let (l, e, ml, lc, rest) = last_exceeded_from count m ms (ground arith) mb sorted in
          (l, rw over e, omega arith, lc, (inr ml, rest))
      | inr under ↦
          let (l, e, al, lc, rest) = last_exceeded_from count a ms ha below sorted in
          (l, rw under e, al, lc, (inl (ground arith), rest))
    ]

IsHighest-cons :
    (count : ℤ) (m : ConcurrencyLimit) (ms : List ConcurrencyLimit) (r : Option ConcurrencyLimit)
    → count ≤ℤ m.threshold
    → IsHighest count ms r
    → IsHighest count (m ∷ ms) r
IsHighest-cons count m ms none le h = (le, h)
IsHighest-cons count m ms (some l) le (lc, rest) = (lc, (inl le, rest))

last_exceeded-IsHighest :
    (count : ℤ) (ls : List ConcurrencyLimit)
    → IsSorted ls
    → IsHighest count ls (last_exceeded count ls none)
unfolding last_exceeded
last_exceeded-IsHighest count [] sorted = tt
last_exceeded-IsHighest count (m ∷ ms) (mb, sorted) = elim (Bool-cases (ltb_ℤ m.threshold count)) [
  | inl over ↦
      let (l, e, ml, lc, rest) = last_exceeded_from count m ms (ground arith) mb sorted in
      rw over (rw e (lc, (inr ml, rest)))
  | inr under ↦
      rw under
        (IsHighest-cons count m ms _ (ground arith) (last_exceeded-IsHighest count ms sorted))
]

IsHighest-sort_limits :
    (count : ℤ) (ls : List ConcurrencyLimit) (r : Option ConcurrencyLimit)
    → IsHighest count (sort_limits ls) r
    → IsHighest count ls r
IsHighest-sort_limits count ls none h = sort_limits-All _ ls h
IsHighest-sort_limits count ls (some l) (lc, h) = (lc, sort_limits-All _ ls h)

-- findMatchingLimit returns no limit exactly when the count is above none of them, and otherwise a
-- limit that the count is above, with a threshold that no other such limit exceeds.
pub find_matching_limit-IsHighest :
    (count : ℤ) (limits : List ConcurrencyLimit)
    → IsHighest count limits (find_matching_limit count limits)
unfolding find_matching_limit
find_matching_limit-IsHighest count limits =
    IsHighest-sort_limits count limits _
      (last_exceeded-IsHighest count (sort_limits limits) (sort_limits-IsSorted limits))

last_exceeded-keeps :
    (P : ConcurrencyLimit → Type 0) (count : ℤ) (ls : List ConcurrencyLimit)
    (acc : Option ConcurrencyLimit) (l : ConcurrencyLimit)
    → All P ls
    → ((m : ConcurrencyLimit) → acc ≡ some m → P m)
    → last_exceeded count ls acc ≡ some l
    → P l
unfolding last_exceeded
last_exceeded-keeps P count [] acc l h ha e = ha l e
last_exceeded-keeps P count (m ∷ ms) acc l (p, ps) ha e =
    elim (Bool-cases (ltb_ℤ m.threshold count)) [
      | inl over ↦
          last_exceeded-keeps P count ms (some m) l ps (λ k q. subst P (some_path q) p)
            (rw over at e)
      | inr under ↦ last_exceeded-keeps P count ms acc l ps ha (rw under at e)
    ]

-- The limit that findMatchingLimit returns is one of those that were given.
pub find_matching_limit-In :
    (count : ℤ) (limits : List ConcurrencyLimit) (l : ConcurrencyLimit)
    → find_matching_limit count limits ≡ some l
    → In l limits
unfolding find_matching_limit
find_matching_limit-In count limits l e =
    last_exceeded-keeps (λ m. In m limits) count (sort_limits limits) none l
      (All-sort_limits (λ m. In m limits) limits (All-In limits)) (λ m q. cc) e
