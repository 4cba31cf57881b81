-- ===== src/RateLimiter/Interleaving.antt =====
-- Requests of one resource that run at the same time. Each of the store's calls is atomic, and the
-- calls of different requests come in any order: between the increment of a refused request and its
-- rollback others may count.
use imposter_go.Common.{
  ℕ, ◌+◌, ◌<◌, String, ◌≡◌, refl, sym, ◌∙◌, ap, none, some, List, arith, is_none, if◌then◌else◌,
  Option-cases, ◌⊎◌, inl, inr,
}
use imposter_go.Common.Int.{ℤ, pos, two63, ◌≤ℤ◌}
use imposter_go.Common.Lists.{All, All-map, All-In}
use imposter_go.Config.{ConcurrencyLimit}
use imposter_go.RateLimiter.{Counters, find_matching_limit, decide}
use imposter_go.RateLimiter.Limits.{find_matching_limit-IsHighest}
use imposter_go.RateLimiter.Counting.{CounterLaws}

-- `active` requests were let through and have not finished; `refused` ones still have to take their
-- increment back.
pub record Progress (S : Type 0) : Type 0 where
  pub store : S
  pub active : ℕ
  pub refused : ℕ

some_path : {a b : ℤ} → some a ≡ some b → a ≡ b
some_path e = cc

module _ {S : Type 0} (c : Counters S) (key : String) (limits : List ConcurrencyLimit) where
  -- One atomic call of one request. Fewer than 2^63 - 1 requests are under way.
  pub data Step (x : Progress S) : Progress S → Type 0 where
    -- CheckAndIncrement counts the request and lets it through.
    admit :
        (count : ℤ)
        → x.active + x.refused + 1 < two63
        → (c.increment key (pos 1) x.store).0 ≡ some count
        → find_matching_limit count limits ≡ none
        → Step x (record {
          store = (c.increment key (pos 1) x.store).1;
          active = x.active + 1;
          refused = x.refused;
        })
    -- CheckAndIncrement counts the request and finds a limit exceeded.
    refuse :
        (count : ℤ) (l : ConcurrencyLimit)
        → x.active + x.refused + 1 < two63
        → (c.increment key (pos 1) x.store).0 ≡ some count
        → find_matching_limit count limits ≡ some l
        → Step x (record {
          store = (c.increment key (pos 1) x.store).1;
          active = x.active;
          refused = x.refused + 1;
        })
    -- CheckAndIncrement takes the increment of a refused request back.
    rollback :
        (r : ℕ)
        → x.refused ≡ r + 1
        → Step x
            (record { store = (c.decrement key (pos 1) x.store).1; active = x.active; refused = r })
    -- Decrement, the cleanup function of a request that was let through.
    finish :
        (a : ℕ)
        → x.active ≡ a + 1
        → Step x (record {
          store = (c.decrement key (pos 1) x.store).1;
          active = a;
          refused = x.refused;
        })

  pub data Reach (x : Progress S) : Progress S → Type 0 where
    here : Reach x x
    next : {y z : Progress S} → Reach x y → Step y z → Reach x z

  -- A call of CheckAndIncrement for limits that are there, and whose increment succeeds, takes these steps.
  pub check_and_increment-Reach :
      (x : Progress S) (count : ℤ)
      → x.active + x.refused + 1 < two63
      → (c.increment key (pos 1) x.store).0 ≡ some count
      → Reach x (record {
        store = (decide c key limits (some count) (c.increment key (pos 1) x.store).1).1;
        active =
            if is_none (decide c key limits (some count) (c.increment key (pos 1) x.store).1).0
            then x.active + 1
            else x.active;
        refused = x.refused;
      })
  unfolding decide
  check_and_increment-Reach x count room counted =
      elim (Option-cases (find_matching_limit count limits)) [
        | inl fits ↦ rw (fits, decide) (next here (admit count room counted fits))
        | inr (l, over) ↦
            rw (over, decide)
              (next (next here (refuse count l room counted over)) (rollback x.refused refl))
      ]

  -- No limit is passed by the requests that were let through.
  abbrev pub IsWithin : ℕ → Type 0
  IsWithin active = All (λ l. (active ≡ 0) ⊎ (pos active ≤ℤ l.threshold)) limits

  module _ (value : String → S → ℤ) (laws : CounterLaws c value) where
    pub record IsSound (x : Progress S) : Type 0 where
      pub counted : value key x.store ≡ pos (x.active + x.refused)
      pub in_range : x.active + x.refused < two63
      pub within : IsWithin x.active

    counted_one_more :
        (x : Progress S) {n : ℕ}
        → IsSound x
        → x.active + x.refused + 1 < two63
        → n ≡ x.active + x.refused + 1
        → value key (c.increment key (pos 1) x.store).1 ≡ pos n
    counted_one_more x h room e =
        laws.increment_counts key x.store (x.active + x.refused) h.counted room ∙ ap pos (sym e)

    counted_one_less :
        (x : Progress S) {n : ℕ}
        → IsSound x
        → n + 1 ≡ x.active + x.refused
        → value key (c.decrement key (pos 1) x.store).1 ≡ pos n
    counted_one_less x {n} h e =
        laws.decrement_counts key x.store n (h.counted ∙ ap pos (sym e))
          (let r = h.in_range in omega arith)

    -- A request that fits leaves room for itself under every limit.
    admitted-IsWithin :
        (x : Progress S) (count : ℤ)
        → IsSound x
        → x.active + x.refused + 1 < two63
        → (c.increment key (pos 1) x.store).0 ≡ some count
        → find_matching_limit count limits ≡ none
        → IsWithin (x.active + 1)
    admitted-IsWithin x count h room e fits =
        let same : count ≡ pos (x.active + x.refused + 1) =
          some_path
            (sym e ∙ laws.increment_returns key x.store (x.active + x.refused) h.counted room) in
        All-map (λ l (below : count ≤ℤ l.threshold). inr (let b = rw same at below in omega arith))
          limits (rw fits at (find_matching_limit-IsHighest count limits))

    Step-IsSound : {x y : Progress S} → Step x y → IsSound x → IsSound y
    Step-IsSound {x} (admit count room e fits) h = record {
      counted = counted_one_more x h room (omega arith);
      in_range = omega arith;
      within = admitted-IsWithin x count h room e fits;
    }
    Step-IsSound {x} (refuse count l room e over) h = record {
      counted = counted_one_more x h room (omega arith);
      in_range = omega arith;
      within = h.within;
    }
    Step-IsSound {x} (rollback r e) h = record {
      counted = counted_one_less x h (omega arith);
      in_range = omega arith;
      within = h.within;
    }
    Step-IsSound {x} (finish a e) h = record {
      counted = counted_one_less x h (omega arith);
      in_range = omega arith;
      within =
          All-map (λ l (w : (x.active ≡ 0) ⊎ (pos x.active ≤ℤ l.threshold)). inr (omega arith))
            limits h.within;
    }

    Reach-IsSound_from : {x y : Progress S} → Reach x y → IsSound x → IsSound y
    Reach-IsSound_from here h = h
    Reach-IsSound_from (next r st) h = Step-IsSound st (Reach-IsSound_from r h)

    idle : (x : Progress S) → value key x.store ≡ pos 0 → x.active ≡ 0 → x.refused ≡ 0 → IsSound x
    idle x zero_count no_active no_refused = record {
      counted = zero_count ∙ ap pos (omega arith);
      in_range = omega arith;
      within = All-map (λ l _. inl no_active) limits (All-In limits);
    }

    -- Where the counters obey CounterLaws, so that no call of the store fails, each counts exactly and
    -- no TTL ends in between, and however the calls of the requests for one resource are interleaved
    -- from a moment at which the counter is 0 and none is under way: the counter is the number of requests that were let through
    -- and have not finished plus those that are being refused, and no limit is ever passed by the
    -- requests that were let through.
    pub Reach-IsSound :
        (x y : Progress S)
        → value key x.store ≡ pos 0
        → x.active ≡ 0
        → x.refused ≡ 0
        → Reach x y
        → (value key y.store ≡ pos (y.active + y.refused)) × IsWithin y.active
    Reach-IsSound x y zero_count no_active no_refused r =
        let h = Reach-IsSound_from r (idle x zero_count no_active no_refused) in
        (h.counted, h.within)
