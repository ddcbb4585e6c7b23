-- ===== src/Models/Quarantine/Arming.antt =====
-- When `record_block_failure` arms an exclusion, and what it then excludes.
use fleet_router.Prelude.{
  ℕ, suc, ◌+◌, ◌≤◌, ◌<◌, ◌≡◌, refl, Bool, true, false, not, List, [], ◌∷◌, ◌++◌, some, arith, leb,
  ltb, ◌==◌, ◌&&◌, any, lt→ltb, filter,
}
use fleet_router.Prelude.Words.{secs}
use fleet_router.Models.{BlockStrike, BlockFailureQuarantine, ServerState}
use fleet_router.Models.Quarantine.{
  covers, active, prune_expired_quarantines, quarantined_for, recent, strikes_at, strike,
  quarantine_deadline, record_block_failure,
}

module _ {A : Type 0} (p : A → Bool) where
  filter-append : (xs ys : List A) → filter p (xs ++ ys) ≡ filter p xs ++ filter p ys
  filter-append [] ys = refl
  filter-append (x ∷ xs) ys = ground (arith, filter-append xs ys)

  any-filter : (q : A → Bool) (xs : List A) → any q (filter p xs) ≡ any (λ x. p x && q x) xs
  any-filter q [] = refl
  any-filter q (x ∷ xs) = ground (arith, any-filter q xs)

  filter_idem : (xs : List A) → filter p (filter p xs) ≡ filter p xs
  filter_idem [] = refl
  filter_idem (x ∷ xs) = ground (arith, filter_idem xs)

  any_of-last :
      (q : A → Bool) (xs : List A) (x : A)
      → p x ≡ true
      → q x ≡ true
      → any q (filter p (xs ++ x ∷ [])) ≡ true
  any_of-last q [] x hp hq = ground arith
  any_of-last q (y ∷ xs) x hp hq = ground (arith, any_of-last q xs x hp hq)

covers-range :
    (block range until n : ℕ)
    → block ≤ n
    → n < block + range
    → covers (record { block = block; range = range; until = until }) n ≡ true
unfolding covers
covers-range block range until n low high = ground arith

ltb-not-leb : (a b : ℕ) → ltb a b ≡ not (leb b a)
ltb-not-leb a b = ground arith

-- A strike at `now` is in the window, and counts for its own block.
recent-strike :
    (block now window : ℕ) (xs : List BlockStrike)
    → strikes_at block (recent now window (xs ++ record { block = block; at = now } ∷ []))
      ≡ suc (strikes_at block (recent now window xs))
unfolding strikes_at recent
recent-strike block now window [] = ground arith
recent-strike block now window (x ∷ xs) = ground (arith, recent-strike block now window xs)

module _ (limit : ℕ) (s : ServerState) (block now : ℕ) (p : BlockFailureQuarantine) where
  abbrev failed : ServerState × Bool
  failed = record_block_failure limit s block now (some p)

  -- A failure at a block that is not excluded yet arms an exclusion exactly when it is, with the
  -- strikes at that block inside the window, the one that the policy asks for.
  pub record_block_failure-arms :
      (quarantined_for s block now).1 ≡ false
      → (record_block_failure limit s block now (some p)).1
        ≡ leb p.strikes (suc (strikes_at block (recent now (secs p.window_secs) s.block_strikes)))
  unfolding record_block_failure quarantined_for prune_expired_quarantines strike
  record_block_failure-arms h = ground (
    arith,
    filter_idem (λ q. active q now) s.quarantines,
    recent-strike block now (secs p.window_secs) s.block_strikes,
    ltb-not-leb (suc (strikes_at block (recent now (secs p.window_secs) s.block_strikes)))
        p.strikes,
  )

  -- While the block is excluded, a failure at it arms nothing and leaves the strikes as they are;
  -- of the exclusions it drops just those that have expired.
  pub record_block_failure-excluded :
      (quarantined_for s block now).1 ≡ true
      → (failed.1 ≡ false)
        × (failed.0.block_strikes ≡ s.block_strikes)
        × (failed.0.quarantines ≡ filter (λ q. active q now) s.quarantines)
  unfolding record_block_failure quarantined_for prune_expired_quarantines strike
  record_block_failure-excluded h = ground (arith, filter_idem (λ q. active q now) s.quarantines)

  -- What is excluded after a failure that armed an exclusion.
  armed-quarantines :
      failed.1 ≡ true
      → failed.0.quarantines
        ≡ filter (λ q. not (q.block == block)) (filter (λ q. active q now) s.quarantines)
          ++ record {
            block = block;
            range = p.range;
            until = quarantine_deadline limit now p.ttl_secs;
          }
            ∷ []
  unfolding record_block_failure quarantined_for prune_expired_quarantines strike
  armed-quarantines h = ground (arith, filter_idem (λ q. active q now) s.quarantines)

  -- An exclusion that was just armed holds for each of its blocks until its deadline.
  pub armed-quarantined :
      (n later_on : ℕ)
      → failed.1 ≡ true
      → later_on < quarantine_deadline limit now p.ttl_secs
      → block ≤ n
      → n < block + p.range
      → (quarantined_for failed.0 n later_on).1 ≡ true
  unfolding quarantined_for prune_expired_quarantines active
  armed-quarantined n later_on h before low high = rw (armed-quarantines h) (
      any_of-last (λ q. active q later_on) (λ q. covers q n) _ _
        (lt→ltb _ (quarantine_deadline limit now p.ttl_secs) before)
        (covers-range block p.range (quarantine_deadline limit now p.ttl_secs) n low high))
