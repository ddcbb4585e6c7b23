-- ===== src/Session/Failover/Budget.antt =====
-- The budget of a session that does not get past a block.
use fleet_router.Prelude.{
  ℕ, suc, ◌+◌, ◌≤◌, ◌<◌, Bool, true, false, List, [], ◌∷◌, ◌≡◌, refl, arith, Option, none, some,
  leb, length, ◌==◌, is_some,
}
use fleet_router.Prelude.Words.{u32_max}
use fleet_router.Session.Failover.{failures_at, charge, plan_same_block_failover}

-- The link ends of a session at `block`, each with whether it uses the budget.
abbrev pub ends_at : Option (ℕ × ℕ) → ℕ → List Bool → Option (ℕ × ℕ)
ends_at stuck block [] = stuck
ends_at stuck block (budget ∷ ends) =
    ends_at (plan_same_block_failover stuck budget (some block) 0).0 block ends

abbrev pub charged_ends : List Bool → ℕ
charged_ends [] = 0
charged_ends (true ∷ ends) = suc (charged_ends ends)
charged_ends (false ∷ ends) = charged_ends ends

charged_ends-le : (ends : List Bool) → charged_ends ends ≤ length ends
charged_ends-le [] = omega arith
charged_ends-le (true ∷ ends) = omega (arith, charged_ends-le ends)
charged_ends-le (false ∷ ends) = omega (arith, charged_ends-le ends)

failures_at-ends_at :
    (stuck : Option (ℕ × ℕ)) (block : ℕ) (ends : List Bool)
    → failures_at stuck block + length ends < u32_max
    → failures_at (ends_at stuck block ends) block ≡ failures_at stuck block + charged_ends ends
unfolding plan_same_block_failover failures_at
failures_at-ends_at stuck block [] h = omega arith
failures_at-ends_at stuck block (false ∷ ends) h =
    ground (arith, failures_at-ends_at stuck block ends)
failures_at-ends_at stuck block (true ∷ ends) h =
    ground (arith, failures_at-ends_at (charge stuck block).0 block ends)

-- The failures counted so far are at another block, or there are none.
abbrev pub IsElsewhere : Option (ℕ × ℕ) → ℕ → Type 0
IsElsewhere none block = Unit
IsElsewhere (some (stuck_block, seen)) block = (stuck_block == block) ≡ false

first_failure :
    (stuck : Option (ℕ × ℕ)) (block : ℕ) → IsElsewhere stuck block → failures_at stuck block ≡ 1
unfolding failures_at
first_failure none block h = refl
first_failure (some (stuck_block, seen)) block h = ground arith

-- A session that comes to a block from another one and stays there: whatever other ends come between, an end that
-- uses the budget closes the session exactly when it is the fifth such end or a later one, and the
-- plan counts it.
pub plan_same_block_failover-closes :
    (stuck : Option (ℕ × ℕ)) (block delay : ℕ) (ends : List Bool)
    → IsElsewhere stuck block
    → length ends + 1 < u32_max
    → let plan = (plan_same_block_failover (ends_at stuck block ends) true (some block) delay).1 in
      (plan.failures ≡ suc (charged_ends ends))
      × (is_some plan.close_reason ≡ leb 5 (suc (charged_ends ends)))
unfolding plan_same_block_failover
plan_same_block_failover-closes stuck block delay ends h small =
    ground (arith, first_failure stuck block h, failures_at-ends_at stuck block ends)
