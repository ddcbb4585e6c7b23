-- ===== src/Session/Tests.antt =====
-- A session whose archive keeps dropping the stream at block 500.
mod Serving
use fleet_router.Prelude.{
  suc, ◌≤◌, Bool, true, false, ◌&&◌, ◌||◌, List, [], ◌∷◌, ◌≡◌, refl, arith, none, some, leb,
  is_some,
}
use fleet_router.Prelude.Words.{millis, secs}
use fleet_router.Models.{Role}
use fleet_router.Session.Failover.{
  EndFacts, unclean, stall, induced, classify, clean_delay, soft, by_stall, same_block_backoff,
  blockless_move_backoff, failures_at, plan_same_block_failover,
}
use fleet_router.Session.Failover.Strikes.{
  charged, closes, is_too_large, is_unclean, classify-strike, classify-closes,
}
use fleet_router.Session.Failover.Budget.{ends_at, charged_ends, plan_same_block_failover-closes}
use fleet_router.Session.Failover.Backoff.{same_block_backoff-bounds, blockless_move_backoff-bounds}

abbrev archive_link : EndFacts
archive_link = record { role = Role.frozen; unknown_forwarded_at = none }

abbrev pool_link : EndFacts
pool_link = record { role = Role.live; unknown_forwarded_at = some 1000 }

classify-strike_example :
    (true ≡ charged stall archive_link)
    × (true ≡ charged stall archive_link)
    × (clean_delay ≤ clean_delay)
unfolding classify
classify-strike_example =
    classify-strike stall archive_link 500 2000 true true clean_delay soft by_stall refl

-- Four drops, and a clean close between them.
abbrev ends : List Bool
ends = true ∷ true ∷ false ∷ true ∷ true ∷ []

plan_same_block_failover-closes_example :
    let plan = (plan_same_block_failover (ends_at (some (499, 3)) 500 ends) true (some 500) 0).1 in
    (plan.failures ≡ suc (charged_ends ends))
    × (is_some plan.close_reason ≡ leb 5 (suc (charged_ends ends)))
unfolding failures_at
plan_same_block_failover-closes_example =
    plan_same_block_failover-closes (some (499, 3)) 500 0 ends refl (omega arith)
