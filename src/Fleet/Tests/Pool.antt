-- ===== src/Fleet/Tests/Pool.antt =====
-- Picking an upstream for a pool session on the small fleet.
use fleet_router.Prelude.{ℕ, false, [], ◌∷◌, ◌≡◌, refl, Option, none, some}
use fleet_router.Fleet.Eligible.{eligible_ignoring_quarantine}
use fleet_router.Fleet.Request.{Need, Excludes}
use fleet_router.Fleet.Upstream.{UpstreamView, at_capacity}
use fleet_router.Fleet.Build.{upstream_view}
use fleet_router.Fleet.Pool.{pool_rank}
use fleet_router.Fleet.Pool.Pick.{IsGoodPick, pool_rank-IsGood}
use fleet_router.Fleet.Tests.{view, plan, context, live_node, all_data, no_excludes, now}

abbrev route : Option (Need × ℕ)
route = some (all_data, 155)

pool_picked : pool_rank view route no_excludes false 7 3 now ≡ some (1, 0)
unfolding plan pool_rank at_capacity eligible_ignoring_quarantine
pool_picked = refl

pool_rank-IsGood_example :
    (u : UpstreamView) × IsGoodPick view route no_excludes false 7 3 now 1 0 u
pool_rank-IsGood_example = pool_rank-IsGood view route no_excludes false 7 3 now 1 0 pool_picked

-- Every endpoint is excluded for a while.
abbrev exclude_all : Excludes
exclude_all = record { soft = none; hard = (1 ∷ [], 9000) ∷ (2 ∷ [], 9000) ∷ (3 ∷ [], 9000) ∷ [] }

unfoldable live_up : UpstreamView
unfolding plan
live_up = upstream_view context (2 ∷ [], live_node)

none_picked : pool_rank view route exclude_all false 7 3 now ≡ none
unfolding plan pool_rank at_capacity eligible_ignoring_quarantine
none_picked = refl
