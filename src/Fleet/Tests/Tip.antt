-- ===== src/Fleet/Tests/Tip.antt =====
-- The fleet tip and the canonical ABI on the small fleet.
use fleet_router.Prelude.{List, [], ◌∷◌, Option, none, some}
use fleet_router.Ship.{BlockPos}
use fleet_router.Abi.{AbiEntry}
use fleet_router.Fleet.Upstream.{UpstreamView}
use fleet_router.Fleet.Build.{upstream_view}
use fleet_router.Fleet.Tip.{fresh_tip, Tips}
use fleet_router.Fleet.Tip.Laws.{AtMost, IsSoundTip, fresh_tip-IsSound}
use fleet_router.Fleet.Tests.{
  view, plan, context, memory, live_node, struck_node, abi, now, position,
}

-- A session has seen block 205 of the first live node.
abbrev observed : Tips
observed = none ∷ some (position 205, position 195) ∷ none ∷ []

fresh_tip-IsSound_example :
    let r = fresh_tip view observed memory now in
    IsSoundTip memory r.0 r.1 r.2 × AtMost view.head r.1
fresh_tip-IsSound_example = fresh_tip-IsSound view observed memory now

unfoldable live_up : UpstreamView
unfolding plan
live_up = upstream_view context (2 ∷ [], live_node)

unfoldable struck_up : UpstreamView
unfolding plan
struck_up = upstream_view context (3 ∷ [], struck_node)

abbrev frames : List (BlockPos × BlockPos)
frames = (position 12, position 3) ∷ (position 11, position 5) ∷ []

abbrev all_abis : List (Option AbiEntry)
all_abis = some abi ∷ some abi ∷ some abi ∷ []
