-- ===== src/Fleet/Tests.antt =====
-- A small fleet for the tests: an archive of the first hundred blocks, and two live nodes, one of
-- which is quarantined at a block.
mod Planning
mod Coverages
mod Tip
mod Pool
use fleet_router.Prelude.{ℕ, Bool, true, false, List, [], ◌∷◌, Option, none, some}
use fleet_router.Ship.{BlockPos, Range}
use fleet_router.Abi.{AbiEntry}
use fleet_router.Models.{Role, warn, prefer_frozen, Topology, BlockQuarantine, ServerState}
use fleet_router.Fleet.View.{FleetView, HubMemory}
use fleet_router.Fleet.Build.{BuildCtx, build_view}
use fleet_router.Fleet.Tip.{Tips}
use fleet_router.Fleet.Request.{Need, Shape, Excludes, Step}
use fleet_router.Fleet.Planner.{next_step}

abbrev pub position : ℕ → BlockPos
position n = record { num = n; id = n ∷ [] }

abbrev pub abi : AbiEntry
abi = record { text = 1 ∷ []; fp = 77; compatible = true }

abbrev pub new_state : ServerState
new_state = record {
  name = [];
  connections = 0;
  enabled = true;
  operator_disabled = false;
  online = true;
  stale = false;
  priority = 1;
  weight = 1;
  expected_chain_id = none;
  require_chain_id = false;
  chain_id_unverified_warned = false;
  chain_id = none;
  trace_begin_block = 0;
  trace_end_block = 0;
  chain_state_begin_block = 0;
  chain_state_end_block = 0;
  finality_data_begin_block = 0;
  finality_data_end_block = 0;
  block_failures = 0;
  block_strikes = [];
  quarantines = [];
  index = 0;
  role = Role.live;
  declared = none;
  max_sessions = none;
  head = none;
  lib = none;
  ranges_known = false;
  status_at = none;
  status_head_reference = none;
  head_lag_blocks = none;
  status_v1 = none;
  abi = some abi;
  offline_since = none;
  no_block_log = false;
}

abbrev pub archive : ServerState
archive = record new_state { role = Role.frozen; declared = some (record { begin = 1; end = 100 }) }

abbrev pub live_node : ServerState
live_node = record new_state {
  index = 1;
  trace_begin_block = 90;
  trace_end_block = 200;
  chain_state_begin_block = 90;
  chain_state_end_block = 200;
  ranges_known = true;
  head = some (position 199);
  lib = some (position 190);
}

abbrev pub struck_node : ServerState
struck_node = record live_node {
  index = 2;
  quarantines = record { block = 150; range = 10; until = 5000 } ∷ [];
}

abbrev pub context : BuildCtx
context = record {
  topology = Topology.stitched;
  pinned_chain_id = none;
  abi_pin = none;
  abi_mismatch = warn;
  statics = [];
}

abbrev pub memory : HubMemory
memory = record {
  generation = 0;
  lib_hwm = some (position 150);
  last_tip = (none, none);
  canonical = none;
  head_seen = none;
  head_advanced_at = 0;
}

abbrev pub states : List (List ℕ × ServerState)
states = (1 ∷ [], archive) ∷ (2 ∷ [], live_node) ∷ (3 ∷ [], struck_node) ∷ []

abbrev pub now : ℕ
now = 1000

abbrev pub tips : Tips
tips = none ∷ none ∷ none ∷ []

unfoldable pub view : FleetView
unfolding fleet_router.Fleet.Sticky.cov_of fleet_router.Fleet.Coverage.coverage
    fleet_router.Fleet.Build.upstream_view fleet_router.Fleet.Upstream.log_segment
    fleet_router.Fleet.Tip.fleet_tip fleet_router.Fleet.Upstream.routable
    fleet_router.Fleet.Coverage.has fleet_router.Fleet.Upstream.quarantined_at
    fleet_router.Fleet.Upstream.covers fleet_router.Fleet.Upstream.covers_ids
    fleet_router.Fleet.Upstream.at_capacity_besides fleet_router.Fleet.Build.build_view
    fleet_router.Fleet.Canonical.choose_canonical fleet_router.Fleet.Coverage.merge
    fleet_router.Fleet.Coverage.subtract fleet_router.Fleet.Sticky.live_overlap
    fleet_router.Fleet.Upstream.covers_of fleet_router.Fleet.Upstream.greatest
    fleet_router.Fleet.Upstream.has_log fleet_router.Fleet.Upstream.has_log_of
    fleet_router.Fleet.Upstream.ids_begin fleet_router.Fleet.Upstream.least
    fleet_router.Fleet.Upstream.max_end fleet_router.Fleet.Upstream.range
    fleet_router.Fleet.Upstream.segment_end fleet_router.Fleet.Upstream.segment_of
    fleet_router.Fleet.View.cov fleet_router.Fleet.View.max_by_num fleet_router.Fleet.View.note_head
    fleet_router.Models.Quarantine.active fleet_router.Models.Quarantine.covers
    fleet_router.Models.ranges_usable fleet_router.Prelude.Ranking.max_by fleet_router.Ship.contains
    fleet_router.Ship.is_empty
view = (build_view context states tips memory now).1

-- The archive ends before the live nodes begin.
abbrev pub holed_states : List (List ℕ × ServerState)
holed_states =
    (1 ∷ [], record archive { declared = some (record { begin = 1; end = 50 }) })
    ∷ (2 ∷ [], live_node)
    ∷ []

unfoldable pub holed : FleetView
unfolding fleet_router.Fleet.Sticky.cov_of fleet_router.Fleet.Coverage.coverage
    fleet_router.Fleet.Build.upstream_view fleet_router.Fleet.Upstream.log_segment
    fleet_router.Fleet.Tip.fleet_tip fleet_router.Fleet.Upstream.routable
    fleet_router.Fleet.Coverage.has fleet_router.Fleet.Upstream.quarantined_at
    fleet_router.Fleet.Upstream.covers fleet_router.Fleet.Upstream.covers_ids
    fleet_router.Fleet.Upstream.at_capacity_besides fleet_router.Fleet.Build.build_view
    fleet_router.Fleet.Canonical.choose_canonical fleet_router.Fleet.Coverage.merge
    fleet_router.Fleet.Coverage.subtract fleet_router.Fleet.Sticky.live_overlap
    fleet_router.Fleet.Upstream.covers_of fleet_router.Fleet.Upstream.greatest
    fleet_router.Fleet.Upstream.has_log fleet_router.Fleet.Upstream.has_log_of
    fleet_router.Fleet.Upstream.ids_begin fleet_router.Fleet.Upstream.least
    fleet_router.Fleet.Upstream.max_end fleet_router.Fleet.Upstream.range
    fleet_router.Fleet.Upstream.segment_end fleet_router.Fleet.Upstream.segment_of
    fleet_router.Fleet.View.cov fleet_router.Fleet.View.max_by_num fleet_router.Fleet.View.note_head
    fleet_router.Models.Quarantine.active fleet_router.Models.Quarantine.covers
    fleet_router.Models.ranges_usable fleet_router.Prelude.Ranking.max_by fleet_router.Ship.contains
    fleet_router.Ship.is_empty
holed = (build_view context holed_states tips memory now).1

abbrev pub all_data : Need
all_data = record { traces = true; deltas = true; finality = false; block = true }

abbrev pub request : Shape
request = record { need = all_data; end = 1000; irreversible_only = false }

abbrev pub no_excludes : Excludes
no_excludes = record { soft = none; hard = [] }

abbrev pub tip : Option BlockPos × Option BlockPos
tip = (some (position 199), some (position 190))

-- What the planner does for a session at a block.
unfoldable pub plan : ℕ → Step
unfolding view fleet_router.Fleet.Planner.best_of fleet_router.Fleet.Request.hard_active
    fleet_router.Fleet.Eligible.eligible fleet_router.Fleet.Eligible.union_has
    fleet_router.Fleet.Planner.gated_end fleet_router.Fleet.Run.run_end fleet_router.Abi.fnv1a64
    fleet_router.Fleet.Eligible.eligible_with fleet_router.Fleet.Eligible.lagging_for
    fleet_router.Fleet.Eligible.preference fleet_router.Fleet.Planner.candidate
    fleet_router.Fleet.Planner.candidates fleet_router.Fleet.Planner.full
    fleet_router.Fleet.Planner.mine fleet_router.Fleet.Planner.rank_cmp
    fleet_router.Fleet.Planner.rank_of fleet_router.Fleet.Request.rendezvous
    fleet_router.Fleet.Run.run_cap fleet_router.Fleet.Run.tip_region
    fleet_router.Prelude.Ranking.min_by fleet_router.Prelude.Words.le_bytes
    fleet_router.Fleet.Planner.next_step
plan from = next_step view tip request from no_excludes [] 7 prefer_frozen 3 false now
