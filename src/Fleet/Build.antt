-- ===== src/Fleet/Build.antt =====
-- src/fleet/view.rs: how a view is built from the upstreams' states (`build_view`). A state map
-- is the list of its entries. Log lines are not modelled.
pub mod Laws
use mathlib.Core.Option
use fleet_router.Prelude.{
  ℕ, ◌+◌, Bool, true, false, not, ◌&&◌, ◌||◌, List, [], ◌∷◌, ◌++◌, Option, none, some, min, max,
  leb, ltb, ◌==◌, any, filter, is_some, is_some_and, map, get_elem?, if◌then◌else◌, length, text_eq,
  compare, Ordering,
}
use fleet_router.Prelude.Int.{ℤ, sub_ℕ}
use fleet_router.Prelude.Ranking.{then_with}
use fleet_router.Ship.{BlockPos, Range, empty_range}
use fleet_router.Abi.{AbiEntry}
use fleet_router.Models.{
  Role, live, frozen, is_live, is_frozen, Topology, pool, stitched, AbiMismatch, exclude,
  ServerState, ranges_usable,
}
use fleet_router.Fleet.Coverage.{LogCoverage, coverage}
use fleet_router.Fleet.Upstream.{
  Log, UpstreamView, all_logs, routable, range, has_log, log_segment, least, greatest,
}
use fleet_router.Fleet.View.{FleetView, HubMemory, AbiSource, note_head}
use fleet_router.Fleet.Tip.{Tips, fleet_tip}
use fleet_router.Fleet.Sticky.{cov_of, live_overlap}
use fleet_router.Fleet.Canonical.{choose_canonical}

-- Name and endpoint of one enabled server, fixed for the life of the listener.
pub record UpstreamStatic : Type 0 where
  pub endpoint : List ℕ
  pub name : List ℕ

pub record BuildCtx : Type 0 where
  pub topology : Topology
  pub pinned_chain_id : Option (List ℕ)
  pub abi_pin : Option AbiEntry
  pub abi_mismatch : AbiMismatch
  pub statics : List UpstreamStatic

-- The name is that of the configured server at the state's index, if its endpoint is the same.
view_name : Option UpstreamStatic → List ℕ → ServerState → List ℕ
view_name none endpoint s = s.name
view_name (some st) endpoint s = if text_eq st.endpoint endpoint then st.name else s.name

-- The ranges of a state that has not reported any.
declared_ranges : Role → Option Range → Range × Range × Range
declared_ranges frozen (some declared) = (declared, declared, empty_range)
declared_ranges _ _ = (empty_range, empty_range, empty_range)

effective_ranges : ServerState → Range × Range × Range
unfolding declared_ranges
effective_ranges s =
    if s.ranges_known
    then (
      record { begin = s.trace_begin_block; end = s.trace_end_block },
      record { begin = s.chain_state_begin_block; end = s.chain_state_end_block },
      record { begin = s.finality_data_begin_block; end = s.finality_data_end_block },
    )
    else declared_ranges s.role s.declared

fp_of : Option AbiEntry → Option ℕ
fp_of none = none
fp_of (some abi) = some abi.fp

is_v0 : Option Bool → Bool
is_v0 (some false) = true
is_v0 _ = false

unfoldable pub upstream_view : BuildCtx → List ℕ × ServerState → UpstreamView
unfolding view_name effective_ranges ranges_usable fp_of is_v0
upstream_view ctx (endpoint, s) =
    let (trace, chain_state, finality) = effective_ranges s in
    record {
      index = s.index;
      endpoint = endpoint;
      name = view_name (get_elem? ctx.statics s.index) endpoint s;
      role = s.role;
      enabled = s.enabled;
      operator_disabled = s.operator_disabled;
      online = s.online;
      stale = s.stale;
      known = ranges_usable s;
      trace = trace;
      chain_state = chain_state;
      finality = finality;
      head = s.head;
      lib = s.lib;
      connections = s.connections;
      max_sessions = s.max_sessions;
      priority = s.priority;
      weight = max s.weight 1;
      quarantines = s.quarantines;
      abi_fp = fp_of s.abi;
      abi_ok = true;
      legacy_status = is_v0 s.status_v1;
      monitor_offline_since = s.offline_since;
      no_block_log = s.no_block_log;
    }

-- The order of the states: by index, then by endpoint.
text_cmp : List ℕ → List ℕ → Ordering
text_cmp [] [] = Ordering.eq
text_cmp [] (y ∷ ys) = Ordering.lt
text_cmp (x ∷ xs) [] = Ordering.gt
text_cmp (x ∷ xs) (y ∷ ys) = then_with (compare x y) (text_cmp xs ys)

state_cmp : List ℕ × ServerState → List ℕ × ServerState → Ordering
unfolding text_cmp
state_cmp (e, s) (f, t) = then_with (compare s.index t.index) (text_cmp e f)

insert_state : List ℕ × ServerState → List (List ℕ × ServerState) → List (List ℕ × ServerState)
insert_state x [] = x ∷ []
insert_state x (y ∷ ys) = elim (state_cmp x y) [
  | Ordering.gt ↦ y ∷ insert_state x ys
  | _ ↦ x ∷ y ∷ ys
]

sort_states : List (List ℕ × ServerState) → List (List ℕ × ServerState)
sort_states [] = []
sort_states (x ∷ xs) = insert_state x (sort_states xs)

-- `u.abi_ok = u.abi_fp == Some(entry.fp)`.
check_abi : ℕ → UpstreamView → UpstreamView
check_abi fp u = record u { abi_ok = is_some_and (λ f. f == fp) u.abi_fp }

check_abis : AbiMismatch → Option (AbiEntry × AbiSource) → List UpstreamView → List UpstreamView
unfolding check_abi
check_abis exclude (some (entry, _)) us = map (check_abi entry.fp) us
check_abis _ _ us = us

-- The first chain id reported by an online upstream, upstreams and ids taken in step.
first_chain_id : List UpstreamView → List (List ℕ × ServerState) → Option (List ℕ)
first_chain_id [] ss = none
first_chain_id (u ∷ us) [] = none
first_chain_id (u ∷ us) ((_, s) ∷ ss) =
    if u.online && is_some s.chain_id then s.chain_id else first_chain_id us ss

count_of : (UpstreamView → Bool) → List UpstreamView → ℕ
count_of p us = length (filter p us)

abi_of : List (List ℕ × ServerState) → List (Option AbiEntry)
abi_of ss = map (λ (x : List ℕ × ServerState). x.1.abi) ss

-- `canonical_abi`: the choice is remembered; its log line is left out.
canonical_abi :
    BuildCtx
    → List UpstreamView
    → List (Option AbiEntry)
    → HubMemory
    → HubMemory × Option (AbiEntry × AbiSource)
canonical_abi ctx upstreams abis mem =
    let next = choose_canonical ctx.abi_pin upstreams abis mem.canonical in
    (record mem { canonical = next }, next)

for_topology :
    BuildCtx
    → List UpstreamView
    → List (Option AbiEntry)
    → HubMemory
    → Topology
    → HubMemory × Option (AbiEntry × AbiSource)
unfolding canonical_abi
for_topology ctx upstreams abis mem stitched = canonical_abi ctx upstreams abis mem
for_topology ctx upstreams abis mem pool = (mem, none)

unfoldable pub build_view :
    BuildCtx → List (List ℕ × ServerState) → Tips → HubMemory → ℕ → HubMemory × FleetView
unfolding for_topology check_abis first_chain_id count_of abi_of sort_states insert_state state_cmp
build_view ctx states tips mem now =
    let sorted = sort_states states in
    let upstreams = map (upstream_view ctx) sorted in
    let live_configured = any (λ u. u.enabled && is_live u.role) upstreams in
    let (mem1, head, lib, anchors) = fleet_tip upstreams tips live_configured mem in
    let mem2 = note_head mem1 head now in
    let frozen_unknown = count_of (λ u. u.enabled && is_frozen u.role && not u.known) upstreams in
    let (mem3, canonical) = for_topology ctx upstreams (abi_of sorted) mem2 ctx.topology in
    (
      mem3,
      record {
        generation = mem3.generation;
        topology = ctx.topology;
        chain_id =
            if is_some ctx.pinned_chain_id
            then ctx.pinned_chain_id
            else first_chain_id (check_abis ctx.abi_mismatch canonical upstreams) sorted;
        head = head;
        lib = lib;
        trace = cov_of upstreams head (Log.trace ∷ []);
        chain_state = cov_of upstreams head (Log.chain_state ∷ []);
        finality = cov_of upstreams head (Log.finality ∷ []);
        ids = cov_of upstreams head all_logs;
        upstreams = check_abis ctx.abi_mismatch canonical upstreams;
        abi = Option.map (λ (c : AbiEntry × AbiSource). c.0) canonical;
        abi_source = Option.map (λ (c : AbiEntry × AbiSource). c.1) canonical;
        frozen_unknown = frozen_unknown;
        status_ready = is_some head && is_some lib && frozen_unknown == 0;
        live_configured = live_configured;
        online = count_of (λ u. routable u && u.online) upstreams;
        live_online = count_of (λ u. routable u && u.online && is_live u.role) upstreams;
        live_overlap = (live_overlap upstreams Log.trace, live_overlap upstreams Log.chain_state);
        anchors = anchors;
      },
    )
