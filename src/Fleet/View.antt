-- ===== src/Fleet/View.antt =====
-- src/fleet/view.rs: `FleetView`, the snapshot of a listener's fleet, and `HubMemory`, what a hub
-- remembers between builds. The sets that keep a warning from being logged twice are not modelled.
pub mod Lookup
use fleet_router.Prelude.{
  ℕ, Bool, List, Option, none, some, ltb, ◌==◌, find, is_none_or, get_elem?, if◌then◌else◌,
}
use fleet_router.Prelude.Int.{ℤ}
use fleet_router.Ship.{BlockPos}
use fleet_router.Abi.{AbiEntry}
use fleet_router.Models.{Topology}
use fleet_router.Fleet.Coverage.{LogCoverage}
use fleet_router.Fleet.Upstream.{Log, UpstreamView}

pub data AbiSource : Type 0 where
  file : AbiSource
  live_abi : ℕ → AbiSource
  provisional : ℕ → AbiSource

pub record FleetView : Type 0 where
  pub generation : ℕ
  pub topology : Topology
  pub chain_id : Option (List ℕ)
  pub head : Option BlockPos
  pub lib : Option BlockPos
  pub trace : LogCoverage
  pub chain_state : LogCoverage
  pub finality : LogCoverage
  pub ids : LogCoverage
  pub upstreams : List UpstreamView
  pub abi : Option AbiEntry
  pub abi_source : Option AbiSource
  pub frozen_unknown : ℕ
  pub status_ready : Bool
  pub live_configured : Bool
  pub online : ℕ
  pub live_online : ℕ
  pub live_overlap : Option ℤ × Option ℤ
  pub anchors : List ℕ

unfoldable pub cov : FleetView → Log → LogCoverage
cov v Log.trace = v.trace
cov v Log.chain_state = v.chain_state
cov v Log.finality = v.finality

-- `FleetView::up`: the upstream at the position, if it has that index, else the first that has.
unfoldable pub up : FleetView → ℕ → Option UpstreamView
up v index =
    let first = find (λ u. u.index == index) v.upstreams in
    elim (get_elem? v.upstreams index) [
      | none ↦ first
      | some u ↦ if u.index == index then some u else first
    ]

pub record HubMemory : Type 0 where
  pub generation : ℕ
  pub lib_hwm : Option BlockPos
  pub last_tip : Option BlockPos × Option BlockPos
  pub canonical : Option (AbiEntry × AbiSource)
  pub head_seen : Option ℕ
  pub head_advanced_at : ℕ

unfoldable pub note_head : HubMemory → Option BlockPos → ℕ → HubMemory
note_head mem none now = mem
note_head mem (some head) now =
    if is_none_or (λ seen. ltb seen head.num) mem.head_seen
    then record mem { head_seen = some head.num; head_advanced_at = now }
    else mem

-- On equal numbers the first argument wins.
unfoldable pub max_by_num : Option BlockPos → Option BlockPos → Option BlockPos
max_by_num (some x) (some y) = if ltb x.num y.num then some y else some x
max_by_num (some x) none = some x
max_by_num none y = y
