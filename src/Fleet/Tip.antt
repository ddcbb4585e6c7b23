-- ===== src/Fleet/Tip.antt =====
-- src/fleet/view.rs and src/fleet/mod.rs: the head and LIB of the fleet (`anchor_max`,
-- `fleet_tip`, `fresh_tip`, `ObservedTip`). An observed tip is the pair that its mutex guards: the
-- two atomics of the source hold its numbers, and each call of `observe` is taken as one step.
pub mod Laws
use fleet_router.Prelude.{
  ℕ, ◌+◌, Bool, true, false, not, ◌&&◌, ◌||◌, List, [], ◌∷◌, ◌++◌, Option, none, some, min, leb,
  ltb, ◌==◌, any, filter, find, is_nil, is_some, is_none_or, map, get_elem?, if◌then◌else◌,
  unwrap_or,
}
use fleet_router.Prelude.Int.{ℤ, sub_ℕ}
use fleet_router.Ship.{BlockPos, Range}
use fleet_router.Abi.{AbiEntry}
use fleet_router.Models.{Role, live, frozen, is_live, is_frozen, Topology, AbiMismatch}
use fleet_router.Fleet.Coverage.{LogCoverage, coverage}
use fleet_router.Fleet.Upstream.{
  Log, UpstreamView, all_logs, routable, range, has_log, log_segment, least, greatest,
}
use fleet_router.Fleet.View.{FleetView, HubMemory, note_head, max_by_num}

-- `ObservedTip::observe`: nothing is done unless the head or the LIB grows.
unfoldable pub observe :
    Option (BlockPos × BlockPos) → BlockPos → BlockPos → Option (BlockPos × BlockPos)
observe none head lib = if leb head.num 0 && leb lib.num 0 then none else some (head, lib)
observe (some (seen_head, seen_lib)) head lib =
    if leb head.num seen_head.num && leb lib.num seen_lib.num
    then some (seen_head, seen_lib)
    else some (
      if ltb seen_head.num head.num then head else seen_head,
      if ltb seen_lib.num lib.num then lib else seen_lib,
    )

-- One observed tip per upstream, by its index.
abbrev pub Tips : Type 0
Tips = List (Option (BlockPos × BlockPos))

-- `tips.get(i).and_then(|t| t.get())`.
pub tip_of : Tips → ℕ → Option BlockPos × Option BlockPos
tip_of tips i = elim (get_elem? tips i) [
  | none ↦ (none, none)
  | some none ↦ (none, none)
  | some (some (head, lib)) ↦ (some head, some lib)
]

-- The fold of `anchor_max`.
anchor_fold :
    List UpstreamView
    → Tips
    → List ℕ
    → Option BlockPos × Option BlockPos
    → Option BlockPos × Option BlockPos
unfolding tip_of max_by_num
anchor_fold upstreams tips [] acc = acc
anchor_fold upstreams tips (pos ∷ rest) (head, lib) =
    anchor_fold upstreams tips rest (elim (get_elem? upstreams pos) [
      | none ↦ (head, lib)
      | some u ↦ (
        max_by_num head (max_by_num u.head (tip_of tips u.index).0),
        max_by_num lib (max_by_num u.lib (tip_of tips u.index).1),
      )
    ])

pub anchor_max : List UpstreamView → Tips → List ℕ → Option BlockPos × Option BlockPos
unfolding anchor_fold
anchor_max upstreams tips anchors = anchor_fold upstreams tips anchors (none, none)

-- The positions, from `pos` on, of the upstreams that pass a test.
positions : (UpstreamView → Bool) → ℕ → List UpstreamView → List ℕ
positions p pos [] = []
positions p pos (u ∷ us) = if p u then pos ∷ positions p (pos + 1) us else positions p (pos + 1) us

newest_frozen : List UpstreamView → Option BlockPos → Option BlockPos
newest_frozen [] acc = acc
newest_frozen (u ∷ us) acc =
    newest_frozen us
      (if u.enabled && u.known && is_frozen u.role then max_by_num acc u.head else acc)

-- The LIB, never above the head.
cap_lib : BlockPos → Option BlockPos → Option BlockPos
cap_lib head none = none
cap_lib head (some l) = if ltb head.num l.num then some head else some l

-- The second half of `fleet_tip`, from the tip that the anchors gave.
settle :
    HubMemory → Option BlockPos × Option BlockPos → HubMemory × Option BlockPos × Option BlockPos
unfolding cap_lib max_by_num
settle mem (none, _) = (mem, none, none)
settle mem (some head, lib) =
    let high = max_by_num lib mem.lib_hwm in
    let capped = cap_lib head high in
    (record mem { lib_hwm = high; last_tip = (some head, capped) }, some head, capped)

-- `if head.is_none() { (head, lib) = mem.last_tip; }`.
or_last_tip :
    Option BlockPos × Option BlockPos
    → Option BlockPos × Option BlockPos
    → Option BlockPos × Option BlockPos
or_last_tip last (none, _) = last
or_last_tip last (some head, lib) = (some head, lib)

-- All online live upstreams, or those of them that are not stale where there are any.
tip_anchors : List UpstreamView → List ℕ
unfolding positions
tip_anchors upstreams =
    let live_on = positions (λ u. routable u && is_live u.role && u.online) 0 upstreams in
    let fresh =
      positions (λ u. (routable u && is_live u.role && u.online) && not u.stale) 0 upstreams in
    if is_nil fresh then live_on else fresh

unfoldable pub fleet_tip :
    List UpstreamView
    → Tips
    → Bool
    → HubMemory
    → HubMemory × Option BlockPos × Option BlockPos × List ℕ
unfolding tip_anchors settle or_last_tip newest_frozen anchor_max
fleet_tip upstreams tips live_configured mem =
    let anchors = tip_anchors upstreams in
    let newest = newest_frozen upstreams none in
    let from_anchors =
      if not (is_nil anchors)
      then anchor_max upstreams tips anchors
      else (if not live_configured then (newest, newest) else mem.last_tip) in
    let (mem', head, lib) = settle mem (or_last_tip mem.last_tip from_anchors) in
    (mem', head, lib, anchors)

-- `fresh_tip` once a head is known.
refresh : HubMemory → ℕ → BlockPos → Option BlockPos → HubMemory × Option BlockPos × Option BlockPos
unfolding cap_lib note_head max_by_num
refresh mem now head lib =
    let high = max_by_num lib mem.lib_hwm in
    let capped = cap_lib head high in
    let noted = note_head (record mem { lib_hwm = high }) (some head) now in
    (
      if is_none_or (λ last. ltb last.num head.num) noted.last_tip.0
          then record noted { last_tip = (some head, capped) }
          else noted,
      some head,
      capped,
    )

unfoldable pub fresh_tip :
    FleetView → Tips → HubMemory → ℕ → HubMemory × Option BlockPos × Option BlockPos
unfolding refresh anchor_max
fresh_tip v tips mem now =
    let (anchor_head, anchor_lib) = anchor_max v.upstreams tips v.anchors in
    elim (max_by_num v.head anchor_head) [
      | none ↦ (mem, none, none)
      | some head ↦ refresh mem now head (max_by_num v.lib anchor_lib)
    ]
