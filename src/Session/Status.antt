-- ===== src/Session/Status.antt =====
-- src/session/status.rs: the status requests of a session, which are answered in order, and the
-- reply that the router builds from its fleet view. A queue is the list of its entries, front
-- first.
pub mod Queue
pub mod Reply
use fleet_router.Prelude.{
  ℕ, zero, suc, ◌+◌, ◌≤◌, max, min, Bool, true, false, not, ◌&&◌, ◌||◌, List, [], ◌∷◌, ◌++◌, Option,
  none, some, leb, ltb, ◌==◌, if◌then◌else◌, is_some, is_some_and, is_nil, length, take, unwrap_or,
}
use fleet_router.Prelude.Words.{saturating_add}
use fleet_router.Ship.{BlockPos, Range, is_empty}
use fleet_router.Models.{Topology, pool, stitched}
use fleet_router.Wire.{StatusBody}
use fleet_router.Wire.Reply.{encode_status}
use fleet_router.Fleet.Coverage.{LogCoverage}
use fleet_router.Fleet.View.{FleetView}
use fleet_router.Session.Mirror.{ClientSide, tip_for}

abbrev pub max_queued_status : ℕ
max_queued_status = 1024

-- A v0 result without its `chain_id`.
abbrev pub status_v0_no_chain_id : ℕ
status_v0_no_chain_id = 89

pub data StatusStep : Type 0 where
  reply relay : (v1 : Bool) → StatusStep

pub record StatusFlow : Type 0 where
  pub hold : List Bool
  pub backlog : List Bool
  pub deadline : Option ℕ

abbrev pub no_requests : StatusFlow
no_requests = record { hold = []; backlog = []; deadline = none }

get_or_insert : Option ℕ → ℕ → Option ℕ
get_or_insert none at = some at
get_or_insert (some d) at = some d

-- A request is queued, unless too many wait.
unfoldable pub push_status : StatusFlow → Bool → ℕ → ℕ → StatusFlow × Bool
unfolding get_or_insert
push_status q v1 now wait =
    if leb max_queued_status (length q.hold + length q.backlog) then (q, false) else (
      record q { hold = q.hold ++ v1 ∷ []; deadline = get_or_insert q.deadline (now + wait) },
      true,
    )

-- The step for the oldest held request `v1`, with those after it.
next_of : Bool → List Bool → StatusFlow → Bool → Bool → StatusFlow × Option StatusStep
next_of v1 rest q ready can_relay =
    let deadline = if is_nil rest then none else q.deadline in
    if not (is_nil q.backlog) || not ready
    then if can_relay
      then (
        record q { hold = rest; backlog = q.backlog ++ v1 ∷ []; deadline = deadline },
        some (relay v1),
      )
      else (q, none)
    else (record q { hold = rest; deadline = deadline }, some (reply v1))

next_held : List Bool → StatusFlow → Bool → Bool → StatusFlow × Option StatusStep
next_held [] q ready can_relay = (record q { deadline = none }, none)
next_held (v1 ∷ rest) q ready can_relay = next_of v1 rest q ready can_relay

unfoldable pub next_status : StatusFlow → Bool → Bool → StatusFlow × Option StatusStep
unfolding next_held next_of
next_status q ready can_relay = next_held q.hold q ready can_relay

arrived : List Bool → StatusFlow → StatusFlow × Option Bool
arrived [] q = (q, none)
arrived (v1 ∷ rest) q = (record q { backlog = rest }, some v1)

-- The version of the request that a reply answers.
unfoldable pub reply_arrived : StatusFlow → StatusFlow × Option Bool
unfolding arrived
reply_arrived q = arrived q.backlog q

-- The loop that pops at the back of `backlog` and pushes at the front of `hold`.
unfoldable pub put_back : List Bool → List Bool → List Bool
put_back [] hold = hold
put_back (v1 ∷ rest) hold = v1 ∷ put_back rest hold

unfoldable pub status_link_ended : StatusFlow → ℕ → ℕ → StatusFlow
unfolding get_or_insert put_back
status_link_ended q now wait =
    let hold = put_back q.backlog q.hold in
    record q {
      hold = hold;
      backlog = [];
      deadline = if is_nil hold then q.deadline else get_or_insert q.deadline (now + wait);
    }

is_pool : Topology → Bool
is_pool pool = true
is_pool stitched = false

unfoldable pub status_ready : FleetView → Option BlockPos × Option BlockPos → Bool
unfolding is_pool
status_ready view tip =
    is_some tip.0 && is_some tip.1 && (is_pool view.topology || view.frozen_unknown == 0)

unfoldable pub status_range : LogCoverage → ℕ → Range
status_range cov head =
    if not (is_empty cov.top) && is_some_and (λ b. leb b cov.top.end) cov.live_tail_begin
    then record cov.top { end = max cov.top.end (saturating_add head 1) }
    else cov.top

pub record RouterStatus : Type 0 where
  pub bytes : List ℕ
  pub zero_chain_id : Bool

unfoldable pub zeros : ℕ → List ℕ
zeros zero = []
zeros (suc n) = 0 ∷ zeros n

-- The body for a head and a LIB.
unfoldable pub status_body : FleetView → BlockPos × BlockPos → StatusBody
unfolding zeros
status_body view (head, lib) = record {
  head = head;
  lib = lib;
  trace = status_range view.trace head.num;
  chain_state = status_range view.chain_state head.num;
  finality = status_range view.finality head.num;
  chain_id = unwrap_or (zeros 32) view.chain_id;
}

status_of : FleetView → BlockPos × BlockPos → Bool → RouterStatus
status_of view shown v1 =
    let bytes = encode_status v1 (status_body view shown) in
    let missing = not (is_some view.chain_id) in
    record {
      bytes = if missing && not v1 then take status_v0_no_chain_id bytes else bytes;
      zero_chain_id = missing && v1;
    }

unfoldable pub router_status :
    FleetView
    → Option BlockPos × Option BlockPos
    → ClientSide
    → Bool
    → ClientSide × Option RouterStatus
unfolding status_of
router_status view (none, lib) c v1 = (c, none)
router_status view (some head, none) c v1 = (c, none)
router_status view (some head, some lib) c v1 =
    let shown = tip_for c (head, lib) in
    (record c { head_sent = some shown.0; lib_sent = some shown.1 }, some (status_of view shown v1))
