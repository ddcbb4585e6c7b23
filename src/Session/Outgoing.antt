-- ===== src/Session/Outgoing.antt =====
-- src/session/mod.rs: what becomes of a block result's frame on its way to the client:
-- `lacks`, `fill_prev_block`, `apply_head_lib` and the part of `forward_result` that they serve.
-- `fleet` is the fresh tip of the fleet.
pub mod Frames
use fleet_router.Prelude.{
  ℕ, ◌+◌, ◌≤◌, Bool, true, false, not, ◌&&◌, ◌||◌, List, [], ◌∷◌, Option, none, some, leb, ltb,
  ◌==◌, if◌then◌else◌, is_some, is_some_and,
}
use fleet_router.Prelude.Words.{checked_add}
use fleet_router.Ship.{BlockPos}
use fleet_router.Wire.{BlocksRequest, ResultHead, Presence}
use fleet_router.Wire.Reader.{Outcome, ok, err}
use fleet_router.Wire.Reply.{result_presence, patch_head_lib, insert_prev_block}
use fleet_router.Models.{Role, live, frozen}
use fleet_router.Fleet.Upstream.{Log, UpstreamView, covers, covers_ids}
use fleet_router.Session.Mirror.{ClientSide, charge, last_irreversible, head_lib_for}
use fleet_router.Session.Judge.{Lacks, nothing, no_block_data, no_data}

-- What is missing of the fields that the request asks for and the upstream has at the block.
unfoldable pub lacks_of : Presence → UpstreamView → BlocksRequest → ℕ → Lacks
lacks_of p u creq n =
    if creq.fetch_traces && covers u Log.trace n && not p.traces
      || creq.fetch_deltas && covers u Log.chain_state n && not p.deltas
      || creq.v1 && creq.fetch_finality_data && covers u Log.finality n && not p.finality
    then no_data
    else if creq.fetch_block && covers_ids u n && not p.block
    then no_block_data
    else nothing

unfoldable pub lacks : Option UpstreamView → BlocksRequest → List ℕ → ResultHead → ℕ → Lacks
unfolding lacks_of
lacks none creq frame h n = nothing
lacks (some u) creq frame h n = elim (result_presence frame h) [
  | err e ↦ no_data
  | ok p r ↦ lacks_of p u creq n
]

fill_from : Option BlockPos → Option BlockPos → Option BlockPos → List ℕ → ResultHead → List ℕ
fill_from none prev last frame h = frame
fill_from (some this) (some prev) last frame h = frame
fill_from (some this) none none frame h = frame
fill_from (some this) none (some last) frame h =
    if leb this.num 1 || not (is_some_and (λ next. next == this.num) (checked_add last.num 1))
    then frame
    else elim (insert_prev_block frame h last) [ none ↦ frame | some (filled, _) ↦ filled ]

unfoldable pub fill_prev_block : ClientSide → List ℕ → ResultHead → List ℕ
unfolding fill_from
fill_prev_block c frame h = fill_from h.this_block h.prev_block (last_irreversible c) frame h

unfoldable pub apply_head_lib :
    ClientSide
    → List ℕ
    → BlockPos
    → BlockPos
    → Role
    → Option (BlockPos × BlockPos)
    → Bool
    → ClientSide × List ℕ
apply_head_lib c frame head lib role fleet patch =
    let (c', out) = head_lib_for c role head lib fleet patch in
    (c', elim out [ none ↦ frame | some (h, l) ↦ patch_head_lib frame h l ])

-- The frame that is sent, and the mirror before the commit.
unfoldable pub outgoing :
    ClientSide
    → Role
    → List ℕ
    → ResultHead
    → Option (BlockPos × BlockPos)
    → Bool
    → ClientSide × List ℕ
outgoing c live frame h fleet patch = apply_head_lib (charge c).0 frame h.head h.lib live none patch
outgoing c frozen frame h fleet patch =
    apply_head_lib (charge c).0 (fill_prev_block (charge c).0 frame h) h.head h.lib frozen fleet
      patch
