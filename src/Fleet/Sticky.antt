-- ===== src/Fleet/Sticky.antt =====
-- src/fleet/view.rs: the sticky coverage of a set of logs (`cov_of` in `build_view`) and the
-- overlap of the archives with the live tier (`live_overlap`).
pub mod Laws
use fleet_router.Prelude.{
  ℕ, ◌+◌, Bool, true, false, not, ◌&&◌, ◌||◌, List, [], ◌∷◌, ◌++◌, Option, none, some, min, max,
  leb, ltb, ◌==◌, any, filter, is_some, is_some_and, map, get_elem?, if◌then◌else◌, length, text_eq,
  compare, Ordering,
}
use fleet_router.Prelude.Int.{ℤ, sub_ℕ}
use fleet_router.Prelude.Ranking.{then_with}
use fleet_router.Ship.{BlockPos, Range, empty_range}
use fleet_router.Abi.{AbiEntry}
use fleet_router.Models.{
  Role, live, frozen, is_live, is_frozen, Topology, pool, stitched, AbiMismatch, exclude,
  ServerState, ranges_usable,
}
use fleet_router.Fleet.Coverage.{LogCoverage, coverage}
use fleet_router.Fleet.Upstream.{
  Log, UpstreamView, all_logs, routable, range, has_log, log_segment, least, greatest,
}
use fleet_router.Fleet.View.{FleetView, HubMemory, AbiSource, note_head}

-- The three accumulators of `cov_of`.
pub record Tally : Type 0 where
  pub segs : List Range
  pub online : List Range
  pub tail : Option ℕ

lower_tail : Option ℕ → ℕ → Option ℕ
lower_tail none begin = some begin
lower_tail (some t) begin = some (min t begin)

-- The body of the inner loop of `cov_of`, over the logs; `serving` is `online` and not disabled.
add_segment : Role → Bool → ℕ → Option Range → Tally → Tally
unfolding lower_tail
add_segment role serving begin none t = t
add_segment role serving begin (some seg) t = record {
  segs = t.segs ++ seg ∷ [];
  online = if serving then t.online ++ seg ∷ [] else t.online;
  tail = if is_live role then lower_tail t.tail begin else t.tail;
}

tally_log : Option BlockPos → UpstreamView → Log → Tally → Tally
unfolding add_segment
tally_log head u log t =
    add_segment u.role (u.online && not u.operator_disabled) (range u log).begin
      (log_segment u log head) t

tally_logs : Option BlockPos → UpstreamView → List Log → Tally → Tally
tally_logs head u [] t = t
tally_logs head u (log ∷ logs) t = tally_logs head u logs (tally_log head u log t)

tally : Option BlockPos → List Log → List UpstreamView → Tally → Tally
tally head logs [] t = t
tally head logs (u ∷ us) t =
    tally head logs us (if u.enabled && u.known then tally_logs head u logs t else t)

unfoldable pub cov_of : List UpstreamView → Option BlockPos → List Log → LogCoverage
unfolding tally tally_logs tally_log
cov_of upstreams head logs =
    let t = tally head logs upstreams (record { segs = []; online = []; tail = none }) in
    coverage t.segs t.online t.tail

unfoldable pub live_overlap : List UpstreamView → Log → Option ℤ
unfolding least greatest has_log range
live_overlap upstreams log =
    let frozen_end = greatest (
      map (λ u. (range u log).end)
        (filter (λ u. u.enabled && u.known && is_frozen u.role && has_log u log) upstreams)) in
    let live_begin = least (
      map (λ u. (range u log).begin)
        (filter (λ u. u.enabled && u.known && u.online && is_live u.role && has_log u log)
          upstreams)) in
    elim frozen_end [
      | none ↦ none
      | some end ↦ elim live_begin [ none ↦ none | some begin ↦ some (sub_ℕ end begin) ]
    ]
