-- ===== src/Fleet/Pool.antt =====
-- src/fleet/planner.rs: the choice of a pool session's upstream (`pool_rank`, `pool_pick`). The
-- warning that `pool_pick` logs is not modelled.
pub mod Pick
use fleet_router.Prelude.{
  ℕ, ◌+◌, ◌*◌, Bool, true, false, not, ◌&&◌, ◌||◌, List, [], ◌∷◌, Option, none, some, leb, ltb,
  ◌==◌, filter, is_none_or, is_some_and, map, text_eq, if◌then◌else◌, unwrap_or, compare, Ordering,
}
use fleet_router.Prelude.Words.{u32_max}
use fleet_router.Prelude.Ranking.{then_with, min_by}
use fleet_router.Fleet.Upstream.{UpstreamView, routable, at_capacity, quarantined_at}
use fleet_router.Fleet.View.{FleetView}
use fleet_router.Fleet.Request.{Need, Excludes, hard_active, online, rendezvous}
use fleet_router.Fleet.Eligible.{eligible_ignoring_quarantine, preference, lagging_for}
use fleet_router.Fleet.Planner.{key}

pub record PoolRanked : Type 0 where
  pub up : UpstreamView
  pub offline : Bool
  pub rank : ℕ
  pub conns : ℕ
  pub hash : ℕ

-- `cands`.
unfoldable pub pool_candidate : Option (Need × ℕ) → Excludes → Bool → ℕ → UpstreamView → Bool
pool_candidate route ex failover now u =
    routable u
    && ((u.online || failover)
        && (not (hard_active ex u.endpoint now)
            && (not (at_capacity u)
                && is_none_or (λ (r : Need × ℕ). not (quarantined_at u r.1 now)) route)))

-- `rank`: coverage first, then freshness.
unfoldable pub pool_key : FleetView → Option (Need × ℕ) → ℕ → ℕ → UpstreamView → ℕ
pool_key v none lag now u = key (u.stale || lagging_for v u u32_max lag)
pool_key v (some (need, b)) lag now u =
    key (not (eligible_ignoring_quarantine v u need b online now)) * 2
    + key (u.stale || lagging_for v u b lag)

unfoldable pub pool_ranked : FleetView → Option (Need × ℕ) → ℕ → ℕ → ℕ → UpstreamView → PoolRanked
unfolding pool_key
pool_ranked v route sid lag now u = record {
  up = u;
  offline = not u.online;
  rank = pool_key v route lag now u;
  conns = u.connections;
  hash = rendezvous sid u.endpoint;
}

unfoldable pub pool_cmp : PoolRanked → PoolRanked → Ordering
pool_cmp a b =
    then_with
      (then_with (then_with (compare (key a.offline) (key b.offline)) (compare a.rank b.rank))
        (preference a.up a.conns b.up b.conns))
      (compare a.hash b.hash)

-- A peer of the upstream that just failed which covers the block as well.
is_peer : PoolRanked → PoolRanked → Bool
is_peer best c = not (text_eq c.up.endpoint best.up.endpoint) && leb c.rank best.rank

soft_pick : Excludes → List PoolRanked → PoolRanked → PoolRanked
unfolding is_peer
soft_pick ex ranked best =
    if is_some_and (λ e. text_eq e best.up.endpoint) ex.soft
    then unwrap_or best (min_by pool_cmp (filter (is_peer best) ranked))
    else best

unfoldable pub pool_list :
    FleetView → Option (Need × ℕ) → Excludes → Bool → ℕ → ℕ → ℕ → List PoolRanked
unfolding pool_candidate pool_ranked
pool_list v route ex failover sid lag now =
    map (pool_ranked v route sid lag now)
      (filter (pool_candidate route ex failover now) v.upstreams)

unfoldable pub pool_rank :
    FleetView → Option (Need × ℕ) → Excludes → Bool → ℕ → ℕ → ℕ → Option (ℕ × ℕ)
unfolding soft_pick pool_list pool_cmp min_by
pool_rank v route ex failover sid lag now =
    let ranked = pool_list v route ex failover sid lag now in
    elim (min_by pool_cmp ranked) [
      | none ↦ none
      | some best ↦ let pick = soft_pick ex ranked best in some (pick.up.index, pick.rank)
    ]

unfoldable pub pool_pick : FleetView → Option (Need × ℕ) → Excludes → Bool → ℕ → ℕ → ℕ → Option ℕ
unfolding pool_rank
pool_pick v route ex failover sid lag now = elim (pool_rank v route ex failover sid lag now) [
  | none ↦ none
  | some (index, _) ↦ some index
]
