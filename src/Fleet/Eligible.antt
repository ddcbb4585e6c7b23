-- ===== src/Fleet/Eligible.antt =====
-- src/fleet/planner.rs: which upstream may serve a block, and the operator's preference.
pub mod Laws
pub mod Preference
use fleet_router.Prelude.{
  ℕ, ◌*◌, max, Bool, true, false, not, ◌&&◌, ◌||◌, Option, none, some, leb, ltb, any, is_some_and,
  is_none_or, if◌then◌else◌, compare, Ordering,
}
use fleet_router.Prelude.Words.{saturating_add}
use fleet_router.Prelude.Ranking.{then_with}
use fleet_router.Ship.{BlockPos}
use fleet_router.Models.{Role, live, frozen, is_live}
use fleet_router.Fleet.Coverage.{has}
use fleet_router.Fleet.Upstream.{
  Log, UpstreamView, routable, covers, covers_ids, quarantined_at, at_capacity,
}
use fleet_router.Fleet.View.{FleetView, cov}
use fleet_router.Fleet.Request.{Need, Union, sticky, online}

-- Whether the union has the log at block `n`: the closure `has` of `eligible_with`.
unfoldable pub union_has : FleetView → Union → Log → ℕ → Bool
unfolding cov
union_has v sticky log n = has (cov v log) n
union_has v online log n = any (λ w. (routable w && w.online) && covers w log n) v.upstreams

unfoldable pub eligible_with : FleetView → UpstreamView → Need → ℕ → Union → ℕ → Bool → Bool
eligible_with v u need n union now check_quarantine =
    if not (routable u) || not u.known || not u.abi_ok
    then false
    else (if check_quarantine && quarantined_at u n now
        then false
        else (if (need.traces && union_has v union Log.trace n) && not (covers u Log.trace n)
            then false
            else (if (need.deltas && union_has v union Log.chain_state n)
                  && not (covers u Log.chain_state n)
                then false
                else (if (need.finality && union_has v union Log.finality n)
                      && not (covers u Log.finality n)
                    then false
                    else not (
                        (union_has v union Log.trace n
                          || union_has v union Log.chain_state n
                          || union_has v union Log.finality n)
                        && not (covers_ids u n))))))

unfoldable pub eligible : FleetView → UpstreamView → Need → ℕ → Union → ℕ → Bool
unfolding eligible_with
eligible v u need n union now = eligible_with v u need n union now true

unfoldable pub eligible_ignoring_quarantine : FleetView → UpstreamView → Need → ℕ → Union → ℕ → Bool
unfolding eligible_with
eligible_ignoring_quarantine v u need n union now = eligible_with v u need n union now false

-- The products are u128, which a usize times a u32 does not reach.
unfoldable pub preference : UpstreamView → ℕ → UpstreamView → ℕ → Ordering
preference a a_conns b b_conns =
    then_with
      (then_with (compare a.priority b.priority)
        (compare (a_conns * max b.weight 1) (b_conns * max a.weight 1)))
      (compare (max b.weight 1) (max a.weight 1))

role_holds : Role → UpstreamView → ℕ → Bool
role_holds live u block = covers u Log.trace block
role_holds frozen u block = covers_ids u block

-- `now` is the instant at which the source asks the clock.
unfoldable pub can_take_over : UpstreamView → Option ℕ → ℕ → Bool
unfolding role_holds
can_take_over u next_block now =
    routable u
    && (u.online
        && (u.known
            && (u.abi_ok
                && (not (at_capacity u)
                    && is_none_or
                        (λ block. not (quarantined_at u block now) && role_holds u.role u block)
                        next_block))))

head_lags : ℕ → ℕ → Option BlockPos → Option BlockPos → Bool
head_lags n lag (some h) (some f) = ltb (saturating_add h.num lag) f.num && ltb h.num n
head_lags n lag _ _ = false

unfoldable pub lagging_for : FleetView → UpstreamView → ℕ → ℕ → Bool
unfolding head_lags
lagging_for v u n lag = ltb 0 lag && (is_live u.role && head_lags n lag u.head v.head)
