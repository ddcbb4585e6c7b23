-- ===== src/Fleet/Planner/Agree.antt =====
-- `serve_on` gives the leg that `next_step` chose, for as long as the view stays.
use fleet_router.Prelude.{
  ℕ, ◌≤◌, ◌<◌, ◌≡◌, ◌∙◌, ap, Bool, false, not, ◌&&◌, ◌||◌, List, Option, some, arith, leb, ltb,
}
use fleet_router.Prelude.Words.{u32_max}
use fleet_router.Ship.{BlockPos}
use fleet_router.Models.{HistoryPreference}
use fleet_router.Fleet.Coverage.{has}
use fleet_router.Fleet.Upstream.{UpstreamView}
use fleet_router.Fleet.View.{FleetView, up}
use fleet_router.Fleet.View.Lookup.{DistinctIndexes, up_unique}
use fleet_router.Fleet.Request.{Shape, Excludes, ServeStep, serve}
use fleet_router.Fleet.Run.Constant.{IsSticky}
use fleet_router.Fleet.Planner.{is_below, rank_of, next_step, leg, serve_on, uncovered_step}
use fleet_router.Fleet.Planner.Rank.{best_of-least}
use fleet_router.Fleet.Planner.Serve.{Served, next_step-chosen, serve-SafeLeg}

module _ (v : FleetView) (tip : Option BlockPos × Option BlockPos) (sh : Shape) (from : ℕ)
    (ex : Excludes) (own : List ℕ) (sid : ℕ) (pol : HistoryPreference) (lag : ℕ)
    (allow_offline : Bool) (now : ℕ) (s : ServeStep) where
  -- The planner's own guards have been passed by a step that serves.
  next_step-guards :
      next_step v tip sh from ex own sid pol lag allow_offline now ≡ serve s
      → (leb sh.end from ≡ false)
        × (((not (is_below v from) && not (has v.ids from))
              || (is_below v from && ltb 0 v.frozen_unknown))
            ≡ false)
  unfolding next_step uncovered_step
  next_step-guards e = (ground arith, ground arith)

  leg-Served :
      (u : UpstreamView)
      → from < s.req_end
      → Served v tip sh from own allow_offline (rank_of v sh from ex own sid pol lag now u) s
      → leg v tip sh from now u ≡ some s
  unfolding leg rank_of
  leg-Served u h d = ground arith

  -- Where indexes are distinct, the leg that `next_step` serves is what `serve_on` gives for its
  -- upstream.
  pub serve_on-next_step :
      IsSticky v
      → DistinctIndexes v
      → sh.end ≤ u32_max
      → next_step v tip sh from ex own sid pol lag allow_offline now ≡ serve s
      → serve_on v tip sh from s.up ex now ≡ some s
  unfolding serve_on
  serve_on-next_step ok distinct small e =
      let (r, b, d, k, h) =
        next_step-chosen v tip sh from own allow_offline ex sid pol lag now s e in
      let (u, i, c, f, _) = best_of-least v sh from ex own sid pol lag now r b in
      let d' = rw f at d in
      let safe =
        serve-SafeLeg v tip sh from ex own sid pol lag allow_offline now s u ok small i c k h d' in
      let (g1, g2) = next_step-guards e in
      let found : up v s.up ≡ some u = ap (up v) safe.index_is ∙ up_unique v u distinct i in
      rw (g1, g2, found, c) (leg-Served u safe.not_empty d')
