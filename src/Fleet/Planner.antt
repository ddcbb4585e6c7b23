-- ===== src/Fleet/Planner.antt =====
-- src/fleet/planner.rs: the next step of a stitched session (`next_step`, `candidate`,
-- `gated_end`, `serve_on`). The `debug_assert!` of the source is proved in `Planner/Serve`.
pub mod Rank
pub mod Serve
pub mod Agree
pub mod Gaps
use fleet_router.Prelude.{
  ℕ, ◌+◌, ◌-◌, min, Bool, true, false, not, ◌&&◌, ◌||◌, List, [], ◌∷◌, Option, none, some, leb, ltb,
  ◌==◌, any, filter, head?, is_nil, is_some_and, is_some, length, map, text_eq, if◌then◌else◌,
  compare, Ordering,
}
use fleet_router.Prelude.Words.{saturating_add}
use fleet_router.Prelude.Ranking.{then_with, min_by}
use fleet_router.Ship.{BlockPos, Range}
use fleet_router.Models.{
  Role, live, frozen, is_live, is_frozen, HistoryPreference, prefer_frozen, any_role,
}
use fleet_router.Fleet.Coverage.{has}
use fleet_router.Fleet.Upstream.{UpstreamView, routable, ids_begin, covers_ids, at_capacity_besides}
use fleet_router.Fleet.View.{FleetView, up}
use fleet_router.Fleet.Request.{
  Shape, Excludes, hard_active, sticky, ServeStep, HoldWhy, offline, quarantined, at_capacity, busy,
  Step, serve, hold, wait, gap, done, rendezvous,
}
use fleet_router.Fleet.Eligible.{eligible, preference, lagging_for}
use fleet_router.Fleet.Run.{run_end, tip_region}

-- `u8::from` of a test.
abbrev pub key : Bool → ℕ
key true = 1
key false = 0

-- The fleet's first known block id.
abbrev pub fleet_begin : FleetView → Option ℕ
fleet_begin v = elim (head? v.ids.components) [ none ↦ none | some c ↦ some c.begin ]

abbrev pub is_below : FleetView → ℕ → Bool
is_below v from = is_some_and (λ b. ltb from b) (fleet_begin v)

abbrev pub same_num : Option ℕ → Option ℕ → Bool
same_num none none = true
same_num (some a) (some b) = a == b
same_num _ _ = false

unfoldable pub candidate : FleetView → UpstreamView → Shape → ℕ → Excludes → ℕ → Bool
candidate v u sh from ex now =
    if hard_active ex u.endpoint now
    then false
    else (if is_below v from
        then routable u && (u.known && (u.abi_ok && same_num (ids_begin u) (fleet_begin v)))
        else eligible v u sh.need from sticky now)

-- The gate of a frozen leg.
gate_of : Bool → Option BlockPos × Option BlockPos → Option BlockPos
gate_of irreversible_only (head, lib) = if irreversible_only then lib else head

gate_end : ℕ → ℕ → Option BlockPos → Option ℕ
gate_end from run none = none
gate_end from run (some g) =
    if leb from g.num then some (min run (saturating_add g.num 1)) else none

unfoldable pub gated_end :
    UpstreamView → Option BlockPos × Option BlockPos → Shape → ℕ → ℕ → Option ℕ
unfolding gate_of gate_end
gated_end u tip sh from run =
    if not (is_frozen u.role)
    then some run
    else gate_end from run (gate_of sh.irreversible_only tip)

-- A candidate with its ranking keys.
pub record Ranked : Type 0 where
  pub up : UpstreamView
  pub head : List ℕ
  pub conns : ℕ
  pub run : ℕ
  pub hash : ℕ

-- How many of the session's own slots are on `u`.
unfoldable pub mine : List ℕ → UpstreamView → ℕ
mine own u = length (filter (λ i. i == u.index) own)

unfoldable pub full : List ℕ → UpstreamView → Bool
unfolding mine
full own u = at_capacity_besides u (mine own u)

role_key : HistoryPreference → Role → ℕ
role_key prefer_frozen live = 1
role_key _ _ = 0

is_soft : Excludes → UpstreamView → Bool
is_soft ex u = is_some_and (λ e. text_eq e u.endpoint) ex.soft

unfoldable pub rank_of :
    FleetView
    → Shape
    → ℕ
    → Excludes
    → List ℕ
    → ℕ
    → HistoryPreference
    → ℕ
    → ℕ
    → UpstreamView
    → Ranked
unfolding role_key is_soft mine full
rank_of v sh from ex own sid pol lag now u = record {
  up = u;
  head =
      key (not u.online)
      ∷ key (u.stale || lagging_for v u from lag)
      ∷ key (full own u)
      ∷ key (sh.need.block && u.no_block_log)
      ∷ role_key pol u.role
      ∷ key (is_soft ex u)
      ∷ [];
  conns = u.connections - mine own u;
  run = min (run_end v u sh.need from now) sh.end;
  hash = rendezvous sid u.endpoint;
}

-- Arrays compare by their first difference.
cmp_keys : List ℕ → List ℕ → Ordering
cmp_keys [] [] = Ordering.eq
cmp_keys [] (y ∷ ys) = Ordering.lt
cmp_keys (x ∷ xs) [] = Ordering.gt
cmp_keys (x ∷ xs) (y ∷ ys) = then_with (compare x y) (cmp_keys xs ys)

unfoldable pub rank_cmp : Ranked → Ranked → Ordering
unfolding cmp_keys
rank_cmp a b =
    then_with
      (then_with
        (then_with (then_with (cmp_keys a.head b.head) (compare a.up.priority b.up.priority))
          (compare b.run a.run))
        (preference a.up a.conns b.up b.conns))
      (compare a.hash b.hash)

-- Why nothing may serve `from`.
no_candidate : FleetView → ℕ → Excludes → ℕ → HoldWhy
no_candidate v from ex now =
    if any (λ u. hard_active ex u.endpoint now) v.upstreams
    then busy
    else (if any (λ u. (u.enabled && u.operator_disabled) && covers_ids u from) v.upstreams
        then offline
        else quarantined)

-- What follows once the best candidate is known.
serve_best :
    FleetView → Option BlockPos × Option BlockPos → Shape → ℕ → List ℕ → Bool → Ranked → Step
serve_best v tip sh from own allow_offline chosen =
    if not chosen.up.online && not allow_offline
    then hold from offline (not (tip_region v from))
    else elim (gated_end chosen.up tip sh from chosen.run) [
      | none ↦ wait from
      | some req_end ↦
          if full own chosen.up
          then hold from at_capacity (not (tip_region v from))
          else serve (record {
            up = chosen.up.index;
            endpoint = chosen.up.endpoint;
            role = chosen.up.role;
            start = from;
            req_end = req_end;
          })
    ]

-- What follows when no upstream knows the id of `from`, which is not below the fleet.
uncovered_step : FleetView → ℕ → Step
uncovered_step v from =
    if not (is_some (fleet_begin v))
      || leb v.ids.top.end from && not (is_some v.ids.live_tail_begin)
    then wait from
    else (if ltb 0 v.frozen_unknown then hold from offline true else gap from)

unfoldable pub candidates : FleetView → Shape → ℕ → Excludes → ℕ → List UpstreamView
unfolding candidate
candidates v sh from ex now = filter (λ u. candidate v u sh from ex now) v.upstreams

-- `expect("cands is not empty")`: `none` is met only by an empty list.
choose :
    FleetView
    → Option BlockPos × Option BlockPos
    → Shape
    → ℕ
    → Excludes
    → List ℕ
    → Bool
    → ℕ
    → Option Ranked
    → Step
unfolding no_candidate serve_best
choose v tip sh from ex own allow_offline now none =
    hold from (no_candidate v from ex now) (not (tip_region v from))
choose v tip sh from ex own allow_offline now (some chosen) =
    serve_best v tip sh from own allow_offline chosen

unfoldable pub best_of :
    FleetView → Shape → ℕ → Excludes → List ℕ → ℕ → HistoryPreference → ℕ → ℕ → Option Ranked
unfolding candidates rank_of rank_cmp min_by
best_of v sh from ex own sid pol lag now =
    min_by rank_cmp (map (rank_of v sh from ex own sid pol lag now) (candidates v sh from ex now))

unfoldable pub next_step :
    FleetView
    → Option BlockPos × Option BlockPos
    → Shape
    → ℕ
    → Excludes
    → List ℕ
    → ℕ
    → HistoryPreference
    → ℕ
    → Bool
    → ℕ
    → Step
unfolding choose no_candidate serve_best uncovered_step
next_step v tip sh from ex own sid pol lag allow_offline now =
    if leb sh.end from
    then done
    else (if not (is_below v from) && not (has v.ids from)
        then uncovered_step v from
        else (if is_below v from && ltb 0 v.frozen_unknown
            then hold from offline true
            else choose v tip sh from ex own allow_offline now
                (best_of v sh from ex own sid pol lag now)))

-- The step that serves `from` from `u`, if that is not empty.
leg :
    FleetView → Option BlockPos × Option BlockPos → Shape → ℕ → ℕ → UpstreamView → Option ServeStep
leg v tip sh from now u =
    elim (gated_end u tip sh from (min (run_end v u sh.need from now) sh.end)) [
      | none ↦ none
      | some req_end ↦
          if ltb from req_end
          then some (record {
            up = u.index;
            endpoint = u.endpoint;
            role = u.role;
            start = from;
            req_end = req_end;
          })
          else none
    ]

unfoldable pub serve_on :
    FleetView → Option BlockPos × Option BlockPos → Shape → ℕ → ℕ → Excludes → ℕ → Option ServeStep
unfolding leg
serve_on v tip sh from index ex now =
    if leb sh.end from
    then none
    else (if (not (is_below v from) && not (has v.ids from))
          || (is_below v from && ltb 0 v.frozen_unknown)
        then none
        else elim (up v index) [
          | none ↦ none
          | some u ↦ if candidate v u sh from ex now then leg v tip sh from now u else none
        ])
