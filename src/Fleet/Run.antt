-- ===== src/Fleet/Run.antt =====
-- src/fleet/planner.rs: how far a run on one upstream goes (`breakpoints`, `quarantine_bounds`,
-- `run_end`, `tip_region`). `sort_unstable` and `dedup` of the standard library are an insertion
-- sort and the removal of equal neighbours.
pub mod Constant
pub mod Ends
use fleet_router.Prelude.{
  ℕ, ◌+◌, Bool, true, false, not, ◌&&◌, ◌||◌, List, [], ◌∷◌, ◌++◌, Option, none, some, leb, ltb,
  ◌==◌, any, filter, head?, if◌then◌else◌,
}
use fleet_router.Prelude.Words.{u32_max, checked_add}
use fleet_router.Models.{Role, live, frozen, is_frozen, BlockQuarantine}
use fleet_router.Models.Quarantine.{active}
use fleet_router.Fleet.Upstream.{
  Log, UpstreamView, all_logs, range, has_log, max_end, covers_ids, at_capacity,
}
use fleet_router.Fleet.View.{FleetView}
use fleet_router.Fleet.Request.{Need, sticky}
use fleet_router.Fleet.Eligible.{eligible}

bounds_of : BlockQuarantine → List ℕ
bounds_of q = elim (checked_add q.block q.range) [
  | some end ↦ q.block ∷ end ∷ []
  | none ↦ q.block ∷ []
]

active_bounds : List BlockQuarantine → ℕ → List ℕ
active_bounds [] now = []
active_bounds (q ∷ qs) now = (if active q now then bounds_of q else []) ++ active_bounds qs now

unfoldable pub quarantine_bounds : UpstreamView → ℕ → List ℕ
unfolding active_bounds active bounds_of
quarantine_bounds u now = active_bounds u.quarantines now

-- The bounds of one log of `w`; the end of a live one is open.
log_bounds : UpstreamView → Log → List ℕ
log_bounds w log =
    if not (has_log w log)
    then []
    else (range w log).begin ∷ (if is_frozen w.role then (range w log).end ∷ [] else [])

pub logs_bounds : UpstreamView → List Log → List ℕ
logs_bounds w [] = []
logs_bounds w (log ∷ logs) = log_bounds w log ++ logs_bounds w logs

pub range_bounds : List UpstreamView → List ℕ
range_bounds [] = []
range_bounds (w ∷ ws) =
    (if w.enabled && w.known then logs_bounds w all_logs else []) ++ range_bounds ws

first_begin : FleetView → List ℕ
first_begin v = elim (head? v.ids.components) [ none ↦ [] | some first ↦ first.begin ∷ [] ]

pub breakpoints : FleetView → UpstreamView → ℕ → List ℕ
breakpoints v u now = range_bounds v.upstreams ++ (quarantine_bounds u now ++ first_begin v)

-- The quarantine bounds of the upstreams other than `u`.
others_bounds : UpstreamView → List UpstreamView → ℕ → List ℕ
others_bounds u [] now = []
others_bounds u (w ∷ ws) now =
    (if w.index == u.index then [] else quarantine_bounds w now) ++ others_bounds u ws now

insert_num : ℕ → List ℕ → List ℕ
insert_num n [] = n ∷ []
insert_num n (x ∷ xs) = if leb n x then n ∷ x ∷ xs else x ∷ insert_num n xs

unfoldable pub sort_unstable : List ℕ → List ℕ
unfolding insert_num
sort_unstable [] = []
sort_unstable (n ∷ ns) = insert_num n (sort_unstable ns)

unfoldable pub dedup : List ℕ → List ℕ
dedup [] = []
dedup (x ∷ []) = x ∷ []
dedup (x ∷ y ∷ ys) = let rest = dedup (y ∷ ys) in if x == y then rest else x ∷ rest

-- The blocks above `from` at which the run is looked at again, in order.
pub stops : FleetView → UpstreamView → Need → ℕ → ℕ → List ℕ
stops v u need from now = dedup (
    sort_unstable (
      filter (λ b. ltb from b)
        (breakpoints v u now
          ++ (if need.block && u.no_block_log then others_bounds u v.upstreams now else []))))

-- The closure `holder`: another upstream that could take the stream with its blocks at `b`.
pub holder : FleetView → UpstreamView → Need → ℕ → ℕ → UpstreamView → Bool
holder v u need b now w =
    not (w.index == u.index)
    && (not w.no_block_log && (w.online && (not (at_capacity w) && eligible v w need b sticky now)))

-- The loop of `run_end`.
pub run_loop : FleetView → UpstreamView → Need → ℕ → ℕ → List ℕ → ℕ
run_loop v u need now limit [] = limit
run_loop v u need now limit (b ∷ bs) = elim (leb limit b) [
  | true ↦ limit
  | false ↦ elim (eligible v u need b sticky now) [
    | false ↦ b
    | true ↦ elim ((need.block && u.no_block_log) && any (holder v u need b now) v.upstreams) [
      | true ↦ b
      | false ↦ run_loop v u need now limit bs
    ]
  ]
]

-- `cap`: a frozen run does not go past the upstream's own end.
unfoldable pub run_cap : UpstreamView → ℕ
run_cap u = if is_frozen u.role then max_end u else u32_max

unfoldable pub run_end : FleetView → UpstreamView → Need → ℕ → ℕ → ℕ
unfolding run_loop holder run_cap stops dedup sort_unstable others_bounds breakpoints range_bounds
    logs_bounds log_bounds quarantine_bounds first_begin
run_end v u need from now = run_loop v u need now (run_cap u) (stops v u need from now)

-- The loop of `tip_region`, with what it has seen so far.
tip_loop : Bool → ℕ → List UpstreamView → Bool
tip_loop seen from [] = seen
tip_loop seen from (u ∷ us) = elim ((u.enabled && u.known) && covers_ids u from) [
  | false ↦ tip_loop seen from us
  | true ↦ elim (is_frozen u.role) [ true ↦ false | false ↦ tip_loop true from us ]
]

unfoldable pub tip_region : FleetView → ℕ → Bool
unfolding tip_loop
tip_region v from = tip_loop false from v.upstreams
