-- ===== src/Fleet/Segments.antt =====
-- src/fleet/view.rs, `FleetView::segments`: a log split where the set of covering upstreams changes.
pub mod Laws
use fleet_router.Prelude.{
  ℕ, suc, Bool, true, false, not, ◌&&◌, List, [], ◌∷◌, ◌++◌, Option, none, some, leb, ltb, ◌==◌,
  if◌then◌else◌, filter, map, is_nil, text_eq,
}
use fleet_router.Ship.{BlockPos, Range}
use fleet_router.Fleet.Upstream.{Log, UpstreamView, log_segment}
use fleet_router.Fleet.View.{FleetView}
use fleet_router.Fleet.Run.{sort_unstable, dedup}

-- `upstreams` are positions in the view.
pub record CoverageSegment : Type 0 where
  pub range : Range
  pub upstreams : List ℕ

-- The enabled known upstreams that have the log, with their positions from `pos` on.
pub parts : ℕ → List UpstreamView → Log → Option BlockPos → List (ℕ × Range)
parts pos [] log head = []
parts pos (u ∷ us) log head =
    let rest = parts (suc pos) us log head in
    if u.enabled && u.known
    then elim (log_segment u log head) [ none ↦ rest | some r ↦ (pos, r) ∷ rest ]
    else rest

pub part_bounds : List (ℕ × Range) → List ℕ
part_bounds [] = []
part_bounds ((pos, r) ∷ ps) = r.begin ∷ r.end ∷ part_bounds ps

-- The upstreams that cover the window from `b` to `c`.
pub members : List (ℕ × Range) → ℕ → ℕ → List ℕ
members ps b c =
    map (λ (p : ℕ × Range). p.0) (filter (λ (p : ℕ × Range). leb p.1.begin b && leb c p.1.end) ps)

-- The last segment grows if the next one touches it and has the same upstreams.
pub push_segment : List CoverageSegment → CoverageSegment → List CoverageSegment
push_segment [] s = s ∷ []
push_segment (x ∷ []) s =
    if (x.range.end == s.range.begin) && text_eq x.upstreams s.upstreams
    then record x { range = record { begin = x.range.begin; end = s.range.end } } ∷ []
    else x ∷ s ∷ []
push_segment (x ∷ y ∷ ys) s = x ∷ push_segment (y ∷ ys) s

pub add_window : List (ℕ × Range) → List CoverageSegment → ℕ → ℕ → List CoverageSegment
unfolding members push_segment
add_window ps out b c =
    let found = members ps b c in
    if is_nil found
    then out
    else push_segment out (record { range = record { begin = b; end = c }; upstreams = found })

-- The loop over `bounds.windows(2)`.
pub windows : List (ℕ × Range) → List CoverageSegment → List ℕ → List CoverageSegment
unfolding add_window
windows ps out [] = out
windows ps out (b ∷ []) = out
windows ps out (b ∷ c ∷ cs) = windows ps (add_window ps out b c) (c ∷ cs)

unfoldable pub segments : FleetView → Log → List CoverageSegment
unfolding windows parts part_bounds sort_unstable dedup
segments v log =
    let ps = parts 0 v.upstreams log v.head in
    windows ps [] (dedup (sort_unstable (part_bounds ps)))
