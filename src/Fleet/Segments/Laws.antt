-- ===== src/Fleet/Segments/Laws.antt =====
-- The segments of a log say of each block which upstreams cover it.
use fleet_router.Prelude.{ℕ, ◌≤◌, List, [], ◌∷◌, if◌then◌else◌, filter, map}
use fleet_router.Ship.{Range, contains}
use fleet_router.Fleet.Run.Ends.{Ascending}
use fleet_router.Fleet.Segments.{CoverageSegment}

-- The upstreams of the segment that `n` lies in.
abbrev pub members_at : List CoverageSegment → ℕ → List ℕ
members_at [] n = []
members_at (s ∷ ss) n = if contains s.range n then s.upstreams else members_at ss n

-- The positions of the parts that contain `n`.
pub covering : List (ℕ × Range) → ℕ → List ℕ
covering ps n = map (λ (p : ℕ × Range). p.0) (filter (λ (p : ℕ × Range). contains p.1 n) ps)

-- Segments that end by `b`.
abbrev EndBy : ℕ → List CoverageSegment → Type 0
EndBy b [] = Unit {0}
EndBy b (s ∷ ss) = (s.range.begin ≤ s.range.end) × (s.range.end ≤ b) × EndBy b ss

-- No number, or the others ascend from the first.
abbrev Chain : List ℕ → Type 0
Chain [] = Unit {0}
Chain (b ∷ bs) = Ascending b bs
