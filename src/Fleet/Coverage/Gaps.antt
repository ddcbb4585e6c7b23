-- ===== src/Fleet/Coverage/Gaps.antt =====
-- The gaps of a log's coverage, and the part of its top range that only offline upstreams have.
use fleet_router.Prelude.{
  ℕ, suc, ◌<◌, ◌≡◌, refl, Bool, false, not, ◌&&◌, List, [], ◌∷◌, Option, arith, any, leb, ltb,
}
use fleet_router.Ship.{Range, contains}
use fleet_router.Fleet.Coverage.{holds, gaps_between, last_or_empty, coverage, merge}
use fleet_router.Fleet.Coverage.Order.{MergedFrom, MergedFrom-holds}
use fleet_router.Fleet.Coverage.Merge.{merge-holds, merge-IsMerged}
use fleet_router.Fleet.Coverage.Subtract.{subtract-holds}

-- A range begins at or below `n`, or ends above it.
abbrev pub begins_by : ℕ → List Range → Bool
begins_by n = any (λ (r : Range). leb r.begin n)

abbrev pub ends_after : ℕ → List Range → Bool
ends_after n = any (λ (r : Range). ltb n r.end)

begins_by-below : (n lo : ℕ) (rs : List Range) → n < lo → MergedFrom lo rs → begins_by n rs ≡ false
begins_by-below n lo [] h m = refl
begins_by-below n lo (r ∷ rs) h m = ground (arith, begins_by-below n (suc r.end) rs)

gaps_between-holds :
    (n lo : ℕ) (rs : List Range)
    → MergedFrom lo rs
    → holds (gaps_between rs) n ≡ (begins_by n rs && (ends_after n rs && not (holds rs n)))
unfolding gaps_between contains
gaps_between-holds n lo [] m = refl
gaps_between-holds n lo (r ∷ []) m = ground arith
gaps_between-holds n lo (r ∷ s ∷ rs) m = ground (
  arith,
  gaps_between-holds n (suc r.end) (s ∷ rs),
  begins_by-below n (suc r.end) (s ∷ rs),
  begins_by-below n (suc s.end) rs,
  MergedFrom-holds (suc s.end) rs n,
)

-- The gaps of a log's coverage hold exactly the blocks between two of its segments that no segment
-- holds, and `offline_only` exactly the blocks of the top component that no online segment holds.
pub coverage-holds :
    (segs online : List Range) (tail : Option ℕ) (n : ℕ)
    → let c = coverage segs online tail in
      (holds c.gaps n
        ≡ (begins_by n c.components && (ends_after n c.components && not (holds segs n))))
      × (holds c.offline_only n ≡ (contains c.top n && not (holds online n)))
unfolding coverage
coverage-holds segs online tail n = (
  rw⁻¹ (merge-holds segs n) (gaps_between-holds n 0 (merge segs) (merge-IsMerged segs)),
  rw⁻¹ (merge-holds online n)
      (subtract-holds (last_or_empty (merge segs)) (merge online) n (merge-IsMerged online)),
)
