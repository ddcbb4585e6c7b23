-- ===== src/Fleet/Coverage/Merge.antt =====
-- `merge` keeps the blocks and leaves the ranges merged.
use fleet_router.Prelude.{ℕ, suc, ◌≤◌, ◌≡◌, refl, ◌∙◌, List, [], ◌∷◌, arith, All, max, ◌||◌}
use fleet_router.Ship.{Range, contains}
use fleet_router.Fleet.Coverage.{holds, merge_from, merge_sorted, merge, non_empty}
use fleet_router.Fleet.Coverage.Order.{
  SortedFrom, SortedFrom-weaken, MergedFrom, IsMerged, NonEmpty, sort-Sorted, sort-All, sort-any,
  nonempty-All, nonempty-holds,
}

merge_from-Merged :
    (lo : ℕ) (last : Range) (rs : List Range)
    → lo ≤ last.begin
    → NonEmpty last
    → SortedFrom last.begin rs
    → All NonEmpty rs
    → MergedFrom lo (merge_from last rs)
unfolding merge_from
merge_from-Merged lo last [] h e s a = (h, e, tt)
merge_from-Merged lo last (r ∷ rs) h e s a = ground (
  arith,
  merge_from-Merged lo (record last { end = max last.end r.end }) rs,
  merge_from-Merged (suc last.end) r rs,
  SortedFrom-weaken {lo = last.begin} {hi = r.begin} rs,
)

merge_from-holds :
    (last : Range) (rs : List Range) (n : ℕ)
    → NonEmpty last
    → SortedFrom last.begin rs
    → All NonEmpty rs
    → holds (merge_from last rs) n ≡ (contains last n || holds rs n)
unfolding merge_from contains
merge_from-holds last [] n e s a = refl
merge_from-holds last (r ∷ rs) n e s a = ground (
  arith,
  merge_from-holds (record last { end = max last.end r.end }) rs n,
  merge_from-holds r rs n,
  SortedFrom-weaken {lo = last.begin} {hi = r.begin} rs,
)

merge_sorted-Merged :
    (rs : List Range) → SortedFrom 0 rs → All NonEmpty rs → IsMerged (merge_sorted rs)
unfolding merge_sorted
merge_sorted-Merged [] s a = tt
merge_sorted-Merged (r ∷ rs) s a = merge_from-Merged 0 r rs s.0 a.0 s.1 a.1

merge_sorted-holds :
    (rs : List Range) (n : ℕ)
    → SortedFrom 0 rs
    → All NonEmpty rs
    → holds (merge_sorted rs) n ≡ holds rs n
unfolding merge_sorted
merge_sorted-holds [] n s a = refl
merge_sorted-holds (r ∷ rs) n s a = merge_from-holds r rs n a.0 s.1 a.1

-- The result is sorted, and its ranges are disjoint, not touching and not empty.
pub merge-IsMerged : (segs : List Range) → IsMerged (merge segs)
unfolding merge
merge-IsMerged segs =
    merge_sorted-Merged _ (sort-Sorted (non_empty segs))
      (sort-All NonEmpty (non_empty segs) (nonempty-All segs))

-- The merged ranges hold exactly the blocks that the given ranges hold.
pub merge-holds : (segs : List Range) (n : ℕ) → holds (merge segs) n ≡ holds segs n
unfolding merge
merge-holds segs n =
    merge_sorted-holds _ n (sort-Sorted (non_empty segs))
      (sort-All NonEmpty (non_empty segs) (nonempty-All segs))
    ∙ sort-any (λ r. contains r n) (non_empty segs)
    ∙ nonempty-holds segs n
