-- ===== src/Fleet/Coverage/Subtract.antt =====
-- What `subtract` and `uncovered` leave.
use fleet_router.Prelude.{
  ℕ, suc, ◌<◌, ◌≡◌, refl, not, List, [], ◌∷◌, arith, ◌&&◌, any-append, leb, ltb,
}
use fleet_router.Ship.{Range, contains}
use fleet_router.Fleet.Coverage.{holds, merge, subtract_from, subtract, subtract_each, uncovered}
use fleet_router.Fleet.Coverage.Order.{MergedFrom, IsMerged, MergedFrom-holds}
use fleet_router.Fleet.Coverage.Merge.{merge-holds, merge-IsMerged}

subtract_from-holds :
    (end cursor lo : ℕ) (cs : List Range) (n : ℕ)
    → MergedFrom lo cs
    → cursor < end
    → holds (subtract_from end cursor cs) n ≡ ((leb cursor n && ltb n end) && not (holds cs n))
unfolding subtract_from contains
subtract_from-holds end cursor lo [] n m h = ground arith
subtract_from-holds end cursor lo (c ∷ cs) n m h = ground (
  arith,
  subtract_from-holds end cursor (suc c.end) cs n,
  subtract_from-holds end c.end (suc c.end) cs n,
  MergedFrom-holds (suc c.end) cs n,
)

-- The blocks of `top` that no range of `covered` holds.
pub subtract-holds :
    (top : Range) (covered : List Range) (n : ℕ)
    → IsMerged covered
    → holds (subtract top covered) n ≡ (contains top n && not (holds covered n))
unfolding subtract contains
subtract-holds top covered n m = ground (arith, subtract_from-holds top.end top.begin 0 covered n)

subtract_each-holds :
    (rs covered : List Range) (n : ℕ)
    → IsMerged covered
    → holds (subtract_each rs covered) n ≡ (holds rs n && not (holds covered n))
unfolding subtract_each
subtract_each-holds [] covered n m = refl
subtract_each-holds (r ∷ rs) covered n m = ground (
  arith,
  any-append (λ r. contains r n) (subtract r covered) (subtract_each rs covered),
  subtract-holds r covered n m,
  subtract_each-holds rs covered n m,
)

-- `uncovered` gives ranges that hold exactly the blocks of `ranges` that no range of `covered`
-- holds, in whatever order and with whatever overlaps the two lists are given.
pub uncovered-holds :
    (ranges covered : List Range) (n : ℕ)
    → holds (uncovered ranges covered) n ≡ (holds ranges n && not (holds covered n))
unfolding uncovered
uncovered-holds ranges covered n = ground (
  arith,
  subtract_each-holds (merge ranges) (merge covered) n (merge-IsMerged covered),
  merge-holds ranges n,
  merge-holds covered n,
)
