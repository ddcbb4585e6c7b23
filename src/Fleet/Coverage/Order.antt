-- ===== src/Fleet/Coverage/Order.antt =====
-- Lists of ranges in order: sorted by begin, and merged (disjoint and not touching).
use fleet_router.Prelude.{
  ℕ, suc, ◌≤◌, ◌<◌, ◌≡◌, refl, Bool, false, not, List, [], ◌∷◌, arith, filter, All, any, ◌||◌,
}
use fleet_router.Ship.{Range, is_empty, contains}
use fleet_router.Fleet.Coverage.{holds, insert_by_key, sort_by_key}

-- Begins ascend from `lo`.
abbrev pub SortedFrom : ℕ → List Range → Type 0
SortedFrom lo [] = Unit {0}
SortedFrom lo (r ∷ rs) = (lo ≤ r.begin) × SortedFrom r.begin rs

-- No range is empty, and each begins above the end of the one before.
abbrev pub MergedFrom : ℕ → List Range → Type 0
MergedFrom lo [] = Unit {0}
MergedFrom lo (r ∷ rs) = (lo ≤ r.begin) × (r.begin < r.end) × MergedFrom (suc r.end) rs

abbrev pub IsMerged : List Range → Type 0
IsMerged = MergedFrom 0

abbrev pub NonEmpty : Range → Type 0
NonEmpty r = r.begin < r.end

pub SortedFrom-weaken :
    {lo hi : ℕ} (rs : List Range) → lo ≤ hi → SortedFrom hi rs → SortedFrom lo rs
SortedFrom-weaken [] h s = tt
SortedFrom-weaken (r ∷ rs) h s = (omega arith, s.1)

pub MergedFrom-weaken :
    {lo hi : ℕ} (rs : List Range) → lo ≤ hi → MergedFrom hi rs → MergedFrom lo rs
MergedFrom-weaken [] h m = tt
MergedFrom-weaken (r ∷ rs) h m = (omega arith, m.1, m.2)

insert-Sorted :
    (lo : ℕ) (r : Range) (rs : List Range)
    → lo ≤ r.begin
    → SortedFrom lo rs
    → SortedFrom lo (insert_by_key r rs)
unfolding insert_by_key
insert-Sorted lo r [] h s = (h, tt)
insert-Sorted lo r (x ∷ xs) h s = ground (arith, insert-Sorted x.begin r xs)

pub sort-Sorted : (rs : List Range) → SortedFrom 0 (sort_by_key rs)
unfolding sort_by_key
sort-Sorted [] = tt
sort-Sorted (r ∷ rs) = insert-Sorted 0 r (sort_by_key rs) (omega arith) (sort-Sorted rs)

insert-All :
    (P : Range → Type 0) (r : Range) (rs : List Range) → P r → All P rs → All P (insert_by_key r rs)
unfolding insert_by_key
insert-All P r [] h a = (h, tt)
insert-All P r (x ∷ xs) h a = ground (arith, insert-All P r xs h a.1)

pub sort-All : (P : Range → Type 0) (rs : List Range) → All P rs → All P (sort_by_key rs)
unfolding sort_by_key
sort-All P [] a = tt
sort-All P (r ∷ rs) a = insert-All P r (sort_by_key rs) a.0 (sort-All P rs a.1)

insert-any :
    (p : Range → Bool) (r : Range) (rs : List Range)
    → any p (insert_by_key r rs) ≡ (p r || any p rs)
unfolding insert_by_key
insert-any p r [] = refl
insert-any p r (x ∷ xs) = ground (arith, insert-any p r xs)

pub sort-any : (p : Range → Bool) (rs : List Range) → any p (sort_by_key rs) ≡ any p rs
unfolding sort_by_key
sort-any p [] = refl
sort-any p (r ∷ rs) = ground (arith, insert-any p r (sort_by_key rs), sort-any p rs)

pub nonempty-All : (rs : List Range) → All NonEmpty (filter (λ r. not (is_empty r)) rs)
unfolding is_empty
nonempty-All [] = tt
nonempty-All (r ∷ rs) = ground (arith, nonempty-All rs)

-- Dropping empty ranges drops no block.
pub nonempty-holds :
    (rs : List Range) (n : ℕ) → holds (filter (λ r. not (is_empty r)) rs) n ≡ holds rs n
unfolding is_empty contains
nonempty-holds [] n = refl
nonempty-holds (r ∷ rs) n = ground (arith, nonempty-holds rs n)

-- A merged list holds no block below its lower bound.
pub MergedFrom-holds :
    (lo : ℕ) (rs : List Range) (n : ℕ) → MergedFrom lo rs → n < lo → holds rs n ≡ false
unfolding contains
MergedFrom-holds lo [] n m h = refl
MergedFrom-holds lo (r ∷ rs) n m h = ground (arith, MergedFrom-holds (suc r.end) rs n)
