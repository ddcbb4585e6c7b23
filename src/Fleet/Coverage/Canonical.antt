-- ===== src/Fleet/Coverage/Canonical.antt =====
-- Merged ranges are the one representation of a set of blocks.
use fleet_router.Prelude.{ℕ, suc, ◌≤◌, ◌≡◌, refl, sym, ◌∙◌, true, List, [], ◌∷◌, arith}
use fleet_router.Ship.{Range, contains}
use fleet_router.Fleet.Coverage.{holds, merge}
use fleet_router.Fleet.Coverage.Order.{MergedFrom, IsMerged, MergedFrom-holds}
use fleet_router.Fleet.Coverage.Merge.{merge-holds, merge-IsMerged}

abbrev pub SameBlocks : List Range → List Range → Type 0
SameBlocks xs ys = (n : ℕ) → holds xs n ≡ holds ys n

holds-head :
    (lo : ℕ) (r : Range) (rs : List Range) → MergedFrom lo (r ∷ rs) → holds (r ∷ rs) r.begin ≡ true
unfolding contains
holds-head lo r rs m = ground arith

-- The first block of one list is not below the first of the other.
begin-le :
    (a b : ℕ) (x y : Range) (xs ys : List Range)
    → MergedFrom a (x ∷ xs)
    → MergedFrom b (y ∷ ys)
    → SameBlocks (x ∷ xs) (y ∷ ys)
    → y.begin ≤ x.begin
begin-le a b x y xs ys m k same =
    ground (arith, holds-head a x xs m, same x.begin, MergedFrom-holds y.begin (y ∷ ys) x.begin)

end-le :
    (a b : ℕ) (x y : Range) (xs ys : List Range)
    → MergedFrom a (x ∷ xs)
    → MergedFrom b (y ∷ ys)
    → x.begin ≡ y.begin
    → SameBlocks (x ∷ xs) (y ∷ ys)
    → y.end ≤ x.end
unfolding contains
end-le a b x y xs ys m k e same = ground (arith, same x.end, MergedFrom-holds (suc x.end) xs x.end)

tail-SameBlocks :
    (a b : ℕ) (x y : Range) (xs ys : List Range)
    → MergedFrom a (x ∷ xs)
    → MergedFrom b (y ∷ ys)
    → x.begin ≡ y.begin
    → x.end ≡ y.end
    → SameBlocks (x ∷ xs) (y ∷ ys)
    → SameBlocks xs ys
unfolding contains
tail-SameBlocks a b x y xs ys m k e f same n =
    ground (arith, same n, MergedFrom-holds (suc x.end) xs n, MergedFrom-holds (suc y.end) ys n)

-- Two merged lists that hold the same blocks are equal.
pub MergedFrom-unique :
    (a b : ℕ) (xs ys : List Range) → MergedFrom a xs → MergedFrom b ys → SameBlocks xs ys → xs ≡ ys
MergedFrom-unique a b [] [] m k same = refl
MergedFrom-unique a b [] (y ∷ ys) m k same = ground (arith, same y.begin, holds-head b y ys k)
MergedFrom-unique a b (x ∷ xs) [] m k same = ground (arith, same x.begin, holds-head a x xs m)
MergedFrom-unique a b (x ∷ xs) (y ∷ ys) m k same =
    let e : x.begin ≡ y.begin =
      omega
        (arith, begin-le a b x y xs ys m k same, begin-le b a y x ys xs k m (λ n. sym (same n))) in
    let f : x.end ≡ y.end = omega (
      arith,
      end-le a b x y xs ys m k e same,
      end-le b a y x ys xs k m (sym e) (λ n. sym (same n)),
    ) in
    let g : xs ≡ ys =
      MergedFrom-unique (suc x.end) (suc y.end) xs ys m.2 k.2
        (tail-SameBlocks a b x y xs ys m k e f same) in
    ground arith

-- `merge` computes the same list for any two ways to write down the same blocks.
pub merge-canonical : (xs ys : List Range) → SameBlocks xs ys → merge xs ≡ merge ys
merge-canonical xs ys same =
    MergedFrom-unique 0 0 (merge xs) (merge ys) (merge-IsMerged xs) (merge-IsMerged ys)
      (λ n. merge-holds xs n ∙ same n ∙ sym (merge-holds ys n))

-- A list that is merged already is left as it is.
pub merge-IsMerged_id : (xs : List Range) → IsMerged xs → merge xs ≡ xs
merge-IsMerged_id xs m = MergedFrom-unique 0 0 (merge xs) xs (merge-IsMerged xs) m (merge-holds xs)
