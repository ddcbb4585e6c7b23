-- ===== src/Prelude/Ranking/Laws.antt =====
-- Comparisons by several keys are orders again, and `min_by` finds a least element.
use Prim.Native.Nat.{ℕ, compare, Ordering}
use Prim.Native.Nat.Ordering.{eq, gt}
use mathlib.Core.Path.{◌≡◌, refl}
use mathlib.Core.Logic.{◌≢◌, inl}
use mathlib.Core.List.{List, [], ◌∷◌}
use mathlib.Core.Option.{none, some}
use native.Mathlib.Omega.{arith}
use fleet_router.Prelude.Lists.{In}
use fleet_router.Prelude.Ranking.{then_with, reverse, IsWeakOrder, min_from, min_by}

-- Comparing by a number.
pub key-IsWeakOrder : {A : Type 0} (f : A → ℕ) → IsWeakOrder (λ (a b : A). compare (f a) (f b))
key-IsWeakOrder f = record { swaps = λ a b. ground arith; trans = λ a b c h k. ground arith }

-- Comparing by a number, the greater first.
pub key_down-IsWeakOrder : {A : Type 0} (f : A → ℕ) → IsWeakOrder (λ (a b : A). compare (f b) (f a))
key_down-IsWeakOrder f = record { swaps = λ a b. ground arith; trans = λ a b c h k. ground arith }

module _ {A : Type 0} {cmp : A → A → Ordering} (w : IsWeakOrder cmp) where
  pub IsWeakOrder-refl : (a : A) → cmp a a ≡ eq
  IsWeakOrder-refl a = ground (arith, w.swaps a a)

-- Ties of the first order are broken by the second.
module _ {A : Type 0} (c d : A → A → Ordering) (v : IsWeakOrder c) (w : IsWeakOrder d) where
  then_with-swaps : (x y : A) → then_with (c y x) (d y x) ≡ reverse (then_with (c x y) (d x y))
  then_with-swaps x y = ground (arith, v.swaps x y, w.swaps x y)

  then_with_trans :
      (x y z : A)
      → then_with (c x y) (d x y) ≢ gt
      → then_with (c y z) (d y z) ≢ gt
      → then_with (c x z) (d x z) ≢ gt
  then_with_trans x y z h k = ground (
    arith,
    v.swaps x y,
    v.swaps y z,
    v.swaps x z,
    v.trans x y z,
    v.trans z x y,
    v.trans y z x,
    w.trans x y z,
  )

  pub then_with-IsWeakOrder : IsWeakOrder (λ (x y : A). then_with (c x y) (d x y))
  then_with-IsWeakOrder = record { swaps = then_with-swaps; trans = then_with_trans }

module _ {A : Type 0} (cmp : A → A → Ordering) where
  min_from-In : (best : A) (xs : List A) → In (min_from cmp best xs) (best ∷ xs)
  unfolding min_from
  min_from-In best [] = inl refl
  min_from-In best (x ∷ xs) = ground (arith, min_from-In best xs, min_from-In x xs)

  pub min_by-In : (xs : List A) (m : A) → min_by cmp xs ≡ some m → In m xs
  unfolding min_by
  min_by-In [] m h = cc
  min_by-In (x ∷ xs) m h = ground (arith, min_from-In x xs)

  pub min_by-none : (xs : List A) → min_by cmp xs ≡ none → xs ≡ []
  unfolding min_by
  min_by-none [] h = refl
  min_by-none (x ∷ xs) h = cc

  module _ (w : IsWeakOrder cmp) where
    min_from-best : (best : A) (xs : List A) → cmp (min_from cmp best xs) best ≢ gt
    unfolding min_from
    min_from-best best [] = ground (arith, IsWeakOrder-refl w best)
    min_from-best best (x ∷ xs) = ground (
      arith,
      min_from-best best xs,
      min_from-best x xs,
      w.swaps best x,
      w.trans (min_from cmp x xs) x best,
    )

    min_from-least : (best : A) (xs : List A) (y : A) → In y xs → cmp (min_from cmp best xs) y ≢ gt
    unfolding min_from
    min_from-least best [] y i = elim i [ ]
    min_from-least best (x ∷ xs) y i = ground (
      arith,
      min_from-least best xs y,
      min_from-least x xs y,
      min_from-best best xs,
      min_from-best x xs,
      w.trans (min_from cmp best xs) best x,
    )

    -- No element of the list comes before the one that is found.
    pub min_by-least : (xs : List A) (m y : A) → min_by cmp xs ≡ some m → In y xs → cmp m y ≢ gt
    unfolding min_by
    min_by-least [] m y h i = elim i [ ]
    min_by-least (x ∷ xs) m y h i = ground (arith, min_from-best x xs, min_from-least x xs y)
