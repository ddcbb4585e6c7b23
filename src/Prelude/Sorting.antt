-- ===== src/Prelude/Sorting.antt =====
-- `slice::sort_by`, which is stable: as an insertion sort.
use Prim.Native.Nat.{Ordering}
use Prim.Native.Nat.Ordering.{lt, eq, gt}
use mathlib.Core.Path.{◌≡◌}
use mathlib.Core.Logic.{◌⊎◌, ◌↔◌, inl, inr}
use mathlib.Core.List.{List, [], ◌∷◌}
use fleet_router.Prelude.Lists.{In}

module _ {A : Type 0} (cmp : A → A → Ordering) where
  -- `x` goes before all that it is not above.
  insert_by : A → List A → List A
  insert_by x [] = x ∷ []
  insert_by x (y ∷ ys) = elim (cmp x y) [ gt ↦ y ∷ insert_by x ys | _ ↦ x ∷ y ∷ ys ]

  unfoldable pub sort_by : List A → List A
  unfolding insert_by
  sort_by [] = []
  sort_by (x ∷ xs) = insert_by x (sort_by xs)

  insert-In : (x : A) (ys : List A) (z : A) → In z (insert_by x ys) ↔ ((z ≡ x) ⊎ In z ys)
  unfolding insert_by
  insert-In x [] z = (λ i. i, λ i. i)
  insert-In x (y ∷ ys) z = by (insert-In x ys z) (cmp x y)
    where
      by :
          (rest : In z (insert_by x ys) ↔ ((z ≡ x) ⊎ In z ys)) (o : Ordering)
          → In z (elim o [ gt ↦ y ∷ insert_by x ys | _ ↦ x ∷ y ∷ ys ]) ↔ ((z ≡ x) ⊎ In z (y ∷ ys))
      by rest lt = (λ i. i, λ i. i)
      by rest eq = (λ i. i, λ i. i)
      by rest gt = (
        λ i. elim i [
          | inl e ↦ inr (inl e)
          | inr j ↦ elim (rest.0 j) [ inl e ↦ inl e | inr k ↦ inr (inr k) ]
        ],
        λ i. elim i [
          | inl e ↦ inr (rest.1 (inl e))
          | inr (inl e) ↦ inl e
          | inr (inr k) ↦ inr (rest.1 (inr k))
        ],
      )

  -- Sorting keeps the members.
  pub In-sort_by : (xs : List A) (z : A) → In z (sort_by xs) ↔ In z xs
  unfolding sort_by
  In-sort_by [] z = (λ i. i, λ i. i)
  In-sort_by (x ∷ xs) z = (
    λ i. elim ((insert-In x (sort_by xs) z).0 i) [
      | inl e ↦ inl e
      | inr j ↦ inr ((In-sort_by xs z).0 j)
    ],
    λ i. elim i [
      | inl e ↦ (insert-In x (sort_by xs) z).1 (inl e)
      | inr j ↦ (insert-In x (sort_by xs) z).1 (inr ((In-sort_by xs z).1 j))
    ],
  )
