-- ===== src/Prelude/Ranking.antt =====
-- `std::cmp::Ordering`, comparisons by several keys, and `min_by` / `max_by`.
pub mod Laws
use Prim.Native.Nat.{ℕ, ◌+◌, ◌*◌, ◌≤◌, ◌<◌, compare, Ordering}
use Prim.Native.Nat.Ordering.{lt, eq, gt}
use mathlib.Core.Path.{◌≡◌, refl, sym, ◌∙◌}
use mathlib.Core.Logic.{◌≢◌, ◌⊎◌, inl, inr}
use mathlib.Core.Bool.{Bool, true, false}
use mathlib.Core.List.{List, [], ◌∷◌}
use mathlib.Core.Option.{Option, none, some}
use native.Mathlib.Omega.{arith}

-- `Ordering::then_with`.
abbrev pub then_with : Ordering → Ordering → Ordering
then_with lt o = lt
then_with eq o = o
then_with gt o = gt

abbrev pub reverse : Ordering → Ordering
reverse lt = gt
reverse eq = eq
reverse gt = lt

-- `cmp` is a total preorder.
pub record IsWeakOrder {A : Type 0} (cmp : A → A → Ordering) : Type 0 where
  pub swaps : (a b : A) → cmp b a ≡ reverse (cmp a b)
  pub trans : (a b c : A) → cmp a b ≢ gt → cmp b c ≢ gt → cmp a c ≢ gt

module _ {A : Type 0} (cmp : A → A → Ordering) where
  -- The loop of `Iterator::min_by`: the first of the least.
  pub min_from : A → List A → A
  min_from best [] = best
  min_from best (x ∷ xs) = min_from (elim (cmp best x) [ gt ↦ x | _ ↦ best ]) xs

  unfoldable pub min_by : List A → Option A
  unfolding min_from
  min_by [] = none
  min_by (x ∷ xs) = some (min_from x xs)

  -- `Iterator::max_by`: the last of the greatest.
  max_from : A → List A → A
  max_from best [] = best
  max_from best (x ∷ xs) = max_from (elim (cmp best x) [ gt ↦ best | _ ↦ x ]) xs

  unfoldable pub max_by : List A → Option A
  unfolding max_from
  max_by [] = none
  max_by (x ∷ xs) = some (max_from x xs)
