-- ===== src/Fleet/Eligible/Preference.antt =====
-- The operator's preference is a total preorder: loads per unit of weight are compared by cross
-- products, and still in a transitive way.
use native.Mathlib.Nat.{mul-le-mul_right, le_of_mul-le-mul_right}
use fleet_router.Prelude.{ℕ, ◌*◌, ◌≤◌, ◌<◌, max, ◌≢◌, arith, compare, Ordering}
use fleet_router.Prelude.Ranking.{IsWeakOrder}
use fleet_router.Prelude.Ranking.Laws.{key-IsWeakOrder, key_down-IsWeakOrder, then_with-IsWeakOrder}
use fleet_router.Fleet.Upstream.{UpstreamView}
use fleet_router.Fleet.Eligible.{preference}

-- Fractions with positive denominators.
load_trans : (a b c x y z : ℕ) → 0 < y → a * y ≤ b * x → b * z ≤ c * y → a * z ≤ c * x
load_trans a b c x y z h p q =
    le_of_mul-le-mul_right {m = a * z} {n = c * x} {k = y}
      (omega (arith, mul-le-mul_right z p, mul-le-mul_right x q)) h

module _ {A : Type 0} (up : A → UpstreamView) (conns : A → ℕ) where
  abbrev share : A → ℕ
  share a = max (up a).weight 1

  abbrev load_cmp : A → A → Ordering
  load_cmp a b = compare (conns a * share b) (conns b * share a)

  load_cmp_trans :
      (a b c : A)
      → load_cmp a b ≢ Ordering.gt
      → load_cmp b c ≢ Ordering.gt
      → load_cmp a c ≢ Ordering.gt
  load_cmp_trans a b c h k =
      ground (arith, load_trans (conns a) (conns b) (conns c) (share a) (share b) (share c))

  load-IsWeakOrder : IsWeakOrder load_cmp
  load-IsWeakOrder = record { swaps = λ a b. ground arith; trans = load_cmp_trans }

  -- However the upstreams and their counted connections are given, comparing by preference is a
  -- total preorder.
  pub preference-IsWeakOrder :
      IsWeakOrder (λ (a b : A). preference (up a) (conns a) (up b) (conns b))
  unfolding preference
  preference-IsWeakOrder =
      then_with-IsWeakOrder _ _
        (then_with-IsWeakOrder _ _ (key-IsWeakOrder (λ a. (up a).priority)) load-IsWeakOrder)
        (key_down-IsWeakOrder share)
