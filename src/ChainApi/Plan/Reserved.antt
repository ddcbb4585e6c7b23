-- ===== src/ChainApi/Plan/Reserved.antt =====
-- The attempts of a block request that are kept for a live node and for an id holder.
use fleet_router.Prelude.{
  ℕ, ◌≤◌, max, ◌≡◌, refl, sym, ap, ◌∙◌, subst, true, ◌&&◌, List, some, arith, ==_iff, ◌==◌,
  is_some_and, any, any-true, any_of_In, In, filter-In, In-map_of_In,
}
use fleet_router.Models.{is_live}
use fleet_router.ChainApi.View.{ApiView, holds_id}
use fleet_router.ChainApi.Plan.{
  Region, irreversible, reversible, BlockQuery, Hint, RoutedPlan, routed, indices, id_holders,
  is_claimed, irreversible_views, fleet_lib, region, routed_in, plan_block,
}
use fleet_router.ChainApi.Plan.Members.{IsArchive, In-f}
use fleet_router.ChainApi.Plan.Kept.{irreversible_views-holder}
use fleet_router.ChainApi.Plan.Candidates.{irreversible-In, plan-routed}

-- A live API among the attempts, and an archive that refuses a wrong id.
abbrev pub HasLive : List ApiView → RoutedPlan → Type 0
HasLive apis p = (b : ApiView) × In b apis × (is_live b.role ≡ true) × In b.index p.order

abbrev pub HasHolder : List ApiView → RoutedPlan → Type 0
HasHolder apis p =
    (b : ApiView) × In b apis
    × (holds_id b p.n ≡ true)
    × In b.index p.order
    × In b.index p.id_holders

routed_region :
    (r : Region) (hint : Hint) (q : BlockQuery) (apis : List ApiView) (cap : ℕ)
    → (routed_in r hint q apis cap).region ≡ r
unfolding routed_in
routed_region reversible hint q apis cap = refl
routed_region irreversible hint q apis cap = refl

module _ (hint : Hint) (q : BlockQuery) (apis : List ApiView) (cap : ℕ) (positive : 1 ≤ cap)
    (a : ApiView) (i : In a apis) where
  abbrev planned : RoutedPlan
  planned = routed_in irreversible hint q apis cap

  routed_in-holder :
      hint.by_id ≡ true
      → is_some_and (λ (h : Hint). h.by_id) q.hint ≡ true
      → holds_id a planned.n ≡ true
      → IsArchive q.endpoint planned.n a
      → HasHolder apis planned
  unfolding routed_in id_holders
  routed_in-holder id asked h c =
      let claimed = is_claimed hint.num q.endpoint apis in
      let views = irreversible_views hint.num q claimed apis cap in
      let (b, j, e) =
        any-true (λ a. holds_id a hint.num) views
          (irreversible_views-holder hint.num q claimed apis cap positive a asked
            (In-f hint.num q.endpoint claimed apis a i c) h) in
      let known = (irreversible-In hint.num q claimed apis cap b j).0 in
      let ordered = In-map_of_In (λ (a : ApiView). a.index) views b j in
      let chosen : any (λ k. k == b.index) (indices views) ≡ true =
        any_of_In (λ k. k == b.index) (indices views) b.index ordered
          ((==_iff b.index b.index).1 refl) in
      (
        b,
        known,
        e,
        ordered,
        rw id (
            In-map_of_In (λ (a : ApiView). a.index) _ b
              (filter-In (λ a. holds_id a hint.num && any (λ k. k == a.index) (indices views)) apis
                b known (ground (arith, e, chosen)))),
      )

module _ (q : BlockQuery) (apis : List ApiView) (hint : Hint) (p : RoutedPlan)
    (asked : q.hint ≡ some hint) (plan : plan_block q apis ≡ routed p)
    (final : p.region ≡ irreversible) where
  planned_as : p ≡ routed_in irreversible hint q apis (max q.max_attempts 1)
  planned_as =
      let e = plan-routed q apis hint p asked plan in
      e
      ∙ ap (λ r. routed_in r hint q apis (max q.max_attempts 1))
          (sym (
              routed_region (region hint.num (fleet_lib q.ship_lib apis) apis) hint q apis
                (max q.max_attempts 1))
            ∙ sym (ap (λ (p : RoutedPlan). p.region) e)
            ∙ final)

  -- For an irreversible block that is asked for by id: if an archive that holds the block below its
  -- declared end may be asked, one is among the attempts, and the plan counts it among its id
  -- holders.
  pub plan_block-keeps_holder :
      (a : ApiView)
      → In a apis
      → hint.by_id ≡ true
      → holds_id a p.n ≡ true
      → IsArchive q.endpoint p.n a
      → HasHolder apis p
  plan_block-keeps_holder a i id h c =
      let same = planned_as in
      subst (HasHolder apis) (sym same) (
        routed_in-holder hint q apis (max q.max_attempts 1) (omega arith) a i id
          (ground (arith, asked, id)) (subst (λ (p : RoutedPlan). holds_id a p.n ≡ true) same h)
          (subst (λ (p : RoutedPlan). IsArchive q.endpoint p.n a) same c))
