-- ===== src/ChainApi/Plan/Candidates.antt =====
-- Which APIs a block request is sent to.
use fleet_router.Prelude.{
  ℕ, ◌≤◌, max, ◌≡◌, refl, sym, ap, subst, ◌⊎◌, inl, inr, Bool, true, not, ◌&&◌, List, [], ◌∷◌, ◌++◌,
  some, arith, is_some_and, length, take, length-take, In, suc, In-append, In-filter, In-map,
}
use fleet_router.Prelude.Sorting.{sort_by, In-sort_by}
use fleet_router.Models.{is_live}
use fleet_router.ChainApi.Route.{BlockEndpoint, endpoint_path}
use fleet_router.ChainApi.View.{ApiView, usable}
use fleet_router.ChainApi.Plan.{
  Region, irreversible, reversible, BlockQuery, Hint, RoutedPlan, routed, indices, is_claimed,
  live_where, reached_by, reversible_views, irreversible_views, ahead_cmp, behind_cmp, fleet_lib,
  region, routed_in, plan_block, tiers_of, tier_list, is_get_block, keep_live, Tiers,
}
use fleet_router.ChainApi.Plan.Members.{
  IsLiveCandidate, IsArchive, rest_of, rest-In, f-In, take-In, keep_live-In, keep_holder-In,
  length-keep_holder, tier_list-In,
}
use fleet_router.ChainApi.Plan.Kept.{length-keep_live}

-- An API that may be asked for block `n`.
abbrev pub IsCandidate : Region → BlockEndpoint → ℕ → Bool → ApiView → Type 0
IsCandidate reversible endpoint n claimed a =
    (is_live a.role ≡ true) × (usable a (endpoint_path endpoint) ≡ true)
IsCandidate irreversible endpoint n claimed a =
    IsLiveCandidate (endpoint_path endpoint) n claimed a ⊎ IsArchive endpoint n a

live_where-In :
    (path : List ℕ) (p : ApiView → Bool) (apis : List ApiView) (a : ApiView)
    → In a (live_where path p apis)
    → In a apis × (is_live a.role ≡ true) × (usable a path ≡ true)
unfolding live_where
live_where-In path p apis a i =
    let (j, e) = In-filter (λ a. is_live a.role && usable a path && p a) apis a i in
    (j, ground (arith, e), ground (arith, e))

reversible-In :
    (n : ℕ) (path : List ℕ) (apis : List ApiView) (cap : ℕ) (a : ApiView)
    → In a (reversible_views n path apis cap)
    → In a apis × (is_live a.role ≡ true) × (usable a path ≡ true)
unfolding reversible_views
reversible-In n path apis cap a i =
    elim (In-append (sort_by ahead_cmp (live_where path (reached_by n) apis))
      (sort_by behind_cmp (live_where path (λ a. not (reached_by n a)) apis)) a
      (take-In cap _ a i)) [
        | inl j ↦
            live_where-In path (reached_by n) apis a
              ((In-sort_by ahead_cmp (live_where path (reached_by n) apis) a).0 j)
        | inr j ↦
            live_where-In path (λ a. not (reached_by n a)) apis a
              ((In-sort_by behind_cmp (live_where path (λ a. not (reached_by n a)) apis) a).0 j)
      ]

pub irreversible-In :
    (n : ℕ) (q : BlockQuery) (claimed : Bool) (apis : List ApiView) (cap : ℕ) (a : ApiView)
    → In a (irreversible_views n q claimed apis cap)
    → In a apis × IsCandidate irreversible q.endpoint n claimed a
unfolding irreversible_views
irreversible-In n q claimed apis cap a i =
    let t : Tiers = tiers_of n q.endpoint claimed apis in
    let listed = tier_list (is_get_block q.endpoint) q.block_source t in
    elim (keep_holder-In cap n t _ (is_some_and (λ (h : Hint). h.by_id) q.hint) a i) [
      | inl f ↦ from_f f
      | inr j ↦ elim (keep_live-In cap n t _ a j) [
        | inl r ↦ from_rest r
        | inr k ↦
            elim (tier_list-In (is_get_block q.endpoint) q.block_source t a
              (take-In cap listed a k)) [ inl f ↦ from_f f | inr r ↦ from_rest r ]
      ]
    ]
  where
    from_rest :
        In a (rest_of (tiers_of n q.endpoint claimed apis))
        → In a apis × IsCandidate irreversible q.endpoint n claimed a
    from_rest j = let (k, c) = rest-In n q.endpoint claimed apis a j in (k, inl c)

    from_f :
        In a (tiers_of n q.endpoint claimed apis).f
        → In a apis × IsCandidate irreversible q.endpoint n claimed a
    from_f j = let (k, c) = f-In n q.endpoint claimed apis a j in (k, inr c)

pub plan-routed :
    (q : BlockQuery) (apis : List ApiView) (hint : Hint) (p : RoutedPlan)
    → q.hint ≡ some hint
    → plan_block q apis ≡ routed p
    → p
      ≡ routed_in
          (region hint.num (fleet_lib q.ship_lib apis) apis)
          hint
          q
          apis
          (max q.max_attempts 1)
unfolding plan_block
plan-routed q apis hint p e plan = ground (arith, e, plan)

irreversible_length :
    (n : ℕ) (q : BlockQuery) (claimed : Bool) (apis : List ApiView) (cap : ℕ)
    → length (irreversible_views n q claimed apis cap) ≤ cap
unfolding irreversible_views
irreversible_length n q claimed apis cap =
    let t : Tiers = tiers_of n q.endpoint claimed apis in
    let listed = tier_list (is_get_block q.endpoint) q.block_source t in
    omega (
      arith,
      length-take cap listed,
      length-keep_live cap t (take cap listed)
          (λ a i. (rest-In n q.endpoint claimed apis a i).1.is_node),
      length-keep_holder cap n t (keep_live cap t (take cap listed))
          (is_some_and (λ (h : Hint). h.by_id) q.hint),
    )

reversible_length :
    (n : ℕ) (path : List ℕ) (apis : List ApiView) (cap : ℕ)
    → length (reversible_views n path apis cap) ≤ cap
unfolding reversible_views
reversible_length n path apis cap = omega (
  arith,
  length-take cap (
      sort_by ahead_cmp (live_where path (reached_by n) apis)
      ++ sort_by behind_cmp (live_where path (λ a. not (reached_by n a)) apis)),
)

map_length : (views : List ApiView) → length (indices views) ≡ length views
map_length [] = refl
map_length (a ∷ views) = ap suc (map_length views)

-- What a plan may name: APIs that may be asked, at most `cap`.
abbrev pub IsSafePlan : BlockEndpoint → List ApiView → ℕ → RoutedPlan → Type 0
IsSafePlan endpoint apis cap p =
    (length p.order ≤ cap)
    × ((i : ℕ)
        → In i p.order
        → (a : ApiView) × In a apis × (a.index ≡ i) × IsCandidate p.region endpoint p.n p.claimed a)

routed_in-IsSafePlan :
    (r : Region) (hint : Hint) (q : BlockQuery) (apis : List ApiView) (cap : ℕ)
    → IsSafePlan q.endpoint apis cap (routed_in r hint q apis cap)
unfolding routed_in
routed_in-IsSafePlan reversible hint q apis cap =
    let views = reversible_views hint.num (endpoint_path q.endpoint) apis cap in
    (
      omega
          (arith, map_length views, reversible_length hint.num (endpoint_path q.endpoint) apis cap),
      λ i j.
          let (a, k, e) = In-map (λ (a : ApiView). a.index) views i j in
          let (m, l, u) = reversible-In hint.num (endpoint_path q.endpoint) apis cap a k in
          (a, m, sym e, (l, u)),
    )
routed_in-IsSafePlan irreversible hint q apis cap =
    let claimed = is_claimed hint.num q.endpoint apis in
    let views = irreversible_views hint.num q claimed apis cap in
    (
      omega (arith, map_length views, irreversible_length hint.num q claimed apis cap),
      λ i j.
          let (a, k, e) = In-map (λ (a : ApiView). a.index) views i j in
          let (m, c) = irreversible-In hint.num q claimed apis cap a k in (a, m, sym e, c),
    )

-- A block request is sent only to APIs that are up, not busy and serve the path: for a reversible
-- block to live ones; for an irreversible block to live ones, and to verified archives that hold
-- the block, except for `get_block`. Where an archive claims the block, no node whose log begins
-- above it is asked. There are at most as many attempts as the configuration allows.
pub plan_block-IsSafePlan :
    (q : BlockQuery) (apis : List ApiView) (hint : Hint) (p : RoutedPlan)
    → q.hint ≡ some hint
    → plan_block q apis ≡ routed p
    → IsSafePlan q.endpoint apis (max q.max_attempts 1) p
plan_block-IsSafePlan q apis hint p e plan =
    subst (IsSafePlan q.endpoint apis (max q.max_attempts 1))
      (sym (plan-routed q apis hint p e plan))
      (routed_in-IsSafePlan (region hint.num (fleet_lib q.ship_lib apis) apis) hint q apis
        (max q.max_attempts 1))
