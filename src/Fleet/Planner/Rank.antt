-- ===== src/Fleet/Planner/Rank.antt =====
-- The ranking of candidates is an order, and the chosen one is least in it.
use fleet_router.Prelude.{
  ℕ, ◌≡◌, refl, ◌≢◌, Bool, true, false, not, ◌||◌, List, [], ◌∷◌, none, some, arith, Ordering, In,
  map, In-filter, filter-In, In-map, In-map_of_In, subst, ap, ◌∙◌,
}
use fleet_router.Prelude.Ranking.{reverse, IsWeakOrder}
use fleet_router.Prelude.Ranking.Laws.{
  key-IsWeakOrder, key_down-IsWeakOrder, then_with-IsWeakOrder, min_by-In, min_by-least,
  min_by-none,
}
use fleet_router.Models.{HistoryPreference}
use fleet_router.Fleet.Upstream.{UpstreamView}
use fleet_router.Fleet.View.{FleetView}
use fleet_router.Fleet.Request.{Shape, Excludes}
use fleet_router.Fleet.Eligible.{lagging_for}
use fleet_router.Fleet.Eligible.Preference.{preference-IsWeakOrder}
use fleet_router.Fleet.Planner.{
  Ranked, cmp_keys, rank_cmp, rank_of, candidate, candidates, best_of, full,
}

cmp_keys-swaps : (xs ys : List ℕ) → cmp_keys ys xs ≡ reverse (cmp_keys xs ys)
unfolding cmp_keys
cmp_keys-swaps [] [] = refl
cmp_keys-swaps [] (y ∷ ys) = refl
cmp_keys-swaps (x ∷ xs) [] = refl
cmp_keys-swaps (x ∷ xs) (y ∷ ys) = ground (arith, cmp_keys-swaps xs ys)

cmp_keys_trans :
    (xs ys zs : List ℕ)
    → cmp_keys xs ys ≢ Ordering.gt
    → cmp_keys ys zs ≢ Ordering.gt
    → cmp_keys xs zs ≢ Ordering.gt
unfolding cmp_keys
cmp_keys_trans [] ys [] h k = λ e. cc
cmp_keys_trans [] ys (z ∷ zs) h k = λ e. cc
cmp_keys_trans (x ∷ xs) [] zs h k = absurd (h refl)
cmp_keys_trans (x ∷ xs) (y ∷ ys) [] h k = absurd (k refl)
cmp_keys_trans (x ∷ xs) (y ∷ ys) (z ∷ zs) h k = ground (arith, cmp_keys_trans xs ys zs)

heads-IsWeakOrder : IsWeakOrder (λ (a b : Ranked). cmp_keys a.head b.head)
heads-IsWeakOrder = record {
  swaps = λ a b. cmp_keys-swaps a.head b.head;
  trans = λ a b c. cmp_keys_trans a.head b.head c.head;
}

-- The comparison by which `next_step` ranks is a total preorder.
pub rank_cmp-IsWeakOrder : IsWeakOrder rank_cmp
unfolding rank_cmp
rank_cmp-IsWeakOrder =
    then_with-IsWeakOrder _ _
      (then_with-IsWeakOrder _ _
        (then_with-IsWeakOrder _ _
          (then_with-IsWeakOrder _ _ heads-IsWeakOrder (key-IsWeakOrder (λ r. r.up.priority)))
          (key_down-IsWeakOrder (λ r. r.run)))
        (preference-IsWeakOrder (λ r. r.up) (λ r. r.conns)))
      (key-IsWeakOrder (λ r. r.hash))

module _ (v : FleetView) (sh : Shape) (from : ℕ) (ex : Excludes) (own : List ℕ) (sid : ℕ)
    (pol : HistoryPreference) (lag now : ℕ) where
  abbrev rank : UpstreamView → Ranked
  rank = rank_of v sh from ex own sid pol lag now

  -- The chosen candidate stands in the view, and no candidate ranks before it.
  pub best_of-least :
      (r : Ranked)
      → best_of v sh from ex own sid pol lag now ≡ some r
      → (u : UpstreamView) × In u v.upstreams
        × (candidate v u sh from ex now ≡ true)
        × (r ≡ rank_of v sh from ex own sid pol lag now u)
        × ((w : UpstreamView)
            → In w v.upstreams
            → candidate v w sh from ex now ≡ true
            → rank_cmp r (rank_of v sh from ex own sid pol lag now w) ≢ Ordering.gt)
  unfolding best_of candidates
  best_of-least r e =
      let cands = candidates v sh from ex now in
      let (u, i, f) = In-map rank cands r (min_by-In rank_cmp (map rank cands) r e) in
      let (j, c) = In-filter (λ u. candidate v u sh from ex now) v.upstreams u i in
      (
        u,
        j,
        c,
        f,
        λ w k d. min_by-least rank_cmp rank_cmp-IsWeakOrder (map rank cands) r (rank w) e (
            In-map_of_In rank cands w
              (filter-In (λ u. candidate v u sh from ex now) v.upstreams w k d)),
      )

  -- With a candidate in the view, one is chosen.
  pub best_of-exists :
      (w : UpstreamView)
      → In w v.upstreams
      → candidate v w sh from ex now ≡ true
      → best_of v sh from ex own sid pol lag now ≢ none
  unfolding best_of candidates
  best_of-exists w k d e =
      let cands = candidates v sh from ex now in
      let i : In (rank w) (map rank cands) =
        In-map_of_In rank cands w
          (filter-In (λ u. candidate v u sh from ex now) v.upstreams w k d) in
      let none_left : map rank cands ≡ [] = min_by-none rank_cmp (map rank cands) e in
      let absurdly : In (rank w) [] = subst (In (rank w)) none_left i in absurd absurdly

  rank-up : (u : UpstreamView) → (rank u).up ≡ u
  unfolding rank_of
  rank-up u = refl

  abbrev is_fresh : UpstreamView → Bool
  is_fresh u = not (u.stale || lagging_for v u from lag)

  first_keys :
      (a b : UpstreamView)
      → rank_cmp (rank a) (rank b) ≢ Ordering.gt
      → (b.online ≡ true → a.online ≡ true)
        × (b.online ≡ true → is_fresh b ≡ true → (a.online ≡ true) × (is_fresh a ≡ true))
        × (b.online ≡ true
            → is_fresh b ≡ true
            → full own b ≡ false
            → (a.online ≡ true) × (is_fresh a ≡ true) × (full own a ≡ false))
  unfolding rank_cmp rank_of
  first_keys a b h = (λ x. ground arith, λ x y. ground arith, λ x y z. ground arith)

  -- The chosen upstream is online if any candidate is, online and fresh if some online candidate
  -- is fresh, and has room for the session besides if some online fresh candidate has.
  pub best_of-prefers :
      (r : Ranked) (w : UpstreamView)
      → best_of v sh from ex own sid pol lag now ≡ some r
      → In w v.upstreams
      → candidate v w sh from ex now ≡ true
      → (w.online ≡ true → r.up.online ≡ true)
        × (w.online ≡ true → is_fresh w ≡ true → (r.up.online ≡ true) × (is_fresh r.up ≡ true))
        × (w.online ≡ true
            → is_fresh w ≡ true
            → full own w ≡ false
            → (r.up.online ≡ true) × (is_fresh r.up ≡ true) × (full own r.up ≡ false))
  best_of-prefers r w e k d =
      let (u, _, _, f, least) = best_of-least r e in
      let a : rank_cmp (rank u) (rank w) ≢ Ordering.gt = rw (← f) (least w k d) in
      let up_is : r.up ≡ u = ap (λ (x : Ranked). x.up) f ∙ rank-up u in rw up_is (first_keys u w a)
