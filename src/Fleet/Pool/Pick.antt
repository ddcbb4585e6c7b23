-- ===== src/Fleet/Pool/Pick.antt =====
-- What a pool session's pick promises.
use fleet_router.Prelude.{
  ℕ, ◌≤◌, ◌<◌, ◌≡◌, refl, sym, ◌∙◌, ap, ◌≢◌, inl, inr, Bool, true, false, not, List, [], Option,
  none, some, arith, In, filter, In-filter, filter-In, In-map, In-map_of_In, is_some_and,
  Bool-cases, Option-cases, Ordering, text_eq, text_eq_iff, subst, any_of_filter-nil,
  any-false_of_In,
}
use mathlib.Core.Path.{subst₂}
use fleet_router.Prelude.Ranking.{IsWeakOrder, min_by}
use fleet_router.Prelude.Ranking.Laws.{
  key-IsWeakOrder, then_with-IsWeakOrder, min_by-In, min_by-least, min_by-none,
}
use fleet_router.Fleet.Upstream.{UpstreamView}
use fleet_router.Fleet.View.{FleetView}
use fleet_router.Fleet.Request.{Need, Excludes}
use fleet_router.Fleet.Eligible.Preference.{preference-IsWeakOrder}
use fleet_router.Fleet.Planner.{key}
use fleet_router.Fleet.Pool.{
  PoolRanked, pool_candidate, pool_key, pool_ranked, pool_cmp, is_peer, soft_pick, pool_list,
  pool_rank,
}

-- The comparison by which `pool_rank` ranks is a total preorder.
pub pool_cmp-IsWeakOrder : IsWeakOrder pool_cmp
unfolding pool_cmp
pool_cmp-IsWeakOrder =
    then_with-IsWeakOrder _ _
      (then_with-IsWeakOrder _ _
        (then_with-IsWeakOrder _ _ (key-IsWeakOrder (λ r. key r.offline))
          (key-IsWeakOrder (λ r. r.rank)))
        (preference-IsWeakOrder (λ r. r.up) (λ r. r.conns)))
      (key-IsWeakOrder (λ r. r.hash))

pool_cmp-keys :
    (a b : PoolRanked)
    → pool_cmp a b ≢ Ordering.gt
    → (b.offline ≡ false → (a.offline ≡ false) × (a.rank ≤ b.rank))
unfolding pool_cmp
pool_cmp-keys a b h o = ground arith

abbrev soft_is : Excludes → PoolRanked → Bool
soft_is ex c = is_some_and (λ e. text_eq e c.up.endpoint) ex.soft

-- What the soft exclusion makes of the best candidate.
record SoftPick (ex : Excludes) (ranked : List PoolRanked) (best p : PoolRanked) : Type 0 where
  stands : In p ranked
  as_good : p.rank ≤ best.rank
  left_only_for_none :
      soft_is ex p ≡ true
      → (c : PoolRanked) → In c ranked
      → text_eq c.up.endpoint p.up.endpoint ≡ false
      → p.rank < c.rank
  kept : soft_is ex best ≡ false → p ≡ best

-- The soft exclusion names one endpoint.
soft-same :
    (ex : Excludes) (a b : PoolRanked)
    → soft_is ex a ≡ true
    → soft_is ex b ≡ true
    → text_eq a.up.endpoint b.up.endpoint ≡ true
soft-same ex a b h k = elim (Option-cases ex.soft) [
  | inl e ↦ absurd (ground arith)
  | inr (t, e) ↦ (text_eq_iff a.up.endpoint b.up.endpoint).1 (
      sym ((text_eq_iff t a.up.endpoint).0 (ground arith))
      ∙ (text_eq_iff t b.up.endpoint).0 (ground arith))
]

peer-facts :
    (best c : PoolRanked)
    → is_peer best c ≡ true
    → (text_eq c.up.endpoint best.up.endpoint ≡ false) × (c.rank ≤ best.rank)
unfolding is_peer
peer-facts best c h = (ground arith, ground arith)

no_peer-facts :
    (best c : PoolRanked)
    → is_peer best c ≡ false
    → text_eq c.up.endpoint best.up.endpoint ≡ false
    → best.rank < c.rank
unfolding is_peer
no_peer-facts best c h k = ground arith

module _ (ex : Excludes) (ranked : List PoolRanked) (best : PoolRanked) (i : In best ranked) where
  best-SoftPick :
      ((c : PoolRanked)
        → In c ranked
        → text_eq c.up.endpoint best.up.endpoint ≡ false
        → best.rank < c.rank)
      → SoftPick ex ranked best best
  best-SoftPick alone = record {
    stands = i;
    as_good = omega arith;
    left_only_for_none = λ _. alone;
    kept = λ _. refl;
  }

  peer-SoftPick :
      (p : PoolRanked)
      → soft_is ex best ≡ true
      → In p (filter (is_peer best) ranked)
      → SoftPick ex ranked best p
  peer-SoftPick p e j =
      let (k, peer) = In-filter (is_peer best) ranked p j in
      let (other, good) = peer-facts best p peer in
      record {
        stands = k;
        as_good = good;
        left_only_for_none = λ h c _ _. absurd (ground (arith, soft-same ex p best h e));
        kept = λ h. cc;
      }

  no_peers :
      filter (is_peer best) ranked ≡ []
      → (c : PoolRanked) → In c ranked
      → text_eq c.up.endpoint best.up.endpoint ≡ false
      → best.rank < c.rank
  no_peers e c j =
      no_peer-facts best c
        (any-false_of_In (is_peer best) ranked c j (any_of_filter-nil (is_peer best) ranked e))

  soft_pick-Pick : SoftPick ex ranked best (soft_pick ex ranked best)
  unfolding soft_pick
  soft_pick-Pick = elim (Bool-cases (soft_is ex best)) [
    | inr e ↦
        rw (e, soft_pick)
          (record {
            stands = i;
            as_good = omega arith;
            left_only_for_none = λ h. cc;
            kept = λ _. refl;
          })
    | inl e ↦ elim (Option-cases (min_by pool_cmp (filter (is_peer best) ranked))) [
      | inl m ↦
          rw (e, m, soft_pick)
            (best-SoftPick (no_peers (min_by-none pool_cmp (filter (is_peer best) ranked) m)))
      | inr (p, m) ↦
          rw (e, m, soft_pick)
            (peer-SoftPick p e (min_by-In pool_cmp (filter (is_peer best) ranked) p m))
    ]
  ]

module _ (v : FleetView) (route : Option (Need × ℕ)) (ex : Excludes) (failover : Bool)
    (sid lag now : ℕ) where
  abbrev listed : List PoolRanked
  listed = pool_list v route ex failover sid lag now

  abbrev entry : UpstreamView → PoolRanked
  entry = pool_ranked v route sid lag now

  listed-In :
      (w : UpstreamView)
      → In w v.upstreams
      → pool_candidate route ex failover now w ≡ true
      → In (entry w) listed
  unfolding pool_list
  listed-In w i c =
      In-map_of_In entry (filter (pool_candidate route ex failover now) v.upstreams) w
        (filter-In (pool_candidate route ex failover now) v.upstreams w i c)

  In-listed :
      (p : PoolRanked)
      → In p listed
      → (u : UpstreamView) × In u v.upstreams
        × (pool_candidate route ex failover now u ≡ true)
        × (p ≡ entry u)
  unfolding pool_list
  In-listed p i =
      let (u, j, e) =
        In-map entry (filter (pool_candidate route ex failover now) v.upstreams) p i in
      let (k, c) = In-filter (pool_candidate route ex failover now) v.upstreams u j in (u, k, c, e)

  pool_rank-pick :
      (index rank : ℕ)
      → pool_rank v route ex failover sid lag now ≡ some (index, rank)
      → (best : PoolRanked) × (min_by pool_cmp listed ≡ some best)
        × (index ≡ (soft_pick ex listed best).up.index)
        × (rank ≡ (soft_pick ex listed best).rank)
  unfolding pool_rank
  pool_rank-pick index rank e = elim (Option-cases (min_by pool_cmp listed)) [
    | inl m ↦ absurd (ground arith)
    | inr (best, m) ↦ (best, m, ground arith, ground arith)
  ]

  -- The pick is a candidate; it covers the block and is as fresh as well as any online candidate;
  -- with no soft exclusion it is online if any candidate is; and it is the upstream that failed
  -- last only if every candidate at another endpoint ranks strictly worse.
  pub record IsGoodPick (index rank : ℕ) (u : UpstreamView) : Type 0 where
    pub stands : In u v.upstreams
    pub index_is : index ≡ u.index
    pub rank_is : rank ≡ pool_key v route lag now u
    pub may_serve : pool_candidate route ex failover now u ≡ true
    pub as_good :
        (w : UpstreamView)
        → In w v.upstreams
        → pool_candidate route ex failover now w ≡ true
        → w.online ≡ true
        → rank ≤ pool_key v route lag now w
    pub online_first :
        ex.soft ≡ none
        → (w : UpstreamView) → In w v.upstreams
        → pool_candidate route ex failover now w ≡ true
        → w.online ≡ true
        → u.online ≡ true
    pub leaves_failed :
        is_some_and (λ e. text_eq e u.endpoint) ex.soft ≡ true
        → (w : UpstreamView) → In w v.upstreams
        → pool_candidate route ex failover now w ≡ true
        → text_eq w.endpoint u.endpoint ≡ false
        → rank < pool_key v route lag now w

  entry-index : (u : UpstreamView) → (entry u).up.index ≡ u.index
  unfolding pool_ranked
  entry-index u = refl

  entry-rank : (u : UpstreamView) → (entry u).rank ≡ pool_key v route lag now u
  unfolding pool_ranked
  entry-rank u = refl

  pick-IsGood :
      (best : PoolRanked) (u : UpstreamView)
      → min_by pool_cmp listed ≡ some best
      → In u v.upstreams
      → pool_candidate route ex failover now u ≡ true
      → SoftPick ex listed best (entry u)
      → IsGoodPick u.index (pool_key v route lag now u) u
  unfolding pool_ranked
  pick-IsGood best u m i c p = record {
    stands = i;
    index_is = refl;
    rank_is = refl;
    may_serve = c;
    as_good = λ w j d on. omega (arith, (best_keys w j d on).1, p.as_good);
    online_first = λ none_soft w j d on.
        let offline_same = ap (λ (c : PoolRanked). c.offline) (p.kept (ground arith)) in
        ground (arith, offline_same, (best_keys w j d on).0);
    leaves_failed = λ soft w j d other. p.left_only_for_none soft (entry w) (listed-In w j d) other;
  }
    where
      best_keys :
          (w : UpstreamView)
          → In w v.upstreams
          → pool_candidate route ex failover now w ≡ true
          → w.online ≡ true
          → (best.offline ≡ false) × (best.rank ≤ pool_key v route lag now w)
      best_keys w j d on =
          pool_cmp-keys best (entry w)
            (min_by-least pool_cmp pool_cmp-IsWeakOrder listed best (entry w) m (listed-In w j d))
            (ap not on)

  -- The index and the rank that `pool_rank` returns are those of a candidate of the view. No
  -- online candidate has a lower rank; without a soft exclusion the pick is online if any
  -- candidate is; and the pick stands at the softly excluded endpoint only if every candidate at
  -- another endpoint has a higher rank.
  pub pool_rank-IsGood :
      (index rank : ℕ)
      → pool_rank v route ex failover sid lag now ≡ some (index, rank)
      → (u : UpstreamView) × IsGoodPick index rank u
  pool_rank-IsGood index rank e =
      let (best, m, i_is, r_is) = pool_rank-pick index rank e in
      let pick = soft_pick ex listed best in
      let p = soft_pick-Pick ex listed best (min_by-In pool_cmp listed best m) in
      let (u, i, c, same) = In-listed pick p.stands in
      let good = pick-IsGood best u m i c (subst (SoftPick ex listed best) same p) in
      let index_same : index ≡ u.index =
        i_is ∙ ap (λ (x : PoolRanked). x.up.index) same ∙ entry-index u in
      let rank_same : rank ≡ pool_key v route lag now u =
        r_is ∙ ap (λ (x : PoolRanked). x.rank) same ∙ entry-rank u in
      (u, subst₂ (λ a b. IsGoodPick a b u) (sym index_same) (sym rank_same) good)

  -- Where `pool_rank` finds none, no upstream of the view is a candidate.
  pub pool_rank-none :
      (w : UpstreamView)
      → pool_rank v route ex failover sid lag now ≡ none
      → In w v.upstreams
      → pool_candidate route ex failover now w ≡ false
  unfolding pool_rank
  pool_rank-none w e i = elim (Bool-cases (pool_candidate route ex failover now w)) [
    | inr c ↦ c
    | inl c ↦
        let all_gone : listed ≡ [] = min_by-none pool_cmp listed (ground arith) in
        let here : In (entry w) [] = subst (In (entry w)) all_gone (listed-In w i c) in absurd here
  ]
