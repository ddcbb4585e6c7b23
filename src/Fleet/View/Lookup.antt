-- ===== src/Fleet/View/Lookup.antt =====
-- Looking an upstream up by its index.
use fleet_router.Prelude.{
  ℕ, ◌≡◌, refl, ap, ◌∙◌, inl, inr, Bool, some, ◌==◌, ==_iff, In, find, get_elem?, get_elem?-In,
  find-In, find-exists, Option-cases, Bool-cases,
}
use fleet_router.Fleet.Upstream.{UpstreamView}
use fleet_router.Fleet.View.{FleetView, up}

-- No two upstreams share an index.
abbrev pub DistinctIndexes : FleetView → Type 0
DistinctIndexes v =
    (a b : UpstreamView) → In a v.upstreams → In b v.upstreams → a.index ≡ b.index → a ≡ b

abbrev has_index : ℕ → UpstreamView → Bool
has_index i u = u.index == i

module _ (v : FleetView) (u : UpstreamView) (distinct : DistinctIndexes v)
    (i : In u v.upstreams) where
  find_unique : find (has_index u.index) v.upstreams ≡ some u
  find_unique = elim (Option-cases (find (has_index u.index) v.upstreams)) [
    | inl e ↦
        absurd (find-exists (has_index u.index) v.upstreams u i ((==_iff u.index u.index).1 refl) e)
    | inr (w, e) ↦
        let (j, h) = find-In (has_index u.index) v.upstreams w e in
        let same : w ≡ u = distinct w u j i ((==_iff w.index u.index).0 h) in e ∙ ap some same
  ]

  -- The upstream at the position wins only if it has the index, so the lookup finds the one that
  -- has it.
  pub up_unique : up v u.index ≡ some u
  unfolding up
  up_unique = elim (Option-cases (get_elem? v.upstreams u.index)) [
    | inl e ↦ rw (e, up) find_unique
    | inr (w, e) ↦ elim (Bool-cases (w.index == u.index)) [
      | inl h ↦
          let same : w ≡ u =
            distinct w u (get_elem?-In v.upstreams u.index w e) i ((==_iff w.index u.index).0 h) in
          rw (e, up) (rw h (ap some same))
      | inr h ↦ rw (e, up) (rw h find_unique)
    ]
  ]
