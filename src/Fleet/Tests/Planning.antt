-- ===== src/Fleet/Tests/Planning.antt =====
-- Planning on the small fleet: legs, gaps, what is preferred and how long a run is.
use fleet_router.Prelude.{
  ℕ, ◌≤◌, ◌<◌, Bool, true, false, List, [], ◌∷◌, ◌≡◌, ◌↔◌, inl, inr, refl, some, arith, In, ◌&&◌,
  ◌||◌, not, leb, leb→le, suc, sym, ◌∙◌, ap,
}
use fleet_router.Models.{Role, prefer_frozen}
use fleet_router.Fleet.Build.{upstream_view}
use fleet_router.Fleet.Build.Laws.{build_view-IsSticky}
use fleet_router.Fleet.Eligible.{eligible, lagging_for}
use fleet_router.Fleet.Upstream.{UpstreamView}
use fleet_router.Fleet.View.Lookup.{DistinctIndexes}
use fleet_router.Fleet.Run.{run_end}
use fleet_router.Fleet.Run.Constant.{IsSticky}
use fleet_router.Fleet.Run.Ends.{run_end-eligible}
use fleet_router.Fleet.Planner.{Ranked, best_of, next_step, rank_of, serve_on, full}
use fleet_router.Fleet.Planner.Serve.{IsSafeLeg, next_step-SafeLeg}
use fleet_router.Fleet.Planner.Agree.{serve_on-next_step}
use fleet_router.Fleet.Planner.Gaps.{IsHole, next_step-gap_iff, next_step-serves}
use fleet_router.Fleet.Planner.Rank.{best_of-prefers}
use fleet_router.Fleet.Request.{serve, gap, ServeStep, sticky}
use fleet_router.Fleet.Tests.{
  view, holed, plan, context, states, tips, memory, archive, request, all_data, no_excludes, now,
  tip, position,
}

abbrev first_leg : ServeStep
first_leg = record { up = 0; endpoint = 1 ∷ []; role = Role.frozen; start = 50; req_end = 100 }

first_leg-served :
    next_step view tip request 50 no_excludes [] 7 prefer_frozen 3 false now ≡ serve first_leg
unfolding plan
first_leg-served = refl

-- The archive as the view has it.
unfoldable archive_up : UpstreamView
unfolding plan
archive_up = upstream_view context (1 ∷ [], archive)

archive-In : In archive_up view.upstreams
unfolding archive_up
archive-In = inl refl

view-IsSticky : IsSticky view
unfolding plan
view-IsSticky = build_view-IsSticky context states tips memory now

-- The witnesses.
next_step-SafeLeg_example :
    (u : UpstreamView) × IsSafeLeg view tip request 50 no_excludes [] false now first_leg u
next_step-SafeLeg_example =
    next_step-SafeLeg view tip request 50 no_excludes [] 7 prefer_frozen 3 false now first_leg
      view-IsSticky (omega arith) first_leg-served

run_end-eligible_example : eligible view archive_up all_data 70 sticky now ≡ true
unfolding archive_up
run_end-eligible_example =
    run_end-eligible view archive_up all_data 50 now 70 view-IsSticky archive-In refl (omega arith)
      below
  where
    below : 70 < run_end view archive_up all_data 50 now
    below = omega arith

next_step-serves_example :
    (s : ServeStep) × (next_step view tip request 50 no_excludes [] 7 prefer_frozen 3 false now
      ≡ serve s)
unfolding archive_up
next_step-serves_example =
    next_step-serves view tip request 50 no_excludes [] 7 prefer_frozen 3 false now archive_up
      archive-In refl refl refl refl (position 199, refl, omega arith) (omega arith) refl refl

abbrev gap_block : ℕ
gap_block = 60

next_step-gap_iff_example :
    (next_step holed tip request 60 no_excludes [] 7 prefer_frozen 3 false now ≡ gap 60) ↔ (
      (gap_block ≡ gap_block)
      × IsHole holed tip request 60 no_excludes [] 7 prefer_frozen 3 false now)
next_step-gap_iff_example =
    next_step-gap_iff holed tip request 60 no_excludes [] 7 prefer_frozen 3 false now 60

ascending : ℕ → List UpstreamView → Bool
ascending lo [] = true
ascending lo (u ∷ us) = leb lo u.index && ascending (suc u.index) us

ascending-above :
    (lo : ℕ) (us : List UpstreamView) (b : UpstreamView)
    → ascending lo us ≡ true
    → In b us
    → lo ≤ b.index
unfolding ascending
ascending-above lo [] b h i = absurd i
ascending-above lo (u ∷ us) b h (inl e) = rw e (leb→le _ _ (ground arith))
ascending-above lo (u ∷ us) b h (inr i) =
    ground (arith, ascending-above (suc u.index) us b (ground arith) i)

ascending-distinct :
    (lo : ℕ) (us : List UpstreamView) (a b : UpstreamView)
    → ascending lo us ≡ true
    → In a us
    → In b us
    → a.index ≡ b.index
    → a ≡ b
unfolding ascending
ascending-distinct lo [] a b h i j e = absurd i
ascending-distinct lo (u ∷ us) a b h (inl p) (inl q) e = p ∙ sym q
ascending-distinct lo (u ∷ us) a b h (inl p) (inr j) e = absurd (
    omega (
      arith,
      ap (λ (w : UpstreamView). w.index) p,
      ascending-above (suc u.index) us b (ground arith) j,
    ))
ascending-distinct lo (u ∷ us) a b h (inr i) (inl q) e = absurd (
    omega (
      arith,
      ap (λ (w : UpstreamView). w.index) q,
      ascending-above (suc u.index) us a (ground arith) i,
    ))
ascending-distinct lo (u ∷ us) a b h (inr i) (inr j) e =
    ascending-distinct (suc u.index) us a b (ground arith) i j e

view-DistinctIndexes : DistinctIndexes view
unfolding plan ascending
view-DistinctIndexes a b i j e = ascending-distinct 0 view.upstreams a b refl i j e

serve_on-next_step_example : serve_on view tip request 50 0 no_excludes now ≡ some first_leg
serve_on-next_step_example =
    serve_on-next_step view tip request 50 no_excludes [] 7 prefer_frozen 3 false now first_leg
      view-IsSticky view-DistinctIndexes (omega arith) first_leg-served

abbrev chosen : Ranked
chosen = rank_of view request 50 no_excludes [] 7 prefer_frozen 3 now archive_up

chosen-best : best_of view request 50 no_excludes [] 7 prefer_frozen 3 now ≡ some chosen
unfolding archive_up
chosen-best = refl

best_of-prefers_example :
    (archive_up.online ≡ true → chosen.up.online ≡ true)
    × (archive_up.online ≡ true
        → not (archive_up.stale || lagging_for view archive_up 50 3) ≡ true
        → (chosen.up.online ≡ true)
          × (not (chosen.up.stale || lagging_for view chosen.up 50 3) ≡ true))
    × (archive_up.online ≡ true
        → not (archive_up.stale || lagging_for view archive_up 50 3) ≡ true
        → full [] archive_up ≡ false
        → (chosen.up.online ≡ true)
          × (not (chosen.up.stale || lagging_for view chosen.up 50 3) ≡ true)
          × (full [] chosen.up ≡ false))
unfolding archive_up
best_of-prefers_example =
    best_of-prefers view request 50 no_excludes [] 7 prefer_frozen 3 now chosen archive_up
      chosen-best archive-In refl
