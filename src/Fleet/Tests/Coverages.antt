-- ===== src/Fleet/Tests/Coverages.antt =====
-- Coverage on small lists of ranges and on the small fleet.
use fleet_router.Prelude.{ℕ, not, ◌&&◌, List, [], ◌∷◌, ◌≡◌, arith}
use fleet_router.Ship.{Range, contains}
use fleet_router.Fleet.Coverage.{holds, merge, uncovered}
use fleet_router.Fleet.Coverage.Subtract.{uncovered-holds}
use fleet_router.Fleet.Coverage.Canonical.{SameBlocks, merge-canonical}
use fleet_router.Fleet.Run.Constant.{IsSticky}
use fleet_router.Fleet.Build.{build_view}
use fleet_router.Fleet.Build.Laws.{build_view-IsSticky}
use fleet_router.Fleet.Tests.{context, states, tips, memory, now}

abbrev span : ℕ → ℕ → Range
span a b = record { begin = a; end = b }

abbrev touching : List Range
touching = span 5 9 ∷ span 1 5 ∷ []

abbrev joined : List Range
joined = span 1 9 ∷ []

touching-joined : SameBlocks touching joined
unfolding contains
touching-joined n = ground arith

merge-canonical_example : merge touching ≡ merge joined
merge-canonical_example = merge-canonical touching joined touching-joined

uncovered-holds_example :
    holds (uncovered touching (span 3 6 ∷ [])) 4
    ≡ (holds touching 4 && not (holds (span 3 6 ∷ []) 4))
uncovered-holds_example = uncovered-holds touching (span 3 6 ∷ []) 4

build_view-IsSticky_example : IsSticky (build_view context states tips memory now).1
build_view-IsSticky_example = build_view-IsSticky context states tips memory now
