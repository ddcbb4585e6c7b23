-- ===== src/Session/Link/Laws.antt =====
-- What a settled link is, and the cursor and the positions of a request.
use fleet_router.Prelude.{
  ℕ, ◌+◌, ◌≤◌, ◌≡◌, refl, ◌⊎◌, inl, inr, Bool, true, false, ◌&&◌, List, [], ◌∷◌, map, none, some,
  arith, ltb, filter, Option-cases, All,
}
use fleet_router.Ship.{BlockPos}
use fleet_router.Wire.{BlocksRequest}
use fleet_router.Models.{Role, live, frozen}
use fleet_router.Fleet.Upstream.{least}
use fleet_router.Session.Mirror.{ClientSide}
use fleet_router.Session.Link.{
  LinkReq, LinkState, UpCursor, exact, uncertain, reached, settled_role, settled, positions_for,
  Target, cursor_after,
}

by_cursor :
    (cursor : UpCursor) (role : Role) (st : LinkState) (lr : LinkReq) (legacy : Bool)
    → (reached cursor lr.end && settled_role role st lr legacy) ≡ true
    → (u : ℕ) × (cursor ≡ exact u)
      × (lr.end ≤ u)
      × ((role ≡ frozen)
          ⊎ ((lib : BlockPos) × (st.last_lib ≡ some lib)
              × (lr.end ≤ lib.num + 1)
              × (legacy ≡ false)))
unfolding reached settled_role
by_cursor (uncertain lo hi) role st lr legacy e = cc
by_cursor (exact u) frozen st lr legacy e = (u, refl, ground arith, inl refl)
by_cursor (exact u) live st lr legacy e = elim (Option-cases st.last_lib) [
  | inl unknown ↦ absurd (ground arith)
  | inr (lib, known) ↦ (u, refl, ground arith, inr (lib, known, ground arith, ground arith))
]

-- A settled link with a request has reached its end, at an archive or at a node that is past the
-- point where a fork could bring it back.
pub settled-meaning :
    (st : LinkState) (lr : LinkReq) (legacy : Bool)
    → st.req ≡ some lr
    → settled st legacy ≡ true
    → (u : ℕ) × (st.up_cursor ≡ exact u)
      × (lr.end ≤ u)
      × ((st.role ≡ frozen)
          ⊎ ((lib : BlockPos) × (st.last_lib ≡ some lib)
              × (lr.end ≤ lib.num + 1)
              × (legacy ≡ false)))
unfolding settled
settled-meaning st lr legacy e h = by_cursor st.up_cursor st.role st lr legacy (ground arith)

pub positions_for-frozen :
    (c : ClientSide) (creq : BlocksRequest) (role : Role) (fresh : Bool) (start : ℕ)
    (target : Target)
    → role ≡ frozen
    → positions_for c creq role fresh start target ≡ []
unfolding positions_for
positions_for-frozen c creq frozen fresh start target e = refl
positions_for-frozen c creq live fresh start target e = cc

least-none : (ns : List ℕ) → least ns ≡ none → ns ≡ []
unfolding least
least-none [] e = refl
least-none (n ∷ ns) e = elim (Option-cases (least ns)) [
  | inl absent ↦ absurd (ground arith)
  | inr (m, found) ↦ absurd (ground arith)
]

above_all :
    (ps : List BlockPos) (start : ℕ)
    → filter (λ n. ltb n start) (map (λ (p : BlockPos). p.num) ps) ≡ []
    → All (λ p. start ≤ p.num) ps
above_all [] start e = tt
above_all (p ∷ ps) start e = (ground arith, above_all ps start (ground arith))

-- The cursor of a request is known exactly when no position stands below its start.
pub cursor_after-cases :
    (ps : List BlockPos) (start : ℕ)
    → ((cursor_after ps start ≡ exact start) × All (λ p. start ≤ p.num) ps)
      ⊎ ((lo : ℕ) × (cursor_after ps start ≡ uncertain lo start)
          × (least (filter (λ n. ltb n start) (map (λ (p : BlockPos). p.num) ps)) ≡ some lo))
unfolding cursor_after
cursor_after-cases ps start =
    elim (Option-cases (least (filter (λ n. ltb n start) (map (λ (p : BlockPos). p.num) ps)))) [
      | inl e ↦ inl (rw (e, cursor_after) refl, above_all ps start (least-none _ e))
      | inr (lo, e) ↦ inr (lo, rw (e, cursor_after) refl, e)
    ]
