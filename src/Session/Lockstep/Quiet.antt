-- ===== src/Session/Lockstep/Quiet.antt =====
-- What holds between a link and its upstream, and why a link that is found quiet has nothing on
-- its wire.
use fleet_router.Prelude.{
  ℕ, ◌+◌, ◌≤◌, ◌<◌, ◌≡◌, refl, sym, ap, subst, ◌∙◌, ◌⊎◌, inl, inr, true, false, List, [], ◌∷◌,
  Option, none, some, arith, length, Bool-cases,
}
use fleet_router.Prelude.Words.{u32_max}
use fleet_router.Ship.{BlockPos}
use fleet_router.Models.{frozen}
use fleet_router.Session.Link.{LinkReq, LinkState, UpCursor, exact, settled, quiescent}
use fleet_router.Session.Link.Laws.{settled-meaning}
use fleet_router.Session.Lockstep.Node.{
  Chain, Kind, spring, eosio2, leap4, archive, kind_role, kind_tip, is_eosio2, leap4_first, Frame,
  Upstream,
}
use fleet_router.Session.Lockstep.Follows.{Follows}

-- An archive has a block.
abbrev pub IsKind : Kind → Type 0
IsKind (archive begin end) = begin < end
IsKind (spring lag) = Unit {0}
IsKind (eosio2 lag) = Unit {0}
IsKind (leap4 lag) = Unit {0}

-- The LIB is ten blocks behind the head, and above where the nodes begin.
pub record IsChain (chain : Chain) : Type 0 where
  pub behind : chain.head ≡ chain.lib + 10
  pub high : leap4_first ≤ chain.lib

-- The LIB of the last result that was forwarded.
abbrev pub seen : Option BlockPos → ℕ
seen none = 0
seen (some lib) = lib.num

pub record IsLinked (chain : Chain) (st : LinkState) (up : Upstream) (lr : LinkReq) : Type 0 where
  pub asked : st.req ≡ some lr
  pub serves : up.req ≡ some (lr.end, lr.irreversible_only)
  pub end_fits : lr.end ≤ u32_max
  pub role_is : st.role ≡ kind_role up.kind
  pub kind_is : IsKind up.kind
  pub follows :
      Follows up.kind lr
        (seen st.last_lib)
        st.up_cursor
        up.wire
        up.cursor
        (kind_tip up.kind chain).1

frozen_not_legacy : (kind : Kind) → kind_role kind ≡ frozen → is_eosio2 kind ≡ false
unfolding kind_role is_eosio2
frozen_not_legacy (spring lag) e = refl
frozen_not_legacy (eosio2 lag) e = cc
frozen_not_legacy (leap4 lag) e = refl
frozen_not_legacy (archive begin end) e = refl

-- Nothing was sent at the end of a request by an upstream that could not be moved below it.
settled-empty :
    (kind : Kind) (lr : LinkReq) (l u : ℕ) (wire : List Frame) (y t : ℕ)
    → Follows kind lr l (exact u) wire y t
    → lr.end ≤ u
    → (kind_role kind ≡ frozen) ⊎ ((lr.end ≤ l + 1) × (is_eosio2 kind ≡ false))
    → wire ≡ []
settled-empty kind lr l u [] y t f h q = refl
settled-empty kind lr l u (g ∷ gs) y t (x, inl e, inl b, _, _) h q =
    absurd (omega (arith, b.below_end))
settled-empty kind lr l u (g ∷ gs) y t (x, inr m, inl b, _, _) h (inl role) = cc (m.is_node)
settled-empty kind lr l u (g ∷ gs) y t (x, inr m, inl b, _, _) h (inr q) =
    absurd (ground (arith, b.below_end, m.back (omega (arith, b.below_end))))
settled-empty kind lr l u (g ∷ gs) y t (x, a, inr k, _, _) h (inl role) =
    cc (frozen_not_legacy kind role, k.legacy)
settled-empty kind lr l u (g ∷ gs) y t (x, a, inr k, _, _) h (inr q) = cc (q.1, k.legacy)

no_length : (wire : List Frame) → length wire ≡ 0 → wire ≡ []
no_length [] e = refl
no_length (f ∷ fs) e = absurd (omega arith)

-- On a link whose upstream keeps the send rule, and whose credit with the results on the wire is
-- the client's credit: when the link is found quiet, nothing is on the wire.
pub quiescent-empty :
    (chain : Chain) (st : LinkState) (up : Upstream) (lr : LinkReq) (pre : ℕ)
    → IsLinked chain st up lr
    → up.credit + length up.wire ≡ pre
    → quiescent st pre (is_eosio2 up.kind) ≡ true
    → up.wire ≡ []
unfolding quiescent
quiescent-empty chain st up lr pre k balance q =
    elim (Bool-cases (settled st (is_eosio2 up.kind))) [
      | inr busy ↦ no_length up.wire (ground arith)
      | inl quiet ↦
          let (u, cursor, at_end, why) = settled-meaning st lr (is_eosio2 up.kind) k.asked quiet in
          settled-empty up.kind lr (seen st.last_lib) u up.wire up.cursor (kind_tip up.kind chain).1
            (subst
              (λ (c : UpCursor).
                Follows up.kind lr (seen st.last_lib) c up.wire up.cursor
                  (kind_tip up.kind chain).1)
              cursor k.follows)
            at_end
            (elim why [
              | inl role ↦ inl (sym k.role_is ∙ role)
              | inr (lib, known, low, legacy) ↦ inr (omega (arith, ap seen known), legacy)
            ])
    ]
