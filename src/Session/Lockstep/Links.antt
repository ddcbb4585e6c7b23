-- ===== src/Session/Lockstep/Links.antt =====
-- A link and its upstream stay linked, whatever the upstream sends and however its chain moves.
use fleet_router.Prelude.{
  ℕ, ◌+◌, ◌-◌, ◌≤◌, ◌<◌, ◌≡◌, refl, sym, subst, ◌⊎◌, inl, inr, Bool, true, false, ◌&&◌, [], ◌∷◌,
  ◌++◌, some, arith, ◌==◌, length, length-append, Bool-cases,
}
use fleet_router.Models.{live}
use fleet_router.Session.Link.{LinkReq, LinkState, UpCursor, exact, uncertain}
use fleet_router.Session.Judge.{gate}
use fleet_router.Session.Lockstep.Node.{
  Chain, pos, Kind, spring, eosio2, leap4, archive, kind_role, kind_ids_begin, kind_tip, knows,
  is_eosio2, Upstream, block_frame, keepalive_frame, may_send, send,
}
use fleet_router.Session.Lockstep.Follows.{
  SentBlock, SentKeepalive, At, Follows-move, Follows-send, next_cursor,
}
use fleet_router.Session.Lockstep.Quiet.{IsKind, IsChain, seen, IsLinked}

tip_le : (kind : Kind) (chain : Chain) → (kind_tip kind chain).1 ≤ (kind_tip kind chain).0
unfolding kind_tip
tip_le (spring lag) chain = omega arith
tip_le (eosio2 lag) chain = omega arith
tip_le (leap4 lag) chain = omega arith
tip_le (archive begin end) chain = omega arith

unknown_below :
    (kind : Kind) (chain : Chain) (x : ℕ)
    → IsKind kind
    → x ≤ (kind_tip kind chain).0
    → knows kind chain x ≡ false
    → x < kind_ids_begin kind
unfolding knows kind_tip
unknown_below (spring lag) chain x k h e = ground arith
unknown_below (eosio2 lag) chain x k h e = ground arith
unknown_below (leap4 lag) chain x k h e = ground arith
unknown_below (archive begin end) chain x k h e = ground arith

module _ (up : Upstream) (chain : Chain) (lr : LinkReq) (k : IsKind up.kind) where
  block_frame-Sent :
      may_send up chain lr.end lr.irreversible_only ≡ true
      → SentBlock up.kind lr up.cursor (block_frame up chain)
  unfolding block_frame may_send gate pos
  block_frame-Sent h = record {
    from = refl;
    under_gate = ground arith;
    below_end = ground arith;
    ids = elim (Bool-cases (knows up.kind chain up.cursor)) [
      | inl known ↦ inl (pos chain up.cursor, rw known refl, refl)
      | inr unknown ↦
          let low : up.cursor ≤ (kind_tip up.kind chain).0 = ground (arith, tip_le up.kind chain) in
          inr (rw unknown refl, unknown_below up.kind chain up.cursor k low unknown)
    ];
  }

  keepalive_frame-Sent :
      may_send up chain lr.end lr.irreversible_only ≡ false
      → is_eosio2 up.kind ≡ true
      → SentKeepalive up.kind lr up.cursor (keepalive_frame up chain)
  unfolding keepalive_frame may_send gate pos
  keepalive_frame-Sent h legacy = record {
    from = refl;
    bare = refl;
    not_due = ground arith;
    legacy = legacy;
  }

  block_frame-At :
      (l : ℕ) (u : UpCursor)
      → let f = block_frame up chain in
        At up.kind lr.end f.h.lib.num (next_cursor u f) (up.cursor + 1)
  unfolding block_frame next_cursor pos
  block_frame-At l (exact u) = inl (omega arith)
  block_frame-At l (uncertain lo hi) = elim (Bool-cases (knows up.kind chain up.cursor)) [
    | inl known ↦ rw known (inl (omega arith))
    | inr unknown ↦ rw unknown tt
  ]

  keepalive_frame-At :
      may_send up chain lr.end lr.irreversible_only ≡ false
      → (l : ℕ) (u : UpCursor)
      → let f = keepalive_frame up chain in
        At up.kind lr.end l u up.cursor → At up.kind lr.end f.h.lib.num (next_cursor u f) up.cursor
  unfolding keepalive_frame next_cursor may_send pos
  keepalive_frame-At h l (exact u) (inl e) = inl e
  keepalive_frame-At h l (exact u) (inr m) = inr (record {
    is_node = m.is_node;
    ids = m.ids;
    legacy_back = m.legacy_back;
    back = λ lt. ground (arith, tip_le up.kind chain);
  })
  keepalive_frame-At h l (uncertain lo hi) a = tt

  -- The upstream sends nothing, or a result for its cursor, or a keep-alive where nothing is due;
  -- each costs it a credit.
  send-cases :
      up.req ≡ some (lr.end, lr.irreversible_only)
      → ((send up chain).0 ≡ up)
        ⊎ ((may_send up chain lr.end lr.irreversible_only ≡ true)
            × (0 < up.credit)
            × ((send up chain).0 ≡ record up {
              wire = up.wire ++ block_frame up chain ∷ [];
              cursor = up.cursor + 1;
              credit = up.credit - 1;
              keepalive_due = false;
            }))
        ⊎ ((may_send up chain lr.end lr.irreversible_only ≡ false)
            × (is_eosio2 up.kind ≡ true)
            × (0 < up.credit)
            × ((send up chain).0 ≡ record up {
              wire = up.wire ++ keepalive_frame up chain ∷ [];
              credit = up.credit - 1;
              keepalive_due = false;
            }))
  unfolding send
  send-cases e = elim (Bool-cases (up.credit == 0)) [
    | inl broke ↦ inl (ground arith)
    | inr funded ↦ elim (Bool-cases (may_send up chain lr.end lr.irreversible_only)) [
      | inl due ↦ inr (inl (due, ground arith, ground arith))
      | inr not_due ↦ elim (Bool-cases (is_eosio2 up.kind && up.keepalive_due)) [
        | inl legacy ↦ inr (inr (not_due, ground arith, ground arith, ground arith))
        | inr quiet ↦ inl (ground arith)
      ]
    ]
  ]

frame_lib :
    (up : Upstream) (chain : Chain) → (block_frame up chain).h.lib.num ≡ (kind_tip up.kind chain).1
unfolding block_frame pos
frame_lib up chain = refl

keepalive_lib :
    (up : Upstream) (chain : Chain)
    → (keepalive_frame up chain).h.lib.num ≡ (kind_tip up.kind chain).1
unfolding keepalive_frame pos
keepalive_lib up chain = refl

-- A node's LIB is at most the chain's, and it begins below that.
node_bounds :
    (kind : Kind) (chain : Chain)
    → IsChain chain
    → kind_role kind ≡ live
    → ((kind_tip kind chain).1 ≤ chain.lib) × (kind_ids_begin kind ≤ chain.lib)
unfolding kind_tip kind_ids_begin kind_role
node_bounds (spring lag) chain c e = (omega arith, omega (arith, c.high))
node_bounds (eosio2 lag) chain c e = (omega arith, omega (arith, c.high))
node_bounds (leap4 lag) chain c e = (omega arith, omega (arith, c.high))
node_bounds (archive begin end) chain c e = cc

-- The link stays linked, and the upstream's credit with the results on its wire is what it was.
abbrev Keeps : Chain → LinkState → LinkReq → Upstream → Upstream → Type 0
Keeps chain st lr up up' =
    IsLinked chain st up' lr × (up'.credit + length up'.wire ≡ up.credit + length up.wire)

pub send-IsLinked :
    (chain : Chain) (st : LinkState) (up : Upstream) (lr : LinkReq)
    → IsLinked chain st up lr
    → IsLinked chain st (send up chain).0 lr
      × ((send up chain).0.credit + length (send up chain).0.wire ≡ up.credit + length up.wire)
send-IsLinked chain st up lr k = elim (send-cases up chain lr k.kind_is k.serves) [
  | inl e ↦ subst (Keeps chain st lr up) (sym e) (k, refl)
  | inr (inl (due, funded, e)) ↦
      let f = block_frame up chain in
      subst (Keeps chain st lr up) (sym e) (
        record {
          asked = k.asked;
          serves = k.serves;
          end_fits = k.end_fits;
          role_is = k.role_is;
          kind_is = k.kind_is;
          follows =
              Follows-send up.kind lr (seen st.last_lib) st.up_cursor up.wire f up.cursor
                (kind_tip up.kind chain).1 (up.cursor + 1)
                (inl (block_frame-Sent up chain lr k.kind_is due)) (frame_lib up chain)
                (λ l u a. block_frame-At up chain lr k.kind_is l u) k.follows;
        },
        omega (arith, length-append {0} up.wire (f ∷ [])),
      )
  | inr (inr (not_due, legacy, funded, e)) ↦
      let f = keepalive_frame up chain in
      subst (Keeps chain st lr up) (sym e) (
        record {
          asked = k.asked;
          serves = k.serves;
          end_fits = k.end_fits;
          role_is = k.role_is;
          kind_is = k.kind_is;
          follows =
              Follows-send up.kind lr (seen st.last_lib) st.up_cursor up.wire f up.cursor
                (kind_tip up.kind chain).1 up.cursor
                (inr (keepalive_frame-Sent up chain lr k.kind_is not_due legacy))
                (keepalive_lib up chain)
                (λ l u a. keepalive_frame-At up chain lr k.kind_is not_due l u a) k.follows;
        },
        omega (arith, length-append {0} up.wire (f ∷ [])),
      )
]

-- A longer chain, or one with another fork, where no LIB goes down.
pub grow-IsLinked :
    (chain chain' : Chain) (st : LinkState) (up : Upstream) (lr : LinkReq) (due : Bool)
    → (kind_tip up.kind chain).1 ≤ (kind_tip up.kind chain').1
    → IsLinked chain st up lr
    → IsLinked chain' st (record up { keepalive_due = due }) lr
grow-IsLinked chain chain' st up lr due grows k = record {
  asked = k.asked;
  serves = k.serves;
  end_fits = k.end_fits;
  role_is = k.role_is;
  kind_is = k.kind_is;
  follows =
      Follows-move up.kind lr (seen st.last_lib) st.up_cursor up.wire up.cursor
        (kind_tip up.kind chain).1 up.cursor (kind_tip up.kind chain').1
        (λ l u a b. (a, omega arith)) k.follows;
}

-- A live upstream is moved back to a block above the chain's LIB.
pub back-IsLinked :
    (chain : Chain) (st : LinkState) (up : Upstream) (lr : LinkReq) (from : ℕ)
    → IsChain chain
    → chain.lib < from
    → from < up.cursor
    → kind_role up.kind ≡ live
    → IsLinked chain st up lr
    → IsLinked chain st (record up { cursor = from }) lr
back-IsLinked chain st up lr from c above back node k = record {
  asked = k.asked;
  serves = k.serves;
  end_fits = k.end_fits;
  role_is = k.role_is;
  kind_is = k.kind_is;
  follows =
      Follows-move up.kind lr (seen st.last_lib) st.up_cursor up.wire up.cursor
        (kind_tip up.kind chain).1 from (kind_tip up.kind chain).1 (λ l u a b. (moved l u a b, b))
        k.follows;
}
  where
    moved :
        (l : ℕ) (u : UpCursor)
        → At up.kind lr.end l u up.cursor
        → l ≤ (kind_tip up.kind chain).1
        → At up.kind lr.end l u from
    moved l (exact u) a b = inr (record {
      is_node = node;
      ids = omega (arith, (node_bounds up.kind chain c node).1);
      legacy_back =
          λ legacy. elim a [ inl e ↦ omega arith | inr m ↦ omega (arith, m.legacy_back legacy) ];
      back = λ lt. inl (omega (arith, (node_bounds up.kind chain c node).0));
    })
    moved l (uncertain lo hi) a b = tt
