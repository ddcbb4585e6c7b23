-- ===== src/Session/Lockstep/Requests.antt =====
-- A request that is sent leaves the link and its upstream linked; and so does a fork.
use fleet_router.Prelude.{
  ℕ, ◌+◌, ◌≤◌, ◌<◌, ◌≡◌, refl, sym, ap, subst, ◌⊎◌, inl, inr, ◌&&◌, List, [], ◌∷◌, some, arith, ltb,
  length, Bool-cases, Option-cases, All,
}
use fleet_router.Prelude.Words.{u32_max}
use fleet_router.Ship.{BlockPos}
use fleet_router.Wire.{BlocksRequest}
use fleet_router.Models.{live, is_live, pool}
use fleet_router.Session.Link.{
  LinkReq, LinkState, exact, Purpose, is_fresh_request, start_for, positions_for, cursor_after,
  build_request,
}
use fleet_router.Session.Link.Laws.{cursor_after-cases}
use fleet_router.Session.Lockstep.{Sim, send_request}
use fleet_router.Session.Lockstep.Node.{
  Chain, Kind, spring, eosio2, leap4, archive, kind_role, kind_ids_begin, kind_tip, is_eosio2,
  Frame, Upstream, rewound_start, first_start, request, rewind,
}
use fleet_router.Session.Lockstep.Follows.{At, Follows}
use fleet_router.Session.Lockstep.Quiet.{IsKind, IsChain, seen, IsLinked}
use fleet_router.Session.Lockstep.Links.{grow-IsLinked, back-IsLinked}

-- Positions at or above the start do not move it.
rewound_start-kept :
    (kind : Kind) (chain : Chain) (ps : List BlockPos) (start : ℕ)
    → All (λ p. start ≤ p.num) ps
    → rewound_start kind chain ps start ≡ start
unfolding rewound_start
rewound_start-kept kind chain [] start a = refl
rewound_start-kept kind chain (p ∷ ps) start a =
    ground (arith, rewound_start-kept kind chain ps start)

first_start-At :
    (kind : Kind) (end l start : ℕ) → At kind end l (exact start) (first_start kind start)
unfolding first_start kind_role kind_ids_begin is_eosio2
first_start-At (spring lag) end l start = inl refl
first_start-At (eosio2 lag) end l start = inl refl
first_start-At (archive begin e) end l start = inl refl
first_start-At (leap4 lag) end l start = inr (record {
  is_node = refl;
  ids = omega arith;
  legacy_back = λ h. cc;
  back = λ h. absurd (omega arith);
})

-- The upstream stands where the router takes it to be after a request.
pub request-At :
    (kind : Kind) (chain : Chain) (ps : List BlockPos) (end l start : ℕ)
    → At kind end l (cursor_after ps start) (first_start kind (rewound_start kind chain ps start))
request-At kind chain ps end l start = elim (cursor_after-cases ps start) [
  | inl (e, above) ↦
      rw (e, rewound_start-kept kind chain ps start above) (first_start-At kind end l start)
  | inr (lo, e, _) ↦ rw e tt
]

module _ (s : Sim) (creq : BlocksRequest) (st : LinkState) (up : Upstream) (end : ℕ)
    (purpose : Purpose) (now : ℕ) where
  abbrev req_sent : LinkReq
  req_sent = record {
    start = start_for s.c creq;
    end = end;
    clamped = ltb end creq.end;
    irreversible_only = creq.irreversible_only;
    purpose = purpose;
    sent_at = now;
  }

  abbrev start : ℕ
  start = start_for s.c creq

  abbrev positions : List BlockPos
  positions =
      positions_for s.c creq st.role (is_fresh_request s.c) start
        (record { topology = pool; ids_begin = some (kind_ids_begin up.kind) })

  -- The upstream's credit is the client's, and nothing is on the wire.
  pub send_request-IsLinked :
      st.role ≡ kind_role up.kind
      → IsKind up.kind
      → end ≤ u32_max
      → up.wire ≡ []
      → seen st.last_lib ≤ (kind_tip up.kind s.chain).1
      → let (st', up') = send_request s creq st up end purpose now in
        IsLinked s.chain st' up' req_sent
        × IsKind up'.kind
        × (up'.credit + length up'.wire ≡ s.c.credit)
  unfolding send_request build_request request
  send_request-IsLinked role kind fits empty low = (
    record {
      asked = refl;
      serves = refl;
      end_fits = fits;
      role_is = role;
      kind_is = kind;
      follows =
          subst
            (λ (wire : List Frame).
              Follows up.kind req_sent (seen st.last_lib) (cursor_after positions start) wire
                (first_start up.kind (rewound_start up.kind s.chain positions start))
                (kind_tip up.kind s.chain).1)
            (sym empty) (request-At up.kind s.chain positions end (seen st.last_lib) start, low);
    },
    kind,
    omega (arith, ap (length {0}) empty),
  )

tip_forks :
    (kind : Kind) (chain : Chain) (forks : List (ℕ × ℕ))
    → kind_tip kind (record chain { forks = forks }) ≡ kind_tip kind chain
unfolding kind_tip
tip_forks (spring lag) chain forks = refl
tip_forks (eosio2 lag) chain forks = refl
tip_forks (leap4 lag) chain forks = refl
tip_forks (archive begin end) chain forks = refl

rewind-cases :
    (up : Upstream) (from : ℕ)
    → (rewind up from ≡ up)
      ⊎ ((kind_role up.kind ≡ live)
          × (from < up.cursor)
          × (rewind up from ≡ record up { cursor = from }))
unfolding rewind
rewind-cases up from = elim (Option-cases up.req) [
  | inl idle ↦ inl (ground arith)
  | inr (r, asked) ↦ elim (Bool-cases (is_live (kind_role up.kind) && ltb from up.cursor)) [
    | inl back ↦ inr (ground arith, ground arith, ground arith)
    | inr ahead ↦ inl (ground arith)
  ]
]

-- A fork above the chain's LIB.
pub fork-IsLinked :
    (chain : Chain) (st : LinkState) (up : Upstream) (lr : LinkReq) (from : ℕ)
    (forks : List (ℕ × ℕ))
    → IsChain chain
    → chain.lib < from
    → IsLinked chain st up lr
    → IsLinked (record chain { forks = forks }) st (rewind up from) lr
      × ((rewind up from).credit + length (rewind up from).wire ≡ up.credit + length up.wire)
fork-IsLinked chain st up lr from forks c above k =
    let chain' : Chain = record chain { forks = forks } in
    let grown =
      grow-IsLinked chain chain' st up lr up.keepalive_due
        (omega (arith, ap (λ (t : ℕ × ℕ). t.1) (tip_forks up.kind chain forks))) k in
    let Kept = λ (up' : Upstream).
      IsLinked chain' st up' lr × (up'.credit + length up'.wire ≡ up.credit + length up.wire) in
    elim (rewind-cases up from) [
      | inl e ↦ subst Kept (sym e) (grown, refl)
      | inr (node, back, e) ↦ subst Kept (sym e) (
        back-IsLinked chain' st up lr from (record { behind = c.behind; high = c.high }) above back
            node grown,
        refl,
      )
    ]
