-- ===== src/Session/Lockstep/Ledger.antt =====
-- The ledger of credits: what the upstream may still send and what is on its wire is what the
-- client has left, on every link and after any events.
use fleet_router.Prelude.{
  ℕ, ◌+◌, ◌-◌, ◌%◌, ◌^◌, ◌≤◌, ◌<◌, ◌≡◌, refl, ap, ◌∙◌, inl, inr, Bool, true, false, ◌&&◌, List, [],
  ◌∷◌, ◌++◌, Option, none, some, arith, leb, ltb, if◌then◌else◌, is_some, length, Bool-cases,
}
use fleet_router.Prelude.Words.{u32_max}
use fleet_router.Wire.{BlocksRequest}
use fleet_router.Session.Mirror.{ack, new_request, in_progress}
use fleet_router.Session.Mirror.Laws.{IsMirror, ack-IsMirror, new_request-IsMirror}
use fleet_router.Session.Link.{
  LinkReq, LinkState, Purpose, initial, handoff, failover_resume, UpCursor, new_link, quiescent,
}
use fleet_router.Session.Lockstep.{
  Sim, send_request, open_link, reusable, on_new_request, on_ack, resume, on_failover, on_advance,
  on_fork, on_send, hand_off,
}
use fleet_router.Session.Lockstep.Node.{
  Chain, Kind, spring, eosio2, leap4, archive, kind_role, kind_tip, Frame, Upstream, new_upstream,
  rewind, send, is_eosio2,
}
use fleet_router.Session.Lockstep.Follows.{Follows}
use fleet_router.Session.Lockstep.Quiet.{IsKind, IsChain, seen, IsLinked, quiescent-empty}
use fleet_router.Session.Lockstep.Links.{send-IsLinked, grow-IsLinked}
use fleet_router.Session.Lockstep.Requests.{send_request-IsLinked, fork-IsLinked}

-- The link's upstream has as much credit as the client, less the results on the wire.
abbrev pub IsBalanced : Chain → ℕ → Option (LinkState × Upstream) → Type 0
IsBalanced chain credit none = Unit {0}
IsBalanced chain credit (some (st, up)) =
    (lr : LinkReq) × IsLinked chain st up lr × (up.credit + length up.wire ≡ credit)

pub record IsLockstep (s : Sim) : Type 0 where
  pub chain_is : IsChain s.chain
  pub mirror : IsMirror s.c
  pub window_is : s.window ≡ s.c.credit
  pub balanced : IsBalanced s.chain s.c.credit s.link

pub send-IsLockstep : (s : Sim) → IsLockstep s → IsLockstep (on_send s)
unfolding on_send
send-IsLockstep s k = record {
  chain_is = k.chain_is;
  mirror = k.mirror;
  window_is = k.window_is;
  balanced = on_link s.link k.balanced;
}
  where
    on_link :
        (link : Option (LinkState × Upstream))
        → IsBalanced s.chain s.c.credit link
        → IsBalanced s.chain s.c.credit
            (elim link [ none ↦ none | some (st, up) ↦ some (st, (send up s.chain).0) ])
    on_link none b = tt
    on_link (some (st, up)) (lr, l, b) =
        let (kept, same) = send-IsLinked s.chain st up lr l in (lr, kept, same ∙ b)

pub ack-IsLockstep : (s : Sim) (n : ℕ) → IsLockstep s → IsLockstep (on_ack s n)
unfolding on_ack
ack-IsLockstep s n k =
    let (mirror, raised, capped) = ack-IsMirror s.c n k.mirror in
    record {
      chain_is = k.chain_is;
      mirror = mirror;
      window_is = omega (arith, k.window_is);
      balanced = on_link s.link raised mirror.credit_fits k.balanced;
    }
  where
    on_link :
        (link : Option (LinkState × Upstream))
        → (ack s.c n).0.credit ≡ s.c.credit + (ack s.c n).1
        → (ack s.c n).0.credit ≤ u32_max
        → IsBalanced s.chain s.c.credit link
        → IsBalanced s.chain (ack s.c n).0.credit (elim link [
          | none ↦ none
          | some (st, up) ↦ some (
            st,
            if is_some st.req
                then record up { credit = (up.credit + (ack s.c n).1) % 2 ^ 32 }
                else up,
          )
        ])
    on_link none raised fits b = tt
    on_link (some (st, up)) raised fits (lr, l, b) =
        let asked : is_some st.req ≡ true = ap is_some l.asked in
        rw asked (
          lr,
          record {
            asked = l.asked;
            serves = l.serves;
            end_fits = l.end_fits;
            role_is = l.role_is;
            kind_is = l.kind_is;
            follows = l.follows;
          },
          omega arith,
        )

-- Where a new link may go.
abbrev pub IsPlan : Kind → ℕ → Type 0
IsPlan kind end = IsKind kind × (end ≤ u32_max)

pub open-IsLockstep :
    (s : Sim) (kind : Kind) (end now : ℕ) (creq : BlocksRequest) (purpose : Purpose)
    → IsPlan kind end
    → IsChain s.chain
    → IsMirror s.c
    → s.window ≡ s.c.credit
    → IsLockstep (open_link s creq kind end purpose now)
unfolding open_link new_link new_upstream
open-IsLockstep s kind end now creq purpose plan c m w =
    let (linked, _, balance) =
      send_request-IsLinked s creq (new_link 0 (kind_role kind) now) (new_upstream kind) end purpose
        now refl plan.0 plan.1 refl (omega arith) in
    record { chain_is = c; mirror = m; window_is = w; balanced = (_, linked, balance) }

module _ (s : Sim) (kind : Kind) (end now : ℕ) (plan : IsPlan kind end) (k : IsLockstep s) where
  abbrev gone : Sim
  gone = record s { link = none }

  gone-IsLockstep : IsLockstep gone
  gone-IsLockstep = record {
    chain_is = k.chain_is;
    mirror = k.mirror;
    window_is = k.window_is;
    balanced = tt;
  }

  pub resume-IsLockstep : IsLockstep (resume s kind end now)
  unfolding resume
  resume-IsLockstep = resumed s.c.req (in_progress s.c)
    where
      resumed :
          (req : Option BlocksRequest) (busy : Bool)
          → IsLockstep (elim req [
            | none ↦ gone
            | some creq ↦ if busy then open_link gone creq kind end failover_resume now else gone
          ])
      resumed none busy = gone-IsLockstep
      resumed (some creq) false = gone-IsLockstep
      resumed (some creq) true =
          open-IsLockstep gone kind end now creq failover_resume plan k.chain_is k.mirror
            k.window_is

  pub failover-IsLockstep : IsLockstep (on_failover s kind end now)
  unfolding on_failover
  failover-IsLockstep = on_link s.link
    where
      on_link :
          (link : Option (LinkState × Upstream))
          → IsLockstep (elim link [ none ↦ s | some (st, up) ↦ resume s kind end now ])
      on_link none = k
      on_link (some (st, up)) = resume-IsLockstep

  pub hand_off-IsLockstep :
      (creq : BlocksRequest) (lr : LinkReq) → IsLockstep (hand_off s creq lr kind end now)
  unfolding hand_off
  hand_off-IsLockstep creq lr =
      elim (Bool-cases (in_progress s.c && lr.clamped && leb lr.end s.c.cursor)) [
        | inl over ↦
            rw over
              (open-IsLockstep gone kind end now creq handoff plan k.chain_is k.mirror k.window_is)
        | inr on ↦ rw on k
      ]

seen_low :
    (kind : Kind) (lr : LinkReq) (l : ℕ) (u : UpCursor) (wire : List Frame) (y t : ℕ)
    → wire ≡ []
    → Follows kind lr l u wire y t
    → l ≤ t
seen_low kind lr l u [] y t e f = f.1
seen_low kind lr l u (g ∷ gs) y t e f = cc

module _ (s : Sim) (r : BlocksRequest) (kind : Kind) (end now : ℕ) (plan : IsPlan kind end)
    (fits : r.max_in_flight ≤ u32_max) (k : IsLockstep s) where
  abbrev asked : Sim
  asked = record s { c = (new_request s.c r).0; window = r.max_in_flight }

  asked-window : asked.window ≡ asked.c.credit
  unfolding new_request
  asked-window = refl

  asked-IsLockstep : IsLockstep (open_link asked r kind end initial now)
  asked-IsLockstep =
      open-IsLockstep asked kind end now r initial plan k.chain_is
        (new_request-IsMirror s.c r k.mirror fits) asked-window

  -- The request goes out on the same link when nothing of the old one is left.
  reuse-IsLockstep :
      (st : LinkState) (up : Upstream) (lr : LinkReq)
      → IsLinked s.chain st up lr
      → up.credit + length up.wire ≡ s.c.credit
      → quiescent st s.c.credit (is_eosio2 up.kind) ≡ true
      → IsLockstep (record asked { link = some (send_request asked r st up end initial now) })
  reuse-IsLockstep st up lr l b quiet =
      let empty = quiescent-empty s.chain st up lr s.c.credit l b quiet in
      let (linked, _, balance) =
        send_request-IsLinked asked r st up end initial now l.role_is l.kind_is plan.1 empty (
          seen_low up.kind lr (seen st.last_lib) st.up_cursor up.wire up.cursor
            (kind_tip up.kind s.chain).1 empty l.follows) in
      record {
        chain_is = k.chain_is;
        mirror = new_request-IsMirror s.c r k.mirror fits;
        window_is = asked-window;
        balanced = (_, linked, balance);
      }

  pub new_request-IsLockstep : IsLockstep (on_new_request s r kind end now)
  unfolding on_new_request new_request reusable
  new_request-IsLockstep = on_link s.link k.balanced
    where
      on_link :
          (link : Option (LinkState × Upstream))
          → IsBalanced s.chain s.c.credit link
          → IsLockstep (elim link [
            | none ↦ open_link asked r kind end initial now
            | some (st, up) ↦
                if reusable (record st { resume_floor = none }) up kind s.c.credit
                then record asked {
                  link =
                      some (
                        send_request asked r
                          (record st { resume_floor = none })
                          up
                          end
                          initial
                          now);
                }
                else open_link asked r kind end initial now
          ])
      on_link none b = asked-IsLockstep
      on_link (some (st, up)) (lr, l, b) =
          let quiet_st : LinkState = record st { resume_floor = none } in
          elim (Bool-cases (reusable quiet_st up kind s.c.credit)) [
            | inr other ↦ rw (other, reusable) asked-IsLockstep
            | inl same ↦
                rw (same, reusable)
                  (reuse-IsLockstep quiet_st up lr
                    (record {
                      asked = l.asked;
                      serves = l.serves;
                      end_fits = l.end_fits;
                      role_is = l.role_is;
                      kind_is = l.kind_is;
                      follows = l.follows;
                    })
                    b (ground arith))
          ]

tip_grows :
    (kind : Kind) (chain chain' : Chain)
    → chain.head ≤ chain'.head
    → chain.lib ≤ chain'.lib
    → (kind_tip kind chain).1 ≤ (kind_tip kind chain').1
unfolding kind_tip
tip_grows (spring lag) chain chain' h l = omega arith
tip_grows (eosio2 lag) chain chain' h l = omega arith
tip_grows (leap4 lag) chain chain' h l = omega arith
tip_grows (archive begin end) chain chain' h l = omega arith

pub advance-IsLockstep : (s : Sim) (n : ℕ) → IsLockstep s → IsLockstep (on_advance s n)
unfolding on_advance
advance-IsLockstep s n k = record {
  chain_is = record {
    behind = omega (arith, k.chain_is.behind);
    high = omega (arith, k.chain_is.behind, k.chain_is.high);
  };
  mirror = k.mirror;
  window_is = k.window_is;
  balanced = on_link s.link k.balanced;
}
  where
    grown : Chain
    grown = record s.chain { head = s.chain.head + n; lib = s.chain.head + n - 10 }

    on_link :
        (link : Option (LinkState × Upstream))
        → IsBalanced s.chain s.c.credit link
        → IsBalanced grown s.c.credit (elim link [
          | none ↦ none
          | some (st, up) ↦
              some (st, if is_some up.req then record up { keepalive_due = true } else up)
        ])
    on_link none b = tt
    on_link (some (st, up)) (lr, l, b) =
        let live : is_some up.req ≡ true = ap is_some l.serves in
        let higher =
          tip_grows up.kind s.chain grown (omega arith) (omega (arith, k.chain_is.behind)) in
        rw live (lr, grow-IsLinked s.chain grown st up lr true higher l, b)

pub fork-IsLockstep : (s : Sim) (from seed : ℕ) → IsLockstep s → IsLockstep (on_fork s from seed)
unfolding on_fork
fork-IsLockstep s from seed k = elim (Bool-cases (ltb s.chain.lib from && leb from s.chain.head)) [
  | inr off ↦ rw off k
  | inl on ↦ rw on (record {
    chain_is = record { behind = k.chain_is.behind; high = k.chain_is.high };
    mirror = k.mirror;
    window_is = k.window_is;
    balanced = on_link (ground arith) s.link k.balanced;
  })
]
  where
    forks' : List (ℕ × ℕ)
    forks' = s.chain.forks ++ (from, seed) ∷ []

    on_link :
        s.chain.lib < from
        → (link : Option (LinkState × Upstream)) → IsBalanced s.chain s.c.credit link
        → IsBalanced
            (record s.chain { forks = forks' })
            s.c.credit
            (elim link [ none ↦ none | some (st, up) ↦ some (st, rewind up from) ])
    on_link above none b = tt
    on_link above (some (st, up)) (lr, l, b) =
        let (linked, same) = fork-IsLinked s.chain st up lr from forks' k.chain_is above l in
        (lr, linked, same ∙ b)
