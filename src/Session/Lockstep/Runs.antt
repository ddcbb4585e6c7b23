-- ===== src/Session/Lockstep/Runs.antt =====
-- Runs of the simulation: the ledger holds after any events, in any order.
use fleet_router.Prelude.{
  ℕ, ◌+◌, ◌≤◌, ◌<◌, ◌≡◌, refl, ap, subst, true, false, List, [], ◌∷◌, Option, none, some, arith,
  length, All,
}
use fleet_router.Prelude.Words.{u32_max}
use fleet_router.Wire.{BlocksRequest, ResultHead}
use fleet_router.Session.Link.{LinkReq, LinkState, quiescent}
use fleet_router.Session.Judge.{Forward}
use fleet_router.Session.Lockstep.{
  Sim, new_sim, deliver, read_frame, on_read, Event, sends, reads, fails, acks, asks, grows, forks,
  step, run,
}
use fleet_router.Session.Lockstep.Node.{Kind, Frame, Upstream, is_eosio2}
use fleet_router.Session.Lockstep.Quiet.{IsLinked, quiescent-empty}
use fleet_router.Session.Lockstep.Ledger.{
  IsBalanced, IsLockstep, IsPlan, send-IsLockstep, ack-IsLockstep, failover-IsLockstep,
  new_request-IsLockstep, advance-IsLockstep, fork-IsLockstep,
}
use fleet_router.Session.Lockstep.Reading.{frame-IsLockstep, deliver-credited}

-- The numbers of an event fit their fields, and an archive that is planned has a block.
abbrev pub IsEvent : Event → Type 0
IsEvent (reads kind end now) = IsPlan kind end
IsEvent (fails kind end now) = IsPlan kind end
IsEvent (asks r kind end now) = IsPlan kind end × (r.max_in_flight ≤ u32_max)
IsEvent sends = Unit {0}
IsEvent (acks n) = Unit {0}
IsEvent (grows n) = Unit {0}
IsEvent (forks from seed) = Unit {0}

read-IsLockstep :
    (s : Sim) (kind : Kind) (end now : ℕ)
    → IsPlan kind end
    → IsLockstep s
    → IsLockstep (on_read s kind end now)
unfolding on_read
read-IsLockstep s kind end now plan k = on_link s.link k.balanced
  where
    on_asked :
        (creq : BlocksRequest) (st : LinkState) (up : Upstream) (req : Option LinkReq)
        → req ≡ st.req
        → (lr : LinkReq) × IsLinked s.chain st up lr × (up.credit + length up.wire ≡ s.c.credit)
        → IsLockstep
            (elim req [ none ↦ s | some lr ↦ read_frame up.wire s creq lr st up kind end now ])
    on_asked creq st up none e b = k
    on_asked creq st up (some lr') e (lr, l, b) =
        let same : lr ≡ lr' = cc (e, l.asked) in
        frame-IsLockstep s creq lr' st up up.wire kind end now plan k
          (subst (IsLinked s.chain st up) same l) b refl

    on_client :
        (creq : Option BlocksRequest) (st : LinkState) (up : Upstream)
        → (lr : LinkReq) × IsLinked s.chain st up lr × (up.credit + length up.wire ≡ s.c.credit)
        → IsLockstep (elim creq [
          | none ↦ s
          | some creq ↦ elim st.req [
            | none ↦ s
            | some lr ↦ read_frame up.wire s creq lr st up kind end now
          ]
        ])
    on_client none st up b = k
    on_client (some creq) st up b = on_asked creq st up st.req refl b

    on_link :
        (link : Option (LinkState × Upstream))
        → IsBalanced s.chain s.c.credit link
        → IsLockstep (elim link [
          | none ↦ s
          | some (st, up) ↦ elim s.c.req [
            | none ↦ s
            | some creq ↦ elim st.req [
              | none ↦ s
              | some lr ↦ read_frame up.wire s creq lr st up kind end now
            ]
          ]
        ])
    on_link none b = k
    on_link (some (st, up)) b = on_client s.c.req st up b

step-IsLockstep : (e : Event) (s : Sim) → IsEvent e → IsLockstep s → IsLockstep (step e s)
unfolding step
step-IsLockstep sends s h k = send-IsLockstep s k
step-IsLockstep (reads kind end now) s h k = read-IsLockstep s kind end now h k
step-IsLockstep (fails kind end now) s h k = failover-IsLockstep s kind end now h k
step-IsLockstep (acks n) s h k = ack-IsLockstep s n k
step-IsLockstep (asks r kind end now) s h k = new_request-IsLockstep s r kind end now h.0 h.1 k
step-IsLockstep (grows n) s h k = advance-IsLockstep s n k
step-IsLockstep (forks from seed) s h k = fork-IsLockstep s from seed k

run_keeps : (es : List Event) (s : Sim) → All IsEvent es → IsLockstep s → IsLockstep (run es s)
unfolding run
run_keeps [] s h k = k
run_keeps (e ∷ es) s h k = run_keeps es (step e s) h.1 (step-IsLockstep e s h.0 k)

new_sim-IsLockstep : IsLockstep new_sim
new_sim-IsLockstep = record {
  chain_is = record { behind = omega arith; high = omega arith };
  mirror = record {
    credit_fits = omega arith;
    ring = record { ascending = tt; within = omega arith };
    lib_within = tt;
    irreversible = tt;
  };
  window_is = refl;
  balanced = tt;
}

-- After any sequence of results sent and read, acks, requests, failovers, forks and chain growth:
-- the credit that the router keeps is the client's window, the upstream's credit with the results
-- on its wire is that credit, what is on the wire follows the router's cursor for the upstream,
-- and the mirror's invariant holds.
pub run-IsLockstep : (es : List Event) → All IsEvent es → IsLockstep (run es new_sim)
run-IsLockstep es h = run_keeps es new_sim h new_sim-IsLockstep

module _ (es : List Event) (h : All IsEvent es) (st : LinkState) (up : Upstream)
    (link : (run es new_sim).link ≡ some (st, up)) where
  abbrev after : Sim
  after = run es new_sim

  linked : IsBalanced after.chain after.c.credit (some (st, up))
  linked = subst (IsBalanced after.chain after.c.credit) link (run-IsLockstep es h).balanced

  -- After any such sequence, a result that is read off the wire and forwarded never finds the
  -- client's window shut.
  pub run-credited :
      (f : Frame) (fs : List Frame) (head : ResultHead) (fw : Forward)
      → up.wire ≡ f ∷ fs
      → (0 < after.window) × ((deliver after st (record up { wire = fs }) head fw).1 ≡ false)
  run-credited f fs head fw e =
      let k = run-IsLockstep es h in
      let (lr, l, b) = linked in
      (
        omega (arith, ap (length {0}) e, k.window_is),
        deliver-credited after st up lr f fs k l e b head fw,
      )

  -- After any such sequence, a link that is found quiet, and so takes a new request on the same
  -- socket, has no result of the old request on its wire.
  pub run-quiet : quiescent st after.c.credit (is_eosio2 up.kind) ≡ true → up.wire ≡ []
  run-quiet q = let (lr, l, b) = linked in quiescent-empty after.chain st up lr after.c.credit l b q
