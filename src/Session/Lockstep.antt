-- ===== src/Session/Lockstep.antt =====
-- src/session/lockstep.rs: simulated upstreams, with the send rules of the nodes that the router
-- meets, behind the helpers that the session actor uses. What the test draws at random is part of
-- an event here, so that a run is a list of events in any order. Of the client only its window is
-- kept. Where the test panics because an upstream was blamed, the link ends as in a session.
pub mod Node
pub mod Follows
pub mod Quiet
pub mod Links
pub mod Requests
pub mod Ledger
pub mod Reading
pub mod Runs
mod Tests
use fleet_router.Prelude.{
  ℕ, ◌+◌, ◌-◌, ◌%◌, ◌^◌, ◌≤◌, min, Bool, true, false, not, ◌&&◌, ◌||◌, List, [], ◌∷◌, ◌++◌, Option,
  none, some, leb, ltb, ◌==◌, if◌then◌else◌, is_some, is_some_and,
}
use fleet_router.Prelude.Words.{saturating_add}
use fleet_router.Ship.{BlockPos}
use fleet_router.Wire.{BlocksRequest, ResultHead}
use fleet_router.Models.{Role, live, frozen, Topology, pool}
use fleet_router.Session.Mirror.{
  ClientSide, fresh_client, ack, new_request, charge, in_progress, head_lib_for,
}
use fleet_router.Session.Link.{
  LinkReq, LinkState, UpCursor, exact, Purpose, initial, handoff, failover_resume, Target, new_link,
  quiescent, build_request,
}
use fleet_router.Session.Judge.{
  Lacks, nothing, Forward, Judgement, forward, duplicate, end_link, judge, commit,
}
use fleet_router.Session.Lockstep.Node.{
  Chain, pos, Kind, kind_role, kind_ids_begin, same_kind, is_eosio2, Frame, Upstream, new_upstream,
  request, send, rewind,
}

pub record Sim : Type 0 where
  pub chain : Chain
  pub c : ClientSide
  pub window : ℕ
  pub link : Option (LinkState × Upstream)

-- `Sim::new`.
abbrev pub new_sim : Sim
new_sim = record {
  chain = record { head = 1500; lib = 1490; forks = [] };
  c = fresh_client;
  window = 0;
  link = none;
}

-- A message that is sent at once: the request reaches the upstream.
unfoldable pub send_request :
    Sim → BlocksRequest → LinkState → Upstream → ℕ → Purpose → ℕ → LinkState × Upstream
send_request s creq st up end purpose now =
    let target : Target = record { topology = pool; ids_begin = some (kind_ids_begin up.kind) } in
    let (st', req) = build_request s.c creq st end purpose target now in
    (st', request up req s.chain)

unfoldable pub open_link : Sim → BlocksRequest → Kind → ℕ → Purpose → ℕ → Sim
open_link s creq kind end purpose now =
    let up = new_upstream kind in
    record s {
      link = some (send_request s creq (new_link 0 (kind_role kind) now) up end purpose now);
    }

-- The current link can take the request: it is of the kind that is planned, and quiet.
unfoldable pub reusable : LinkState → Upstream → Kind → ℕ → Bool
reusable st up kind pre = same_kind up.kind kind && quiescent st pre (is_eosio2 up.kind)

unfoldable pub on_new_request : Sim → BlocksRequest → Kind → ℕ → ℕ → Sim
on_new_request s r kind end now =
    let (c', pre) = new_request s.c r in
    let s' = record s { c = c'; window = r.max_in_flight } in
    let fresh = open_link s' r kind end initial now in
    elim s.link [
      | none ↦ fresh
      | some (st, up) ↦
          let quiet = record st { resume_floor = none } in
          if reusable quiet up kind pre
          then record s' { link = some (send_request s' r quiet up end initial now) }
          else fresh
    ]

unfoldable pub on_ack : Sim → ℕ → Sim
on_ack s n =
    let (c', raised) = ack s.c n in
    record s {
      c = c';
      window = saturating_add s.window n;
      link = elim s.link [
        | none ↦ none
        | some (st, up) ↦ some (
          st,
          if is_some st.req then record up { credit = (up.credit + raised) % 2 ^ 32 } else up,
        )
      ];
    }

-- The link is gone: resume on a new one, if the client is still owed blocks.
unfoldable pub resume : Sim → Kind → ℕ → ℕ → Sim
resume s kind end now =
    let gone = record s { link = none } in
    elim s.c.req [
      | none ↦ gone
      | some creq ↦
          if in_progress s.c then open_link gone creq kind end failover_resume now else gone
    ]

unfoldable pub on_failover : Sim → Kind → ℕ → ℕ → Sim
on_failover s kind end now = elim s.link [ none ↦ s | some (st, up) ↦ resume s kind end now ]

unfoldable pub on_advance : Sim → ℕ → Sim
on_advance s n =
    let head = s.chain.head + n in
    record s {
      chain = record s.chain { head = head; lib = head - 10 };
      link = elim s.link [
        | none ↦ none
        | some (st, up) ↦
            some (st, if is_some up.req then record up { keepalive_due = true } else up)
      ];
    }

-- The blocks from `from` on, above the LIB, get other ids.
unfoldable pub on_fork : Sim → ℕ → ℕ → Sim
on_fork s from seed =
    if ltb s.chain.lib from && leb from s.chain.head
    then record s {
      chain = record s.chain { forks = s.chain.forks ++ (from, seed) ∷ [] };
      link = elim s.link [ none ↦ none | some (st, up) ↦ some (st, rewind up from) ];
    }
    else s

unfoldable pub on_send : Sim → Sim
on_send s = record s {
  link = elim s.link [ none ↦ none | some (st, up) ↦ some (st, (send up s.chain).0) ];
}

-- A result that is forwarded: charged, its head and LIB noted, and committed. Also returns whether
-- the client had no credit left for it.
unfoldable pub deliver : Sim → LinkState → Upstream → ResultHead → Forward → Sim × Bool
deliver s st up h fw =
    let (c1, overrun) = charge s.c in
    let tip = some (pos s.chain s.chain.head, pos s.chain s.chain.lib) in
    let (c2, _) = head_lib_for c1 st.role h.head h.lib tip true in
    let (c3, st') = commit c2 st h fw in
    (record s { c = c3; window = s.window - 1; link = some (st', up) }, overrun)

-- At a clamped end the session hands off to the next leg's upstream.
unfoldable pub hand_off : Sim → BlocksRequest → LinkReq → Kind → ℕ → ℕ → Sim
hand_off s creq lr kind end now =
    if in_progress s.c && lr.clamped && leb lr.end s.c.cursor
    then open_link (record s { link = none }) creq kind end handoff now
    else s

unfoldable pub on_judged :
    Judgement
    → Sim
    → BlocksRequest
    → LinkReq
    → LinkState
    → Upstream
    → ResultHead
    → Kind
    → ℕ
    → ℕ
    → Sim
on_judged (end_link e) s creq lr st up h kind end now = resume s kind end now
on_judged (duplicate none) s creq lr st up h kind end now = record s {
  link = some (st, record up { credit = (up.credit + 1) % 2 ^ 32 });
}
on_judged (duplicate (some next)) s creq lr st up h kind end now = record s {
  link =
      some (record st { up_cursor = exact next }, record up { credit = (up.credit + 1) % 2 ^ 32 });
}
on_judged (forward fw) s creq lr st up h kind end now =
    hand_off (deliver s st up h fw).0 creq lr kind end now

-- The judgement of the simulation: nothing is missing, and any block has an alternative.
unfoldable pub sim_judge : ClientSide → LinkState → BlocksRequest → LinkReq → ResultHead → Judgement
sim_judge c st creq lr h = judge c st creq lr h (λ n. nothing) (λ k. true)

pub read_frame :
    List Frame → Sim → BlocksRequest → LinkReq → LinkState → Upstream → Kind → ℕ → ℕ → Sim
read_frame [] s creq lr st up kind end now = s
read_frame (f ∷ wire) s creq lr st up kind end now =
    on_judged (sim_judge s.c st creq lr f.h) s creq lr st (record up { wire = wire }) f.h kind end
      now

-- The router reads one result off the wire, while there is a request.
unfoldable pub on_read : Sim → Kind → ℕ → ℕ → Sim
unfolding read_frame
on_read s kind end now = elim s.link [
  | none ↦ s
  | some (st, up) ↦ elim s.c.req [
    | none ↦ s
    | some creq ↦ elim st.req [
      | none ↦ s
      | some lr ↦ read_frame up.wire s creq lr st up kind end now
    ]
  ]
]

-- What happens next; `kind` and `end` say where a new link goes, if one is opened.
pub data Event : Type 0 where
  sends : Event
  reads fails : (kind : Kind) (end now : ℕ) → Event
  acks : (n : ℕ) → Event
  asks : (r : BlocksRequest) (kind : Kind) (end now : ℕ) → Event
  grows : (n : ℕ) → Event
  forks : (from seed : ℕ) → Event

unfoldable pub step : Event → Sim → Sim
step sends s = on_send s
step (reads kind end now) s = on_read s kind end now
step (fails kind end now) s = on_failover s kind end now
step (acks n) s = on_ack s n
step (asks r kind end now) s = on_new_request s r kind end now
step (grows n) s = on_advance s n
step (forks from seed) s = on_fork s from seed

unfoldable pub run : List Event → Sim → Sim
run [] s = s
run (e ∷ es) s = run es (step e s)
