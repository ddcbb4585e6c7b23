-- ===== src/Session/Lockstep/Tests.antt =====
-- A client that asks a node at the head of the chain for ten blocks, with two of them on the wire.
use fleet_router.Prelude.{
  ◌<◌, ◌≡◌, refl, inl, false, true, List, [], ◌∷◌, some, arith, unwrap_or, is_some, All, drop,
}
use fleet_router.Wire.{BlocksRequest}
use fleet_router.Models.{live}
use fleet_router.Session.Mirror.{new_request}
use fleet_router.Session.Link.{
  LinkState, LinkReq, exact, initial, new_link, build_request, positions_for, quiescent,
}
use fleet_router.Session.Judge.{Forward, block, gate, classify_result}
use fleet_router.Session.Lockstep.{
  Event, asks, sends, new_sim, run, step, on_new_request, on_send, open_link, send_request, deliver,
}
use fleet_router.Session.Lockstep.Node.{
  Frame, Upstream, spring, new_upstream, request, send, rewound_start, first_start, kind_role,
  kind_ids_begin, kind_tip, block_frame, may_send, knows, pos, is_eosio2,
}
use fleet_router.Session.Lockstep.Follows.{Sent, classify_result-exact}
use fleet_router.Session.Lockstep.Runs.{IsEvent, run-IsLockstep, run-credited, run-quiet}
use fleet_router.Session.Lockstep.Ledger.{IsLockstep}

abbrev asked : BlocksRequest
asked = record {
  v1 = false;
  start = 1300;
  end = 1310;
  max_in_flight = 5;
  have_positions = [];
  irreversible_only = false;
  fetch_block = true;
  fetch_traces = true;
  fetch_deltas = false;
  fetch_finality_data = false;
}

abbrev events : List Event
events = asks asked (spring 0) 1310 0 ∷ sends ∷ sends ∷ []

abbrev there : LinkState × Upstream
there = unwrap_or (new_link 0 live 0, new_upstream (spring 0)) (run events new_sim).link

events-IsEvent : All IsEvent events
events-IsEvent = (((tt, omega arith), omega arith), (tt, (tt, tt)))

run-IsLockstep_example : IsLockstep (run events new_sim)
run-IsLockstep_example = run-IsLockstep events events-IsEvent

there_is : (run events new_sim).link ≡ some there
unfolding run step on_new_request on_send open_link send_request
there_is = refl

-- The block 1300, sent at the node's cursor.
abbrev wire : List Frame
wire = there.1.wire

abbrev sent : Frame
sent = block_frame (request (new_upstream (spring 0)) asked new_sim.chain) new_sim.chain

abbrev forwarded : Forward
forwarded = record {
  cls = record { n = some 1300; advance = true; kind = block };
  fork = false;
  jump = false;
  discontinuity = false;
  variant_mismatch = false;
  no_block = false;
}

wire_is : there.1.wire ≡ sent ∷ drop 1 there.1.wire
unfolding run step on_new_request on_send open_link send_request build_request send request
    block_frame new_request may_send first_start new_upstream rewound_start positions_for new_link
    kind_role kind_tip
wire_is = refl

run-credited_example :
    (0 < (run events new_sim).window)
    × ((deliver
          (run events new_sim)
          there.0
          (record there.1 { wire = drop 1 there.1.wire })
          sent.h
          forwarded).1
        ≡ false)
run-credited_example =
    run-credited events events-IsEvent there.0 there.1 there_is sent (drop 1 there.1.wire) sent.h
      forwarded wire_is

abbrev lr : LinkReq
lr = record {
  start = 1300;
  end = 1310;
  clamped = false;
  irreversible_only = false;
  purpose = initial;
  sent_at = 0;
}

sent_is : Sent (spring 0) lr 1300 sent
unfolding block_frame request first_start new_upstream rewound_start gate pos kind_tip knows
    kind_ids_begin
sent_is = inl (record {
  from = refl;
  under_gate = omega arith;
  below_end = omega arith;
  ids = inl (pos new_sim.chain 1300, refl, refl);
})

classify_result-exact_example :
    ((classify_result sent.h (exact 1300) lr).n ≡ sent.advanced_from)
    × ((classify_result sent.h (exact 1300) lr).advance ≡ is_some sent.advanced_from)
classify_result-exact_example =
    classify_result-exact (spring 0) lr 1490 1300 1300 sent (inl refl) sent_is

-- Before anything is sent, with no credit left, the link is quiet.
abbrev shut : List Event
shut = asks (record asked { max_in_flight = 0 }) (spring 0) 1310 0 ∷ sends ∷ []

abbrev idle : LinkState × Upstream
idle = unwrap_or (new_link 0 live 0, new_upstream (spring 0)) (run shut new_sim).link

idle_is : (run shut new_sim).link ≡ some idle
unfolding run step on_new_request on_send open_link send_request
idle_is = refl

idle_quiet : quiescent idle.0 (run shut new_sim).c.credit (is_eosio2 idle.1.kind) ≡ true
unfolding run step on_new_request on_send open_link send_request build_request send request
    quiescent is_eosio2 new_request
idle_quiet = refl

run-quiet_example : idle.1.wire ≡ []
run-quiet_example =
    run-quiet shut (((tt, omega arith), omega arith), (tt, tt)) idle.0 idle.1 idle_is idle_quiet
