-- ===== src/Lib.antt =====
-- A verification library for fleet-router, a proxy that presents a fleet of Antelope SHiP nodes
-- as one node. It models the parts that decide where a session reads its blocks and what the
-- router says to its peers, as executable functions on values.
--
-- The program. Monitors write one `ServerState` per upstream (src/models.rs). A hub builds a
-- `FleetView` from those states (src/fleet/view.rs), and each session asks the planner
-- (src/fleet/planner.rs) which upstream serves its next blocks and up to where. What a session
-- reads and writes on its links goes through the SHiP codec (src/ship/wire.rs). A session keeps
-- what one node would hold for its client (src/session/client.rs) and what its link was asked
-- (src/session/link.rs); each result is classified and judged, its frame completed and patched
-- (src/session/mod.rs), and then committed to both. Beside it, the chain API (src/chain_api) sends
-- each HTTP request to the APIs of the fleet in an order that it plans, until one answers.
--
-- Where each part stands:
--   Ship                src/ship/mod.rs: `BlockPos`, `Range`
--   Abi                 src/abi.rs: `AbiEntry`, `fnv1a64`
--   Models              src/models.rs: roles, policies, `ServerState`
--   Models/Quarantine   src/models.rs: `record_block_failure` and the checks of exclusions
--   Wire                src/ship/wire.rs: the message types; Reader is `Reader`, Write the `put_*`
--                       functions, Request the requests of clients, Reply what upstreams send
--   Fleet/Upstream      src/fleet/view.rs: `UpstreamView`
--   Fleet/Coverage      src/fleet/view.rs: `merge`, `subtract`, `uncovered`, `coverage`
--   Fleet/View, Tip, Canonical, Sticky, Build
--                       src/fleet/view.rs: the view, the fleet tip, the canonical ABI, `build_view`;
--                       `observe` is `ObservedTip::observe` of src/fleet/mod.rs
--   Fleet/Segments      src/fleet/view.rs: `FleetView::segments`
--   Session/Failover    src/session/failover.rs: `classify`, `plan_same_block_failover`, the backoffs
--   Session/Mirror, Ring, Pending
--                       src/session/client.rs: `ClientSide`, `head_lib_for`, the ring of delivered
--                       blocks, the frames held during a failover
--   Session/Judge       src/session/client.rs: `classify_result`, `judge`, `commit`
--   Session/Link        src/session/link.rs: `LinkState` and its rules, `positions_for`,
--                       `build_request`
--   Session/Status      src/session/status.rs: `StatusFlow`, `router_status`
--   Session/Outgoing    src/session/mod.rs: `lacks`, `fill_prev_block`, `apply_head_lib` and what
--                       `forward_result` does to a frame
--   ChainApi/Route      src/chain_api/route.rs: `classify`, `serves_path`
--   ChainApi/View, Plan src/chain_api/pick.rs: `ApiView`, `plan_block`
--   ChainApi/Attempt    src/chain_api/pick.rs: `next_attempt`, `classify`, `keeps`, `settles`
--   ChainApi/Attempts   src/chain_api/mod.rs: the loop `attempts`
--   Session/Lockstep    src/session/lockstep.rs: simulated upstreams (Node) behind the session's
--                       helpers; an event is one action of the simulation, `run` takes a list of
--                       them, and the random choices are the events' arguments
--   Fleet/Request, Eligible, Run, Planner, Pool
--                       src/fleet/planner.rs: requests and steps, `eligible`, `run_end`, `next_step`
--                       and `serve_on`, `pool_rank`
-- The modules below each of these hold its proofs, and those named Tests run it on small data.
--
-- How state and operations correspond. A method that changes its receiver returns the new value,
-- next to its result where it has one. A map of upstreams is a list of pairs, a `Vec` a list, and a
-- hash map that is iterated is sorted first, as the code does. A session's counter shared between
-- threads is its value at the moment of the read; the code reads it once per ranking. A decoder is
-- a function of the reader that returns the value and the reader after it, or an error.
--
-- Bounds. Numbers are natural; what saturates, wraps or is checked in the code is written out in
-- Prelude/Words, and `usize` has 64 bits. Instants count nanoseconds, and the largest instant of
-- the platform is the argument `limit`; where an instant is only compared or noted it has no bound,
-- and so have the u64 counts of frames. The loops over varuint groups run on a count of bytes, 4
-- and 1 for 32 bits and 9 and 1 for 64, as the code's do; `put_varuint32` writes at most 5 groups,
-- which a u32 never exceeds. All other loops are structural.
--
-- Not modelled: sockets, timers and the tasks that own them; the dashboard, metrics, logs and their
-- counters; TLS and HTTP; the parsing of the configuration; the JSON form behind an ABI's
-- fingerprint. These are input and output or third-party code. The phases, timers and holds of the
-- session actor, and the chain API's orders for calls that are no block requests, remain to be done.
pub mod Prelude
pub mod Ship
pub mod Abi
pub mod Models
pub mod Wire
pub mod Fleet
pub mod Session
pub mod ChainApi
