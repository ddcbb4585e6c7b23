-- ===== src/Session/Link.antt =====
-- src/session/link.rs: the part of a link that holds no socket, the requests that are built from
-- it, and whether the link may take a new request or still owes blocks. Instants are numbers of
-- nanoseconds, and the transport activity is in milliseconds.
pub mod Laws
use fleet_router.Prelude.{
  ℕ, ◌+◌, ◌≤◌, min, Bool, true, false, not, ◌&&◌, ◌||◌, List, [], ◌∷◌, map, Option, none, some, leb,
  ltb, ◌==◌, if◌then◌else◌, is_some, is_some_and, is_nil, unwrap_or, filter,
}
use mathlib.Core.Option
use fleet_router.Ship.{BlockPos}
use fleet_router.Wire.{BlocksRequest}
use fleet_router.Models.{Role, live, frozen, is_frozen, Topology, pool, stitched}
use fleet_router.Fleet.Upstream.{least}
use fleet_router.Session.Ring.{reversible_tail}
use fleet_router.Session.Mirror.{ClientSide, resume_positions}
use fleet_router.Session.Failover.{UpEnd, clean, unclean}

pub data UpCursor : Type 0 where
  exact : ℕ → UpCursor
  uncertain : (lo hi : ℕ) → UpCursor

pub data Purpose : Type 0 where
  initial handoff failover_resume reroute : Purpose

unfoldable pub resumes : Purpose → Bool
resumes initial = false
resumes handoff = true
resumes failover_resume = true
resumes reroute = false

abbrev pub is_failover : Purpose → Bool
is_failover failover_resume = true
is_failover initial = false
is_failover handoff = false
is_failover reroute = false

pub record LinkReq : Type 0 where
  pub start : ℕ
  pub end : ℕ
  pub clamped : Bool
  pub irreversible_only : Bool
  pub purpose : Purpose
  pub sent_at : ℕ

pub record BlocklessCheck : Type 0 where
  pub generation : ℕ
  pub until : ℕ
  pub next : ℕ

-- Whether to ask again.
unfoldable pub due : BlocklessCheck → ℕ → ℕ → ℕ → Bool
due b generation cursor now =
    not (generation == b.generation) || leb b.until cursor || leb b.next now

pub record LinkState : Type 0 where
  pub up : ℕ
  pub role : Role
  pub req : Option LinkReq
  pub up_cursor : UpCursor
  pub first_result_pending : Bool
  pub resume_floor : Option ℕ
  pub expect_ids_from : ℕ
  pub keepalives_seen : ℕ
  pub last_head : Option BlockPos
  pub last_lib : Option BlockPos
  pub close_code : Option ℕ
  pub unknown_forwarded_at : Option ℕ
  pub became_owed_at : ℕ
  pub was_owed : Bool
  pub stall_recheck : Option ℕ
  pub stall_kept : Option ℕ
  pub frames : ℕ
  pub linger_until : Option ℕ
  pub ping_at : Option ℕ
  pub probe_until : Option ℕ
  pub data_ms : ℕ
  pub pong_ms : Option ℕ
  pub upstream_online : Bool
  pub blockless_checked : Option BlocklessCheck

-- `LinkState::new`.
unfoldable pub new_link : ℕ → Role → ℕ → LinkState
new_link up role now = record {
  up = up;
  role = role;
  req = none;
  up_cursor = exact 0;
  first_result_pending = false;
  resume_floor = none;
  expect_ids_from = 0;
  keepalives_seen = 0;
  last_head = none;
  last_lib = none;
  close_code = none;
  unknown_forwarded_at = none;
  became_owed_at = now;
  was_owed = false;
  stall_recheck = none;
  stall_kept = none;
  frames = 0;
  linger_until = none;
  ping_at = none;
  probe_until = none;
  data_ms = 0;
  pong_ms = none;
  upstream_online = false;
  blockless_checked = none;
}

-- A frame was read, when the transport was last active at `read_ms`.
unfoldable pub note_frame : LinkState → ℕ → Bool → LinkState
note_frame st read_ms liveness_pong =
    if liveness_pong
    then record st { ping_at = none; probe_until = none; pong_ms = some read_ms }
    else record st { ping_at = none; probe_until = none; data_ms = read_ms; pong_ms = none }

unfoldable pub data_activity_ms : LinkState → ℕ → ℕ
data_activity_ms st read_ms =
    if is_some_and (λ ms. ms == read_ms) st.pong_ms then st.data_ms else read_ms

reached : UpCursor → ℕ → Bool
reached (exact u) end = leb end u
reached (uncertain lo hi) end = false

-- Nothing is left to send of the link's request, if there is one.
unfoldable pub leg_done : LinkState → Bool
unfolding reached
leg_done st = elim st.req [ none ↦ true | some req ↦ reached st.up_cursor req.end ]

unfoldable pub end_kind : LinkState → UpEnd
end_kind st = elim st.close_code [ none ↦ unclean | some code ↦ clean code ]

settled_role : Role → LinkState → LinkReq → Bool → Bool
settled_role frozen st req legacy_status = true
settled_role live st req legacy_status =
    is_some_and (λ (lib : BlockPos). leb req.end (lib.num + 1)) st.last_lib
    && st.keepalives_seen == 0
    && not legacy_status

-- Nothing of the link's request can arrive any more, whatever credit the client adds.
unfoldable pub settled : LinkState → Bool → Bool
unfolding reached settled_role
settled st legacy_status = elim st.req [
  | none ↦ true
  | some req ↦ reached st.up_cursor req.end && settled_role st.role st req legacy_status
]

-- Nothing of the old request can arrive, for the client's credit before a new one.
unfoldable pub quiescent : LinkState → ℕ → Bool → Bool
unfolding settled
quiescent st pre_credit legacy_status = pre_credit == 0 || settled st legacy_status

-- An uncertain cursor is judged at its upper bound.
unfoldable pub upper : UpCursor → ℕ
upper (exact u) = u
upper (uncertain lo hi) = hi

owed_role : Role → LinkState → Bool → ℕ → Option ℕ → Bool
owed_role frozen st irreversible_only u fleet_gate = true
owed_role live st irreversible_only u fleet_gate =
    is_some_and (λ (g : BlockPos). leb u g.num)
      (if irreversible_only then st.last_lib else st.last_head)
    || is_some_and (λ g. leb u g) fleet_gate

-- The link owes the client blocks; `fleet_gate` gives the fleet's LIB or head.
unfoldable pub owed : LinkState → ℕ → (Bool → Option ℕ) → Bool
unfolding upper owed_role
owed st credit fleet_gate = elim st.req [
  | none ↦ false
  | some req ↦
      not (credit == 0)
      && ltb (upper st.up_cursor) req.end
      && owed_role st.role st req.irreversible_only (upper st.up_cursor)
          (fleet_gate req.irreversible_only)
]

pub record Target : Type 0 where
  pub topology : Topology
  pub ids_begin : Option ℕ

-- The client's own positions, as they are or those that the upstream can know.
client_positions : Topology → BlocksRequest → ℕ → Option ℕ → List BlockPos
client_positions pool creq start ids_begin = creq.have_positions
client_positions stitched creq start ids_begin =
    filter (λ (p : BlockPos). ltb p.num start && is_some_and (λ b. leb b p.num) ids_begin)
      creq.have_positions

-- The `have_positions` that are sent upstream.
unfoldable pub positions_for : ClientSide → BlocksRequest → Role → Bool → ℕ → Target → List BlockPos
unfolding client_positions
positions_for c creq frozen fresh start target = []
positions_for c creq live true start target =
    client_positions target.topology creq start target.ids_begin
positions_for c creq live false start target =
    if creq.irreversible_only
    then []
    else reversible_tail c.delivered (unwrap_or 0 (Option.map (λ (l : BlockPos). l.num) c.lib_sent))
        c.cursor resume_positions

-- The cursor of an upstream that is sent `positions` with `start`.
unfoldable pub cursor_after : List BlockPos → ℕ → UpCursor
cursor_after positions start =
    elim (least (filter (λ n. ltb n start) (map (λ (p : BlockPos). p.num) positions))) [
      | none ↦ exact start
      | some lo ↦ uncertain lo start
    ]

abbrev pub is_fresh_request : ClientSide → Bool
is_fresh_request c = c.delivered_for_request == 0

unfoldable pub start_for : ClientSide → BlocksRequest → ℕ
start_for c creq = if is_fresh_request c then creq.start else c.cursor

unfoldable pub ids_expected : Role → Option ℕ → ℕ
ids_expected frozen ids_begin = unwrap_or 0 ids_begin
ids_expected live ids_begin = 0

-- The request, after the link's state with the request recorded in it.
unfoldable pub build_request :
    ClientSide → BlocksRequest → LinkState → ℕ → Purpose → Target → ℕ → LinkState × BlocksRequest
unfolding start_for cursor_after ids_expected
build_request c creq st end purpose target now =
    let fresh = is_fresh_request c in
    let start = start_for c creq in
    let have_positions = positions_for c creq st.role fresh start target in
    (
      record st {
        req = some (record {
          start = start;
          end = end;
          clamped = ltb end creq.end;
          irreversible_only = creq.irreversible_only;
          purpose = purpose;
          sent_at = now;
        });
        up_cursor = cursor_after have_positions start;
        resume_floor =
            if not fresh && (is_failover purpose || not (is_nil have_positions))
            then some c.cursor
            else none;
        expect_ids_from = ids_expected st.role target.ids_begin;
        first_result_pending = true;
        became_owed_at = now;
        linger_until = none;
        blockless_checked = none;
      },
      record {
        v1 = creq.v1;
        start = start;
        end = end;
        max_in_flight = c.credit;
        have_positions = have_positions;
        irreversible_only = creq.irreversible_only;
        fetch_block = creq.fetch_block;
        fetch_traces = creq.fetch_traces;
        fetch_deltas = creq.fetch_deltas;
        fetch_finality_data = creq.fetch_finality_data;
      },
    )
