-- ===== src/Session/Lockstep/Node.antt =====
-- src/session/lockstep.rs: the chain that the simulated upstreams follow, and their send rules.
use mathlib.Core.List.{reverse}
use fleet_router.Prelude.{
  ℕ, zero, suc, ◌+◌, ◌-◌, ◌/◌, ◌%◌, min, max, Bool, true, false, not, ◌&&◌, ◌||◌, List, [], ◌∷◌,
  ◌++◌, Option, none, some, leb, ltb, ◌==◌, if◌then◌else◌, find, text_eq,
}
use fleet_router.Ship.{BlockPos}
use fleet_router.Wire.{BlocksRequest, ResultHead}
use fleet_router.Models.{Role, live, frozen, is_live}

abbrev pub live_begin : ℕ
live_begin = 700

abbrev pub leap4_first : ℕ
leap4_first = 900

pub record Chain : Type 0 where
  pub head : ℕ
  pub lib : ℕ
  pub forks : List (ℕ × ℕ)

repeat_seed : ℕ → ℕ → List ℕ
repeat_seed zero seed = []
repeat_seed (suc n) seed = seed ∷ repeat_seed n seed

-- `to_be_bytes` of a u32.
be_bytes : ℕ → List ℕ
be_bytes n = (n / 16777216 % 256) ∷ (n / 65536 % 256) ∷ (n / 256 % 256) ∷ (n % 256) ∷ []

seed_at : Option (ℕ × ℕ) → ℕ
seed_at none = 0
seed_at (some (from, seed)) = seed

unfoldable pub chain_id : Chain → ℕ → List ℕ
unfolding repeat_seed be_bytes seed_at
chain_id chain n =
    be_bytes n ++ repeat_seed 28 (seed_at (find (λ (f : ℕ × ℕ). leb f.0 n) (reverse chain.forks)))

unfoldable pub pos : Chain → ℕ → BlockPos
pos chain n = record { num = n; id = chain_id chain n }

pub data Kind : Type 0 where
  spring eosio2 leap4 : (lag : ℕ) → Kind
  archive : (begin end : ℕ) → Kind

unfoldable pub kind_role : Kind → Role
kind_role (spring lag) = live
kind_role (eosio2 lag) = live
kind_role (leap4 lag) = live
kind_role (archive begin end) = frozen

unfoldable pub kind_ids_begin : Kind → ℕ
kind_ids_begin (spring lag) = live_begin
kind_ids_begin (eosio2 lag) = live_begin
kind_ids_begin (leap4 lag) = leap4_first
kind_ids_begin (archive begin end) = begin

-- Its own head and LIB numbers.
unfoldable pub kind_tip : Kind → Chain → ℕ × ℕ
kind_tip (spring lag) chain = (chain.head - lag, min chain.lib (chain.head - lag))
kind_tip (eosio2 lag) chain = (chain.head - lag, min chain.lib (chain.head - lag))
kind_tip (leap4 lag) chain = (chain.head - lag, min chain.lib (chain.head - lag))
kind_tip (archive begin end) chain = (end - 1, end - 1)

below_top : Kind → Chain → ℕ → Bool
below_top (archive begin end) chain n = ltb n end
below_top (spring lag) chain n = leb n (chain.head - lag)
below_top (eosio2 lag) chain n = leb n (chain.head - lag)
below_top (leap4 lag) chain n = leb n (chain.head - lag)

unfoldable pub knows : Kind → Chain → ℕ → Bool
unfolding below_top
knows kind chain n = leb (kind_ids_begin kind) n && below_top kind chain n

unfoldable pub is_eosio2 : Kind → Bool
is_eosio2 (eosio2 lag) = true
is_eosio2 (spring lag) = false
is_eosio2 (leap4 lag) = false
is_eosio2 (archive begin end) = false

-- Of one role, and the same range if they are archives.
unfoldable pub same_kind : Kind → Kind → Bool
unfolding kind_role
same_kind (archive b e) (archive begin end) = b == begin && e == end
same_kind (archive b e) (spring lag) = false
same_kind (archive b e) (eosio2 lag) = false
same_kind (archive b e) (leap4 lag) = false
same_kind (spring k) other = is_live (kind_role other)
same_kind (eosio2 k) other = is_live (kind_role other)
same_kind (leap4 k) other = is_live (kind_role other)

-- A result on the wire, and the block from which the upstream's cursor advanced when it sent it.
pub record Frame : Type 0 where
  pub h : ResultHead
  pub advanced_from : Option ℕ

pub record Upstream : Type 0 where
  pub kind : Kind
  pub req : Option (ℕ × Bool)
  pub cursor : ℕ
  pub credit : ℕ
  pub keepalive_due : Bool
  pub wire : List Frame

unfoldable pub new_upstream : Kind → Upstream
new_upstream kind = record {
  kind = kind;
  req = none;
  cursor = 0;
  credit = 0;
  keepalive_due = false;
  wire = [];
}

-- A position below the start whose id is unknown or different moves the start down to it.
unfoldable pub rewound_start : Kind → Chain → List BlockPos → ℕ → ℕ
rewound_start kind chain [] start = start
rewound_start kind chain (p ∷ ps) start = rewound_start kind chain ps (
    if ltb p.num start
      && (not (knows kind chain p.num) || not (text_eq (chain_id chain p.num) p.id))
    then p.num
    else start)

unfoldable pub first_start : Kind → ℕ → ℕ
first_start (leap4 lag) start = max start leap4_first
first_start (spring lag) start = start
first_start (eosio2 lag) start = start
first_start (archive begin end) start = start

unfoldable pub request : Upstream → BlocksRequest → Chain → Upstream
request up r chain = record up {
  cursor = first_start up.kind (rewound_start up.kind chain r.have_positions r.start);
  credit = r.max_in_flight;
  req = some (r.end, r.irreversible_only);
  keepalive_due = true;
}

-- The result that the upstream sends for its cursor.
unfoldable pub block_frame : Upstream → Chain → Frame
block_frame up chain =
    let n = up.cursor in
    let known = knows up.kind chain n in
    record {
      h = record {
        v1 = false;
        head = pos chain (kind_tip up.kind chain).0;
        lib = pos chain (kind_tip up.kind chain).1;
        this_block = if known then some (pos chain n) else none;
        prev_block = if known && ltb 1 n then some (pos chain (n - 1)) else none;
        fields_at = 0;
      };
      advanced_from = some n;
    }

unfoldable pub keepalive_frame : Upstream → Chain → Frame
keepalive_frame up chain = record {
  h = record {
    v1 = false;
    head = pos chain (kind_tip up.kind chain).0;
    lib = pos chain (kind_tip up.kind chain).1;
    this_block = none;
    prev_block = none;
    fields_at = 0;
  };
  advanced_from = none;
}

-- The send rule, for a request up to `end`.
unfoldable pub may_send : Upstream → Chain → ℕ → Bool → Bool
may_send up chain end irreversible_only =
    leb up.cursor
      (if irreversible_only then (kind_tip up.kind chain).1 else (kind_tip up.kind chain).0)
    && ltb up.cursor end

send_rule : Upstream → Chain → ℕ → Bool → Upstream × Bool
send_rule up chain end irreversible_only =
    if up.credit == 0
    then (up, false)
    else if may_send up chain end irreversible_only
    then (
      record up {
        wire = up.wire ++ block_frame up chain ∷ [];
        cursor = up.cursor + 1;
        credit = up.credit - 1;
        keepalive_due = false;
      },
      true,
    )
    else if is_eosio2 up.kind && up.keepalive_due
    then (
      record up {
        wire = up.wire ++ keepalive_frame up chain ∷ [];
        credit = up.credit - 1;
        keepalive_due = false;
      },
      true,
    )
    else (up, false)

-- One result, when the node's own rule allows it; whether it sent one.
unfoldable pub send : Upstream → Chain → Upstream × Bool
unfolding send_rule
send up chain = elim up.req [
  | none ↦ (up, false)
  | some (end, irreversible_only) ↦ send_rule up chain end irreversible_only
]

rewind_role : Role → Upstream → ℕ → Upstream
rewind_role frozen up from = up
rewind_role live up from = if ltb from up.cursor then record up { cursor = from } else up

-- A fork moves a live session that is past it back to its first block.
unfoldable pub rewind : Upstream → ℕ → Upstream
unfolding rewind_role
rewind up from = elim up.req [ none ↦ up | some r ↦ rewind_role (kind_role up.kind) up from ]
