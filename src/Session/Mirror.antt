-- ===== src/Session/Mirror.antt =====
-- src/session/client.rs: `ClientSide`, the mirror of what one node would hold for the client, with
-- the head, the LIB and the blocks that the client was already sent. A method that changes the
-- mirror returns the new one, before its result.
pub mod Laws
use fleet_router.Prelude.{
  ℕ, ◌+◌, ◌-◌, ◌≤◌, min, max, Bool, true, false, not, ◌&&◌, ◌||◌, List, [], Option, none, some, leb,
  ltb, if◌then◌else◌, any, is_some_and, text_eq, ◌==◌,
}
use mathlib.Core.Option
use fleet_router.Prelude.Words.{u32_max, u64_mod, saturating_add}
use fleet_router.Ship.{BlockPos}
use fleet_router.Wire.{BlocksRequest}
use fleet_router.Models.{Role, live, frozen}
use fleet_router.Session.Ring.{truncate_from, get}

abbrev pub resume_positions : ℕ
resume_positions = 1024

pub record ClientSide : Type 0 where
  pub req : Option BlocksRequest
  pub credit : ℕ
  pub cursor : ℕ
  pub delivered_for_request : ℕ
  pub head_sent : Option BlockPos
  pub lib_sent : Option BlockPos
  pub delivered : List BlockPos
  pub irr_hwm : Option ℕ
  pub last : Option BlockPos
  pub abi_fp : ℕ

-- `ClientSide::default()`.
abbrev pub fresh_client : ClientSide
fresh_client = record {
  req = none;
  credit = 0;
  cursor = 0;
  delivered_for_request = 0;
  head_sent = none;
  lib_sent = none;
  delivered = [];
  irr_hwm = none;
  last = none;
  abi_fp = 0;
}

unfoldable pub ack : ClientSide → ℕ → ClientSide × ℕ
ack c n = let after = saturating_add c.credit n in (record c { credit = after }, after - c.credit)

-- Also returns the credit before the request.
unfoldable pub new_request : ClientSide → BlocksRequest → ClientSide × ℕ
new_request c r = (
  record c {
    credit = r.max_in_flight;
    cursor = r.start;
    delivered_for_request = 0;
    delivered = truncate_from c.delivered r.start;
    req = some r;
  },
  c.credit,
)

-- Also returns whether there was no credit left.
unfoldable pub charge : ClientSide → ClientSide × Bool
charge c = if leb 1 c.credit then (record c { credit = c.credit - 1 }, false) else (c, true)

unfoldable pub last_irreversible : ClientSide → Option BlockPos
last_irreversible c = elim c.last [
  | none ↦ none
  | some last ↦ if is_some_and (λ w. leb last.num w) c.irr_hwm then some last else none
]

unfoldable pub request_is_empty : BlocksRequest → Bool
request_is_empty r =
    leb r.end r.start
    && not (any (λ (p : BlockPos). ltb p.num (min r.start r.end)) r.have_positions)

unfoldable pub in_progress : ClientSide → Bool
in_progress c = is_some_and (λ r. not (request_is_empty r) && ltb c.cursor r.end) c.req

-- The cases of a result with an id: the id delivered for the block, if it is remembered.
is_dup_of : Option (List ℕ) → BlockPos → Option ℕ → ℕ → Bool
is_dup_of (some id) p irr_hwm n = text_eq id p.id
is_dup_of none p irr_hwm n = is_some_and (λ w. leb n w) irr_hwm

unfoldable pub is_dup : ClientSide → ℕ → Option BlockPos → Bool
unfolding is_dup_of
is_dup c n none = true
is_dup c n (some p) = is_dup_of (get c.delivered n) p c.irr_hwm n

unfoldable pub mono : BlockPos → Option BlockPos → BlockPos
mono x none = x
mono x (some s) = if ltb x.num s.num then s else x

pub pos_eq : BlockPos → BlockPos → Bool
pos_eq a b = a.num == b.num && text_eq a.id b.id

-- A frozen frame's head and LIB are the fleet's, if it is known.
unfoldable pub base_tip :
    Role → BlockPos → BlockPos → Option (BlockPos × BlockPos) → BlockPos × BlockPos
base_tip live head lib fleet = (head, lib)
base_tip frozen head lib none = (head, lib)
base_tip frozen head lib (some tip) = tip

-- What the client is to see, by what it was sent before.
unfoldable pub tip_for : ClientSide → BlockPos × BlockPos → BlockPos × BlockPos
unfolding mono
tip_for c (head, lib) =
    let h = mono head c.head_sent in
    let l = mono lib c.lib_sent in (h, if ltb h.num l.num then h else l)

unfoldable pub head_lib_for :
    ClientSide
    → Role
    → BlockPos
    → BlockPos
    → Option (BlockPos × BlockPos)
    → Bool
    → ClientSide × Option (BlockPos × BlockPos)
unfolding base_tip tip_for
head_lib_for c role head lib fleet patch =
    let (h, l) = tip_for c (base_tip role head lib fleet) in
    (
      record c { head_sent = some h; lib_sent = some l },
      if patch && (not (pos_eq h head) || not (pos_eq l lib)) then some (h, l) else none,
    )
