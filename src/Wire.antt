-- ===== src/Wire.antt =====
-- src/ship/wire.rs: the SHiP messages that the router reads and writes. Bytes are numbers below
-- 256 and a message is the list of its bytes.
pub mod Reader
pub mod Write
pub mod Request
pub mod Reply
mod Tests
use fleet_router.Prelude.{ℕ, Bool, List, Option}
use fleet_router.Ship.{BlockPos, Range}

pub record BlocksRequest : Type 0 where
  pub v1 : Bool
  pub start : ℕ
  pub end : ℕ
  pub max_in_flight : ℕ
  pub have_positions : List BlockPos
  pub irreversible_only : Bool
  pub fetch_block : Bool
  pub fetch_traces : Bool
  pub fetch_deltas : Bool
  pub fetch_finality_data : Bool

pub data ClientMsg : Type 0 where
  status : (v1 : Bool) → ClientMsg
  blocks : BlocksRequest → ClientMsg
  ack : ℕ → ClientMsg

pub data DecodeError : Type 0 where
  empty bad_varint truncated : DecodeError
  bad_bool unknown_variant too_many_positions : ℕ → DecodeError

pub record ResultHead : Type 0 where
  pub v1 : Bool
  pub head : BlockPos
  pub lib : BlockPos
  pub this_block : Option BlockPos
  pub prev_block : Option BlockPos
  pub fields_at : ℕ

pub data UpstreamMsg : Type 0 where
  status : (v1 : Bool) → UpstreamMsg
  blocks : ResultHead → UpstreamMsg
  other : UpstreamMsg

pub record Presence : Type 0 where
  pub block : Bool
  pub traces : Bool
  pub deltas : Bool
  pub finality : Bool

pub record StatusBody : Type 0 where
  pub head : BlockPos
  pub lib : BlockPos
  pub trace : Range
  pub chain_state : Range
  pub finality : Range
  pub chain_id : List ℕ

-- `REQ_*` and `RES_*`.
abbrev pub req_status_v0 : ℕ
req_status_v0 = 0

abbrev pub req_blocks_v0 : ℕ
req_blocks_v0 = 1

abbrev pub req_ack : ℕ
req_ack = 2

abbrev pub req_blocks_v1 : ℕ
req_blocks_v1 = 3

abbrev pub req_status_v1 : ℕ
req_status_v1 = 4

abbrev pub res_status_v0 : ℕ
res_status_v0 = 0

abbrev pub res_blocks_v0 : ℕ
res_blocks_v0 = 1

abbrev pub res_blocks_v1 : ℕ
res_blocks_v1 = 2

abbrev pub res_status_v1 : ℕ
res_status_v1 = 3

abbrev pub pos_len : ℕ
pos_len = 36

abbrev pub head_lib_end : ℕ
head_lib_end = 73

abbrev pub status_v0_min_len : ℕ
status_v0_min_len = 89

abbrev pub status_v1_len : ℕ
status_v1_len = 129

abbrev pub max_positions : ℕ
max_positions = 1_048_576
