-- ===== src/Models.antt =====
-- src/models.rs: the roles and policies of the configuration, and the state kept per upstream.
-- `connections` is the value of a shared counter at the moment it is read. The traffic counters
-- and the one-time log warnings of a state are not modelled. Instants and durations are numbers
-- of nanoseconds; `limit` is the largest instant that the platform's clock can represent.
pub mod Quarantine
mod Tests
use fleet_router.Prelude.{
  ℕ, ◌+◌, Bool, true, false, not, ◌&&◌, ◌||◌, List, Option, none, some, is_some, leb, if◌then◌else◌,
}
use fleet_router.Ship.{BlockPos, Range}
use fleet_router.Abi.{AbiEntry}

pub data Role : Type 0 where
  live frozen : Role

pub data HistoryPreference : Type 0 where
  prefer_frozen any_role : HistoryPreference

pub data AbiMismatch : Type 0 where
  warn exclude : AbiMismatch

pub data Topology : Type 0 where
  pool stitched : Topology

abbrev pub is_frozen : Role → Bool
is_frozen live = false
is_frozen frozen = true

abbrev pub is_live : Role → Bool
is_live live = true
is_live frozen = false

pub record BlockQuarantine : Type 0 where
  pub block : ℕ
  pub range : ℕ
  pub until : ℕ

pub record BlockStrike : Type 0 where
  pub block : ℕ
  pub at : ℕ

-- The policy `block_failure_quarantine`; its times are in seconds.
pub record BlockFailureQuarantine : Type 0 where
  pub strikes : ℕ
  pub window_secs : ℕ
  pub ttl_secs : ℕ
  pub range : ℕ

pub record ServerState : Type 0 where
  pub name : List ℕ
  pub connections : ℕ
  pub enabled : Bool
  pub operator_disabled : Bool
  pub online : Bool
  pub stale : Bool
  pub priority : ℕ
  pub weight : ℕ
  pub expected_chain_id : Option (List ℕ)
  pub require_chain_id : Bool
  pub chain_id_unverified_warned : Bool
  pub chain_id : Option (List ℕ)
  pub trace_begin_block : ℕ
  pub trace_end_block : ℕ
  pub chain_state_begin_block : ℕ
  pub chain_state_end_block : ℕ
  pub finality_data_begin_block : ℕ
  pub finality_data_end_block : ℕ
  pub block_failures : ℕ
  pub block_strikes : List BlockStrike
  pub quarantines : List BlockQuarantine
  pub index : ℕ
  pub role : Role
  pub declared : Option Range
  pub max_sessions : Option ℕ
  pub head : Option BlockPos
  pub lib : Option BlockPos
  pub ranges_known : Bool
  pub status_at : Option ℕ
  pub status_head_reference : Option ℕ
  pub head_lag_blocks : Option ℕ
  pub status_v1 : Option Bool
  pub abi : Option AbiEntry
  pub offline_since : Option ℕ
  pub no_block_log : Bool

-- `ServerState::routable`.
unfoldable pub state_routable : ServerState → Bool
state_routable s = s.enabled && not s.operator_disabled

unfoldable pub ranges_usable : ServerState → Bool
ranges_usable s = s.ranges_known || is_frozen s.role && is_some s.declared

-- The waiters on `went_offline` are woken too.
unfoldable pub mark_offline : ServerState → ℕ → ServerState
mark_offline s now = record s {
  status_head_reference = none;
  head_lag_blocks = none;
  online = false;
  chain_id = none;
  offline_since = if is_some s.offline_since then s.offline_since else some now;
}
