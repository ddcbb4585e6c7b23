-- ===== src/Models/Tests.antt =====
-- Failures counted against one node.
use fleet_router.Prelude.{ℕ, ◌+◌, ◌≡◌, refl, true, false, [], ◌∷◌, none, some, arith}
use fleet_router.Models.{Role, BlockFailureQuarantine, ServerState}
use fleet_router.Models.Quarantine.{quarantined_for, quarantine_deadline, record_block_failure}
use fleet_router.Models.Quarantine.Arming.{armed-quarantined}

abbrev policy : BlockFailureQuarantine
policy = record { strikes = 2; window_secs = 60; ttl_secs = 300; range = 10 }

abbrev limit : ℕ
limit = 1_000_000_000_000_000_000_000

-- One strike at block 700, ten seconds ago.
abbrev struck : ServerState
struck = record {
  name = [];
  connections = 0;
  enabled = true;
  operator_disabled = false;
  online = true;
  stale = false;
  priority = 1;
  weight = 1;
  expected_chain_id = none;
  require_chain_id = false;
  chain_id_unverified_warned = false;
  chain_id = none;
  trace_begin_block = 1;
  trace_end_block = 900;
  chain_state_begin_block = 1;
  chain_state_end_block = 900;
  finality_data_begin_block = 0;
  finality_data_end_block = 0;
  block_failures = 1;
  block_strikes = record { block = 700; at = 90_000_000_000 } ∷ [];
  quarantines = [];
  index = 0;
  role = Role.live;
  declared = none;
  max_sessions = none;
  head = none;
  lib = none;
  ranges_known = true;
  status_at = none;
  status_head_reference = none;
  head_lag_blocks = none;
  status_v1 = none;
  abi = none;
  offline_since = none;
  no_block_log = false;
}

abbrev at : ℕ
at = 100_000_000_000

armed-quarantined_example :
    (quarantined_for (record_block_failure limit struck 700 at (some policy)).0 709 (at + 1000)).1
    ≡ true
unfolding record_block_failure quarantine_deadline
armed-quarantined_example =
    armed-quarantined limit struck 700 at policy 709 (at + 1000) refl (omega arith) (omega arith)
      (omega arith)

abbrev excluded : ServerState
excluded = record struck {
  quarantines = record { block = 695; range = 10; until = 200_000_000_000 } ∷ [];
}
