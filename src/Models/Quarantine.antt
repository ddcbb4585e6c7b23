-- ===== src/Models/Quarantine.antt =====
-- src/models.rs: the failures counted against an upstream's blocks (`BlockQuarantine`,
-- `record_block_failure` and the checks around it) and the check of declared ranges.
pub mod Arming
use fleet_router.Prelude.{
  ℕ, ◌+◌, ◌-◌, ◌*◌, max, Bool, true, false, not, ◌&&◌, ◌||◌, List, [], ◌∷◌, ◌++◌, Option, none,
  some, leb, ltb, ◌==◌, if◌then◌else◌, any, filter, length, is_nil, map, min, ◌≡◌,
}
use fleet_router.Prelude.Words.{checked_add, secs, u32_max}
use fleet_router.Ship.{Range, is_empty}
use fleet_router.Models.{BlockQuarantine, BlockStrike, BlockFailureQuarantine, ServerState}

-- `BlockQuarantine::covers`; a range past the last block number has no end.
unfoldable pub covers : BlockQuarantine → ℕ → Bool
covers q block = elim (checked_add q.block q.range) [
  | some end ↦ leb q.block block && ltb block end
  | none ↦ leb q.block block
]

unfoldable pub active : BlockQuarantine → ℕ → Bool
active q now = ltb now q.until

unfoldable pub prune_expired_quarantines : ServerState → ℕ → ServerState
unfolding active
prune_expired_quarantines s now = record s {
  quarantines = filter (λ q. active q now) s.quarantines;
}

-- The state is pruned as part of the check.
unfoldable pub quarantined_for : ServerState → ℕ → ℕ → ServerState × Bool
unfolding prune_expired_quarantines covers
quarantined_for s block now =
    let s' = prune_expired_quarantines s now in (s', any (λ q. covers q block) s'.quarantines)

unfoldable pub any_quarantine_active : ServerState → ℕ → ServerState × Bool
unfolding prune_expired_quarantines
any_quarantine_active s now =
    let s' = prune_expired_quarantines s now in (s', not (is_nil s'.quarantines))

unfoldable pub clear_quarantines : ServerState → ServerState
clear_quarantines s = record s { quarantines = []; block_strikes = [] }

-- `Instant::checked_add`: `none` above the platform's largest instant.
unfoldable pub later : ℕ → ℕ → ℕ → Option ℕ
later limit now d = if leb (now + d) limit then some (now + d) else none

unfoldable pub quarantine_deadline : ℕ → ℕ → ℕ → ℕ
unfolding later
quarantine_deadline limit now ttl_secs = elim (later limit now (secs ttl_secs)) [
  | some until ↦ until
  | none ↦ elim (later limit now (secs (86_400 * 365))) [ some until ↦ until | none ↦ now ]
]

-- The strikes that are still inside the window.
pub recent : ℕ → ℕ → List BlockStrike → List BlockStrike
recent now window = filter (λ strike. leb (now - strike.at) window)

pub strikes_at : ℕ → List BlockStrike → ℕ
strikes_at block strikes = length (filter (λ strike. strike.block == block) strikes)

-- The part of `record_block_failure` below the early returns.
pub strike : ℕ → ServerState → ℕ → ℕ → BlockFailureQuarantine → ServerState × Bool
unfolding recent strikes_at quarantine_deadline
strike limit s block now policy =
    let strikes =
      recent now (secs policy.window_secs)
        (s.block_strikes ++ record { block = block; at = now } ∷ []) in
    if ltb (strikes_at block strikes) policy.strikes
    then (record s { block_strikes = strikes }, false)
    else (
      record s {
        block_strikes = filter (λ strike. not (strike.block == block)) strikes;
        quarantines =
            filter (λ quarantine. not (quarantine.block == block)) s.quarantines
            ++ record {
              block = block;
              range = policy.range;
              until = quarantine_deadline limit now policy.ttl_secs;
            }
              ∷ [];
      },
      true,
    )

-- `block_failures` is a u64 that saturates.
unfoldable pub record_block_failure :
    ℕ → ServerState → ℕ → ℕ → Option BlockFailureQuarantine → ServerState × Bool
unfolding prune_expired_quarantines quarantined_for strike
record_block_failure limit s block now policy =
    let counted = record s { block_failures = min (s.block_failures + 1) 18446744073709551615 } in
    let pruned = prune_expired_quarantines counted now in
    elim policy [
      | none ↦ (pruned, false)
      | some p ↦
          let (checked, already) = quarantined_for pruned block now in
          if already then (checked, false) else strike limit checked block now p
    ]

-- `fits` of `range_mismatch`.
fits : Range → Range → Bool
unfolding is_empty
fits declared r =
    (r.begin == declared.begin || declared.begin == 1 && r.begin == 2)
    && (r.end == declared.end || leb (r.end + 1) u32_max && (r.end + 1) == declared.end)
    && not (is_empty r)

unfoldable pub range_mismatch : ServerState → Bool
unfolding fits
range_mismatch s =
    let trace : Range = record { begin = s.trace_begin_block; end = s.trace_end_block } in
    let chain_state : Range = record {
      begin = s.chain_state_begin_block;
      end = s.chain_state_end_block;
    } in
    elim s.declared [
      | none ↦ false
      | some declared ↦
          if s.ranges_known
          then not (
              fits declared trace
              && fits declared chain_state
              && max trace.end chain_state.end == declared.end)
          else false
    ]

unfoldable pub reported_end : ServerState → ℕ
reported_end s = max (max s.trace_end_block s.chain_state_end_block) s.finality_data_end_block
