-- ===== src/Session/Failover.antt =====
-- src/session/failover.rs: how a link end is classified, the budget of failures at one block and
-- its backoff. A reason that the code formats as text is a value that says which text it is. The
-- jitter of the delays is computed in floating point and is not modelled, nor are the log events.
pub mod Strikes
pub mod Budget
pub mod Backoff
use fleet_router.Prelude.{
  ℕ, zero, suc, ◌+◌, ◌-◌, ◌*◌, ◌≤◌, ◌^◌, min, Bool, true, false, List, [], ◌∷◌, Option, none, some,
  leb, ◌==◌, if◌then◌else◌, is_some_and, text_eq,
}
use fleet_router.Prelude.Words.{saturating_add, secs, millis}
use fleet_router.Models.{Role, live, frozen, BlockFailureQuarantine, ServerState}
use fleet_router.Models.Quarantine.{record_block_failure}
use fleet_router.Fleet.Request.{HoldWhy, offline, quarantined, at_capacity, busy}

abbrev pub max_same_block_failures : ℕ
max_same_block_failures = 5

abbrev pub client_induced_window : ℕ
client_induced_window = secs 5

abbrev pub clean_delay : ℕ
clean_delay = millis 100

abbrev pub dial_exclusion : ℕ
dial_exclusion = secs 2

abbrev pub uncovered_exclusion : ℕ
uncovered_exclusion = secs 30

-- The texts of the close frames.
pub data CloseReason : Type 0 where
  block_unavailable : (block : ℕ) → CloseReason
  capacity_exhausted : (block : ℕ) → CloseReason
  exceeds_max_message : (block : ℕ) → CloseReason
  unsupported_request : CloseReason

-- 100 ms << shift, capped at 3.2 s.
unfoldable pub same_block_backoff : ℕ → ℕ
same_block_backoff failures =
    let shift = min (failures - 1) 5 in millis (min (100 * 2 ^ shift) 3200)

unfoldable pub hold_backoff : ℕ → ℕ
unfolding same_block_backoff
hold_backoff attempt = same_block_backoff (saturating_add attempt 1)

unfoldable pub blockless_move_backoff : ℕ → ℕ
blockless_move_backoff zero = 0
blockless_move_backoff (suc n) = min (secs 1 * 2 ^ min n 16) (secs 60)

unfoldable pub hold_close_reason : HoldWhy → ℕ → CloseReason
hold_close_reason offline block = block_unavailable block
hold_close_reason quarantined block = block_unavailable block
hold_close_reason at_capacity block = capacity_exhausted block
hold_close_reason busy block = capacity_exhausted block

pub record SameBlockPlan : Type 0 where
  pub close_reason : Option CloseReason
  pub delay : ℕ
  pub failures : ℕ

unfoldable pub passthrough : ℕ → SameBlockPlan
passthrough delay = record { close_reason = none; delay = delay; failures = 0 }

-- The failures at `block`, with the one that is counted now.
unfoldable pub failures_at : Option (ℕ × ℕ) → ℕ → ℕ
failures_at none block = 1
failures_at (some (stuck_block, seen)) block =
    if stuck_block == block then saturating_add seen 1 else 1

unfoldable pub charge : Option (ℕ × ℕ) → ℕ → Option (ℕ × ℕ) × SameBlockPlan
unfolding failures_at same_block_backoff
charge stuck_at block =
    let failures = failures_at stuck_at block in
    (
      some (block, failures),
      if leb max_same_block_failures failures
          then record {
            close_reason = some (block_unavailable block);
            delay = clean_delay;
            failures = failures;
          }
          else record {
            close_reason = none;
            delay = same_block_backoff failures;
            failures = failures;
          },
    )

-- `stuck_at` is returned next to the plan.
unfoldable pub plan_same_block_failover :
    Option (ℕ × ℕ) → Bool → Option ℕ → ℕ → Option (ℕ × ℕ) × SameBlockPlan
unfolding charge passthrough
plan_same_block_failover stuck_at false next_block delay = (stuck_at, passthrough delay)
plan_same_block_failover stuck_at true none delay = (stuck_at, passthrough delay)
plan_same_block_failover stuck_at true (some block) delay = charge stuck_at block

pub data ViolationKind : Type 0 where
  idless gap_above rewind missing_field credit variant discontinuity_at_seam : ViolationKind

pub data UpEnd : Type 0 where
  unclean : UpEnd
  clean : (code : ℕ) → UpEnd
  idle stall monitor_offline : UpEnd
  violation : ViolationKind → UpEnd
  uncovered discontinuity too_large send_failed silent moved no_block_log : UpEnd

pub data Exclusion : Type 0 where
  no_exclusion soft : Exclusion
  hard : ℕ → Exclusion

pub data FailoverReason : Type 0 where
  by_unclean by_clean by_idle by_stall by_offline by_violation by_uncovered : FailoverReason
  by_discontinuity by_send by_silent by_operator by_no_block_log : FailoverReason

pub data EndAction : Type 0 where
  close_client : (code : ℕ) (reason : CloseReason) (too_large : Bool) → EndAction
  failover :
      (strike budget : Bool) (delay : ℕ) (exclusion : Exclusion) (reason : FailoverReason)
      → EndAction

pub record EndFacts : Type 0 where
  pub role : Role
  pub unknown_forwarded_at : Option ℕ

-- `saturating_duration_since` is 0 for an instant that is still to come.
unfoldable pub induced : EndFacts → ℕ → Bool
induced facts now =
    is_some_and (λ at. leb (now - at) client_induced_window) facts.unknown_forwarded_at

unfoldable pub classify_stall : Role → EndAction
classify_stall live = failover false false clean_delay soft by_stall
classify_stall frozen = failover true true clean_delay soft by_stall

unfoldable pub classify : UpEnd → EndFacts → ℕ → ℕ → EndAction
unfolding induced classify_stall
classify unclean facts cursor now =
    if induced facts now
    then close_client 1003 unsupported_request false
    else failover true true clean_delay soft by_unclean
classify (clean code) facts cursor now = failover false false clean_delay no_exclusion by_clean
classify idle facts cursor now = failover false false clean_delay no_exclusion by_idle
classify stall facts cursor now = classify_stall facts.role
classify monitor_offline facts cursor now = failover false false clean_delay soft by_offline
classify (violation kind) facts cursor now = failover true true clean_delay soft by_violation
classify uncovered facts cursor now = failover false false 0 (hard uncovered_exclusion) by_uncovered
classify discontinuity facts cursor now =
    failover false false 0 (hard uncovered_exclusion) by_discontinuity
classify too_large facts cursor now = close_client 1011 (exceeds_max_message cursor) true
classify send_failed facts cursor now =
    failover false false clean_delay (hard dial_exclusion) by_send
classify silent facts cursor now = failover false false clean_delay soft by_silent
classify moved facts cursor now = failover false false clean_delay soft by_operator
classify no_block_log facts cursor now = failover false false 0 soft by_no_block_log

-- The state map with the failure recorded for `endpoint`, and whether that armed a quarantine. The
-- hub then builds its view of the new states.
unfoldable pub note_block_failure :
    ℕ
    → List (List ℕ × ServerState)
    → List ℕ
    → ℕ
    → ℕ
    → Option BlockFailureQuarantine
    → List (List ℕ × ServerState) × Bool
note_block_failure limit [] endpoint block now policy = ([], false)
note_block_failure limit ((e, s) ∷ states) endpoint block now policy =
    let rest = note_block_failure limit states endpoint block now policy in
    let (s', armed) = record_block_failure limit s block now policy in
    if text_eq e endpoint then ((e, s') ∷ states, armed) else ((e, s) ∷ rest.0, rest.1)
