-- ===== src/Session/Failover/Strikes.antt =====
-- Which link ends count against the block, and which close the client.
use fleet_router.Prelude.{ℕ, ◌≤◌, Bool, true, false, ◌&&◌, ◌||◌, ◌≡◌, arith}
use fleet_router.Models.{is_frozen}
use fleet_router.Session.Failover.{
  UpEnd, EndAction, EndFacts, Exclusion, FailoverReason, unclean, clean, idle, stall,
  monitor_offline, violation, uncovered, discontinuity, too_large, send_failed, silent, moved,
  no_block_log, failover, close_client, induced, classify, clean_delay,
}

-- An unclean drop, a frozen stall or a broken archive contract.
abbrev pub charged : UpEnd → EndFacts → Bool
charged unclean facts = true
charged stall facts = is_frozen facts.role
charged (violation kind) facts = true
charged _ facts = false

abbrev pub is_too_large : UpEnd → Bool
is_too_large too_large = true
is_too_large _ = false

abbrev pub is_unclean : UpEnd → Bool
is_unclean unclean = true
is_unclean _ = false

abbrev pub closes : EndAction → Bool
closes (close_client code reason large) = true
closes (failover strike budget delay _ reason) = false

-- A link end that fails over is a strike against the block, and uses the budget of the block,
-- exactly when it is an unclean drop, a frozen stall or a contract violation; the pause that it
-- asks for is at most 100 ms.
pub classify-strike :
    (end : UpEnd) (facts : EndFacts) (cursor now : ℕ) (strike budget : Bool) (delay : ℕ)
    (avoid : Exclusion) (reason : FailoverReason)
    → classify end facts cursor now ≡ failover strike budget delay avoid reason
    → (strike ≡ charged end facts) × (budget ≡ charged end facts) × (delay ≤ clean_delay)
unfolding classify
classify-strike unclean facts cursor now strike budget delay avoid reason h = ground arith
classify-strike (clean code) facts cursor now strike budget delay avoid reason h = ground arith
classify-strike idle facts cursor now strike budget delay avoid reason h = ground arith
classify-strike stall facts cursor now strike budget delay avoid reason h = ground arith
classify-strike monitor_offline facts cursor now strike budget delay avoid reason h = ground arith
classify-strike (violation kind) facts cursor now strike budget delay avoid reason h = ground arith
classify-strike uncovered facts cursor now strike budget delay avoid reason h = ground arith
classify-strike discontinuity facts cursor now strike budget delay avoid reason h = ground arith
classify-strike too_large facts cursor now strike budget delay avoid reason h = ground arith
classify-strike send_failed facts cursor now strike budget delay avoid reason h = ground arith
classify-strike silent facts cursor now strike budget delay avoid reason h = ground arith
classify-strike moved facts cursor now strike budget delay avoid reason h = ground arith
classify-strike no_block_log facts cursor now strike budget delay avoid reason h = ground arith

-- The client is closed on an oversized message, and on an unclean drop that it brought about
-- itself; every other end fails over.
pub classify-closes :
    (end : UpEnd) (facts : EndFacts) (cursor now : ℕ)
    → closes (classify end facts cursor now)
      ≡ (is_too_large end || (is_unclean end && induced facts now))
unfolding classify
classify-closes unclean facts cursor now = ground arith
classify-closes (clean code) facts cursor now = ground arith
classify-closes idle facts cursor now = ground arith
classify-closes stall facts cursor now = ground arith
classify-closes monitor_offline facts cursor now = ground arith
classify-closes (violation kind) facts cursor now = ground arith
classify-closes uncovered facts cursor now = ground arith
classify-closes discontinuity facts cursor now = ground arith
classify-closes too_large facts cursor now = ground arith
classify-closes send_failed facts cursor now = ground arith
classify-closes silent facts cursor now = ground arith
classify-closes moved facts cursor now = ground arith
classify-closes no_block_log facts cursor now = ground arith
