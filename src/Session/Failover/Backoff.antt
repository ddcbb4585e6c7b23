-- ===== src/Session/Failover/Backoff.antt =====
-- Bounds of the waits between retries.
use fleet_router.Prelude.{ℕ, zero, suc, ◌-◌, ◌^◌, ◌≤◌, ◌≡◌, min, arith}
use fleet_router.Prelude.Words.{millis, secs}
use fleet_router.Session.Failover.{same_block_backoff, blockless_move_backoff}

two_pow_mono : (a b : ℕ) → a ≤ b → 2 ^ a ≤ 2 ^ b
two_pow_mono zero zero h = omega arith
two_pow_mono zero (suc b) h = omega (arith, two_pow_mono zero b (omega arith))
two_pow_mono (suc a) zero h = absurd (omega arith)
two_pow_mono (suc a) (suc b) h = omega (arith, two_pow_mono a b (omega arith))

-- The waits at one block are between 100 ms and 3.2 s, and do not get shorter.
pub same_block_backoff-bounds :
    (f g : ℕ)
    → f ≤ g
    → (millis 100 ≤ same_block_backoff f)
      × (same_block_backoff f ≤ same_block_backoff g)
      × (same_block_backoff g ≤ millis 3200)
unfolding same_block_backoff
same_block_backoff-bounds f g h = omega (
  arith,
  two_pow_mono 0 (min (f - 1) 5) (omega arith),
  two_pow_mono (min (f - 1) 5) (min (g - 1) 5) (omega arith),
)

-- The first move off an archive without blocks is not delayed; the waits before the others are
-- between a second and a minute, and do not get shorter.
pub blockless_move_backoff-bounds :
    (m n : ℕ)
    → m ≤ n
    → (blockless_move_backoff 0 ≡ 0)
      × (secs 1 ≤ blockless_move_backoff (suc m))
      × (blockless_move_backoff (suc m) ≤ blockless_move_backoff (suc n))
      × (blockless_move_backoff (suc n) ≤ secs 60)
unfolding blockless_move_backoff
blockless_move_backoff-bounds m n h = omega (
  arith,
  two_pow_mono 0 (min m 16) (omega arith),
  two_pow_mono (min m 16) (min n 16) (omega arith),
)
