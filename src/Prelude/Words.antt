-- ===== src/Prelude/Words.antt =====
-- Unsigned machine words: the operations of `u32`, `u64` and `usize` that the code uses.
use Prim.Native.Nat.{ℕ, zero, suc, ◌+◌, ◌*◌, ◌/◌, ◌%◌, ◌^◌, min}
use mathlib.Core.List.{List, [], ◌∷◌}
use mathlib.Core.Option.{Option, none, some}
use fleet_router.Prelude.Tests.{leb, if◌then◌else◌}

abbrev pub u32_max : ℕ
u32_max = 4294967295

abbrev pub u64_mod : ℕ
u64_mod = 2 ^ 64

abbrev pub usize_max : ℕ
usize_max = 18446744073709551615

-- `u32::saturating_add`.
abbrev pub saturating_add : ℕ → ℕ → ℕ
saturating_add a b = min (a + b) u32_max

-- `u32::checked_add`.
abbrev pub checked_add : ℕ → ℕ → Option ℕ
checked_add a b = if leb (a + b) u32_max then some (a + b) else none

-- Instants and durations count nanoseconds.
abbrev pub secs : ℕ → ℕ
secs n = n * 1_000_000_000

abbrev pub millis : ℕ → ℕ
millis n = n * 1_000_000

-- `to_le_bytes`: the `k` lowest bytes of `n`, lowest first.
unfoldable pub le_bytes : ℕ → ℕ → List ℕ
le_bytes zero n = []
le_bytes (suc k) n = (n % 256) ∷ le_bytes k (n / 256)
