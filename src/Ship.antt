-- ===== src/Ship.antt =====
-- src/ship/mod.rs: the value types that the codec, the fleet view and the planner share.
-- A block number is a u32 and an id the 32 bytes of a checksum256; both are kept as plain
-- numbers, and what depends on their range says so.
use fleet_router.Prelude.{ℕ, Bool, ◌&&◌, List, leb, ltb}

pub record BlockPos : Type 0 where
  pub num : ℕ
  pub id : List ℕ

-- `[begin, end)`.
pub record Range : Type 0 where
  pub begin : ℕ
  pub end : ℕ

abbrev pub empty_range : Range
empty_range = record { begin = 0; end = 0 }

unfoldable pub is_empty : Range → Bool
is_empty r = leb r.end r.begin

unfoldable pub contains : Range → ℕ → Bool
contains r n = leb r.begin n && ltb n r.end
