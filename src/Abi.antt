-- ===== src/Abi.antt =====
-- src/abi.rs: the record of an upstream's ABI and the FNV-1a hash. Parsing an ABI is the work of
-- the crates rs_abieos and serde_json and is left out. Texts are lists of their UTF-8 bytes.
use Prim.Native.Nat.{bit_xor}
use mathlib.Core.List.{foldl}
use fleet_router.Prelude.{ℕ, ◌*◌, ◌%◌, Bool, List}
use fleet_router.Prelude.Words.{u64_mod}

pub record AbiEntry : Type 0 where
  pub text : List ℕ
  pub fp : ℕ
  pub compatible : Bool

-- `wrapping_mul` on u64.
fnv_step : ℕ → ℕ → ℕ
fnv_step hash byte = bit_xor hash byte * 0x0000_0100_0000_01b3 % u64_mod

unfoldable pub fnv1a64 : List ℕ → ℕ
unfolding fnv_step
fnv1a64 bytes = foldl fnv_step 0xcbf2_9ce4_8422_2325 bytes
