-- ===== src/Wire/Write.antt =====
-- src/ship/wire.rs: what the encoders append to the message.
pub mod Layout
use Prim.Native.Nat.{bit_and, bit_or}
use fleet_router.Prelude.{
  ℕ, zero, suc, ◌/◌, ◌%◌, Bool, true, false, List, [], ◌∷◌, ◌++◌, ◌==◌, if◌then◌else◌,
}
use fleet_router.Prelude.Words.{le_bytes}
use fleet_router.Ship.{BlockPos}

unfoldable pub put_u32 : List ℕ → ℕ → List ℕ
put_u32 out value = out ++ le_bytes 4 value

unfoldable pub put_pos : List ℕ → BlockPos → List ℕ
unfolding put_u32
put_pos out p = put_u32 out p.num ++ p.id

-- The loop over `have_positions`.
unfoldable pub put_positions : List ℕ → List BlockPos → List ℕ
unfolding put_pos
put_positions out [] = out
put_positions out (p ∷ ps) = put_positions (put_pos out p) ps

-- The loop of `put_varuint32`, on a count of bytes: a u32 has at most five groups of seven bits.
unfoldable pub put_groups : ℕ → List ℕ → ℕ → List ℕ
put_groups zero out value = out
put_groups (suc n) out value =
    let byte = bit_and value 0x7f % 256 in
    let value' = value / 128 in
    let more = put_groups n (out ++ bit_or byte 0x80 ∷ []) value' in
    if value' == 0 then out ++ byte ∷ [] else more

unfoldable pub put_varuint32 : List ℕ → ℕ → List ℕ
unfolding put_groups
put_varuint32 out value = put_groups 5 out value

-- `u8::from(bool)`.
unfoldable pub bool_byte : Bool → ℕ
bool_byte false = 0
bool_byte true = 1

unfoldable pub put_bool : List ℕ → Bool → List ℕ
unfolding bool_byte
put_bool out b = out ++ bool_byte b ∷ []
