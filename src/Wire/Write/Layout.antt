-- ===== src/Wire/Write/Layout.antt =====
-- What the encoders write, next to what was there.
use Prim.Native.Nat.{bit_and}
use mathlib.Core.List.{append_assoc}
use fleet_router.Prelude.{
  ℕ, zero, suc, ◌+◌, ◌/◌, ◌%◌, ◌^◌, ◌<◌, ◌≡◌, refl, List, [], ◌∷◌, ◌++◌, arith, sym, ◌*◌,
}
use fleet_router.Prelude.Bits.{low_seven, set_high}
use fleet_router.Prelude.Words.{le_bytes}
use fleet_router.Ship.{BlockPos}
use fleet_router.Wire.Reader.Yields.{pos_bytes, IsU32}
use fleet_router.Wire.Reader.Varint.{groups}
use fleet_router.Wire.Write.{put_pos, put_u32, put_positions, put_groups, put_varuint32}

unfoldable pub positions_bytes : List BlockPos → List ℕ
positions_bytes [] = []
positions_bytes (p ∷ ps) = pos_bytes p ++ positions_bytes ps

pub put_pos_lem : (out : List ℕ) (p : BlockPos) → put_pos out p ≡ out ++ pos_bytes p
unfolding put_pos put_u32 pos_bytes
put_pos_lem out p = append_assoc out (le_bytes 4 p.num) p.id

pub append_nil : (xs : List ℕ) → xs ++ [] ≡ xs
append_nil [] = refl
append_nil (x ∷ xs) = ground (arith, append_nil xs)

pub put_positions_lem :
    (out : List ℕ) (ps : List BlockPos) → put_positions out ps ≡ out ++ positions_bytes ps
unfolding put_positions positions_bytes
put_positions_lem out [] = sym (append_nil out)
put_positions_lem out (p ∷ ps) =
    rw (put_positions_lem (put_pos out p) ps, put_pos_lem out p)
      (append_assoc out (pos_bytes p) (positions_bytes ps))

put_groups_lem :
    (k : ℕ) (out : List ℕ) (v : ℕ)
    → v < 128 * 128 ^ k
    → put_groups (suc k) out v ≡ out ++ groups k v
unfolding put_groups groups
put_groups_lem zero out v h = ground (arith, low_seven v)
put_groups_lem (suc k) out v h =
    let byte : bit_and v 0x7f % 256 ≡ v % 128 = omega (arith, low_seven v) in
    rw
      (
        byte,
        set_high (v % 128) (omega arith),
        put_groups_lem k (out ++ (v % 128 + 128) ∷ []) (v / 128) (omega arith),
      )
      ground (arith, append_assoc out ((v % 128 + 128) ∷ []) (groups k (v / 128)))

pub put_varuint32_lem : (out : List ℕ) (v : ℕ) → IsU32 v → put_varuint32 out v ≡ out ++ groups 4 v
unfolding put_varuint32 IsU32
put_varuint32_lem out v h = put_groups_lem 4 out v (omega arith)
