-- ===== src/Wire/Reader.antt =====
-- src/ship/wire.rs, `Reader`: the bounds-checked cursor over a message. A read is a function of the
-- reader, and an error ends the decoding, so that no reader comes with it.
pub mod Yields
pub mod Varint
pub mod Ensures
use Prim.Native.Nat.{bit_and, bit_or}
use fleet_router.Prelude.{
  ℕ, zero, suc, ◌+◌, ◌-◌, ◌*◌, Bool, true, false, List, [], ◌∷◌, Option, none, some, leb, ltb, ◌==◌,
  if◌then◌else◌, length, take, drop,
}
use fleet_router.Prelude.Bits.{shl}
use fleet_router.Prelude.Words.{usize_max}
use fleet_router.Ship.{BlockPos}
use fleet_router.Wire.{DecodeError, bad_varint, truncated, bad_bool}

pub record Reader : Type 0 where
  pub buf : List ℕ
  pub pos : ℕ

pub data Outcome {ℓ} (A : Type ℓ) : Type ℓ where
  ok : A → Reader → Outcome A
  err : DecodeError → Outcome A

abbrev pub Read {ℓ} : Type ℓ → Type ℓ
Read A = Reader → Outcome A

infixl 5 ◌>>=◌
abbrev pub ◌>>=◌ {ℓ κ} : {A : Type ℓ} {B : Type κ} → Read A → (A → Read B) → Read B
(m >>= f) r = elim (m r) [ ok a r' ↦ f a r' | err e ↦ err e ]

abbrev pub pure {ℓ} : {A : Type ℓ} → A → Read A
pure a r = ok a r

abbrev pub fail {ℓ} : {A : Type ℓ} → DecodeError → Read A
fail e r = err e

unfoldable pub remaining : Reader → ℕ
remaining r = length r.buf - r.pos

-- `Reader::take`: the end is checked against the machine word, and then against the message.
unfoldable pub take_bytes : ℕ → Read (List ℕ)
take_bytes n r =
    let end = r.pos + n in
    if leb end usize_max
    then if leb end (length r.buf)
      then ok (take n (drop r.pos r.buf)) (record r { pos = end })
      else err truncated
    else err truncated

-- `Reader::u8`: an array of one byte.
unfoldable pub u8 : Read ℕ
unfolding take_bytes
u8 = do bytes ← take_bytes 1; elim bytes [ [] ↦ fail truncated | byte ∷ _ ↦ pure byte ]

-- `u32::from_le_bytes`.
unfoldable pub from_le_bytes : List ℕ → ℕ
from_le_bytes [] = 0
from_le_bytes (b ∷ bs) = b + 256 * from_le_bytes bs

unfoldable pub u32 : Read ℕ
unfolding take_bytes from_le_bytes
u32 = do bytes ← take_bytes 4; pure (from_le_bytes bytes)

unfoldable pub bool : Read Bool
unfolding u8
bool = do
  byte ← u8
  if byte == 0 then pure false else if byte == 1 then pure true else fail (bad_bool byte)

unfoldable pub block_pos : Read BlockPos
unfolding u32 take_bytes
block_pos = do num ← u32; id ← take_bytes 32; pure (record { num = num; id = id })

unfoldable pub optional_pos : Read (Option BlockPos)
unfolding bool block_pos
optional_pos = do present ← bool; if present then (do p ← block_pos; pure (some p)) else pure none

-- The loop of `varuint32` with `n` of the shifts 0, 7, 14 and 21 to go, and the last byte.
unfoldable pub varuint32_from : ℕ → ℕ → ℕ → Read ℕ
unfolding u8
varuint32_from zero shift value = do
  last ← u8
  if ltb 0x0f last then fail bad_varint else pure (bit_or value (shl 32 last 28))
varuint32_from (suc n) shift value = do
  byte ← u8
  let value' = bit_or value (shl 32 (bit_and byte 0x7f) shift)
  let more = varuint32_from n (shift + 7) value'
  if bit_and byte 0x80 == 0 then pure value' else more

unfoldable pub varuint32 : Read ℕ
unfolding varuint32_from
varuint32 = varuint32_from 4 0 0

-- The loop of `varuint64`, with the shifts 0, 7, ..., 56.
unfoldable pub varuint64_from : ℕ → ℕ → ℕ → Read ℕ
unfolding u8
varuint64_from zero shift value = do
  last ← u8
  if ltb 0x01 last then fail bad_varint else pure (bit_or value (shl 64 last 63))
varuint64_from (suc n) shift value = do
  byte ← u8
  let value' = bit_or value (shl 64 (bit_and byte 0x7f) shift)
  let more = varuint64_from n (shift + 7) value'
  if bit_and byte 0x80 == 0 then pure value' else more

unfoldable pub varuint64 : Read ℕ
unfolding varuint64_from
varuint64 = varuint64_from 9 0 0

pub data LenWidth : Type 0 where
  w32 w64 : LenWidth

unfoldable pub length_of : LenWidth → Read ℕ
unfolding varuint32 varuint64
length_of w32 = varuint32
length_of w64 = varuint64

-- A length is at most the largest usize, both being 64 bits wide.
unfoldable pub optional_bytes : LenWidth → Read Bool
unfolding bool length_of take_bytes
optional_bytes width = do
  present ← bool
  if present then (do len ← length_of width; skipped ← take_bytes len; pure true) else pure false
