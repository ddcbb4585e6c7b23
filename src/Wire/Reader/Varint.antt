-- ===== src/Wire/Reader/Varint.antt =====
-- What `varuint32` reads from the canonical bytes of a u32.
use Prim.Native.Nat.{bit_and, bit_or}
use fleet_router.Prelude.{
  ℕ, zero, suc, ◌+◌, ◌*◌, ◌/◌, ◌%◌, ◌^◌, ◌≤◌, ◌<◌, ◌≡◌, refl, true, false, List, [], ◌∷◌, arith,
  ltb, if◌then◌else◌, ◌==◌, Bool-cases, inl, inr, sym, subst,
}
use fleet_router.Prelude.Bits.{shl, low_seven, high_bit, or_fields}
use fleet_router.Wire.{bad_varint}
use fleet_router.Wire.Reader.{Read, pure, fail, u8, varuint32_from, varuint32}
use fleet_router.Wire.Reader.Yields.{Yields, bind, pure-Yields, u8-Yields, IsU32}

-- The bytes of a varuint in at most `k + 1` groups of seven bits, lowest first.
unfoldable pub groups : ℕ → ℕ → List ℕ
groups zero v = v ∷ []
groups (suc k) v =
    let rest = groups k (v / 128) in if ltb v 128 then v ∷ [] else (v % 128 + 128) ∷ rest

-- A group of seven bits above the `shift` bits read so far.
add_group :
    (shift value v : ℕ)
    → value < 2 ^ shift
    → v % 128 * 2 ^ shift < 2 ^ 32
    → bit_or value (shl 32 (bit_and v 0x7f) shift) ≡ v % 128 * 2 ^ shift + value
add_group shift value v small fits =
    rw (low_seven v, modulo (v % 128 * 2 ^ shift) fits) (or_fields shift value (v % 128) small)
  where
    modulo : (x : ℕ) → x < 2 ^ 32 → x % 2 ^ 32 ≡ x
    modulo x h = omega arith

-- The byte of a group that is not the last, and of the last one.
module _ (n shift value v : ℕ) (small : value < 2 ^ shift)
    (fits : v % 128 * 2 ^ shift < 2 ^ 32) where
  abbrev next_step : ℕ → Read ℕ
  next_step byte =
      let value' = bit_or value (shl 32 (bit_and byte 0x7f) shift) in
      let more = varuint32_from n (shift + 7) value' in
      if bit_and byte 0x80 == 0 then pure value' else more

  next_step-more :
      next_step (v % 128 + 128) ≡ varuint32_from n (shift + 7) (v % 128 * 2 ^ shift + value)
  next_step-more =
      let g = v % 128 + 128 in
      let same : g % 128 ≡ v % 128 = omega arith in
      let bit : (bit_and g 0x80 == 0) ≡ false = ground (arith, high_bit g) in
      rw (bit, add_group shift value g small (rw same fits), same) refl

  next_step-last : v < 128 → next_step v ≡ pure (v * 2 ^ shift + value)
  next_step-last low =
      let same : v % 128 ≡ v = omega arith in
      let bit : (bit_and v 0x80 == 0) ≡ true = ground (arith, high_bit v) in
      rw (bit, add_group shift value v small fits, same) refl

more_groups :
    (n shift value v w : ℕ)
    → value < 2 ^ shift
    → v % 128 * 2 ^ shift < 2 ^ 32
    → 128 ≤ v
    → Yields (varuint32_from n (shift + 7) (v % 128 * 2 ^ shift + value)) w (groups n (v / 128))
    → Yields (varuint32_from (suc n) shift value) w (groups (suc n) v)
unfolding varuint32_from groups
more_groups n shift value v w small fits big next =
    let first : ltb v 128 ≡ false = ground arith in
    let g = v % 128 + 128 in
    rw first (
      bind u8 (next_step n shift value v small fits) g w (g ∷ []) (groups n (v / 128)) (u8-Yields g)
        (rw (next_step-more n shift value v small fits) next))

last_group :
    (n shift value v : ℕ)
    → value < 2 ^ shift
    → v * 2 ^ shift < 2 ^ 32
    → v < 128
    → Yields (varuint32_from (suc n) shift value) (v * 2 ^ shift + value) (groups (suc n) v)
unfolding varuint32_from groups
last_group n shift value v small fits low =
    let first : ltb v 128 ≡ true = ground arith in
    let same : v % 128 ≡ v = omega arith in
    let fits' : v % 128 * 2 ^ shift < 2 ^ 32 = rw same fits in
    let total = v * 2 ^ shift + value in
    rw first (
      bind u8 (next_step n shift value v small fits') v total (v ∷ []) [] (u8-Yields v)
        (rw (next_step-last n shift value v small fits' low) (pure-Yields total)))

-- A group and what follows it, when the bits add up.
one_group :
    (n shift value v : ℕ)
    → value < 2 ^ shift
    → v % 128 * 2 ^ shift < 2 ^ 32
    → v / 128 * 2 ^ (shift + 7) + (v % 128 * 2 ^ shift + value) ≡ v * 2 ^ shift + value
    → (128 ≤ v
        → Yields
            (varuint32_from n (shift + 7) (v % 128 * 2 ^ shift + value))
            (v / 128 * 2 ^ (shift + 7) + (v % 128 * 2 ^ shift + value))
            (groups n (v / 128)))
    → Yields (varuint32_from (suc n) shift value) (v * 2 ^ shift + value) (groups (suc n) v)
one_group n shift value v small fits regroup next = elim (Bool-cases (ltb v 128)) [
  | inl e ↦
      let low : v < 128 = ground arith in
      let same : v % 128 ≡ v = omega arith in
      last_group n shift value v small (rw (sym same) fits) low
  | inr e ↦
      let big : 128 ≤ v = ground arith in
      more_groups n shift value v _ small fits big (rw (sym regroup) (next big))
]

at_28 :
    (value v : ℕ)
    → value < 2 ^ 28
    → v < 16
    → Yields (varuint32_from 0 28 value) (v * 2 ^ 28 + value) (groups 0 v)
unfolding varuint32_from groups
at_28 value v small h =
    let low : ltb 15 v ≡ false = ground arith in
    let fits : v * 2 ^ 28 % 2 ^ 32 ≡ v * 2 ^ 28 = omega arith in
    let total = v * 2 ^ 28 + value in
    bind u8 (λ last. if ltb 15 last then fail bad_varint else pure (bit_or value (shl 32 last 28)))
      v total (v ∷ []) [] (u8-Yields v)
      (rw (low, fits, or_fields 28 value v small) (pure-Yields total))

at_21 :
    (value v : ℕ)
    → value < 2 ^ 21
    → v < 2 ^ 11
    → Yields (varuint32_from 1 21 value) (v * 2 ^ 21 + value) (groups 1 v)
at_21 value v small h =
    one_group 0 21 value v small (omega arith) (omega arith)
      (λ big. at_28 (v % 128 * 2 ^ 21 + value) (v / 128) (omega arith) (omega arith))

at_14 :
    (value v : ℕ)
    → value < 2 ^ 14
    → v < 2 ^ 18
    → Yields (varuint32_from 2 14 value) (v * 2 ^ 14 + value) (groups 2 v)
at_14 value v small h =
    one_group 1 14 value v small (omega arith) (omega arith)
      (λ big. at_21 (v % 128 * 2 ^ 14 + value) (v / 128) (omega arith) (omega arith))

at_7 :
    (value v : ℕ)
    → value < 2 ^ 7
    → v < 2 ^ 25
    → Yields (varuint32_from 3 7 value) (v * 2 ^ 7 + value) (groups 3 v)
at_7 value v small h =
    one_group 2 7 value v small (omega arith) (omega arith)
      (λ big. at_14 (v % 128 * 2 ^ 7 + value) (v / 128) (omega arith) (omega arith))

pub varuint32-Yields : (v : ℕ) → IsU32 v → Yields varuint32 v (groups 4 v)
unfolding varuint32 IsU32
varuint32-Yields v h =
    let e : v * 2 ^ 0 + 0 ≡ v = omega arith in
    subst (λ (w : ℕ). Yields varuint32 w (groups 4 v)) e
      (one_group 3 0 0 v (omega arith) (omega arith) (omega arith)
        (λ big. at_7 (v % 128 * 2 ^ 0 + 0) (v / 128) (omega arith) (omega arith)))
