-- ===== src/Wire/Reader/Yields.antt =====
-- What a read gives when the bytes it wants come next: `Yields m a xs` says that `m` reads `xs`,
-- whatever follows, and returns `a`. Such facts are joined by `bind`.
use mathlib.Core.List.{append_assoc}
use fleet_router.Prelude.{
  ℕ, zero, suc, ◌+◌, ◌^◌, ◌≤◌, ◌<◌, ◌≡◌, refl, Bool, true, false, List, [], ◌∷◌, ◌++◌, arith,
  length, take, drop, length-append, sym, subst, ap,
}
use fleet_router.Prelude.Words.{usize_max, le_bytes}
use fleet_router.Ship.{BlockPos}
use fleet_router.Wire.Reader.{
  remaining, Reader, ok, Read, ◌>>=◌, pure, remaining, take_bytes, u8, from_le_bytes, u32, bool,
  block_pos,
}
use fleet_router.Wire.Write.{bool_byte}

module _ {A : Type 0} where
  pub take_front : (xs ys : List A) → take (length xs) (xs ++ ys) ≡ xs
  take_front [] ys = refl
  take_front (x ∷ xs) ys = ground (arith, take_front xs ys)

  drop_nil : (n : ℕ) → drop {A = A} n [] ≡ []
  drop_nil zero = refl
  drop_nil (suc n) = refl

  pub drop_front :
      (n : ℕ) (xs ys buf : List A) → drop n buf ≡ xs ++ ys → drop (n + length xs) buf ≡ ys
  drop_front zero [] ys buf h = h
  drop_front zero (x ∷ xs) ys [] h = cc
  drop_front zero (x ∷ xs) ys (b ∷ buf) h = ground (arith, drop_front 0 xs ys buf)
  drop_front (suc n) xs ys [] h = ground (arith, empty xs ys h, drop_nil (suc n + length xs))
    where
      empty : (xs ys : List A) → [] ≡ xs ++ ys → ys ≡ []
      empty [] ys h = sym h
      empty (x ∷ xs) ys h = cc
  drop_front (suc n) xs ys (b ∷ buf) h =
      let e : suc (n + length xs) ≡ suc n + length xs = omega arith in
      subst (λ (k : ℕ). drop k (b ∷ buf) ≡ ys) e (drop_front n xs ys buf h)

  pub fits : (n : ℕ) (buf : List A) → n ≤ length buf → n + length (drop n buf) ≡ length buf
  fits zero buf h = omega arith
  fits (suc n) [] h = absurd (omega arith)
  fits (suc n) (b ∷ buf) h = omega (arith, fits n buf (omega arith))

-- `r` reads `buf`, and the bytes that it still holds are `xs`.
pub record At (buf : List ℕ) (r : Reader) (xs : List ℕ) : Type 0 where
  pub same : r.buf ≡ buf
  pub rest : drop r.pos r.buf ≡ xs
  pub inside : r.pos ≤ length r.buf
  pub small : length r.buf ≤ usize_max

pub remaining-At : (buf : List ℕ) (r : Reader) (xs : List ℕ) → At buf r xs → remaining r ≡ length xs
unfolding remaining
remaining-At buf r xs at = omega (arith, fits r.pos r.buf at.inside, ap length at.rest)

unfoldable pub Yields : {A : Type 0} → Read A → A → List ℕ → Type 0
Yields m a xs =
    (buf ys : List ℕ) (r : Reader)
    → At buf r (xs ++ ys)
    → (r' : Reader) × (m r ≡ ok a r') × At buf r' ys

pub pure-Yields : {A : Type 0} (a : A) → Yields (pure a) a []
unfolding Yields
pure-Yields a buf ys r at = (r, refl, at)

pub bind :
    {A B : Type 0} (m : Read A) (f : A → Read B) (a : A) (b : B) (xs zs : List ℕ)
    → Yields m a xs
    → Yields (f a) b zs
    → Yields (m >>= f) b (xs ++ zs)
unfolding Yields
bind m f a b xs zs first second buf ys r at =
    let (r', e, at') = first buf (zs ++ ys) r (rw (sym (append_assoc xs zs ys)) at) in
    let (r'', e', at'') = second buf ys r' at' in (r'', rw (e, ◌>>=◌) e', at'')

pub bind_pure :
    {A B : Type 0} (m : Read A) (f : A → B) (a : A) (xs : List ℕ)
    → Yields m a xs
    → Yields (m >>= λ x. pure (f x)) (f a) xs
unfolding Yields
bind_pure m f a xs first buf ys r at =
    let (r', e, at') = first buf ys r at in (r', rw (e, ◌>>=◌) refl, at')

pub take_bytes-Yields : (xs : List ℕ) → Yields (take_bytes (length xs)) xs xs
unfolding Yields take_bytes
take_bytes-Yields xs buf ys r at =
    let len : r.pos + length xs ≤ length r.buf =
      omega (arith, fits r.pos r.buf at.inside, ap length at.rest, length-append xs ys) in
    (
      record r { pos = r.pos + length xs },
      ground (arith, take_front xs ys, at.rest, at.small, len),
      record {
        same = at.same;
        rest = drop_front r.pos xs ys r.buf at.rest;
        inside = len;
        small = at.small;
      },
    )

-- The values that a message can hold, and their bytes.
unfoldable pub IsU32 : ℕ → Type 0
IsU32 n = n < 2 ^ 32

unfoldable pub IsPos : BlockPos → Type 0
unfolding IsU32
IsPos p = IsU32 p.num × (length p.id ≡ 32)

unfoldable pub pos_bytes : BlockPos → List ℕ
pos_bytes p = le_bytes 4 p.num ++ p.id

pub u8-Yields : (b : ℕ) → Yields u8 b (b ∷ [])
unfolding u8
u8-Yields b =
    bind (take_bytes 1) _ (b ∷ []) b (b ∷ []) [] (take_bytes-Yields (b ∷ [])) (pure-Yields b)

from_le_bytes-le_bytes : (n : ℕ) → IsU32 n → from_le_bytes (le_bytes 4 n) ≡ n
unfolding from_le_bytes IsU32 le_bytes
from_le_bytes-le_bytes n h = omega arith

pub u32-Yields : (n : ℕ) → IsU32 n → Yields u32 n (le_bytes 4 n)
unfolding u32 le_bytes
u32-Yields n h =
    bind (take_bytes 4) _ (le_bytes 4 n) n (le_bytes 4 n) [] (take_bytes-Yields (le_bytes 4 n))
      (rw (from_le_bytes-le_bytes n h) (pure-Yields n))

pub bool-Yields : (b : Bool) → Yields bool b (bool_byte b ∷ [])
unfolding bool bool_byte
bool-Yields false = bind u8 _ 0 false (0 ∷ []) [] (u8-Yields 0) (pure-Yields false)
bool-Yields true = bind u8 _ 1 true (1 ∷ []) [] (u8-Yields 1) (pure-Yields true)

pub block_pos-Yields : (p : BlockPos) → IsPos p → Yields block_pos p (pos_bytes p)
unfolding block_pos IsPos pos_bytes
block_pos-Yields p (num, len) = bind u32 _ p.num p (le_bytes 4 p.num) p.id (u32-Yields p.num num) (
    bind_pure (take_bytes 32) (λ id. record { num = p.num; id = id }) p.id p.id
      (subst (λ (n : ℕ). Yields (take_bytes n) p.id p.id) len (take_bytes-Yields p.id)))
