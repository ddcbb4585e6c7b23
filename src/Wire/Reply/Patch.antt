-- ===== src/Wire/Reply/Patch.antt =====
-- A patched frame holds the new head and LIB, and is otherwise the frame it was.
use mathlib.Core.List.{append_assoc}
use fleet_router.Prelude.{
  ℕ, zero, suc, ◌+◌, ◌≤◌, ◌≡◌, refl, true, false, List, [], ◌∷◌, ◌++◌, some, arith, leb, ltb,
  length, take, drop, length-append, ◌∙◌, sym, subst, ap,
}
use fleet_router.Prelude.Words.{le_bytes}
use fleet_router.Ship.{BlockPos}
use fleet_router.Wire.Reader.{Reader}
use fleet_router.Wire.Reader.Yields.{
  At, Yields, IsPos, pos_bytes, block_pos-Yields, take_front, fits,
}
use fleet_router.Wire.Write.Layout.{append_nil}
use fleet_router.Wire.Reply.{read_positions, read_head_lib, write_pos, patch_head_lib}

pub length-pos_bytes : (p : BlockPos) → IsPos p → length (pos_bytes p) ≡ 36
unfolding pos_bytes IsPos le_bytes
length-pos_bytes p h = omega (arith, h.1)

module _ {A : Type 0} where
  take_exact : (n : ℕ) (xs ys : List A) → length xs ≡ n → take n (xs ++ ys) ≡ xs
  take_exact n xs ys h = subst (λ (k : ℕ). take k (xs ++ ys) ≡ xs) h (take_front xs ys)

  drop_at : (xs : List A) (m n : ℕ) → m ≡ n → drop m xs ≡ drop n xs
  drop_at xs m n h = ap (λ (k : ℕ). drop k xs) h

  drop_nil : (n : ℕ) → drop {A = A} n [] ≡ []
  drop_nil zero = refl
  drop_nil (suc n) = refl

  pub drop_past : (n k : ℕ) (xs ys : List A) → length xs ≡ n → drop (n + k) (xs ++ ys) ≡ drop k ys
  drop_past zero k [] ys h = drop_at ys (0 + k) k (omega arith)
  drop_past (suc n) k [] ys h = absurd (omega arith)
  drop_past zero k (x ∷ xs) ys h = absurd (omega arith)
  drop_past (suc n) k (x ∷ xs) ys h =
      drop_at (x ∷ (xs ++ ys)) (suc n + k) (suc (n + k)) (omega arith)
      ∙ drop_past n k xs ys (omega arith)

  drop-drop : (n k : ℕ) (xs : List A) → drop n (drop k xs) ≡ drop (k + n) xs
  drop-drop n zero xs = drop_at xs n (0 + n) (omega arith)
  drop-drop n (suc k) [] = drop_nil n ∙ sym (drop_nil (suc k + n))
  drop-drop n (suc k) (x ∷ xs) =
      drop-drop n k xs ∙ drop_at (x ∷ xs) (suc (k + n)) (suc k + n) (omega arith)

not_short : (b : ℕ) (fs : List ℕ) → 72 ≤ length fs → ltb (length (b ∷ fs)) 73 ≡ false
not_short b fs h = ground arith

-- The frame after the edit, byte 0 first.
pub patch_head_lib-layout :
    (b : ℕ) (fs : List ℕ) (head lib : BlockPos)
    → 72 ≤ length fs
    → IsPos head
    → IsPos lib
    → patch_head_lib (b ∷ fs) head lib ≡ b ∷ (pos_bytes head ++ (pos_bytes lib ++ drop 72 fs))
unfolding patch_head_lib write_pos pos_bytes
patch_head_lib-layout b fs head lib long hh hl =
    let ph = pos_bytes head in
    let rest = drop 36 fs in
    let size : length ph ≡ 36 = length-pos_bytes head hh in
    let tail : drop 72 (ph ++ rest) ≡ drop 72 fs =
      drop_past 36 36 ph rest size ∙ drop-drop 36 36 fs in
    rw (not_short b fs long, take_exact 36 ph rest size, tail) refl

read_both :
    (b : ℕ) (head lib : BlockPos)
    → IsPos head
    → IsPos lib
    → read_positions (record { buf = b ∷ (pos_bytes head ++ pos_bytes lib); pos = 1 })
      ≡ some (head, lib)
unfolding read_positions Yields
read_both b head lib hh hl =
    let ph = pos_bytes head in
    let pl = pos_bytes lib in
    let r : Reader = record { buf = b ∷ (ph ++ pl); pos = 1 } in
    let size : length (ph ++ pl) ≡ 72 =
      omega (arith, length-append ph pl, length-pos_bytes head hh, length-pos_bytes lib hl) in
    let at : At r.buf r (ph ++ pl) = record {
      same = refl;
      rest = refl;
      inside = omega arith;
      small = omega arith;
    } in
    let (r', e, at') = block_pos-Yields head hh r.buf pl r at in
    let (r'', e', at'') =
      block_pos-Yields lib hl r.buf [] r' (subst (At r.buf r') (sym (append_nil pl)) at') in
    rw (e, read_positions, e') refl

-- The positions of any frame that has them in front.
pub read_head_lib-layout :
    (b : ℕ) (head lib : BlockPos) (tail : List ℕ)
    → IsPos head
    → IsPos lib
    → read_head_lib (b ∷ (pos_bytes head ++ (pos_bytes lib ++ tail))) ≡ some (head, lib)
unfolding read_head_lib
read_head_lib-layout b head lib tail hh hl =
    let ph = pos_bytes head in
    let pl = pos_bytes lib in
    let size : length (ph ++ pl) ≡ 72 =
      omega (arith, length-append ph pl, length-pos_bytes head hh, length-pos_bytes lib hl) in
    let long : leb 73 (length (b ∷ ((ph ++ pl) ++ tail))) ≡ true =
      ground (arith, length-append (ph ++ pl) tail) in
    rw (sym (append_assoc ph pl tail), long, take_exact 72 (ph ++ pl) tail size)
      (read_both b head lib hh hl)

-- Reading a patched frame of at least 73 bytes gives the positions that were written; its length,
-- its index byte and everything from offset 73 are as they were.
pub read_head_lib-patch_head_lib :
    (frame : List ℕ) (head lib : BlockPos)
    → 73 ≤ length frame
    → IsPos head
    → IsPos lib
    → (read_head_lib (patch_head_lib frame head lib) ≡ some (head, lib))
      × (length (patch_head_lib frame head lib) ≡ length frame)
      × (take 1 (patch_head_lib frame head lib) ≡ take 1 frame)
      × (drop 73 (patch_head_lib frame head lib) ≡ drop 73 frame)
read_head_lib-patch_head_lib [] head lib long hh hl = absurd (omega arith)
read_head_lib-patch_head_lib (b ∷ fs) head lib long hh hl =
    let ph = pos_bytes head in
    let pl = pos_bytes lib in
    let size : length (ph ++ pl) ≡ 72 =
      omega (arith, length-append ph pl, length-pos_bytes head hh, length-pos_bytes lib hl) in
    rw (patch_head_lib-layout b fs head lib (omega arith) hh hl) (
      read_head_lib-layout b head lib (drop 72 fs) hh hl,
      omega (
        arith,
        size,
        fits 72 fs (omega arith),
        length-append (ph ++ pl) (drop 72 fs),
        ap length (append_assoc ph pl (drop 72 fs)),
      ),
      refl,
      rw (sym (append_assoc ph pl (drop 72 fs))) (drop_past 72 0 (ph ++ pl) (drop 72 fs) size),
    )
