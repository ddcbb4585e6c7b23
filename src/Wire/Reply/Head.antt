-- ===== src/Wire/Reply/Head.antt =====
-- A block result as a node writes it: what the router reads of it, and the frame that it sends when
-- it fills in an absent `prev_block`.
use mathlib.Core.List.{append_assoc}
use fleet_router.Prelude.{
  ℕ, suc, ◌+◌, ◌-◌, ◌≤◌, ◌≡◌, refl, Bool, true, false, List, [], ◌∷◌, ◌++◌, Option, none, some,
  arith, if◌then◌else◌, length, drop, length-append, ap, ◌∙◌, get_elem?, ◌==◌, ◌||◌,
}
use fleet_router.Prelude.Words.{usize_max}
use fleet_router.Ship.{BlockPos}
use fleet_router.Wire.{ResultHead, UpstreamMsg}
use fleet_router.Wire.Reader.{Reader, ok, ◌>>=◌, bool, block_pos, optional_pos}
use fleet_router.Wire.Reader.Yields.{
  At, Yields, bind, bind_pure, pure-Yields, u8-Yields, bool-Yields, IsPos, pos_bytes,
  block_pos-Yields, take_front, fits,
}
use fleet_router.Wire.Write.{bool_byte}
use fleet_router.Wire.Reply.Patch.{length-pos_bytes}
use fleet_router.Wire.Reply.{
  decode_result_head, classify_first, classify_upstream, insert_prev_block,
}

-- An optional position: the presence byte, and the position.
unfoldable pub optional_bytes_of : Option BlockPos → List ℕ
optional_bytes_of none = 0 ∷ []
optional_bytes_of (some p) = 1 ∷ pos_bytes p

unfoldable pub IsOptionalPos : Option BlockPos → Type 0
IsOptionalPos none = Unit
IsOptionalPos (some p) = IsPos p

optional_pos-Yields :
    (o : Option BlockPos) → IsOptionalPos o → Yields optional_pos o (optional_bytes_of o)
unfolding optional_pos optional_bytes_of IsOptionalPos bool_byte
optional_pos-Yields none h =
    bind bool _ false none (0 ∷ []) [] (bool-Yields false) (pure-Yields none)
optional_pos-Yields (some p) h =
    bind bool _ true (some p) (1 ∷ []) (pos_bytes p) (bool-Yields true)
      (bind_pure block_pos some p (pos_bytes p) (block_pos-Yields p h))

-- What an upstream sends for a block.
pub record BlockResult : Type 0 where
  pub v1 : Bool
  pub head : BlockPos
  pub lib : BlockPos
  pub this_block : Option BlockPos
  pub prev_block : Option BlockPos
  pub payload : List ℕ

pub record IsWellFormed (b : BlockResult) : Type 0 where
  pub head : IsPos b.head
  pub lib : IsPos b.lib
  pub this_block : IsOptionalPos b.this_block
  pub prev_block : IsOptionalPos b.prev_block

unfoldable pub result_index : BlockResult → ℕ
result_index b = if b.v1 then 2 else 1

before_prev : BlockResult → List ℕ
before_prev b =
    result_index b ∷ (pos_bytes b.head ++ (pos_bytes b.lib ++ optional_bytes_of b.this_block))

unfoldable pub frame_of : BlockResult → List ℕ
frame_of b =
    result_index b
    ∷ (pos_bytes b.head
        ++ (pos_bytes b.lib
            ++ (optional_bytes_of b.this_block ++ (optional_bytes_of b.prev_block ++ b.payload))))

-- What the router keeps of it.
unfoldable pub head_of : BlockResult → ResultHead
head_of b = record {
  v1 = b.v1;
  head = b.head;
  lib = b.lib;
  this_block = b.this_block;
  prev_block = b.prev_block;
  fields_at = length (frame_of b) - length b.payload;
}

index_lem : (b : BlockResult) → (result_index b == 2) ≡ b.v1
unfolding result_index
index_lem b = ground arith

decode_result_head-frame :
    (b : BlockResult)
    → IsWellFormed b
    → length (frame_of b) ≤ usize_max
    → (r : Reader) × (decode_result_head (record { buf = frame_of b; pos = 0 }) ≡ ok (head_of b) r)
unfolding decode_result_head frame_of head_of Yields
decode_result_head-frame b h small =
    let frame = frame_of b in
    let r0 : Reader = record { buf = frame; pos = 0 } in
    let prev = optional_bytes_of b.prev_block ++ b.payload in
    let this = optional_bytes_of b.this_block ++ prev in
    let lib = pos_bytes b.lib ++ this in
    let start : At frame r0 frame = record {
      same = refl;
      rest = refl;
      inside = omega arith;
      small = small;
    } in
    let (r1, e1, at1) = u8-Yields (result_index b) frame (pos_bytes b.head ++ lib) r0 start in
    let (r2, e2, at2) = block_pos-Yields b.head h.head frame lib r1 at1 in
    let (r3, e3, at3) = block_pos-Yields b.lib h.lib frame this r2 at2 in
    let (r4, e4, at4) = optional_pos-Yields b.this_block h.this_block frame prev r3 at3 in
    let (r5, e5, at5) = optional_pos-Yields b.prev_block h.prev_block frame b.payload r4 at4 in
    let end : r5.pos ≡ length frame - length b.payload =
      omega (arith, fits r5.pos r5.buf at5.inside, ap length at5.rest, ap length at5.same) in
    (r5, rw (e1, ◌>>=◌, e2, e3, e4, e5, index_lem b, end) refl)

classify_blocks :
    (index : ℕ) (rest : List ℕ) (h : ResultHead) (r : Reader)
    → (index == 1 || index == 2) ≡ true
    → decode_result_head (record { buf = index ∷ rest; pos = 0 }) ≡ ok h r
    → classify_first index (index ∷ rest) ≡ UpstreamMsg.blocks h
unfolding classify_first
classify_blocks index rest h r is_block decoded = ground arith

index_is_block : (b : BlockResult) → (result_index b == 1 || result_index b == 2) ≡ true
unfolding result_index
index_is_block b = ground arith

-- A well-formed block result that fits in memory is classified as one, with its fields and the
-- offset of its payload.
pub classify_upstream-frame :
    (b : BlockResult)
    → IsWellFormed b
    → length (frame_of b) ≤ usize_max
    → classify_upstream (frame_of b) ≡ UpstreamMsg.blocks (head_of b)
unfolding classify_upstream frame_of
classify_upstream-frame b h small =
    let (r, e) = decode_result_head-frame b h small in
    classify_blocks (result_index b) _ (head_of b) r (index_is_block b) e

get_elem?-past : (xs ys : List ℕ) (y : ℕ) → get_elem? (xs ++ y ∷ ys) (length xs) ≡ some y
get_elem?-past [] ys y = refl
get_elem?-past (x ∷ xs) ys y = ground (arith, get_elem?-past xs ys y)

drop_after : (xs ys : List ℕ) (y : ℕ) → drop (suc (length xs)) (xs ++ y ∷ ys) ≡ ys
drop_after [] ys y = refl
drop_after (x ∷ xs) ys y = drop_after xs ys y

before_prev-append :
    (b : BlockResult) (ys : List ℕ)
    → before_prev b ++ ys
      ≡ result_index b
        ∷ (pos_bytes b.head ++ (pos_bytes b.lib ++ (optional_bytes_of b.this_block ++ ys)))
unfolding before_prev
before_prev-append b ys = simp append_assoc refl

head_of-blocks :
    (b : BlockResult)
    → ((head_of b).this_block ≡ b.this_block) × ((head_of b).prev_block ≡ b.prev_block)
unfolding head_of
head_of-blocks b = (refl, refl)

insert_at :
    (pre payload : List ℕ) (h : ResultHead) (this prev : BlockPos)
    → h.this_block ≡ some this
    → h.prev_block ≡ none
    → h.fields_at ≡ suc (length pre)
    → insert_prev_block (pre ++ (0 ∷ payload)) h prev
      ≡ some (
        pre ++ (1 ∷ (pos_bytes prev ++ payload)),
        record h { prev_block = some prev; fields_at = h.fields_at + 36 },
      )
unfolding insert_prev_block pos_bytes
insert_at pre payload h this prev ht hp hf =
    let flag : h.fields_at - 1 ≡ length pre = omega arith in
    let tail : drop (suc (length pre)) (pre ++ (0 ∷ payload)) ≡ payload =
      drop_after pre payload 0 in
    ground (arith, flag, tail, get_elem?-past pre payload 0, take_front pre (0 ∷ payload))

frame_absent :
    (b : BlockResult) → b.prev_block ≡ none → frame_of b ≡ before_prev b ++ (0 ∷ b.payload)
unfolding frame_of optional_bytes_of
frame_absent b hp = rw (before_prev-append b (0 ∷ b.payload), hp) refl

frame_present :
    (b : BlockResult) (prev : BlockPos)
    → frame_of (record b { prev_block = some prev })
      ≡ before_prev b ++ (1 ∷ (pos_bytes prev ++ b.payload))
unfolding frame_of optional_bytes_of result_index
frame_present b prev = rw (before_prev-append b (1 ∷ (pos_bytes prev ++ b.payload))) refl

module _ (b : BlockResult) (prev : BlockPos) (hp : b.prev_block ≡ none) (pos : IsPos prev) where
  abbrev filled : BlockResult
  filled = record b { prev_block = some prev }

  length-filled : length (frame_of filled) ≡ length (frame_of b) + 36
  length-filled = omega (
    arith,
    ap length (frame_absent b hp),
    ap length (frame_present b prev),
    length-append (before_prev b) (0 ∷ b.payload),
    length-append (before_prev b) (1 ∷ (pos_bytes prev ++ b.payload)),
    length-append (pos_bytes prev) b.payload,
    length-pos_bytes prev pos,
  )

  offset : (head_of b).fields_at ≡ suc (length (before_prev b))
  unfolding head_of
  offset =
      omega (arith, ap length (frame_absent b hp), length-append (before_prev b) (0 ∷ b.payload))

  head_of-filled :
      head_of filled
      ≡ record (head_of b) { prev_block = some prev; fields_at = (head_of b).fields_at + 36 }
  unfolding head_of
  head_of-filled =
      let e : length (frame_of filled) - length b.payload
          ≡ length (frame_of b) - length b.payload + 36 =
        omega (
          arith,
          length-filled,
          ap length (frame_absent b hp),
          length-append (before_prev b) (0 ∷ b.payload),
        ) in
      ap (λ (n : ℕ). record (head_of b) { prev_block = some prev; fields_at = n }) e

-- Filling in the absent `prev_block` of a block result with a `this_block` gives the frame that the
-- node would have sent with it, and the head that this frame is classified with.
pub insert_prev_block-frame :
    (b : BlockResult) (this prev : BlockPos)
    → IsWellFormed b
    → b.this_block ≡ some this
    → b.prev_block ≡ none
    → IsPos prev
    → length (frame_of b) + 36 ≤ usize_max
    → (insert_prev_block (frame_of b) (head_of b) prev
        ≡ some (
          frame_of (record b { prev_block = some prev }),
          head_of (record b { prev_block = some prev }),
        ))
      × (classify_upstream (frame_of (record b { prev_block = some prev }))
          ≡ UpstreamMsg.blocks (head_of (record b { prev_block = some prev })))
unfolding IsOptionalPos
insert_prev_block-frame b this prev h ht hp pos small =
    let inserted =
      insert_at (before_prev b) b.payload (head_of b) this prev ((head_of-blocks b).0 ∙ ht)
        ((head_of-blocks b).1 ∙ hp) (offset b prev hp pos) in
    (
      rw (frame_absent b hp, frame_present b prev, head_of-filled b prev hp pos) inserted,
      classify_upstream-frame (filled b prev hp pos)
          (record { head = h.head; lib = h.lib; this_block = h.this_block; prev_block = pos })
          (omega (arith, length-filled b prev hp pos, small)),
    )
