-- ===== src/Wire/Reply.antt =====
-- src/ship/wire.rs: classification of what an upstream sends, the status result that the router
-- builds, and the edits of a frame in place. Whether an edit copies the frame is not modelled.
pub mod Patch
pub mod Head
pub mod Status
use fleet_router.Prelude.{
  ℕ, zero, suc, ◌+◌, ◌-◌, Bool, true, false, ◌&&◌, ◌||◌, not, List, [], ◌∷◌, ◌++◌, Option, none,
  some, leb, ltb, ◌==◌, if◌then◌else◌, length, take, drop, head?, get_elem?, is_some,
}
use fleet_router.Prelude.Words.{le_bytes}
use fleet_router.Ship.{BlockPos}
use fleet_router.Wire.{
  ResultHead, UpstreamMsg, Presence, StatusBody, other, res_status_v0, res_blocks_v0, res_blocks_v1,
  res_status_v1, pos_len, head_lib_end, status_v0_min_len, status_v1_len,
}
use fleet_router.Wire.Reader.{
  Reader, Outcome, ok, err, Read, ◌>>=◌, pure, u8, bool, block_pos, optional_pos, optional_bytes,
  w32, w64,
}
use fleet_router.Wire.Write.{put_u32, put_pos}

-- `r.pos`, as a read.
abbrev pub position : Read ℕ
position r = ok r.pos r

unfoldable pub decode_result_head : Read ResultHead
decode_result_head = do
  index ← u8
  head ← block_pos
  lib ← block_pos
  this_block ← optional_pos
  prev_block ← optional_pos
  fields_at ← position
  pure (record {
    v1 = index == res_blocks_v1;
    head = head;
    lib = lib;
    this_block = this_block;
    prev_block = prev_block;
    fields_at = fields_at;
  })

-- The arms of the `match` on the first byte, in their order.
unfoldable pub classify_first : ℕ → List ℕ → UpstreamMsg
classify_first byte b =
    if byte == res_status_v0 && leb status_v0_min_len (length b)
    then UpstreamMsg.status false
    else if byte == res_status_v1 && leb status_v1_len (length b)
    then UpstreamMsg.status true
    else if byte == res_blocks_v0 || byte == res_blocks_v1
    then elim (decode_result_head (record { buf = b; pos = 0 })) [
      | ok h r ↦ UpstreamMsg.blocks h
      | err e ↦ other
    ]
    else other

unfoldable pub classify_upstream : List ℕ → UpstreamMsg
unfolding classify_first
classify_upstream [] = other
classify_upstream (byte ∷ rest) = classify_first byte (byte ∷ rest)

unfoldable pub read_presence : Bool → Read Presence
read_presence v1 = do
  block ← optional_bytes w32
  traces ← optional_bytes w64
  deltas ← optional_bytes w64
  finality ← if v1 then optional_bytes w64 else pure false
  pure (record { block = block; traces = traces; deltas = deltas; finality = finality })

unfoldable pub result_presence : List ℕ → ResultHead → Outcome Presence
result_presence b h = read_presence h.v1 (record { buf = b; pos = h.fields_at })

unfoldable pub encode_status : Bool → StatusBody → List ℕ
encode_status v1 s =
    let out = (if v1 then res_status_v1 else res_status_v0) ∷ [] in
    let out = put_pos out s.head in
    let out = put_pos out s.lib in
    let out = put_u32 out s.trace.begin in
    let out = put_u32 out s.trace.end in
    let out = put_u32 out s.chain_state.begin in
    let out = put_u32 out s.chain_state.end in
    let out = out ++ s.chain_id in
    if v1 then put_u32 (put_u32 out s.finality.begin) s.finality.end else out

unfoldable pub read_positions : Reader → Option (BlockPos × BlockPos)
read_positions r = elim (block_pos r) [
  | err e ↦ none
  | ok head r' ↦ elim (block_pos r') [ err e ↦ none | ok lib r'' ↦ some (head, lib) ]
]

-- `frame.get(..HEAD_LIB_END)`, and the two positions from offset 1.
unfoldable pub read_head_lib : List ℕ → Option (BlockPos × BlockPos)
read_head_lib frame =
    if leb head_lib_end (length frame)
    then read_positions (record { buf = take head_lib_end frame; pos = 1 })
    else none

-- `write_pos` into the slot of 36 bytes at `offset`.
unfoldable pub write_pos : ℕ → BlockPos → List ℕ → List ℕ
write_pos offset p buf =
    take offset buf ++ ((le_bytes 4 p.num ++ p.id) ++ drop (offset + pos_len) buf)

unfoldable pub patch_head_lib : List ℕ → BlockPos → BlockPos → List ℕ
patch_head_lib frame head lib =
    if ltb (length frame) head_lib_end
    then frame
    else write_pos (1 + pos_len) lib (write_pos 1 head frame)

unfoldable pub insert_prev_block : List ℕ → ResultHead → BlockPos → Option (List ℕ × ResultHead)
insert_prev_block frame h prev =
    if not (is_some h.this_block) || is_some h.prev_block
    then none
    else if h.fields_at == 0
    then none
    else elim (get_elem? frame (h.fields_at - 1)) [
      | none ↦ none
      | some byte ↦
          if byte == 0
          then some (
            take (h.fields_at - 1) frame
                ++ (1 ∷ ((le_bytes 4 prev.num ++ prev.id) ++ drop h.fields_at frame)),
            record h { prev_block = some prev; fields_at = h.fields_at + pos_len },
          )
          else none
    ]
