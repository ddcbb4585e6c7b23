-- ===== src/Wire/Request.antt =====
-- src/ship/wire.rs: decoding and encoding of the clients' requests.
pub mod Fields
pub mod RoundTrip
pub mod Bounds
use fleet_router.Prelude.{
  ℕ, zero, suc, ◌/◌, ◌%◌, ◌^◌, Bool, true, false, List, [], ◌∷◌, ltb, ◌==◌, if◌then◌else◌, length,
  is_nil,
}
use fleet_router.Ship.{BlockPos}
use fleet_router.Wire.{
  BlocksRequest, ClientMsg, DecodeError, status, blocks, ack, empty, truncated, unknown_variant,
  too_many_positions, req_status_v0, req_blocks_v0, req_ack, req_blocks_v1, req_status_v1, pos_len,
  max_positions,
}
use fleet_router.Wire.Reader.{
  Reader, Outcome, ok, err, Read, ◌>>=◌, pure, fail, remaining, u32, bool, block_pos, varuint32,
}
use fleet_router.Wire.Write.{put_u32, put_positions, put_varuint32, put_bool}

-- The loop that pushes `count` positions.
unfoldable pub read_positions : ℕ → Read (List BlockPos)
unfolding block_pos
read_positions zero = pure []
read_positions (suc n) = do p ← block_pos; ps ← read_positions n; pure (p ∷ ps)

-- `r.remaining() / POS_LEN < count`.
unfoldable pub short_of : ℕ → Read Bool
unfolding remaining
short_of count r = ok (ltb (remaining r / pos_len) count) r

unfoldable pub decode_blocks_request : Bool → Read BlocksRequest
decode_blocks_request v1 = do
  start ← u32
  end ← u32
  max_in_flight ← u32
  count ← varuint32
  short ← short_of count
  if ltb max_positions count
      then fail (too_many_positions count)
      else if short
      then fail truncated
      else do
        have_positions ← read_positions count
        irreversible_only ← bool
        fetch_block ← bool
        fetch_traces ← bool
        fetch_deltas ← bool
        fetch_finality_data ← if v1 then bool else pure false
        pure (record {
          v1 = v1;
          start = start;
          end = end;
          max_in_flight = max_in_flight;
          have_positions = have_positions;
          irreversible_only = irreversible_only;
          fetch_block = fetch_block;
          fetch_traces = fetch_traces;
          fetch_deltas = fetch_deltas;
          fetch_finality_data = fetch_finality_data;
        })

-- The `match` on the variant index.
unfoldable pub decode_variant : ℕ → Read ClientMsg
decode_variant index =
    if index == req_status_v0
    then pure (status false)
    else if index == req_blocks_v0
    then (do q ← decode_blocks_request false; pure (blocks q))
    else if index == req_ack
    then (do n ← u32; pure (ack n))
    else if index == req_blocks_v1
    then (do q ← decode_blocks_request true; pure (blocks q))
    else if index == req_status_v1
    then pure (status true)
    else fail (unknown_variant index)

-- Where the reader ends is not part of the result.
unfoldable pub decode_client : List ℕ → Outcome ClientMsg
decode_client b =
    if is_nil b
    then err empty
    else (do index ← varuint32; decode_variant index) (record { buf = b; pos = 0 })

-- A count is written as a u32.
unfoldable pub encode_blocks_request : BlocksRequest → List ℕ
encode_blocks_request r =
    let out = put_varuint32 [] (if r.v1 then req_blocks_v1 else req_blocks_v0) in
    let out = put_u32 out r.start in
    let out = put_u32 out r.end in
    let out = put_u32 out r.max_in_flight in
    let out = put_varuint32 out (length r.have_positions % 2 ^ 32) in
    let out = put_positions out r.have_positions in
    let out = put_bool out r.irreversible_only in
    let out = put_bool out r.fetch_block in
    let out = put_bool out r.fetch_traces in
    let out = put_bool out r.fetch_deltas in
    if r.v1 then put_bool out r.fetch_finality_data else out

unfoldable pub encode_ack : ℕ → List ℕ
encode_ack n = put_u32 (put_varuint32 [] req_ack) n

unfoldable pub encode_status_request : Bool → List ℕ
encode_status_request v1 = put_varuint32 [] (if v1 then req_status_v1 else req_status_v0)
