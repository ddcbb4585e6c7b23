-- ===== src/Wire/Tests.antt =====
-- Small messages, written and read.
use fleet_router.Prelude.{
  ℕ, zero, suc, ◌≤◌, ◌*◌, ◌≡◌, refl, true, false, List, [], ◌∷◌, ◌++◌, none, some, arith, length,
  take, drop,
}
use fleet_router.Prelude.Words.{le_bytes}
use fleet_router.Ship.{BlockPos, Range}
use fleet_router.Wire.Reader.{ok, varuint32, remaining, block_pos, u32, bool}
use fleet_router.Wire.Request.Bounds.{decode_client-bounds}
use fleet_router.Wire.{max_positions, BlocksRequest, ClientMsg, UpstreamMsg, StatusBody}
use fleet_router.Wire.Reader.Yields.{IsPos, IsU32, pos_bytes}
use fleet_router.Wire.Request.{
  decode_client, decode_variant, decode_blocks_request, short_of, read_positions,
  encode_blocks_request,
}
use fleet_router.Wire.Request.RoundTrip.{DecodesTo, decode_client-encode_blocks_request}
use fleet_router.Wire.Request.Fields.{IsSendable, as_sent}
use fleet_router.Wire.Reply.{classify_upstream, read_head_lib, patch_head_lib, insert_prev_block}
use fleet_router.Wire.Reply.Patch.{read_head_lib-patch_head_lib}
use fleet_router.Wire.Reply.Head.{
  BlockResult, IsWellFormed, frame_of, head_of, classify_upstream-frame, insert_prev_block-frame,
  IsOptionalPos, optional_bytes_of, result_index,
}
use fleet_router.Wire.Reply.Status.{IsSendableStatus}
use fleet_router.Wire.Write.{put_u32, put_pos, put_positions, put_varuint32, put_bool, bool_byte}

abbrev zeros : ℕ → List ℕ
zeros zero = []
zeros (suc n) = 0 ∷ zeros n

abbrev pos : ℕ → BlockPos
pos n = record { num = n; id = zeros 32 }

pos-IsPos : (n : ℕ) → IsU32 n → IsPos (pos n)
unfolding IsPos
pos-IsPos n h = (h, refl)

IsU32-small : (n : ℕ) → n ≤ 1000 → IsU32 n
unfolding IsU32
IsU32-small n h = omega arith

abbrev request : BlocksRequest
request = record {
  v1 = true;
  start = 100;
  end = 900;
  max_in_flight = 50;
  have_positions = pos 98 ∷ pos 99 ∷ [];
  irreversible_only = false;
  fetch_block = true;
  fetch_traces = true;
  fetch_deltas = false;
  fetch_finality_data = true;
}

request-IsSendable : IsSendable request
request-IsSendable = record {
  start = IsU32-small 100 (omega arith);
  end = IsU32-small 900 (omega arith);
  max_in_flight = IsU32-small 50 (omega arith);
  positions = (
    pos-IsPos 98 (IsU32-small 98 (omega arith)),
    (pos-IsPos 99 (IsU32-small 99 (omega arith)), tt),
  );
  count = omega arith;
}

abbrev extra : List ℕ
extra = 7 ∷ 7 ∷ []

decode_client-encode_blocks_request_example :
    DecodesTo (encode_blocks_request request ++ extra) (ClientMsg.blocks (as_sent request)) extra
unfolding encode_blocks_request put_u32 put_pos put_positions put_varuint32 put_bool bool_byte
    le_bytes
decode_client-encode_blocks_request_example =
    decode_client-encode_blocks_request request extra request-IsSendable (omega arith)

-- A result without its previous block.
abbrev result : BlockResult
result = record {
  v1 = true;
  head = pos 199;
  lib = pos 190;
  this_block = some (pos 120);
  prev_block = none;
  payload = 0 ∷ 0 ∷ 0 ∷ 0 ∷ [];
}

result-IsWellFormed : IsWellFormed result
unfolding IsOptionalPos
result-IsWellFormed = record {
  head = pos-IsPos 199 (IsU32-small 199 (omega arith));
  lib = pos-IsPos 190 (IsU32-small 190 (omega arith));
  this_block = pos-IsPos 120 (IsU32-small 120 (omega arith));
  prev_block = tt;
}

classify_upstream-frame_example :
    classify_upstream (frame_of result) ≡ UpstreamMsg.blocks (head_of result)
unfolding frame_of pos_bytes optional_bytes_of le_bytes result_index
classify_upstream-frame_example = classify_upstream-frame result result-IsWellFormed (omega arith)

abbrev filled : BlockResult
filled = record result { prev_block = some (pos 119) }

insert_prev_block-frame_example :
    (insert_prev_block (frame_of result) (head_of result) (pos 119)
      ≡ some (frame_of filled, head_of filled))
    × (classify_upstream (frame_of filled) ≡ UpstreamMsg.blocks (head_of filled))
unfolding frame_of pos_bytes optional_bytes_of le_bytes result_index
insert_prev_block-frame_example =
    insert_prev_block-frame result (pos 120) (pos 119) result-IsWellFormed refl refl
      (pos-IsPos 119 (IsU32-small 119 (omega arith))) (omega arith)

abbrev frame : List ℕ
frame = 1 ∷ zeros 80

read_head_lib-patch_head_lib_example :
    (read_head_lib (patch_head_lib frame (pos 5) (pos 4)) ≡ some (pos 5, pos 4))
    × (length (patch_head_lib frame (pos 5) (pos 4)) ≡ length frame)
    × (take 1 (patch_head_lib frame (pos 5) (pos 4)) ≡ take 1 frame)
    × (drop 73 (patch_head_lib frame (pos 5) (pos 4)) ≡ drop 73 frame)
read_head_lib-patch_head_lib_example =
    read_head_lib-patch_head_lib frame (pos 5) (pos 4) (omega arith)
      (pos-IsPos 5 (IsU32-small 5 (omega arith))) (pos-IsPos 4 (IsU32-small 4 (omega arith)))

abbrev span : Range
span = record { begin = 1; end = 200 }

abbrev body : StatusBody
body = record {
  head = pos 199;
  lib = pos 190;
  trace = span;
  chain_state = span;
  finality = span;
  chain_id = zeros 32;
}

body-IsSendableStatus : IsSendableStatus body
body-IsSendableStatus = record {
  head = pos-IsPos 199 (IsU32-small 199 (omega arith));
  lib = pos-IsPos 190 (IsU32-small 190 (omega arith));
  chain_id = refl;
}

-- A v0 request for blocks 100 to 200 with one position.
abbrev message : List ℕ
message =
    (1 ∷ 100 ∷ 0 ∷ 0 ∷ 0 ∷ 200 ∷ 0 ∷ 0 ∷ 0 ∷ 5 ∷ 0 ∷ 0 ∷ 0 ∷ 1 ∷ 99 ∷ 0 ∷ 0 ∷ 0 ∷ zeros 32)
    ++ (0 ∷ 1 ∷ 1 ∷ 0 ∷ [])

abbrev message_request : BlocksRequest
message_request = record {
  v1 = false;
  start = 100;
  end = 200;
  max_in_flight = 5;
  have_positions = pos 99 ∷ [];
  irreversible_only = false;
  fetch_block = true;
  fetch_traces = true;
  fetch_deltas = false;
  fetch_finality_data = false;
}

message-decoded :
    decode_client message
    ≡ ok (ClientMsg.blocks message_request) (record { buf = message; pos = 54 })
unfolding decode_client decode_variant decode_blocks_request varuint32 short_of remaining
    read_positions block_pos u32 bool
message-decoded = refl

decode_client-bounds_example :
    (length message_request.have_positions ≤ max_positions)
    × (36 * length message_request.have_positions ≤ length message)
decode_client-bounds_example = decode_client-bounds message message_request _ message-decoded
