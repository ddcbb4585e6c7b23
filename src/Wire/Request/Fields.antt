-- ===== src/Wire/Request/Fields.antt =====
-- A request field by field: what is written and what is read of each.
use mathlib.Core.List.{append_assoc}
use fleet_router.Prelude.{
  ℕ, ◌*◌, ◌/◌, ◌%◌, ◌^◌, ◌≤◌, ◌≡◌, refl, Bool, true, false, ◌&&◌, List, [], ◌∷◌, ◌++◌, arith, ltb,
  Bool-cases, inl, inr, if◌then◌else◌, length, length-append, All,
}
use fleet_router.Prelude.Words.{le_bytes}
use fleet_router.Ship.{BlockPos}
use fleet_router.Wire.{BlocksRequest, max_positions}
use fleet_router.Wire.Reader.{Read, ◌>>=◌, pure, remaining, u32, bool, block_pos, varuint32}
use fleet_router.Wire.Reader.Yields.{
  remaining-At, Yields, bind, bind_pure, pure-Yields, IsU32, IsPos, pos_bytes, u32-Yields,
  bool-Yields, block_pos-Yields,
}
use fleet_router.Wire.Reader.Varint.{groups, varuint32-Yields}
use fleet_router.Wire.Write.{bool_byte, put_bool, put_u32, put_positions, put_varuint32}
use fleet_router.Wire.Write.Layout.{positions_bytes, put_positions_lem, put_varuint32_lem}
use fleet_router.Wire.Request.{
  read_positions, short_of, decode_blocks_request, encode_blocks_request,
}

read_positions-Yields :
    (ps : List BlockPos)
    → All IsPos ps
    → Yields (read_positions (length ps)) ps (positions_bytes ps)
unfolding read_positions positions_bytes
read_positions-Yields [] h = pure-Yields []
read_positions-Yields (p ∷ ps) (hp, hps) =
    bind block_pos _ p (p ∷ ps) (pos_bytes p) (positions_bytes ps) (block_pos-Yields p hp) (
      bind_pure (read_positions (length ps)) (λ rest. p ∷ rest) ps (positions_bytes ps)
        (read_positions-Yields ps hps))

length-positions_bytes :
    (ps : List BlockPos) → All IsPos ps → length (positions_bytes ps) ≡ 36 * length ps
unfolding positions_bytes pos_bytes IsPos le_bytes
length-positions_bytes [] h = refl
length-positions_bytes (p ∷ ps) (hp, hps) = omega (
  arith,
  length-positions_bytes ps hps,
  hp.1,
  length-append (pos_bytes p) (positions_bytes ps),
  length-append (le_bytes 4 p.num) p.id,
)

accepted : (n : ℕ) → n ≤ max_positions → ltb max_positions n ≡ false
accepted n h = ground arith

-- The check of the count passes when the positions are there.
short_of-Yields :
    {A : Type 0} (count : ℕ) (f : Bool → Read A) (a : A) (xs : List ℕ)
    → 36 * count ≤ length xs
    → Yields (f false) a xs
    → Yields (short_of count >>= f) a xs
unfolding Yields short_of
short_of-Yields count f a xs h next buf ys r at =
    let enough : ltb (remaining r / 36) count ≡ false =
      ground (arith, remaining-At buf r (xs ++ ys) at, length-append xs ys) in
    rw enough (next buf ys r at)

-- The bytes of a request after its index; the finality flag is only written in v1.
finality_bytes : BlocksRequest → List ℕ
finality_bytes q = if q.v1 then bool_byte q.fetch_finality_data ∷ [] else []

flag_bytes : BlocksRequest → List ℕ
unfolding finality_bytes
flag_bytes q =
    bool_byte q.irreversible_only
    ∷ bool_byte q.fetch_block
    ∷ bool_byte q.fetch_traces
    ∷ bool_byte q.fetch_deltas
    ∷ finality_bytes q

pub request_bytes : BlocksRequest → List ℕ
unfolding flag_bytes
request_bytes q =
    let flags = positions_bytes q.have_positions ++ flag_bytes q in
    let counted = groups 4 (length q.have_positions) ++ flags in
    le_bytes 4 q.start ++ (le_bytes 4 q.end ++ (le_bytes 4 q.max_in_flight ++ counted))

unfoldable pub index_of : BlocksRequest → ℕ
index_of q = if q.v1 then 3 else 1

-- The numbers fit their fields, and a node accepts the count of positions.
pub record IsSendable (q : BlocksRequest) : Type 0 where
  pub start : IsU32 q.start
  pub end : IsU32 q.end
  pub max_in_flight : IsU32 q.max_in_flight
  pub positions : All IsPos q.have_positions
  pub count : length q.have_positions ≤ max_positions

-- A v0 request has no finality flag, and it is read back as unset.
unfoldable pub as_sent : BlocksRequest → BlocksRequest
as_sent q = record q { fetch_finality_data = q.v1 && q.fetch_finality_data }

put_request :
    (index : ℕ) (q : BlocksRequest)
    → IsU32 index
    → IsSendable q
    → put_positions
        (put_varuint32
          (put_u32 (put_u32 (put_u32 (put_varuint32 [] index) q.start) q.end) q.max_in_flight)
          (length q.have_positions % 2 ^ 32))
        q.have_positions
      ≡ groups 4 index
        ++ le_bytes 4 q.start
        ++ le_bytes 4 q.end
        ++ le_bytes 4 q.max_in_flight
        ++ groups 4 (length q.have_positions)
        ++ positions_bytes q.have_positions
unfolding put_u32 IsU32
put_request index q small h =
    let count = length q.have_positions in
    let same : count % 2 ^ 32 ≡ count = omega (arith, h.count) in
    let fields =
      groups 4 index ++ le_bytes 4 q.start ++ le_bytes 4 q.end ++ le_bytes 4 q.max_in_flight in
    rw
      (
        same,
        put_varuint32_lem [] index small,
        put_varuint32_lem fields count (omega (arith, h.count)),
      )
      (put_positions_lem (fields ++ groups 4 count) q.have_positions)

pub index-IsU32 : (n : ℕ) → ltb n 5 ≡ true → IsU32 n
unfolding IsU32
index-IsU32 n e = ground arith

pub encode_blocks_request-layout :
    (q : BlocksRequest)
    → IsSendable q
    → encode_blocks_request q ≡ groups 4 (index_of q) ++ request_bytes q
unfolding encode_blocks_request put_bool request_bytes flag_bytes finality_bytes index_of
encode_blocks_request-layout q h = elim (Bool-cases q.v1) [
  | inl e ↦ rw (e, put_request 3 q (index-IsU32 3 refl) h) simp append_assoc refl
  | inr e ↦ rw (e, put_request 1 q (index-IsU32 1 refl) h) simp append_assoc refl
]

finality-Yields :
    (q : BlocksRequest)
    → Yields (if q.v1 then bool else pure false) (q.v1 && q.fetch_finality_data) (finality_bytes q)
unfolding finality_bytes
finality-Yields q = elim (Bool-cases q.v1) [
  | inl e ↦ rw e (bool-Yields q.fetch_finality_data)
  | inr e ↦ rw e (pure-Yields false)
]

flags-Yields :
    (q : BlocksRequest)
    → IsSendable q
    → Yields
        (read_positions (length q.have_positions) >>= λ have_positions.
          bool >>= λ irreversible_only. bool >>= λ fetch_block. bool >>= λ fetch_traces.
          bool >>= λ fetch_deltas. (if q.v1 then bool else pure false) >>= λ fetch_finality_data.
          pure (record {
            v1 = q.v1;
            start = q.start;
            end = q.end;
            max_in_flight = q.max_in_flight;
            have_positions = have_positions;
            irreversible_only = irreversible_only;
            fetch_block = fetch_block;
            fetch_traces = fetch_traces;
            fetch_deltas = fetch_deltas;
            fetch_finality_data = fetch_finality_data;
          }))
        (as_sent q)
        (positions_bytes q.have_positions ++ flag_bytes q)
unfolding flag_bytes as_sent
flags-Yields q h =
    let ps = q.have_positions in
    let done = as_sent q in
    let fin = finality_bytes q in
    let bit : Bool → List ℕ = λ b. bool_byte b ∷ [] in
    bind (read_positions (length ps)) _ ps done (positions_bytes ps) (flag_bytes q)
      (read_positions-Yields ps h.positions)
      (bind bool _ q.irreversible_only done (bit q.irreversible_only) _
        (bool-Yields q.irreversible_only)
        (bind bool _ q.fetch_block done (bit q.fetch_block) _ (bool-Yields q.fetch_block) (
          bind bool _ q.fetch_traces done (bit q.fetch_traces) _ (bool-Yields q.fetch_traces) (
            bind bool _ q.fetch_deltas done (bit q.fetch_deltas) fin (bool-Yields q.fetch_deltas) (
              bind_pure (if q.v1 then bool else pure false) _ (q.v1 && q.fetch_finality_data) fin
                (finality-Yields q))))))

pub decode_blocks_request-Yields :
    (q : BlocksRequest)
    → IsSendable q
    → Yields (decode_blocks_request q.v1) (as_sent q) (request_bytes q)
unfolding decode_blocks_request request_bytes IsU32
decode_blocks_request-Yields q h =
    let ps = q.have_positions in
    let flags = positions_bytes ps ++ flag_bytes q in
    let counted = groups 4 (length ps) ++ flags in
    let limit = le_bytes 4 q.max_in_flight ++ counted in
    bind u32 _ q.start (as_sent q) (le_bytes 4 q.start) (le_bytes 4 q.end ++ limit)
      (u32-Yields q.start h.start)
      (bind u32 _ q.end (as_sent q) (le_bytes 4 q.end) limit (u32-Yields q.end h.end) (
        bind u32 _ q.max_in_flight (as_sent q) (le_bytes 4 q.max_in_flight) counted
          (u32-Yields q.max_in_flight h.max_in_flight)
          (bind varuint32 _ (length ps) (as_sent q) (groups 4 (length ps)) flags
            (varuint32-Yields (length ps) (omega (arith, h.count)))
            (short_of-Yields (length ps) _ (as_sent q) flags
              (omega (
                arith,
                length-append (positions_bytes ps) (flag_bytes q),
                length-positions_bytes ps h.positions,
              ))
              (rw (accepted (length ps) h.count) (flags-Yields q h))))))
