-- ===== src/Wire/Request/RoundTrip.antt =====
-- The router reads back the requests that it writes, and bytes after a request change nothing.
use fleet_router.Prelude.{
  ℕ, ◌+◌, ◌≤◌, ◌≡◌, refl, Bool, true, false, List, [], ◌∷◌, ◌++◌, arith, ltb, Bool-cases, inl, inr,
  if◌then◌else◌, length, drop, subst,
}
use fleet_router.Prelude.Words.{le_bytes, usize_max}
use fleet_router.Wire.{BlocksRequest, ClientMsg, status, ack}
use fleet_router.Wire.Reader.{Reader, ok, ◌>>=◌, pure, u32, varuint32}
use fleet_router.Wire.Reader.Yields.{At, Yields, bind, bind_pure, pure-Yields, IsU32, u32-Yields}
use fleet_router.Wire.Reader.Varint.{groups, varuint32-Yields}
use fleet_router.Wire.Write.{put_u32}
use fleet_router.Wire.Write.Layout.{put_varuint32_lem}
use fleet_router.Wire.Request.{
  decode_blocks_request, decode_variant, decode_client, encode_blocks_request, encode_ack,
  encode_status_request,
}
use fleet_router.Wire.Request.Fields.{
  index_of, request_bytes, IsSendable, as_sent, index-IsU32, encode_blocks_request-layout,
  decode_blocks_request-Yields,
}

-- `decode_client` returns `msg` and leaves the bytes `extra` unread.
pub DecodesTo : List ℕ → ClientMsg → List ℕ → Type 0
DecodesTo b msg extra = (r : Reader) × (decode_client b ≡ ok msg r) × (drop r.pos r.buf ≡ extra)

decodes :
    (msg : ClientMsg) (x : ℕ) (xs extra : List ℕ)
    → Yields (varuint32 >>= decode_variant) msg (x ∷ xs)
    → length ((x ∷ xs) ++ extra) ≤ usize_max
    → DecodesTo ((x ∷ xs) ++ extra) msg extra
unfolding DecodesTo decode_client Yields
decodes msg x xs extra reads small =
    let r : Reader = record { buf = (x ∷ xs) ++ extra; pos = 0 } in
    let at : At r.buf r ((x ∷ xs) ++ extra) = record {
      same = refl;
      rest = refl;
      inside = omega arith;
      small = small;
    } in
    let (r', e, at') = reads r.buf extra r at in (r', rw (e, ◌>>=◌) refl, at'.rest)

index-Yields :
    (index : ℕ) (msg : ClientMsg) (xs : List ℕ)
    → ltb index 5 ≡ true
    → Yields (decode_variant index) msg xs
    → Yields (varuint32 >>= decode_variant) msg (index ∷ xs)
unfolding groups
index-Yields index msg xs low next =
    let one : ltb index 128 ≡ true = ground arith in
    let bytes : groups 4 index ≡ index ∷ [] = rw one refl in
    bind varuint32 decode_variant index msg (index ∷ []) xs
      (subst (Yields varuint32 index) bytes (varuint32-Yields index (index-IsU32 index low))) next

variant-Yields :
    (q : BlocksRequest)
    → IsSendable q
    → Yields (decode_variant (index_of q)) (ClientMsg.blocks (as_sent q)) (request_bytes q)
unfolding decode_variant index_of
variant-Yields q h = decoded q.v1 refl
  where
    body :
        (v1 : Bool)
        → q.v1 ≡ v1
        → Yields
            (decode_blocks_request v1 >>= λ r. pure (ClientMsg.blocks r))
            (ClientMsg.blocks (as_sent q))
            (request_bytes q)
    body v1 e =
        bind_pure (decode_blocks_request v1) ClientMsg.blocks (as_sent q) (request_bytes q) (
          subst (λ (b : Bool). Yields (decode_blocks_request b) (as_sent q) (request_bytes q)) e
            (decode_blocks_request-Yields q h))

    decoded :
        (v1 : Bool)
        → q.v1 ≡ v1
        → Yields
            (decode_variant (if v1 then 3 else 1))
            (ClientMsg.blocks (as_sent q))
            (request_bytes q)
    decoded true e = body true e
    decoded false e = body false e

index_of_lem :
    (q : BlocksRequest) → (ltb (index_of q) 5 ≡ true) × (groups 4 (index_of q) ≡ index_of q ∷ [])
unfolding index_of groups
index_of_lem q = elim (Bool-cases q.v1) [ inl e ↦ rw e (refl, refl) | inr e ↦ rw e (refl, refl) ]

-- A request that the router encodes is decoded to what was sent, whatever follows it in the
-- message, when its numbers fit their fields, it has at most `MAX_POSITIONS` positions and the
-- message fits in memory. A v0 request comes back with its finality flag unset.
pub decode_client-encode_blocks_request :
    (q : BlocksRequest) (extra : List ℕ)
    → IsSendable q
    → length (encode_blocks_request q ++ extra) ≤ usize_max
    → DecodesTo (encode_blocks_request q ++ extra) (ClientMsg.blocks (as_sent q)) extra
decode_client-encode_blocks_request q extra h room =
    let (low, one) = index_of_lem q in
    let e : encode_blocks_request q ≡ index_of q ∷ request_bytes q =
      rw (encode_blocks_request-layout q h, one) refl in
    let fits = subst (λ (b : List ℕ). length (b ++ extra) ≤ usize_max) e room in
    rw e (
      decodes (ClientMsg.blocks (as_sent q)) (index_of q) (request_bytes q) extra
        (index-Yields (index_of q) (ClientMsg.blocks (as_sent q)) (request_bytes q) low
          (variant-Yields q h))
        fits)

encode_ack_lem : (n : ℕ) → encode_ack n ≡ 2 ∷ le_bytes 4 n
unfolding encode_ack put_u32 groups
encode_ack_lem n = rw (put_varuint32_lem [] 2 (index-IsU32 2 refl)) refl

encode_status_request_lem : (v1 : Bool) → encode_status_request v1 ≡ (if v1 then 4 else 0) ∷ []
unfolding encode_status_request groups
encode_status_request_lem false = put_varuint32_lem [] 0 (index-IsU32 0 refl)
encode_status_request_lem true = put_varuint32_lem [] 4 (index-IsU32 4 refl)

ack-Yields : (n : ℕ) → IsU32 n → Yields (decode_variant 2) (ack n) (le_bytes 4 n)
unfolding decode_variant
ack-Yields n h = bind_pure u32 ack n (le_bytes 4 n) (u32-Yields n h)

status-Yields : (v1 : Bool) → Yields (decode_variant (if v1 then 4 else 0)) (ClientMsg.status v1) []
unfolding decode_variant
status-Yields false = pure-Yields (ClientMsg.status false)
status-Yields true = pure-Yields (ClientMsg.status true)

room_for :
    (n : ℕ) (extra : List ℕ)
    → length extra + 5 ≤ usize_max
    → length ((2 ∷ le_bytes 4 n) ++ extra) ≤ usize_max
unfolding le_bytes
room_for n extra h = omega (arith, h)

-- An encoded ack is decoded to its count, and an encoded status request to its version, whatever
-- follows them.
pub decode_client-encode_ack :
    (n : ℕ) (v1 : Bool) (extra : List ℕ)
    → IsU32 n
    → length extra + 5 ≤ usize_max
    → DecodesTo (encode_ack n ++ extra) (ack n) extra
      × DecodesTo (encode_status_request v1 ++ extra) (status v1) extra
decode_client-encode_ack n v1 extra h small =
    let index : ℕ = if v1 then 4 else 0 in
    let room : length ((index ∷ []) ++ extra) ≤ usize_max = omega (arith, small) in
    let low : ltb index 5 ≡ true = status_index v1 in
    (
      rw (encode_ack_lem n) (
          decodes (ack n) 2 (le_bytes 4 n) extra
            (index-Yields 2 (ack n) (le_bytes 4 n) refl (ack-Yields n h)) (room_for n extra small)),
      rw (encode_status_request_lem v1) (
          decodes (ClientMsg.status v1) index [] extra
            (index-Yields index (ClientMsg.status v1) [] low (status-Yields v1)) room),
    )
  where
    status_index : (v1 : Bool) → ltb (if v1 then 4 else 0) 5 ≡ true
    status_index false = refl
    status_index true = refl
