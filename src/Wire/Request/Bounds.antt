-- ===== src/Wire/Request/Bounds.antt =====
-- What a decoded request can hold.
use fleet_router.Prelude.{
  ℕ, zero, suc, ◌*◌, ◌/◌, ◌≤◌, ◌≡◌, refl, Bool, true, false, List, [], ◌∷◌, arith, ltb, ◌==◌,
  if◌then◌else◌, length, subst, ap, ◌-◌, Bool-cases, inl, inr,
}
use fleet_router.Wire.{
  BlocksRequest, ClientMsg, max_positions, truncated, unknown_variant, ack, too_many_positions,
}
use fleet_router.Wire.Reader.{
  Reader, ok, Read, ◌>>=◌, pure, fail, remaining, u32, bool, block_pos, varuint32,
}
use fleet_router.Wire.Request.{
  read_positions, short_of, decode_blocks_request, decode_variant, decode_client,
}
use fleet_router.Wire.Reader.Ensures.{
  after, Ensures, Whatever, bind-Ensures, then-Ensures, pure-Ensures, fail-Ensures, if-Ensures,
  u32-Ensures, bool-Ensures, varuint32-Ensures, block_pos-Ensures,
}

read_positions-Ensures : (n : ℕ) → Ensures (read_positions n) (λ _ ps. length ps ≡ n)
unfolding read_positions
read_positions-Ensures zero = pure-Ensures [] (λ _ ps. length ps ≡ 0) (λ buf. refl)
read_positions-Ensures (suc n) =
    then-Ensures block_pos _ (λ _ ps. length ps ≡ suc n) block_pos-Ensures
      (λ p.
        bind-Ensures (read_positions n) _ (λ ps. length ps ≡ n) (λ _ ps. length ps ≡ suc n)
          (read_positions-Ensures n)
          (λ ps len. pure-Ensures (p ∷ ps) (λ _ ps. length ps ≡ suc n) (λ buf. ap suc len)))

Counted : ℕ → List ℕ → BlocksRequest → Type 0
Counted count buf q = length q.have_positions ≡ count

InBounds : List ℕ → BlocksRequest → Type 0
InBounds buf q =
    (length q.have_positions ≤ max_positions) × (36 * length q.have_positions ≤ length buf)

-- The two checks of the count, and what they mean for what is read after them.
checked-Ensures :
    (count : ℕ) (rest : Read BlocksRequest)
    → Ensures rest (Counted count)
    → Ensures
        (short_of count >>= λ short.
          if ltb max_positions count
          then fail (too_many_positions count)
          else (if short then fail truncated else rest))
        InBounds
unfolding Ensures Counted InBounds short_of remaining
checked-Ensures count rest counted r q s h = elim (Bool-cases (ltb max_positions count)) [
  | inl e ↦ absurd (ground arith)
  | inr e ↦ elim (Bool-cases (ltb ((length r.buf - r.pos) / 36) count)) [
    | inl short ↦ absurd (ground arith)
    | inr enough ↦
        let (kept, len) = counted r q s (ground arith) in (kept, (ground arith, ground arith))
  ]
]

decode_blocks_request-Ensures : (v1 : Bool) → Ensures (decode_blocks_request v1) InBounds
unfolding decode_blocks_request Whatever Counted
decode_blocks_request-Ensures v1 = then-Ensures u32 _ InBounds u32-Ensures (λ start.
    then-Ensures u32 _ InBounds u32-Ensures (λ end.
      then-Ensures u32 _ InBounds u32-Ensures (λ limit.
        then-Ensures varuint32 _ InBounds varuint32-Ensures (λ count. checked-Ensures count _ (
          bind-Ensures (read_positions count) _ (λ ps. length ps ≡ count) (Counted count)
            (read_positions-Ensures count)
            (λ ps len. then-Ensures bool _ (Counted count) bool-Ensures (λ b1.
              then-Ensures bool _ (Counted count) bool-Ensures (λ b2.
                then-Ensures bool _ (Counted count) bool-Ensures (λ b3.
                  then-Ensures bool _ (Counted count) bool-Ensures (λ b4.
                    then-Ensures (if v1 then bool else pure false) _ (Counted count)
                      (if-Ensures v1 bool (pure false) Whatever bool-Ensures
                        (pure-Ensures false Whatever (λ buf. tt)))
                      (λ b5. pure-Ensures _ (Counted count) (λ buf. len))))))))))))

ClientBounds : List ℕ → ClientMsg → Type 0
ClientBounds buf (ClientMsg.status v1) = Unit
ClientBounds buf (ClientMsg.blocks q) = InBounds buf q
ClientBounds buf (ack n) = Unit

blocks-Ensures :
    (v1 : Bool) → Ensures (decode_blocks_request v1 >>= λ q. pure (ClientMsg.blocks q)) ClientBounds
unfolding ClientBounds Ensures
blocks-Ensures v1 r msg s h =
    let (q, r1, e, h1) =
      after (decode_blocks_request v1) (λ q. pure (ClientMsg.blocks q)) r msg s h in
    let (kept, bounds) = decode_blocks_request-Ensures v1 r q r1 e in
    let same : ClientMsg.blocks q ≡ msg = ground arith in
    let end : r1 ≡ s = ground arith in
    (subst (λ (x : Reader). x.buf ≡ r.buf) end kept, subst (ClientBounds r.buf) same bounds)

variant-Ensures : (index : ℕ) → Ensures (decode_variant index) ClientBounds
unfolding decode_variant ClientBounds
variant-Ensures index =
    if-Ensures (index == 0) _ _ ClientBounds
      (pure-Ensures (ClientMsg.status false) ClientBounds (λ buf. tt))
      (if-Ensures (index == 1) _ _ ClientBounds (blocks-Ensures false) (
        if-Ensures (index == 2) _ _ ClientBounds
          (then-Ensures u32 _ ClientBounds u32-Ensures
            (λ n. pure-Ensures (ack n) ClientBounds (λ buf. tt)))
          (if-Ensures (index == 3) _ _ ClientBounds (blocks-Ensures true) (
            if-Ensures (index == 4) _ _ ClientBounds
              (pure-Ensures (ClientMsg.status true) ClientBounds (λ buf. tt))
              (fail-Ensures (unknown_variant index) ClientBounds)))))

-- Whatever bytes a client sends: a blocks request that is decoded from them has at most
-- `MAX_POSITIONS` positions, and the message is long enough to hold them all.
pub decode_client-bounds :
    (b : List ℕ) (q : BlocksRequest) (r : Reader)
    → decode_client b ≡ ok (ClientMsg.blocks q) r
    → (length q.have_positions ≤ max_positions) × (36 * length q.have_positions ≤ length b)
unfolding decode_client ClientBounds InBounds Ensures
decode_client-bounds [] q r h = absurd (ground arith)
decode_client-bounds (x ∷ xs) q r h =
    (then-Ensures varuint32 decode_variant ClientBounds varuint32-Ensures variant-Ensures
      (record { buf = x ∷ xs; pos = 0 }) (ClientMsg.blocks q) r h).1
