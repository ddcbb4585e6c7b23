-- ===== src/Wire/Reader/Ensures.antt =====
-- Facts about the value of a read that succeeds, for any message; a read leaves the message as it
-- is.
use Prim.Native.Nat.{bit_and}
use fleet_router.Prelude.{
  ℕ, zero, suc, ◌+◌, ◌≡◌, refl, Bool, true, false, List, [], ◌∷◌, arith, ltb, ◌==◌, if◌then◌else◌,
  ◌∙◌, subst,
}
use fleet_router.Wire.{DecodeError, truncated, bad_varint, bad_bool}
use fleet_router.Wire.Reader.{
  Reader, Outcome, ok, err, Read, ◌>>=◌, pure, fail, take_bytes, u8, from_le_bytes, varuint32_from,
  u32, bool, block_pos, varuint32,
}

-- The value and the reader between two reads.
pub after :
    {A B : Type 0} (m : Read A) (f : A → Read B) (r : Reader) (b : B) (r' : Reader)
    → (m >>= f) r ≡ ok b r'
    → (a : A) × (s : Reader) × (m r ≡ ok a s) × (f a s ≡ ok b r')
after m f r b r' h = go (m r) refl
  where
    go : (o : Outcome _) → m r ≡ o → (a : _) × (s : Reader) × (m r ≡ ok a s) × (f a s ≡ ok b r')
    go (ok a s) e = (a, s, e, ground arith)
    go (err x) e = absurd (ground arith)

-- What holds of the value of a read that succeeds, next to the message that it leaves as it is.
unfoldable pub Ensures : {A : Type 0} → Read A → (List ℕ → A → Type 0) → Type 0
Ensures {A = A} m P = (r : Reader) (a : A) (s : Reader) → m r ≡ ok a s → (s.buf ≡ r.buf) × P r.buf a

unfoldable pub Whatever : {A : Type 0} → List ℕ → A → Type 0
Whatever buf a = Unit

pub bind-Ensures :
    {A B : Type 0} (m : Read A) (f : A → Read B) (Q : A → Type 0) (P : List ℕ → B → Type 0)
    → Ensures m (λ _ a. Q a)
    → ((a : A) → Q a → Ensures (f a) P)
    → Ensures (m >>= f) P
unfolding Ensures
bind-Ensures m f Q P first second r b s h =
    let (a, r1, e, h1) = after m f r b s h in
    let (kept, q) = first r a r1 e in
    let (kept', p) = second a q r1 b s h1 in
    (kept' ∙ kept, subst (λ (buf : List ℕ). P buf b) kept p)

-- Nothing is asked of the first value.
pub then-Ensures :
    {A B : Type 0} (m : Read A) (f : A → Read B) (P : List ℕ → B → Type 0)
    → Ensures m Whatever
    → ((a : A) → Ensures (f a) P)
    → Ensures (m >>= f) P
unfolding Whatever
then-Ensures m f P first second = bind-Ensures m f (λ _. Unit) P first (λ a q. second a)

pub pure-Ensures :
    {A : Type 0} (a : A) (P : List ℕ → A → Type 0) → ((buf : List ℕ) → P buf a) → Ensures (pure a) P
unfolding Ensures
pure-Ensures a P p r b s h =
    let same : a ≡ b = ground arith in (ground arith, subst (P r.buf) same (p r.buf))

pub fail-Ensures : {A : Type 0} (e : DecodeError) (P : List ℕ → A → Type 0) → Ensures (fail e) P
unfolding Ensures
fail-Ensures e P r a s h = absurd (ground arith)

pub if-Ensures :
    {A : Type 0} (b : Bool) (m n : Read A) (P : List ℕ → A → Type 0)
    → Ensures m P
    → Ensures n P
    → Ensures (if b then m else n) P
if-Ensures true m n P hm hn = hm
if-Ensures false m n P hm hn = hn

take_bytes-Ensures : (n : ℕ) → Ensures (take_bytes n) Whatever
unfolding Ensures Whatever take_bytes
take_bytes-Ensures n r a s h = (ground arith, tt)

first_byte :
    (bytes : List ℕ)
    → Ensures (elim bytes as (λ _. Read ℕ) [ [] ↦ fail truncated | byte ∷ _ ↦ pure byte ]) Whatever
unfolding Whatever
first_byte [] = fail-Ensures truncated Whatever
first_byte (byte ∷ rest) = pure-Ensures byte Whatever (λ buf. tt)

u8-Ensures : Ensures u8 Whatever
unfolding u8
u8-Ensures = then-Ensures (take_bytes 1) _ Whatever (take_bytes-Ensures 1) first_byte

pub u32-Ensures : Ensures u32 Whatever
unfolding u32 Whatever
u32-Ensures =
    then-Ensures (take_bytes 4) _ Whatever (take_bytes-Ensures 4)
      (λ bytes. pure-Ensures (from_le_bytes bytes) Whatever (λ buf. tt))

pub bool-Ensures : Ensures bool Whatever
unfolding bool Whatever
bool-Ensures = then-Ensures u8 _ Whatever u8-Ensures (λ byte.
    if-Ensures (byte == 0) _ _ Whatever (pure-Ensures false Whatever (λ buf. tt)) (
      if-Ensures (byte == 1) _ _ Whatever (pure-Ensures true Whatever (λ buf. tt))
        (fail-Ensures (bad_bool byte) Whatever)))

varuint32_from-Ensures : (n shift value : ℕ) → Ensures (varuint32_from n shift value) Whatever
unfolding varuint32_from Whatever
varuint32_from-Ensures zero shift value = then-Ensures u8 _ Whatever u8-Ensures (λ last.
    if-Ensures (ltb 15 last) _ _ Whatever (fail-Ensures bad_varint Whatever)
      (pure-Ensures _ Whatever (λ buf. tt)))
varuint32_from-Ensures (suc n) shift value = then-Ensures u8 _ Whatever u8-Ensures (λ byte.
    if-Ensures (bit_and byte 0x80 == 0) _ _ Whatever (pure-Ensures _ Whatever (λ buf. tt))
      (varuint32_from-Ensures n (shift + 7) _))

pub varuint32-Ensures : Ensures varuint32 Whatever
unfolding varuint32
varuint32-Ensures = varuint32_from-Ensures 4 0 0

pub block_pos-Ensures : Ensures block_pos Whatever
unfolding block_pos Whatever
block_pos-Ensures = then-Ensures u32 _ Whatever u32-Ensures (λ num.
    then-Ensures (take_bytes 32) _ Whatever (take_bytes-Ensures 32)
      (λ id. pure-Ensures _ Whatever (λ buf. tt)))
