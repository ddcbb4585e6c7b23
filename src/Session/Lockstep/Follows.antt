-- ===== src/Session/Lockstep/Follows.antt =====
-- How the results on the wire follow the cursor that the router keeps for an upstream, and that
-- the router tells a result without an id from a keep-alive.
use fleet_router.Prelude.{
  ℕ, suc, ◌≤◌, ◌<◌, ◌≡◌, refl, ap, ◌∙◌, ◌⊎◌, inl, inr, true, false, List, [], ◌∷◌, ◌++◌, none, some,
  arith, is_some,
}
use fleet_router.Ship.{BlockPos}
use fleet_router.Wire.{ResultHead}
use fleet_router.Models.{live}
use fleet_router.Session.Link.{LinkReq, UpCursor, exact, uncertain}
use fleet_router.Session.Judge.{gate, classify_result}
use fleet_router.Session.Lockstep.Node.{Kind, kind_role, kind_ids_begin, is_eosio2, Frame}

-- What an upstream with the request up to `end` sends at its cursor `x`.
pub record SentBlock (kind : Kind) (lr : LinkReq) (x : ℕ) (f : Frame) : Type 0 where
  pub from : f.advanced_from ≡ some x
  pub under_gate : x ≤ gate f.h lr
  pub below_end : x < lr.end
  pub ids :
      ((p : BlockPos) × (f.h.this_block ≡ some p) × (p.num ≡ x))
      ⊎ ((f.h.this_block ≡ none) × (x < kind_ids_begin kind))

pub record SentKeepalive (kind : Kind) (lr : LinkReq) (x : ℕ) (f : Frame) : Type 0 where
  pub from : f.advanced_from ≡ none
  pub bare : f.h.this_block ≡ none
  pub not_due : (gate f.h lr < x) ⊎ (lr.end ≤ x)
  pub legacy : is_eosio2 kind ≡ true

abbrev pub Sent : Kind → LinkReq → ℕ → Frame → Type 0
Sent kind lr x f = SentBlock kind lr x f ⊎ SentKeepalive kind lr x f

-- A node at `x` where the router has `u`: it was moved, to a block whose id it knows. A move back
-- is to blocks above the LIB `l` that the router has seen.
pub record IsMoved (kind : Kind) (end l u x : ℕ) : Type 0 where
  pub is_node : kind_role kind ≡ live
  pub ids : kind_ids_begin kind ≤ x
  pub legacy_back : is_eosio2 kind ≡ true → x ≤ u
  pub back : x < u → (l < x) ⊎ (end ≤ x)

abbrev pub At : Kind → ℕ → ℕ → UpCursor → ℕ → Type 0
At kind end l (exact u) x = (x ≡ u) ⊎ IsMoved kind end l u x
At kind end l (uncertain lo hi) x = Unit {0}

-- The router's cursor after a result.
unfoldable pub next_cursor : UpCursor → Frame → UpCursor
next_cursor (exact u) f = elim f.advanced_from [ none ↦ exact u | some x ↦ exact (suc x) ]
next_cursor (uncertain lo hi) f = elim f.h.this_block [
  | none ↦ uncertain lo hi
  | some p ↦ exact (suc p.num)
]

-- Each result was sent where the upstream stood then, which is what the router has after the
-- results before it, or where the upstream was moved. It stands at `y` now, and its LIB is `t`.
abbrev pub Follows : Kind → LinkReq → ℕ → UpCursor → List Frame → ℕ → ℕ → Type 0
Follows kind lr l u [] y t = At kind lr.end l u y × (l ≤ t)
Follows kind lr l u (f ∷ fs) y t =
    (x : ℕ) × At kind lr.end l u x
    × Sent kind lr x f
    × (l ≤ f.h.lib.num)
    × Follows kind lr f.h.lib.num (next_cursor u f) fs y t

module _ (kind : Kind) (lr : LinkReq) where
  At-weaken :
      (l l' : ℕ) (u : UpCursor) (x : ℕ) → l' ≤ l → At kind lr.end l u x → At kind lr.end l' u x
  At-weaken l l' (exact u) x h (inl e) = inl e
  At-weaken l l' (exact u) x h (inr m) = inr (record {
    is_node = m.is_node;
    ids = m.ids;
    legacy_back = m.legacy_back;
    back = λ lt. ground (arith, m.back lt);
  })
  At-weaken l l' (uncertain lo hi) x h a = tt

  -- A result that is dropped leaves the LIB that the router has seen.
  pub Follows-weaken :
      (l l' : ℕ) (u : UpCursor) (wire : List Frame) (y t : ℕ)
      → l' ≤ l
      → Follows kind lr l u wire y t
      → Follows kind lr l' u wire y t
  Follows-weaken l l' u [] y t h (a, b) = (At-weaken l l' u y h a, omega arith)
  Follows-weaken l l' u (f ∷ fs) y t h (x, a, s, b, rest) =
      (x, At-weaken l l' u x h a, s, omega arith, rest)

  -- The upstream moves.
  pub Follows-move :
      (l : ℕ) (u : UpCursor) (wire : List Frame) (y t y' t' : ℕ)
      → ((l : ℕ) (u : UpCursor) → At kind lr.end l u y → l ≤ t → At kind lr.end l u y' × (l ≤ t'))
      → Follows kind lr l u wire y t
      → Follows kind lr l u wire y' t'
  Follows-move l u [] y t y' t' move (a, b) = move l u a b
  Follows-move l u (f ∷ fs) y t y' t' move (x, a, s, b, rest) =
      (x, a, s, b, Follows-move f.h.lib.num (next_cursor u f) fs y t y' t' move rest)

  -- The upstream sends `f` where it stands.
  pub Follows-send :
      (l : ℕ) (u : UpCursor) (wire : List Frame) (f : Frame) (y t y' : ℕ)
      → Sent kind lr y f
      → f.h.lib.num ≡ t
      → ((l : ℕ) (u : UpCursor)
          → At kind lr.end l u y
          → At kind lr.end f.h.lib.num (next_cursor u f) y')
      → Follows kind lr l u wire y t
      → Follows kind lr l u (wire ++ f ∷ []) y' t
  Follows-send l u [] f y t y' s e move (a, b) = (y, a, s, omega arith, (move l u a, omega arith))
  Follows-send l u (g ∷ gs) f y t y' s e move (x, a, r, b, rest) =
      (x, a, r, b, Follows-send g.h.lib.num (next_cursor u g) gs f y t y' s e move rest)

-- Where the router's cursor for the upstream is exact, a result of an upstream that keeps the send
-- rule is taken for what it is: for the block from which the upstream advanced when it sent it,
-- with or without an id, or for a keep-alive.
pub classify_result-exact :
    (kind : Kind) (lr : LinkReq) (l u x : ℕ) (f : Frame)
    → At kind lr.end l (exact u) x
    → Sent kind lr x f
    → let cls = classify_result f.h (exact u) lr in
      (cls.n ≡ f.advanced_from) × (cls.advance ≡ is_some f.advanced_from)
unfolding classify_result
classify_result-exact kind lr l u x f (inl same) (inl b) = elim b.ids [
  | inl (p, e, n) ↦ ground (arith, b.from, b.under_gate, b.below_end)
  | inr (e, n) ↦ ground (arith, b.from, b.under_gate, b.below_end)
]
classify_result-exact kind lr l u x f (inr m) (inl b) = elim b.ids [
  | inl (p, e, n) ↦ ground (arith, b.from, b.under_gate, b.below_end)
  | inr (e, n) ↦ absurd (omega (arith, m.ids))
]
classify_result-exact kind lr l u x f (inl same) (inr k) = ground (arith, k.from, k.bare, k.not_due)
classify_result-exact kind lr l u x f (inr m) (inr k) =
    ground (arith, k.from, k.bare, k.not_due, m.legacy_back k.legacy)

unsure_id :
    (h : ResultHead) (lr : LinkReq) (lo hi : ℕ) (p : BlockPos)
    → h.this_block ≡ some p
    → let cls = classify_result h (uncertain lo hi) lr in
      (cls.n ≡ some p.num) × (cls.advance ≡ true)
unfolding classify_result
unsure_id h lr lo hi p e = (rw e refl, rw e refl)

unsure :
    (h : ResultHead) (lr : LinkReq) (lo hi : ℕ)
    → h.this_block ≡ none
    → let cls = classify_result h (uncertain lo hi) lr in (cls.n ≡ none) × (cls.advance ≡ false)
unfolding classify_result
unsure h lr lo hi e = (rw e refl, rw e refl)

-- The router's cursor after reading a result is that of `next_cursor`.
pub classify_result-next :
    (kind : Kind) (lr : LinkReq) (l : ℕ) (u : UpCursor) (x : ℕ) (f : Frame)
    → At kind lr.end l u x
    → Sent kind lr x f
    → let cls = classify_result f.h u lr in
      ((n : ℕ) × (cls.n ≡ some n)
        × (cls.advance ≡ true)
        × (n < lr.end)
        × (next_cursor u f ≡ exact (suc n)))
      ⊎ ((cls.n ≡ none) × (cls.advance ≡ false) × (next_cursor u f ≡ u))
unfolding next_cursor
classify_result-next kind lr l (exact u) x f a (inl b) =
    let (is_n, adv) = classify_result-exact kind lr l u x f a (inl b) in
    inl (x, is_n ∙ b.from, adv ∙ ap is_some b.from, b.below_end, rw b.from refl)
classify_result-next kind lr l (exact u) x f a (inr k) =
    let (is_n, adv) = classify_result-exact kind lr l u x f a (inr k) in
    inr (is_n ∙ k.from, adv ∙ ap is_some k.from, rw k.from refl)
classify_result-next kind lr l (uncertain lo hi) x f a (inl b) = elim b.ids [
  | inl (p, e, n) ↦
      let (is_n, adv) = unsure_id f.h lr lo hi p e in
      inl (p.num, is_n, adv, omega (arith, b.below_end), rw e refl)
  | inr (e, n) ↦ let (is_n, adv) = unsure f.h lr lo hi e in inr (is_n, adv, rw e refl)
]
classify_result-next kind lr l (uncertain lo hi) x f a (inr k) =
    let (is_n, adv) = unsure f.h lr lo hi k.bare in inr (is_n, adv, rw k.bare refl)
