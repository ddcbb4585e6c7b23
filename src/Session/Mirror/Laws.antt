-- ===== src/Session/Mirror/Laws.antt =====
-- What holds of a client's mirror throughout a session, and what the client sees of head and LIB.
use fleet_router.Prelude.{
  ℕ, ◌+◌, ◌≤◌, min, ◌≡◌, refl, inl, inr, Bool, true, not, ◌&&◌, ◌||◌, Option, none, some, arith,
  leb, ltb, if◌then◌else◌, is_some_and, text_eq_iff, Bool-cases,
}
use fleet_router.Prelude.Words.{u32_max}
use fleet_router.Ship.{BlockPos}
use fleet_router.Wire.{BlocksRequest}
use fleet_router.Models.{Role}
use fleet_router.Session.Ring.Laws.{IsRing, truncate_from-IsRing}
use fleet_router.Session.Mirror.{
  ClientSide, ack, new_request, charge, last_irreversible, pos_eq, base_tip, mono, tip_for,
  head_lib_for,
}

-- By number, where `b` is there if `a` is.
abbrev pub NumLe : Option BlockPos → Option BlockPos → Type 0
NumLe none b = Unit {0}
NumLe (some a) none = ⊥
NumLe (some a) (some b) = a.num ≤ b.num

-- The irreversible high-water mark is at or below the LIB that was sent.
abbrev pub HwmLe : Option ℕ → Option BlockPos → Type 0
HwmLe none lib = Unit {0}
HwmLe (some w) none = ⊥
HwmLe (some w) (some lib) = w ≤ lib.num

pub record IsMirror (c : ClientSide) : Type 0 where
  pub credit_fits : c.credit ≤ u32_max
  pub ring : IsRing c.delivered
  pub lib_within : NumLe c.lib_sent c.head_sent
  pub irreversible : HwmLe c.irr_hwm c.lib_sent

-- The credit rises by what `ack` returns, which is what the client acked unless the credit would
-- pass 2 ^ 32 - 1; the mirror's invariant holds after it.
pub ack-IsMirror :
    (c : ClientSide) (n : ℕ)
    → IsMirror c
    → let (c', raised) = ack c n in
      IsMirror c' × (c'.credit ≡ c.credit + raised) × (c'.credit ≡ min (c.credit + n) u32_max)
unfolding ack
ack-IsMirror c n m = (
  record {
    credit_fits = omega (arith, m.credit_fits);
    ring = m.ring;
    lib_within = m.lib_within;
    irreversible = m.irreversible;
  },
  omega (arith, m.credit_fits),
  omega (arith, m.credit_fits),
)

pub new_request-IsMirror :
    (c : ClientSide) (r : BlocksRequest)
    → IsMirror c
    → r.max_in_flight ≤ u32_max
    → IsMirror (new_request c r).0
unfolding new_request
new_request-IsMirror c r m h = record {
  credit_fits = h;
  ring = (truncate_from-IsRing c.delivered r.start m.ring).0;
  lib_within = m.lib_within;
  irreversible = m.irreversible;
}

pub charge-IsMirror : (c : ClientSide) → IsMirror c → IsMirror (charge c).0
unfolding charge
charge-IsMirror c m = elim (Bool-cases (leb 1 c.credit)) [
  | inl e ↦ rw e (record {
    credit_fits = omega (arith, m.credit_fits);
    ring = m.ring;
    lib_within = m.lib_within;
    irreversible = m.irreversible;
  })
  | inr e ↦ rw e m
]

pos_eq→eq : (a b : BlockPos) → pos_eq a b ≡ true → a ≡ b
unfolding pos_eq
pos_eq→eq a b h = ground (arith, (text_eq_iff a.id b.id).0)

mono_bounds :
    (x : BlockPos) (sent : Option BlockPos)
    → NumLe sent (some (mono x sent)) × (x.num ≤ (mono x sent).num)
unfolding mono
mono_bounds x none = (tt, omega arith)
mono_bounds x (some s) = ground arith

-- What the client then holds in a frame.
abbrev pub shown : Option (BlockPos × BlockPos) → BlockPos × BlockPos → BlockPos × BlockPos
shown none raw = raw
shown (some patched) raw = patched

tip_bounds :
    (head_sent lib_sent : Option BlockPos) (h l : BlockPos)
    → NumLe lib_sent head_sent
    → NumLe head_sent (some h)
    → NumLe lib_sent (some l)
    → let out = if ltb h.num l.num then h else l in NumLe lib_sent (some out) × (out.num ≤ h.num)
tip_bounds head_sent none h l within on_head on_lib = (tt, ground arith)
tip_bounds none (some s) h l within on_head on_lib = absurd within
tip_bounds (some g) (some s) h l within on_head on_lib = ground arith

pub HwmLe-NumLe :
    (w : Option ℕ) (before : Option BlockPos) (after : BlockPos)
    → HwmLe w before
    → NumLe before (some after)
    → HwmLe w (some after)
HwmLe-NumLe none before after h k = tt
HwmLe-NumLe (some w) none after h k = absurd h
HwmLe-NumLe (some w) (some b) after h k = omega arith

module _ (c : ClientSide) (base : BlockPos × BlockPos) (m : IsMirror c) where
  abbrev tip : BlockPos × BlockPos
  tip = tip_for c base

  pub tip_for_bounds :
      NumLe c.head_sent (some tip.0) × NumLe c.lib_sent (some tip.1) × (tip.1.num ≤ tip.0.num)
  unfolding tip_for
  tip_for_bounds =
      let on_head = (mono_bounds base.0 c.head_sent).0 in
      let (on_lib, within) =
        tip_bounds c.head_sent c.lib_sent (mono base.0 c.head_sent) (mono base.1 c.lib_sent)
          m.lib_within on_head (mono_bounds base.1 c.lib_sent).0 in
      (on_head, on_lib, within)

shown_patched :
    (h l head lib : BlockPos)
    → let out : Option (BlockPos × BlockPos) =
        if not (pos_eq h head) || not (pos_eq l lib) then some (h, l) else none in
      shown out (head, lib) ≡ (h, l)
shown_patched h l head lib = elim (Bool-cases (pos_eq h head && pos_eq l lib)) [
  | inl e ↦ ground (arith, pos_eq→eq h head, pos_eq→eq l lib)
  | inr e ↦ ground arith
]

-- For any frame: the head and the LIB that the session records are not below those it had
-- recorded, the LIB is not above the head, and with patching on they are what the client sees in
-- the frame. The mirror's invariant holds after it.
pub head_lib_for-monotone :
    (c : ClientSide) (role : Role) (head lib : BlockPos) (fleet : Option (BlockPos × BlockPos))
    (patch : Bool)
    → IsMirror c
    → let (c', out) = head_lib_for c role head lib fleet patch in
      IsMirror c'
      × NumLe c.head_sent c'.head_sent
      × NumLe c.lib_sent c'.lib_sent
      × NumLe c'.lib_sent c'.head_sent
      × (patch ≡ true
          → (c'.head_sent ≡ some (shown out (head, lib)).0)
            × (c'.lib_sent ≡ some (shown out (head, lib)).1))
unfolding head_lib_for
head_lib_for-monotone c role head lib fleet patch m =
    let base = base_tip role head lib fleet in
    let t = tip_for c base in
    let (on_head, on_lib, within) = tip_for_bounds c base m in
    (
      record {
        credit_fits = m.credit_fits;
        ring = m.ring;
        lib_within = within;
        irreversible = HwmLe-NumLe c.irr_hwm c.lib_sent t.1 m.irreversible on_lib;
      },
      on_head,
      on_lib,
      within,
      λ on.
          let seen = shown_patched t.0 t.1 head lib in
          (rw on (ground (arith, seen)), rw on (ground (arith, seen))),
    )

-- The last delivered block counts as irreversible only at or below the LIB that the client was
-- sent.
pub last_irreversible-le :
    (c : ClientSide) (p : BlockPos)
    → IsMirror c
    → last_irreversible c ≡ some p
    → NumLe (some p) c.lib_sent
unfolding last_irreversible
last_irreversible-le c p m e = within c.last c.irr_hwm c.lib_sent m.irreversible e
  where
    within :
        (last : Option BlockPos) (hwm : Option ℕ) (lib : Option BlockPos)
        → HwmLe hwm lib
        → (elim last [
          | none ↦ none
          | some x ↦ if is_some_and (λ w. leb x.num w) hwm then some x else none
        ])
          ≡ some p
        → NumLe (some p) lib
    within none hwm lib h k = cc
    within (some x) none lib h k = cc
    within (some x) (some w) none h k = absurd h
    within (some x) (some w) (some l) h k = ground arith

-- What the client sees is one of the two it is shown and the two it was sent.
pub tip_for_All :
    (P : BlockPos → Type 0) (c : ClientSide) (head lib : BlockPos)
    → P head
    → P lib
    → ((p : BlockPos) → c.head_sent ≡ some p → P p)
    → ((p : BlockPos) → c.lib_sent ≡ some p → P p)
    → P (tip_for c (head, lib)).0 × P (tip_for c (head, lib)).1
unfolding tip_for
tip_for_All P c head lib ph pl sh sl =
    let h = mono_All P head c.head_sent ph sh in
    let l = mono_All P lib c.lib_sent pl sl in
    (
      h,
      elim (Bool-cases (ltb (mono head c.head_sent).num (mono lib c.lib_sent).num)) [
        | inl e ↦ rw e h
        | inr e ↦ rw e l
      ],
    )
  where
    mono_All :
        (P : BlockPos → Type 0) (x : BlockPos) (sent : Option BlockPos)
        → P x
        → ((p : BlockPos) → sent ≡ some p → P p)
        → P (mono x sent)
    mono_All P x none px s = px
    mono_All P x (some y) px s = elim (Bool-cases (ltb x.num y.num)) [
      | inl e ↦ rw (e, mono) (s y refl)
      | inr e ↦ rw (e, mono) px
    ]
