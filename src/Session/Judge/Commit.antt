-- ===== src/Session/Judge/Commit.antt =====
-- What committing a forwarded result keeps, and where it leaves the cursors.
use fleet_router.Prelude.{
  ℕ, max, ◌≡◌, refl, ◌∙◌, inl, inr, Bool, true, false, Option, none, some, arith, leb,
  if◌then◌else◌, is_some_and, Bool-cases,
}
use fleet_router.Prelude.Words.{saturating_add}
use fleet_router.Ship.{BlockPos}
use fleet_router.Wire.{ResultHead}
use fleet_router.Session.Ring.{truncate_from}
use fleet_router.Session.Ring.Laws.{truncate_from-IsRing, push-IsRing}
use fleet_router.Session.Mirror.{ClientSide}
use fleet_router.Session.Mirror.Laws.{IsMirror, HwmLe}
use fleet_router.Session.Link.{LinkState, exact}
use fleet_router.Session.Judge.{Classified, Forward, advance_cursors, delivered_to, forked, commit}

forked-IsMirror : (c : ClientSide) (fw : Forward) → IsMirror c → IsMirror (forked c fw)
unfolding forked
forked-IsMirror c fw m = by_fork fw.fork fw.cls.n
  where
    by_fork :
        (fork : Bool) (n : Option ℕ)
        → IsMirror (
            if fork
            then elim n [ none ↦ c | some n ↦ record c { delivered = truncate_from c.delivered n } ]
            else c)
    by_fork false n = m
    by_fork true none = m
    by_fork true (some n) = record {
      credit_fits = m.credit_fits;
      ring = (truncate_from-IsRing c.delivered n m.ring).0;
      lib_within = m.lib_within;
      irreversible = m.irreversible;
    }

hwm_bounds :
    (w : Option ℕ) (lib : Option BlockPos) (n : ℕ)
    → HwmLe w lib
    → HwmLe
        (if is_some_and (λ (l : BlockPos). leb n l.num) lib
          then some (elim w [ none ↦ n | some w ↦ max w n ])
          else w)
        lib
hwm_bounds w none n h = h
hwm_bounds none (some l) n h = elim (Bool-cases (leb n l.num)) [
  | inl e ↦ rw e (ground arith)
  | inr e ↦ rw e tt
]
hwm_bounds (some w) (some l) n h = elim (Bool-cases (leb n l.num)) [
  | inl e ↦ rw e (ground arith)
  | inr e ↦ rw e h
]

delivered_to-IsMirror :
    (c : ClientSide) (this : Option BlockPos) → IsMirror c → IsMirror (delivered_to c this)
unfolding delivered_to
delivered_to-IsMirror c none m = m
delivered_to-IsMirror c (some p) m = record {
  credit_fits = m.credit_fits;
  ring = (push-IsRing c.delivered p c.lib_sent m.ring).0;
  lib_within = m.lib_within;
  irreversible = hwm_bounds c.irr_hwm c.lib_sent p.num m.irreversible;
}

module _ (cls : Classified) (c : ClientSide) (st : LinkState) where
  advance_cursors-IsMirror :
      (advance : Bool) (n : Option ℕ) → IsMirror c → IsMirror (advance_cursors cls advance n c st).0
  unfolding advance_cursors
  advance_cursors-IsMirror true (some n) m = record {
    credit_fits = m.credit_fits;
    ring = m.ring;
    lib_within = m.lib_within;
    irreversible = m.irreversible;
  }
  advance_cursors-IsMirror true none m = m
  advance_cursors-IsMirror false n m = m

  -- The cursors move to the block after `n`, and all else of the link that a request sets stays.
  advance_cursors_lem :
      (advance : Bool) (n : Option ℕ)
      → let (c', st') = advance_cursors cls advance n c st in
        (c'.credit ≡ c.credit)
        × (st'.role ≡ st.role)
        × (st'.req ≡ st.req)
        × ((k : ℕ)
            → advance ≡ true
            → n ≡ some k
            → (c'.cursor ≡ saturating_add k 1) × (st'.up_cursor ≡ exact (saturating_add k 1)))
        × (advance ≡ false → (c'.cursor ≡ c.cursor) × (st'.up_cursor ≡ st.up_cursor))
  unfolding advance_cursors
  advance_cursors_lem true (some n) = (refl, refl, refl, λ k t e. ground arith, λ f. cc)
  advance_cursors_lem true none = (refl, ground arith, ground arith, λ k t e. cc, λ f. cc)
  advance_cursors_lem false n =
      (refl, ground arith, ground arith, λ k t e. cc, λ f. (refl, ground arith))

module _ (c : ClientSide) (st : LinkState) (h : ResultHead) (fw : Forward) where
  delivered_to-kept :
      (c : ClientSide) (this : Option BlockPos)
      → ((delivered_to c this).credit ≡ c.credit) × ((delivered_to c this).cursor ≡ c.cursor)
  unfolding delivered_to
  delivered_to-kept c none = (refl, refl)
  delivered_to-kept c (some p) = (refl, refl)

  forked-kept : ((forked c fw).credit ≡ c.credit) × ((forked c fw).cursor ≡ c.cursor)
  unfolding forked
  forked-kept = by_fork fw.fork fw.cls.n
    where
      by_fork :
          (fork : Bool) (n : Option ℕ)
          → let c' =
              if fork
              then elim n [
                | none ↦ c
                | some n ↦ record c { delivered = truncate_from c.delivered n }
              ]
              else c in
            (c'.credit ≡ c.credit) × (c'.cursor ≡ c.cursor)
      by_fork false n = (refl, refl)
      by_fork true none = (refl, refl)
      by_fork true (some n) = (refl, refl)

  -- Committing a result keeps the mirror's invariant.
  pub commit-IsMirror : IsMirror c → IsMirror (commit c st h fw).0
  unfolding commit
  commit-IsMirror m =
      let done = delivered_to-IsMirror _ h.this_block (
        advance_cursors-IsMirror fw.cls (forked c fw) st fw.cls.advance fw.cls.n
          (forked-IsMirror c fw m)) in
      record {
        credit_fits = done.credit_fits;
        ring = done.ring;
        lib_within = done.lib_within;
        irreversible = done.irreversible;
      }

  -- The credit, the role and the request stay, the LIB of the result is noted, and the cursors
  -- of the client and the upstream move to the block after the result's, or stay.
  pub commit_lem :
      let (c', st') = commit c st h fw in
      (c'.credit ≡ c.credit)
      × (st'.role ≡ st.role)
      × (st'.req ≡ st.req)
      × (st'.last_lib ≡ some h.lib)
      × ((k : ℕ)
          → fw.cls.advance ≡ true
          → fw.cls.n ≡ some k
          → (c'.cursor ≡ saturating_add k 1) × (st'.up_cursor ≡ exact (saturating_add k 1)))
      × (fw.cls.advance ≡ false → (c'.cursor ≡ c.cursor) × (st'.up_cursor ≡ st.up_cursor))
  unfolding commit
  commit_lem =
      let (credit, role, req, moved, stayed) =
        advance_cursors_lem fw.cls (forked c fw) st fw.cls.advance fw.cls.n in
      let kept =
        delivered_to-kept (advance_cursors fw.cls fw.cls.advance fw.cls.n (forked c fw) st).0
          h.this_block in
      (
        kept.0 ∙ credit ∙ forked-kept.0,
        role,
        req,
        refl,
        λ k a n. (kept.1 ∙ (moved k a n).0, (moved k a n).1),
        λ a. (kept.1 ∙ (stayed a).0 ∙ forked-kept.1, (stayed a).1),
      )
