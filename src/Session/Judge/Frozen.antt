-- ===== src/Session/Judge/Frozen.antt =====
-- What an archive may send: exactly the next block.
use fleet_router.Prelude.{
  ℕ, ◌<◌, ◌≡◌, refl, sym, ap, ◌∙◌, inl, inr, Bool, true, false, ◌&&◌, ◌||◌, Option, none, some,
  arith, leb, ltb, is_some, bool_eq, Bool-cases, subst,
}
use fleet_router.Ship.{BlockPos}
use fleet_router.Wire.{BlocksRequest, ResultHead}
use fleet_router.Models.{Role, live, frozen}
use fleet_router.Session.Mirror.{ClientSide}
use fleet_router.Session.Link.{LinkReq, LinkState, UpCursor, exact, uncertain, resumes}
use fleet_router.Session.Judge.{
  Classified, gate, classify_by, classify_result, Lacks, Forward, forward, pass, check_kind,
  check_frozen, below_cursor, above_cursor, check_place, check_seam, judge,
}
use fleet_router.Session.Judge.Rules.{judge-Passed}

-- By its kind: an archive's result that passes the check of its fields stands for a block.
kind_pass :
    (this : Option BlockPos) (cursor : UpCursor) (g end x : ℕ) (lacks : ℕ → Lacks) (nb : Bool)
    → let cls = classify_by this cursor g end in
      check_kind cls.kind cls.n x lacks ≡ pass nb
      → (n : ℕ) × (cls.n ≡ some n) × (cls.advance ≡ true) × (is_some this ≡ false → n < x)
unfolding classify_by check_kind
kind_pass (some p) cursor g end x lacks nb e = (p.num, refl, refl, λ h. cc)
kind_pass none (exact u) g end x lacks nb e = elim (Bool-cases (leb u g && ltb u end)) [
  | inl sent ↦ (u, ground arith, ground arith, λ h. ground arith)
  | inr quiet ↦ absurd (ground arith)
]
kind_pass none (uncertain lo hi) g end x lacks nb e = cc

fields_pass :
    (role : Role) (creq : BlocksRequest) (h : ResultHead) (cls : Classified) (x : ℕ)
    (lacks : ℕ → Lacks) (nb : Bool)
    → role ≡ frozen
    → check_frozen role creq h cls x lacks ≡ pass nb
    → (bool_eq h.v1 creq.v1 ≡ true) × (check_kind cls.kind cls.n x lacks ≡ pass nb)
unfolding check_frozen
fields_pass live creq h cls x lacks nb r e = cc
fields_pass frozen creq h cls x lacks nb r e = elim (Bool-cases (bool_eq h.v1 creq.v1)) [
  | inl same ↦ (same, rw same at e)
  | inr other ↦ absurd (ground arith)
]

classified_kind :
    (h : ResultHead) (cursor : UpCursor) (lr : LinkReq) (cls : Classified) (x : ℕ)
    (lacks : ℕ → Lacks) (nb : Bool)
    → cls ≡ classify_result h cursor lr
    → check_kind cls.kind cls.n x lacks ≡ pass nb
    → (n : ℕ) × (cls.n ≡ some n) × (cls.advance ≡ true) × (is_some h.this_block ≡ false → n < x)
unfolding classify_result
classified_kind h cursor lr cls x lacks nb is e =
    let kind = kind_pass h.this_block cursor (gate h lr) lr.end x lacks nb in
    subst
      (λ (k : Classified).
        check_kind k.kind k.n x lacks ≡ pass nb
        → (n : ℕ) × (k.n ≡ some n) × (k.advance ≡ true) × (is_some h.this_block ≡ false → n < x))
      (sym is) kind e

place_pass :
    (c : ClientSide) (st : LinkState) (cls : Classified) (o : Option ℕ) (n : ℕ)
    (this : Option BlockPos) (seam elsewhere fork jump : Bool)
    → st.role ≡ frozen
    → o ≡ some n
    → check_place c st cls o this seam elsewhere ≡ pass (fork, jump)
    → (n ≡ c.cursor) × (fork ≡ false) × (jump ≡ false)
unfolding check_place below_cursor above_cursor
place_pass c st cls none n this seam elsewhere fork jump role o e = cc
place_pass c st cls (some m) n this seam elsewhere fork jump role o e = ground arith

seam_pass :
    (c : ClientSide) (st : LinkState) (h : ResultHead) (seam elsewhere broken : Bool)
    → st.role ≡ frozen
    → check_seam c st h seam elsewhere ≡ pass broken
    → broken ≡ false
unfolding check_seam
seam_pass c st h seam elsewhere broken role e = ground arith

known_or_below :
    {n k x : ℕ} {known : Bool} → n ≡ k → (known ≡ false → n < x) → known || ltb k x ≡ true
known_or_below {known = true} e h = refl
known_or_below {known = false} e h = ground (arith, h refl)

module _ (c : ClientSide) (st : LinkState) (creq : BlocksRequest) (lr : LinkReq) (h : ResultHead)
    (lacks : ℕ → Lacks) (alternative : ℕ → Bool) (fw : Forward) where
  -- A result of an archive is forwarded only for the block at the client's cursor, which it
  -- advances: it is no fork, no jump and no discontinuity, it follows the request's version, the
  -- client has credit for it, and it has an id unless the archive knows no ids there.
  pub judge-frozen_next :
      st.role ≡ frozen
      → judge c st creq lr h lacks alternative ≡ forward fw
      → (fw.cls.n ≡ some c.cursor)
        × (fw.cls.advance ≡ true)
        × (fw.fork ≡ false)
        × (fw.jump ≡ false)
        × (fw.discontinuity ≡ false)
        × (bool_eq h.v1 creq.v1 ≡ true)
        × (0 < c.credit)
        × (is_some h.this_block || ltb c.cursor st.expect_ids_from ≡ true)
  judge-frozen_next role e =
      let p = judge-Passed c st creq lr h lacks alternative fw e in
      let (same, kind) =
        fields_pass st.role creq h fw.cls st.expect_ids_from lacks fw.no_block role p.fields in
      let (n, stands, adv, ids) =
        classified_kind h st.up_cursor lr fw.cls st.expect_ids_from lacks fw.no_block p.cls_is
          kind in
      let (at_cursor, no_fork, no_jump) =
        place_pass c st fw.cls fw.cls.n n h.this_block
          (st.first_result_pending && resumes lr.purpose) (alternative c.cursor) fw.fork fw.jump
          role stands p.place in
      (
        stands ∙ ap some at_cursor,
        adv,
        no_fork,
        no_jump,
        seam_pass c st h (st.first_result_pending && resumes lr.purpose) (alternative c.cursor)
            fw.discontinuity role p.seam,
        same,
        ground (arith, p.credited),
        known_or_below at_cursor ids,
      )
