-- ===== src/Session/Judge/Rules.antt =====
-- What each judgement of a block result means.
use fleet_router.Prelude.{
  ℕ, ◌<◌, ◌≡◌, ◌≢◌, refl, ltb→lt, subst, ◌⊎◌, inl, inr, Bool, true, false, not, ◌&&◌, Option, none,
  some, arith, ltb, ◌==◌, if◌then◌else◌, is_some, bool_eq, Bool-cases,
}
use fleet_router.Prelude.Words.{saturating_add}
use fleet_router.Ship.{BlockPos}
use fleet_router.Wire.{BlocksRequest, ResultHead}
use fleet_router.Models.{Role, live, frozen, is_frozen}
use fleet_router.Session.Failover.{
  uncovered, discontinuity, ViolationKind, idless, gap_above, rewind, missing_field, credit,
  variant, discontinuity_at_seam,
}
use fleet_router.Session.Mirror.{ClientSide, is_dup}
use fleet_router.Session.Link.{LinkReq, LinkState, resumes}
use fleet_router.Session.Judge.{
  ResultKind, block, id_less, keep_alive, id_less_uncertain, Classified, classify_result, Lacks,
  Forward, Judgement, forward, duplicate, end_link, Verdict, pass, stop, ◌>>=◌, ◌>>◌, stop_if,
  violates, judgement_of, check_kind, check_lacks, below_cursor, above_cursor, check_frozen,
  check_place, check_seam, judge,
}

-- Each check of `judge` that a forwarded result has passed.
pub record Passed (c : ClientSide) (st : LinkState) (creq : BlocksRequest) (lr : LinkReq)
    (h : ResultHead) (lacks : ℕ → Lacks) (alternative : ℕ → Bool) (fw : Forward) : Type 0 where
  pub cls_is : fw.cls ≡ classify_result h st.up_cursor lr
  pub fields : check_frozen st.role creq h fw.cls st.expect_ids_from lacks ≡ pass fw.no_block
  pub place :
      check_place c st fw.cls fw.cls.n h.this_block
        (st.first_result_pending && resumes lr.purpose)
        (alternative c.cursor)
      ≡ pass (fw.fork, fw.jump)
  pub seam :
      check_seam c st h (st.first_result_pending && resumes lr.purpose) (alternative c.cursor)
      ≡ pass fw.discontinuity
  pub credited : (is_frozen st.role && c.credit == 0) ≡ false
  pub variant_is : fw.variant_mismatch ≡ (not (is_frozen st.role) && not (bool_eq h.v1 creq.v1))

-- The checks in the order of the code: the first that stops gives the judgement.
chain :
    Verdict Bool
    → Verdict (Bool × Bool)
    → Verdict Bool
    → Bool
    → (Bool → Bool × Bool → Bool → Forward)
    → Judgement
chain f p s no_credit make = judgement_of (do
  no_block ← f
  (fork, jump) ← p
  broken ← s
  stop_if no_credit (violates credit)
  pass (forward (make no_block (fork, jump) broken)))

abbrev StoppedBy : Verdict Bool → Verdict (Bool × Bool) → Verdict Bool → Bool → Judgement → Type 0
StoppedBy f p s no_credit j =
    (f ≡ stop j) ⊎ (p ≡ stop j) ⊎ (s ≡ stop j) ⊎ ((no_credit ≡ true) × (j ≡ violates credit))

abbrev PassedBy :
    Verdict Bool
    → Verdict (Bool × Bool)
    → Verdict Bool
    → Bool
    → (Bool → Bool × Bool → Bool → Forward)
    → Judgement
    → Type 0
PassedBy f p s no_credit make j =
    (no_block : Bool) × (place : Bool × Bool) × (broken : Bool) × (f ≡ pass no_block)
    × (p ≡ pass place)
    × (s ≡ pass broken)
    × (no_credit ≡ false)
    × (j ≡ forward (make no_block place broken))

chain_cases :
    (f : Verdict Bool) (p : Verdict (Bool × Bool)) (s : Verdict Bool) (no_credit : Bool)
    (make : Bool → Bool × Bool → Bool → Forward)
    → let j = chain f p s no_credit make in
      StoppedBy f p s no_credit j ⊎ PassedBy f p s no_credit make j
unfolding chain
chain_cases (stop j) p s no_credit make = inl (inl refl)
chain_cases (pass nb) (stop j) s no_credit make = inl (inr (inl refl))
chain_cases (pass nb) (pass (fk, jp)) (stop j) no_credit make = inl (inr (inr (inl refl)))
chain_cases (pass nb) (pass (fk, jp)) (pass b) true make = inl (inr (inr (inr (refl, refl))))
chain_cases (pass nb) (pass (fk, jp)) (pass b) false make =
    inr (nb, (fk, jp), b, refl, refl, refl, refl, refl)

-- The upstream broke its contract: only an archive is judged so.
abbrev IsViolation : Role → Judgement → Type 0
IsViolation role j = (k : ViolationKind) × (role ≡ frozen) × (j ≡ violates k)

kind_stop :
    (kind : ResultKind) (n : Option ℕ) (x : ℕ) (lacks : ℕ → Lacks) (j : Judgement)
    → check_kind kind n x lacks ≡ stop j
    → (k : ViolationKind) × (j ≡ violates k)
unfolding check_kind check_lacks
kind_stop keep_alive n x lacks j e = (idless, ground arith)
kind_stop id_less_uncertain n x lacks j e = (idless, ground arith)
kind_stop id_less none x lacks j e = cc
kind_stop id_less (some n) x lacks j e = (idless, ground arith)
kind_stop block none x lacks j e = cc
kind_stop block (some n) x lacks j e = (missing_field, ground arith)

frozen_stop :
    (role : Role) (creq : BlocksRequest) (h : ResultHead) (cls : Classified) (x : ℕ)
    (lacks : ℕ → Lacks) (j : Judgement)
    → check_frozen role creq h cls x lacks ≡ stop j
    → IsViolation role j
unfolding check_frozen
frozen_stop live creq h cls x lacks j e = cc
frozen_stop frozen creq h cls x lacks j e = elim (Bool-cases (bool_eq h.v1 creq.v1)) [
  | inl same ↦
      let (k, found) = kind_stop cls.kind cls.n x lacks j (rw same at e) in (k, refl, found)
  | inr other ↦ (variant, refl, ground arith)
]

-- A replay inside the de-dup window.
abbrev pub IsReplay : ClientSide → LinkState → Classified → Option BlockPos → Judgement → Type 0
IsReplay c st cls this j =
    (n : ℕ) × (cls.n ≡ some n)
    × (n < c.cursor)
    × (is_some st.resume_floor ≡ true)
    × (is_dup c n this ≡ true)
    × (j ≡ duplicate (if cls.advance then some (saturating_add n 1) else none))

place_stop :
    (c : ClientSide) (st : LinkState) (cls : Classified) (n : Option ℕ) (this : Option BlockPos)
    (seam elsewhere : Bool) (j : Judgement)
    → cls.n ≡ n
    → check_place c st cls n this seam elsewhere ≡ stop j
    → IsReplay c st cls this j
      ⊎ IsViolation st.role j
      ⊎ ((j ≡ end_link uncovered) × (seam ≡ true) × (elsewhere ≡ true))
unfolding check_place below_cursor above_cursor
place_stop c st cls none this seam elsewhere j same e = cc
place_stop c st cls (some n) this seam elsewhere j same e = elim (Bool-cases (ltb n c.cursor)) [
  | inl below ↦ elim (Bool-cases (is_some st.resume_floor && is_dup c n this)) [
    | inl dup ↦
        inl (
          n,
          same,
          omega (arith, ltb→lt n c.cursor below),
          ground arith,
          ground arith,
          ground arith,
        )
    | inr fresh ↦ inr (inl (rewind, ground arith, ground arith))
  ]
  | inr high ↦ elim (Bool-cases (is_frozen st.role)) [
    | inl archive ↦ inr (inl (gap_above, ground arith, ground arith))
    | inr node ↦ inr (inr (ground arith, ground arith, ground arith))
  ]
]

seam_stop :
    (c : ClientSide) (st : LinkState) (h : ResultHead) (seam elsewhere : Bool) (j : Judgement)
    → check_seam c st h seam elsewhere ≡ stop j
    → IsViolation st.role j ⊎ ((j ≡ end_link discontinuity) × (elsewhere ≡ true))
unfolding check_seam
seam_stop c st h seam elsewhere j e = elim (Bool-cases (is_frozen st.role)) [
  | inl archive ↦ inl (discontinuity_at_seam, ground arith, ground arith)
  | inr node ↦ inr (ground arith, ground arith)
]

module _ (c : ClientSide) (st : LinkState) (creq : BlocksRequest) (lr : LinkReq) (h : ResultHead)
    (lacks : ℕ → Lacks) (alternative : ℕ → Bool) where
  abbrev judged : Judgement
  judged = judge c st creq lr h lacks alternative

  abbrev cls : Classified
  cls = classify_result h st.up_cursor lr

  abbrev seam : Bool
  seam = st.first_result_pending && resumes lr.purpose

  abbrev make : Bool → Bool × Bool → Bool → Forward
  make no_block place broken = record {
    cls = cls;
    fork = place.0;
    jump = place.1;
    discontinuity = broken;
    variant_mismatch = not (is_frozen st.role) && not (bool_eq h.v1 creq.v1);
    no_block = no_block;
  }

  judge_cases :
      let f = check_frozen st.role creq h cls st.expect_ids_from lacks in
      let p = check_place c st cls cls.n h.this_block seam (alternative c.cursor) in
      let s = check_seam c st h seam (alternative c.cursor) in
      let no_credit = is_frozen st.role && c.credit == 0 in
      StoppedBy f p s no_credit judged ⊎ PassedBy f p s no_credit make judged
  unfolding judge chain
  judge_cases =
      chain_cases (check_frozen st.role creq h cls st.expect_ids_from lacks)
        (check_place c st cls cls.n h.this_block seam (alternative c.cursor))
        (check_seam c st h seam (alternative c.cursor)) (is_frozen st.role && c.credit == 0) make

  -- What a judgement that forwards nothing says.
  abbrev pub Stopped : Judgement → Type 0
  Stopped j =
      IsReplay c st cls h.this_block j
      ⊎ IsViolation st.role j
      ⊎ ((j ≡ end_link uncovered) × (alternative c.cursor ≡ true))
      ⊎ ((j ≡ end_link discontinuity) × (alternative c.cursor ≡ true))

  stopped :
      StoppedBy
        (check_frozen st.role creq h cls st.expect_ids_from lacks)
        (check_place c st cls cls.n h.this_block seam (alternative c.cursor))
        (check_seam c st h seam (alternative c.cursor))
        (is_frozen st.role && c.credit == 0)
        judged
      → Stopped judged
  stopped (inl e) = inr (inl (frozen_stop st.role creq h cls st.expect_ids_from lacks judged e))
  stopped (inr (inl e)) =
      elim (place_stop c st cls cls.n h.this_block seam (alternative c.cursor) judged refl e) [
        | inl r ↦ inl r
        | inr (inl v) ↦ inr (inl v)
        | inr (inr (u, _, a)) ↦ inr (inr (inl (u, a)))
      ]
  stopped (inr (inr (inl e))) = elim (seam_stop c st h seam (alternative c.cursor) judged e) [
    | inl v ↦ inr (inl v)
    | inr d ↦ inr (inr (inr d))
  ]
  stopped (inr (inr (inr (k, e)))) = inr (inl (credit, ground arith, e))

  Stopped-not_forward : (j : Judgement) (fw : Forward) → Stopped j → j ≢ forward fw
  Stopped-not_forward j fw (inl r) e = cc (r.5)
  Stopped-not_forward j fw (inr (inl v)) e = cc (v.2)
  Stopped-not_forward j fw (inr (inr (inl u))) e = cc (u.0)
  Stopped-not_forward j fw (inr (inr (inr u))) e = cc (u.0)

  pub judge-Passed :
      (fw : Forward) → judged ≡ forward fw → Passed c st creq lr h lacks alternative fw
  judge-Passed fw e = elim judge_cases [
    | inl s ↦ absurd (Stopped-not_forward judged fw (stopped s) e)
    | inr (no_block, place, broken, f, p, s, k, j) ↦
        let same : make no_block place broken ≡ fw = cc in
        subst (Passed c st creq lr h lacks alternative) same (record {
          cls_is = refl;
          fields = f;
          place = p;
          seam = s;
          credited = k;
          variant_is = refl;
        })
  ]

  pub judge-meaning :
      Stopped judged
      ⊎ ((fw : Forward) × (judged ≡ forward fw) × Passed c st creq lr h lacks alternative fw)
  judge-meaning = elim judge_cases [
    | inl s ↦ inl (stopped s)
    | inr (no_block, place, broken, f, p, s, k, j) ↦
        let fw = make no_block place broken in inr (fw, j, judge-Passed fw j)
  ]
