-- ===== src/Session/Lockstep/Reading.antt =====
-- Reading a result keeps the ledger, whatever the router makes of it.
use fleet_router.Prelude.{
  ℕ, suc, ◌+◌, ◌-◌, ◌%◌, ◌^◌, ◌≤◌, ◌≡◌, refl, sym, ap, ◌∙◌, subst, ◌⊎◌, inl, inr, Bool, true, false,
  List, [], ◌∷◌, Option, none, some, arith, if◌then◌else◌, length,
}
use fleet_router.Prelude.Words.{u32_max, saturating_add}
use fleet_router.Ship.{BlockPos}
use fleet_router.Wire.{BlocksRequest, ResultHead}
use fleet_router.Models.{Role}
use fleet_router.Session.Failover.{UpEnd, violation, uncovered, discontinuity}
use fleet_router.Session.Mirror.{ClientSide, charge, head_lib_for}
use fleet_router.Session.Mirror.Laws.{IsMirror, charge-IsMirror, head_lib_for-monotone}
use fleet_router.Session.Link.{LinkReq, LinkState, UpCursor, exact}
use fleet_router.Session.Judge.{
  Classified, classify_result, nothing, Forward, Judgement, forward, duplicate, end_link, commit,
}
use fleet_router.Session.Judge.Rules.{judge-meaning}
use fleet_router.Session.Judge.Commit.{commit-IsMirror, commit_lem}
use fleet_router.Session.Lockstep.{Sim, deliver, on_judged, sim_judge, read_frame}
use fleet_router.Session.Lockstep.Node.{pos, Kind, kind_tip, Frame, Upstream}
use fleet_router.Session.Lockstep.Follows.{Follows, Follows-weaken, classify_result-next}
use fleet_router.Session.Lockstep.Quiet.{seen, IsLinked}
use fleet_router.Session.Lockstep.Ledger.{
  IsLockstep, IsPlan, resume-IsLockstep, hand_off-IsLockstep,
}

head_lib_for-credit :
    (c : ClientSide) (role : Role) (head lib : BlockPos) (fleet : Option (BlockPos × BlockPos))
    (patch : Bool)
    → (head_lib_for c role head lib fleet patch).0.credit ≡ c.credit
unfolding head_lib_for
head_lib_for-credit c role head lib fleet patch = refl

-- The cursor after the first result on the wire, and that the rest follows it.
module _ (kind : Kind) (lr : LinkReq) (l : ℕ) (u : UpCursor) (f : Frame) (fs : List Frame) (y t : ℕ)
    (fits : lr.end ≤ u32_max) (k : Follows kind lr l u (f ∷ fs) y t) where
  abbrev cls : Classified
  cls = classify_result f.h u lr

  -- For the cursor that the code writes.
  next-Follows :
      ((n : ℕ) × (cls.n ≡ some n)
        × (cls.advance ≡ true)
        × Follows kind lr f.h.lib.num (exact (saturating_add n 1)) fs y t)
      ⊎ ((cls.n ≡ none) × (cls.advance ≡ false) × Follows kind lr f.h.lib.num u fs y t)
  next-Follows = elim (classify_result-next kind lr l u k.0 f k.1 k.2) [
    | inl (n, is_n, adv, low, next) ↦
        let sum : saturating_add n 1 ≡ suc n = omega arith in
        inl (
          n,
          is_n,
          adv,
          subst (λ (c : UpCursor). Follows kind lr f.h.lib.num c fs y t) (next ∙ ap exact (sym sum))
              k.4,
        )
    | inr (is_n, adv, next) ↦
        inr (is_n, adv, subst (λ (c : UpCursor). Follows kind lr f.h.lib.num c fs y t) next k.4)
  ]

module _ (s : Sim) (st : LinkState) (up : Upstream) (lr : LinkReq) (f : Frame) (fs : List Frame)
    (k : IsLockstep s) (l : IsLinked s.chain st up lr) (wire : up.wire ≡ f ∷ fs)
    (balance : up.credit + length up.wire ≡ s.c.credit) where
  abbrev popped : Upstream
  popped = record up { wire = fs }

  follows :
      Follows up.kind lr
        (seen st.last_lib)
        st.up_cursor
        (f ∷ fs)
        up.cursor
        (kind_tip up.kind s.chain).1
  follows =
      subst
        (λ (w : List Frame).
          Follows up.kind lr (seen st.last_lib) st.up_cursor w up.cursor
            (kind_tip up.kind s.chain).1)
        wire l.follows

  balance_of : up.credit + suc (length fs) ≡ s.c.credit
  balance_of = omega (arith, ap (length {0}) wire)

  -- A result that is forwarded has credit: the client's window is open.
  pub deliver-credited : (h : ResultHead) (fw : Forward) → (deliver s st popped h fw).1 ≡ false
  unfolding deliver charge
  deliver-credited h fw = ground (arith, balance_of)

  charged : (charge s.c).0 ≡ record s.c { credit = s.c.credit - 1 }
  unfolding charge
  charged = ground (arith, balance_of)

  -- The link after the commit, for the cursor that the classification gives.
  committed :
      (c : ClientSide) (fw : Forward)
      → fw.cls ≡ classify_result f.h st.up_cursor lr
      → IsLinked s.chain (commit c st f.h fw).1 popped lr
  committed c fw is =
      let (_, role, req, lib, moved, stayed) = commit_lem c st f.h fw in
      let st' = (commit c st f.h fw).1 in
      let Rest = λ (seen_lib : ℕ) (u : UpCursor).
        Follows up.kind lr seen_lib u fs up.cursor (kind_tip up.kind s.chain).1 in
      let cursor_follows : Rest f.h.lib.num st'.up_cursor =
        elim (next-Follows up.kind lr (seen st.last_lib) st.up_cursor f fs up.cursor
          (kind_tip up.kind s.chain).1 l.end_fits follows) [
            | inl (n, is_n, adv, rest) ↦
                subst (Rest f.h.lib.num)
                  (sym
                    (moved n (ap (λ (k : Classified). k.advance) is ∙ adv)
                      (ap (λ (k : Classified). k.n) is ∙ is_n)).1)
                  rest
            | inr (is_n, adv, rest) ↦
                subst (Rest f.h.lib.num)
                  (sym (stayed (ap (λ (k : Classified). k.advance) is ∙ adv)).1) rest
          ] in
      record {
        asked = req ∙ l.asked;
        serves = l.serves;
        end_fits = l.end_fits;
        role_is = role ∙ l.role_is;
        kind_is = l.kind_is;
        follows = subst (λ (m : ℕ). Rest m st'.up_cursor) (sym (ap seen lib)) cursor_follows;
      }

  deliver-IsLockstep :
      (fw : Forward)
      → fw.cls ≡ classify_result f.h st.up_cursor lr
      → IsLockstep (deliver s st popped f.h fw).0
  unfolding deliver
  deliver-IsLockstep fw is =
      let tip = some (pos s.chain s.chain.head, pos s.chain s.chain.lib) in
      let c1 = (charge s.c).0 in
      let c2 = (head_lib_for c1 st.role f.h.head f.h.lib tip true).0 in
      let mirror2 : IsMirror c2 =
        (head_lib_for-monotone c1 st.role f.h.head f.h.lib tip true
          (charge-IsMirror s.c k.mirror)).0 in
      let spent : (commit c2 st f.h fw).0.credit ≡ s.c.credit - 1 =
        (commit_lem c2 st f.h fw).0
        ∙ head_lib_for-credit c1 st.role f.h.head f.h.lib tip true
        ∙ ap (λ (c : ClientSide). c.credit) charged in
      record {
        chain_is = k.chain_is;
        mirror = commit-IsMirror c2 st f.h fw mirror2;
        window_is = omega (arith, spent, k.window_is);
        balanced = (lr, committed c2 fw is, omega (arith, spent, balance_of));
      }

  -- A replay is dropped, and its credit goes back to the upstream.
  dropped-IsLockstep :
      (cursor : UpCursor)
      → Follows up.kind lr f.h.lib.num cursor fs up.cursor (kind_tip up.kind s.chain).1
      → IsLockstep (record s {
        link =
            some (
              record st { up_cursor = cursor },
              record popped { credit = (up.credit + 1) % 2 ^ 32 },
            );
      })
  dropped-IsLockstep cursor rest = record {
    chain_is = k.chain_is;
    mirror = k.mirror;
    window_is = k.window_is;
    balanced = (
      lr,
      record {
        asked = l.asked;
        serves = l.serves;
        end_fits = l.end_fits;
        role_is = l.role_is;
        kind_is = l.kind_is;
        follows =
            Follows-weaken up.kind lr f.h.lib.num (seen st.last_lib) cursor fs up.cursor
              (kind_tip up.kind s.chain).1 follows.3 rest;
      },
      omega (arith, balance_of, k.mirror.credit_fits),
    );
  }

  module _ (creq : BlocksRequest) (kind : Kind) (end now : ℕ) (plan : IsPlan kind end) where
    abbrev After : Judgement → Type 0
    After j = IsLockstep (on_judged j s creq lr st popped f.h kind end now)

    ended : (e : UpEnd) → After (end_link e)
    unfolding on_judged
    ended e = resume-IsLockstep s kind end now plan k

    replayed :
        (n : ℕ) (j : Judgement)
        → (classify_result f.h st.up_cursor lr).n ≡ some n
        → j
          ≡ duplicate (
              if (classify_result f.h st.up_cursor lr).advance
              then some (saturating_add n 1)
              else none)
        → After j
    unfolding on_judged
    replayed n j is e =
        elim (next-Follows up.kind lr (seen st.last_lib) st.up_cursor f fs up.cursor
          (kind_tip up.kind s.chain).1 l.end_fits follows) [
            | inr (none_left, _, _) ↦ cc
            | inl (m, is_m, adv, rest) ↦
                let same : j ≡ duplicate (some (saturating_add m 1)) = ground arith in
                subst After (sym same) (dropped-IsLockstep (exact (saturating_add m 1)) rest)
          ]

    forwarded : (fw : Forward) → fw.cls ≡ classify_result f.h st.up_cursor lr → After (forward fw)
    unfolding on_judged
    forwarded fw is =
        hand_off-IsLockstep (deliver s st popped f.h fw).0 kind end now plan
          (deliver-IsLockstep fw is) creq lr

    judged-IsLockstep : After (sim_judge s.c st creq lr f.h)
    unfolding sim_judge
    judged-IsLockstep = elim (judge-meaning s.c st creq lr f.h (λ n. nothing) (λ k. true)) [
      | inl (inl (n, is, _, _, _, e)) ↦ replayed n _ is e
      | inl (inr (inl (v, _, e))) ↦ subst After (sym e) (ended (violation v))
      | inl (inr (inr (inl (e, _)))) ↦ subst After (sym e) (ended uncovered)
      | inl (inr (inr (inr (e, _)))) ↦ subst After (sym e) (ended discontinuity)
      | inr (fw, e, p) ↦ subst After (sym e) (forwarded fw p.cls_is)
    ]

pub frame-IsLockstep :
    (s : Sim) (creq : BlocksRequest) (lr : LinkReq) (st : LinkState) (up : Upstream)
    (wire : List Frame) (kind : Kind) (end now : ℕ)
    → IsPlan kind end
    → IsLockstep s
    → IsLinked s.chain st up lr
    → up.credit + length up.wire ≡ s.c.credit
    → up.wire ≡ wire
    → IsLockstep (read_frame wire s creq lr st up kind end now)
unfolding read_frame
frame-IsLockstep s creq lr st up [] kind end now plan k l b e = k
frame-IsLockstep s creq lr st up (f ∷ fs) kind end now plan k l b e =
    judged-IsLockstep s st up lr f fs k l e b creq kind end now plan
