-- ===== src/Session/Outgoing/Frames.antt =====
-- The frames that a client gets are those that a node would have sent it.
use mathlib.Core.List.{append_assoc}
use fleet_router.Prelude.{
  ℕ, ◌+◌, ◌≤◌, ◌≡◌, refl, sym, ap, ◌∙◌, subst, inl, inr, Bool, true, not, ◌||◌, List, ◌∷◌, ◌++◌,
  Option, none, some, arith, leb, ◌==◌, if◌then◌else◌, is_some_and, length, length-append, drop,
  Bool-cases,
}
use fleet_router.Prelude.Words.{usize_max, checked_add}
use fleet_router.Ship.{BlockPos}
use fleet_router.Wire.Reader.Yields.{IsPos, pos_bytes}
use fleet_router.Wire.Reply.{patch_head_lib}
use fleet_router.Wire.Reply.Patch.{length-pos_bytes, patch_head_lib-layout, drop_past}
use fleet_router.Wire.Reply.Head.{
  BlockResult, IsWellFormed, IsOptionalPos, result_index, optional_bytes_of, frame_of, head_of,
  insert_prev_block-frame,
}
use fleet_router.Models.{Role, live, frozen}
use fleet_router.Session.Mirror.{
  ClientSide, charge, last_irreversible, base_tip, tip_for, head_lib_for,
}
use fleet_router.Session.Mirror.Laws.{
  IsMirror, NumLe, charge-IsMirror, head_lib_for-monotone, tip_for_All, shown,
}
use fleet_router.Session.Outgoing.{fill_from, fill_prev_block, apply_head_lib, outgoing}

-- Patching the positions gives the frame of the result that has them.
patch_head_lib-frame :
    (b : BlockResult) (head lib : BlockPos)
    → IsWellFormed b
    → IsPos head
    → IsPos lib
    → patch_head_lib (frame_of b) head lib ≡ frame_of (record b { head = head; lib = lib })
unfolding frame_of result_index
patch_head_lib-frame b head lib w h l =
    let tail = optional_bytes_of b.this_block ++ (optional_bytes_of b.prev_block ++ b.payload) in
    let ph = pos_bytes b.head in
    let pl = pos_bytes b.lib in
    let size : length (ph ++ pl) ≡ 72 =
      omega (
        arith,
        length-append ph pl,
        length-pos_bytes b.head w.head,
        length-pos_bytes b.lib w.lib,
      ) in
    let rest : drop 72 (ph ++ (pl ++ tail)) ≡ tail =
      ap (drop 72) (sym (append_assoc ph pl tail)) ∙ drop_past 72 0 (ph ++ pl) tail size in
    let long : 72 ≤ length (ph ++ (pl ++ tail)) =
      omega
        (arith, size, ap (length {0}) (append_assoc ph pl tail), length-append (ph ++ pl) tail) in
    patch_head_lib-layout (result_index b) (ph ++ (pl ++ tail)) head lib long h l
    ∙ ap (λ (t : List ℕ). result_index b ∷ (pos_bytes head ++ (pos_bytes lib ++ t))) rest

-- The `prev_block` of an archive's result after filling: its own, or the last delivered block,
-- where that is the irreversible block just below.
abbrev pub filled_of : Option BlockPos → Option BlockPos → Option BlockPos → Option BlockPos
filled_of none prev last = prev
filled_of (some this) (some prev) last = some prev
filled_of (some this) none none = none
filled_of (some this) none (some last) =
    if leb this.num 1 || not (is_some_and (λ next. next == this.num) (checked_add last.num 1))
    then none
    else some last

abbrev pub with_prev : BlockResult → Option BlockPos → BlockResult
with_prev b prev = record b { prev_block = prev }

with_prev_same :
    (b : BlockResult) (prev : Option BlockPos) → b.prev_block ≡ prev → b ≡ with_prev b prev
with_prev_same b prev e = ap (with_prev b) e

fill_from-frame :
    (b : BlockResult) (this prev last : Option BlockPos)
    → b.this_block ≡ this
    → b.prev_block ≡ prev
    → IsWellFormed b
    → ((p : BlockPos) → last ≡ some p → IsPos p)
    → length (frame_of b) + 36 ≤ usize_max
    → fill_from this prev last (frame_of b) (head_of b)
      ≡ frame_of (with_prev b (filled_of this prev last))
unfolding fill_from
fill_from-frame b none prev last t p w pos small = ap frame_of (with_prev_same b prev p)
fill_from-frame b (some this) (some prev) last t p w pos small =
    ap frame_of (with_prev_same b (some prev) p)
fill_from-frame b (some this) none none t p w pos small = ap frame_of (with_prev_same b none p)
fill_from-frame b (some this) none (some last) t p w pos small =
    elim (Bool-cases
      (leb this.num 1 || not (is_some_and (λ next. next == this.num) (checked_add last.num 1)))) [
        | inl apart ↦ rw apart (ap frame_of (with_prev_same b none p))
        | inr next ↦
            rw next (rw ((insert_prev_block-frame b this last w t p (pos last refl) small).0) refl)
      ]

fields_of_head :
    (b : BlockResult)
    → ((head_of b).this_block ≡ b.this_block)
      × ((head_of b).prev_block ≡ b.prev_block)
      × ((head_of b).head ≡ b.head)
      × ((head_of b).lib ≡ b.lib)
unfolding head_of
fields_of_head b = (refl, refl, refl, refl)

-- What the client gets of a result: an archive's is filled.
abbrev pub served_prev : Role → ClientSide → BlockResult → Option BlockPos
served_prev live c b = b.prev_block
served_prev frozen c b = filled_of b.this_block b.prev_block (last_irreversible c)

abbrev pub served : Role → ClientSide → BlockResult → BlockPos → BlockPos → BlockResult
served role c b h l = record b { head = h; lib = l; prev_block = served_prev role c b }

abbrev IsSentPos : Option BlockPos → Type 0
IsSentPos sent = (p : BlockPos) → sent ≡ some p → IsPos p

-- The positions of the mirror and of the fleet fit their fields.
pub record IsSendable (c : ClientSide) (fleet : Option (BlockPos × BlockPos)) : Type 0 where
  pub head_sent : IsSentPos c.head_sent
  pub lib_sent : IsSentPos c.lib_sent
  pub last : IsSentPos (last_irreversible c)
  pub tip : (t : BlockPos × BlockPos) → fleet ≡ some t → IsPos t.0 × IsPos t.1

base_tip-IsPos :
    (role : Role) (head lib : BlockPos) (fleet : Option (BlockPos × BlockPos))
    → IsPos head
    → IsPos lib
    → ((t : BlockPos × BlockPos) → fleet ≡ some t → IsPos t.0 × IsPos t.1)
    → IsPos (base_tip role head lib fleet).0 × IsPos (base_tip role head lib fleet).1
unfolding base_tip
base_tip-IsPos live head lib fleet h l t = (h, l)
base_tip-IsPos frozen head lib none h l t = (h, l)
base_tip-IsPos frozen head lib (some tip) h l t = t tip refl

patched :
    (b : BlockResult) (out : Option (BlockPos × BlockPos))
    → IsWellFormed b
    → ((t : BlockPos × BlockPos) → out ≡ some t → IsPos t.0 × IsPos t.1)
    → (elim out [ none ↦ frame_of b | some (h, l) ↦ patch_head_lib (frame_of b) h l ])
      ≡ frame_of
          (record b { head = (shown out (b.head, b.lib)).0; lib = (shown out (b.head, b.lib)).1 })
patched b none w pos = refl
patched b (some (h, l)) w pos = patch_head_lib-frame b h l w (pos (h, l) refl).0 (pos (h, l) refl).1

-- What is patched in is what the client is to see.
head_lib_for-shown :
    (c : ClientSide) (role : Role) (head lib : BlockPos) (fleet : Option (BlockPos × BlockPos))
    (patch : Bool) (t : BlockPos × BlockPos)
    → (head_lib_for c role head lib fleet patch).1 ≡ some t
    → t ≡ tip_for c (base_tip role head lib fleet)
unfolding head_lib_for
head_lib_for-shown c role head lib fleet patch t e = ground arith

module _ (b : BlockResult) (w : IsWellFormed b) (c : ClientSide) (role : Role)
    (fleet : Option (BlockPos × BlockPos)) (m : IsMirror c) (s : IsSendable c fleet) where
  -- The frame of a result of an upstream, with what the session records as sent.
  abbrev Sends : ClientSide × List ℕ → BlockResult → Type 0
  Sends out b =
      (h : BlockPos) × (l : BlockPos) × (out.0.head_sent ≡ some h)
      × (out.0.lib_sent ≡ some l)
      × (out.1 ≡ frame_of (record b { head = h; lib = l }))

  apply_head_lib-frame : Sends (apply_head_lib c (frame_of b) b.head b.lib role fleet true) b
  unfolding apply_head_lib
  apply_head_lib-frame =
      let out = (head_lib_for c role b.head b.lib fleet true).1 in
      let (_, _, _, _, seen) = head_lib_for-monotone c role b.head b.lib fleet true m in
      let (bh, bl) = base_tip-IsPos role b.head b.lib fleet w.head w.lib s.tip in
      let base = base_tip role b.head b.lib fleet in
      let pos : (t : BlockPos × BlockPos) → out ≡ some t → IsPos t.0 × IsPos t.1 = λ t e.
        let same = head_lib_for-shown c role b.head b.lib fleet true t e in
        subst (λ (t : BlockPos × BlockPos). IsPos t.0 × IsPos t.1) (sym same)
          (tip_for_All IsPos c base.0 base.1 bh bl s.head_sent s.lib_sent) in
      (
        (shown out (b.head, b.lib)).0,
        (shown out (b.head, b.lib)).1,
        (seen refl).0,
        (seen refl).1,
        patched b out w pos,
      )

charge-kept :
    (c : ClientSide)
    → ((charge c).0.head_sent ≡ c.head_sent)
      × ((charge c).0.lib_sent ≡ c.lib_sent)
      × (last_irreversible (charge c).0 ≡ last_irreversible c)
unfolding charge last_irreversible
charge-kept c = elim (Bool-cases (leb 1 c.credit)) [
  | inl e ↦ rw e (refl, refl, refl)
  | inr e ↦ rw e (refl, refl, refl)
]

charge-IsSendable :
    (c : ClientSide) (fleet : Option (BlockPos × BlockPos))
    → IsSendable c fleet
    → IsSendable (charge c).0 fleet
charge-IsSendable c fleet s =
    let (h, l, last) = charge-kept c in
    record {
      head_sent = subst IsSentPos (sym h) s.head_sent;
      lib_sent = subst IsSentPos (sym l) s.lib_sent;
      last = subst IsSentPos (sym last) s.last;
      tip = s.tip;
    }

filled_of-IsPos :
    (this prev last : Option BlockPos)
    → IsOptionalPos prev
    → IsSentPos last
    → IsOptionalPos (filled_of this prev last)
unfolding IsOptionalPos
filled_of-IsPos none prev last p s = p
filled_of-IsPos (some this) (some prev) last p s = p
filled_of-IsPos (some this) none none p s = p
filled_of-IsPos (some this) none (some last) p s =
    elim (Bool-cases
      (leb this.num 1 || not (is_some_and (λ next. next == this.num) (checked_add last.num 1)))) [
        | inl e ↦ rw e p
        | inr e ↦ rw e (s last refl)
      ]

fill_prev_block-frame :
    (b : BlockResult) (c : ClientSide)
    → IsWellFormed b
    → IsSentPos (last_irreversible c)
    → length (frame_of b) + 36 ≤ usize_max
    → fill_prev_block c (frame_of b) (head_of b)
      ≡ frame_of (with_prev b (filled_of b.this_block b.prev_block (last_irreversible c)))
unfolding fill_prev_block head_of
fill_prev_block-frame b c w s small =
    fill_from-frame b b.this_block b.prev_block (last_irreversible c) refl refl w s small

-- For any well-formed block result of an upstream that fits in memory, with patching on and where
-- the positions that the session knows fit their fields: the frame that the client is sent is the
-- one that a node would write for the same result with the head and the LIB that the session
-- records, and, from an archive that left it out, with the last irreversible block delivered just
-- below as its `prev_block`. The recorded head and LIB are not below those recorded before, and
-- the LIB is not above the head.
pub outgoing-frame :
    (b : BlockResult) (c : ClientSide) (role : Role) (fleet : Option (BlockPos × BlockPos))
    → IsWellFormed b
    → length (frame_of b) + 36 ≤ usize_max
    → IsMirror c
    → IsSendable c fleet
    → let (c', out) = outgoing c role (frame_of b) (head_of b) fleet true in
      ((h : BlockPos) × (l : BlockPos) × (c'.head_sent ≡ some h)
        × (c'.lib_sent ≡ some l)
        × (out ≡ frame_of (served role c b h l)))
      × NumLe c.head_sent c'.head_sent
      × NumLe c.lib_sent c'.lib_sent
      × NumLe c'.lib_sent c'.head_sent
unfolding outgoing head_of apply_head_lib
outgoing-frame b c live fleet w small m s =
    let c1 = (charge c).0 in
    let m1 = charge-IsMirror c m in
    let s1 = charge-IsSendable c fleet s in
    let after = (head_lib_for c1 live b.head b.lib none true).0 in
    let (_, up, lup, within, _) = head_lib_for-monotone c1 live b.head b.lib none true m1 in
    let (eh, el, _) = charge-kept c in
    (
      apply_head_lib-frame b w c1 live none m1 (record {
        head_sent = s1.head_sent;
        lib_sent = s1.lib_sent;
        last = s1.last;
        tip = λ t e. cc;
      }),
      subst (λ (x : Option BlockPos). NumLe x after.head_sent) eh up,
      subst (λ (x : Option BlockPos). NumLe x after.lib_sent) el lup,
      within,
    )
outgoing-frame b c frozen fleet w small m s =
    let c1 = (charge c).0 in
    let m1 = charge-IsMirror c m in
    let s1 = charge-IsSendable c fleet s in
    let after = (head_lib_for c1 frozen b.head b.lib fleet true).0 in
    let (_, up, lup, within, _) = head_lib_for-monotone c1 frozen b.head b.lib fleet true m1 in
    let (eh, el, last) = charge-kept c in
    let prev = filled_of b.this_block b.prev_block (last_irreversible c1) in
    let full : BlockResult = with_prev b prev in
    let wf : IsWellFormed full = record {
      head = w.head;
      lib = w.lib;
      this_block = w.this_block;
      prev_block =
          filled_of-IsPos b.this_block b.prev_block (last_irreversible c1) w.prev_block s1.last;
    } in
    let filled : fill_prev_block c1 (frame_of b) (head_of b) ≡ frame_of full =
      fill_prev_block-frame b c1 w s1.last small in
    let (h, l, hs, ls, out) = apply_head_lib-frame full wf c1 frozen fleet m1 s1 in
    (
      (
        h,
        l,
        hs,
        ls,
        ap (λ (f : List ℕ). (apply_head_lib c1 f b.head b.lib frozen fleet true).1) filled
            ∙ out
            ∙ ap
                (λ (p : Option BlockPos). frame_of (record b {
                  head = h;
                  lib = l;
                  prev_block = filled_of b.this_block b.prev_block p;
                }))
                last,
      ),
      subst (λ (x : Option BlockPos). NumLe x after.head_sent) eh up,
      subst (λ (x : Option BlockPos). NumLe x after.lib_sent) el lup,
      within,
    )
