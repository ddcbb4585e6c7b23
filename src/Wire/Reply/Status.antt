-- ===== src/Wire/Reply/Status.antt =====
-- The status results that the router builds.
use mathlib.Core.List.{append_assoc}
use fleet_router.Prelude.{
  ℕ, ◌+◌, ◌≡◌, refl, Bool, true, false, List, ◌∷◌, ◌++◌, some, arith, if◌then◌else◌, length,
  length-append, ap, suc, ◌∙◌,
}
use fleet_router.Prelude.Words.{le_bytes}
use fleet_router.Wire.{UpstreamMsg, StatusBody}
use fleet_router.Wire.Reader.Yields.{IsPos, pos_bytes}
use fleet_router.Wire.Write.{put_u32}
use fleet_router.Wire.Write.Layout.{put_pos_lem}
use fleet_router.Wire.Reply.{classify_first, classify_upstream, encode_status, read_head_lib}
use fleet_router.Wire.Reply.Patch.{length-pos_bytes, read_head_lib-layout}

pub record IsSendableStatus (s : StatusBody) : Type 0 where
  pub head : IsPos s.head
  pub lib : IsPos s.lib
  pub chain_id : length s.chain_id ≡ 32

ranges : Bool → StatusBody → List ℕ
ranges v1 s =
    let fixed =
      le_bytes 4 s.trace.begin
      ++ le_bytes 4 s.trace.end
      ++ le_bytes 4 s.chain_state.begin
      ++ le_bytes 4 s.chain_state.end
      ++ s.chain_id in
    if v1 then fixed ++ le_bytes 4 s.finality.begin ++ le_bytes 4 s.finality.end else fixed

encode_status-layout :
    (v1 : Bool) (s : StatusBody)
    → encode_status v1 s
      ≡ (if v1 then 3 else 0) ∷ (pos_bytes s.head ++ (pos_bytes s.lib ++ ranges v1 s))
unfolding encode_status ranges put_u32
encode_status-layout false s = simp (put_pos_lem, append_assoc) refl
encode_status-layout true s = simp (put_pos_lem, append_assoc) refl

length-ranges :
    (v1 : Bool) (s : StatusBody)
    → length s.chain_id ≡ 32
    → length (ranges v1 s) ≡ (if v1 then 56 else 48)
unfolding ranges le_bytes
length-ranges false s h = simp length-append (omega (arith, h))
length-ranges true s h = simp length-append (omega (arith, h))

classify_status :
    (v1 : Bool) (rest : List ℕ)
    → length rest ≡ (if v1 then 128 else 120)
    → classify_upstream ((if v1 then 3 else 0) ∷ rest) ≡ UpstreamMsg.status v1
unfolding classify_upstream classify_first
classify_status false rest h = ground arith
classify_status true rest h = ground arith

-- A status result that the router builds has the 121 or 129 bytes of its version, and is
-- classified as that version; its head and LIB are read back.
pub classify_upstream-encode_status :
    (v1 : Bool) (s : StatusBody)
    → IsSendableStatus s
    → (length (encode_status v1 s) ≡ (if v1 then 129 else 121))
      × (classify_upstream (encode_status v1 s) ≡ UpstreamMsg.status v1)
      × (read_head_lib (encode_status v1 s) ≡ some (s.head, s.lib))
classify_upstream-encode_status v1 s h =
    let ph = pos_bytes s.head in
    let pl = pos_bytes s.lib in
    let rest = ph ++ (pl ++ ranges v1 s) in
    let size : length rest ≡ length (ranges v1 s) + 72 = omega (
      arith,
      length-append ph (pl ++ ranges v1 s),
      length-append pl (ranges v1 s),
      length-pos_bytes s.head h.head,
      length-pos_bytes s.lib h.lib,
    ) in
    let total : length rest ≡ (if v1 then 128 else 120) =
      size ∙ sized v1 (length (ranges v1 s)) (length-ranges v1 s h.chain_id) in
    rw (encode_status-layout v1 s) (
      ap suc total ∙ counted v1,
      classify_status v1 rest total,
      read_head_lib-layout _ s.head s.lib (ranges v1 s) h.head h.lib,
    )
  where
    sized : (v1 : Bool) (n : ℕ) → n ≡ (if v1 then 56 else 48) → n + 72 ≡ (if v1 then 128 else 120)
    sized false n e = omega arith
    sized true n e = omega arith

    counted : (v1 : Bool) → suc (if v1 then 128 else 120) ≡ (if v1 then 129 else 121)
    counted false = refl
    counted true = refl
