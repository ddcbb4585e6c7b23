-- ===== src/Session/Status/Reply.antt =====
-- The status reply that the router builds.
use fleet_router.Prelude.{
  ℕ, ◌+◌, ◌≤◌, ◌<◌, ◌≡◌, refl, ◌∙◌, inl, inr, Bool, true, false, not, ◌&&◌, ◌||◌, List, Option,
  some, arith, leb, if◌then◌else◌, is_some, is_some_and, unwrap_or, length, take, length-take,
  take-take, Option-cases,
}
use fleet_router.Prelude.Words.{u32_max}
use fleet_router.Ship.{BlockPos, is_empty, contains}
use fleet_router.Wire.Reader.Yields.{IsPos}
use fleet_router.Wire.Reply.{encode_status, read_head_lib}
use fleet_router.Wire.Reply.Status.{classify_upstream-encode_status}
use fleet_router.Fleet.Coverage.{LogCoverage}
use fleet_router.Fleet.View.{FleetView}
use fleet_router.Session.Mirror.{ClientSide, tip_for}
use fleet_router.Session.Mirror.Laws.{IsMirror, NumLe, tip_for_bounds, tip_for_All, HwmLe-NumLe}
use fleet_router.Session.Status.{
  status_v0_no_chain_id, zeros, RouterStatus, status_range, status_body, status_of, router_status,
}

-- The first 73 bytes decide the positions.
read_head_lib-take :
    (n : ℕ) (bytes : List ℕ) → 73 ≤ n → read_head_lib (take n bytes) ≡ read_head_lib bytes
unfolding read_head_lib
read_head_lib-take n bytes h =
    let long : leb 73 (length (take n bytes)) ≡ leb 73 (length bytes) =
      ground (arith, length-take n bytes) in
    rw (long, take-take 73 n bytes h) refl

abbrev IsSentPos : Option BlockPos → Type 0
IsSentPos sent = (p : BlockPos) → sent ≡ some p → IsPos p

body_read :
    (view : FleetView) (shown : BlockPos × BlockPos) (v1 : Bool)
    → IsPos shown.0
    → IsPos shown.1
    → length (unwrap_or (zeros 32) view.chain_id) ≡ 32
    → read_head_lib (encode_status v1 (status_body view shown)) ≡ some shown
unfolding status_body
body_read view shown v1 h l id =
    (classify_upstream-encode_status v1 (status_body view shown)
      (record { head = h; lib = l; chain_id = id })).2

-- A status reply that the router builds, where the positions fit their fields and the chain's id,
-- if it is known, has 32 bytes: it shows the head and the LIB that the session records, which are
-- not below those that it had recorded, with the LIB not above the head. The mirror's invariant
-- holds after it.
pub router_status-monotone :
    (view : FleetView) (head lib : BlockPos) (c : ClientSide) (v1 : Bool)
    → IsMirror c
    → IsPos head
    → IsPos lib
    → IsSentPos c.head_sent
    → IsSentPos c.lib_sent
    → length (unwrap_or (zeros 32) view.chain_id) ≡ 32
    → let (c', out) = router_status view (some head, some lib) c v1 in
      IsMirror c'
      × NumLe c.head_sent c'.head_sent
      × NumLe c.lib_sent c'.lib_sent
      × NumLe c'.lib_sent c'.head_sent
      × ((s : RouterStatus) × (h : BlockPos) × (l : BlockPos) × (out ≡ some s)
          × (c'.head_sent ≡ some h)
          × (c'.lib_sent ≡ some l)
          × (read_head_lib s.bytes ≡ some (h, l)))
unfolding router_status
router_status-monotone view head lib c v1 m ph pl sh sl id =
    let shown = tip_for c (head, lib) in
    let (on_head, on_lib, within) = tip_for_bounds c (head, lib) m in
    let (sent_h, sent_l) = tip_for_All IsPos c head lib ph pl sh sl in
    let read : read_head_lib (encode_status v1 (status_body view shown)) ≡ some shown =
      body_read view shown v1 sent_h sent_l id in
    (
      record {
        credit_fits = m.credit_fits;
        ring = m.ring;
        lib_within = within;
        irreversible = HwmLe-NumLe c.irr_hwm c.lib_sent shown.1 m.irreversible on_lib;
      },
      on_head,
      on_lib,
      within,
      (
        status_of view shown v1,
        shown.0,
        shown.1,
        refl,
        refl,
        refl,
        cut (not (is_some view.chain_id) && not v1) (encode_status v1 (status_body view shown))
            shown read,
      ),
    )
  where
    cut :
        (short : Bool) (bytes : List ℕ) (shown : BlockPos × BlockPos)
        → read_head_lib bytes ≡ some shown
        → read_head_lib (if short then take status_v0_no_chain_id bytes else bytes) ≡ some shown
    cut true bytes shown e = read_head_lib-take status_v0_no_chain_id bytes (omega arith) ∙ e
    cut false bytes shown e = e

-- What a status reply says of a log: the top component of its coverage, and the blocks up to the
-- fleet head where a live upstream covers its end.
pub status_range_iff :
    (cov : LogCoverage) (head n : ℕ)
    → head < u32_max
    → contains (status_range cov head) n ≡ (
        contains cov.top n
        || (contains (record cov.top { end = head + 1 }) n
            && not (is_empty cov.top)
            && is_some_and (λ b. leb b cov.top.end) cov.live_tail_begin))
unfolding status_range is_empty contains
status_range_iff cov head n h = elim (Option-cases cov.live_tail_begin) [
  | inl e ↦ ground arith
  | inr (b, e) ↦ ground arith
]
