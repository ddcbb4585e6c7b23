-- ===== src/Fleet/Tip/Laws.antt =====
-- What the fleet tip guarantees: the LIB is never above the head, the high-water mark never goes
-- back, and no anchor is ahead of the head.
use fleet_router.Prelude.{
  ℕ, ◌≤◌, max, ◌≡◌, refl, sym, subst, inl, inr, Bool, List, [], ◌∷◌, Option, none, some, arith, In,
  get_elem?, Option-cases,
}
use fleet_router.Ship.{BlockPos}
use fleet_router.Fleet.Upstream.{UpstreamView}
use fleet_router.Fleet.View.{FleetView, HubMemory, note_head, max_by_num}
use fleet_router.Fleet.Tip.{
  Tips, observe, tip_of, anchor_fold, anchor_max, cap_lib, settle, fleet_tip, refresh, fresh_tip,
}

-- By number, and nothing known is least.
abbrev pub AtMost : Option BlockPos → Option BlockPos → Type 0
AtMost none b = Unit {0}
AtMost (some x) none = ⊥
AtMost (some x) (some y) = x.num ≤ y.num

AtMost-refl : (a : Option BlockPos) → AtMost a a
AtMost-refl none = tt
AtMost-refl (some x) = omega arith

AtMost-trans : (a b c : Option BlockPos) → AtMost a b → AtMost b c → AtMost a c
AtMost-trans none b c h k = tt
AtMost-trans (some x) none c h k = absurd h
AtMost-trans (some x) (some y) none h k = absurd k
AtMost-trans (some x) (some y) (some z) h k = omega arith

max_by_num_bounds : (a b : Option BlockPos) → AtMost a (max_by_num a b) × AtMost b (max_by_num a b)
unfolding max_by_num
max_by_num_bounds none none = (tt, tt)
max_by_num_bounds none (some y) = (tt, omega arith)
max_by_num_bounds (some x) none = (omega arith, tt)
max_by_num_bounds (some x) (some y) = ground arith

-- A tip that comes out of `fleet_tip` or `fresh_tip`.
pub record IsSoundTip (before after : HubMemory) (head lib : Option BlockPos) : Type 0 where
  pub lib_within : AtMost lib head
  pub mark_kept : AtMost before.lib_hwm after.lib_hwm
  pub mark_served : AtMost before.lib_hwm head → AtMost before.lib_hwm lib

cap_lib_bounds : (head : BlockPos) (a : Option BlockPos) → AtMost (cap_lib head a) (some head)
unfolding cap_lib
cap_lib_bounds head none = tt
cap_lib_bounds head (some l) = ground arith

cap_lib-keeps :
    (head : BlockPos) (m a : Option BlockPos)
    → AtMost m a
    → AtMost m (some head)
    → AtMost m (cap_lib head a)
unfolding cap_lib
cap_lib-keeps head none a h k = tt
cap_lib-keeps head (some m) none h k = absurd h
cap_lib-keeps head (some m) (some l) h k = ground arith

settle-IsSound :
    (mem : HubMemory) (t : Option BlockPos × Option BlockPos)
    → let r = settle mem t in IsSoundTip mem r.0 r.1 r.2
unfolding settle
settle-IsSound mem (none, lib) = record {
  lib_within = tt;
  mark_kept = AtMost-refl mem.lib_hwm;
  mark_served = λ h. h;
}
settle-IsSound mem (some head, lib) = record {
  lib_within = cap_lib_bounds head (max_by_num lib mem.lib_hwm);
  mark_kept = (max_by_num_bounds lib mem.lib_hwm).1;
  mark_served =
      cap_lib-keeps head mem.lib_hwm (max_by_num lib mem.lib_hwm)
        (max_by_num_bounds lib mem.lib_hwm).1;
}

-- The fleet's LIB is at most its head, the high-water mark does not go down, and the LIB is not
-- below the mark that was remembered unless the head is.
pub fleet_tip-IsSound :
    (us : List UpstreamView) (tips : Tips) (live_configured : Bool) (mem : HubMemory)
    → let r = fleet_tip us tips live_configured mem in IsSoundTip mem r.0 r.1 r.2
unfolding fleet_tip
fleet_tip-IsSound us tips live_configured mem = settle-IsSound mem _

note_head-mark :
    (mem : HubMemory) (head : Option BlockPos) (now : ℕ)
    → (note_head mem head now).lib_hwm ≡ mem.lib_hwm
unfolding note_head
note_head-mark mem none now = refl
note_head-mark mem (some head) now = ground arith

refresh-mark :
    (mem : HubMemory) (now : ℕ) (head : BlockPos) (lib : Option BlockPos)
    → (refresh mem now head lib).0.lib_hwm ≡ max_by_num lib mem.lib_hwm
unfolding refresh note_head
refresh-mark mem now head lib = ground arith

refresh-IsSound :
    (mem : HubMemory) (now : ℕ) (head : BlockPos) (lib : Option BlockPos)
    → let r = refresh mem now head lib in IsSoundTip mem r.0 r.1 r.2
unfolding refresh
refresh-IsSound mem now head lib = record {
  lib_within = cap_lib_bounds head (max_by_num lib mem.lib_hwm);
  mark_kept =
      subst (AtMost mem.lib_hwm) (sym (refresh-mark mem now head lib))
        (max_by_num_bounds lib mem.lib_hwm).1;
  mark_served =
      cap_lib-keeps head mem.lib_hwm (max_by_num lib mem.lib_hwm)
        (max_by_num_bounds lib mem.lib_hwm).1;
}

-- After merging the tips that sessions observed into a view's: the LIB is at most the head, the
-- high-water mark did not go down, the LIB is not below the mark that was remembered unless the
-- head is, and the head is not below the view's.
pub fresh_tip-IsSound :
    (v : FleetView) (tips : Tips) (mem : HubMemory) (now : ℕ)
    → let r = fresh_tip v tips mem now in IsSoundTip mem r.0 r.1 r.2 × AtMost v.head r.1
unfolding fresh_tip refresh
fresh_tip-IsSound v tips mem now =
    elim (Option-cases (max_by_num v.head (anchor_max v.upstreams tips v.anchors).0)) [
      | inl e ↦
          rw (e, fresh_tip)
            (
              record { lib_within = tt; mark_kept = AtMost-refl mem.lib_hwm; mark_served = λ h. h },
              rw (← e) (max_by_num_bounds v.head (anchor_max v.upstreams tips v.anchors).0).0,
            )
      | inr (head, e) ↦
          rw (e, fresh_tip)
            (
              refresh-IsSound mem now head
                  (max_by_num v.lib (anchor_max v.upstreams tips v.anchors).1),
              rw (← e) (max_by_num_bounds v.head (anchor_max v.upstreams tips v.anchors).0).0,
            )
    ]

-- One round of the fold raises what it has, and takes in the anchor's head.
module _ (us : List UpstreamView) (tips : Tips) where
  fold-raises :
      (ps : List ℕ) (head lib : Option BlockPos)
      → AtMost head (anchor_fold us tips ps (head, lib)).0
  unfolding anchor_fold
  fold-raises [] head lib = AtMost-refl head
  fold-raises (p ∷ ps) head lib = elim (Option-cases (get_elem? us p)) [
    | inl e ↦ rw (e, anchor_fold) (fold-raises ps head lib)
    | inr (u, e) ↦
        rw (e, anchor_fold)
          (AtMost-trans head (max_by_num head (max_by_num u.head (tip_of tips u.index).0)) _
            (max_by_num_bounds head (max_by_num u.head (tip_of tips u.index).0)).0
            (fold-raises ps _ _))
  ]

  fold-anchor :
      (ps : List ℕ) (head lib : Option BlockPos) (p : ℕ) (u : UpstreamView)
      → In p ps
      → get_elem? us p ≡ some u
      → AtMost u.head (anchor_fold us tips ps (head, lib)).0
  unfolding anchor_fold
  fold-anchor [] head lib p u i g = elim i [ ]
  fold-anchor (q ∷ ps) head lib p u (inl e) g =
      let g' : get_elem? us q ≡ some u = subst (λ k. get_elem? us k ≡ some u) e g in
      rw (g', anchor_fold)
        (AtMost-trans u.head (max_by_num u.head (tip_of tips u.index).0) _
          (max_by_num_bounds u.head (tip_of tips u.index).0).0
          (AtMost-trans (max_by_num u.head (tip_of tips u.index).0)
            (max_by_num head (max_by_num u.head (tip_of tips u.index).0)) _
            (max_by_num_bounds head (max_by_num u.head (tip_of tips u.index).0)).1
            (fold-raises ps _ _)))
  fold-anchor (q ∷ ps) head lib p u (inr i) g = elim (Option-cases (get_elem? us q)) [
    | inl e ↦ rw (e, anchor_fold) (fold-anchor ps head lib p u i g)
    | inr (w, e) ↦ rw (e, anchor_fold) (fold-anchor ps _ _ p u i g)
  ]

-- No anchor of the view is ahead of the fresh head.
pub anchor-le-fresh_tip :
    (v : FleetView) (tips : Tips) (mem : HubMemory) (now pos : ℕ) (u : UpstreamView)
    → In pos v.anchors
    → get_elem? v.upstreams pos ≡ some u
    → AtMost u.head (fresh_tip v tips mem now).1
unfolding fresh_tip refresh anchor_max
anchor-le-fresh_tip v tips mem now pos u i g =
    let a = fold-anchor v.upstreams tips v.anchors none none pos u i g in
    let anchored = (anchor_max v.upstreams tips v.anchors).0 in
    let b : AtMost u.head (max_by_num v.head anchored) =
      AtMost-trans u.head anchored (max_by_num v.head anchored) a
        (max_by_num_bounds v.head anchored).1 in
    elim (Option-cases (max_by_num v.head anchored)) [
      | inl e ↦ rw (e, fresh_tip) (rw e at b)
      | inr (head, e) ↦ rw (e, fresh_tip) (rw e at b)
    ]

-- Frames observed one after another.
abbrev pub observe_all :
    Option (BlockPos × BlockPos) → List (BlockPos × BlockPos) → Option (BlockPos × BlockPos)
observe_all seen [] = seen
observe_all seen ((head, lib) ∷ frames) = observe_all (observe seen head lib) frames

abbrev pub head_of : Option (BlockPos × BlockPos) → ℕ
head_of none = 0
head_of (some (head, lib)) = head.num

abbrev pub lib_of : Option (BlockPos × BlockPos) → ℕ
lib_of none = 0
lib_of (some (head, lib)) = lib.num

observe-max :
    (seen : Option (BlockPos × BlockPos)) (head lib : BlockPos)
    → (head_of (observe seen head lib) ≡ max (head_of seen) head.num)
      × (lib_of (observe seen head lib) ≡ max (lib_of seen) lib.num)
unfolding observe
observe-max none head lib = (ground arith, ground arith)
observe-max (some (h, l)) head lib = (ground arith, ground arith)

abbrev pub max_head : List (BlockPos × BlockPos) → ℕ
max_head [] = 0
max_head ((head, lib) ∷ frames) = max head.num (max_head frames)

abbrev pub max_lib : List (BlockPos × BlockPos) → ℕ
max_lib [] = 0
max_lib ((head, lib) ∷ frames) = max lib.num (max_lib frames)

-- After any frames the observed tip holds the highest head and the highest LIB among them and
-- what was seen before.
pub observe_all-max :
    (seen : Option (BlockPos × BlockPos)) (frames : List (BlockPos × BlockPos))
    → (head_of (observe_all seen frames) ≡ max (head_of seen) (max_head frames))
      × (lib_of (observe_all seen frames) ≡ max (lib_of seen) (max_lib frames))
observe_all-max seen [] = (omega arith, omega arith)
observe_all-max seen ((head, lib) ∷ frames) =
    let rest = observe_all-max (observe seen head lib) frames in
    let one = observe-max seen head lib in (omega arith, omega arith)
