-- ===== src/Fleet/Canonical/Sticky.antt =====
-- The ABI that clients are served: the pin wins, a live ABI stays while it is served, and a
-- provisional one only stands in until a live one is seen.
use fleet_router.Prelude.{
  ◌≡◌, refl, sym, subst, inl, inr, true, false, List, [], ◌∷◌, Option, none, some, arith, In,
  Bool-cases,
}
use fleet_router.Ship.{BlockPos}
use fleet_router.Abi.{AbiEntry}
use fleet_router.Models.{live}
use fleet_router.Fleet.Upstream.{UpstreamView}
use fleet_router.Fleet.View.{AbiSource, live_abi}
use fleet_router.Fleet.Canonical.{
  online_with_abi, head_le, best_live, keeps_current, choose_canonical,
}

head_le_refl : (a : Option BlockPos) → head_le a a ≡ true
unfolding head_le
head_le_refl none = refl
head_le_refl (some a) = ground arith

head_le_trans :
    (a b c : Option BlockPos) → head_le a b ≡ true → head_le b c ≡ true → head_le a c ≡ true
unfolding head_le
head_le_trans none b c h k = refl
head_le_trans (some a) none c h k = cc
head_le_trans (some a) (some b) none h k = cc
head_le_trans (some a) (some b) (some c) h k = ground arith

head_le-total : (a b : Option BlockPos) → head_le a b ≡ false → head_le b a ≡ true
unfolding head_le
head_le-total none b h = cc
head_le-total (some a) none h = refl
head_le-total (some a) (some b) h = ground arith

-- An upstream of the list whose head none of the list exceeds.
abbrev pub Highest : UpstreamView × AbiEntry → List (UpstreamView × AbiEntry) → Type 0
Highest c xs =
    In c xs × ((x : UpstreamView × AbiEntry) → In x xs → head_le x.0.head c.0.head ≡ true)

-- The higher of two takes the place of both.
raise-Highest :
    (b x c : UpstreamView × AbiEntry) (xs : List (UpstreamView × AbiEntry))
    → head_le x.0.head b.0.head ≡ true
    → Highest c (b ∷ xs)
    → Highest c (b ∷ x ∷ xs)
raise-Highest b x c xs e (i, top) = (ground arith, covers_all)
  where
    covers_all :
        (y : UpstreamView × AbiEntry) → In y (b ∷ x ∷ xs) → head_le y.0.head c.0.head ≡ true
    covers_all y (inl s) = top y (inl s)
    covers_all y (inr (inl s)) =
        head_le_trans y.0.head b.0.head c.0.head (rw s e) (top b (inl refl))
    covers_all y (inr (inr j)) = top y (inr j)

swap-Highest :
    (b x c : UpstreamView × AbiEntry) (xs : List (UpstreamView × AbiEntry))
    → Highest c (x ∷ b ∷ xs)
    → Highest c (b ∷ x ∷ xs)
swap-Highest b x c xs (i, top) = (ground arith, λ y j. top y (ground arith))

best_live-Highest :
    (b : UpstreamView × AbiEntry) (xs : List (UpstreamView × AbiEntry))
    → (c : UpstreamView × AbiEntry) × (best_live (some b) xs ≡ some c) × Highest c (b ∷ xs)
unfolding best_live
best_live-Highest b [] = (b, refl, (inl refl, λ x i. one x i))
  where
    one : (x : UpstreamView × AbiEntry) → In x (b ∷ []) → head_le x.0.head b.0.head ≡ true
    one x (inl s) = rw s (head_le_refl b.0.head)
    one x (inr i) = absurd i
best_live-Highest b (x ∷ xs) = elim (Bool-cases (head_le x.0.head b.0.head)) [
  | inl e ↦
      let (c, f, h) = best_live-Highest b xs in (c, rw (e, best_live) f, raise-Highest b x c xs e h)
  | inr e ↦
      let (c, f, h) = best_live-Highest x xs in
      (
        c,
        rw (e, best_live) f,
        swap-Highest b x c xs (raise-Highest x b c xs (head_le-total x.0.head b.0.head e) h),
      )
]

-- Where no online live upstream serves the current ABI, the ABI of an online live upstream with
-- the highest head is chosen, if there is one.
pub choose_canonical-Highest :
    (us : List UpstreamView) (abis : List (Option AbiEntry))
    (current : Option (AbiEntry × AbiSource)) (b : UpstreamView × AbiEntry)
    (xs : List (UpstreamView × AbiEntry))
    → keeps_current us abis current ≡ false
    → online_with_abi live us abis ≡ b ∷ xs
    → (c : UpstreamView × AbiEntry) × (choose_canonical none us abis current
        ≡ some (c.1, live_abi c.0.index))
      × Highest c (online_with_abi live us abis)
unfolding choose_canonical best_live
choose_canonical-Highest us abis current b xs k e =
    let (c, f, h) = best_live-Highest b xs in
    let found : best_live none (online_with_abi live us abis) ≡ some c = rw e f in
    (c, rw (k, found, choose_canonical) refl, subst (Highest c) (sym e) h)
