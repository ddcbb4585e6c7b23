-- ===== src/Fleet/Run/Ends.antt =====
-- A run covers every block up to its end, and ends for a reason.
use fleet_router.Prelude.{
  ℕ, suc, ◌≤◌, ◌<◌, ◌≡◌, refl, sym, ◌∙◌, ◌⊎◌, inl, inr, true, false, ◌&&◌, List, [], ◌∷◌, arith,
  any, All, In, filter, filter-In, All_of_In, In-append_left, In-append_right, ltb, lt→ltb,
}
use native.Mathlib.Decide.{dec_lt}
use fleet_router.Fleet.Upstream.{UpstreamView}
use fleet_router.Fleet.View.{FleetView}
use fleet_router.Fleet.Request.{Need, sticky}
use fleet_router.Fleet.Eligible.{eligible}
use fleet_router.Fleet.Eligible.Laws.{eligible_iff}
use fleet_router.Fleet.Run.{
  quarantine_bounds, range_bounds, breakpoints, insert_num, sort_unstable, dedup, stops, holder,
  run_loop, run_cap, run_end,
}
use fleet_router.Fleet.Run.Constant.{NoneWithin, IsSticky, IsServing, eligible-constant}

-- Ascending without repetition, above `lo`.
abbrev pub Ascending : ℕ → List ℕ → Type 0
Ascending lo [] = Unit {0}
Ascending lo (b ∷ bs) = (lo < b) × Ascending b bs

abbrev pub Sorted : ℕ → List ℕ → Type 0
Sorted lo [] = Unit {0}
Sorted lo (b ∷ bs) = (lo ≤ b) × Sorted b bs

insert-Sorted : (lo n : ℕ) (ns : List ℕ) → lo ≤ n → Sorted lo ns → Sorted lo (insert_num n ns)
unfolding insert_num
insert-Sorted lo n [] h s = (h, tt)
insert-Sorted lo n (x ∷ xs) h s = ground (arith, insert-Sorted x n xs)

pub sort-Sorted : (lo : ℕ) (ns : List ℕ) → All (λ b. lo ≤ b) ns → Sorted lo (sort_unstable ns)
unfolding sort_unstable
sort-Sorted lo [] a = tt
sort-Sorted lo (n ∷ ns) a = insert-Sorted lo n (sort_unstable ns) a.0 (sort-Sorted lo ns a.1)

-- `suc lo` bounds from below what is to lie above `lo`.
pub dedup-Ascending : (lo : ℕ) (ns : List ℕ) → Sorted (suc lo) ns → Ascending lo (dedup ns)
unfolding dedup
dedup-Ascending lo [] s = tt
dedup-Ascending lo (x ∷ []) s = (s.0, tt)
dedup-Ascending lo (x ∷ y ∷ ys) s =
    ground (arith, dedup-Ascending lo (y ∷ ys), dedup-Ascending x (y ∷ ys))

insert-In : (n b : ℕ) (ns : List ℕ) → (b ≡ n) ⊎ In b ns → In b (insert_num n ns)
unfolding insert_num
insert-In n b [] i = i
insert-In n b (x ∷ xs) i = ground (arith, insert-In n b xs)

pub sort-In : (b : ℕ) (ns : List ℕ) → In b ns → In b (sort_unstable ns)
unfolding sort_unstable
sort-In b [] i = elim i [ ]
sort-In b (n ∷ ns) (inl e) = insert-In n b (sort_unstable ns) (inl e)
sort-In b (n ∷ ns) (inr i) = insert-In n b (sort_unstable ns) (inr (sort-In b ns i))

pub dedup-In : (b : ℕ) (ns : List ℕ) → In b ns → In b (dedup ns)
unfolding dedup
dedup-In b [] i = i
dedup-In b (x ∷ []) i = i
dedup-In b (x ∷ y ∷ ys) i = ground (arith, dedup-In b (y ∷ ys))

above-All : (from : ℕ) (bs : List ℕ) → All (λ b. suc from ≤ b) (filter (λ b. ltb from b) bs)
above-All from [] = tt
above-All from (b ∷ bs) = ground (arith, above-All from bs)

pub Ascending-In : (lo b : ℕ) (bs : List ℕ) → Ascending lo bs → In b bs → lo < b
Ascending-In lo b [] a i = elim i [ ]
Ascending-In lo b (x ∷ bs) a (inl e) = omega arith
Ascending-In lo b (x ∷ bs) a (inr i) = omega (arith, Ascending-In x b bs a.1 i)

-- Every number of `raw` above `lo` is still to come.
abbrev ToCome : ℕ → List ℕ → List ℕ → Type 0
ToCome lo bs raw = (b : ℕ) → In b raw → (b ≤ lo) ⊎ In b bs

-- Below the next stop there is none within.
none_before :
    (lo n : ℕ) (bs raw : List ℕ)
    → ((b : ℕ) → In b bs → n < b)
    → ToCome lo bs raw
    → NoneWithin lo n raw
none_before lo n bs raw above c =
    All_of_In (λ b. (b ≤ lo) ⊎ (n < b)) raw
      λ b i. elim (c b i) [ inl h ↦ inl h | inr j ↦ inr (above b j) ]

step-ToCome : (lo b : ℕ) (bs raw : List ℕ) → lo < b → ToCome lo (b ∷ bs) raw → ToCome b bs raw
step-ToCome lo b bs raw h c x i = elim (c x i) [
  | inl k ↦ inl (omega arith)
  | inr (inl e) ↦ inl (omega arith)
  | inr (inr j) ↦ inr j
]

module _ (v : FleetView) (u : UpstreamView) (need : Need) (now limit : ℕ) (ok : IsSticky v)
    (s : IsServing v u) where
  -- The blocks below the next stop.
  before_next :
      (lo n : ℕ) (bs : List ℕ)
      → ((b : ℕ) → In b bs → n < b)
      → ToCome lo bs (range_bounds v.upstreams)
      → ToCome lo bs (quarantine_bounds u now)
      → eligible v u need lo sticky now ≡ true
      → lo ≤ n
      → eligible v u need n sticky now ≡ true
  before_next lo n bs above c d e h =
      sym (
        eligible-constant v u need now lo n ok s h
          (none_before lo n bs (range_bounds v.upstreams) above c)
          (none_before lo n bs (quarantine_bounds u now) above d))
      ∙ e

  run_loop-eligible :
      (lo : ℕ) (bs : List ℕ) (n : ℕ)
      → Ascending lo bs
      → ToCome lo bs (range_bounds v.upstreams)
      → ToCome lo bs (quarantine_bounds u now)
      → eligible v u need lo sticky now ≡ true
      → lo ≤ n
      → n < run_loop v u need now limit bs
      → eligible v u need n sticky now ≡ true
  unfolding run_loop
  run_loop-eligible lo [] n a c d e h k = before_next lo n [] (λ b i. elim i [ ]) c d e h
  run_loop-eligible lo (b ∷ bs) n a c d e h k = elim (dec_lt n b) [
    | yes below ↦
        before_next lo n (b ∷ bs) (λ x i. omega (arith, Ascending-In n x (b ∷ bs) (below, a.1) i)) c
          d e h
    | no above ↦ ground (
      arith,
      run_loop-eligible b bs n a.1 (step-ToCome lo b bs (range_bounds v.upstreams) a.0 c)
          (step-ToCome lo b bs (quarantine_bounds u now) a.0 d),
    )
  ]

module _ (v : FleetView) (u : UpstreamView) (need : Need) (now limit : ℕ) where
  run_loop-above :
      (lo : ℕ) (bs : List ℕ) → Ascending lo bs → lo < limit → lo < run_loop v u need now limit bs
  unfolding run_loop
  run_loop-above lo [] a h = h
  run_loop-above lo (b ∷ bs) a h = ground (arith, run_loop-above b bs)

  run_loop-reason :
      (bs : List ℕ)
      → let r = run_loop v u need now limit bs in
        (r ≡ limit)
        ⊎ ((eligible v u need r sticky now ≡ false)
            ⊎ (((need.block && u.no_block_log) ≡ true)
                × (any (holder v u need r now) v.upstreams ≡ true)))
  unfolding run_loop
  run_loop-reason [] = inl refl
  run_loop-reason (b ∷ bs) = ground (arith, run_loop-reason bs)

stops-Ascending :
    (v : FleetView) (u : UpstreamView) (need : Need) (from now : ℕ)
    → Ascending from (stops v u need from now)
unfolding stops
stops-Ascending v u need from now =
    dedup-Ascending from _ (sort-Sorted (suc from) _ (above-All from _))

module _ (v : FleetView) (u : UpstreamView) (need : Need) (from now b : ℕ) where
  stops-In : In b (breakpoints v u now) → (b ≤ from) ⊎ In b (stops v u need from now)
  unfolding stops
  stops-In i = elim (dec_lt from b) [
    | no h ↦ inl (omega arith)
    | yes h ↦ inr (
        dedup-In b _ (
          sort-In b _ (
            filter-In (λ b. ltb from b) _ b (In-append_left (breakpoints v u now) _ b i)
              (lt→ltb from b h))))
  ]

  stops-In_range : In b (range_bounds v.upstreams) → (b ≤ from) ⊎ In b (stops v u need from now)
  unfolding breakpoints
  stops-In_range i = stops-In (In-append_left (range_bounds v.upstreams) _ b i)

  stops-In_quarantine : In b (quarantine_bounds u now) → (b ≤ from) ⊎ In b (stops v u need from now)
  unfolding breakpoints
  stops-In_quarantine i = stops-In (
      In-append_right (range_bounds v.upstreams) _ b
        (In-append_left (quarantine_bounds u now) _ b i))

pub eligible-IsServing :
    (v : FleetView) (u : UpstreamView) (need : Need) (n now : ℕ)
    → In u v.upstreams
    → eligible v u need n sticky now ≡ true
    → IsServing v u
eligible-IsServing v u need n now i e =
    let s = (eligible_iff v u need n sticky now).0 e in
    record {
      stands = i;
      is_routable = s.0.is_routable;
      is_known = s.0.is_known;
      abi_agrees = s.0.abi_agrees;
    }

module _ (v : FleetView) (u : UpstreamView) (need : Need) (from now : ℕ) where
  -- In a view whose coverage is that of its upstreams, an upstream that is eligible at `from` is
  -- eligible at every block of its run.
  pub run_end-eligible :
      (n : ℕ)
      → IsSticky v
      → In u v.upstreams
      → eligible v u need from sticky now ≡ true
      → from ≤ n
      → n < run_end v u need from now
      → eligible v u need n sticky now ≡ true
  unfolding run_end
  run_end-eligible n ok i e h k =
      run_loop-eligible v u need now (run_cap u) ok (eligible-IsServing v u need from now i e) from
        (stops v u need from now) n (stops-Ascending v u need from now)
        (stops-In_range v u need from now) (stops-In_quarantine v u need from now) e h k

  -- The run goes beyond `from` whenever its cap does.
  pub run_end-above : from < run_cap u → from < run_end v u need from now
  unfolding run_end
  run_end-above h =
      run_loop-above v u need now (run_cap u) from (stops v u need from now)
        (stops-Ascending v u need from now) h

  -- A run ends at its cap, where its upstream is not eligible any more, or where an archive
  -- without a block log leaves a request for blocks to an upstream that holds them.
  pub run_end-reason :
      let r = run_end v u need from now in
      (r ≡ run_cap u)
      ⊎ ((eligible v u need r sticky now ≡ false)
          ⊎ (((need.block && u.no_block_log) ≡ true)
              × (any (holder v u need r now) v.upstreams ≡ true)))
  unfolding run_end
  run_end-reason = run_loop-reason v u need now (run_cap u) (stops v u need from now)
