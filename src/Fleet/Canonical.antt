-- ===== src/Fleet/Canonical.antt =====
-- src/fleet/view.rs: which ABI a stitched listener serves (`choose_canonical`).
pub mod Sticky
use fleet_router.Prelude.{
  ℕ, suc, ◌+◌, Bool, true, false, ◌&&◌, List, [], ◌∷◌, ◌++◌, Option, none, some, leb, ◌==◌, any,
  is_some, is_some_and, if◌then◌else◌, compare, Ordering,
}
use fleet_router.Prelude.Ranking.{then_with, max_by}
use fleet_router.Ship.{BlockPos}
use fleet_router.Abi.{AbiEntry}
use fleet_router.Models.{Role, live, frozen, is_live, is_frozen}
use fleet_router.Fleet.Upstream.{UpstreamView, routable}
use fleet_router.Fleet.View.{AbiSource, file, live_abi, provisional}

abbrev pub same_role : Role → Role → Bool
same_role live r = is_live r
same_role frozen r = is_frozen r

-- The upstreams in step with their ABIs, those that may serve and have one: `online_with_abi`.
pub online_with_abi :
    Role → List UpstreamView → List (Option AbiEntry) → List (UpstreamView × AbiEntry)
online_with_abi role [] abis = []
online_with_abi role (u ∷ us) [] = []
online_with_abi role (u ∷ us) (none ∷ abis) = online_with_abi role us abis
online_with_abi role (u ∷ us) (some abi ∷ abis) =
    if routable u && u.online && same_role role u.role
    then (u, abi) ∷ online_with_abi role us abis
    else online_with_abi role us abis

-- `u.head.map(|h| h.num) <= b.head.map(|h| h.num)`, where `None` is least.
pub head_le : Option BlockPos → Option BlockPos → Bool
head_le none b = true
head_le (some x) none = false
head_le (some x) (some y) = leb x.num y.num

-- The fold that finds the highest head; on equal heads the first stays.
best_live :
    Option (UpstreamView × AbiEntry)
    → List (UpstreamView × AbiEntry)
    → Option (UpstreamView × AbiEntry)
best_live best [] = best
best_live none (x ∷ xs) = best_live (some x) xs
best_live (some b) (x ∷ xs) = best_live (some (if head_le x.0.head b.0.head then b else x)) xs

pub record AbiCount : Type 0 where
  pub fp : ℕ
  pub count : ℕ
  pub index : ℕ
  pub abi : AbiEntry

count_abi : UpstreamView × AbiEntry → List AbiCount → List AbiCount
count_abi (u, abi) [] = record { fp = abi.fp; count = 1; index = u.index; abi = abi } ∷ []
count_abi (u, abi) (c ∷ cs) =
    if c.fp == abi.fp then record c { count = suc c.count } ∷ cs else c ∷ count_abi (u, abi) cs

count_abis : List (UpstreamView × AbiEntry) → List AbiCount → List AbiCount
count_abis [] counts = counts
count_abis (x ∷ xs) counts = count_abis xs (count_abi x counts)

-- The most common; ties go to the lowest index.
count_cmp : AbiCount → AbiCount → Ordering
count_cmp a b = then_with (compare a.count b.count) (compare b.index a.index)

frozen_choice : Option AbiCount → Option (AbiEntry × AbiSource)
frozen_choice none = none
frozen_choice (some c) = some (c.abi, provisional c.index)

-- Whether the current ABI came from a live upstream and an online live one still serves it.
pub keeps_current :
    List UpstreamView → List (Option AbiEntry) → Option (AbiEntry × AbiSource) → Bool
unfolding online_with_abi
keeps_current upstreams abis (some (entry, live_abi _)) =
    any (λ (x : UpstreamView × AbiEntry). is_some_and (λ fp. fp == entry.fp) x.0.abi_fp)
      (online_with_abi live upstreams abis)
keeps_current upstreams abis _ = false

unfoldable pub choose_canonical :
    Option AbiEntry
    → List UpstreamView
    → List (Option AbiEntry)
    → Option (AbiEntry × AbiSource)
    → Option (AbiEntry × AbiSource)
unfolding keeps_current best_live head_le online_with_abi frozen_choice count_abis count_abi
    count_cmp max_by
choose_canonical (some pin) upstreams abis current = some (pin, file)
choose_canonical none upstreams abis current =
    if keeps_current upstreams abis current
    then current
    else elim (best_live none (online_with_abi live upstreams abis)) [
      | some (u, abi) ↦ some (abi, live_abi u.index)
      | none ↦
          if is_some current
          then current
          else frozen_choice
              (max_by count_cmp (count_abis (online_with_abi frozen upstreams abis) []))
    ]
