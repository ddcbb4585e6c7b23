-- ===== src/ChainApi/Plan.antt =====
-- src/chain_api/pick.rs: where a block request goes. The largest u32 is within `usize`.
pub mod Kept
pub mod Members
pub mod Candidates
pub mod Reserved
use fleet_router.Prelude.{
  ℕ, max, compare, Ordering, Bool, true, false, not, ◌&&◌, ◌||◌, List, [], ◌∷◌, ◌++◌, Option, none,
  some, map, leb, ltb, ◌==◌, if◌then◌else◌, is_some, is_some_and, any, filter, find, head?, take,
  length,
}
use fleet_router.Prelude.Ranking.{then_with}
use fleet_router.Prelude.Sorting.{sort_by}
use fleet_router.Models.{is_live}
use fleet_router.Fleet.Upstream.{greatest}
use fleet_router.ChainApi.Route.{
  BlockEndpoint, block, block_header, block_header_state, block_info, raw_block, endpoint_path,
}
use fleet_router.ChainApi.View.{
  ApiView, usable, archives, holds_id, claims, by_load, option_cmp, tier_cmp,
}

pub data Region : Type 0 where
  irreversible reversible : Region

-- `Iterator::filter_map`.
abbrev pub filter_map : {A B : Type 0} → (A → Option B) → List A → List B
filter_map f [] = []
filter_map f (x ∷ xs) = elim (f x) [ none ↦ filter_map f xs | some y ↦ y ∷ filter_map f xs ]

abbrev option_list : {A : Type 0} → Option A → List A
option_list none = []
option_list (some x) = x ∷ []

unfoldable pub fleet_lib : Option ℕ → List ApiView → Option ℕ
fleet_lib ship_lib apis = greatest (
    filter_map (λ (a : ApiView). a.lib) (filter (λ a. a.up && is_live a.role) apis)
    ++ option_list ship_lib)

unfoldable pub region : ℕ → Option ℕ → List ApiView → Region
region n fleet_lib apis =
    if is_some_and (λ lib. leb n lib) fleet_lib || any (λ a. archives a n) apis
    then irreversible
    else reversible

-- src/chain_api/hint.rs: the block that a body names.
pub record Hint : Type 0 where
  pub num : ℕ
  pub by_id : Bool

-- src/models.rs.
pub data BlockSource : Type 0 where
  frozen_first live_first : BlockSource

pub record BlockQuery : Type 0 where
  pub endpoint : BlockEndpoint
  pub hint : Option Hint
  pub ship_lib : Option ℕ
  pub block_source : BlockSource
  pub max_attempts : ℕ

pub record RoutedPlan : Type 0 where
  pub n : ℕ
  pub region : Region
  pub order : List ℕ
  pub claimed : Bool
  pub id_holders : List ℕ

pub data BlockPlan : Type 0 where
  unhinted : BlockPlan
  routed : RoutedPlan → BlockPlan

abbrev pub indices : List ApiView → List ℕ
indices views = map (λ (a : ApiView). a.index) views

unfoldable pub id_holders : ℕ → List ℕ → List ApiView → List ℕ
id_holders n order apis = indices (filter (λ a. holds_id a n && any (λ i. i == a.index) order) apis)

-- The endpoints that archives serve.
archive_endpoint : BlockEndpoint → Bool
archive_endpoint block = false
archive_endpoint block_header = true
archive_endpoint block_header_state = false
archive_endpoint block_info = true
archive_endpoint raw_block = true

unfoldable pub is_claimed : ℕ → BlockEndpoint → List ApiView → Bool
unfolding archive_endpoint
is_claimed n endpoint apis = archive_endpoint endpoint && any (λ a. claims a n) apis

ahead_cmp : ApiView → ApiView → Ordering
ahead_cmp a b =
    then_with (compare a.priority b.priority)
      (then_with (option_cmp b.head a.head) (then_with (by_load a b) (compare a.index b.index)))

behind_cmp : ApiView → ApiView → Ordering
behind_cmp a b =
    then_with (option_cmp b.head a.head) (then_with (by_load a b) (compare a.index b.index))

-- The live APIs that serve `path`, where a test holds.
unfoldable pub live_where : List ℕ → (ApiView → Bool) → List ApiView → List ApiView
live_where path p apis = filter (λ a. is_live a.role && usable a path && p a) apis

abbrev pub reached_by : ℕ → ApiView → Bool
reached_by n a = is_some_and (λ h. leb n h) a.head

unfoldable pub reversible_views : ℕ → List ℕ → List ApiView → ℕ → List ApiView
unfolding ahead_cmp behind_cmp
reversible_views n path apis cap = take cap (
    sort_by ahead_cmp (live_where path (reached_by n) apis)
    ++ sort_by behind_cmp (live_where path (λ a. not (reached_by n a)) apis))

-- The tiers of candidates for an irreversible block.
pub record Tiers : Type 0 where
  pub f : List ApiView
  pub l : List ApiView
  pub u : List ApiView
  pub x : List ApiView

unfoldable pub is_get_block : BlockEndpoint → Bool
is_get_block block = true
is_get_block block_header = false
is_get_block block_header_state = false
is_get_block block_info = false
is_get_block raw_block = false

unfoldable pub tiers_of : ℕ → BlockEndpoint → Bool → List ApiView → Tiers
unfolding is_get_block
tiers_of n endpoint claimed apis =
    let path = endpoint_path endpoint in
    let live = λ (p : ApiView → Bool). sort_by (tier_cmp n) (live_where path p apis) in
    record {
      f =
          sort_by (tier_cmp n) (
            if is_get_block endpoint then [] else filter (λ a. archives a n && usable a path) apis);
      l = live (λ a. is_some_and (λ e. leb e n) a.earliest && reached_by n a);
      u = live (λ a. not (is_some a.earliest) && reached_by n a);
      x = if claimed then [] else live (λ a. is_some_and (λ e. ltb n e) a.earliest);
    }

unfoldable pub tier_list : Bool → BlockSource → Tiers → List ApiView
tier_list true source t = t.l ++ (t.f ++ (t.u ++ t.x))
tier_list false live_first t = t.l ++ (t.f ++ (t.u ++ t.x))
tier_list false frozen_first t = t.f ++ (t.l ++ (t.u ++ t.x))

-- `*last = first_live`.
unfoldable pub replace_last : ApiView → List ApiView → List ApiView
replace_last a [] = []
replace_last a (x ∷ []) = a ∷ []
replace_last a (x ∷ y ∷ ys) = x ∷ replace_last a (y ∷ ys)

-- One attempt is kept for a live node.
unfoldable pub keep_live : ℕ → Tiers → List ApiView → List ApiView
unfolding replace_last
keep_live cap t order =
    if leb 2 cap && not (any (λ a. is_live a.role) order)
    then elim (head? (t.l ++ (t.u ++ t.x))) [ none ↦ order | some a ↦ replace_last a order ]
    else order

-- `order[place] = holder` at the last place where the test holds, if there is one.
unfoldable pub replace_where : (ApiView → Bool) → ApiView → List ApiView → List ApiView
replace_where p a [] = []
replace_where p a (x ∷ xs) =
    if any p xs then x ∷ replace_where p a xs else if p x then a ∷ xs else x ∷ xs

-- A place that may be taken: not that of the only live node, with at least two attempts.
unfoldable pub may_take : ℕ → List ApiView → ApiView → Bool
may_take cap order a =
    not
      (leb 2 cap && length (filter (λ (b : ApiView). is_live b.role) order) == 1 && is_live a.role)

-- For a request by id, one attempt is kept for an id holder.
unfoldable pub keep_holder : ℕ → ℕ → Bool → Tiers → List ApiView → List ApiView
unfolding replace_where may_take
keep_holder cap n by_id t order =
    if by_id && not (any (λ a. holds_id a n) order)
    then elim (find (λ a. holds_id a n) t.f) [
      | none ↦ order
      | some holder ↦ replace_where (may_take cap order) holder order
    ]
    else order

unfoldable pub irreversible_views : ℕ → BlockQuery → Bool → List ApiView → ℕ → List ApiView
unfolding tiers_of tier_list
irreversible_views n q claimed apis cap =
    let t = tiers_of n q.endpoint claimed apis in
    let order = take cap (tier_list (is_get_block q.endpoint) q.block_source t) in
    keep_holder cap n (is_some_and (λ (h : Hint). h.by_id) q.hint) t (keep_live cap t order)

-- The plan of a request for block `hint.num`, in a region.
unfoldable pub routed_in : Region → Hint → BlockQuery → List ApiView → ℕ → RoutedPlan
routed_in reversible hint q apis cap =
    let order = indices (reversible_views hint.num (endpoint_path q.endpoint) apis cap) in
    record {
      n = hint.num;
      region = reversible;
      order = order;
      claimed = false;
      id_holders = if hint.by_id then id_holders hint.num order apis else [];
    }
routed_in irreversible hint q apis cap =
    let claimed = is_claimed hint.num q.endpoint apis in
    let order = indices (irreversible_views hint.num q claimed apis cap) in
    record {
      n = hint.num;
      region = irreversible;
      order = order;
      claimed = claimed;
      id_holders = if hint.by_id then id_holders hint.num order apis else [];
    }

unfoldable pub plan_block : BlockQuery → List ApiView → BlockPlan
unfolding routed_in
plan_block q apis = elim q.hint [
  | none ↦ unhinted
  | some hint ↦ routed (
      routed_in (region hint.num (fleet_lib q.ship_lib apis) apis) hint q apis
        (max q.max_attempts 1))
]
