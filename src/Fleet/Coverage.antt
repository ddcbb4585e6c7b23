-- ===== src/Fleet/Coverage.antt =====
-- src/fleet/view.rs: block ranges merged into coverage (`merge`, `subtract`, `uncovered`,
-- `coverage`, `LogCoverage`). `sort_by_key` of the standard library is an insertion sort, which
-- is stable as well.
pub mod Gaps
pub mod Order
pub mod Merge
pub mod Subtract
pub mod Canonical
use fleet_router.Prelude.{
  ℕ, ◌+◌, ◌-◌, max, Bool, true, false, not, ◌&&◌, ◌||◌, List, [], ◌∷◌, ◌++◌, Option, none, some,
  leb, ltb, ◌==◌, if◌then◌else◌, any, filter, is_some_and,
}
use fleet_router.Ship.{Range, empty_range, is_empty, contains}

-- Whether a range of the list holds block `n`.
abbrev pub holds : List Range → ℕ → Bool
holds rs n = any (λ r. contains r n) rs

-- The key `(begin, end)` in lexicographic order.
abbrev key_le : Range → Range → Bool
key_le a b = ltb a.begin b.begin || a.begin == b.begin && leb a.end b.end

pub insert_by_key : Range → List Range → List Range
insert_by_key r [] = r ∷ []
insert_by_key r (x ∷ xs) = if key_le r x then r ∷ x ∷ xs else x ∷ insert_by_key r xs

pub sort_by_key : List Range → List Range
sort_by_key [] = []
sort_by_key (r ∷ rs) = insert_by_key r (sort_by_key rs)

-- The loop of `merge`: `last` is the last element of `merged`, which a range that starts at or
-- below its end extends; any other range is pushed behind it.
merge_from : Range → List Range → List Range
merge_from last [] = last ∷ []
merge_from last (r ∷ rs) = elim (leb r.begin last.end) [
  | true ↦ merge_from (record last { end = max last.end r.end }) rs
  | false ↦ last ∷ merge_from r rs
]

merge_sorted : List Range → List Range
merge_sorted [] = []
merge_sorted (r ∷ rs) = merge_from r rs

-- `filter(|r| !r.is_empty())`.
abbrev pub non_empty : List Range → List Range
non_empty = filter (λ r. not (is_empty r))

unfoldable pub merge : List Range → List Range
unfolding merge_from merge_sorted sort_by_key insert_by_key is_empty
merge segs = merge_sorted (sort_by_key (non_empty segs))

-- The loop of `subtract`: `end` is `top.end`.
subtract_from : ℕ → ℕ → List Range → List Range
subtract_from end cursor [] = record { begin = cursor; end = end } ∷ []
subtract_from end cursor (c ∷ cs) = elim (leb c.end cursor) [
  | true ↦ subtract_from end cursor cs
  | false ↦ elim (leb end c.begin) [
    | true ↦ record { begin = cursor; end = end } ∷ []
    | false ↦
        (if ltb cursor c.begin then record { begin = cursor; end = c.begin } ∷ [] else [])
        ++ elim (leb end c.end) [ true ↦ [] | false ↦ subtract_from end c.end cs ]
  ]
]

unfoldable pub subtract : Range → List Range → List Range
unfolding subtract_from is_empty
subtract top covered = if is_empty top then [] else subtract_from top.end top.begin covered

-- `flat_map` over the merged ranges.
subtract_each : List Range → List Range → List Range
subtract_each [] covered = []
subtract_each (r ∷ rs) covered = subtract r covered ++ subtract_each rs covered

unfoldable pub uncovered : List Range → List Range → List Range
unfolding subtract_each subtract merge
uncovered ranges covered = subtract_each (merge ranges) (merge covered)

pub record LogCoverage : Type 0 where
  pub components : List Range
  pub top : Range
  pub gaps : List Range
  pub offline_only : List Range
  pub live_tail_begin : Option ℕ

unfoldable pub has : LogCoverage → ℕ → Bool
unfolding contains
has c n = is_some_and (λ begin. leb begin n) c.live_tail_begin || holds c.components n

-- `components.last().copied().unwrap_or_default()`.
last_or_empty : List Range → Range
last_or_empty [] = empty_range
last_or_empty (r ∷ []) = r
last_or_empty (r ∷ s ∷ rs) = last_or_empty (s ∷ rs)

-- `components.windows(2)` mapped to the range between the two.
gaps_between : List Range → List Range
gaps_between [] = []
gaps_between (r ∷ []) = []
gaps_between (r ∷ s ∷ rs) = record { begin = r.end; end = s.begin } ∷ gaps_between (s ∷ rs)

unfoldable pub coverage : List Range → List Range → Option ℕ → LogCoverage
unfolding last_or_empty gaps_between merge subtract
coverage segs online live_tail_begin =
    let components = merge segs in
    let top = last_or_empty components in
    record {
      components = components;
      top = top;
      gaps = gaps_between components;
      offline_only = subtract top (merge online);
      live_tail_begin = live_tail_begin;
    }

-- The sum over `offline_only`; it is a u64, and each term is below 2 ^ 32.
sum_blocks : List Range → ℕ
sum_blocks [] = 0
sum_blocks (r ∷ rs) = (r.end - r.begin) + sum_blocks rs

unfoldable pub offline_blocks : LogCoverage → ℕ
unfolding sum_blocks
offline_blocks c = sum_blocks c.offline_only
