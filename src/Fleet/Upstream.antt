-- ===== src/Fleet/Upstream.antt =====
-- src/fleet/view.rs: `Log` and `UpstreamView`, one upstream as the planner sees it.
-- `connections` is the value of the upstream's shared counter when it is read. The traffic
-- counters of the view and the URL that a session dials are not modelled.
pub mod Laws
use fleet_router.Prelude.{
  ℕ, ◌-◌, ◌≤◌, min, max, Bool, true, false, not, ◌&&◌, ◌||◌, List, [], ◌∷◌, Option, none, some, leb,
  ltb, any, is_some_and, if◌then◌else◌, filter, map, unwrap_or,
}
use fleet_router.Prelude.Words.{saturating_add}
use fleet_router.Ship.{BlockPos, Range, is_empty, contains}
use fleet_router.Models.{Role, live, frozen, BlockQuarantine}
use fleet_router.Models.Quarantine

pub data Log : Type 0 where
  trace chain_state finality : Log

abbrev pub all_logs : List Log
all_logs = trace ∷ chain_state ∷ finality ∷ []

pub record UpstreamView : Type 0 where
  pub index : ℕ
  pub endpoint : List ℕ
  pub name : List ℕ
  pub role : Role
  pub enabled : Bool
  pub operator_disabled : Bool
  pub online : Bool
  pub stale : Bool
  pub known : Bool
  pub trace : Range
  pub chain_state : Range
  pub finality : Range
  pub head : Option BlockPos
  pub lib : Option BlockPos
  pub connections : ℕ
  pub max_sessions : Option ℕ
  pub priority : ℕ
  pub weight : ℕ
  pub quarantines : List BlockQuarantine
  pub abi_fp : Option ℕ
  pub abi_ok : Bool
  pub legacy_status : Bool
  pub monitor_offline_since : Option ℕ
  pub no_block_log : Bool

unfoldable pub routable : UpstreamView → Bool
routable u = u.enabled && not u.operator_disabled

unfoldable pub range : UpstreamView → Log → Range
range u Log.trace = u.trace
range u Log.chain_state = u.chain_state
range u Log.finality = u.finality

unfoldable pub has_log_of : Role → Range → Bool
unfolding is_empty
has_log_of live r = ltb 0 r.end
has_log_of frozen r = not (is_empty r)

unfoldable pub has_log : UpstreamView → Log → Bool
unfolding has_log_of range
has_log u log = has_log_of u.role (range u log)

-- `Iterator::min` and `Iterator::max` over numbers.
unfoldable pub least : List ℕ → Option ℕ
least [] = none
least (n ∷ ns) = elim (least ns) [ none ↦ some n | some m ↦ some (min n m) ]

unfoldable pub greatest : List ℕ → Option ℕ
greatest [] = none
greatest (n ∷ ns) = elim (greatest ns) [ none ↦ some n | some m ↦ some (max n m) ]

unfoldable pub ids_begin : UpstreamView → Option ℕ
unfolding has_log range least
ids_begin u = least (map (λ log. (range u log).begin) (filter (has_log u) all_logs))

unfoldable pub max_end : UpstreamView → ℕ
unfolding has_log range greatest
max_end u = unwrap_or 0 (greatest (map (λ log. (range u log).end) (filter (has_log u) all_logs)))

unfoldable pub covers_of : Role → Range → ℕ → Bool
unfolding contains
covers_of live r n = ltb 0 r.end && leb r.begin n
covers_of frozen r n = contains r n

unfoldable pub covers : UpstreamView → Log → ℕ → Bool
unfolding covers_of range
covers u log n = covers_of u.role (range u log) n

unfoldable pub covers_ids : UpstreamView → ℕ → Bool
unfolding covers
covers_ids u n = any (λ log. covers u log n) all_logs

-- `usize::try_from(max)` never fails where `usize` has 64 bits.
unfoldable pub at_capacity_besides : UpstreamView → ℕ → Bool
at_capacity_besides u own = is_some_and (λ limit. leb limit (u.connections - own)) u.max_sessions

unfoldable pub at_capacity : UpstreamView → Bool
unfolding at_capacity_besides
at_capacity u = at_capacity_besides u 0

unfoldable pub quarantined_at : UpstreamView → ℕ → ℕ → Bool
unfolding Quarantine.active Quarantine.covers
quarantined_at u n now = any (λ q. Quarantine.active q now && Quarantine.covers q n) u.quarantines

-- `log_segment`; `head` is the fleet's.
unfoldable pub segment_end : ℕ → Option BlockPos → ℕ
segment_end end none = end
segment_end end (some h) = max end (saturating_add h.num 1)

unfoldable pub segment_of : Role → Range → Option BlockPos → Range
unfolding segment_end
segment_of live r head = record { begin = r.begin; end = segment_end r.end head }
segment_of frozen r head = r

unfoldable pub log_segment : UpstreamView → Log → Option BlockPos → Option Range
unfolding has_log range segment_of
log_segment u log head = if has_log u log then some (segment_of u.role (range u log) head) else none
