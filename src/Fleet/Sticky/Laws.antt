-- ===== src/Fleet/Sticky/Laws.antt =====
-- Sticky coverage, described without ranges: a block is covered when some enabled known upstream
-- covers it, online or not.
use fleet_router.Prelude.{
  ℕ, ◌≡◌, Bool, not, ◌&&◌, ◌||◌, List, [], ◌∷◌, Option, none, some, arith, leb, any, any-append,
  is_some_and, if◌then◌else◌, Bool-cases, inl, inr,
}
use fleet_router.Ship.{BlockPos, Range, is_empty, contains}
use fleet_router.Models.{Role, live, frozen}
use fleet_router.Fleet.Coverage.{has, holds, coverage}
use fleet_router.Fleet.Coverage.Merge.{merge-holds}
use fleet_router.Fleet.Upstream.{
  Log, UpstreamView, range, has_log, has_log_of, covers, covers_of, log_segment, segment_of,
}
use fleet_router.Fleet.Sticky.{Tally, add_segment, tally_log, tally_logs, tally, cov_of}

abbrev tally_has : Tally → ℕ → Bool
tally_has t n = is_some_and (λ begin. leb begin n) t.tail || holds t.segs n

-- What a log that an upstream has adds: its segment, and for a live one the open tail.
add_segment-has :
    (role : Role) (serving : Bool) (r : Range) (head : Option BlockPos) (t : Tally) (n : ℕ)
    → tally_has
        (add_segment role serving r.begin
          (if has_log_of role r then some (segment_of role r head) else none)
          t)
        n
      ≡ (tally_has t n || covers_of role r n)
unfolding add_segment has_log_of segment_of covers_of contains is_empty
add_segment-has live serving r head t n =
    ground (arith, any-append (λ r. contains r n) t.segs (segment_of live r head ∷ []))
add_segment-has frozen serving r head t n =
    ground (arith, any-append (λ r. contains r n) t.segs (r ∷ []))

tally_log-has :
    (head : Option BlockPos) (u : UpstreamView) (log : Log) (t : Tally) (n : ℕ)
    → tally_has (tally_log head u log t) n ≡ (tally_has t n || covers u log n)
unfolding tally_log log_segment has_log covers
tally_log-has head u log t n =
    add_segment-has u.role (u.online && not u.operator_disabled) (range u log) head t n

tally_logs-has :
    (head : Option BlockPos) (u : UpstreamView) (logs : List Log) (t : Tally) (n : ℕ)
    → tally_has (tally_logs head u logs t) n ≡ (tally_has t n || any (λ log. covers u log n) logs)
unfolding tally_logs
tally_logs-has head u [] t n = ground arith
tally_logs-has head u (log ∷ logs) t n =
    ground
      (arith, tally_logs-has head u logs (tally_log head u log t) n, tally_log-has head u log t n)

-- Some enabled known upstream covers block `n` in one of the logs.
abbrev pub known_by : List UpstreamView → List Log → ℕ → Bool
known_by us logs n = any (λ u. (u.enabled && u.known) && any (λ log. covers u log n) logs) us

tally-has :
    (head : Option BlockPos) (logs : List Log) (us : List UpstreamView) (t : Tally) (n : ℕ)
    → tally_has (tally head logs us t) n ≡ (tally_has t n || known_by us logs n)
unfolding tally
tally-has head logs [] t n = ground arith
tally-has head logs (u ∷ us) t n = elim (Bool-cases (u.enabled && u.known)) [
  | inl e ↦
      ground
        (arith, tally-has head logs us (tally_logs head u logs t) n, tally_logs-has head u logs t n)
  | inr e ↦ ground (arith, tally-has head logs us t n)
]

-- The coverage of `logs` has block `n` exactly when an enabled known upstream covers it in one of
-- them, whether the upstream is online or not and wherever the fleet's head is.
pub cov_of-has :
    (us : List UpstreamView) (head : Option BlockPos) (logs : List Log) (n : ℕ)
    → has (cov_of us head logs) n ≡ known_by us logs n
unfolding cov_of has coverage contains
cov_of-has us head logs n = ground (
  arith,
  tally-has head logs us (record { segs = []; online = []; tail = none }) n,
  merge-holds (tally head logs us (record { segs = []; online = []; tail = none })).segs n,
)
