-- ===== src/Fleet/Upstream/Laws.antt =====
-- The bounds of an upstream's logs against the blocks that it covers.
use fleet_router.Prelude.{ℕ, ◌≤◌, ◌<◌, ◌≡◌, true, some, arith}
use fleet_router.Ship.{is_empty, contains}
use fleet_router.Models.{is_frozen}
use fleet_router.Fleet.Upstream.{
  UpstreamView, has_log, has_log_of, covers, covers_of, covers_ids, max_end, ids_begin,
}

-- An archive covers no block at or above the highest end of its logs.
pub covers_ids-max_end :
    (u : UpstreamView) (n : ℕ) → is_frozen u.role ≡ true → covers_ids u n ≡ true → n < max_end u
unfolding covers_ids covers max_end has_log has_log_of covers_of contains is_empty
covers_ids-max_end u n f h = ground arith

-- The first id of an archive lies below the highest end of its logs.
pub ids_begin-max_end :
    (u : UpstreamView) (b : ℕ) → is_frozen u.role ≡ true → ids_begin u ≡ some b → b < max_end u
unfolding ids_begin max_end has_log has_log_of is_empty
ids_begin-max_end u b f h = ground arith

-- An upstream covers no id below its first.
pub covers_ids-ids_begin :
    (u : UpstreamView) (n b : ℕ) → ids_begin u ≡ some b → covers_ids u n ≡ true → b ≤ n
unfolding ids_begin covers_ids covers has_log has_log_of covers_of contains is_empty
covers_ids-ids_begin u n b e h = ground arith
