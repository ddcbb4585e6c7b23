-- ===== src/Fleet/Build/Laws.antt =====
-- A built view publishes the coverage of its own upstreams.
use fleet_router.Prelude.{ℕ, ◌≡◌, refl, sym, ◌∙◌, List, [], ◌∷◌, Option, none, some, arith, map}
use fleet_router.Ship.{BlockPos}
use fleet_router.Abi.{AbiEntry}
use fleet_router.Models.{AbiMismatch, warn, exclude, ServerState}
use fleet_router.Fleet.Coverage.{has}
use fleet_router.Fleet.Upstream.{Log, UpstreamView, all_logs, covers, range}
use fleet_router.Fleet.View.{HubMemory, AbiSource, cov}
use fleet_router.Fleet.Tip.{Tips}
use fleet_router.Fleet.Sticky.{cov_of}
use fleet_router.Fleet.Sticky.Laws.{known_by, cov_of-has}
use fleet_router.Fleet.Build.{BuildCtx, check_abi, check_abis, build_view}
use fleet_router.Fleet.Run.Constant.{IsSticky}

-- The ABI check changes no range.
known_by-check_abi :
    (fp : ℕ) (us : List UpstreamView) (logs : List Log) (n : ℕ)
    → known_by (map (check_abi fp) us) logs n ≡ known_by us logs n
unfolding check_abi covers range
known_by-check_abi fp [] logs n = refl
known_by-check_abi fp (u ∷ us) logs n = ground (arith, known_by-check_abi fp us logs n)

known_by-check_abis :
    (m : AbiMismatch) (c : Option (AbiEntry × AbiSource)) (us : List UpstreamView) (logs : List Log)
    (n : ℕ)
    → known_by (check_abis m c us) logs n ≡ known_by us logs n
unfolding check_abis
known_by-check_abis warn c us logs n = refl
known_by-check_abis exclude none us logs n = refl
known_by-check_abis exclude (some (entry, source)) us logs n = known_by-check_abi entry.fp us logs n

cov_of-check_abis :
    (m : AbiMismatch) (c : Option (AbiEntry × AbiSource)) (us : List UpstreamView)
    (head : Option BlockPos) (logs : List Log) (n : ℕ)
    → has (cov_of us head logs) n ≡ known_by (check_abis m c us) logs n
cov_of-check_abis m c us head logs n =
    cov_of-has us head logs n ∙ sym (known_by-check_abis m c us logs n)

-- Whatever the states, the tips and the memory: in the view that is built, a log's coverage has a
-- block exactly when one of the view's enabled known upstreams covers it.
pub build_view-IsSticky :
    (ctx : BuildCtx) (states : List (List ℕ × ServerState)) (tips : Tips) (mem : HubMemory)
    (now : ℕ)
    → IsSticky (build_view ctx states tips mem now).1
unfolding build_view cov
build_view-IsSticky ctx states tips mem now = record {
  on_log = by_log;
  on_ids = λ n. cov_of-check_abis _ _ _ _ all_logs n;
}
  where
    by_log :
        (log : Log) (n : ℕ)
        → has (cov (build_view ctx states tips mem now).1 log) n
          ≡ known_by (build_view ctx states tips mem now).1.upstreams (log ∷ []) n
    by_log Log.trace n = cov_of-check_abis _ _ _ _ (Log.trace ∷ []) n
    by_log Log.chain_state n = cov_of-check_abis _ _ _ _ (Log.chain_state ∷ []) n
    by_log Log.finality n = cov_of-check_abis _ _ _ _ (Log.finality ∷ []) n
