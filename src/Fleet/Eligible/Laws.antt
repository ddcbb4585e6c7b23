-- ===== src/Fleet/Eligible/Laws.antt =====
-- The union rule: what eligibility means, clause by clause.
use fleet_router.Prelude.{ℕ, ◌≡◌, refl, ◌↔◌, Bool, true, false, ◌&&◌, arith}
use fleet_router.Fleet.Upstream.{Log, UpstreamView, routable, covers, covers_ids, quarantined_at}
use fleet_router.Fleet.View.{FleetView}
use fleet_router.Fleet.Request.{Need, Union}
use fleet_router.Fleet.Eligible.{union_has, eligible_with, eligible, eligible_ignoring_quarantine}

-- For each log that the client asked for, whatever the union has at the block the upstream has
-- too; and it knows the block's id if the union does.
pub record ServesUnion (v : FleetView) (u : UpstreamView) (need : Need) (n : ℕ) (union : Union)
    : Type 0 where
  pub is_routable : routable u ≡ true
  pub is_known : u.known ≡ true
  pub abi_agrees : u.abi_ok ≡ true
  pub has_traces :
      need.traces ≡ true → union_has v union Log.trace n ≡ true → covers u Log.trace n ≡ true
  pub has_deltas :
      need.deltas ≡ true
      → union_has v union Log.chain_state n ≡ true
      → covers u Log.chain_state n ≡ true
  pub has_finality :
      need.finality ≡ true
      → union_has v union Log.finality n ≡ true
      → covers u Log.finality n ≡ true
  pub has_id : (log : Log) → union_has v union log n ≡ true → covers_ids u n ≡ true

module _ (v : FleetView) (u : UpstreamView) (need : Need) (n : ℕ) (union : Union) (now : ℕ) where
  eligible_with-id :
      (check : Bool)
      → eligible_with v u need n union now check ≡ true
      → (log : Log) → union_has v union log n ≡ true
      → covers_ids u n ≡ true
  unfolding eligible_with
  eligible_with-id check h Log.trace k = ground arith
  eligible_with-id check h Log.chain_state k = ground arith
  eligible_with-id check h Log.finality k = ground arith

  eligible_with-Serves :
      (check : Bool)
      → eligible_with v u need n union now check ≡ true
      → ServesUnion v u need n union
  unfolding eligible_with
  eligible_with-Serves check h = record {
    is_routable = ground arith;
    is_known = ground arith;
    abi_agrees = ground arith;
    has_traces = λ a b. ground arith;
    has_deltas = λ a b. ground arith;
    has_finality = λ a b. ground arith;
    has_id = eligible_with-id check h;
  }

  Serves-eligible_with :
      (check : Bool)
      → ServesUnion v u need n union
      → (check && quarantined_at u n now) ≡ false
      → eligible_with v u need n union now check ≡ true
  unfolding eligible_with
  Serves-eligible_with check s q =
      ground (arith, s.has_id Log.trace, s.has_id Log.chain_state, s.has_id Log.finality)

  eligible-unquarantined : eligible v u need n union now ≡ true → quarantined_at u n now ≡ false
  unfolding eligible eligible_with
  eligible-unquarantined h = ground arith

  -- An upstream is eligible exactly when it may be routed to, is not quarantined at the block, and
  -- has there what the union has of the logs that the client asked for.
  pub eligible_iff :
      (eligible v u need n union now ≡ true)
      ↔ (ServesUnion v u need n union × (quarantined_at u n now ≡ false))
  unfolding eligible
  eligible_iff = (
    λ h. (eligible_with-Serves true h, eligible-unquarantined h),
    λ s. Serves-eligible_with true s.0 s.1,
  )

  -- Without the quarantine clause, the same conditions but that one.
  pub eligible_ignoring_quarantine_iff :
      (eligible_ignoring_quarantine v u need n union now ≡ true) ↔ ServesUnion v u need n union
  unfolding eligible_ignoring_quarantine
  eligible_ignoring_quarantine_iff =
      (λ h. eligible_with-Serves false h, λ s. Serves-eligible_with false s refl)
