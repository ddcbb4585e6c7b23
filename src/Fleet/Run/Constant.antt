-- ===== src/Fleet/Run/Constant.antt =====
-- Eligibility does not change between two breakpoints.
use fleet_router.Prelude.{
  ℕ, ◌≤◌, ◌<◌, ◌≡◌, refl, sym, ◌∙◌, ◌⊎◌, inl, inr, true, not, ◌&&◌, List, [], ◌∷◌, arith, any, All,
  In, any-congr, All-append_left, All-append_right, Bool-cases, if◌then◌else◌,
}
use fleet_router.Ship.{Range, contains, is_empty}
use fleet_router.Models.{Role, live, frozen, BlockQuarantine, is_frozen}
use fleet_router.Models.Quarantine
use fleet_router.Fleet.Coverage.{has}
use fleet_router.Fleet.Upstream.{
  Log, UpstreamView, all_logs, range, has_log, has_log_of, covers, covers_of, covers_ids, routable,
  quarantined_at,
}
use fleet_router.Fleet.View.{FleetView, cov}
use fleet_router.Fleet.Sticky.Laws.{known_by}
use fleet_router.Fleet.Request.{Need, sticky}
use fleet_router.Fleet.Eligible.{union_has, eligible}
use fleet_router.Fleet.Run.{
  bounds_of, active_bounds, quarantine_bounds, log_bounds, logs_bounds, range_bounds,
}

-- No number of the list lies above `m` and at or below `n`.
abbrev pub NoneWithin : ℕ → ℕ → List ℕ → Type 0
NoneWithin m n bs = All (λ b. (b ≤ m) ⊎ (n < b)) bs

-- The bounds of a range under a role.
abbrev role_bounds : Role → Range → List ℕ
role_bounds role r =
    if not (has_log_of role r) then [] else r.begin ∷ (if is_frozen role then r.end ∷ [] else [])

covers_of-constant :
    (role : Role) (r : Range) (m n : ℕ)
    → m ≤ n
    → NoneWithin m n (role_bounds role r)
    → covers_of role r m ≡ covers_of role r n
unfolding covers_of has_log_of contains is_empty
covers_of-constant live r m n h w = ground arith
covers_of-constant frozen r m n h w = ground arith

covers-constant :
    (u : UpstreamView) (log : Log) (m n : ℕ)
    → m ≤ n
    → NoneWithin m n (log_bounds u log)
    → covers u log m ≡ covers u log n
unfolding covers log_bounds has_log
covers-constant u log m n h w = covers_of-constant u.role (range u log) m n h w

In-all_logs : (log : Log) → In log all_logs
In-all_logs Log.trace = inl refl
In-all_logs Log.chain_state = inr (inl refl)
In-all_logs Log.finality = inr (inr (inl refl))

log-NoneWithin :
    (u : UpstreamView) (m n : ℕ) (logs : List Log) (log : Log)
    → In log logs
    → NoneWithin m n (logs_bounds u logs)
    → NoneWithin m n (log_bounds u log)
unfolding logs_bounds
log-NoneWithin u m n [] log i w = elim i [ ]
log-NoneWithin u m n (l ∷ logs) log (inl e) w =
    rw e (All-append_left (λ b. (b ≤ m) ⊎ (n < b)) (log_bounds u l) (logs_bounds u logs) w)
log-NoneWithin u m n (l ∷ logs) log (inr i) w =
    log-NoneWithin u m n logs log i
      (All-append_right (λ b. (b ≤ m) ⊎ (n < b)) (log_bounds u l) (logs_bounds u logs) w)

logs-constant :
    (u : UpstreamView) (m n : ℕ)
    → m ≤ n
    → NoneWithin m n (logs_bounds u all_logs)
    → (log : Log) → covers u log m ≡ covers u log n
logs-constant u m n h w log =
    covers-constant u log m n h (log-NoneWithin u m n all_logs log (In-all_logs log) w)

-- The bounds that `range_bounds` takes from one upstream.
abbrev own_bounds : UpstreamView → List ℕ
own_bounds x = if x.enabled && x.known then logs_bounds x all_logs else []

upstream-NoneWithin :
    (ws : List UpstreamView) (m n : ℕ) (u : UpstreamView)
    → In u ws
    → NoneWithin m n (range_bounds ws)
    → NoneWithin m n (own_bounds u)
unfolding range_bounds
upstream-NoneWithin [] m n u i w = elim i [ ]
upstream-NoneWithin (x ∷ ws) m n u (inl s) w =
    rw s (All-append_left (λ b. (b ≤ m) ⊎ (n < b)) (own_bounds x) (range_bounds ws) w)
upstream-NoneWithin (x ∷ ws) m n u (inr i) w =
    upstream-NoneWithin ws m n u i
      (All-append_right (λ b. (b ≤ m) ⊎ (n < b)) (own_bounds x) (range_bounds ws) w)

-- Of an enabled known upstream of the fleet.
pub upstream-constant :
    (ws : List UpstreamView) (u : UpstreamView) (m n : ℕ)
    → In u ws
    → (u.enabled && u.known) ≡ true
    → m ≤ n
    → NoneWithin m n (range_bounds ws)
    → (log : Log) → covers u log m ≡ covers u log n
upstream-constant ws u m n i e h w =
    logs-constant u m n h (rw e at (upstream-NoneWithin ws m n u i w))

-- What the enabled known upstreams cover in `logs` is constant too.
known_by-constant :
    (ws : List UpstreamView) (logs : List Log) (m n : ℕ)
    → m ≤ n
    → NoneWithin m n (range_bounds ws)
    → known_by ws logs m ≡ known_by ws logs n
known_by-constant ws logs m n h w =
    any-congr (λ u. (u.enabled && u.known) && any (λ log. covers u log m) logs)
      (λ u. (u.enabled && u.known) && any (λ log. covers u log n) logs) ws
      λ u i. elim (Bool-cases (u.enabled && u.known)) [
        | inr e ↦ rw e
        | inl e ↦ rw e (
            any-congr (λ log. covers u log m) (λ log. covers u log n) logs
              (λ log _. upstream-constant ws u m n i e h w log))
      ]

covers_quarantine-constant :
    (q : BlockQuarantine) (m n : ℕ)
    → m ≤ n
    → NoneWithin m n (bounds_of q)
    → Quarantine.covers q m ≡ Quarantine.covers q n
unfolding bounds_of Quarantine.covers
covers_quarantine-constant q m n h w = ground arith

active-constant :
    (qs : List BlockQuarantine) (now m n : ℕ)
    → m ≤ n
    → NoneWithin m n (active_bounds qs now)
    → any (λ q. Quarantine.active q now && Quarantine.covers q m) qs
      ≡ any (λ q. Quarantine.active q now && Quarantine.covers q n) qs
unfolding active_bounds
active-constant [] now m n h w = refl
active-constant (q ∷ qs) now m n h w =
    let own : NoneWithin m n (if Quarantine.active q now then bounds_of q else []) =
      All-append_left (λ b. (b ≤ m) ⊎ (n < b)) (if Quarantine.active q now then bounds_of q else [])
        (active_bounds qs now) w in
    let rest : NoneWithin m n (active_bounds qs now) =
      All-append_right (λ b. (b ≤ m) ⊎ (n < b))
        (if Quarantine.active q now then bounds_of q else []) (active_bounds qs now) w in
    elim (Bool-cases (Quarantine.active q now)) [
      | inr e ↦ rw e (active-constant qs now m n h rest)
      | inl e ↦
          rw
            (e, covers_quarantine-constant q m n h (rw e at own), active-constant qs now m n h rest)
    ]

quarantined_at-constant :
    (u : UpstreamView) (now m n : ℕ)
    → m ≤ n
    → NoneWithin m n (quarantine_bounds u now)
    → quarantined_at u m now ≡ quarantined_at u n now
unfolding quarantine_bounds quarantined_at
quarantined_at-constant u now m n h w = active-constant u.quarantines now m n h w

-- The coverage that a view publishes is that of its own upstreams.
pub record IsSticky (v : FleetView) : Type 0 where
  pub on_log : (log : Log) (n : ℕ) → has (cov v log) n ≡ known_by v.upstreams (log ∷ []) n
  pub on_ids : (n : ℕ) → has v.ids n ≡ known_by v.upstreams all_logs n

-- The upstream takes part in routing and stands in the view.
pub record IsServing (v : FleetView) (u : UpstreamView) : Type 0 where
  pub stands : In u v.upstreams
  pub is_routable : routable u ≡ true
  pub is_known : u.known ≡ true
  pub abi_agrees : u.abi_ok ≡ true

module _ (v : FleetView) (u : UpstreamView) (need : Need) (now m n : ℕ) where
  -- With no breakpoint above `m` and at or below `n`, a serving upstream is eligible at both
  -- blocks or at none.
  pub eligible-constant :
      IsSticky v
      → IsServing v u
      → m ≤ n
      → NoneWithin m n (range_bounds v.upstreams)
      → NoneWithin m n (quarantine_bounds u now)
      → eligible v u need m sticky now ≡ eligible v u need n sticky now
  unfolding eligible union_has routable covers_ids
  eligible-constant ok s h w q =
      let own : (log : Log) → covers u log m ≡ covers u log n =
        upstream-constant v.upstreams u m n s.stands (ground (arith, s.is_routable, s.is_known)) h
          w in
      let same : (log : Log) → has (cov v log) m ≡ has (cov v log) n = λ log.
        ok.on_log log m
        ∙ known_by-constant v.upstreams (log ∷ []) m n h w
        ∙ sym (ok.on_log log n) in
      ground (
        arith,
        own Log.trace,
        own Log.chain_state,
        own Log.finality,
        same Log.trace,
        same Log.chain_state,
        same Log.finality,
        quarantined_at-constant u now m n h q,
      )
