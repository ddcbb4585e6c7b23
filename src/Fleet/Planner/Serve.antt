-- ===== src/Fleet/Planner/Serve.antt =====
-- What a step of the planner promises.
use fleet_router.Prelude.{
  ℕ, ◌+◌, ◌≤◌, ◌<◌, min, ◌≡◌, refl, ◌⊎◌, inl, inr, Bool, true, false, ◌||◌, List, [], ◌∷◌, Option,
  some, arith, In, if◌then◌else◌, Bool-cases, Option-cases,
}
use fleet_router.Prelude.Words.{u32_max}
use fleet_router.Ship.{BlockPos}
use fleet_router.Models.{HistoryPreference, is_frozen}
use fleet_router.Fleet.Coverage.{has}
use fleet_router.Fleet.Upstream.{Log, UpstreamView, all_logs, covers_ids, ids_begin, routable}
use fleet_router.Fleet.Upstream.Laws.{covers_ids-max_end, ids_begin-max_end}
use fleet_router.Fleet.View.{FleetView}
use fleet_router.Fleet.Sticky.Laws.{known_by}
use fleet_router.Fleet.Request.{Shape, Excludes, hard_active, sticky, ServeStep, serve}
use fleet_router.Fleet.Eligible.{eligible, union_has}
use fleet_router.Fleet.Eligible.Laws.{eligible_iff}
use fleet_router.Fleet.Run.{run_cap, run_end}
use fleet_router.Fleet.Run.Constant.{IsSticky}
use fleet_router.Fleet.Run.Ends.{run_end-eligible, run_end-above}
use fleet_router.Fleet.Planner.{
  is_below, candidate, gate_of, gate_end, gated_end, Ranked, full, rank_of, serve_best, choose,
  uncovered_step, best_of, next_step,
}
use fleet_router.Fleet.Planner.Rank.{best_of-least}

-- Some log of the union has a block that the union of the three has.
known_by-log :
    (us : List UpstreamView) (n : ℕ)
    → known_by us all_logs n ≡ (
        known_by us (Log.trace ∷ []) n
        || known_by us (Log.chain_state ∷ []) n
        || known_by us (Log.finality ∷ []) n)
known_by-log [] n = refl
known_by-log (u ∷ us) n = ground (arith, known_by-log us n)

module _ (v : FleetView) (u : UpstreamView) (sh : Shape) (from now : ℕ) where
  -- An eligible upstream knows the id of a block that the fleet knows.
  eligible-covers_ids :
      IsSticky v
      → eligible v u sh.need from sticky now ≡ true
      → has v.ids from ≡ true
      → covers_ids u from ≡ true
  unfolding union_has
  eligible-covers_ids ok e h =
      let s = ((eligible_iff v u sh.need from sticky now).0 e).0 in
      ground (
        arith,
        s.has_id Log.trace,
        s.has_id Log.chain_state,
        s.has_id Log.finality,
        ok.on_log Log.trace from,
        ok.on_log Log.chain_state from,
        ok.on_log Log.finality from,
        ok.on_ids from,
        known_by-log v.upstreams from,
      )

  below-cap :
      (ex : Excludes)
      → from < u32_max
      → is_below v from ≡ true
      → candidate v u sh from ex now ≡ true
      → from < run_cap u
  unfolding candidate run_cap
  below-cap ex h b c = elim (Option-cases (ids_begin u)) [
    | inl e ↦ ground arith
    | inr (begin, e) ↦ ground (arith, ids_begin-max_end u begin)
  ]

  above-cap :
      IsSticky v
      → from < u32_max
      → has v.ids from ≡ true
      → eligible v u sh.need from sticky now ≡ true
      → from < run_cap u
  unfolding run_cap
  above-cap ok h k e = ground (arith, covers_ids-max_end u from, eligible-covers_ids ok e k)

  candidate-eligible :
      (ex : Excludes)
      → is_below v from ≡ false
      → candidate v u sh from ex now ≡ true
      → eligible v u sh.need from sticky now ≡ true
  unfolding candidate
  candidate-eligible ex b c = ground arith

  candidate-not-hard :
      (ex : Excludes) → candidate v u sh from ex now ≡ true → hard_active ex u.endpoint now ≡ false
  unfolding candidate
  candidate-not-hard ex c = ground arith

  candidate-routable :
      (ex : Excludes)
      → candidate v u sh from ex now ≡ true
      → (routable u ≡ true) × (u.known ≡ true) × (u.abi_ok ≡ true)
  unfolding candidate
  candidate-routable ex c = elim (Bool-cases (is_below v from)) [
    | inl b ↦ ground arith
    | inr b ↦
        let s = ((eligible_iff v u sh.need from sticky now).0 (candidate-eligible ex b c)).0 in
        (s.is_routable, s.is_known, s.abi_agrees)
  ]

  -- The run of a candidate goes beyond the block.
  candidate-run :
      (ex : Excludes)
      → IsSticky v
      → from < u32_max
      → candidate v u sh from ex now ≡ true
      → (is_below v from ≡ true) ⊎ (has v.ids from ≡ true)
      → from < run_end v u sh.need from now
  candidate-run ex ok h c (inl b) = run_end-above v u sh.need from now (below-cap ex h b c)
  candidate-run ex ok h c (inr k) = elim (Bool-cases (is_below v from)) [
    | inl b ↦ run_end-above v u sh.need from now (below-cap ex h b c)
    | inr b ↦ run_end-above v u sh.need from now (above-cap ok h k (candidate-eligible ex b c))
  ]

-- The block that a frozen leg may go up to: the fleet head, or the LIB.
abbrev pub WithinGate : UpstreamView → Option BlockPos × Option BlockPos → Shape → ℕ → ℕ → Type 0
WithinGate u tip sh from req_end =
    is_frozen u.role ≡ true
    → (g : BlockPos) × ((if sh.irreversible_only then tip.1 else tip.0) ≡ some g)
      × (from ≤ g.num)
      × (req_end ≤ g.num + 1)

gated_end-bounds :
    (u : UpstreamView) (tip : Option BlockPos × Option BlockPos) (sh : Shape) (from run e : ℕ)
    → from < u32_max
    → from < run
    → gated_end u tip sh from run ≡ some e
    → (from < e) × (e ≤ run)
unfolding gated_end gate_of gate_end
gated_end-bounds u tip sh from run e h k g = ground arith

gated_end-Within :
    (u : UpstreamView) (tip : Option BlockPos × Option BlockPos) (sh : Shape) (from run e : ℕ)
    → gated_end u tip sh from run ≡ some e
    → WithinGate u tip sh from e
unfolding gated_end gate_of gate_end
gated_end-Within u tip sh from run e g f =
    elim (Option-cases (if sh.irreversible_only then tip.1 else tip.0)) [
      | inl n ↦ absurd (ground arith)
      | inr (b, n) ↦ (b, n, ground arith, ground arith)
    ]

module _ (v : FleetView) (tip : Option BlockPos × Option BlockPos) (sh : Shape) (from : ℕ)
    (own : List ℕ) (allow_offline : Bool) where
  -- How a serve step comes about from the chosen candidate.
  pub record Served (r : Ranked) (s : ServeStep) : Type 0 where
    pub leg_end : gated_end r.up tip sh from r.run ≡ some s.req_end
    pub has_room : full own r.up ≡ false
    pub reachable : (r.up.online ≡ true) ⊎ (allow_offline ≡ true)
    pub index_is : s.up ≡ r.up.index
    pub endpoint_is : s.endpoint ≡ r.up.endpoint
    pub role_is : s.role ≡ r.up.role
    pub start_is : s.start ≡ from

  serve_best-Served :
      (r : Ranked) (s : ServeStep)
      → serve_best v tip sh from own allow_offline r ≡ serve s
      → Served r s
  unfolding serve_best
  serve_best-Served r s e = elim (Option-cases (gated_end r.up tip sh from r.run)) [
    | inl g ↦ absurd (ground arith)
    | inr (x, g) ↦ ground arith
  ]

  pub next_step-chosen :
      (ex : Excludes) (sid : ℕ) (pol : HistoryPreference) (lag now : ℕ) (s : ServeStep)
      → next_step v tip sh from ex own sid pol lag allow_offline now ≡ serve s
      → (r : Ranked) × (best_of v sh from ex own sid pol lag now ≡ some r)
        × Served r s
        × ((is_below v from ≡ true) ⊎ (has v.ids from ≡ true))
        × (from < sh.end)
  unfolding next_step choose uncovered_step
  next_step-chosen ex sid pol lag now s e =
      elim (Option-cases (best_of v sh from ex own sid pol lag now)) [
        | inl b ↦ absurd (ground arith)
        | inr (r, b) ↦ (r, b, serve_best-Served r s (ground arith), ground arith, ground arith)
      ]

-- A leg that the session can be sent on: by an upstream of the view that is in service and not
-- excluded, reachable and below its limit, for at least one block and none beyond the request,
-- the gate or what the upstream is eligible for.
pub record IsSafeLeg (v : FleetView) (tip : Option BlockPos × Option BlockPos) (sh : Shape)
    (from : ℕ) (ex : Excludes) (own : List ℕ) (allow_offline : Bool) (now : ℕ) (s : ServeStep)
    (u : UpstreamView) : Type 0 where
  pub stands : In u v.upstreams
  pub index_is : s.up ≡ u.index
  pub endpoint_is : s.endpoint ≡ u.endpoint
  pub role_is : s.role ≡ u.role
  pub start_is : s.start ≡ from
  pub is_routable : routable u ≡ true
  pub is_known : u.known ≡ true
  pub abi_agrees : u.abi_ok ≡ true
  pub not_excluded : hard_active ex u.endpoint now ≡ false
  pub has_room : full own u ≡ false
  pub reachable : (u.online ≡ true) ⊎ (allow_offline ≡ true)
  pub not_empty : from < s.req_end
  pub within_request : s.req_end ≤ sh.end
  pub within_gate : WithinGate u tip sh from s.req_end
  pub all_eligible :
      is_below v from ≡ false
      → (n : ℕ) → from ≤ n
      → n < s.req_end
      → eligible v u sh.need n sticky now ≡ true

module _ (v : FleetView) (tip : Option BlockPos × Option BlockPos) (sh : Shape) (from : ℕ)
    (ex : Excludes) (own : List ℕ) (sid : ℕ) (pol : HistoryPreference) (lag : ℕ)
    (allow_offline : Bool) (now : ℕ) (s : ServeStep) where
  pub serve-SafeLeg :
      (u : UpstreamView)
      → IsSticky v
      → sh.end ≤ u32_max
      → In u v.upstreams
      → candidate v u sh from ex now ≡ true
      → (is_below v from ≡ true) ⊎ (has v.ids from ≡ true)
      → from < sh.end
      → Served v tip sh from own allow_offline (rank_of v sh from ex own sid pol lag now u) s
      → IsSafeLeg v tip sh from ex own allow_offline now s u
  unfolding rank_of
  serve-SafeLeg u ok small i c b h d =
      let (known, usable, agrees) = candidate-routable v u sh from now ex c in
      let run : from < run_end v u sh.need from now =
        candidate-run v u sh from now ex ok (omega arith) c b in
      let bounds : (from < s.req_end) × (s.req_end ≤ min (run_end v u sh.need from now) sh.end) =
        gated_end-bounds u tip sh from (min (run_end v u sh.need from now) sh.end) s.req_end
          (omega arith) (omega arith) d.leg_end in
      record {
        stands = i;
        index_is = d.index_is;
        endpoint_is = d.endpoint_is;
        role_is = d.role_is;
        start_is = d.start_is;
        is_routable = known;
        is_known = usable;
        abi_agrees = agrees;
        not_excluded = candidate-not-hard v u sh from now ex c;
        has_room = d.has_room;
        reachable = d.reachable;
        not_empty = bounds.0;
        within_request = omega arith;
        within_gate = gated_end-Within u tip sh from _ s.req_end d.leg_end;
        all_eligible = λ above n p q.
            run_end-eligible v u sh.need from now n ok i
              (candidate-eligible v u sh from now ex above c) p (omega arith);
      }

  -- In a view whose coverage is that of its upstreams, and for a request whose end is a 32-bit
  -- number: a leg that the planner serves starts at the cursor and names an upstream of the view
  -- that is known, may be routed to, agrees on the ABI, is not excluded, has room for the session
  -- and is online, or the session allows an offline one. The leg is not empty, it stays within
  -- the request and within the gate, and, unless the cursor is below the fleet, its upstream is
  -- eligible at each of its blocks.
  pub next_step-SafeLeg :
      IsSticky v
      → sh.end ≤ u32_max
      → next_step v tip sh from ex own sid pol lag allow_offline now ≡ serve s
      → (u : UpstreamView) × IsSafeLeg v tip sh from ex own allow_offline now s u
  next_step-SafeLeg ok small e =
      let (r, b, d, k, h) =
        next_step-chosen v tip sh from own allow_offline ex sid pol lag now s e in
      let (u, i, c, f, _) = best_of-least v sh from ex own sid pol lag now r b in
      (u, serve-SafeLeg u ok small i c k h (rw f at d))
