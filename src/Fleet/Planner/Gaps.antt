-- ===== src/Fleet/Planner/Gaps.antt =====
-- When the planner is done, waits, reports a gap, or holds.
use fleet_router.Prelude.{
  ℕ, ◌≤◌, ◌<◌, min, ◌≡◌, sym, ◌∙◌, ap, ◌≢◌, ◌↔◌, ◌⊎◌, inl, inr, Bool, true, false, not, ◌&&◌, ◌||◌,
  List, Option, none, some, arith, In, is_some, if◌then◌else◌, Bool-cases, Option-cases, any,
  any-false_of_In, le→leb,
}
use fleet_router.Ship.{BlockPos}
use fleet_router.Models.{HistoryPreference, is_frozen}
use fleet_router.Fleet.Coverage.{has}
use fleet_router.Fleet.Upstream.{UpstreamView, all_logs, covers_ids, covers}
use fleet_router.Fleet.View.{FleetView}
use fleet_router.Fleet.Sticky.Laws.{known_by}
use fleet_router.Prelude.Words.{saturating_add}
use fleet_router.Fleet.Eligible.{lagging_for}
use fleet_router.Fleet.Request.{Shape, Excludes, ServeStep, Step, serve, gap, done}
use fleet_router.Fleet.Run.Constant.{IsSticky}
use fleet_router.Fleet.Planner.{
  fleet_begin, is_below, candidate, gated_end, Ranked, full, best_of, choose, serve_best, gate_of,
  gate_end, next_step, uncovered_step,
}
use fleet_router.Fleet.Planner.Rank.{best_of-prefers, best_of-exists}

module _ (v : FleetView) (tip : Option BlockPos × Option BlockPos) (sh : Shape) (from : ℕ)
    (ex : Excludes) (own : List ℕ) (sid : ℕ) (pol : HistoryPreference) (lag : ℕ)
    (allow_offline : Bool) (now : ℕ) where
  abbrev next : Step
  next = next_step v tip sh from ex own sid pol lag allow_offline now

  serve_best-ne :
      (r : Ranked)
      → let s = serve_best v tip sh from own allow_offline r in (s ≢ done) × ((b : ℕ) → s ≢ gap b)
  unfolding serve_best
  serve_best-ne r = ((λ e. ground arith), λ b e. ground arith)

  choose-ne :
      (o : Option Ranked)
      → let s = choose v tip sh from ex own allow_offline now o in
        (s ≢ done) × ((b : ℕ) → s ≢ gap b)
  unfolding choose
  choose-ne none = ((λ e. cc), λ b e. cc)
  choose-ne (some r) = serve_best-ne r

  -- A session is done exactly when its cursor has reached the end of its request.
  pub next_step-done_iff : (next ≡ done) ↔ (sh.end ≤ from)
  unfolding next_step uncovered_step
  next_step-done_iff = (
    λ e. ground (arith, (choose-ne (best_of v sh from ex own sid pol lag now)).0),
    λ h. rw (le→leb sh.end from h),
  )

  -- A configured hole at the cursor of an unfinished request: ids are known below the block and
  -- above it, every archive has reported or declared its range, and nothing covers the block.
  pub record IsHole : Type 0 where
    pub unfinished : from < sh.end
    pub ids_below : (b : ℕ) × (fleet_begin v ≡ some b) × (b ≤ from)
    pub uncovered : has v.ids from ≡ false
    pub ids_above : (from < v.ids.top.end) ⊎ (is_some v.ids.live_tail_begin ≡ true)
    pub all_reported : v.frozen_unknown ≡ 0

  gap-guards :
      (b : ℕ)
      → next ≡ gap b
      → (b ≡ from)
        × (from < sh.end)
        × (is_below v from ≡ false)
        × (has v.ids from ≡ false)
        × (is_some (fleet_begin v) ≡ true)
        × ((from < v.ids.top.end) ⊎ (is_some v.ids.live_tail_begin ≡ true))
        × (v.frozen_unknown ≡ 0)
  unfolding next_step uncovered_step
  gap-guards b e =
      let none_chosen = (choose-ne (best_of v sh from ex own sid pol lag now)).1 b in
      (
        ground (arith, none_chosen),
        ground (arith, none_chosen),
        ground (arith, none_chosen),
        ground (arith, none_chosen),
        ground (arith, none_chosen),
        ground (arith, none_chosen),
        ground (arith, none_chosen),
      )

  gap-IsHole : (b : ℕ) → next ≡ gap b → (b ≡ from) × IsHole
  gap-IsHole b e =
      let (same, unfinished, above, uncovered, known, up, reported) = gap-guards b e in
      (
        same,
        record {
          unfinished = unfinished;
          ids_below = first above known;
          uncovered = uncovered;
          ids_above = up;
          all_reported = reported;
        },
      )
    where
      first :
          is_below v from ≡ false
          → is_some (fleet_begin v) ≡ true
          → (b : ℕ) × (fleet_begin v ≡ some b) × (b ≤ from)
      first above known = elim (Option-cases (fleet_begin v)) [
        | inl none_known ↦ absurd (ground arith)
        | inr (b, e) ↦ (b, e, ground arith)
      ]

  IsHole-gap : IsHole → next ≡ gap from
  unfolding next_step uncovered_step
  IsHole-gap h = ground arith

  -- The planner reports a gap exactly at a configured hole, and then at the cursor: the request is
  -- not finished, the fleet's view has no ids of the block but has ids that begin at or below it
  -- and ids above it or a live tail, and every archive has reported or declared its range.
  pub next_step-gap_iff : (b : ℕ) → (next ≡ gap b) ↔ ((b ≡ from) × IsHole)
  next_step-gap_iff b = (gap-IsHole b, λ h. IsHole-gap h.1 ∙ ap gap (sym h.0))

  -- In a view whose coverage is that of its upstreams, no gap is reported at a cursor whose block
  -- an enabled known upstream of the view covers.
  pub covered-not-gap :
      (u : UpstreamView) (b : ℕ)
      → IsSticky v
      → In u v.upstreams
      → (u.enabled && u.known) ≡ true
      → covers_ids u from ≡ true
      → next ≢ gap b
  unfolding covers_ids
  covered-not-gap u b ok i e c g =
      let hidden : known_by v.upstreams all_logs from ≡ false =
        sym (ok.on_ids from) ∙ (gap-IsHole b g).1.uncovered in
      let missed =
        any-false_of_In
          (λ (w : UpstreamView). (w.enabled && w.known) && any (λ log. covers w log from) all_logs)
          v.upstreams u i hidden in
      ground arith

  -- The gate that archives wait for has reached the cursor.
  abbrev pub GateOpen : Type 0
  GateOpen =
      (g : BlockPos) × ((if sh.irreversible_only then tip.1 else tip.0) ≡ some g) × (from ≤ g.num)

  gated_end-open :
      (u : UpstreamView) (run : ℕ) → GateOpen → (e : ℕ) × (gated_end u tip sh from run ≡ some e)
  unfolding gated_end gate_of gate_end
  gated_end-open u run (g, h, k) = elim (Bool-cases (is_frozen u.role)) [
    | inl f ↦ (min run (saturating_add g.num 1), ground arith)
    | inr f ↦ (run, ground arith)
  ]

  serve_best-serves :
      (r : Ranked)
      → GateOpen
      → r.up.online ≡ true
      → full own r.up ≡ false
      → (s : ServeStep) × (serve_best v tip sh from own allow_offline r ≡ serve s)
  unfolding serve_best
  serve_best-serves r g on room =
      let (e, h) = gated_end-open r.up r.run g in
      (
        record {
          up = r.up.index;
          endpoint = r.up.endpoint;
          role = r.up.role;
          start = from;
          req_end = e;
        },
        ground arith,
      )

  -- With an online and fresh candidate that has room, and the gate at or above the cursor, a
  -- session whose block the fleet knows is served: it neither holds nor waits.
  pub next_step-serves :
      (w : UpstreamView)
      → In w v.upstreams
      → candidate v w sh from ex now ≡ true
      → w.online ≡ true
      → (w.stale || lagging_for v w from lag) ≡ false
      → full own w ≡ false
      → GateOpen
      → from < sh.end
      → is_below v from ≡ false
      → has v.ids from ≡ true
      → (s : ServeStep) × (next ≡ serve s)
  unfolding next_step choose
  next_step-serves w i c on fresh room g h above known =
      elim (Option-cases (best_of v sh from ex own sid pol lag now)) [
        | inl none_best ↦ absurd (best_of-exists v sh from ex own sid pol lag now w i c none_best)
        | inr (r, best) ↦
            let p =
              (best_of-prefers v sh from ex own sid pol lag now r w best i c).2 on (ap not fresh)
                room in
            let (s, e) = serve_best-serves r g p.0 p.2 in (s, ground arith)
      ]
