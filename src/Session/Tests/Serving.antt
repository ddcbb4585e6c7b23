-- ===== src/Session/Tests/Serving.antt =====
-- A client that has the irreversible blocks up to 499 from an archive, and the results after them.
use fleet_router.Prelude.{
  ℕ, ◌≤◌, ◌≡◌, refl, true, false, List, [], ◌∷◌, Option, none, some, arith, length, In, unwrap_or,
  subst, is_some, ltb, leb, bool_eq, ◌⊎◌, ◌||◌, ◌<◌,
}
use fleet_router.Prelude.Words.{le_bytes}
use fleet_router.Ship.{BlockPos}
use fleet_router.Models.{Role, frozen}
use fleet_router.Wire.{BlocksRequest, ResultHead}
use fleet_router.Wire.Reader.Yields.{IsPos, IsU32, pos_bytes}
use fleet_router.Wire.Reply.Head.{
  BlockResult, IsWellFormed, IsOptionalPos, frame_of, head_of, optional_bytes_of, result_index,
}
use fleet_router.Session.Failover.{discontinuity}
use fleet_router.Session.Ring.{delivered_cap, push}
use fleet_router.Session.Ring.Laws.{IsRing, IsLast, push-IsRing}
use fleet_router.Session.Mirror.{ClientSide, fresh_client, head_lib_for, last_irreversible}
use fleet_router.Session.Mirror.Laws.{IsMirror, NumLe, shown, head_lib_for-monotone}
use fleet_router.Session.Link.{LinkState, LinkReq, handoff, exact, resumes}
use fleet_router.Session.Judge.{
  Forward, forward, block, judge, nothing, classify_result, check_frozen, check_place, check_seam,
  must_continue, breaks,
}
use fleet_router.Session.Judge.Frozen.{judge-frozen_next}
use fleet_router.Session.Outgoing.{outgoing}
use fleet_router.Session.Outgoing.Frames.{IsSendable, served, outgoing-frame}
use fleet_router.Fleet.Tests.{view}
use fleet_router.Wire.Reply.{read_head_lib}
use fleet_router.Session.Status.{RouterStatus, zeros, router_status}
use fleet_router.Session.Status.Reply.{router_status-monotone}
use fleet_router.Session.Status.Queue.{
  asked, driven, link_lost, status_run, no_history, IsOrdered, status_run-IsOrdered,
}

abbrev bytes_of : ℕ → List ℕ
bytes_of n =
    n ∷ n ∷ n ∷ n ∷ n ∷ n ∷ n ∷ n ∷ n ∷ n ∷ n ∷ n ∷ n ∷ n ∷ n ∷ n ∷ n ∷ n ∷ n ∷ n ∷ n ∷ n ∷ n ∷ n
    ∷ n ∷ n ∷ n ∷ n ∷ n ∷ n ∷ n ∷ n ∷ []

abbrev position : ℕ → BlockPos
position n = record { num = n; id = bytes_of n }

position-IsPos : (n : ℕ) → n ≤ 1000 → IsPos (position n)
unfolding IsPos IsU32
position-IsPos n h = (omega arith, refl)

abbrev creq : BlocksRequest
creq = record {
  v1 = false;
  start = 400;
  end = 900;
  max_in_flight = 50;
  have_positions = [];
  irreversible_only = false;
  fetch_block = true;
  fetch_traces = true;
  fetch_deltas = false;
  fetch_finality_data = false;
}

abbrev client : ClientSide
client = record fresh_client {
  req = some creq;
  credit = 5;
  cursor = 500;
  delivered_for_request = 100;
  head_sent = some (position 950);
  lib_sent = some (position 940);
  delivered = position 499 ∷ [];
  irr_hwm = some 499;
  last = some (position 499);
}

client-IsMirror : IsMirror client
client-IsMirror = record {
  credit_fits = omega arith;
  ring = record { ascending = (tt, tt); within = omega arith };
  lib_within = omega arith;
  irreversible = omega arith;
}

abbrev lr : LinkReq
lr = record {
  start = 500;
  end = 800;
  clamped = true;
  irreversible_only = false;
  purpose = handoff;
  sent_at = 0;
}

-- A link that was just handed the cursor.
abbrev linked : Role → LinkState
linked role = record {
  up = 0;
  role = role;
  req = some lr;
  up_cursor = exact 500;
  first_result_pending = true;
  resume_floor = none;
  expect_ids_from = 500;
  keepalives_seen = 0;
  last_head = none;
  last_lib = none;
  close_code = none;
  unknown_forwarded_at = none;
  became_owed_at = 0;
  was_owed = false;
  stall_recheck = none;
  stall_kept = none;
  frames = 0;
  linger_until = none;
  ping_at = none;
  probe_until = none;
  data_ms = 0;
  pong_ms = none;
  upstream_online = true;
  blockless_checked = none;
}

abbrev next_head : ResultHead
next_head = record {
  v1 = false;
  head = position 799;
  lib = position 799;
  this_block = some (position 500);
  prev_block = some (position 499);
  fields_at = 0;
}

abbrev taken : Forward
taken = record {
  cls = record { n = some 500; advance = true; kind = block };
  fork = false;
  jump = false;
  discontinuity = false;
  variant_mismatch = false;
  no_block = false;
}

next_taken :
    judge client (linked frozen) creq lr next_head (λ n. nothing) (λ k. true) ≡ forward taken
unfolding judge check_frozen classify_result check_place check_seam breaks must_continue resumes
next_taken = refl

judge-frozen_next_example :
    (taken.cls.n ≡ some 500)
    × (taken.cls.advance ≡ true)
    × (taken.fork ≡ false)
    × (taken.jump ≡ false)
    × (taken.discontinuity ≡ false)
    × (bool_eq false false ≡ true)
    × (0 < 5)
    × (is_some next_head.this_block || ltb 500 500 ≡ true)
judge-frozen_next_example =
    judge-frozen_next client (linked frozen) creq lr next_head (λ n. nothing) (λ k. true) taken refl
      next_taken

-- A node that starts three blocks late.
abbrev late_head : ResultHead
late_head = record next_head { this_block = some (position 503); prev_block = some (position 502) }

head_lib_for-monotone_example :
    let (c', out) =
      head_lib_for client frozen
        (position 799)
        (position 799)
        (some (position 960, position 930))
        true in
    IsMirror c'
    × NumLe client.head_sent c'.head_sent
    × NumLe client.lib_sent c'.lib_sent
    × NumLe c'.lib_sent c'.head_sent
    × (true ≡ true
        → (c'.head_sent ≡ some (shown out (position 799, position 799)).0)
          × (c'.lib_sent ≡ some (shown out (position 799, position 799)).1))
head_lib_for-monotone_example =
    head_lib_for-monotone client frozen (position 799) (position 799)
      (some (position 960, position 930)) true client-IsMirror

-- The archive's result for block 500, without its previous block.
abbrev result : BlockResult
result = record {
  v1 = false;
  head = position 799;
  lib = position 799;
  this_block = some (position 500);
  prev_block = none;
  payload = 0 ∷ 0 ∷ 0 ∷ [];
}

result-IsWellFormed : IsWellFormed result
unfolding IsOptionalPos
result-IsWellFormed = record {
  head = position-IsPos 799 (omega arith);
  lib = position-IsPos 799 (omega arith);
  this_block = position-IsPos 500 (omega arith);
  prev_block = tt;
}

abbrev tip : Option (BlockPos × BlockPos)
tip = some (position 960, position 930)

some-position : (n : ℕ) → n ≤ 1000 → (p : BlockPos) → some (position n) ≡ some p → IsPos p
some-position n h p e = subst IsPos (cc) (position-IsPos n h)

client-IsSendable : IsSendable client tip
unfolding last_irreversible
client-IsSendable = record {
  head_sent = some-position 950 (omega arith);
  lib_sent = some-position 940 (omega arith);
  last = some-position 499 (omega arith);
  tip = λ t e.
      subst (λ (t : BlockPos × BlockPos). IsPos t.0 × IsPos t.1) (cc)
        (position-IsPos 960 (omega arith), position-IsPos 930 (omega arith));
}

outgoing-frame_example :
    let (c', out) = outgoing client frozen (frame_of result) (head_of result) tip true in
    ((h : BlockPos) × (l : BlockPos) × (c'.head_sent ≡ some h)
      × (c'.lib_sent ≡ some l)
      × (out ≡ frame_of (served frozen client result h l)))
    × NumLe client.head_sent c'.head_sent
    × NumLe client.lib_sent c'.lib_sent
    × NumLe c'.lib_sent c'.head_sent
unfolding frame_of pos_bytes optional_bytes_of le_bytes result_index
outgoing-frame_example =
    outgoing-frame result client frozen tip result-IsWellFormed (omega arith) client-IsMirror
      client-IsSendable

push-IsRing_example :
    IsRing (push (position 499 ∷ []) (position 500) (some (position 499)))
    × IsLast (position 500) (push (position 499 ∷ []) (position 500) (some (position 499)))
    × ((q : BlockPos)
        → In q (push (position 499 ∷ []) (position 500) (some (position 499)))
        → (q ≡ position 500) ⊎ (In q (position 499 ∷ []) × (q.num < 500)))
    × ((q : BlockPos)
        → In q (position 499 ∷ [])
        → q.num < 500
        → leb q.num 499 ≡ false
        → 1 < delivered_cap
        → In q (push (position 499 ∷ []) (position 500) (some (position 499))))
push-IsRing_example =
    push-IsRing (position 499 ∷ []) (position 500) (some (position 499)) client-IsMirror.ring

abbrev ring : List BlockPos
ring = position 490 ∷ position 495 ∷ position 499 ∷ []

ring-IsRing : IsRing ring
ring-IsRing = record {
  ascending = ((omega arith, (omega arith, tt)), ((omega arith, tt), (tt, tt)));
  within = omega arith;
}

-- Two requests: the first is relayed and lost with its link, and both are answered by the router.
status_run-IsOrdered_example : IsOrdered (
    status_run
      (asked true 10 100
        ∷ driven false true
        ∷ asked false 20 100
        ∷ link_lost 30 100
        ∷ driven true false
        ∷ driven true false
        ∷ [])
      no_history)
status_run-IsOrdered_example = status_run-IsOrdered (
    asked true 10 100
    ∷ driven false true
    ∷ asked false 20 100
    ∷ link_lost 30 100
    ∷ driven true false
    ∷ driven true false
    ∷ [])

view-chain_id : length (unwrap_or (zeros 32) view.chain_id) ≡ 32
unfolding view zeros
view-chain_id = refl

router_status-monotone_example :
    let (c', out) = router_status view (some (position 960), some (position 930)) client false in
    IsMirror c'
    × NumLe client.head_sent c'.head_sent
    × NumLe client.lib_sent c'.lib_sent
    × NumLe c'.lib_sent c'.head_sent
    × ((s : RouterStatus) × (h : BlockPos) × (l : BlockPos) × (out ≡ some s)
        × (c'.head_sent ≡ some h)
        × (c'.lib_sent ≡ some l)
        × (read_head_lib s.bytes ≡ some (h, l)))
router_status-monotone_example =
    router_status-monotone view (position 960) (position 930) client false client-IsMirror
      (position-IsPos 960 (omega arith)) (position-IsPos 930 (omega arith))
      (some-position 950 (omega arith)) (some-position 940 (omega arith)) view-chain_id
