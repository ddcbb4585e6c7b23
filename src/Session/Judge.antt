-- ===== src/Session/Judge.antt =====
-- src/session/client.rs: how a block result is classified against the upstream's cursor, what is
-- to be done with it, and what a forwarded result changes. `lacks` and `alternative` are the
-- callbacks of the code: what a frozen result lacks at a block, and whether another upstream could
-- serve a block.
pub mod Rules
pub mod Frozen
pub mod Commit
use fleet_router.Prelude.{
  ℕ, ◌+◌, ◌%◌, ◌^◌, ◌≤◌, min, max, Bool, true, false, not, ◌&&◌, ◌||◌, Option, none, some, leb, ltb,
  ◌==◌, if◌then◌else◌, is_some, is_some_and, text_eq, bool_eq,
}
use fleet_router.Prelude.Words.{u64_mod, saturating_add, checked_add}
use fleet_router.Ship.{BlockPos}
use fleet_router.Wire.{BlocksRequest, ResultHead}
use fleet_router.Models.{Role, live, frozen, is_frozen}
use fleet_router.Session.Failover.{
  UpEnd, violation, uncovered, discontinuity, ViolationKind, idless, gap_above, rewind,
  missing_field, credit, variant, discontinuity_at_seam,
}
use fleet_router.Session.Ring.{truncate_from, push}
use fleet_router.Session.Mirror.{ClientSide, last_irreversible, is_dup}
use fleet_router.Session.Link.{LinkReq, LinkState, UpCursor, exact, uncertain, resumes}

pub data ResultKind : Type 0 where
  block id_less keep_alive id_less_uncertain : ResultKind

abbrev pub is_keep_alive : ResultKind → Bool
is_keep_alive keep_alive = true
is_keep_alive block = false
is_keep_alive id_less = false
is_keep_alive id_less_uncertain = false

pub record Classified : Type 0 where
  pub n : Option ℕ
  pub advance : Bool
  pub kind : ResultKind

-- What lets the upstream send: its LIB for a request of irreversible blocks, else its head.
unfoldable pub gate : ResultHead → LinkReq → ℕ
gate h lr = if lr.irreversible_only then h.lib.num else h.head.num

classify_by : Option BlockPos → UpCursor → ℕ → ℕ → Classified
classify_by (some p) cursor gate end = record { n = some p.num; advance = true; kind = block }
classify_by none (exact u) gate end =
    if leb u gate && ltb u end
    then record { n = some u; advance = true; kind = id_less }
    else record { n = none; advance = false; kind = keep_alive }
classify_by none (uncertain lo hi) gate end = record {
  n = none;
  advance = false;
  kind = id_less_uncertain;
}

unfoldable pub classify_result : ResultHead → UpCursor → LinkReq → Classified
unfolding classify_by gate
classify_result h cursor lr = classify_by h.this_block cursor (gate h lr) lr.end

pub data Lacks : Type 0 where
  nothing no_block_data no_data : Lacks

pub record Forward : Type 0 where
  pub cls : Classified
  pub fork : Bool
  pub jump : Bool
  pub discontinuity : Bool
  pub variant_mismatch : Bool
  pub no_block : Bool

pub data Judgement : Type 0 where
  forward : Forward → Judgement
  duplicate : (advance_to : Option ℕ) → Judgement
  end_link : UpEnd → Judgement

-- A check of a result: a value for the next checks, or the judgement that the function returns
-- early.
pub data Verdict {ℓ} (A : Type ℓ) : Type ℓ where
  pass : A → Verdict A
  stop : Judgement → Verdict A

infixl 5 ◌>>=◌ ◌>>◌
abbrev pub ◌>>=◌ {ℓ κ} : {A : Type ℓ} {B : Type κ} → Verdict A → (A → Verdict B) → Verdict B
pass a >>= f = f a
stop j >>= f = stop j

abbrev pub ◌>>◌ {ℓ} : {B : Type ℓ} → Verdict (Unit {0}) → Verdict B → Verdict B
m >> k = m >>= λ _. k

abbrev pub violates : ViolationKind → Judgement
violates kind = end_link (violation kind)

abbrev pub stop_if : Bool → Judgement → Verdict (Unit {0})
stop_if true j = stop j
stop_if false j = pass tt

abbrev pub judgement_of : Verdict Judgement → Judgement
judgement_of (pass j) = j
judgement_of (stop j) = j

check_lacks : Lacks → Verdict Bool
check_lacks nothing = pass false
check_lacks no_block_data = pass true
check_lacks no_data = stop (violates missing_field)

-- What a frozen result must have, by its kind; whether only its `block` is missing.
check_kind : ResultKind → Option ℕ → ℕ → (ℕ → Lacks) → Verdict Bool
check_kind keep_alive n expect_ids_from lacks = stop (violates idless)
check_kind id_less_uncertain n expect_ids_from lacks = stop (violates idless)
check_kind id_less none expect_ids_from lacks = pass false
check_kind id_less (some n) expect_ids_from lacks =
    if leb expect_ids_from n then stop (violates idless) else pass false
check_kind block none expect_ids_from lacks = pass false
check_kind block (some n) expect_ids_from lacks = check_lacks (lacks n)

unfoldable pub check_frozen :
    Role → BlocksRequest → ResultHead → Classified → ℕ → (ℕ → Lacks) → Verdict Bool
unfolding check_kind check_lacks
check_frozen live creq h cls expect_ids_from lacks = pass false
check_frozen frozen creq h cls expect_ids_from lacks =
    if bool_eq h.v1 creq.v1
    then check_kind cls.kind cls.n expect_ids_from lacks
    else stop (violates variant)

-- A block below the cursor: whether it is a fork.
below_cursor : ClientSide → LinkState → Classified → ℕ → Option BlockPos → Verdict Bool
below_cursor c st cls n this_block =
    if is_some st.resume_floor && is_dup c n this_block
    then stop (duplicate (if cls.advance then some (saturating_add n 1) else none))
    else if is_frozen st.role
    then stop (violates rewind)
    else pass true

-- A block above the cursor: whether it is a jump.
above_cursor : LinkState → Bool → Bool → Verdict Bool
above_cursor st seam elsewhere =
    if is_frozen st.role
    then stop (violates gap_above)
    else if seam && elsewhere
    then stop (end_link uncovered)
    else pass true

-- Where the result stands to the client's cursor: whether it is a fork, and whether a jump.
unfoldable pub check_place :
    ClientSide
    → LinkState
    → Classified
    → Option ℕ
    → Option BlockPos
    → Bool
    → Bool
    → Verdict (Bool × Bool)
unfolding below_cursor above_cursor
check_place c st cls none this_block seam elsewhere = pass (false, false)
check_place c st cls (some n) this_block seam elsewhere =
    if ltb n c.cursor
    then (below_cursor c st cls n this_block >>= λ fork. pass (fork, false))
    else if ltb c.cursor n
    then (above_cursor st seam elsewhere >>= λ jump. pass (false, jump))
    else pass (false, false)

-- The block that the first result of a leg must continue.
unfoldable pub must_continue : ClientSide → LinkState → Bool → Option BlockPos
must_continue c st seam =
    if seam
    then c.last
    else if is_frozen st.role && st.first_result_pending
    then last_irreversible c
    else none

unfoldable pub breaks : Option BlockPos → Option BlockPos → Option BlockPos → Bool
breaks none this prev = false
breaks (some last) none prev = false
breaks (some last) (some this) none = false
breaks (some last) (some this) (some prev) =
    is_some_and (λ next. next == this.num) (checked_add last.num 1) && not (text_eq prev.id last.id)

-- The first result of a leg: whether it is forwarded though it does not continue the last block.
unfoldable pub check_seam : ClientSide → LinkState → ResultHead → Bool → Bool → Verdict Bool
check_seam c st h seam elsewhere =
    if breaks (must_continue c st seam) h.this_block h.prev_block
    then if is_frozen st.role
      then stop (violates discontinuity_at_seam)
      else if (ltb 0 c.delivered_for_request || is_some (last_irreversible c)) && elsewhere
      then stop (end_link discontinuity)
      else pass true
    else pass false

unfoldable pub judge :
    ClientSide
    → LinkState
    → BlocksRequest
    → LinkReq
    → ResultHead
    → (ℕ → Lacks)
    → (ℕ → Bool)
    → Judgement
judge c st creq lr h lacks alternative =
    let cls = classify_result h st.up_cursor lr in
    let seam = st.first_result_pending && resumes lr.purpose in
    let elsewhere = alternative c.cursor in
    judgement_of (do
      no_block ← check_frozen st.role creq h cls st.expect_ids_from lacks
      (fork, jump) ← check_place c st cls cls.n h.this_block seam elsewhere
      broken ← check_seam c st h seam elsewhere
      stop_if (is_frozen st.role && c.credit == 0) (violates credit)
      pass (
          forward (record {
            cls = cls;
            fork = fork;
            jump = jump;
            discontinuity = broken;
            variant_mismatch = not (is_frozen st.role) && not (bool_eq h.v1 creq.v1);
            no_block = no_block;
          })))

-- The cursors and the count of keep-alives after a result.
advance_cursors : Classified → Bool → Option ℕ → ClientSide → LinkState → ClientSide × LinkState
advance_cursors cls true (some n) c st =
    let next = saturating_add n 1 in
    (record c { cursor = next }, record st { up_cursor = exact next })
advance_cursors cls true none c st = (
  c,
  if is_keep_alive cls.kind
      then record st { keepalives_seen = (st.keepalives_seen + 1) % u64_mod }
      else st,
)
advance_cursors cls false n c st = (
  c,
  if is_keep_alive cls.kind
      then record st { keepalives_seen = (st.keepalives_seen + 1) % u64_mod }
      else st,
)

unfoldable pub raise_hwm : ClientSide → BlockPos → Option ℕ
raise_hwm c p =
    if is_some_and (λ (l : BlockPos). leb p.num l.num) c.lib_sent
    then some (elim c.irr_hwm [ none ↦ p.num | some w ↦ max w p.num ])
    else c.irr_hwm

-- The delivered blocks and the high-water mark after a result.
unfoldable pub delivered_to : ClientSide → Option BlockPos → ClientSide
unfolding raise_hwm
delivered_to c none = c
delivered_to c (some p) = record c {
  delivered = push c.delivered p c.lib_sent;
  last = some p;
  irr_hwm = raise_hwm c p;
}

unfoldable pub forked : ClientSide → Forward → ClientSide
forked c fw =
    if fw.fork
    then elim fw.cls.n [ none ↦ c | some n ↦ record c { delivered = truncate_from c.delivered n } ]
    else c

-- Whether the result has reached the floor of the de-dup window.
unfoldable pub floor_after : Option ℕ → Option ℕ → Option ℕ
floor_after none n = none
floor_after (some floor) n = if is_some_and (λ n. leb floor n) n then none else some floor

unfoldable pub commit : ClientSide → LinkState → ResultHead → Forward → ClientSide × LinkState
unfolding advance_cursors delivered_to forked floor_after
commit c st h fw =
    let (c1, st1) = advance_cursors fw.cls fw.cls.advance fw.cls.n (forked c fw) st in
    let c2 = delivered_to c1 h.this_block in
    (
      record c2 { delivered_for_request = (c2.delivered_for_request + 1) % u64_mod },
      record st1 {
        frames = (st1.frames + 1) % u64_mod;
        last_head = some h.head;
        last_lib = some h.lib;
        first_result_pending = false;
        resume_floor = floor_after st1.resume_floor fw.cls.n;
      },
    )
