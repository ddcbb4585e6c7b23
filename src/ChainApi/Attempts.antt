-- ===== src/ChainApi/Attempts.antt =====
-- src/chain_api/mod.rs, `attempts`: the loop over the attempts of one request. A `Turn` is what one
-- pass of the loop meets: the clock, the slots and the upstream's answer. A request whose turns are
-- used up has met its deadline. Counters, permits, and what is noted about an upstream are left
-- out.
pub mod Tried
pub mod Laws
pub mod Refusals
pub mod Exec
use fleet_router.Prelude.{
  ℕ, suc, ◌+◌, Bool, true, false, not, ◌&&◌, ◌||◌, List, [], ◌∷◌, ◌++◌, Option, none, some, leb,
  ltb, if◌then◌else◌, any,
}
use fleet_router.Prelude.Int.{ℤ}
use fleet_router.Models.{Role}
use fleet_router.ChainApi.Plan.{Region, reversible}
use fleet_router.ChainApi.Attempt.{
  try, wait, exhausted, has, next_attempt, response, Outcome, final, next, needs_peek, classify,
  keeps, settles, last_kept,
}

pub data Policy : Type 0 where
  block_policy : (region : Region) (claimed : Bool) (id_holders : List ℕ) → Policy
  state_policy info_policy exec_policy : Policy

abbrev pub is_exec : Policy → Bool
is_exec exec_policy = true
is_exec (block_policy region claimed id_holders) = false
is_exec state_policy = false
is_exec info_policy = false

abbrev pub is_info : Policy → Bool
is_info info_policy = true
is_info (block_policy region claimed id_holders) = false
is_info state_policy = false
is_info exec_policy = false

abbrev pub region_of : Policy → Region
region_of (block_policy region claimed id_holders) = region
region_of state_policy = reversible
region_of info_policy = reversible
region_of exec_policy = reversible

abbrev pub claimed_of : Policy → Bool
claimed_of (block_policy region claimed id_holders) = claimed
claimed_of state_policy = false
claimed_of info_policy = false
claimed_of exec_policy = false

abbrev pub holders_of : Policy → List ℕ
holders_of (block_policy region claimed id_holders) = id_holders
holders_of state_policy = []
holders_of info_policy = []
holders_of exec_policy = []

-- A body that is read to classify it.
pub data Peeked : Type 0 where
  whole : (body : List ℕ) → Peeked
  partial broken late : Peeked

pub data Attempt : Type 0 where
  responded : (status : ℕ) (length : Option ℕ) (peeked : Peeked) → Attempt
  no_connect lost connect_timeout timed_out : Attempt

pub record Turn : Type 0 where
  pub expired : Bool
  pub present : ℕ → Bool
  pub is_full : ℕ → Bool
  pub acquired : Bool
  pub built : Bool
  pub cut_short : Bool
  pub result : Attempt

pub record Buffered : Type 0 where
  pub status : ℕ
  pub body : List ℕ

-- What the client gets: an upstream's answer as it streams, one that was read, a kept one, or Busy.
pub data Reply : Type 0 where
  relayed : (index status : ℕ) → Reply
  answered : (index : ℕ) → Buffered → Reply
  kept_answer : Buffered → Reply
  busy_exhausted busy_lost : Reply

-- The variables of the loop, and the requests that were sent.
pub record Loop : Type 0 where
  pub tried : List ℕ
  pub kept : List (Role × Buffered)
  pub races : ℕ
  pub sent : List (ℕ × Attempt)

abbrev pub new_loop : Loop
new_loop = record { tried = []; kept = []; races = 0; sent = [] }

pub data Pass : Type 0 where
  continue : Loop → Pass
  break : Loop → (lost_after_send : Bool) → Pass
  finish : Loop → Reply → Pass

abbrev pub slot_races : ℕ
slot_races = 16

-- After the loop.
unfoldable pub give_up : Loop → Bool → Reply
give_up s true = busy_lost
give_up s false = elim (last_kept s.kept) [ none ↦ busy_exhausted | some b ↦ kept_answer b ]

module _ (error_code : List ℕ → Option ℤ) (role_of : ℕ → Role) (order : List ℕ)
    (policy : Policy) where
  -- A 400 or 404 that was read whole.
  unfoldable pub on_body : Loop → ℕ → Buffered → Pass
  on_body s i b = elim (classify error_code (region_of policy) (response b.status (some b.body))) [
    | final ↦ finish s (answered i b)
    | next reason keep ↦
        if settles reason (has (holders_of policy) i)
        then finish s (answered i b)
        else continue (
            if keep && keeps reason (claimed_of policy)
            then record s { kept = s.kept ++ (role_of i, b) ∷ [] }
            else s)
  ]

  on_peeked : Loop → ℕ → ℕ → Peeked → Pass
  on_peeked s i status (whole body) = on_body s i (record { status = status; body = body })
  on_peeked s i status partial = finish s (relayed i status)
  on_peeked s i status broken = continue s
  on_peeked s i status late = break s false

  unfoldable pub on_response : Loop → ℕ → ℕ → Option ℕ → Peeked → Pass
  unfolding on_peeked
  on_response s i status length peeked =
      if is_info policy && leb 500 status && any (λ j. not (has s.tried j)) order
      then continue s
      else if is_exec policy
      then finish s (relayed i status)
      else if not (needs_peek (region_of policy) status length)
      then elim (classify error_code (region_of policy) (response status none)) [
        | final ↦ finish s (relayed i status)
        | next reason keep ↦ continue s
      ]
      else on_peeked s i status peeked

  unfoldable pub on_attempt : Loop → ℕ → Bool → Attempt → Pass
  on_attempt s i cut_short (responded status length peeked) = on_response s i status length peeked
  on_attempt s i cut_short no_connect = continue s
  on_attempt s i cut_short lost = if is_exec policy then break s true else continue s
  on_attempt s i cut_short timed_out =
      if is_exec policy then break s true else if cut_short then break s false else continue s
  on_attempt s i cut_short connect_timeout = if cut_short then break s false else continue s

  -- A slot is taken: the upstream is tried.
  unfoldable pub send_to : Turn → Loop → ℕ → Pass
  unfolding on_attempt
  send_to t s i =
      let s1 = record s { tried = s.tried ++ i ∷ [] } in
      if t.built
      then on_attempt (record s1 { sent = s.sent ++ (i, t.result) ∷ [] }) i t.cut_short t.result
      else continue s1

  unfoldable pub pass_once : Turn → Loop → Pass
  unfolding send_to
  pass_once t s =
      if t.expired
      then break s false
      else elim (next_attempt order s.tried (λ i. t.is_full i || not (t.present i))) [
        | exhausted ↦ break s false
        | try i ↦
            if not (t.present i)
            then continue (record s { tried = s.tried ++ i ∷ [] })
            else if t.acquired
            then send_to t s i
            else if ltb s.races slot_races
            then continue (record s { races = s.races + 1 })
            else break s false
        | wait i ↦ if t.present i && t.acquired then send_to t s i else break s false
      ]

  unfoldable pub attempts : List Turn → Loop → Loop × Reply
  unfolding pass_once
  attempts [] s = (s, give_up s false)
  attempts (t ∷ ts) s = elim (pass_once t s) [
    | continue s ↦ attempts ts s
    | break s after ↦ (s, give_up s after)
    | finish s reply ↦ (s, reply)
  ]
