-- ===== src/ChainApi/Attempt.antt =====
-- src/chain_api/pick.rs: the next attempt of a request, and what an attempt's answer leads to.
-- `error_code` reads `error.code` of a JSON body: `serde_json`, with the shape that the code asks
-- for.
use mathlib.Core.List.{reverse}
use fleet_router.Prelude.{
  ℕ, ◌*◌, Bool, true, false, not, ◌&&◌, ◌||◌, List, [], ◌∷◌, Option, none, some, leb, ◌==◌,
  if◌then◌else◌, is_some_and, is_none_or, any, filter, find, head?,
}
use fleet_router.Prelude.Int.{ℤ, pos, negsuc}
use fleet_router.Models.{Role, is_live}
use fleet_router.ChainApi.Plan.{Region, irreversible, reversible}

pub data NextAttempt : Type 0 where
  try wait : (index : ℕ) → NextAttempt
  exhausted : NextAttempt

abbrev pub has : List ℕ → ℕ → Bool
has is i = any (λ j. j == i) is

unfoldable pub next_of : List ℕ → (ℕ → Bool) → NextAttempt
next_of [] full = exhausted
next_of (first ∷ rest) full =
    if not (full first)
    then try first
    else elim (find (λ i. not (full i)) rest) [ none ↦ wait first | some i ↦ try i ]

unfoldable pub next_attempt : List ℕ → List ℕ → (ℕ → Bool) → NextAttempt
unfolding next_of
next_attempt order tried full = next_of (filter (λ i. not (has tried i)) order) full

pub data RetryReason : Type 0 where
  unknown_block absent busy connect timeout error : RetryReason

abbrev pub is_unknown : RetryReason → Bool
is_unknown unknown_block = true
is_unknown absent = false
is_unknown busy = false
is_unknown connect = false
is_unknown timeout = false
is_unknown error = false

unfoldable pub marks_down : RetryReason → Bool
marks_down connect = true
marks_down timeout = true
marks_down unknown_block = false
marks_down absent = false
marks_down busy = false
marks_down error = false

unfoldable pub marks_busy : RetryReason → Bool
marks_busy busy = true
marks_busy unknown_block = false
marks_busy absent = false
marks_busy connect = false
marks_busy timeout = false
marks_busy error = false

pub data Answer : Type 0 where
  no_connection no_head : Answer
  response : (status : ℕ) (body : Option (List ℕ)) → Answer

pub data Outcome : Type 0 where
  final : Outcome
  next : (reason : RetryReason) (keep : Bool) → Outcome

abbrev pub is_irreversible : Region → Bool
is_irreversible irreversible = true
is_irreversible reversible = false

abbrev pub peek_limit : ℕ
peek_limit = 64 * 1024

unfoldable pub needs_peek : Region → ℕ → Option ℕ → Bool
needs_peek region status content_length =
    is_irreversible region
    && (status == 400 || status == 404)
    && is_none_or (λ len. leb len peek_limit) content_length

abbrev pub unknown_block_code : ℕ
unknown_block_code = 3_100_002

is_code : ℕ → ℤ → Bool
is_code code (pos c) = c == code
is_code code (negsuc c) = false

module _ (error_code : List ℕ → Option ℤ) where
  unfoldable pub is_unknown_block : List ℕ → Bool
  unfolding is_code
  is_unknown_block body = is_some_and (is_code unknown_block_code) (error_code body)

  unfoldable pub classify_body : ℕ → Option (List ℕ) → Outcome
  classify_body status none = final
  classify_body status (some body) =
      if status == 400 && is_unknown_block body
      then next unknown_block true
      else if status == 404
      then next absent true
      else final

  unfoldable pub classify : Region → Answer → Outcome
  unfolding classify_body
  classify region no_connection = next connect false
  classify region no_head = next timeout false
  classify region (response status body) =
      if status == 503
      then next busy false
      else if is_irreversible region
      then classify_body status body
      else final

unfoldable pub keeps : RetryReason → Bool → Bool
keeps reason claimed = not (claimed && is_unknown reason)

unfoldable pub settles : RetryReason → Bool → Bool
settles reason id_holder = id_holder && is_unknown reason

-- The last kept answer of a live API, else the last.
unfoldable pub last_kept : {A : Type 0} → List (Role × A) → Option A
last_kept {A} kept = elim (find (λ (k : Role × A). is_live k.0) (reverse kept)) [
  | some k ↦ some k.1
  | none ↦ elim (head? (reverse kept)) [ none ↦ none | some k ↦ some k.1 ]
]
