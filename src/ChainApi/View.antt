-- ===== src/ChainApi/View.antt =====
-- src/chain_api/pick.rs: what is known of one upstream API at the time of a request, and the orders
-- of candidates.
use Prim.Native.Nat.Ordering.{lt, eq, gt}
use fleet_router.Prelude.{
  ℕ, ◌*◌, ◌/◌, ◌^◌, max, compare, Ordering, Bool, true, false, not, ◌&&◌, List, Option, none, some,
  ltb, if◌then◌else◌, is_some_and, is_none_or, any, text_eq,
}
use fleet_router.Prelude.Ranking.{then_with}
use fleet_router.Ship.{Range, contains}
use fleet_router.Models.{Role, is_live, is_frozen}
use fleet_router.Fleet.Request.{rendezvous}

pub record ApiView : Type 0 where
  pub index : ℕ
  pub endpoint : List ℕ
  pub role : Role
  pub priority : ℕ
  pub weight : ℕ
  pub up : Bool
  pub busy : Bool
  pub in_flight : ℕ
  pub full : Bool
  pub apis : Option (List (List ℕ))
  pub head : Option ℕ
  pub lib : Option ℕ
  pub earliest : Option ℕ
  pub verified : Bool
  pub blocks : Option Range
  pub declared : Option Range

unfoldable pub lists : ApiView → List ℕ → Bool
lists a path = elim a.apis [ none ↦ is_live a.role | some apis ↦ any (λ p. text_eq p path) apis ]

-- Up, not busy, and serving `path`.
unfoldable pub usable : ApiView → List ℕ → Bool
usable a path = a.up && not a.busy && lists a path

unfoldable pub archives : ApiView → ℕ → Bool
archives a n = is_frozen a.role && a.verified && is_some_and (λ r. contains r n) a.blocks

-- Its Unknown Block for an id of block `n` is the answer.
unfoldable pub holds_id : ApiView → ℕ → Bool
holds_id a n = archives a n && is_none_or (λ (d : Range). ltb n d.end) a.declared

unfoldable pub claims : ApiView → ℕ → Bool
claims a n =
    if is_frozen a.role
    then elim a.blocks [
      | none ↦ is_some_and (λ r. contains r n) a.declared
      | some blocks ↦
          if a.verified then contains blocks n else is_some_and (λ r. contains r n) a.declared
    ]
    else false

-- Weighted least load, compared without dividing.
unfoldable pub by_load : ApiView → ApiView → Ordering
by_load a b =
    let wa = max a.weight 1 in
    let wb = max b.weight 1 in
    then_with (compare (a.in_flight * wb) (b.in_flight * wa)) (compare wb wa)

-- `Ord` of `bool` and of `Option`.
abbrev pub bool_cmp : Bool → Bool → Ordering
bool_cmp false true = lt
bool_cmp true false = gt
bool_cmp _ _ = eq

abbrev pub option_cmp : Option ℕ → Option ℕ → Ordering
option_cmp none none = eq
option_cmp none (some b) = lt
option_cmp (some a) none = gt
option_cmp (some a) (some b) = compare a b

-- The order inside a tier of candidates for block `n`.
unfoldable pub tier_cmp : ℕ → ApiView → ApiView → Ordering
tier_cmp n a b =
    let chunk = n / 2 ^ 12 in
    then_with (bool_cmp a.full b.full) (
      then_with (compare a.priority b.priority) (
        then_with (by_load a b) (
          then_with (compare (rendezvous chunk b.endpoint) (rendezvous chunk a.endpoint))
            (compare a.index b.index))))
