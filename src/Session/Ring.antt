-- ===== src/Session/Ring.antt =====
-- src/session/client.rs: `DeliveredRing`, the reversible blocks that a session has delivered. The
-- deque is the list of its entries, front first; where it wraps round in memory does not show.
-- `get` finds an entry by its number as the binary search of the code does, whose slices are
-- sorted by number with no number twice.
pub mod Laws
pub mod Tail
use mathlib.Core.List.{reverse}
use mathlib.Core.Option
use fleet_router.Prelude.{
  ℕ, Bool, ◌&&◌, List, [], ◌∷◌, ◌++◌, Option, none, some, leb, ltb, ◌==◌, if◌then◌else◌, is_nil,
  filter, find, take, length,
}
use fleet_router.Ship.{BlockPos}

abbrev pub delivered_cap : ℕ
delivered_cap = 4096

-- The loop that pops entries at the back while their number is `n` or more.
unfoldable pub truncate_from : List BlockPos → ℕ → List BlockPos
truncate_from [] n = []
truncate_from (x ∷ xs) n =
    let rest = truncate_from xs n in if is_nil rest && leb n x.num then [] else x ∷ rest

-- The loop that pops entries at the front while they are irreversible, but not the last one.
unfoldable pub prune_front : List BlockPos → Option BlockPos → List BlockPos
prune_front xs none = xs
prune_front [] (some lib) = []
prune_front (x ∷ []) (some lib) = x ∷ []
prune_front (x ∷ y ∷ ys) (some lib) =
    let rest = prune_front (y ∷ ys) (some lib) in if leb x.num lib.num then rest else x ∷ y ∷ ys

-- The loop that pops entries at the front while there are too many.
unfoldable pub cap_front : ℕ → List BlockPos → List BlockPos
cap_front cap [] = []
cap_front cap (x ∷ xs) =
    let rest = cap_front cap xs in if ltb cap (length (x ∷ xs)) then rest else x ∷ xs

unfoldable pub push : List BlockPos → BlockPos → Option BlockPos → List BlockPos
push buf p lib = cap_front delivered_cap (prune_front (truncate_from buf p.num ++ p ∷ []) lib)

unfoldable pub get : List BlockPos → ℕ → Option (List ℕ)
get buf n = Option.map (λ (p : BlockPos). p.id) (find (λ p. p.num == n) buf)

abbrev pub in_window : ℕ → ℕ → BlockPos → Bool
in_window lib below p = ltb lib p.num && ltb p.num below

unfoldable pub reversible_tail : List BlockPos → ℕ → ℕ → ℕ → List BlockPos
reversible_tail buf lib below limit =
    reverse (take limit (filter (in_window lib below) (reverse buf)))
