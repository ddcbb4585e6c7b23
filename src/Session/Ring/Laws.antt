-- ===== src/Session/Ring/Laws.antt =====
-- The entries of the ring ascend, there are at most `DELIVERED_CAP`, and what was pushed is found.
use fleet_router.Prelude.{
  ℕ, ◌≤◌, ◌<◌, ◌≡◌, refl, sym, ◌⊎◌, inl, inr, ◌↔◌, false, ◌&&◌, List, [], ◌∷◌, ◌++◌, Option, none,
  some, arith, leb, ltb, if◌then◌else◌, is_nil, All, In, All-In, All_of_In, In-append,
  In-append_left, In-append_right, length, length-append, Bool-cases, find, ◌==◌, subst, ap,
  is_some_and,
}
use fleet_router.Ship.{BlockPos}
use fleet_router.Session.Ring.{delivered_cap, truncate_from, prune_front, cap_front, push, get}

-- Each entry has a lower number than those behind it.
abbrev pub IsAscending : List BlockPos → Type 0
IsAscending [] = Unit {0}
IsAscending (x ∷ xs) = All (λ y. x.num < y.num) xs × IsAscending xs

pub record IsRing (buf : List BlockPos) : Type 0 where
  pub ascending : IsAscending buf
  pub within : length buf ≤ delivered_cap

truncate-In : (xs : List BlockPos) (n : ℕ) (q : BlockPos) → In q (truncate_from xs n) → In q xs
unfolding truncate_from
truncate-In [] n q i = i
truncate-In (x ∷ xs) n q i = ground (arith, truncate-In xs n q)

truncate-All :
    (P : BlockPos → Type 0) (xs : List BlockPos) (n : ℕ) → All P xs → All P (truncate_from xs n)
truncate-All P xs n a = All_of_In P _ (λ q i. All-In P xs q (truncate-In xs n q i) a)

truncate-ascending :
    (xs : List BlockPos) (n : ℕ) → IsAscending xs → IsAscending (truncate_from xs n)
unfolding truncate_from
truncate-ascending [] n a = tt
truncate-ascending (x ∷ xs) n a = elim (Bool-cases (is_nil (truncate_from xs n) && leb n x.num)) [
  | inl e ↦ rw e tt
  | inr e ↦ rw e (truncate-All (λ y. x.num < y.num) xs n a.0, truncate-ascending xs n a.1)
]

-- What is left when an entry is kept below: nothing of the tail stands at `n` or above.
truncate-below :
    (xs : List BlockPos) (n : ℕ) → IsAscending xs → All (λ y. y.num < n) (truncate_from xs n)
unfolding truncate_from
truncate-below [] n a = tt
truncate-below (x ∷ xs) n a =
    below (truncate_from xs n) (truncate-All (λ y. x.num < y.num) xs n a.0)
      (truncate-below xs n a.1)
  where
    below :
        (rest : List BlockPos)
        → All (λ y. x.num < y.num) rest
        → All (λ y. y.num < n) rest
        → All (λ y. y.num < n) (if is_nil rest && leb n x.num then [] else x ∷ rest)
    below [] above b = ground arith
    below (y ∷ ys) above b = (omega arith, b)

truncate-keeps :
    (xs : List BlockPos) (n : ℕ) (q : BlockPos) → In q xs → q.num < n → In q (truncate_from xs n)
unfolding truncate_from
truncate-keeps [] n q i h = i
truncate-keeps (x ∷ xs) n q (inl e) h = ground arith
truncate-keeps (x ∷ xs) n q (inr i) h = present (truncate_from xs n) (truncate-keeps xs n q i h)
  where
    present :
        (rest : List BlockPos)
        → In q rest
        → In q (if is_nil rest && leb n x.num then [] else x ∷ rest)
    present [] j = elim j [ ]
    present (y ∷ ys) j = inr j

truncate_length : (xs : List BlockPos) (n : ℕ) → length (truncate_from xs n) ≤ length xs
unfolding truncate_from
truncate_length [] n = omega arith
truncate_length (x ∷ xs) n = ground (arith, truncate_length xs n)

-- Truncating keeps exactly the entries below `n`, and leaves a ring.
pub truncate_from-IsRing :
    (buf : List BlockPos) (n : ℕ)
    → IsRing buf
    → IsRing (truncate_from buf n)
      × ((q : BlockPos) → In q (truncate_from buf n) ↔ (In q buf × (q.num < n)))
truncate_from-IsRing buf n r = (
  record {
    ascending = truncate-ascending buf n r.ascending;
    within = omega (arith, truncate_length buf n, r.within);
  },
  λ q. (
    λ i. (truncate-In buf n q i, All-In (λ y. y.num < n) _ q i (truncate-below buf n r.ascending)),
    λ h. truncate-keeps buf n q h.0 h.1,
  ),
)

append-ascending :
    (xs : List BlockPos) (p : BlockPos)
    → IsAscending xs
    → All (λ y. y.num < p.num) xs
    → IsAscending (xs ++ p ∷ [])
append-ascending [] p a b = (tt, tt)
append-ascending (x ∷ xs) p a b = (above xs a.0, append-ascending xs p a.1 b.1)
  where
    above :
        (ys : List BlockPos) → All (λ y. x.num < y.num) ys → All (λ y. x.num < y.num) (ys ++ p ∷ [])
    above [] c = (b.0, tt)
    above (y ∷ ys) c = (c.0, above ys c.1)

-- `ys` is what is left of `xs` when entries are taken from its front.
abbrev pub IsTail : List BlockPos → List BlockPos → Type 0
IsTail ys xs = (front : List BlockPos) × (xs ≡ front ++ ys)

prune-IsTail : (xs : List BlockPos) (lib : Option BlockPos) → IsTail (prune_front xs lib) xs
unfolding prune_front
prune-IsTail xs none = ([], refl)
prune-IsTail [] (some lib) = ([], refl)
prune-IsTail (x ∷ []) (some lib) = ([], refl)
prune-IsTail (x ∷ y ∷ ys) (some lib) = elim (Bool-cases (leb x.num lib.num)) [
  | inl e ↦ let (front, same) = prune-IsTail (y ∷ ys) (some lib) in (x ∷ front, rw e (cc))
  | inr e ↦ ([], rw e refl)
]

cap-IsTail : (cap : ℕ) (xs : List BlockPos) → IsTail (cap_front cap xs) xs
unfolding cap_front
cap-IsTail cap [] = ([], refl)
cap-IsTail cap (x ∷ xs) = elim (Bool-cases (ltb cap (length (x ∷ xs)))) [
  | inl e ↦ let (front, same) = cap-IsTail cap xs in (x ∷ front, rw e (cc))
  | inr e ↦ ([], rw e refl)
]

cap_length : (cap : ℕ) (xs : List BlockPos) → length (cap_front cap xs) ≤ cap
unfolding cap_front
cap_length cap [] = omega arith
cap_length cap (x ∷ xs) = ground (arith, cap_length cap xs)

pub Tail-ascending : (ys front : List BlockPos) → IsAscending (front ++ ys) → IsAscending ys
Tail-ascending ys [] a = a
Tail-ascending ys (x ∷ front) a = Tail-ascending ys front a.1

Tail-In : (ys front : List BlockPos) (q : BlockPos) → In q ys → In q (front ++ ys)
Tail-In ys front q i = In-append_right front ys q i

abbrev pub IsLast : BlockPos → List BlockPos → Type 0
IsLast p [] = ⊥
IsLast p (x ∷ []) = x ≡ p
IsLast p (x ∷ y ∷ ys) = IsLast p (y ∷ ys)

IsLast-append : (xs : List BlockPos) (p : BlockPos) → IsLast p (xs ++ p ∷ [])
IsLast-append [] p = refl
IsLast-append (x ∷ []) p = refl
IsLast-append (x ∷ y ∷ ys) p = IsLast-append (y ∷ ys) p

pub IsLast-In : (xs : List BlockPos) (p : BlockPos) → IsLast p xs → In p xs
IsLast-In [] p l = l
IsLast-In (x ∷ []) p l = inl (sym l)
IsLast-In (x ∷ y ∷ ys) p l = inr (IsLast-In (y ∷ ys) p l)

prune-IsLast :
    (xs : List BlockPos) (p : BlockPos) (lib : Option BlockPos)
    → IsLast p xs
    → IsLast p (prune_front xs lib)
unfolding prune_front
prune-IsLast xs p none l = l
prune-IsLast [] p (some lib) l = l
prune-IsLast (x ∷ []) p (some lib) l = l
prune-IsLast (x ∷ y ∷ ys) p (some lib) l = elim (Bool-cases (leb x.num lib.num)) [
  | inl e ↦ rw e (prune-IsLast (y ∷ ys) p (some lib) l)
  | inr e ↦ rw e l
]

cap-IsLast :
    (cap : ℕ) (xs : List BlockPos) (p : BlockPos)
    → 0 < cap
    → IsLast p xs
    → IsLast p (cap_front cap xs)
unfolding cap_front
cap-IsLast cap [] p h l = l
cap-IsLast cap (x ∷ []) p h l = elim (Bool-cases (ltb cap (length (x ∷ [])))) [
  | inl e ↦ absurd (ground arith)
  | inr e ↦ rw e l
]
cap-IsLast cap (x ∷ y ∷ ys) p h l = elim (Bool-cases (ltb cap (length (x ∷ y ∷ ys)))) [
  | inl e ↦ rw e (cap-IsLast cap (y ∷ ys) p h l)
  | inr e ↦ rw e l
]

prune-keeps :
    (xs : List BlockPos) (lib : Option BlockPos) (q : BlockPos)
    → In q xs
    → is_some_and (λ (l : BlockPos). leb q.num l.num) lib ≡ false
    → In q (prune_front xs lib)
unfolding prune_front
prune-keeps xs none q i h = i
prune-keeps [] (some lib) q i h = i
prune-keeps (x ∷ []) (some lib) q i h = i
prune-keeps (x ∷ y ∷ ys) (some lib) q i h = ground (arith, prune-keeps (y ∷ ys) (some lib) q)

cap_keeps : (cap : ℕ) (xs : List BlockPos) → length xs ≤ cap → cap_front cap xs ≡ xs
unfolding cap_front
cap_keeps cap [] h = refl
cap_keeps cap (x ∷ xs) h = ground arith

module _ (buf : List BlockPos) (p : BlockPos) (lib : Option BlockPos) (r : IsRing buf) where
  abbrev joined : List BlockPos
  joined = truncate_from buf p.num ++ p ∷ []

  joined-ascending : IsAscending joined
  joined-ascending =
      append-ascending _ p (truncate-ascending buf p.num r.ascending)
        (truncate-below buf p.num r.ascending)

  joined-In : (q : BlockPos) → In q joined → (q ≡ p) ⊎ (In q buf × (q.num < p.num))
  joined-In q i = elim (In-append (truncate_from buf p.num) (p ∷ []) q i) [
    | inl j ↦ inr (((truncate_from-IsRing buf p.num r).1 q).0 j)
    | inr (inl e) ↦ inl e
    | inr (inr none_left) ↦ elim none_left [ ]
  ]

  -- Delivering `p` leaves a ring that ends in it; all else in it was in the ring, below `p`; and
  -- what was there below `p` and above the LIB stays, while the ring is not full.
  pub push-IsRing :
      IsRing (push buf p lib)
      × IsLast p (push buf p lib)
      × ((q : BlockPos) → In q (push buf p lib) → (q ≡ p) ⊎ (In q buf × (q.num < p.num)))
      × ((q : BlockPos)
          → In q buf
          → q.num < p.num
          → is_some_and (λ (l : BlockPos). leb q.num l.num) lib ≡ false
          → length buf < delivered_cap
          → In q (push buf p lib))
  unfolding push
  push-IsRing =
      let (front, pruned) = prune-IsTail joined lib in
      let (over, capped) = cap-IsTail delivered_cap (prune_front joined lib) in
      let left = prune_front joined lib in
      (
        record {
          ascending = Tail-ascending _ over (
              subst IsAscending capped
                (Tail-ascending left front (subst IsAscending pruned joined-ascending)));
          within = cap_length delivered_cap left;
        },
        cap-IsLast delivered_cap left p (omega arith)
            (prune-IsLast joined p lib (IsLast-append (truncate_from buf p.num) p)),
        λ q i. joined-In q (
            subst (In q) (sym pruned)
              (Tail-In left front q (subst (In q) (sym capped) (Tail-In _ over q i)))),
        λ q i below kept room.
            rw
              (cap_keeps delivered_cap left (
                omega (
                  arith,
                  ap (length {0}) pruned,
                  length-append {0} front left,
                  length-append {0} (truncate_from buf p.num) (p ∷ []),
                  truncate_length buf p.num,
                )))
              (prune-keeps joined lib q
                (In-append_left _ (p ∷ []) q (truncate-keeps buf p.num q i below)) kept),
      )

find_ascending :
    (xs : List BlockPos) (p : BlockPos)
    → IsAscending xs
    → In p xs
    → find (λ q. q.num == p.num) xs ≡ some p
find_ascending [] p a i = elim i [ ]
find_ascending (x ∷ xs) p a (inl e) = ground arith
find_ascending (x ∷ xs) p a (inr i) =
    ground (arith, find_ascending xs p a.1 i, All-In (λ y. x.num < y.num) xs p i a.0)

-- `get` finds the id of any entry of a ring.
pub get-In :
    (buf : List BlockPos) (p : BlockPos) → IsRing buf → In p buf → get buf p.num ≡ some p.id
unfolding get
get-In buf p r i = rw (find_ascending buf p r.ascending i)

pub get-some :
    (buf : List BlockPos) (n : ℕ) (id : List ℕ)
    → get buf n ≡ some id
    → In (record { num = n; id = id }) buf
unfolding get
get-some [] n id h = cc
get-some (x ∷ xs) n id h = elim (Bool-cases (x.num == n)) [
  | inl e ↦ inl (ground arith)
  | inr e ↦ inr (get-some xs n id (ground arith))
]
