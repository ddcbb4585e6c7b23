-- ===== src/Session/Ring/Tail.antt =====
-- The positions that a resume request is given: the newest reversible entries below the cursor.
use mathlib.Core.List.{reverse, append-nil, reverse-append, reverse-reverse}
use fleet_router.Prelude.{
  ℕ, zero, suc, ◌<◌, min, ◌≡◌, refl, sym, inl, inr, ap, ◌∙◌, subst, Bool, List, [], ◌∷◌, ◌++◌,
  arith, All-In, All_of_In, In-filter, filter, take, drop, length, length-append, length-take,
  Bool-cases,
}
use fleet_router.Ship.{BlockPos}
use fleet_router.Session.Ring.{in_window, reversible_tail}
use fleet_router.Session.Ring.Laws.{IsAscending, IsRing, Tail-ascending}

module _ {A : Type 0} where
  take-drop : (n : ℕ) (xs : List A) → xs ≡ take n xs ++ drop n xs
  take-drop zero xs = refl
  take-drop (suc n) [] = refl
  take-drop (suc n) (x ∷ xs) = ap (λ ys. x ∷ ys) (take-drop n xs)

  length-reverse : (xs : List A) → length (reverse xs) ≡ length xs
  length-reverse [] = refl
  length-reverse (x ∷ xs) =
      ap (length {0}) (reverse-append (x ∷ []) xs)
      ∙ omega (arith, length-append {0} (reverse xs) (x ∷ []), length-reverse xs)

  filter-append : (p : A → Bool) (xs ys : List A) → filter p (xs ++ ys) ≡ filter p xs ++ filter p ys
  filter-append p [] ys = refl
  filter-append p (x ∷ xs) ys = ground (arith, filter-append p xs ys)

  filter-reverse : (p : A → Bool) (xs : List A) → filter p (reverse xs) ≡ reverse (filter p xs)
  filter-reverse p [] = refl
  filter-reverse p (x ∷ xs) =
      ap (filter p) (reverse-append (x ∷ []) xs)
      ∙ filter-append p (reverse xs) (x ∷ [])
      ∙ elim (Bool-cases (p x)) [
        | inl e ↦ rw (e, filter-reverse p xs) (sym (reverse-append (x ∷ []) (filter p xs)))
        | inr e ↦ rw (e, filter-reverse p xs) (append-nil (reverse (filter p xs)))
      ]

filter-ascending :
    (p : BlockPos → Bool) (xs : List BlockPos) → IsAscending xs → IsAscending (filter p xs)
filter-ascending p [] a = tt
filter-ascending p (x ∷ xs) a = elim (Bool-cases (p x)) [
  | inl e ↦ rw e (
    All_of_In (λ y. x.num < y.num) _
        (λ y i. All-In (λ y. x.num < y.num) xs y (In-filter p xs y i).0 a.0),
    filter-ascending p xs a.1,
  )
  | inr e ↦ rw e (filter-ascending p xs a.1)
]

-- The tail is the end of the reversible entries of the window: the newest `limit` of them, or all
-- if there are fewer. It ascends.
pub reversible_tail-newest :
    (buf : List BlockPos) (lib below limit : ℕ)
    → IsRing buf
    → let window = filter (in_window lib below) buf in
      let newest = reversible_tail buf lib below limit in
      ((older : List BlockPos) × (window ≡ older ++ newest))
      × (length newest ≡ min limit (length window))
      × IsAscending newest
unfolding reversible_tail
reversible_tail-newest buf lib below limit r =
    let window = filter (in_window lib below) buf in
    let turned = filter (in_window lib below) (reverse buf) in
    let newest = reverse (take limit turned) in
    let older = reverse (drop limit turned) in
    let split : window ≡ older ++ newest =
      sym (reverse-reverse window)
      ∙ ap reverse (sym (filter-reverse (in_window lib below) buf))
      ∙ ap reverse (take-drop limit turned)
      ∙ reverse-append (take limit turned) (drop limit turned) in
    (
      (older, split),
      length-reverse (take limit turned)
          ∙ length-take limit turned
          ∙ ap (λ (xs : List BlockPos). min limit (length xs))
              (filter-reverse (in_window lib below) buf)
          ∙ ap (min limit) (length-reverse window),
      Tail-ascending newest older
          (subst IsAscending split (filter-ascending (in_window lib below) buf r.ascending)),
    )
