-- ===== src/ChainApi/Plan/Members.antt =====
-- The members of the tiers and of the attempt orders that are made from them.
use fleet_router.Prelude.{
  ℕ, zero, suc, ◌+◌, ◌≡◌, refl, sym, subst, ◌⊎◌, inl, inr, Bool, true, false, not, ◌&&◌, List, [],
  ◌∷◌, ◌++◌, Option, none, some, arith, leb, ltb, if◌then◌else◌, is_some, is_some_and, any, filter,
  find, find-In, head?, take, length, length-append, In, In-append, In-append_left, In-append_right,
  In-filter, filter-In, Option-cases,
}
use fleet_router.Prelude.Sorting.{sort_by, In-sort_by}
use fleet_router.Models.{is_live}
use fleet_router.ChainApi.Route.{BlockEndpoint, endpoint_path}
use fleet_router.ChainApi.View.{ApiView, usable, archives, holds_id, tier_cmp}
use fleet_router.ChainApi.Plan.{
  BlockSource, live_first, frozen_first, Tiers, tiers_of, tier_list, is_get_block, replace_last,
  keep_live, replace_where, may_take, keep_holder, live_where, reached_by,
}

-- A live API that can answer for block `n`, or say that it is unknown, where no archive claims it.
pub record IsLiveCandidate (path : List ℕ) (n : ℕ) (claimed : Bool) (a : ApiView) : Type 0 where
  pub is_node : is_live a.role ≡ true
  pub serves : usable a path ≡ true
  pub holds :
      ((reached_by n a ≡ true) × (is_some_and (λ e. ltb n e) a.earliest ≡ false))
      ⊎ ((claimed ≡ false) × (is_some_and (λ e. ltb n e) a.earliest ≡ true))

-- An archive that serves block `n` at this endpoint.
pub record IsArchive (endpoint : BlockEndpoint) (n : ℕ) (a : ApiView) : Type 0 where
  pub holds : archives a n ≡ true
  pub serves : usable a (endpoint_path endpoint) ≡ true
  pub decoded : is_get_block endpoint ≡ false

abbrev pub rest_of : Tiers → List ApiView
rest_of t = t.l ++ (t.u ++ t.x)

sorted_live :
    (n : ℕ) (path : List ℕ) (p : ApiView → Bool) (apis : List ApiView) (a : ApiView)
    → In a (sort_by (tier_cmp n) (live_where path p apis))
    → In a apis × (is_live a.role ≡ true) × (usable a path ≡ true) × (p a ≡ true)
unfolding live_where
sorted_live n path p apis a i =
    let (j, e) =
      In-filter (λ a. is_live a.role && usable a path && p a) apis a
        ((In-sort_by (tier_cmp n) (live_where path p apis) a).0 i) in
    (j, ground (arith, e), ground (arith, e), ground (arith, e))

live_sorted :
    (n : ℕ) (path : List ℕ) (p : ApiView → Bool) (apis : List ApiView) (a : ApiView)
    → In a apis
    → is_live a.role ≡ true
    → usable a path ≡ true
    → p a ≡ true
    → In a (sort_by (tier_cmp n) (live_where path p apis))
unfolding live_where
live_sorted n path p apis a i l u e =
    (In-sort_by (tier_cmp n) (live_where path p apis) a).1
      (filter-In (λ a. is_live a.role && usable a path && p a) apis a i (ground (arith, l, u, e)))

module _ (n : ℕ) (endpoint : BlockEndpoint) (claimed : Bool) (apis : List ApiView) where
  abbrev path : List ℕ
  path = endpoint_path endpoint

  abbrev tiers : Tiers
  tiers = tiers_of n endpoint claimed apis

  pub rest-In : (a : ApiView) → In a (rest_of tiers) → In a apis × IsLiveCandidate path n claimed a
  unfolding tiers_of
  rest-In a i = elim (In-append tiers.l (tiers.u ++ tiers.x) a i) [
    | inl j ↦
        let (k, l, u, e) =
          sorted_live n path (λ a. is_some_and (λ e. leb e n) a.earliest && reached_by n a) apis a
            j in
        (k, record { is_node = l; serves = u; holds = inl (ground (arith, e)) })
    | inr j ↦ elim (In-append tiers.u tiers.x a j) [
      | inl v ↦
          let (k, l, u, e) =
            sorted_live n path (λ a. not (is_some a.earliest) && reached_by n a) apis a v in
          (k, record { is_node = l; serves = u; holds = inl (ground (arith, e)) })
      | inr v ↦ above claimed v
    ]
  ]
    where
      above :
          (claimed : Bool)
          → In a (
              if claimed
              then []
              else sort_by
                  (tier_cmp n)
                  (live_where path (λ a. is_some_and (λ e. ltb n e) a.earliest) apis))
          → In a apis × IsLiveCandidate path n claimed a
      above true v = elim v [ ]
      above false v =
          let (k, l, u, e) =
            sorted_live n path (λ a. is_some_and (λ e. ltb n e) a.earliest) apis a v in
          (k, record { is_node = l; serves = u; holds = inr (refl, e) })

  pub In-rest : (a : ApiView) → In a apis → IsLiveCandidate path n claimed a → In a (rest_of tiers)
  unfolding tiers_of
  In-rest a i c = elim c.holds [
    | inl (r, e) ↦ elim (Option-cases a.earliest) [
      | inl unknown ↦ In-append_right tiers.l (tiers.u ++ tiers.x) a (
          In-append_left tiers.u tiers.x a (
            live_sorted n path (λ a. not (is_some a.earliest) && reached_by n a) apis a i c.is_node
              c.serves (ground (arith, r, unknown))))
      | inr (from, known) ↦ In-append_left tiers.l (tiers.u ++ tiers.x) a (
          live_sorted n path (λ a. is_some_and (λ e. leb e n) a.earliest && reached_by n a) apis a i
            c.is_node c.serves (ground (arith, r, e, known)))
    ]
    | inr (free, e) ↦ In-append_right tiers.l (tiers.u ++ tiers.x) a (
        In-append_right tiers.u tiers.x a (
          rw free (
            live_sorted n path (λ a. is_some_and (λ e. ltb n e) a.earliest) apis a i c.is_node
              c.serves e)))
  ]

  pub f-In : (a : ApiView) → In a tiers.f → In a apis × IsArchive endpoint n a
  unfolding tiers_of
  f-In a i = by (is_get_block endpoint) refl ((In-sort_by (tier_cmp n) _ a).0 i)
    where
      by :
          (g : Bool)
          → is_get_block endpoint ≡ g
          → In a (if g then [] else filter (λ a. archives a n && usable a path) apis)
          → In a apis × IsArchive endpoint n a
      by true e j = elim j [ ]
      by false e j =
          let (k, h) = In-filter (λ a. archives a n && usable a path) apis a j in
          (k, record { holds = ground (arith, h); serves = ground (arith, h); decoded = e })

  pub In-f : (a : ApiView) → In a apis → IsArchive endpoint n a → In a tiers.f
  unfolding tiers_of
  In-f a i c = (In-sort_by (tier_cmp n) _ a).1 (
      rw (c.decoded) (
        filter-In (λ a. archives a n && usable a path) apis a i
          (ground (arith, c.holds, c.serves))))

pub take-In : (k : ℕ) (xs : List ApiView) (a : ApiView) → In a (take k xs) → In a xs
take-In zero xs a i = elim i [ ]
take-In (suc k) [] a i = i
take-In (suc k) (x ∷ xs) a (inl e) = inl e
take-In (suc k) (x ∷ xs) a (inr i) = inr (take-In k xs a i)

replace_last-In :
    (b : ApiView) (xs : List ApiView) (a : ApiView) → In a (replace_last b xs) → (a ≡ b) ⊎ In a xs
unfolding replace_last
replace_last-In b [] a i = inr i
replace_last-In b (x ∷ []) a (inl e) = inl e
replace_last-In b (x ∷ []) a (inr i) = inr (inr i)
replace_last-In b (x ∷ y ∷ ys) a (inl e) = inr (inl e)
replace_last-In b (x ∷ y ∷ ys) a (inr i) = elim (replace_last-In b (y ∷ ys) a i) [
  | inl e ↦ inl e
  | inr j ↦ inr (inr j)
]

replace_where-In :
    (p : ApiView → Bool) (b : ApiView) (xs : List ApiView) (a : ApiView)
    → In a (replace_where p b xs)
    → (a ≡ b) ⊎ In a xs
unfolding replace_where
replace_where-In p b [] a i = inr i
replace_where-In p b (x ∷ xs) a i = ground (arith, i, replace_where-In p b xs a)

length-replace_where :
    (p : ApiView → Bool) (b : ApiView) (xs : List ApiView)
    → length (replace_where p b xs) ≡ length xs
unfolding replace_where
length-replace_where p b [] = refl
length-replace_where p b (x ∷ xs) = ground (arith, length-replace_where p b xs)

module _ (cap n : ℕ) (t : Tiers) (order : List ApiView) where
  pub keep_live-In : (a : ApiView) → In a (keep_live cap t order) → In a (rest_of t) ⊎ In a order
  unfolding keep_live
  keep_live-In a = by (rest_of t) (leb 2 cap && not (any (λ a. is_live a.role) order))
    where
      by :
          (rest : List ApiView) (keep : Bool)
          → In a (
              if keep
              then (elim (head? rest) [ none ↦ order | some b ↦ replace_last b order ])
              else order)
          → In a rest ⊎ In a order
      by rest false i = inr i
      by [] true i = inr i
      by (b ∷ rest) true i = elim (replace_last-In b order a i) [
        | inl e ↦ inl (inl e)
        | inr j ↦ inr j
      ]

  pub keep_holder-In :
      (by_id : Bool) (a : ApiView) → In a (keep_holder cap n by_id t order) → In a t.f ⊎ In a order
  unfolding keep_holder
  keep_holder-In by_id a =
      by (find (λ a. holds_id a n) t.f) refl (by_id && not (any (λ a. holds_id a n) order))
    where
      by :
          (found : Option ApiView)
          → find (λ a. holds_id a n) t.f ≡ found
          → (keep : Bool)
          → In a (
              if keep
              then (elim found [
                | none ↦ order
                | some b ↦ replace_where (may_take cap order) b order
              ])
              else order)
          → In a t.f ⊎ In a order
      by found f false i = inr i
      by none f true i = inr i
      by (some b) f true i = elim (replace_where-In (may_take cap order) b order a i) [
        | inl e ↦ inl (subst (λ b. In b t.f) (sym e) (find-In (λ a. holds_id a n) t.f b f).0)
        | inr j ↦ inr j
      ]

  pub length-keep_holder : (by_id : Bool) → length (keep_holder cap n by_id t order) ≡ length order
  unfolding keep_holder
  length-keep_holder by_id =
      by (find (λ a. holds_id a n) t.f) (by_id && not (any (λ a. holds_id a n) order))
    where
      by :
          (found : Option ApiView) (keep : Bool)
          → length (
              if keep
              then (elim found [
                | none ↦ order
                | some b ↦ replace_where (may_take cap order) b order
              ])
              else order)
            ≡ length order
      by found false = refl
      by none true = refl
      by (some b) true = length-replace_where (may_take cap order) b order

live_ahead-In :
    (t : Tiers) (a : ApiView) → In a (t.l ++ (t.f ++ (t.u ++ t.x))) → In a t.f ⊎ In a (rest_of t)
live_ahead-In t a i = elim (In-append t.l (t.f ++ (t.u ++ t.x)) a i) [
  | inl j ↦ inr (In-append_left t.l (t.u ++ t.x) a j)
  | inr j ↦ elim (In-append t.f (t.u ++ t.x) a j) [
    | inl k ↦ inl k
    | inr k ↦ inr (In-append_right t.l (t.u ++ t.x) a k)
  ]
]

live_ahead_length :
    (t : Tiers) → length (t.l ++ (t.f ++ (t.u ++ t.x))) ≡ length t.f + length (rest_of t)
live_ahead_length t = omega (
  arith,
  length-append t.l (t.f ++ (t.u ++ t.x)),
  length-append t.f (t.u ++ t.x),
  length-append t.l (t.u ++ t.x),
)

-- The tiers in the order in which they are tried have the same members.
pub tier_list-In :
    (g : Bool) (source : BlockSource) (t : Tiers) (a : ApiView)
    → In a (tier_list g source t)
    → In a t.f ⊎ In a (rest_of t)
unfolding tier_list
tier_list-In true source t a i = live_ahead-In t a i
tier_list-In false live_first t a i = live_ahead-In t a i
tier_list-In false frozen_first t a i = In-append t.f (rest_of t) a i

pub length-tier_list :
    (g : Bool) (source : BlockSource) (t : Tiers)
    → length (tier_list g source t) ≡ length t.f + length (rest_of t)
unfolding tier_list
length-tier_list true source t = live_ahead_length t
length-tier_list false live_first t = live_ahead_length t
length-tier_list false frozen_first t = length-append t.f (rest_of t)
