-- ===== src/ChainApi/Plan/Kept.antt =====
-- The attempts that are kept for a live node and for an archive whose Unknown Block is an answer.
use fleet_router.Prelude.{
  ℕ, suc, ◌+◌, ◌≤◌, ◌<◌, min, ◌≡◌, refl, ap, ◌∙◌, ◌⊎◌, ◌↔◌, inl, inr, Bool, true, false, not, ◌&&◌,
  List, [], ◌∷◌, ◌++◌, Option, none, some, arith, leb, ◌==◌, if◌then◌else◌, is_some_and, any,
  filter, find, find-In, find-exists, head?, take, length, length-take, In, any-true, any-congr,
  Bool-cases,
}
use fleet_router.Models.{Role, live, frozen, is_live, is_frozen}
use fleet_router.ChainApi.View.{ApiView, archives, holds_id}
use fleet_router.ChainApi.Plan.{
  BlockQuery, Hint, Tiers, tiers_of, tier_list, is_get_block, replace_last, keep_live,
  replace_where, may_take, keep_holder, irreversible_views,
}
use fleet_router.ChainApi.Plan.Members.{
  rest_of, rest-In, f-In, take-In, tier_list-In, length-tier_list,
}

abbrev pub live_view : ApiView → Bool
live_view a = is_live a.role

abbrev lives : List ApiView → ℕ
lives order = length (filter live_view order)

length-In : (xs : List ApiView) (a : ApiView) → In a xs → 1 ≤ length xs
length-In [] a i = elim i [ ]
length-In (x ∷ xs) a i = omega arith

any-In_length :
    (p : ApiView → Bool) (xs : List ApiView) → (any p xs ≡ true) ↔ (1 ≤ length (filter p xs))
any-In_length p [] = (λ h. cc, λ h. absurd (omega arith))
any-In_length p (x ∷ xs) = ground (arith, any-In_length p xs)

some_other :
    (p : ApiView → Bool) (xs : List ApiView)
    → length (filter p xs) < length xs
    → any (λ a. not (p a)) xs ≡ true
some_other p [] h = absurd (omega arith)
some_other p (x ∷ xs) h = ground (arith, some_other p xs)

replace_last-any :
    (p : ApiView → Bool) (a : ApiView) (xs : List ApiView)
    → 1 ≤ length xs
    → p a ≡ true
    → any p (replace_last a xs) ≡ true
unfolding replace_last
replace_last-any p a [] h e = absurd (omega arith)
replace_last-any p a (x ∷ []) h e = ground (arith, e)
replace_last-any p a (x ∷ y ∷ ys) h e =
    ground (arith, replace_last-any p a (y ∷ ys) (omega arith) e)

length-replace_last : (a : ApiView) (xs : List ApiView) → length (replace_last a xs) ≡ length xs
unfolding replace_last
length-replace_last a [] = refl
length-replace_last a (x ∷ []) = refl
length-replace_last a (x ∷ y ∷ ys) = ap suc (length-replace_last a (y ∷ ys))

replace_where-any :
    (p q : ApiView → Bool) (a : ApiView) (xs : List ApiView)
    → any p xs ≡ true
    → q a ≡ true
    → any q (replace_where p a xs) ≡ true
unfolding replace_where
replace_where-any p q a [] h e = cc
replace_where-any p q a (x ∷ xs) h e = elim (Bool-cases (any p xs)) [
  | inl more ↦ ground (arith, more, replace_where-any p q a xs more e)
  | inr none_more ↦ ground (arith, none_more, e)
]

-- At most one is replaced.
replace_where-lives :
    (p : ApiView → Bool) (a : ApiView) (xs : List ApiView)
    → lives xs ≤ suc (lives (replace_where p a xs))
unfolding replace_where
replace_where-lives p a [] = omega arith
replace_where-lives p a (x ∷ xs) = ground (arith, replace_where-lives p a xs)

-- None is, where only others may be.
replace_where-lives_kept :
    (p : ApiView → Bool) (a : ApiView) (xs : List ApiView)
    → ((x : ApiView) → p x ≡ true → live_view x ≡ false)
    → lives xs ≤ lives (replace_where p a xs)
unfolding replace_where
replace_where-lives_kept p a [] other = omega arith
replace_where-lives_kept p a (x ∷ xs) other =
    ground (arith, replace_where-lives_kept p a xs other, other x)

any_first :
    (p : ApiView → Bool) (xs : List ApiView)
    → 1 ≤ length xs
    → ((x : ApiView) → p x ≡ true)
    → any p xs ≡ true
any_first p [] h all_of = absurd (omega arith)
any_first p (x ∷ xs) h all_of = ground (arith, all_of x)

-- There is a place for an id holder, if the only live node is not the only candidate.
may_take-any :
    (cap : ℕ) (order : List ApiView)
    → 1 ≤ length order
    → (2 ≤ cap → lives order ≡ 1 → 2 ≤ length order)
    → any (may_take cap order) order ≡ true
unfolding may_take
may_take-any cap order one two = elim (Bool-cases (leb 2 cap && lives order == 1)) [
  | inl e ↦
      any-congr (may_take cap order) (λ a. not (live_view a)) order (λ x i. ground (arith, e))
      ∙ some_other live_view order (ground (arith, two))
  | inr e ↦ any_first (may_take cap order) order one (λ x. ground (arith, e))
]

-- The only live node keeps its place.
may_take-lives :
    (cap : ℕ) (order : List ApiView) (a : ApiView)
    → 2 ≤ cap
    → any live_view order ≡ true
    → any live_view (replace_where (may_take cap order) a order) ≡ true
unfolding may_take
may_take-lives cap order a two has_live =
    let one : 1 ≤ lives order = (any-In_length live_view order).0 has_live in
    let p = may_take cap order in
    (any-In_length live_view (replace_where p a order)).1 (elim (Bool-cases (lives order == 1)) [
      | inl only ↦
          omega (arith, one, replace_where-lives_kept p a order (λ x h. ground (arith, only)))
      | inr more ↦ ground (arith, one, replace_where-lives p a order)
    ])

module _ (cap : ℕ) (t : Tiers) (order : List ApiView)
    (rest_live : (a : ApiView) → In a (t.l ++ (t.u ++ t.x)) → live_view a ≡ true) where
  pub length-keep_live : length (keep_live cap t order) ≡ length order
  unfolding keep_live
  length-keep_live = by (head? (t.l ++ (t.u ++ t.x))) (leb 2 cap && not (any live_view order))
    where
      by :
          (first : Option ApiView) (keep : Bool)
          → length (
              if keep then (elim first [ none ↦ order | some a ↦ replace_last a order ]) else order)
            ≡ length order
      by none true = refl
      by (some a) true = length-replace_last a order
      by first false = refl

  keep_live-any :
      2 ≤ cap
      → 1 ≤ length order
      → 1 ≤ length (t.l ++ (t.u ++ t.x))
      → any live_view (keep_live cap t order) ≡ true
  unfolding keep_live
  keep_live-any two one some_live =
      by (t.l ++ (t.u ++ t.x)) rest_live some_live (any live_view order) refl
    where
      by :
          (rest : List ApiView)
          → ((a : ApiView) → In a rest → live_view a ≡ true)
          → 1 ≤ length rest
          → (has : Bool) → any live_view order ≡ has
          → any live_view (
              if leb 2 cap && not has
              then (elim (head? rest) [ none ↦ order | some a ↦ replace_last a order ])
              else order)
            ≡ true
      by [] nodes h has e = absurd (omega arith)
      by (a ∷ rest) nodes h true e = ground (arith, e)
      by (a ∷ rest) nodes h false e =
          let yes : leb 2 cap ≡ true = ground arith in
          rw yes (replace_last-any live_view a order one (nodes a (inl refl)))

  keep_live-from :
      any live_view (keep_live cap t order) ≡ true
      → (any live_view order ≡ true) ⊎ (1 ≤ length (t.l ++ (t.u ++ t.x)))
  unfolding keep_live
  keep_live-from = by (t.l ++ (t.u ++ t.x)) (leb 2 cap && not (any live_view order))
    where
      by :
          (rest : List ApiView) (keep : Bool)
          → any live_view (
              if keep
              then (elim (head? rest) [ none ↦ order | some a ↦ replace_last a order ])
              else order)
            ≡ true
          → (any live_view order ≡ true) ⊎ (1 ≤ length rest)
      by rest false h = inl h
      by [] true h = inl h
      by (a ∷ rest) true h = inr (omega arith)

module _ (cap n : ℕ) (by_id : Bool) (t : Tiers) (order : List ApiView) where
  keep_holder-any :
      (holder : ApiView)
      → by_id ≡ true
      → In holder t.f
      → holds_id holder n ≡ true
      → any (may_take cap order) order ≡ true
      → any (λ a. holds_id a n) (keep_holder cap n by_id t order) ≡ true
  unfolding keep_holder
  keep_holder-any holder id i h place =
      by (any (λ a. holds_id a n) order) refl (find (λ a. holds_id a n) t.f) refl
    where
      by :
          (has : Bool)
          → any (λ a. holds_id a n) order ≡ has
          → (found : Option ApiView) → find (λ a. holds_id a n) t.f ≡ found
          → any
              (λ a. holds_id a n)
              (if by_id && not has
                then (elim found [
                  | none ↦ order
                  | some a ↦ replace_where (may_take cap order) a order
                ])
                else order)
            ≡ true
      by true e found f = ground (arith, e)
      by false e none f = absurd (find-exists (λ a. holds_id a n) t.f holder i h f)
      by false e (some a) f = rw id (
          replace_where-any (may_take cap order) (λ a. holds_id a n) a order place
            (find-In (λ a. holds_id a n) t.f a f).1)

  -- The only live node keeps its place.
  keep_holder-live :
      2 ≤ cap → any live_view order ≡ true → any live_view (keep_holder cap n by_id t order) ≡ true
  unfolding keep_holder
  keep_holder-live two has_live =
      by (by_id && not (any (λ a. holds_id a n) order)) (find (λ a. holds_id a n) t.f)
    where
      by :
          (keep : Bool) (found : Option ApiView)
          → any live_view (
              if keep
              then (elim found [
                | none ↦ order
                | some a ↦ replace_where (may_take cap order) a order
              ])
              else order)
            ≡ true
      by false found = has_live
      by true none = has_live
      by true (some a) = may_take-lives cap order a two has_live

archive_not_live : (a : ApiView) (n : ℕ) → archives a n ≡ true → live_view a ≡ false
unfolding archives
archive_not_live a n h = by a.role (ground (arith, h))
  where
    by : (r : Role) → is_frozen r ≡ true → is_live r ≡ false
    by frozen e = refl
    by live e = cc

-- An irreversible block: the orders of attempts.
module _ (n : ℕ) (q : BlockQuery) (claimed : Bool) (apis : List ApiView) (cap : ℕ)
    (positive : 1 ≤ cap) where
  abbrev t : Tiers
  t = tiers_of n q.endpoint claimed apis

  abbrev first_order : List ApiView
  first_order = take cap (tier_list (is_get_block q.endpoint) q.block_source t)

  length-first_order : length first_order ≡ min cap (length t.f + length (rest_of t))
  length-first_order =
      length-take cap (tier_list (is_get_block q.endpoint) q.block_source t)
      ∙ ap (min cap) (length-tier_list (is_get_block q.endpoint) q.block_source t)

  rest_live : (a : ApiView) → In a (rest_of t) → live_view a ≡ true
  rest_live a i = (rest-In n q.endpoint claimed apis a i).1.is_node

  f_dead : (a : ApiView) → In a t.f → live_view a ≡ false
  f_dead a i = archive_not_live a n (f-In n q.endpoint claimed apis a i).1.holds

  -- With at least two attempts and a live candidate, a live node is among them.
  pub irreversible_views-live :
      (a : ApiView)
      → 2 ≤ cap
      → In a (rest_of t)
      → any live_view (irreversible_views n q claimed apis cap) ≡ true
  unfolding irreversible_views
  irreversible_views-live a two i =
      let some_rest : 1 ≤ length (rest_of t) = length-In (rest_of t) a i in
      keep_holder-live cap n (is_some_and (λ (h : Hint). h.by_id) q.hint) t
        (keep_live cap t first_order) two
        (keep_live-any cap t first_order rest_live two
          (omega (arith, length-first_order, some_rest)) some_rest)

  -- For a request by id, an archive that holds the block below its declared end is among them, if
  -- there is one that can be asked.
  pub irreversible_views-holder :
      (a : ApiView)
      → is_some_and (λ (h : Hint). h.by_id) q.hint ≡ true
      → In a t.f
      → holds_id a n ≡ true
      → any (λ a. holds_id a n) (irreversible_views n q claimed apis cap) ≡ true
  unfolding irreversible_views
  irreversible_views-holder a id i h =
      let some_f : 1 ≤ length t.f = length-In t.f a i in
      let kept = keep_live cap t first_order in
      let long : length kept ≡ length first_order = length-keep_live cap t first_order rest_live in
      keep_holder-any cap n (is_some_and (λ (h : Hint). h.by_id) q.hint) t kept a id i h (
        may_take-any cap kept (omega (arith, long, length-first_order, some_f)) (λ two only. omega (
          arith,
          long,
          length-first_order,
          some_f,
          node_beside (
              keep_live-from cap t first_order rest_live
                ((any-In_length live_view kept).1 (omega (arith, only)))),
        )))
    where
      node_beside :
          (any live_view first_order ≡ true) ⊎ (1 ≤ length (rest_of t)) → 1 ≤ length (rest_of t)
      node_beside (inr r) = r
      node_beside (inl l) =
          let (b, j, e) = any-true live_view first_order l in
          elim (tier_list-In (is_get_block q.endpoint) q.block_source t b
            (take-In cap (tier_list (is_get_block q.endpoint) q.block_source t) b j)) [
              | inl f ↦ absurd (cc (e, f_dead b f))
              | inr r ↦ length-In (rest_of t) b r
            ]
