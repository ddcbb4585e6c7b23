-- ===== src/ChainApi/Attempts/Tried.antt =====
-- What was tried and sent in the passes of the loop, as lists without repetition.
use fleet_router.Prelude.{
  ℕ, ◌≡◌, refl, sym, ap, subst, inl, inr, Bool, true, false, not, ◌||◌, List, [], ◌∷◌, ◌++◌, Option,
  none, some, map, arith, ◌==◌, if◌then◌else◌, filter, find, find-In, In, In-filter, In-append,
  Bool-cases,
}
use fleet_router.ChainApi.Attempt.{NextAttempt, try, wait, exhausted, has, next_of, next_attempt}
use fleet_router.ChainApi.Attempts.{Attempt, Loop}

-- No number stands twice in the list.
abbrev pub Distinct : List ℕ → Type 0
Distinct [] = Unit {0}
Distinct (i ∷ is) = (has is i ≡ false) × Distinct is

abbrev pub sent_to : Loop → List ℕ
sent_to s = map (λ (e : ℕ × Attempt). e.0) s.sent

has-append : (is : List ℕ) (j i : ℕ) → has (is ++ j ∷ []) i ≡ (has is i || (j == i))
has-append [] j i = ground arith
has-append (k ∷ is) j i = ground (arith, has-append is j i)

Distinct-append : (is : List ℕ) (j : ℕ) → Distinct is → has is j ≡ false → Distinct (is ++ j ∷ [])
Distinct-append [] j d h = (refl, tt)
Distinct-append (i ∷ is) j d h =
    (ground (arith, has-append is j i, d.0, h), Distinct-append is j d.1 (ground (arith, h)))

-- What holds between the passes: what was tried was to be tried, once, and each request that was
-- sent was a try.
pub record IsTried (order : List ℕ) (s : Loop) : Type 0 where
  pub distinct : Distinct s.tried
  pub ordered : (i : ℕ) → In i s.tried → In i order
  pub once : Distinct (sent_to s)
  pub was_tried : (i : ℕ) → has (sent_to s) i ≡ true → has s.tried i ≡ true

-- The next attempt is at an API of the order that was not tried.
abbrev pub Fresh : List ℕ → List ℕ → ℕ → Type 0
Fresh order tried i = In i order × (has tried i ≡ false)

remaining-Fresh :
    (order tried : List ℕ) (i : ℕ)
    → In i (filter (λ i. not (has tried i)) order)
    → Fresh order tried i
remaining-Fresh order tried i j =
    let (k, e) = In-filter (λ i. not (has tried i)) order i j in (k, ground (arith, e))

abbrev pub OnApi : (ℕ → Type 0) → NextAttempt → Type 0
OnApi P exhausted = Unit {0}
OnApi P (try i) = P i
OnApi P (wait i) = P i

next_of-In : (rest : List ℕ) (full : ℕ → Bool) → OnApi (λ i. In i rest) (next_of rest full)
unfolding next_of
next_of-In [] full = tt
next_of-In (first ∷ rest) full = by (full first) (find (λ i. not (full i)) rest) refl
  where
    by :
        (busy : Bool) (found : Option ℕ)
        → find (λ i. not (full i)) rest ≡ found
        → OnApi
            (λ i. In i (first ∷ rest))
            (if not busy then try first else elim found [ none ↦ wait first | some i ↦ try i ])
    by false found e = inl refl
    by true none e = inl refl
    by true (some i) e = inr ((find-In (λ i. not (full i)) rest i e).0)

pub next_attempt-Fresh :
    (order tried : List ℕ) (full : ℕ → Bool)
    → OnApi (Fresh order tried) (next_attempt order tried full)
unfolding next_attempt
next_attempt-Fresh order tried full =
    by (next_of (filter (λ i. not (has tried i)) order) full)
      (next_of-In (filter (λ i. not (has tried i)) order) full)
  where
    by :
        (a : NextAttempt)
        → OnApi (λ i. In i (filter (λ i. not (has tried i)) order)) a
        → OnApi (Fresh order tried) a
    by exhausted h = tt
    by (try i) h = remaining-Fresh order tried i h
    by (wait i) h = remaining-Fresh order tried i h

-- A try, with and without a request.
pub tried-IsTried :
    (order : List ℕ) (s : Loop) (i : ℕ)
    → Fresh order s.tried i
    → IsTried order s
    → IsTried order (record s { tried = s.tried ++ i ∷ [] })
tried-IsTried order s i (in_order, fresh) k = record {
  distinct = Distinct-append s.tried i k.distinct fresh;
  ordered = λ j m. elim (In-append s.tried (i ∷ []) j m) [
    | inl a ↦ k.ordered j a
    | inr (inl e) ↦ subst (λ i. In i order) (sym e) in_order
    | inr (inr a) ↦ elim a [ ]
  ];
  once = k.once;
  was_tried = λ j h. ground (arith, has-append s.tried i j, k.was_tried j h);
}

sent_to-append :
    (log : List (ℕ × Attempt)) (i : ℕ) (r : Attempt)
    → map (λ (e : ℕ × Attempt). e.0) (log ++ (i, r) ∷ [])
      ≡ map (λ (e : ℕ × Attempt). e.0) log ++ i ∷ []
sent_to-append [] i r = refl
sent_to-append (e ∷ log) i r = ap (λ is. e.0 ∷ is) (sent_to-append log i r)

pub sent-IsTried :
    (order : List ℕ) (s : Loop) (i : ℕ) (r : Attempt)
    → Fresh order s.tried i
    → IsTried order s
    → IsTried order (record s { tried = s.tried ++ i ∷ []; sent = s.sent ++ (i, r) ∷ [] })
sent-IsTried order s i r f k =
    let t = tried-IsTried order s i f k in
    let log = sent_to-append s.sent i r in
    record {
      distinct = t.distinct;
      ordered = t.ordered;
      once = subst Distinct (sym log) (
          Distinct-append (sent_to s) i k.once (elim (Bool-cases (has (sent_to s) i)) [
            | inl e ↦ absurd (cc (k.was_tried i e, f.1))
            | inr e ↦ e
          ]));
      was_tried = λ j h. ground (
        arith,
        has-append s.tried i j,
        has-append (sent_to s) i j,
        k.was_tried j,
        ap (λ is. has is j) log,
        h,
      );
    }
