-- ===== src/Prelude/Lists.antt =====
-- Lists under Boolean tests, and measured by native numbers.
use Prim.Native.Nat.{ℕ, zero, suc, ◌+◌, ◌≤◌, min}
use mathlib.Core.Path.{◌≡◌, refl, ap, sym, subst}
use mathlib.Core.Logic.{◌⊎◌, ◌↔◌, ◌≢◌, inl, inr}
use mathlib.Core.Bool.{Bool, true, false, ◌&&◌, ◌||◌}
use mathlib.Core.List.{List, [], ◌∷◌, ◌++◌, map}
use mathlib.Core.Option.{Option, none, some}
use native.Mathlib.Omega.{arith}
use fleet_router.Prelude.Tests.{if◌then◌else◌, Bool-cases, ◌==◌}

module _ {ℓ} {A : Type ℓ} where
  abbrev pub length : List A → ℕ
  length [] = 0
  length (x ∷ xs) = suc (length xs)

  abbrev pub any : (A → Bool) → List A → Bool
  any p [] = false
  any p (x ∷ xs) = p x || any p xs

  abbrev pub all : (A → Bool) → List A → Bool
  all p [] = true
  all p (x ∷ xs) = p x && all p xs

  -- `Iterator::filter`, by a Boolean test.
  abbrev pub filter : (A → Bool) → List A → List A
  filter p [] = []
  filter p (x ∷ xs) = if p x then x ∷ filter p xs else filter p xs

  -- `Iterator::find`.
  abbrev pub find : (A → Bool) → List A → Option A
  find p [] = none
  find p (x ∷ xs) = if p x then some x else find p xs

  -- `slice::get`.
  abbrev pub get_elem? : List A → ℕ → Option A
  get_elem? [] i = none
  get_elem? (x ∷ xs) zero = some x
  get_elem? (x ∷ xs) (suc i) = get_elem? xs i

  abbrev pub head? : List A → Option A
  head? [] = none
  head? (x ∷ xs) = some x

  abbrev pub is_nil : List A → Bool
  is_nil [] = true
  is_nil (x ∷ xs) = false

  abbrev pub take : ℕ → List A → List A
  take zero xs = []
  take (suc n) [] = []
  take (suc n) (x ∷ xs) = x ∷ take n xs

  abbrev pub drop : ℕ → List A → List A
  drop zero xs = xs
  drop (suc n) [] = []
  drop (suc n) (x ∷ xs) = drop n xs

  abbrev pub All {κ} : (A → Type κ) → List A → Type κ
  All P [] = Unit
  All P (x ∷ xs) = P x × All P xs

module _ {ℓ} {A : Type ℓ} where
  pub length-append : (xs ys : List A) → length (xs ++ ys) ≡ length xs + length ys
  length-append [] ys = omega arith
  length-append (x ∷ xs) ys = omega (arith, length-append xs ys)

  pub any-append : (p : A → Bool) (xs ys : List A) → any p (xs ++ ys) ≡ (any p xs || any p ys)
  any-append p [] ys = refl
  any-append p (x ∷ xs) ys = ground (arith, any-append p xs ys)

module _ {ℓ} {A : Type ℓ} where
  pub length-take : (n : ℕ) (xs : List A) → length (take n xs) ≡ min n (length xs)
  length-take zero xs = omega arith
  length-take (suc n) [] = omega arith
  length-take (suc n) (x ∷ xs) = omega (arith, length-take n xs)

  pub take-take : (m n : ℕ) (xs : List A) → m ≤ n → take m (take n xs) ≡ take m xs
  take-take zero n xs h = refl
  take-take (suc m) zero xs h = absurd (omega arith)
  take-take (suc m) (suc n) [] h = refl
  take-take (suc m) (suc n) (x ∷ xs) h = ap (λ ys. x ∷ ys) (take-take m n xs (omega arith))

module _ {A : Type 0} where
  -- `x` stands in the list.
  abbrev pub In : A → List A → Type 0
  In x [] = ⊥
  In x (y ∷ ys) = (x ≡ y) ⊎ In x ys

  pub any-true : (p : A → Bool) (xs : List A) → any p xs ≡ true → (x : A) × In x xs × (p x ≡ true)
  any-true p [] h = cc
  any-true p (x ∷ xs) h = elim (Bool-cases (p x)) [
    | inl e ↦ (x, inl refl, e)
    | inr e ↦ let (y, i, q) = any-true p xs (ground arith) in (y, inr i, q)
  ]

  pub any_of_In : (p : A → Bool) (xs : List A) (x : A) → In x xs → p x ≡ true → any p xs ≡ true
  any_of_In p [] x i h = elim i [ ]
  any_of_In p (y ∷ ys) x (inl e) h = ground arith
  any_of_In p (y ∷ ys) x (inr i) h = ground (arith, any_of_In p ys x i h)

  pub any-false_of_In :
      (p : A → Bool) (xs : List A) (x : A) → In x xs → any p xs ≡ false → p x ≡ false
  any-false_of_In p [] x i h = elim i [ ]
  any-false_of_In p (y ∷ ys) x (inl e) h = ground arith
  any-false_of_In p (y ∷ ys) x (inr i) h = any-false_of_In p ys x i (ground arith)

  -- Tests that agree on the list's members find the same.
  pub any-congr :
      (p q : A → Bool) (xs : List A) → ((x : A) → In x xs → p x ≡ q x) → any p xs ≡ any q xs
  any-congr p q [] h = refl
  any-congr p q (x ∷ xs) h = ground (arith, h x (inl refl), any-congr p q xs (λ y i. h y (inr i)))

  pub In-filter : (p : A → Bool) (xs : List A) (x : A) → In x (filter p xs) → In x xs × (p x ≡ true)
  In-filter p [] x i = elim i [ ]
  In-filter p (y ∷ ys) x i = ground (arith, In-filter p ys x)

  pub filter-In : (p : A → Bool) (xs : List A) (x : A) → In x xs → p x ≡ true → In x (filter p xs)
  filter-In p [] x i h = elim i [ ]
  filter-In p (y ∷ ys) x i h = ground (arith, filter-In p ys x)

  pub any_of_filter-nil : (p : A → Bool) (xs : List A) → filter p xs ≡ [] → any p xs ≡ false
  any_of_filter-nil p [] h = refl
  any_of_filter-nil p (x ∷ xs) h = ground (arith, any_of_filter-nil p xs)

  pub find-In : (p : A → Bool) (xs : List A) (x : A) → find p xs ≡ some x → In x xs × (p x ≡ true)
  find-In p [] x h = cc
  find-In p (y ∷ ys) x h = ground (arith, find-In p ys x)

  pub In-append : (xs ys : List A) (x : A) → In x (xs ++ ys) → In x xs ⊎ In x ys
  In-append [] ys x i = inr i
  In-append (y ∷ xs) ys x i = ground (arith, In-append xs ys x)

  pub In-append_left : (xs ys : List A) (x : A) → In x xs → In x (xs ++ ys)
  In-append_left [] ys x i = elim i [ ]
  In-append_left (y ∷ xs) ys x i = ground (arith, In-append_left xs ys x)

  pub In-append_right : (xs ys : List A) (x : A) → In x ys → In x (xs ++ ys)
  In-append_right [] ys x i = i
  In-append_right (y ∷ xs) ys x i = inr (In-append_right xs ys x i)

  pub All-In : (P : A → Type 0) (xs : List A) (x : A) → In x xs → All P xs → P x
  All-In P [] x i a = elim i [ ]
  All-In P (y ∷ ys) x (inl e) a = subst P (sym e) a.0
  All-In P (y ∷ ys) x (inr i) a = All-In P ys x i a.1

  pub All_of_In : (P : A → Type 0) (xs : List A) → ((x : A) → In x xs → P x) → All P xs
  All_of_In P [] f = tt
  All_of_In P (x ∷ xs) f = (f x (inl refl), All_of_In P xs (λ y i. f y (inr i)))

-- Equality of texts and of byte strings.
abbrev pub text_eq : List ℕ → List ℕ → Bool
text_eq [] [] = true
text_eq [] (y ∷ ys) = false
text_eq (x ∷ xs) [] = false
text_eq (x ∷ xs) (y ∷ ys) = x == y && text_eq xs ys

pub text_eq_iff : (xs ys : List ℕ) → (text_eq xs ys ≡ true) ↔ (xs ≡ ys)
text_eq_iff [] [] = (λ _. refl, λ _. refl)
text_eq_iff [] (y ∷ ys) = (λ h. cc, λ h. cc)
text_eq_iff (x ∷ xs) [] = (λ h. cc, λ h. cc)
text_eq_iff (x ∷ xs) (y ∷ ys) =
    (λ h. ground (arith, (text_eq_iff xs ys).0), λ h. ground (arith, (text_eq_iff xs ys).1))

module _ {ℓ κ} {A : Type ℓ} (P : A → Type κ) where
  pub All-append_left : (xs ys : List A) → All P (xs ++ ys) → All P xs
  All-append_left [] ys a = tt
  All-append_left (x ∷ xs) ys a = (a.0, All-append_left xs ys a.1)

  pub All-append_right : (xs ys : List A) → All P (xs ++ ys) → All P ys
  All-append_right [] ys a = a
  All-append_right (x ∷ xs) ys a = All-append_right xs ys a.1

module _ {A B : Type 0} (f : A → B) where
  pub In-map_of_In : (xs : List A) (x : A) → In x xs → In (f x) (map f xs)
  In-map_of_In [] x i = elim i [ ]
  In-map_of_In (y ∷ ys) x (inl e) = inl (ap f e)
  In-map_of_In (y ∷ ys) x (inr i) = inr (In-map_of_In ys x i)

  pub In-map : (xs : List A) (y : B) → In y (map f xs) → (x : A) × In x xs × (y ≡ f x)
  In-map [] y i = elim i [ ]
  In-map (x ∷ xs) y (inl e) = (x, inl refl, e)
  In-map (x ∷ xs) y (inr i) = let (z, j, e) = In-map xs y i in (z, inr j, e)

module _ {A : Type 0} where
  pub get_elem?-In : (xs : List A) (i : ℕ) (x : A) → get_elem? xs i ≡ some x → In x xs
  get_elem?-In [] i x h = cc
  get_elem?-In (y ∷ ys) zero x h = inl (ground arith)
  get_elem?-In (y ∷ ys) (suc i) x h = inr (get_elem?-In ys i x h)

  pub find-exists : (p : A → Bool) (xs : List A) (x : A) → In x xs → p x ≡ true → find p xs ≢ none
  find-exists p [] x i h = λ _. i
  find-exists p (y ∷ ys) x i h = ground (arith, find-exists p ys x)
