-- ===== src/ChainApi/Attempts/Refusals.antt =====
-- For a block that an archive claims, no Unknown Block is the answer but that of an archive that
-- holds the id's block.
use mathlib.Core.List.{reverse, reverse-append}
use fleet_router.Prelude.{
  ℕ, ◌≡◌, refl, sym, ap, subst, inl, inr, Bool, true, false, not, ◌&&◌, List, [], ◌∷◌, ◌++◌, Option,
  none, some, arith, ◌==◌, if◌then◌else◌, find, find-In, head?, In, In-append, length, All, All-In,
}
use fleet_router.Prelude.Int.{ℤ}
use fleet_router.Models.{Role, is_live}
use fleet_router.ChainApi.Plan.{irreversible}
use fleet_router.ChainApi.Attempt.{
  has, Outcome, final, next, busy, absent, unknown_block, needs_peek, classify, classify_body,
  response, settles, keeps, is_unknown_block, last_kept,
}
use fleet_router.ChainApi.Attempts.{
  Policy, block_policy, Peeked, whole, partial, broken, late, Attempt, responded, no_connect, lost,
  connect_timeout, timed_out, Turn, Buffered, Reply, relayed, answered, kept_answer, busy_exhausted,
  busy_lost, Loop, new_loop, Pass, continue, finish, give_up, on_body, on_peeked, on_response,
  on_attempt, send_to, pass_once, attempts,
}
use fleet_router.ChainApi.Attempts.Laws.{OnEnd, pass_once-end, attempts-end}

-- The body that the router read before it answered with it.
abbrev pub read_of : Reply → Option Buffered
read_of (relayed i status) = none
read_of (answered i b) = some b
read_of (kept_answer b) = some b
read_of busy_exhausted = none
read_of busy_lost = none

In-reverse : {A : Type 0} → (xs : List A) (x : A) → In x (reverse xs) → In x xs
In-reverse [] x i = i
In-reverse (y ∷ ys) x i =
    elim (In-append (reverse ys) (y ∷ []) x
      (subst (λ zs. In x zs) (reverse-append (y ∷ []) ys) i)) [
        | inl j ↦ inr (In-reverse ys x j)
        | inr (inl e) ↦ inl e
        | inr (inr j) ↦ elim j [ ]
      ]

head?-In : {A : Type 0} → (xs : List A) (x : A) → head? xs ≡ some x → In x xs
head?-In [] x e = cc
head?-In (y ∷ ys) x e = inl (ground arith)

last_kept-In :
    (kept : List (Role × Buffered)) (b : Buffered)
    → last_kept kept ≡ some b
    → (r : Role) × In (r, b) kept
unfolding last_kept
last_kept-In kept b =
    by (find (λ (k : Role × Buffered). is_live k.0) (reverse kept)) refl (head? (reverse kept)) refl
  where
    by :
        (node : Option (Role × Buffered))
        → find (λ (k : Role × Buffered). is_live k.0) (reverse kept) ≡ node
        → (last : Option (Role × Buffered)) → head? (reverse kept) ≡ last
        → (elim node [ some k ↦ some k.1 | none ↦ elim last [ none ↦ none | some k ↦ some k.1 ] ])
          ≡ some b
        → (r : Role) × In (r, b) kept
    by (some k) f last g e =
        let same : k.1 ≡ b = ground arith in
        (
          k.0,
          subst (λ b. In (k.0, b) kept) same
              (In-reverse kept k
                (find-In (λ (k : Role × Buffered). is_live k.0) (reverse kept) k f).0),
        )
    by none f (some k) g e =
        let same : k.1 ≡ b = ground arith in
        (k.0, subst (λ b. In (k.0, b) kept) same (In-reverse kept k (head?-In (reverse kept) k g)))
    by none f none g e = cc

All-append :
    {A : Type 0} → (P : A → Type 0) (xs : List A) (x : A) → All P xs → P x → All P (xs ++ x ∷ [])
All-append P [] x a p = (p, tt)
All-append P (y ∷ ys) x a p = (a.0, All-append P ys x a.1 p)

module _ (error_code : List ℕ → Option ℤ) (role_of : ℕ → Role) (order holders : List ℕ) where
  abbrev policy : Policy
  policy = block_policy irreversible true holders

  -- A 400 with nodeos's Unknown Block.
  abbrev pub refuses : Buffered → Bool
  refuses b = b.status == 400 && is_unknown_block error_code b.body

  abbrev NoRefusal : Loop → Type 0
  NoRefusal s = All (λ (k : Role × Buffered). refuses k.1 ≡ false) s.kept

  -- An answer that refuses is that of an id holder.
  abbrev pub IsSettled : Reply → Type 0
  IsSettled reply =
      (b : Buffered)
      → read_of reply ≡ some b
      → refuses b ≡ true
      → (i : ℕ) × (reply ≡ answered i b) × (has holders i ≡ true)

  IsSettled-reply :
      (b : Buffered)
      → (i : ℕ) → (refuses b ≡ true → has holders i ≡ true)
      → IsSettled (answered i b)
  IsSettled-reply b i h c e r =
      let same : b ≡ c = ground arith in
      (i, ap (answered i) same, h (subst (λ b. refuses b ≡ true) (sym same) r))

  unread-IsSettled : (reply : Reply) → read_of reply ≡ none → IsSettled reply
  unread-IsSettled reply h b e r = cc

  give_up-IsSettled :
      (s : Loop) (lost_after_send : Bool) → NoRefusal s → IsSettled (give_up s lost_after_send)
  unfolding give_up
  give_up-IsSettled s true k = unread-IsSettled busy_lost refl
  give_up-IsSettled s false k = by (last_kept s.kept) refl
    where
      by :
          (found : Option Buffered)
          → last_kept s.kept ≡ found
          → IsSettled (elim found [ none ↦ busy_exhausted | some b ↦ kept_answer b ])
      by none f = unread-IsSettled busy_exhausted refl
      by (some b) f = λ c e r.
          let (role, i) = last_kept-In s.kept b f in
          let same : b ≡ c = ground arith in
          absurd (
            cc
              (same, r, All-In (λ (k : Role × Buffered). refuses k.1 ≡ false) s.kept (role, b) i k))

  abbrev Ends : Pass → Type 0
  Ends p = OnEnd NoRefusal (λ s reply. IsSettled reply) p

  on_body-Ends :
      (s : Loop) (i : ℕ) (b : Buffered)
      → NoRefusal s
      → Ends (on_body error_code role_of order policy s i b)
  unfolding on_body classify classify_body keeps settles
  on_body-Ends s i b k =
      by (b.status == 503) (refuses b) refl (b.status == 404) (has holders i) refl
    where
      by :
          (down refused : Bool)
          → refuses b ≡ refused
          → (lacking holder : Bool) → has holders i ≡ holder
          → Ends
              (elim (if down
                then next busy false
                else if refused
                then next unknown_block true
                else if lacking
                then next absent true
                else final) [
                  | final ↦ finish s (answered i b)
                  | next reason keep ↦
                      if settles reason holder
                      then finish s (answered i b)
                      else continue (
                          if keep && keeps reason true
                          then record s { kept = s.kept ++ (role_of i, b) ∷ [] }
                          else s)
                ])
      by true refused e lacking true h = k
      by true refused e lacking false h = k
      by false true e lacking true h = IsSettled-reply b i (λ _. h)
      by false true e lacking false h = k
      by false false e true true h =
          All-append (λ (k : Role × Buffered). refuses k.1 ≡ false) s.kept (role_of i, b) k e
      by false false e true false h =
          All-append (λ (k : Role × Buffered). refuses k.1 ≡ false) s.kept (role_of i, b) k e
      by false false e false holder h = IsSettled-reply b i (λ r. cc (r, e))

  on_response-Ends :
      (s : Loop) (i status : ℕ) (length : Option ℕ) (peeked : Peeked)
      → NoRefusal s
      → Ends (on_response error_code role_of order policy s i status length peeked)
  unfolding on_response
  on_response-Ends s i status length peeked k =
      by (needs_peek irreversible status length)
        (classify error_code irreversible (response status none)) peeked
    where
      by :
          (peek : Bool) (o : Outcome) (peeked : Peeked)
          → Ends (
              if not peek
              then (elim o [ final ↦ finish s (relayed i status) | next reason keep ↦ continue s ])
              else on_peeked error_code role_of order policy s i status peeked)
      by false final p = unread-IsSettled (relayed i status) refl
      by false (next reason keep) p = k
      by true o (whole body) = on_body-Ends s i (record { status = status; body = body }) k
      by true o partial = unread-IsSettled (relayed i status) refl
      by true o broken = k
      by true o late = give_up-IsSettled s false k

  on_attempt-Ends :
      (s : Loop) (i : ℕ) (cut_short : Bool) (r : Attempt)
      → NoRefusal s
      → Ends (on_attempt error_code role_of order policy s i cut_short r)
  unfolding on_attempt
  on_attempt-Ends s i cut (responded status length peeked) k =
      on_response-Ends s i status length peeked k
  on_attempt-Ends s i cut no_connect k = k
  on_attempt-Ends s i cut lost k = k
  on_attempt-Ends s i true timed_out k = give_up-IsSettled s false k
  on_attempt-Ends s i false timed_out k = k
  on_attempt-Ends s i true connect_timeout k = give_up-IsSettled s false k
  on_attempt-Ends s i false connect_timeout k = k

  send_to-Ends :
      (t : Turn) (s : Loop) (i : ℕ)
      → NoRefusal s
      → Ends (send_to error_code role_of order policy t s i)
  unfolding send_to
  send_to-Ends t s i k = by t.built
    where
      by :
          (built : Bool)
          → Ends (
              if built
              then on_attempt error_code role_of order policy
                  (record s { tried = s.tried ++ i ∷ []; sent = s.sent ++ (i, t.result) ∷ [] })
                  i
                  t.cut_short
                  t.result
              else continue (record s { tried = s.tried ++ i ∷ [] }))
      by true =
          on_attempt-Ends
            (record s { tried = s.tried ++ i ∷ []; sent = s.sent ++ (i, t.result) ∷ [] }) i
            t.cut_short t.result k
      by false = k

  pass_once-Ends :
      (t : Turn) (s : Loop) → NoRefusal s → Ends (pass_once error_code role_of order policy t s)
  pass_once-Ends t s k =
      pass_once-end error_code role_of order policy NoRefusal (λ s reply. IsSettled reply) t s k
        (give_up-IsSettled s false k) (λ i f. k) k (λ i f. send_to-Ends t s i k)

  -- For an irreversible block that an archive claims, whatever the turns bring: if the client is
  -- given an Unknown Block that the router read, it is the answer of one of the plan's id holders,
  -- given at once. No kept answer is an Unknown Block.
  pub attempts-refusal :
      (ts : List Turn) (b : Buffered)
      → let reply = (attempts error_code role_of order policy ts new_loop).1 in
        read_of reply ≡ some b
        → refuses b ≡ true
        → (i : ℕ) × (reply ≡ answered i b) × (has holders i ≡ true)
  attempts-refusal ts =
      attempts-end error_code role_of order policy NoRefusal (λ s reply. IsSettled reply)
        (λ s k. give_up-IsSettled s false k) pass_once-Ends ts new_loop tt
