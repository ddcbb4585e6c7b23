-- ===== src/ChainApi/Attempts/Laws.antt =====
-- The passes of the loop: what they keep, and that no API is asked twice.
use fleet_router.Prelude.{
  ℕ, ◌+◌, ◌≡◌, refl, sym, subst, Bool, true, false, not, ◌&&◌, ◌||◌, List, [], ◌∷◌, ◌++◌, Option,
  none, some, map, leb, ltb, if◌then◌else◌, any, In, length,
}
use fleet_router.Prelude.Int.{ℤ}
use fleet_router.Models.{Role}
use fleet_router.ChainApi.Attempt.{
  NextAttempt, try, wait, exhausted, has, next_of, next_attempt, final, next, needs_peek, classify,
  response, settles, keeps,
}
use fleet_router.ChainApi.Attempts.{
  Policy, is_exec, is_info, region_of, claimed_of, holders_of, Peeked, whole, partial, broken, late,
  Attempt, responded, no_connect, lost, connect_timeout, timed_out, Turn, Buffered, Reply, Loop,
  new_loop, Pass, continue, break, finish, on_body, on_peeked, on_response, on_attempt, send_to,
  pass_once, attempts, slot_races, give_up,
}
use fleet_router.ChainApi.Attempts.Tried.{
  Distinct, IsTried, Fresh, OnApi, next_attempt-Fresh, tried-IsTried, sent-IsTried,
}

abbrev pub OnPass : (Loop → Type 0) → Pass → Type 0
OnPass P (continue s) = P s
OnPass P (break s after) = P s
OnPass P (finish s reply) = P s

-- The log of a pass is that of before.
abbrev SameLog : Loop → Loop → Type 0
SameLog s s' = (s'.tried ≡ s.tried) × (s'.sent ≡ s.sent)

module _ (error_code : List ℕ → Option ℤ) (role_of : ℕ → Role) (order : List ℕ)
    (policy : Policy) where
  on_body-SameLog :
      (s : Loop) (i : ℕ) (b : Buffered)
      → OnPass (SameLog s) (on_body error_code role_of order policy s i b)
  unfolding on_body
  on_body-SameLog s i b =
      by (classify error_code (region_of policy) (response b.status (some b.body)))
    where
      by_keep :
          (settled keep : Bool)
          → OnPass (SameLog s) (
              if settled
              then finish s (Reply.answered i b)
              else continue (if keep then record s { kept = s.kept ++ (role_of i, b) ∷ [] } else s))
      by_keep true keep = (refl, refl)
      by_keep false true = (refl, refl)
      by_keep false false = (refl, refl)

      by :
          (o : fleet_router.ChainApi.Attempt.Outcome)
          → OnPass (SameLog s) (elim o [
            | final ↦ finish s (Reply.answered i b)
            | next reason keep ↦
                if settles reason (has (holders_of policy) i)
                then finish s (Reply.answered i b)
                else continue (
                    if keep && keeps reason (claimed_of policy)
                    then record s { kept = s.kept ++ (role_of i, b) ∷ [] }
                    else s)
          ])
      by final = (refl, refl)
      by (next reason keep) =
          by_keep (settles reason (has (holders_of policy) i))
            (keep && keeps reason (claimed_of policy))

  on_response-SameLog :
      (s : Loop) (i status : ℕ) (length : Option ℕ) (peeked : Peeked)
      → OnPass (SameLog s) (on_response error_code role_of order policy s i status length peeked)
  unfolding on_response
  on_response-SameLog s i status length peeked =
      by (is_info policy && leb 500 status && any (λ j. not (has s.tried j)) order) (is_exec policy)
        (needs_peek (region_of policy) status length)
        (classify error_code (region_of policy) (response status none)) peeked
    where
      by :
          (again exec peek : Bool) (o : fleet_router.ChainApi.Attempt.Outcome) (peeked : Peeked)
          → OnPass (SameLog s) (
              if again
              then continue s
              else if exec
              then finish s (Reply.relayed i status)
              else if not peek
              then (elim o [
                | final ↦ finish s (Reply.relayed i status)
                | next reason keep ↦ continue s
              ])
              else on_peeked error_code role_of order policy s i status peeked)
      by true exec peek o p = (refl, refl)
      by false true peek o p = (refl, refl)
      by false false false final p = (refl, refl)
      by false false false (next reason keep) p = (refl, refl)
      by false false true o (whole body) =
          on_body-SameLog s i (record { status = status; body = body })
      by false false true o partial = (refl, refl)
      by false false true o broken = (refl, refl)
      by false false true o late = (refl, refl)

  on_attempt-SameLog :
      (s : Loop) (i : ℕ) (cut_short : Bool) (r : Attempt)
      → OnPass (SameLog s) (on_attempt error_code role_of order policy s i cut_short r)
  unfolding on_attempt
  on_attempt-SameLog s i cut (responded status length peeked) =
      on_response-SameLog s i status length peeked
  on_attempt-SameLog s i cut no_connect = (refl, refl)
  on_attempt-SameLog s i cut lost = by (is_exec policy)
    where
      by : (exec : Bool) → OnPass (SameLog s) (if exec then break s true else continue s)
      by true = (refl, refl)
      by false = (refl, refl)
  on_attempt-SameLog s i cut timed_out = by (is_exec policy) cut
    where
      by :
          (exec cut : Bool)
          → OnPass
              (SameLog s)
              (if exec then break s true else if cut then break s false else continue s)
      by true cut = (refl, refl)
      by false true = (refl, refl)
      by false false = (refl, refl)
  on_attempt-SameLog s i true connect_timeout = (refl, refl)
  on_attempt-SameLog s i false connect_timeout = (refl, refl)

same-IsTried : (order : List ℕ) (s s' : Loop) → SameLog s s' → IsTried order s → IsTried order s'
same-IsTried order s s' (t, l) k = record {
  distinct = subst Distinct (sym t) k.distinct;
  ordered = λ i m. k.ordered i (subst (λ is. In i is) t m);
  once = subst (λ log. Distinct (map (λ (e : ℕ × Attempt). e.0) log)) (sym l) k.once;
  was_tried = λ i h.
      subst (λ is. has is i ≡ true) (sym t)
        (k.was_tried i (subst (λ log. has (map (λ (e : ℕ × Attempt). e.0) log) i ≡ true) l h));
}

abbrev pub OnEnd : (Loop → Type 0) → (Loop → Reply → Type 0) → Pass → Type 0
OnEnd P Q (continue s) = P s
OnEnd P Q (break s after) = Q s (give_up s after)
OnEnd P Q (finish s reply) = Q s reply

kept_end : (P : Loop → Type 0) (p : Pass) → OnPass P p → OnEnd P (λ s reply. P s) p
kept_end P (continue s) h = h
kept_end P (break s after) h = h
kept_end P (finish s reply) h = h

OnPass-map : (P Q : Loop → Type 0) (p : Pass) → ((s : Loop) → P s → Q s) → OnPass P p → OnPass Q p
OnPass-map P Q (continue s) f h = f s h
OnPass-map P Q (break s after) f h = f s h
OnPass-map P Q (finish s reply) f h = f s h

module _ (error_code : List ℕ → Option ℤ) (role_of : ℕ → Role) (order : List ℕ)
    (policy : Policy) where
  send_to-IsTried :
      (t : Turn) (s : Loop) (i : ℕ)
      → Fresh order s.tried i
      → IsTried order s
      → OnPass (IsTried order) (send_to error_code role_of order policy t s i)
  unfolding send_to
  send_to-IsTried t s i f k = by t.built
    where
      by :
          (built : Bool)
          → OnPass (IsTried order) (
              if built
              then on_attempt error_code role_of order policy
                  (record s { tried = s.tried ++ i ∷ []; sent = s.sent ++ (i, t.result) ∷ [] })
                  i
                  t.cut_short
                  t.result
              else continue (record s { tried = s.tried ++ i ∷ [] }))
      by true =
          let s1 : Loop = record s {
            tried = s.tried ++ i ∷ [];
            sent = s.sent ++ (i, t.result) ∷ [];
          } in
          OnPass-map (SameLog s1) (IsTried order)
            (on_attempt error_code role_of order policy s1 i t.cut_short t.result)
            (λ s' e. same-IsTried order s1 s' e (sent-IsTried order s i t.result f k))
            (on_attempt-SameLog error_code role_of order policy s1 i t.cut_short t.result)
      by false = tried-IsTried order s i f k

  -- A pass that is no send leaves the loop, or only notes a try or a lost race for a slot.
  pub pass_once-end :
      (P : Loop → Type 0) (Q : Loop → Reply → Type 0) (t : Turn) (s : Loop)
      → P s
      → Q s (give_up s false)
      → ((i : ℕ) → Fresh order s.tried i → P (record s { tried = s.tried ++ i ∷ [] }))
      → P (record s { races = s.races + 1 })
      → ((i : ℕ)
          → Fresh order s.tried i
          → OnEnd P Q (send_to error_code role_of order policy t s i))
      → OnEnd P Q (pass_once error_code role_of order policy t s)
  unfolding pass_once
  pass_once-end P Q t s k out skip race send =
      by t.expired (next_attempt order s.tried (λ i. t.is_full i || not (t.present i)))
        (next_attempt-Fresh order s.tried (λ i. t.is_full i || not (t.present i)))
    where
      by_try :
          (i : ℕ)
          → Fresh order s.tried i
          → (here acquired races : Bool)
          → OnEnd P Q (
              if not here
              then continue (record s { tried = s.tried ++ i ∷ [] })
              else if acquired
              then send_to error_code role_of order policy t s i
              else if races
              then continue (record s { races = s.races + 1 })
              else break s false)
      by_try i f false acquired races = skip i f
      by_try i f true true races = send i f
      by_try i f true false true = race
      by_try i f true false false = out

      by_wait :
          (i : ℕ)
          → Fresh order s.tried i
          → (ok : Bool)
          → OnEnd P Q (if ok then send_to error_code role_of order policy t s i else break s false)
      by_wait i f true = send i f
      by_wait i f false = out

      by :
          (expired : Bool) (a : NextAttempt)
          → OnApi (Fresh order s.tried) a
          → OnEnd P Q (
              if expired then break s false else (elim a [
                | exhausted ↦ break s false
                | try i ↦
                    if not (t.present i)
                    then continue (record s { tried = s.tried ++ i ∷ [] })
                    else if t.acquired
                    then send_to error_code role_of order policy t s i
                    else if ltb s.races slot_races
                    then continue (record s { races = s.races + 1 })
                    else break s false
                | wait i ↦
                    if t.present i && t.acquired
                    then send_to error_code role_of order policy t s i
                    else break s false
              ]))
      by true a f = out
      by false exhausted f = out
      by false (try i) f = by_try i f (t.present i) t.acquired (ltb s.races slot_races)
      by false (wait i) f = by_wait i f (t.present i && t.acquired)

  pass_once-IsTried :
      (t : Turn) (s : Loop)
      → IsTried order s
      → OnEnd
          (IsTried order)
          (λ s reply. IsTried order s)
          (pass_once error_code role_of order policy t s)
  pass_once-IsTried t s k =
      pass_once-end (IsTried order) (λ s reply. IsTried order s) t s k k
        (λ i f. tried-IsTried order s i f k)
        (same-IsTried order s (record s { races = s.races + 1 }) (refl, refl) k)
        (λ i f.
          kept_end (IsTried order) (send_to error_code role_of order policy t s i)
            (send_to-IsTried t s i f k))

  -- What each pass keeps, and what follows where the loop ends.
  pub attempts-end :
      (P : Loop → Type 0) (Q : Loop → Reply → Type 0)
      → ((s : Loop) → P s → Q s (give_up s false))
      → ((t : Turn) (s : Loop) → P s → OnEnd P Q (pass_once error_code role_of order policy t s))
      → (ts : List Turn) (s : Loop) → P s
      → let (s', reply) = attempts error_code role_of order policy ts s in Q s' reply
  unfolding attempts
  attempts-end P Q at_end step [] s k = at_end s k
  attempts-end P Q at_end step (t ∷ ts) s k =
      by (pass_once error_code role_of order policy t s) (step t s k)
        (attempts-end P Q at_end step ts)
    where
      by :
          (p : Pass)
          → OnEnd P Q p
          → ((s : Loop)
              → P s
              → let (s', reply) = attempts error_code role_of order policy ts s in Q s' reply)
          → let end : Loop × Reply = elim p [
            | continue s ↦ attempts error_code role_of order policy ts s
            | break s after ↦ (s, give_up s after)
            | finish s reply ↦ (s, reply)
          ] in
            Q end.0 end.1
      by (continue s) h rest = rest s h
      by (break s after) h rest = h
      by (finish s reply) h rest = h

  -- Whatever the turns bring: the APIs that were tried are distinct ones of the order, and no API
  -- is sent the request twice.
  pub attempts-IsTried :
      (ts : List Turn) → IsTried order (attempts error_code role_of order policy ts new_loop).0
  attempts-IsTried ts =
      attempts-end (IsTried order) (λ s reply. IsTried order s) (λ s k. k) pass_once-IsTried ts
        new_loop
        (record { distinct = tt; ordered = λ i m. elim m [ ]; once = tt; was_tried = λ i h. cc })
