-- ===== src/Session/Status/Queue.antt =====
-- The queue of status requests against its specification: a queue of requests that are answered
-- first in, first out.
use mathlib.Core.List.{append_assoc, append-nil}
use fleet_router.Prelude.{
  ℕ, ◌+◌, ◌≤◌, ◌≡◌, refl, sym, ap, ◌∙◌, inl, inr, Bool, true, false, List, [], ◌∷◌, ◌++◌, Option,
  none, some, arith, leb, if◌then◌else◌, is_some, is_nil, length, length-append, Bool-cases,
}
use fleet_router.Session.Status.{
  max_queued_status, StatusStep, reply, relay, StatusFlow, no_requests, push_status, next_status,
  next_held, next_of, reply_arrived, arrived, put_back, status_link_ended, get_or_insert,
}

-- What happens to a session's status requests.
pub data StatusEvent : Type 0 where
  asked : (v1 : Bool) (now wait : ℕ) → StatusEvent
  driven : (ready can_relay : Bool) → StatusEvent
  replied : StatusEvent
  link_lost : (now wait : ℕ) → StatusEvent

-- The queue, the requests that it took, and those that the client was given an answer to.
pub record History : Type 0 where
  pub flow : StatusFlow
  pub taken : List Bool
  pub answered : List Bool

abbrev pub no_history : History
no_history = record { flow = no_requests; taken = []; answered = [] }

abbrev answer_of : Option StatusStep → List Bool
answer_of none = []
answer_of (some (reply v1)) = v1 ∷ []
answer_of (some (relay v1)) = []

abbrev reply_of : Option Bool → List Bool
reply_of none = []
reply_of (some v1) = v1 ∷ []

unfoldable pub status_step : StatusEvent → History → History
status_step (asked v1 now wait) s =
    let (flow, fits) = push_status s.flow v1 now wait in
    record s { flow = flow; taken = if fits then s.taken ++ v1 ∷ [] else s.taken }
status_step (driven ready can_relay) s =
    let (flow, what) = next_status s.flow ready can_relay in
    record s { flow = flow; answered = s.answered ++ answer_of what }
status_step replied s =
    let (flow, what) = reply_arrived s.flow in
    record s { flow = flow; answered = s.answered ++ reply_of what }
status_step (link_lost now wait) s = record s { flow = status_link_ended s.flow now wait }

unfoldable pub status_run : List StatusEvent → History → History
status_run [] s = s
status_run (e ∷ es) s = status_run es (status_step e s)

-- The requests that are not answered yet, oldest first.
abbrev pub pending : StatusFlow → List Bool
pending q = q.backlog ++ q.hold

pub record IsOrdered (s : History) : Type 0 where
  pub in_order : s.answered ++ pending s.flow ≡ s.taken
  pub bounded : length (pending s.flow) ≤ max_queued_status
  pub timed : is_nil s.flow.hold ≡ false → is_some s.flow.deadline ≡ true

-- One operation on the queue: `out` is what it answers of the requests pending before.
abbrev Serves : StatusFlow → List Bool → StatusFlow → Type 0
Serves q out q' =
    (out ++ pending q' ≡ pending q)
    × ((is_nil q.hold ≡ false → is_some q.deadline ≡ true)
        → is_nil q'.hold ≡ false
        → is_some q'.deadline ≡ true)

next_held-Serves :
    (hold backlog : List Bool) (deadline : Option ℕ) (ready can_relay : Bool)
    → let q : StatusFlow = record { hold = hold; backlog = backlog; deadline = deadline } in
      let (q', what) = next_held hold q ready can_relay in Serves q (answer_of what) q'
unfolding next_held next_of
next_held-Serves [] backlog deadline ready can_relay = (refl, λ t h. cc)
next_held-Serves (v1 ∷ rest) [] deadline true can_relay = (refl, λ t h. rw h (t refl))
next_held-Serves (v1 ∷ rest) [] deadline false true = (refl, λ t h. rw h (t refl))
next_held-Serves (v1 ∷ rest) [] deadline false false = (refl, λ t h. t h)
next_held-Serves (v1 ∷ rest) (b ∷ bs) deadline ready true =
    (append_assoc (b ∷ bs) (v1 ∷ []) rest, λ t h. rw h (t refl))
next_held-Serves (v1 ∷ rest) (b ∷ bs) deadline ready false = (refl, λ t h. t h)

next-Serves :
    (q : StatusFlow) (ready can_relay : Bool)
    → let (q', what) = next_status q ready can_relay in Serves q (answer_of what) q'
unfolding next_status
next-Serves q ready can_relay = next_held-Serves q.hold q.backlog q.deadline ready can_relay

arrived-Serves :
    (backlog : List Bool) (q : StatusFlow)
    → q.backlog ≡ backlog
    → let (q', what) = arrived backlog q in Serves q (reply_of what) q'
unfolding arrived
arrived-Serves [] q e = (refl, λ t h. t h)
arrived-Serves (v1 ∷ rest) q e = (ap (λ (b : List Bool). b ++ q.hold) (sym e), λ t h. t h)

put_back_lem : (backlog hold : List Bool) → put_back backlog hold ≡ backlog ++ hold
unfolding put_back
put_back_lem [] hold = refl
put_back_lem (v1 ∷ rest) hold = ap (λ (b : List Bool). v1 ∷ b) (put_back_lem rest hold)

link_ended-Serves : (q : StatusFlow) (now wait : ℕ) → Serves q [] (status_link_ended q now wait)
unfolding status_link_ended
link_ended-Serves q now wait = (put_back_lem q.backlog q.hold, λ t h. timed q.deadline h)
  where
    timed :
        (deadline : Option ℕ)
        → is_nil (put_back q.backlog q.hold) ≡ false
        → is_some (
            if is_nil (put_back q.backlog q.hold)
            then deadline
            else get_or_insert deadline (now + wait))
          ≡ true
    timed none h = rw h refl
    timed (some d) h = rw h refl

serve-IsOrdered :
    (s : History) (out : List Bool) (flow : StatusFlow)
    → Serves s.flow out flow
    → IsOrdered s
    → IsOrdered (record s { flow = flow; answered = s.answered ++ out })
serve-IsOrdered s out flow (same, timed) k = record {
  in_order =
      append_assoc s.answered out (pending flow)
      ∙ ap (λ (p : List Bool). s.answered ++ p) same
      ∙ k.in_order;
  bounded = omega (arith, ap (length {0}) same, length-append {0} out (pending flow), k.bounded);
  timed = timed k.timed;
}

take-IsOrdered :
    (s : History) (v1 : Bool) (now wait : ℕ)
    → IsOrdered s
    → IsOrdered (status_step (asked v1 now wait) s)
unfolding status_step push_status
take-IsOrdered s v1 now wait k =
    elim (Bool-cases (leb max_queued_status (length s.flow.hold + length s.flow.backlog))) [
      | inl full ↦ rw full k
      | inr room ↦ rw room (record {
        in_order =
            ap (λ (p : List Bool). s.answered ++ p)
              (sym (append_assoc s.flow.backlog s.flow.hold (v1 ∷ [])))
            ∙ sym (append_assoc s.answered (pending s.flow) (v1 ∷ []))
            ∙ ap (λ (p : List Bool). p ++ v1 ∷ []) k.in_order;
        bounded = ground (
          arith,
          length-append {0} s.flow.backlog (s.flow.hold ++ v1 ∷ []),
          length-append {0} s.flow.hold (v1 ∷ []),
        );
        timed = λ h. inserted s.flow.deadline;
      })
    ]
  where
    inserted : (d : Option ℕ) → is_some (get_or_insert d (now + wait)) ≡ true
    inserted none = refl
    inserted (some d) = refl

step-IsOrdered : (e : StatusEvent) (s : History) → IsOrdered s → IsOrdered (status_step e s)
unfolding status_step reply_arrived
step-IsOrdered (asked v1 now wait) s k = take-IsOrdered s v1 now wait k
step-IsOrdered (driven ready can_relay) s k =
    serve-IsOrdered s _ _ (next-Serves s.flow ready can_relay) k
step-IsOrdered replied s k = serve-IsOrdered s _ _ (arrived-Serves s.flow.backlog s.flow refl) k
step-IsOrdered (link_lost now wait) s k =
    let served =
      serve-IsOrdered s [] (status_link_ended s.flow now wait) (link_ended-Serves s.flow now wait)
        k in
    record {
      in_order =
          ap (λ (a : List Bool). a ++ pending (status_link_ended s.flow now wait))
            (sym (append-nil s.answered))
          ∙ served.in_order;
      bounded = served.bounded;
      timed = served.timed;
    }

run-IsOrdered : (es : List StatusEvent) (s : History) → IsOrdered s → IsOrdered (status_run es s)
unfolding status_run
run-IsOrdered [] s k = k
run-IsOrdered (e ∷ es) s k = run-IsOrdered es (status_step e s) (step-IsOrdered e s k)

-- The status queue implements a queue, whatever is asked, relayed, answered and lost with a link,
-- and in whatever order: the answers given so far, with the requests that wait, are the requests
-- that were taken, in their order; at most `MAX_QUEUED_STATUS` wait; and while a request waits to
-- be answered or relayed there is a deadline.
pub status_run-IsOrdered : (es : List StatusEvent) → IsOrdered (status_run es no_history)
status_run-IsOrdered es =
    run-IsOrdered es no_history (record { in_order = refl; bounded = omega arith; timed = λ h. cc })
