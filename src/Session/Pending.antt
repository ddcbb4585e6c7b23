-- ===== src/Session/Pending.antt =====
-- src/session/client.rs: `PendingClientFrames`, the client frames that are held while the session
-- has no link. A frame is the list of its payload's bytes.
use fleet_router.Prelude.{
  ℕ, ◌+◌, ◌-◌, ◌≤◌, max, min, ◌≡◌, ◌↔◌, Bool, true, false, List, [], ◌∷◌, ◌++◌, Option, none, some,
  arith, ltb, if◌then◌else◌, length,
}
use fleet_router.Prelude.Words.{usize_max}

abbrev pub max_pending_client_bytes : ℕ
max_pending_client_bytes = 65536

pub record PendingClientFrames : Type 0 where
  pub frames : List (List ℕ)
  pub bytes : ℕ

abbrev pub no_frames : PendingClientFrames
no_frames = record { frames = []; bytes = 0 }

abbrev pub accounted : List ℕ → ℕ
accounted msg = max (length msg) 1

unfoldable pub try_push : PendingClientFrames → List ℕ → PendingClientFrames × Bool
try_push p msg =
    let n = accounted msg in
    if ltb max_pending_client_bytes (min (p.bytes + n) usize_max)
    then (p, false)
    else (record p { bytes = p.bytes + n; frames = p.frames ++ msg ∷ [] }, true)

pop : List (List ℕ) → ℕ → PendingClientFrames × Option (List ℕ)
pop [] bytes = (record { frames = []; bytes = bytes }, none)
pop (msg ∷ frames) bytes = (record { frames = frames; bytes = bytes - accounted msg }, some msg)

unfoldable pub pop_front : PendingClientFrames → PendingClientFrames × Option (List ℕ)
unfolding pop
pop_front p = pop p.frames p.bytes

abbrev pub total : List (List ℕ) → ℕ
total [] = 0
total (msg ∷ frames) = accounted msg + total frames

total-append : (xs ys : List (List ℕ)) → total (xs ++ ys) ≡ total xs + total ys
total-append [] ys = omega arith
total-append (x ∷ xs) ys = omega (arith, total-append xs ys)

-- The bytes are those of the frames, and within the cap.
pub record IsAccounted (p : PendingClientFrames) : Type 0 where
  pub counted : p.bytes ≡ total p.frames
  pub within : p.bytes ≤ max_pending_client_bytes

-- A frame is queued at the back exactly when it fits under the cap, and otherwise nothing changes;
-- the accounting stays right.
pub try_push-IsAccounted :
    (p : PendingClientFrames) (msg : List ℕ)
    → IsAccounted p
    → let (p', fits) = try_push p msg in
      IsAccounted p'
      × ((fits ≡ true) ↔ (total p.frames + accounted msg ≤ max_pending_client_bytes))
      × (p'.frames ≡ (if fits then p.frames ++ msg ∷ [] else p.frames))
unfolding try_push
try_push-IsAccounted p msg v = ground (arith, total-append p.frames (msg ∷ []), v.counted, v.within)

pub pop_front-IsAccounted : (p : PendingClientFrames) → IsAccounted p → IsAccounted (pop_front p).0
unfolding pop_front
pop_front-IsAccounted p v = popped p.frames p.bytes v.counted v.within
  where
    popped :
        (frames : List (List ℕ)) (bytes : ℕ)
        → bytes ≡ total frames
        → bytes ≤ max_pending_client_bytes
        → IsAccounted (pop frames bytes).0
    popped [] bytes e h = ground arith
    popped (msg ∷ frames) bytes e h = ground arith
