-- ===== src/ChainApi/Attempts/Exec.antt =====
-- What may have been executed is not sent again.
use fleet_router.Prelude.{ℕ, ◌≡◌, ◌⊎◌, List, [], ◌∷◌, ◌++◌, Option, All}
use fleet_router.Prelude.Int.{ℤ}
use fleet_router.Models.{Role}
use fleet_router.ChainApi.Attempts.{
  Peeked, Attempt, responded, no_connect, lost, connect_timeout, timed_out, Reply, break, finish,
  give_up, pass_once,
}
use fleet_router.ChainApi.Attempts.Laws.{OnEnd}

-- The connection was never there: nothing was written.
abbrev pub IsUnsent : ℕ × Attempt → Type 0
IsUnsent (i, no_connect) = Unit {0}
IsUnsent (i, connect_timeout) = Unit {0}
IsUnsent (i, lost) = ⊥
IsUnsent (i, timed_out) = ⊥
IsUnsent (i, responded status length peeked) = ⊥

-- All but the last request of the log were never written.
abbrev pub IsSentOnce : List (ℕ × Attempt) → Type 0
IsSentOnce log =
    All IsUnsent log
    ⊎ ((before : List (ℕ × Attempt)) × (e : ℕ × Attempt) × All IsUnsent before
        × (log ≡ before ++ e ∷ []))

module _ (error_code : List ℕ → Option ℤ) (role_of : ℕ → Role) (order : List ℕ) where
  abbrev Ends : fleet_router.ChainApi.Attempts.Pass → Type 0
  Ends p = OnEnd (λ s. All IsUnsent s.sent) (λ s reply. IsSentOnce s.sent) p
