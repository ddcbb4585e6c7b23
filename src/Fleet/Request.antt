-- ===== src/Fleet/Request.antt =====
-- src/fleet/planner.rs: what a request asks for, what a session avoids and what it is to do next.
use fleet_router.Prelude.{
  ℕ, ◌*◌, Bool, not, ◌&&◌, List, [], ◌∷◌, ◌++◌, Option, none, some, ltb, any, filter, text_eq,
}
use fleet_router.Prelude.Words.{secs, le_bytes}
use fleet_router.Abi.{fnv1a64}
use fleet_router.Models.{Role}
use fleet_router.Models.Quarantine.{later}
use fleet_router.Wire.{BlocksRequest}

pub record Need : Type 0 where
  pub traces : Bool
  pub deltas : Bool
  pub finality : Bool
  pub block : Bool

unfoldable pub need_of : BlocksRequest → Need
need_of r = record {
  traces = r.fetch_traces;
  deltas = r.fetch_deltas;
  finality = r.v1 && r.fetch_finality_data;
  block = r.fetch_block;
}

pub record Shape : Type 0 where
  pub need : Need
  pub end : ℕ
  pub irreversible_only : Bool

unfoldable pub shape_of : BlocksRequest → Shape
unfolding need_of
shape_of r = record { need = need_of r; end = r.end; irreversible_only = r.irreversible_only }

-- Which upstreams define "the union": every enabled known one, or those online.
pub data Union : Type 0 where
  sticky online : Union

pub record Excludes : Type 0 where
  pub soft : Option (List ℕ)
  pub hard : List (List ℕ × ℕ)

unfoldable pub hard_active : Excludes → List ℕ → ℕ → Bool
hard_active ex endpoint now = any (λ (x : List ℕ × ℕ). text_eq x.0 endpoint && ltb now x.1) ex.hard

-- The deadline: `none` is the panic of `now + 365 days` above the largest instant.
hard_until : ℕ → ℕ → ℕ → Option ℕ
unfolding later
hard_until limit now ttl = elim (later limit now ttl) [
  | some until ↦ some until
  | none ↦ later limit now (secs (86_400 * 365))
]

unfoldable pub add_hard : ℕ → Excludes → List ℕ → ℕ → ℕ → Option Excludes
unfolding hard_until
add_hard limit ex endpoint ttl now =
    let kept = filter (λ (x : List ℕ × ℕ). ltb now x.1 && not (text_eq x.0 endpoint)) ex.hard in
    elim (hard_until limit now ttl) [
      | none ↦ none
      | some until ↦ some (record ex { hard = kept ++ (endpoint, until) ∷ [] })
    ]

pub record ServeStep : Type 0 where
  pub up : ℕ
  pub endpoint : List ℕ
  pub role : Role
  pub start : ℕ
  pub req_end : ℕ

pub data HoldWhy : Type 0 where
  offline quarantined at_capacity busy : HoldWhy

pub data Step : Type 0 where
  serve : ServeStep → Step
  hold : (block : ℕ) (why : HoldWhy) (bounded : Bool) → Step
  wait : (block : ℕ) → Step
  gap : (block : ℕ) → Step
  done : Step

unfoldable pub rendezvous : ℕ → List ℕ → ℕ
unfolding fnv1a64
rendezvous session_id endpoint = fnv1a64 (le_bytes 8 session_id ++ endpoint)
