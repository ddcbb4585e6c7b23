-- ===== src/ChainApi/Tests.antt =====
-- A verified archive of the blocks below 400, and a node whose log begins at 300.
use fleet_router.Prelude.{
  ℕ, ◌≡◌, refl, inl, true, false, List, [], ◌∷◌, Option, none, some, ◌==◌, if◌then◌else◌,
}
use fleet_router.Prelude.Texts.{codes}
use fleet_router.Prelude.Int.{ℤ, pos}
use fleet_router.Ship.{contains}
use fleet_router.Models.{Role}
use fleet_router.Fleet.Upstream.{greatest}
use fleet_router.ChainApi.Route.{
  block_info, endpoint_path, state, Uri, class, classify_request, origin_target, proxied,
  from_target, allows,
}
use fleet_router.ChainApi.Route.Laws.{IsCall, classify_request-IsCall}
use fleet_router.ChainApi.View.{ApiView, usable, lists, archives, holds_id}
use fleet_router.ChainApi.Plan.{
  irreversible, BlockQuery, Hint, live_first, RoutedPlan, routed, plan_block, region, fleet_lib,
  routed_in, is_get_block,
}
use fleet_router.ChainApi.Plan.Members.{IsArchive}
use fleet_router.ChainApi.Plan.Candidates.{IsSafePlan, plan_block-IsSafePlan}
use fleet_router.ChainApi.Plan.Reserved.{HasHolder, plan_block-keeps_holder}
use fleet_router.ChainApi.Attempt.{
  has, is_unknown_block, next_attempt, needs_peek, classify, settles, keeps,
}
use fleet_router.ChainApi.Attempts.{
  Turn, Attempt, Buffered, answered, on_response, on_body, responded, whole, attempts, new_loop,
  block_policy,
}
use fleet_router.ChainApi.Attempts.Tried.{IsTried}
use fleet_router.ChainApi.Attempts.Laws.{attempts-IsTried}
use fleet_router.ChainApi.Attempts.Refusals.{read_of, refuses, attempts-refusal}

abbrev account_call : Uri
account_call = record {
  has_scheme = false;
  has_authority = false;
  path_and_query = some (codes "/v1/chain/get_account");
}

account_state : class (classify_request false account_call (state ∷ [])) ≡ some state
unfolding classify_request origin_target class proxied from_target endpoint_path allows
account_state = refl

classify_request-IsCall_example :
    (false ≡ false)
    × (allows (state ∷ []) state ≡ true)
    × ((target : List ℕ) × (origin_target account_call ≡ some target) × IsCall target)
classify_request-IsCall_example =
    classify_request-IsCall false account_call (state ∷ []) state account_state

abbrev archive : ApiView
archive = record {
  index = 0;
  endpoint = codes "10.0.3.10:8890";
  role = Role.frozen;
  priority = 0;
  weight = 1;
  up = true;
  busy = false;
  in_flight = 0;
  full = false;
  apis = some (codes "/v1/chain/get_block_info" ∷ []);
  head = none;
  lib = none;
  earliest = none;
  verified = true;
  blocks = some (record { begin = 1; end = 400 });
  declared = some (record { begin = 2; end = 400 });
}

abbrev node : ApiView
node = record archive {
  index = 4;
  role = Role.live;
  apis = none;
  head = some 1000;
  lib = some 990;
  earliest = some 300;
  verified = false;
  blocks = none;
  declared = none;
}

abbrev apis : List ApiView
apis = archive ∷ node ∷ []

-- Block 350, by its id.
abbrev query : BlockQuery
query = record {
  endpoint = block_info;
  hint = some (record { num = 350; by_id = true });
  ship_lib = none;
  block_source = live_first;
  max_attempts = 2;
}

abbrev hint : Hint
hint = record { num = 350; by_id = true }

abbrev planned : RoutedPlan
planned = routed_in irreversible hint query apis 2

planned_is : plan_block query apis ≡ routed planned
unfolding plan_block region fleet_lib archives greatest
planned_is = refl

planned_final : planned.region ≡ irreversible
unfolding routed_in
planned_final = refl

archive-IsArchive : IsArchive block_info planned.n archive
unfolding routed_in usable lists archives endpoint_path contains is_get_block
archive-IsArchive = record { holds = refl; serves = refl; decoded = refl }

archive_holds : holds_id archive planned.n ≡ true
unfolding routed_in holds_id archives contains
archive_holds = refl

plan_block-IsSafePlan_example : IsSafePlan block_info apis 2 planned
plan_block-IsSafePlan_example = plan_block-IsSafePlan query apis hint planned refl planned_is

plan_block-keeps_holder_example : HasHolder apis planned
plan_block-keeps_holder_example =
    plan_block-keeps_holder query apis hint planned refl planned_is planned_final archive (inl refl)
      refl archive_holds archive-IsArchive

-- Both refuse the id.
abbrev refused : List ℕ → Option ℤ
refused body = some (pos 3_100_002)

abbrev roles : ℕ → Role
roles i = if i == 0 then Role.frozen else Role.live

abbrev turn : Attempt → Turn
turn result = record {
  expired = false;
  present = λ i. true;
  is_full = λ i. false;
  acquired = true;
  built = true;
  cut_short = false;
  result = result;
}

abbrev turns : List Turn
turns =
    turn (responded 400 (some 2) (whole (123 ∷ 125 ∷ [])))
    ∷ turn (responded 400 none (whole (123 ∷ 125 ∷ [])))
    ∷ []

abbrev refusal : Buffered
refusal = record { status = 400; body = 123 ∷ 125 ∷ [] }

refusal_read :
    read_of
      (attempts refused roles
        (4 ∷ 0 ∷ [])
        (block_policy irreversible true (0 ∷ []))
        turns
        new_loop).1
    ≡ some refusal
unfolding attempts next_attempt on_response needs_peek on_body classify is_unknown_block settles
    keeps
refusal_read = refl

refuses-refusal : refuses refused roles (4 ∷ 0 ∷ []) (0 ∷ []) refusal ≡ true
unfolding is_unknown_block
refuses-refusal = refl

attempts-refusal_example :
    (i : ℕ) × ((attempts refused roles
        (4 ∷ 0 ∷ [])
        (block_policy irreversible true (0 ∷ []))
        turns
        new_loop).1
      ≡ answered i refusal)
    × (has (0 ∷ []) i ≡ true)
attempts-refusal_example =
    attempts-refusal refused roles (4 ∷ 0 ∷ []) (0 ∷ []) turns refusal refusal_read refuses-refusal

attempts-IsTried_example :
    IsTried
      (4 ∷ 0 ∷ [])
      (attempts refused roles
        (4 ∷ 0 ∷ [])
        (block_policy irreversible true (0 ∷ []))
        turns
        new_loop).0
attempts-IsTried_example =
    attempts-IsTried refused roles (4 ∷ 0 ∷ []) (block_policy irreversible true (0 ∷ [])) turns
