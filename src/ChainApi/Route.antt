-- ===== src/ChainApi/Route.antt =====
-- src/chain_api/route.rs: what the router does with a request, by its target. Of a parsed request
-- line, `http::Uri`, the model has what the code asks for.
pub mod Laws
use fleet_router.Prelude.{
  ℕ, Bool, true, false, not, ◌&&◌, ◌||◌, List, [], ◌∷◌, Option, none, some, leb, ◌==◌,
  if◌then◌else◌, is_nil, is_some, is_some_and, all, any, find, text_eq,
}
use fleet_router.Prelude.Texts.{codes}

pub data BlockEndpoint : Type 0 where
  block block_header block_header_state block_info raw_block : BlockEndpoint

abbrev pub all_endpoints : List BlockEndpoint
all_endpoints = block ∷ block_header ∷ block_header_state ∷ block_info ∷ raw_block ∷ []

unfoldable pub endpoint_path : BlockEndpoint → List ℕ
endpoint_path block = codes "/v1/chain/get_block"
endpoint_path block_header = codes "/v1/chain/get_block_header"
endpoint_path block_header_state = codes "/v1/chain/get_block_header_state"
endpoint_path block_info = codes "/v1/chain/get_block_info"
endpoint_path raw_block = codes "/v1/chain/get_raw_block"

unfoldable pub from_target : List ℕ → Option BlockEndpoint
from_target target = find (λ ep. text_eq (endpoint_path ep) target) all_endpoints

-- src/models.rs: the groups of endpoints that a listener can serve.
pub data ApiClass : Type 0 where
  blocks info state exec push : ApiClass

pub data Route : Type 0 where
  illegal_target options supported_apis info_route state_route exec_route push_route not_found :
      Route
  block_route : BlockEndpoint → Route

unfoldable pub class : Route → Option ApiClass
class (block_route ep) = some blocks
class info_route = some info
class state_route = some state
class exec_route = some exec
class push_route = some push
class illegal_target = none
class options = none
class supported_apis = none
class not_found = none

abbrev class_code : ApiClass → ℕ
class_code blocks = 0
class_code info = 1
class_code state = 2
class_code exec = 3
class_code push = 4

-- `allow.contains(&class)`.
unfoldable pub allows : List ApiClass → ApiClass → Bool
allows allow c = any (λ d. class_code d == class_code c) allow

pub record Uri : Type 0 where
  pub has_scheme : Bool
  pub has_authority : Bool
  pub path_and_query : Option (List ℕ)

-- `str::starts_with` and `str::strip_prefix`.
unfoldable pub strip_prefix : List ℕ → List ℕ → Option (List ℕ)
strip_prefix [] text = some text
strip_prefix (p ∷ ps) [] = none
strip_prefix (p ∷ ps) (c ∷ cs) = if p == c then strip_prefix ps cs else none

-- `str::contains("..")`.
unfoldable has_dots : List ℕ → Bool
unfolding strip_prefix
has_dots [] = false
has_dots (c ∷ cs) = is_some (strip_prefix (codes "..") (c ∷ cs)) || has_dots cs

legal : List ℕ → Bool
unfolding strip_prefix
legal target = is_some (strip_prefix (codes "/") target) && not (has_dots target)

-- The request-target, if nodeos takes it.
unfoldable pub origin_target : Uri → Option (List ℕ)
unfolding legal has_dots
origin_target uri = if uri.has_scheme || uri.has_authority then none else elim uri.path_and_query [
  | none ↦ none
  | some target ↦ if legal target then some target else none
]

unfoldable pub name_byte : ℕ → Bool
name_byte c = leb b'a' c && leb c b'z' || leb b'0' c && leb c b'9' || c == b'_'

-- The route of a call that is no block endpoint, by its name.
unfoldable named_route : List ℕ → Option Route
named_route name =
    if text_eq name (codes "get_info")
    then some info_route
    else if text_eq name (codes "compute_transaction")
        || text_eq name (codes "send_read_only_transaction")
    then some exec_route
    else if text_eq name (codes "push_transaction")
        || text_eq name (codes "push_transactions")
        || text_eq name (codes "send_transaction")
        || text_eq name (codes "send_transaction2")
    then some push_route
    else if text_eq name (codes "push_block")
    then none
    else some state_route

unfoldable chain_route : List ℕ → Option Route
unfolding strip_prefix name_byte named_route
chain_route target = elim (strip_prefix (codes "/v1/chain/") target) [
  | none ↦ none
  | some name ↦ if is_nil name || not (all name_byte name) then none else named_route name
]

unfoldable pub proxied : List ℕ → Option Route
unfolding chain_route
proxied target = elim (from_target target) [
  | some ep ↦ some (block_route ep)
  | none ↦ chain_route target
]

-- A proxied route, if its class is allowed.
unfoldable served_route : List ApiClass → Option Route → Route
served_route allow none = not_found
served_route allow (some route) =
    if is_some_and (allows allow) (class route) then route else not_found

unfoldable pub classify_target : Bool → List ℕ → List ApiClass → Route
unfolding served_route
classify_target is_options target allow =
    if is_options
    then options
    else if text_eq target (codes "/v1/node/get_supported_apis")
    then supported_apis
    else served_route allow (proxied target)

-- `is_options` tells whether the method is OPTIONS.
unfoldable pub classify_request : Bool → Uri → List ApiClass → Route
unfolding classify_target
classify_request is_options uri allow = elim (origin_target uri) [
  | none ↦ illegal_target
  | some target ↦ classify_target is_options target allow
]

unfoldable pub serves_path : List ℕ → List ApiClass → Bool
serves_path path allow = elim (proxied path) [
  | none ↦ false
  | some route ↦ is_some_and (allows allow) (class route)
]
