-- ===== src/ChainApi/Route/Laws.antt =====
-- What a request must be for the router to proxy it.
use fleet_router.Prelude.{
  ℕ, ◌≡◌, ◌≢◌, refl, sym, ap, ◌∙◌, subst, inl, inr, Bool, true, false, not, List, [], ◌∷◌, ◌++◌,
  Option, none, some, arith, ◌==◌, if◌then◌else◌, is_some, is_some_and, all, text_eq, text_eq_iff,
  Bool-cases, Option-cases, find-In,
}
use fleet_router.Prelude.Texts.{codes}
use fleet_router.ChainApi.Route.{
  BlockEndpoint, block, block_header, block_header_state, block_info, raw_block, all_endpoints,
  endpoint_path, from_target, ApiClass, Route, not_found, options, supported_apis, illegal_target,
  class, allows, Uri, strip_prefix, origin_target, name_byte, named_route, chain_route, proxied,
  served_route, classify_target, classify_request, serves_path,
}

strip_prefix-append :
    (pre text rest : List ℕ) → strip_prefix pre text ≡ some rest → text ≡ pre ++ rest
unfolding strip_prefix
strip_prefix-append [] text rest e = ground arith
strip_prefix-append (p ∷ ps) [] rest e = cc
strip_prefix-append (p ∷ ps) (c ∷ cs) rest e = elim (Bool-cases (p == c)) [
  | inl same ↦
      let tail = strip_prefix-append ps cs rest (ground arith) in
      let head : c ≡ p = ground arith in ap (λ d. d ∷ cs) head ∙ ap (λ ds. p ∷ ds) tail
  | inr apart ↦ ground arith
]

-- No byte of the text is a question mark.
abbrev pub NoQuery : List ℕ → Type 0
NoQuery text = all (λ c. not (c == 63)) text ≡ true

name-NoQuery : (name : List ℕ) → all name_byte name ≡ true → NoQuery name
unfolding name_byte
name-NoQuery [] h = refl
name-NoQuery (c ∷ cs) h = ground (arith, name-NoQuery cs)

NoQuery-append : (xs ys : List ℕ) → NoQuery xs → NoQuery ys → NoQuery (xs ++ ys)
NoQuery-append [] ys a b = b
NoQuery-append (x ∷ xs) ys a b = ground (arith, NoQuery-append xs ys)

endpoint-NoQuery : (ep : BlockEndpoint) → NoQuery (endpoint_path ep)
unfolding endpoint_path
endpoint-NoQuery block = refl
endpoint-NoQuery block_header = refl
endpoint-NoQuery block_header_state = refl
endpoint-NoQuery block_info = refl
endpoint-NoQuery raw_block = refl

abbrev push_block_path : List ℕ
push_block_path = codes "/v1/chain/push_block"

endpoint-not_push : (ep : BlockEndpoint) → text_eq (endpoint_path ep) push_block_path ≡ false
unfolding endpoint_path
endpoint-not_push block = refl
endpoint-not_push block_header = refl
endpoint-not_push block_header_state = refl
endpoint-not_push block_info = refl
endpoint-not_push raw_block = refl

push_block-denied : chain_route push_block_path ≡ none
unfolding chain_route strip_prefix name_byte named_route
push_block-denied = refl

-- What is proxied has no query string and is not a block of the client's.
abbrev pub IsCall : List ℕ → Type 0
IsCall target = NoQuery target × (target ≢ codes "/v1/chain/push_block")

chain_route-NoQuery :
    (target : List ℕ) (route : Route) → chain_route target ≡ some route → NoQuery target
unfolding chain_route
chain_route-NoQuery target route e =
    elim (Option-cases (strip_prefix (codes "/v1/chain/") target)) [
      | inl absent ↦ ground arith
      | inr (name, found) ↦
          subst NoQuery (sym (strip_prefix-append (codes "/v1/chain/") target name found))
            (NoQuery-append (codes "/v1/chain/") name refl (name-NoQuery name (ground arith)))
    ]

chain_route-IsCall :
    (target : List ℕ) (route : Route) → chain_route target ≡ some route → IsCall target
chain_route-IsCall target route e =
    (chain_route-NoQuery target route e, λ same. cc (e, push_block-denied, same))

from_target-path :
    (target : List ℕ) (ep : BlockEndpoint)
    → from_target target ≡ some ep
    → target ≡ endpoint_path ep
unfolding from_target
from_target-path target ep e =
    let (_, same) =
      find-In (λ (ep : BlockEndpoint). text_eq (endpoint_path ep) target) all_endpoints ep e in
    sym ((text_eq_iff (endpoint_path ep) target).0 same)

proxied-IsCall : (target : List ℕ) (route : Route) → proxied target ≡ some route → IsCall target
unfolding proxied
proxied-IsCall target route e = elim (Option-cases (from_target target)) [
  | inl absent ↦ chain_route-IsCall target route (ground arith)
  | inr (ep, found) ↦
      let path = from_target-path target ep found in
      (
        subst NoQuery (sym path) (endpoint-NoQuery ep),
        λ same. cc (
          endpoint-not_push ep,
          (text_eq_iff (endpoint_path ep) push_block_path).1 (sym path ∙ same),
        ),
      )
]

not_found-unclassed : (c : ApiClass) → class not_found ≢ some c
unfolding class
not_found-unclassed c h = cc

options-unclassed : (c : ApiClass) → class options ≢ some c
unfolding class
options-unclassed c h = cc

supported_apis-unclassed : (c : ApiClass) → class supported_apis ≢ some c
unfolding class
supported_apis-unclassed c h = cc

illegal-unclassed : (c : ApiClass) → class illegal_target ≢ some c
unfolding class
illegal-unclassed c h = cc

not_found-class : class not_found ≡ none
unfolding class
not_found-class = refl

-- Where a request is refused, its route has no class.
served-allowed :
    (allow : List ApiClass) (found : Option Route) (c : ApiClass)
    → class (served_route allow found) ≡ some c
    → (allows allow c ≡ true) × ((route : Route) × (found ≡ some route))
unfolding served_route
served-allowed allow none c e = absurd (not_found-unclassed c e)
served-allowed allow (some route) c e = by (is_some_and (allows allow) (class route)) refl e
  where
    by :
        (ok : Bool)
        → is_some_and (allows allow) (class route) ≡ ok
        → class (if ok then route else not_found) ≡ some c
        → (allows allow c ≡ true) × ((r : Route) × (some route ≡ some r))
    by true ok e = (sym (ap (is_some_and (allows allow)) e) ∙ ok, (route, refl))
    by false ok e = absurd (not_found-unclassed c e)

target-IsCall :
    (is_options : Bool) (target : List ℕ) (allow : List ApiClass) (c : ApiClass)
    → class (classify_target is_options target allow) ≡ some c
    → (is_options ≡ false) × (allows allow c ≡ true) × IsCall target
unfolding classify_target
target-IsCall true target allow c e = absurd (options-unclassed c e)
target-IsCall false target allow c e = by (text_eq target (codes "/v1/node/get_supported_apis")) e
  where
    by :
        (own : Bool)
        → class (if own then supported_apis else served_route allow (proxied target)) ≡ some c
        → (false ≡ false) × (allows allow c ≡ true) × IsCall target
    by true e = absurd (supported_apis-unclassed c e)
    by false e =
        let (ok, (route, found)) = served-allowed allow (proxied target) c e in
        (refl, ok, proxied-IsCall target route found)

served_iff :
    (allow : List ApiClass) (found : Option Route)
    → (elim found [ none ↦ false | some route ↦ is_some_and (allows allow) (class route) ])
      ≡ is_some (class (served_route allow found))
unfolding served_route
served_iff allow none = sym (ap is_some not_found-class)
served_iff allow (some route) = by (class route) refl
  where
    by :
        (k : Option ApiClass)
        → class route ≡ k
        → is_some_and (allows allow) k
          ≡ is_some (class (if is_some_and (allows allow) k then route else not_found))
    by none e = sym (ap is_some not_found-class)
    by (some c) e = chosen (allows allow c)
      where
        chosen : (ok : Bool) → ok ≡ is_some (class (if ok then route else not_found))
        chosen true = sym (ap is_some e)
        chosen false = sym (ap is_some not_found-class)

-- A request is proxied only if its method is not OPTIONS, its target is legal, has no query string
-- and is not `push_block`, and the listener allows the class of its route.
pub classify_request-IsCall :
    (is_options : Bool) (uri : Uri) (allow : List ApiClass) (c : ApiClass)
    → class (classify_request is_options uri allow) ≡ some c
    → (is_options ≡ false)
      × (allows allow c ≡ true)
      × ((target : List ℕ) × (origin_target uri ≡ some target) × IsCall target)
unfolding classify_request
classify_request-IsCall is_options uri allow c e = by (origin_target uri) refl e
  where
    by :
        (found : Option (List ℕ))
        → origin_target uri ≡ found
        → class (elim found [
          | none ↦ illegal_target
          | some target ↦ classify_target is_options target allow
        ])
          ≡ some c
        → (is_options ≡ false)
          × (allows allow c ≡ true)
          × ((target : List ℕ) × (origin_target uri ≡ some target) × IsCall target)
    by none legal e = absurd (illegal-unclassed c e)
    by (some target) legal e =
        let (post, allowed, called) = target-IsCall is_options target allow c e in
        (post, allowed, (target, legal, called))

-- The paths that `get_supported_apis` may list are those whose requests are proxied: for a legal
-- target, which is not that call itself.
pub serves_path-classify :
    (uri : Uri) (target : List ℕ) (allow : List ApiClass)
    → origin_target uri ≡ some target
    → text_eq target (codes "/v1/node/get_supported_apis") ≡ false
    → serves_path target allow ≡ is_some (class (classify_request false uri allow))
unfolding classify_request serves_path classify_target
serves_path-classify uri target allow e other =
    served_iff allow (proxied target)
    ∙ ap
        (λ own.
          is_some (class (if own then supported_apis else served_route allow (proxied target))))
        (sym other)
    ∙ ap
        (λ (found : Option (List ℕ)). is_some (
          class (elim found [
            | none ↦ illegal_target
            | some target ↦ classify_target false target allow
          ])))
        (sym e)
