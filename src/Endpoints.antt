-- ===== src/Endpoints.antt =====
-- src/Managers/EndpointManager.cpp: the tables of endpoints. A route tree is the `InkixTree` of the
-- ink library, which this repository does not hold: an argument, with what the manager relies on.
pub mod Laws
use warp_api.Prelude.{
  ℕ, zero, suc, ◌≡◌, ◌≢◌, Bool, true, false, Option, none, some, List, [], ◌∷◌, if◌then◌else◌,
  get_or, set, replicate,
}
use warp_api.Request.{Method, get, post, put, patch, delete, head, options, unknown}

-- `ink::InkixTree<V>`: `get_copy` of a route that was not inserted is a null pointer.
pub record InkixTree (V : Type 0) : Type 1 where
  pub Tree : Type 0
  pub empty : Tree
  pub insert : Tree → List ℕ → V → Tree
  pub get_copy : Tree → List ℕ → Option V
  pub get_copy-empty : (route : List ℕ) → get_copy empty route ≡ none
  pub get_copy-insert :
      (t : Tree) (route : List ℕ) (v : V) → get_copy (insert t route v) route ≡ some v
  pub get_copy-insert_other :
      (t : Tree) (route other : List ℕ) (v : V)
      → other ≢ route
      → get_copy (insert t route v) other ≡ get_copy t other

-- The value of the enumerator, which is the index of its table.
unfoldable pub method_value : Method → ℕ
method_value get = 0
method_value post = 1
method_value put = 2
method_value patch = 3
method_value delete = 4
method_value head = 5
method_value options = 6
method_value unknown = 7

is_some : {A : Type 0} → Option A → Bool
is_some none = false
is_some (some a) = true

module _ {Endpoint WebSocketRoute : Type 0} (routes : InkixTree Endpoint)
    (ws_routes : InkixTree WebSocketRoute) where
  pub record EndpointManager : Type 0 where
    pub endpoints_map : List routes.Tree
    pub ws_endpoints : ws_routes.Tree

  abbrev pub new_manager : EndpointManager
  new_manager = record { endpoints_map = replicate 8 routes.empty; ws_endpoints = ws_routes.empty }

  tree_of : EndpointManager → Method → routes.Tree
  unfolding method_value
  tree_of m method = get_or m.endpoints_map (method_value method) routes.empty

  pub get_endpoint : EndpointManager → Method → List ℕ → Option Endpoint
  unfolding tree_of
  get_endpoint m method route = routes.get_copy (tree_of m method) route

  pub get_web_socket_endpoint : EndpointManager → List ℕ → Option WebSocketRoute
  get_web_socket_endpoint m route = ws_routes.get_copy m.ws_endpoints route

  -- `none` is the exception for a route that is taken.
  unfoldable pub register_endpoint :
      EndpointManager → Method → List ℕ → Endpoint → Option EndpointManager
  unfolding tree_of method_value is_some
  register_endpoint m method route e =
      if is_some (routes.get_copy (tree_of m method) route)
      then none
      else some (record m {
        endpoints_map =
            set m.endpoints_map (method_value method) (routes.insert (tree_of m method) route e);
      })

  unfoldable pub register_web_socket_endpoint :
      EndpointManager → List ℕ → WebSocketRoute → Option EndpointManager
  unfolding is_some
  register_web_socket_endpoint m route r =
      if is_some (ws_routes.get_copy m.ws_endpoints route)
      then none
      else some (record m { ws_endpoints = ws_routes.insert m.ws_endpoints route r })
