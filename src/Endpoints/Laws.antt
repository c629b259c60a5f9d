-- ===== src/Endpoints/Laws.antt =====
-- What a registration does to the lookups.
use warp_api.Prelude.{
  get_or-set, get_or-set_other, length-set, ℕ, ◌<◌, ◌≡◌, ◌≢◌, refl, ap, ◌∙◌, false, Option, none,
  some, List, length, get_or, set, Bool-cases, inl, inr, some_inj, arith, subst,
}
use warp_api.Request.{Method, get, post, put, patch, delete, head, options, unknown}
use warp_api.Endpoints.{
  register_web_socket_endpoint, new_manager, InkixTree, EndpointManager, method_value, is_some,
  tree_of, get_endpoint, get_web_socket_endpoint, register_endpoint,
}

method_value-bound : (m : Method) → method_value m < 8
unfolding method_value
method_value-bound get = omega arith
method_value-bound post = omega arith
method_value-bound put = omega arith
method_value-bound patch = omega arith
method_value-bound delete = omega arith
method_value-bound head = omega arith
method_value-bound options = omega arith
method_value-bound unknown = omega arith

some-is_some : {A : Type 0} (o : Option A) → is_some o ≡ false → o ≡ none
unfolding is_some
some-is_some none e = refl
some-is_some (some a) e = cc

is_some-none : {A : Type 0} (o : Option A) → o ≡ none → is_some o ≡ false
unfolding is_some
is_some-none o e = rw (e, is_some)

module _ {Endpoint WebSocketRoute : Type 0} (routes : InkixTree Endpoint)
    (ws_routes : InkixTree WebSocketRoute) where
  abbrev Manager : Type 0
  Manager = EndpointManager routes ws_routes

  -- What `registerEndpoint` did to a manager.
  pub record Registered (m : Manager) (method : Method) (route : List ℕ) (e : Endpoint)
      (m' : Manager) : Type 0 where
    pub was_free : get_endpoint routes ws_routes m method route ≡ none
    pub found : get_endpoint routes ws_routes m' method route ≡ some e
    pub same_method :
        (other : List ℕ)
        → other ≢ route
        → get_endpoint routes ws_routes m' method other
          ≡ get_endpoint routes ws_routes m method other
    pub other_method :
        (method' : Method) (other : List ℕ)
        → method_value method ≢ method_value method'
        → get_endpoint routes ws_routes m' method' other
          ≡ get_endpoint routes ws_routes m method' other
    pub web_sockets :
        (other : List ℕ)
        → get_web_socket_endpoint routes ws_routes m' other
          ≡ get_web_socket_endpoint routes ws_routes m other

  -- A registration succeeds only for a method and a route that no endpoint has; then this method
  -- and route lead to the endpoint, and all other lookups are as before.
  pub register_endpoint-Registered :
      (m m' : Manager) (method : Method) (route : List ℕ) (e : Endpoint)
      → length m.endpoints_map ≡ 8
      → register_endpoint routes ws_routes m method route e ≡ some m'
      → Registered m method route e m'
  unfolding register_endpoint get_endpoint get_web_socket_endpoint tree_of
  register_endpoint-Registered m m' method route e sized done =
      elim (Bool-cases (is_some (routes.get_copy (tree_of routes ws_routes m method) route))) [
        | inl taken ↦ cc (rw (taken, register_endpoint) at done)
        | inr free ↦
            subst (Registered m method route e) (some_inj (rw (free, register_endpoint) at done))
              (record {
                was_free =
                    some-is_some (routes.get_copy (tree_of routes ws_routes m method) route) free;
                found =
                    ap (λ t. routes.get_copy t route) here
                    ∙ routes.get_copy-insert (tree_of routes ws_routes m method) route e;
                same_method = λ other ne.
                    ap (λ t. routes.get_copy t other) here
                    ∙ routes.get_copy-insert_other (tree_of routes ws_routes m method) route other e
                        ne;
                other_method = λ method' other ne.
                    ap (λ t. routes.get_copy t other)
                      (get_or-set_other m.endpoints_map (method_value method) (method_value method')
                        (routes.insert (tree_of routes ws_routes m method) route e) routes.empty
                        ne);
                web_sockets = λ other. refl;
              })
      ]
    where
      here :
          get_or
            (set m.endpoints_map
              (method_value method)
              (routes.insert (tree_of routes ws_routes m method) route e))
            (method_value method)
            routes.empty
          ≡ routes.insert (tree_of routes ws_routes m method) route e
      here =
          get_or-set m.endpoints_map (method_value method)
            (routes.insert (tree_of routes ws_routes m method) route e) routes.empty
            (omega (arith, method_value-bound method))

  -- A method and a route that no endpoint has can be registered.
  pub register_endpoint_free :
      (m : Manager) (method : Method) (route : List ℕ) (e : Endpoint)
      → get_endpoint routes ws_routes m method route ≡ none
      → (m' : Manager) × (register_endpoint routes ws_routes m method route e ≡ some m')
  unfolding register_endpoint get_endpoint
  register_endpoint_free m method route e free = (
    record m {
      endpoints_map =
          set m.endpoints_map (method_value method)
            (routes.insert (tree_of routes ws_routes m method) route e);
    },
    rw (
      is_some-none (routes.get_copy (tree_of routes ws_routes m method) route) free,
      register_endpoint,
    ),
  )

  -- A new manager has no endpoint.
  pub get_endpoint-new_manager :
      (method : Method) (route : List ℕ)
      → get_endpoint routes ws_routes (new_manager routes ws_routes) method route ≡ none
  unfolding get_endpoint tree_of method_value
  get_endpoint-new_manager get route = routes.get_copy-empty route
  get_endpoint-new_manager post route = routes.get_copy-empty route
  get_endpoint-new_manager put route = routes.get_copy-empty route
  get_endpoint-new_manager patch route = routes.get_copy-empty route
  get_endpoint-new_manager delete route = routes.get_copy-empty route
  get_endpoint-new_manager head route = routes.get_copy-empty route
  get_endpoint-new_manager options route = routes.get_copy-empty route
  get_endpoint-new_manager unknown route = routes.get_copy-empty route

  pub get_web_socket_endpoint-new_manager :
      (route : List ℕ)
      → get_web_socket_endpoint routes ws_routes (new_manager routes ws_routes) route ≡ none
  unfolding get_web_socket_endpoint
  get_web_socket_endpoint-new_manager route = ws_routes.get_copy-empty route

  -- A web socket route that is not taken can be registered; then it is found, and all other lookups
  -- are as before.
  pub register_web_socket_endpoint_free :
      (m : Manager) (route : List ℕ) (r : WebSocketRoute)
      → get_web_socket_endpoint routes ws_routes m route ≡ none
      → (m' : Manager) × (register_web_socket_endpoint routes ws_routes m route r ≡ some m')
        × (get_web_socket_endpoint routes ws_routes m' route ≡ some r)
        × ((other : List ℕ)
            → other ≢ route
            → get_web_socket_endpoint routes ws_routes m' other
              ≡ get_web_socket_endpoint routes ws_routes m other)
        × ((method : Method) (other : List ℕ)
            → get_endpoint routes ws_routes m' method other
              ≡ get_endpoint routes ws_routes m method other)
  unfolding register_web_socket_endpoint get_web_socket_endpoint get_endpoint tree_of
  register_web_socket_endpoint_free m route r free = (
    record m { ws_endpoints = ws_routes.insert m.ws_endpoints route r },
    rw (is_some-none (ws_routes.get_copy m.ws_endpoints route) free, register_web_socket_endpoint),
    ws_routes.get_copy-insert m.ws_endpoints route r,
    λ other ne. ws_routes.get_copy-insert_other m.ws_endpoints route other r ne,
    λ method other. refl,
  )

  -- A registration keeps the eight tables.
  pub register_endpoint-length :
      (m m' : Manager) (method : Method) (route : List ℕ) (e : Endpoint)
      → register_endpoint routes ws_routes m method route e ≡ some m'
      → length m'.endpoints_map ≡ length m.endpoints_map
  unfolding register_endpoint
  register_endpoint-length m m' method route e done =
      elim (Bool-cases (is_some (routes.get_copy (tree_of routes ws_routes m method) route))) [
        | inl taken ↦ cc (rw (taken, register_endpoint) at done)
        | inr free ↦
            subst (λ x. length x.endpoints_map ≡ length m.endpoints_map)
              (some_inj (rw (free, register_endpoint) at done))
              (length-set m.endpoints_map (method_value method)
                (routes.insert (tree_of routes ws_routes m method) route e))
      ]
