-- ===== src/Services/Registered.antt =====
-- What `registerAllEndpoints` leaves in the tables, against a list of the services' routes.
use warp_api.Prelude.{
  ap₂, ℕ, zero, suc, ◌≡◌, ◌≢◌, refl, ap, sym, ◌∙◌, false, ◌&&◌, Option, none, some, List, [], ◌∷◌,
  codes, bytes_eq, bytes_eq_iff, ◌==◌, ==_iff, if◌then◌else◌, Bool-cases, inl, inr, length, arith,
  if_cases,
}
use warp_api.Endpoints
use warp_api.Endpoints.{InkixTree, EndpointManager, new_manager, method_value}
use warp_api.Endpoints.Laws.{
  Registered, register_endpoint-Registered, register_endpoint_free, get_endpoint-new_manager,
  register_endpoint-length, register_web_socket_endpoint_free, get_web_socket_endpoint-new_manager,
}
use warp_api.Request.{Method, get, post, put, patch, delete, head, options, unknown}
use warp_api.Ring.{RingBuffer}
use warp_api.Session.Handler.{RequestHandler}
use warp_api.Services.{
  EnhancedJson, Endpoint, ws_echo, root, test, apibenchmark, health, version, register,
  register_web_socket, register_all_endpoints, handler_of, lookups,
}
use warp_api.WebSocket.Dispatch.{WebSocketRoute}

-- An enumerator is given by its value.
method_of : ℕ → Method
method_of zero = get
method_of (suc zero) = post
method_of (suc (suc zero)) = put
method_of (suc (suc (suc zero))) = patch
method_of (suc (suc (suc (suc zero)))) = delete
method_of (suc (suc (suc (suc (suc zero))))) = head
method_of (suc (suc (suc (suc (suc (suc zero)))))) = options
method_of (suc (suc (suc (suc (suc (suc (suc n))))))) = unknown

method_of-method_value : (m : Method) → method_of (method_value m) ≡ m
unfolding method_of method_value
method_of-method_value get = refl
method_of-method_value post = refl
method_of-method_value put = refl
method_of-method_value patch = refl
method_of-method_value delete = refl
method_of-method_value head = refl
method_of-method_value options = refl
method_of-method_value unknown = refl

method_value-inj : (m n : Method) → method_value m ≡ method_value n → m ≡ n
method_value-inj m n e = sym (method_of-method_value m) ∙ ap method_of e ∙ method_of-method_value n

-- The first entry of a list of routes for a method and a path.
unfoldable pub find : {A : Type 0} → List (Method × List ℕ × A) → Method → List ℕ → Option A
unfolding method_value
find [] method path = none
find ((m, r, a) ∷ more) method path =
    if (method_value m == method_value method) && bytes_eq path r
    then some a
    else find more method path

module _ (rb : RingBuffer) (sha1 : List ℕ → List ℕ) (routes : InkixTree (Endpoint rb sha1))
    (ws_routes : InkixTree WebSocketRoute) where
  abbrev Manager : Type 0
  Manager = EndpointManager routes ws_routes

  abbrev Table : Type 0
  Table = List (Method × List ℕ × RequestHandler rb sha1)

  -- The handlers of a manager are those of a list, and no web socket route is taken.
  record Holds (table : Table) (m : Manager) : Type 0 where
    pub sized : length m.endpoints_map ≡ 8
    pub same :
        (method : Method) (path : List ℕ)
        → handler_of rb sha1 (Endpoints.get_endpoint routes ws_routes m method path)
          ≡ find table method path
    pub no_sockets :
        (path : List ℕ) → Endpoints.get_web_socket_endpoint routes ws_routes m path ≡ none

  handler_of-none : (e : Option (Endpoint rb sha1)) → handler_of rb sha1 e ≡ none → e ≡ none
  unfolding handler_of
  handler_of-none none h = refl
  handler_of-none (some e) h = cc

  new_manager-Holds : Holds [] (new_manager routes ws_routes)
  unfolding find handler_of
  new_manager-Holds = record {
    sized = refl;
    same = λ method path. rw (get_endpoint-new_manager routes ws_routes method path, handler_of);
    no_sockets = get_web_socket_endpoint-new_manager routes ws_routes;
  }

  find-Registered :
      (table : Table) (m m' : Manager) (route : List ℕ) (method : Method)
      (handler : RequestHandler rb sha1)
      → Registered routes ws_routes m method route
          (record { route = route; method = method; handler_callback = handler })
          m'
      → ((other : Method) (path : List ℕ)
          → handler_of rb sha1 (Endpoints.get_endpoint routes ws_routes m other path)
            ≡ find table other path)
      → (other : Method) (path : List ℕ)
      → handler_of rb sha1 (Endpoints.get_endpoint routes ws_routes m' other path)
        ≡ find ((method, route, handler) ∷ table) other path
  unfolding find handler_of
  find-Registered table m m' route method handler r same other path =
      elim (Bool-cases (method_value method == method_value other)) [
        | inr apart ↦
            rw (apart, find)
              (ap (handler_of rb sha1) (r.other_method other path (λ e. absurd (ground arith)))
                ∙ same other path)
        | inl equal ↦
            let e =
              method_value-inj method other
                ((==_iff (method_value method) (method_value other)).0 equal) in
            elim (Bool-cases (bytes_eq path route)) [
              | inl hit ↦
                  rw (equal, hit, find)
                    (ap₂ look (sym e) ((bytes_eq_iff path route).0 hit)
                      ∙ ap (handler_of rb sha1) r.found)
              | inr miss ↦
                  rw (equal, miss, find)
                    (ap (λ x. look x path) (sym e)
                      ∙ ap (handler_of rb sha1)
                          (r.same_method path (λ q. absurd (different q miss)))
                      ∙ same method path
                      ∙ ap (λ x. find table x path) e)
            ]
      ]
    where
      look : Method → List ℕ → Option (RequestHandler rb sha1)
      look x p = handler_of rb sha1 (Endpoints.get_endpoint routes ws_routes m' x p)

      different : path ≡ route → bytes_eq path route ≡ false → ⊥
      different q miss = let hit = (bytes_eq_iff path route).1 q in cc

  -- A route that the list does not have is registered, and put in front of the list.
  register-Holds :
      (table : Table) (m : Manager) (route : List ℕ) (method : Method)
      (handler : RequestHandler rb sha1)
      → Holds table m
      → find table method route ≡ none
      → (m' : Manager) × (register rb sha1 routes ws_routes route method handler m ≡ some m')
        × Holds ((method, route, handler) ∷ table) m'
  unfolding register find handler_of
  register-Holds table m route method handler h free =
      let e : Endpoint rb sha1 = record {
        route = route;
        method = method;
        handler_callback = handler;
      } in
      let (m', ran) = register_endpoint_free routes ws_routes m method route e (
        handler_of-none (Endpoints.get_endpoint routes ws_routes m method route)
          (h.same method route ∙ free)) in
      let r = register_endpoint-Registered routes ws_routes m m' method route e h.sized ran in
      (
        m',
        ran,
        record {
          sized = register_endpoint-length routes ws_routes m m' method route e ran ∙ h.sized;
          same = find-Registered table m m' route method handler r h.same;
          no_sockets = λ path. r.web_sockets path ∙ h.no_sockets path;
        },
      )

  -- The routes of the services, the last one registered first.
  unfoldable pub table_of : EnhancedJson → Table
  unfolding root test apibenchmark health version
  table_of json =
      (get, codes "/version", version rb sha1 json)
      ∷ (get, codes "/health", health rb sha1 json)
      ∷ (post, codes "/apibenchmark", apibenchmark rb sha1 json)
      ∷ (get, codes "/test", test rb sha1 json)
      ∷ (get, codes "/", root rb sha1 json)
      ∷ []

  -- A single web socket route.
  socket_at :
      (m5 m : Manager) (path : List ℕ)
      → Endpoints.get_web_socket_endpoint routes ws_routes m (codes "/ws/echo") ≡ some ws_echo
      → ((other : List ℕ)
          → other ≢ codes "/ws/echo"
          → Endpoints.get_web_socket_endpoint routes ws_routes m other
            ≡ Endpoints.get_web_socket_endpoint routes ws_routes m5 other)
      → ((other : List ℕ) → Endpoints.get_web_socket_endpoint routes ws_routes m5 other ≡ none)
      → Endpoints.get_web_socket_endpoint routes ws_routes m path
        ≡ (if bytes_eq path (codes "/ws/echo") then some ws_echo else none)
  socket_at m5 m path found others free =
      if_cases (λ o. Endpoints.get_web_socket_endpoint routes ws_routes m path ≡ o)
        (bytes_eq path (codes "/ws/echo")) (some ws_echo) none
        (λ hit.
          ap (Endpoints.get_web_socket_endpoint routes ws_routes m)
            ((bytes_eq_iff path (codes "/ws/echo")).0 hit)
          ∙ found)
        (λ miss.
          others path (λ q. let hit = (bytes_eq_iff path (codes "/ws/echo")).1 q in cc) ∙ free path)

  -- On a new manager `registerAllEndpoints` throws nothing. Then a method and a path lead to the
  -- handler of the list of routes, and to none where the list has none; the path "/ws/echo" leads to
  -- the echo callbacks, and every other path to no web socket route.
  pub register_all_endpoints-lookups :
      (json : EnhancedJson)
      → (m : Manager) × (register_all_endpoints rb sha1 routes ws_routes json
            (new_manager routes ws_routes)
          ≡ some m)
        × ((method : Method) (path : List ℕ)
            → (lookups rb sha1 routes ws_routes m).get_endpoint method path
              ≡ find (table_of json) method path)
        × ((path : List ℕ)
            → (lookups rb sha1 routes ws_routes m).get_web_socket_endpoint path
              ≡ (if bytes_eq path (codes "/ws/echo") then some ws_echo else none))
  unfolding register_all_endpoints register_web_socket find table_of lookups method_value
  register_all_endpoints-lookups json =
      let t1 : Table = (get, codes "/", root rb sha1 json) ∷ [] in
      let t2 : Table = (get, codes "/test", test rb sha1 json) ∷ t1 in
      let t3 : Table = (post, codes "/apibenchmark", apibenchmark rb sha1 json) ∷ t2 in
      let t4 : Table = (get, codes "/health", health rb sha1 json) ∷ t3 in
      let (m1, r1, h1) =
        register-Holds [] (new_manager routes ws_routes) (codes "/") get (root rb sha1 json)
          new_manager-Holds refl in
      let (m2, r2, h2) = register-Holds t1 m1 (codes "/test") get (test rb sha1 json) h1 refl in
      let (m3, r3, h3) =
        register-Holds t2 m2 (codes "/apibenchmark") post (apibenchmark rb sha1 json) h2 refl in
      let (m4, r4, h4) = register-Holds t3 m3 (codes "/health") get (health rb sha1 json) h3 refl in
      let (m5, r5, h5) =
        register-Holds t4 m4 (codes "/version") get (version rb sha1 json) h4 refl in
      let (m, r6, found, others, endpoints) =
        register_web_socket_endpoint_free routes ws_routes m5 (codes "/ws/echo") ws_echo
          (h5.no_sockets (codes "/ws/echo")) in
      (
        m,
        rw (r1, r2, r3, r4, r5, register_all_endpoints) r6,
        λ method path. ap (handler_of rb sha1) (endpoints method path) ∙ h5.same method path,
        λ path. socket_at m5 m path found others h5.no_sockets,
      )
