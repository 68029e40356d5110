-- ===== src/Dispatcher/Routes.antt =====
-- `buildDispatcher` of dispatcher.go, and the routes that it makes.
use signalg.Base.{
  ℕ, ◌≡◌, refl, ◌&&◌, if◌then◌else◌, List, [], ◌∷◌, Bytes, bytes_eq, bytes_eq_iff, Option, none,
  some, arith, Bool-cases, inl, inr, subst, ◌∙◌,
}
use signalg.Base.Assoc.{
  lookup, erase, DistinctKeys, lookup-erase, erase-DistinctKeys, bytes_eq_self,
}
use signalg.Dispatcher.Reflect.{Reflection, Method}

module _ {Value : Type 0} (lib : Reflection Value) where
  open lib use {Ty, is_context, is_pointer, implements_error}

  pub record HubRoute : Type 0 where
    pub method : ℕ
    pub req_type : Ty

  pub record HubDispatcher : Type 0 where
    pub routes : List (Bytes × HubRoute)

  -- The tests of the loop: three arguments, the second a context and the third a pointer, and two
  -- results, the second an error.
  request_type : List Ty → List Ty → Option Ty
  request_type (receiver ∷ ctx ∷ req ∷ []) (result ∷ error ∷ []) =
      if is_context ctx && is_pointer req && implements_error error then some req else none
  request_type ins outs = none

  unfoldable pub route_of : Method Ty → Option HubRoute
  unfolding request_type
  route_of m = elim (request_type m.ins m.outs) [
    | none ↦ none
    | some req ↦ some (record { method = m.func; req_type = req })
  ]

  -- `dispatcher.routes[method.Name] = ...`, where the method passes the tests.
  set_route : Bytes → Option HubRoute → List (Bytes × HubRoute) → List (Bytes × HubRoute)
  set_route name none routes = routes
  set_route name (some route) routes = (name, route) ∷ erase name routes

  add_routes : List (Method Ty) → List (Bytes × HubRoute) → List (Bytes × HubRoute)
  unfolding route_of set_route
  add_routes [] routes = routes
  add_routes (m ∷ ms) routes = add_routes ms (set_route m.name (route_of m) routes)

  unfoldable pub build_dispatcher : ℕ → HubDispatcher
  unfolding add_routes
  build_dispatcher hub_type = record { routes = add_routes (lib.methods hub_type) [] }

  -- The method of a name, and the route to it.
  abbrev pub find_method : Bytes → List (Method Ty) → Option (Method Ty)
  find_method name [] = none
  find_method name (m ∷ ms) = if bytes_eq m.name name then some m else find_method name ms

  abbrev pub route_to : Option (Method Ty) → Option HubRoute
  route_to none = none
  route_to (some m) = route_of m

  -- No two methods of a type have the same name.
  abbrev pub DistinctNames : List (Method Ty) → Type 0
  DistinctNames [] = Unit
  DistinctNames (m ∷ ms) = (find_method m.name ms ≡ none) × DistinctNames ms

abbrev or_else : {A : Type 0} → Option A → Option A → Option A
or_else none d = d
or_else (some a) d = some a

or_else-none : {A : Type 0} (o : Option A) → or_else o none ≡ o
or_else-none none = refl
or_else-none (some a) = refl

module _ {Value : Type 0} (lib : Reflection Value) where
  open lib use {Ty}

  lookup-set_route :
      (k name : Bytes) (o : Option (HubRoute lib)) (routes : List (Bytes × HubRoute lib))
      → DistinctKeys routes
      → (lookup k (set_route lib name o routes)
          ≡ (if bytes_eq name k then or_else o (lookup k routes) else lookup k routes))
        × DistinctKeys (set_route lib name o routes)
  unfolding set_route lookup
  lookup-set_route k name none routes d = (ground arith, d)
  lookup-set_route k name (some route) routes d = (
    ground (arith, lookup-erase name k routes d),
    (
      ground (arith, lookup-erase name name routes d, bytes_eq_self name),
      erase-DistinctKeys name routes d,
    ),
  )

  lookup-add_routes :
      (k : Bytes) (ms : List (Method Ty)) (routes : List (Bytes × HubRoute lib))
      → DistinctNames lib ms
      → DistinctKeys routes
      → lookup k (add_routes lib ms routes)
        ≡ or_else (route_to lib (find_method lib k ms)) (lookup k routes)
  unfolding add_routes
  lookup-add_routes k [] routes n d = refl
  lookup-add_routes k (m ∷ ms) routes n d =
      let (set, e) = lookup-set_route k m.name (route_of lib m) routes d in
      let rest = lookup-add_routes k ms (set_route lib m.name (route_of lib m) routes) n.1 e in
      elim (Bool-cases (bytes_eq m.name k)) [
        | inl h ↦
            let found : find_method lib k ms ≡ none =
              subst (λ j. find_method lib j ms ≡ none) ((bytes_eq_iff m.name k).0 h) n.0 in
            rw (h, rest, found, set, h) refl
        | inr h ↦ rw (h, rest, set, h) refl
      ]

  -- Of a hub's type whose methods have different names, `buildDispatcher` makes a route for exactly
  -- the names of the methods with three arguments, the second a context and the third a pointer,
  -- and two results, the second an error; it is the route to the method of that name.
  pub build_dispatcher-find_method :
      (hub_type : ℕ) (name : Bytes)
      → DistinctNames lib (lib.methods hub_type)
      → lookup name (build_dispatcher lib hub_type).routes
        ≡ route_to lib (find_method lib name (lib.methods hub_type))
  unfolding build_dispatcher lookup
  build_dispatcher-find_method hub_type name n =
      lookup-add_routes name (lib.methods hub_type) [] n tt
      ∙ or_else-none (route_to lib (find_method lib name (lib.methods hub_type)))
