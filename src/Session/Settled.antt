-- ===== src/Session/Settled.antt =====
-- What `ServeHTTP` of server.go leaves of the connection in the handler.
use signalg.Base.{
  ℕ, ◌+◌, ◌≡◌, refl, ap, subst, ◌⊎◌, inl, inr, Bool, true, false, Bool-cases, Option-cases, Bytes,
  Option, none, some, arith,
}
use signalg.Base.Int.{ℤ}
use signalg.Registry.ShardMap.{IsMap}
use signalg.Registry.Types.{Conn, Registry, RegistryEntry, connection_key, same_conn_self}
use signalg.Registry.Removed.{remove-IsGone, remove-cases}
use signalg.Registry.Counts.{conn_at-add}
use signalg.Base.Assoc.{bytes_eq_self}
use signalg.Registry.Consistent.{IsConsistent}
use signalg.Registry.Conns.{conn_at, touch-IsSame, add_to_group-IsSame}
use signalg.Registry.Preserved.{
  touch-IsConsistent, add_to_group-IsConsistent, add-IsConsistent, remove-IsConsistent,
}
use signalg.Registry.Members.{remove, remove_locked, entry_of}
use signalg.Handler.Admission.{
  Handler, handler_touch, handler_add_to_group, add_connection, remove_connection,
  finish_connection,
}
use signalg.Session.World.{Packages}

module _ (lib : Packages) (laws : IsMap lib.map) (key : Bytes) (n : ℕ) where
  -- Under a key there is no connection but the one that is served; `n` connections have not
  -- finished.
  pub record IsServed (peer : Conn) (h : Handler lib.map) : Type 0 where
    pub consistent : IsConsistent lib.map h.registry
    pub active : h.active ≡ n
    pub only :
        (conn_at (lib.map.get h.registry.connections key) ≡ none)
        ⊎ (conn_at (lib.map.get h.registry.connections key) ≡ some peer)

  pub record IsLeft (h : Handler lib.map) : Type 0 where
    pub consistent : IsConsistent lib.map h.registry
    pub active : h.active ≡ n
    pub gone : conn_at (lib.map.get h.registry.connections key) ≡ none

  pub touch-IsServed :
      (peer : Conn) (c : Conn) (now : ℤ) (h : Handler lib.map)
      → IsServed peer h
      → IsServed peer (handler_touch lib.map now c h)
  touch-IsServed peer c now h v =
      let same = (touch-IsSame lib.map laws h.registry now c).conns key in
      record {
        consistent = touch-IsConsistent lib.map laws h.registry v.consistent now c;
        active = v.active;
        only = rw same v.only;
      }

  -- A hub may put connections into groups.
  pub handler_add_to_group-IsServed :
      (peer : Conn) (c : Option Conn) (group : Bytes) (h : Handler lib.map)
      → IsServed peer h
      → IsServed peer (handler_add_to_group lib.map c group h).0
  unfolding handler_add_to_group
  handler_add_to_group-IsServed peer c group h v =
      let same = (add_to_group-IsSame lib.map laws h.registry c group).conns key in
      record {
        consistent = add_to_group-IsConsistent lib.map laws h.registry v.consistent c group;
        active = v.active;
        only = rw same v.only;
      }

module _ (lib : Packages) (laws : IsMap lib.map) (peer : Conn) where
  abbrev key_of : Bytes
  key_of = connection_key peer

  conn_at-none : (o : Option RegistryEntry) → conn_at o ≡ none → o ≡ none
  conn_at-none none e = refl
  conn_at-none (some x) e = cc

  -- `remove` finds the connection if it is registered.
  remove-finds :
      (r : Registry lib.map)
      → conn_at (lib.map.get r.connections key_of) ≡ some peer
      → (remove lib.map peer r).1 ≡ true
  unfolding remove entry_of remove_locked
  remove-finds r h = elim (Option-cases (lib.map.get r.connections key_of)) [
    | inl e ↦ let bad : none ≡ some peer = rw e at h in cc bad
    | inr (x, e) ↦
        let held : some x.conn ≡ some peer = rw e at h in
        let same : x.conn ≡ peer = cc held in rw (e, remove, same, same_conn_self peer) refl
  ]

  not_found :
      (r : Registry lib.map)
      → (conn_at (lib.map.get r.connections key_of) ≡ none)
        ⊎ (conn_at (lib.map.get r.connections key_of) ≡ some peer)
      → remove lib.map peer r ≡ (r, false)
      → conn_at (lib.map.get r.connections key_of) ≡ none
  not_found r (inl h) e = h
  not_found r (inr h) e =
      let found = remove-finds r h in cc (found, ap (λ (x : Registry lib.map × Bool). x.1) e)

  pub removed-IsLeft :
      (n : ℕ) (h : Handler lib.map)
      → IsServed lib laws key_of n peer h
      → IsLeft lib laws key_of n (remove_connection lib.map peer h)
  unfolding remove_connection
  removed-IsLeft n h v = elim (remove-cases lib.map laws peer h.registry) [
    | inl e ↦
        rw (e, remove_connection)
          (record {
            consistent = v.consistent;
            active = v.active;
            gone = not_found h.registry v.only e;
          })
    | inr (r', e) ↦
        let gone = (remove-IsGone lib.map laws peer h.registry r' v.consistent e).0 in
        let kept : IsConsistent lib.map r' =
          subst (λ (x : Registry lib.map × Bool). IsConsistent lib.map x.0) e
            (remove-IsConsistent lib.map laws h.registry v.consistent peer) in
        rw (e, remove_connection)
          (record {
            consistent = kept;
            active = v.active;
            gone = rw (gone.entry key_of, bytes_eq_self key_of) refl;
          })
  ]

  -- `addConnection` has registered the connection, or changed nothing.
  pub add_connection-cases :
      (n : ℕ) (now : ℤ) (h : Handler lib.map)
      → IsLeft lib laws key_of n h
      → (((add_connection lib.map now peer h).1 ≡ true)
          × IsServed lib laws key_of (n + 1) peer (add_connection lib.map now peer h).0)
        ⊎ (((add_connection lib.map now peer h).1 ≡ false)
            × IsLeft lib laws key_of n (add_connection lib.map now peer h).0)
  unfolding add_connection
  add_connection-cases n now h v = elim (Bool-cases h.shutting_down) [
    | inl s ↦ inr (
        rw (s, add_connection)
          (refl, record { consistent = v.consistent; active = v.active; gone = v.gone }))
    | inr s ↦ inl (
        rw (s, add_connection)
          (
            refl,
            record {
              consistent =
                  add-IsConsistent lib.map laws h.registry v.consistent now peer
                    (conn_at-none _ v.gone);
              active = ap (λ k. k + 1) v.active;
              only = inr (conn_at-add lib.map laws now peer h.registry);
            },
          ))
  ]

  pub finished-IsLeft :
      (n : ℕ) (h : Handler lib.map)
      → IsLeft lib laws key_of (n + 1) h
      → IsLeft lib laws key_of n (finish_connection lib.map h)
  unfolding finish_connection
  finished-IsLeft n h v = record {
    consistent = v.consistent;
    active = omega (arith, v.active);
    gone = v.gone;
  }
