-- ===== src/Handler/Shutdown.antt =====
-- `beginShutdown` of server.go, and the connections that are registered after it.
use signalg.Base.{
  ℕ, ◌≡◌, ◌==◌, refl, sym, subst, ◌⊎◌, inl, inr, true, false, ◌||◌, Bool, if◌then◌else◌, is_empty,
  List, [], ◌∷◌, map, length, Bytes, bytes_eq, Option, none, some, arith, Bool-cases,
}
use signalg.Base.Assoc.{lookup}
use signalg.Base.Int.{ℤ, pos, lt_int, ◌-ℤ◌}
use signalg.Registry.ShardMap.{ShardMap, IsMap}
use signalg.Registry.Types.{
  Conn, RegistryEntry, Registry, same_conn, same_conn_self, connection_key,
}
use signalg.Registry.Expiry.{expired}
use signalg.Registry.Snapshot.{all_connections, entry_conn}
use signalg.Registry.Consistent.{IsConsistent}
use signalg.Registry.Expired.{fresh, expired-IsSweep}
use signalg.Registry.Removed.{remove-IsGone, remove-cases}
use signalg.Registry.Conns.{
  conn_at, IsSame, touch-IsSame, add_to_group-IsSame, remove_from_group-IsSame,
  remove_from_all_groups-IsSame,
}
use signalg.Handler.Admission.{
  Handler, add_connection, remove_connection, finish_connection, begin_shutdown,
  close_expired_idle_connections, handler_add_to_group, handler_remove_from_group,
  handler_remove_from_all_groups, Event, connects, disconnects, finishes, receives, joins, leaves,
  leaves_all, sweeps, shuts_down, Events, quiet, later,
}
use signalg.Handler.Online.{IsCounted, Event-IsCounted, Events-IsCounted}

abbrev pub listed : Conn → List Conn → Bool
listed c [] = false
listed c (d ∷ ds) = same_conn d c || listed c ds

-- There is no connection, or it is in a list.
abbrev pub is_listed : List Conn → Option Conn → Bool
is_listed conns none = true
is_listed conns (some c) = listed c conns

entries-listed :
    (es : List (Bytes × RegistryEntry)) (k : Bytes)
    → is_listed (map entry_conn es) (conn_at (lookup k es)) ≡ true
unfolding lookup
entries-listed [] k = refl
entries-listed ((j, e) ∷ es) k = ground (arith, entries-listed es k, same_conn_self e.conn)

refused : {A : Type 0} (x y : A) (b : Bool) → b ≡ true → (if b then x else y) ≡ x
refused x y b e = rw e refl

snapshot-listed :
    (n : ℕ) (es : List (Bytes × RegistryEntry)) (k : Bytes)
    → n ≡ length es
    → is_listed (if n == 0 then [] else map entry_conn es) (conn_at (lookup k es)) ≡ true
unfolding lookup
snapshot-listed n [] k h = refl
snapshot-listed n (e ∷ es) k h = let rest = entries-listed (e ∷ es) k in ground (arith, rest)

module _ (lib : ShardMap) (laws : IsMap lib) where
  open lib use {get, len, entries}
  open laws use {lookup-entries, len-entries}

  all-listed :
      (r : Registry lib) (k : Bytes)
      → is_listed (all_connections lib r) (conn_at (get r.connections k)) ≡ true
  unfolding all_connections
  all-listed r k =
      subst (λ o. is_listed (all_connections lib r) (conn_at o) ≡ true)
        (lookup-entries r.connections k)
        (snapshot-listed (len r.connections) (entries r.connections) k (len-entries r.connections))

  -- A registry holds no connection that another does not hold under the same key.
  abbrev Fewer : lib.Map RegistryEntry → lib.Map RegistryEntry → Type 0
  Fewer m n = (k : Bytes) → (conn_at (get n k) ≡ none) ⊎ (conn_at (get n k) ≡ conn_at (get m k))

  fresh-Fewer :
      (deadline : ℤ) (o : Option RegistryEntry)
      → (conn_at (fresh lib laws deadline o) ≡ none)
        ⊎ (conn_at (fresh lib laws deadline o) ≡ conn_at o)
  fresh-Fewer deadline none = inl refl
  fresh-Fewer deadline (some e) = ground arith

  -- The handler shuts down, and what is registered is in the list.
  pub record IsClosing (conns : List Conn) (h : Handler lib) : Type 0 where
    pub shutting_down : h.shutting_down ≡ true
    pub all : (k : Bytes) → is_listed conns (conn_at (get h.registry.connections k)) ≡ true

  Fewer-IsClosing :
      (conns : List Conn) (m n : lib.Map RegistryEntry)
      → Fewer m n
      → ((k : Bytes) → is_listed conns (conn_at (get m k)) ≡ true)
      → (k : Bytes) → is_listed conns (conn_at (get n k)) ≡ true
  Fewer-IsClosing conns m n f a k = elim (f k) [ inl e ↦ rw e refl | inr e ↦ rw e (a k) ]

  same-Fewer : (m n : lib.Map RegistryEntry) → IsSame lib laws m n → Fewer m n
  same-Fewer m n e k = inr (e.conns k)

  expired-Fewer :
      (now timeout : ℤ) (r : Registry lib)
      → IsConsistent lib r
      → Fewer r.connections (expired lib now timeout r).0.connections
  unfolding expired
  expired-Fewer now timeout r v k = elim (Bool-cases (lt_int (pos 0) timeout)) [
    | inl p ↦
        subst (λ o. (conn_at o ≡ none) ⊎ (conn_at o ≡ conn_at (get r.connections k)))
          (sym ((expired-IsSweep lib laws now timeout r p v).left k))
          (fresh-Fewer (now -ℤ timeout) (get r.connections k))
    | inr p ↦ rw (p, expired) (inr refl)
  ]

  gone-Fewer :
      (key k : Bytes) (o : Option RegistryEntry)
      → (conn_at (if bytes_eq key k then none else o) ≡ none)
        ⊎ (conn_at (if bytes_eq key k then none else o) ≡ conn_at o)
  gone-Fewer key k o = elim (Bool-cases (bytes_eq key k)) [
    | inl e ↦ rw e (inl refl)
    | inr e ↦ rw e (inr refl)
  ]

  Event-IsClosing :
      {h g : Handler lib} (conns : List Conn)
      → Event lib h g
      → IsCounted lib laws h
      → IsClosing conns h
      → IsClosing conns g
  unfolding add_connection remove_connection finish_connection begin_shutdown
      close_expired_idle_connections handler_add_to_group handler_remove_from_group
      handler_remove_from_all_groups
  Event-IsClosing {h} conns (connects now c e) v w =
      rw (w.shutting_down, add_connection) (record { shutting_down = refl; all = w.all })
  Event-IsClosing {h} conns (disconnects c) v w = elim (remove-cases lib laws c h.registry) [
    | inl e ↦ rw (e, remove_connection) w
    | inr (r', e) ↦
        let gone = (remove-IsGone lib laws c h.registry r' v.consistent e).0 in
        rw (e, remove_connection)
          (record {
            shutting_down = w.shutting_down;
            all =
                Fewer-IsClosing conns h.registry.connections r'.connections
                  (λ k.
                    subst
                      (λ o.
                        (conn_at o ≡ none) ⊎ (conn_at o ≡ conn_at (get h.registry.connections k)))
                      (sym (gone.entry k))
                      (gone-Fewer (connection_key c) k (get h.registry.connections k)))
                  w.all;
          })
  ]
  Event-IsClosing {h} conns finishes v w = record { shutting_down = w.shutting_down; all = w.all }
  Event-IsClosing {h} conns (receives now c) v w = record {
    shutting_down = w.shutting_down;
    all =
        Fewer-IsClosing conns h.registry.connections _
          (same-Fewer h.registry.connections _ (touch-IsSame lib laws h.registry now c)) w.all;
  }
  Event-IsClosing {h} conns (joins c group) v w = record {
    shutting_down = w.shutting_down;
    all =
        Fewer-IsClosing conns h.registry.connections _
          (same-Fewer h.registry.connections _ (add_to_group-IsSame lib laws h.registry c group))
          w.all;
  }
  Event-IsClosing {h} conns (leaves c group) v w = record {
    shutting_down = w.shutting_down;
    all =
        Fewer-IsClosing conns h.registry.connections _
          (same-Fewer h.registry.connections _
            (remove_from_group-IsSame lib laws h.registry c group))
          w.all;
  }
  Event-IsClosing {h} conns (leaves_all c) v w = record {
    shutting_down = w.shutting_down;
    all =
        Fewer-IsClosing conns h.registry.connections _
          (same-Fewer h.registry.connections _
            (remove_from_all_groups-IsSame lib laws h.registry c))
          w.all;
  }
  Event-IsClosing {h} conns (sweeps now timeout) v w =
      let all =
        Fewer-IsClosing conns h.registry.connections _
          (expired-Fewer now timeout h.registry v.consistent) w.all in
      elim (Bool-cases (is_empty (expired lib now timeout h.registry).1)) [
        | inl e ↦
            rw (e, close_expired_idle_connections)
              (record { shutting_down = w.shutting_down; all = all })
        | inr e ↦
            rw (e, close_expired_idle_connections)
              (record { shutting_down = w.shutting_down; all = all })
      ]
  Event-IsClosing {h} conns shuts_down v w = record { shutting_down = refl; all = w.all }

  Events-IsClosing :
      {h g : Handler lib} (conns : List Conn)
      → Events lib h g
      → IsCounted lib laws h
      → IsClosing conns h
      → IsClosing conns g
  Events-IsClosing conns quiet v w = w
  Events-IsClosing conns (later es e) v w =
      Event-IsClosing conns e (Events-IsCounted lib laws es v) (Events-IsClosing conns es v w)

  -- Whatever calls follow `beginShutdown`, of a handler whose counter and registry agree, the
  -- handler admits no connection, and each connection that is still registered is one of those that
  -- `beginShutdown` has returned to be drained.
  pub begin_shutdown-IsClosing :
      {h g : Handler lib}
      → IsCounted lib laws h
      → Events lib (begin_shutdown lib h).0 g
      → IsClosing (begin_shutdown lib h).1 g
        × ((now : ℤ) (c : Conn) → add_connection lib now c g ≡ (g, false))
  unfolding begin_shutdown add_connection
  begin_shutdown-IsClosing {h} {g} v es =
      let w =
        Events-IsClosing (begin_shutdown lib h).1 es (Event-IsCounted lib laws shuts_down v)
          (record { shutting_down = refl; all = all-listed h.registry }) in
      (w, λ now c. refused _ _ g.shutting_down w.shutting_down)
