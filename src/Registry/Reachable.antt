-- ===== src/Registry/Reachable.antt =====
-- The registries that calls of its methods make out of a new one, each call run alone.
use signalg.Base.{◌≡◌, Bytes, Option, none}
use signalg.Base.Int.{ℤ}
use signalg.Registry.ShardMap.{ShardMap, IsMap}
use signalg.Registry.Types.{Conn, Registry, new_connection_registry, connection_key}
use signalg.Registry.Members.{
  add, remove, add_to_group, remove_from_group, remove_from_all_groups, touch,
}
use signalg.Registry.Expiry.{expired}
use signalg.Registry.Consistent.{IsConsistent, new-IsConsistent}
use signalg.Registry.Preserved.{
  add-IsConsistent, remove-IsConsistent, add_to_group-IsConsistent, remove_from_group-IsConsistent,
  remove_from_all_groups-IsConsistent, touch-IsConsistent,
}
use signalg.Registry.Expired.{expired-IsConsistent}

module _ (lib : ShardMap) where
  -- One call. A connection is added under a key that is not in use, as the handler's fresh ids are.
  pub data Call (r : Registry lib) : Registry lib → Type 0 where
    adds :
        (now : ℤ) (c : Conn)
        → lib.get r.connections (connection_key c) ≡ none
        → Call r (add lib now c r)
    removes : (c : Conn) → Call r (remove lib c r).0
    touches : (now : ℤ) (c : Conn) → Call r (touch lib now c r)
    joins : (c : Option Conn) (group : Bytes) → Call r (add_to_group lib c group r).0
    leaves : (c : Option Conn) (group : Bytes) → Call r (remove_from_group lib c group r).0
    leaves_all : (c : Conn) → Call r (remove_from_all_groups lib c r)
    expires : (now timeout : ℤ) → Call r (expired lib now timeout r).0

  pub data Calls : Registry lib → Type 0 where
    fresh : Calls (new_connection_registry lib)
    after : {r s : Registry lib} → Calls r → Call r s → Calls s

module _ (lib : ShardMap) (laws : IsMap lib) where
  call-IsConsistent : {r s : Registry lib} → Call lib r s → IsConsistent lib r → IsConsistent lib s
  call-IsConsistent {r} (adds now c e) v = add-IsConsistent lib laws r v now c e
  call-IsConsistent {r} (removes c) v = remove-IsConsistent lib laws r v c
  call-IsConsistent {r} (touches now c) v = touch-IsConsistent lib laws r v now c
  call-IsConsistent {r} (joins c group) v = add_to_group-IsConsistent lib laws r v c group
  call-IsConsistent {r} (leaves c group) v = remove_from_group-IsConsistent lib laws r v c group
  call-IsConsistent {r} (leaves_all c) v = remove_from_all_groups-IsConsistent lib laws r v c
  call-IsConsistent {r} (expires now timeout) v = expired-IsConsistent lib laws now timeout r v

  -- Whatever calls are made of a new registry, one after the other, each connection stands under
  -- its key, the indexes of users and of groups hold a connection exactly where its entry says so,
  -- and no set of them is empty, where a connection is added only under a key that is not in use.
  pub calls-IsConsistent : {r : Registry lib} → Calls lib r → IsConsistent lib r
  calls-IsConsistent fresh = new-IsConsistent lib laws
  calls-IsConsistent (after cs c) = call-IsConsistent c (calls-IsConsistent cs)
