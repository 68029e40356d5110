-- ===== src/Handler/Admission.antt =====
-- The handler's registry and counters: who is admitted, and who leaves.
use signalg.Base.{
  ℕ, ◌+◌, ◌-◌, ◌≡◌, if◌then◌else◌, is_empty, Bool, true, false, List, [], length, Bytes, Option,
  none,
}
use signalg.Base.Int.{ℤ, pos, negsuc, ◌-ℤ◌}
use signalg.Errors.{Checked}
use signalg.Registry.ShardMap.{ShardMap}
use signalg.Registry.Types.{
  Conn, Registry, new_connection_registry, connection_key, normalize_group,
}
use signalg.Registry.Members.{
  add, remove, add_to_group, remove_from_group, remove_from_all_groups, touch,
}
use signalg.Registry.Snapshot.{
  all_connections, user_online, user_connections, group_online, group_connections,
}
use signalg.Registry.Expiry.{expired}

-- The fields of `*Handler` that its methods change.
pub record Handler (lib : ShardMap) : Type 0 where
  pub registry : Registry lib
  pub active : ℕ  -- the counter of the WaitGroup
  pub shutting_down : Bool
  pub online : ℤ  -- int64

module _ (lib : ShardMap) where
  abbrev pub new_handler : Handler lib
  new_handler = record {
    registry = new_connection_registry lib;
    active = 0;
    shutting_down = false;
    online = pos 0;
  }

  -- `addConnection`, under `admissionMu`.
  unfoldable pub add_connection : ℤ → Conn → Handler lib → Handler lib × Bool
  add_connection now conn h = if h.shutting_down then (h, false) else (
    record h {
      active = h.active + 1;
      registry = add lib now conn h.registry;
      online = h.online -ℤ negsuc 0;
    },
    true,
  )

  unfoldable pub removed : Handler lib → Registry lib × Bool → Handler lib
  removed h (r, false) = h
  removed h (r, true) = record h { registry = r; online = h.online -ℤ pos 1 }

  -- `removeConnection`. Where `remove` returns false it has changed nothing.
  unfoldable pub remove_connection : Conn → Handler lib → Handler lib
  unfolding removed
  remove_connection conn h = removed h (remove lib conn h.registry)

  unfoldable pub finish_connection : Handler lib → Handler lib
  finish_connection h = record h { active = h.active - 1 }

  -- `beginShutdown`, under `admissionMu`: the connections that are drained.
  unfoldable pub begin_shutdown : Handler lib → Handler lib × List Conn
  begin_shutdown h = (record h { shutting_down = true }, all_connections lib h.registry)

  -- `closeExpiredIdleConnections`: the connections that are closed.
  unfoldable pub close_expired_idle_connections : ℤ → ℤ → Handler lib → Handler lib × List Conn
  close_expired_idle_connections now ping_timeout h =
      let (r, conns) = expired lib now ping_timeout h.registry in
      if is_empty conns
      then (record h { registry = r }, [])
      else (record h { registry = r; online = h.online -ℤ pos (length conns) }, conns)

  -- `AddToGroup`, `RemoveFromGroup` and `RemoveFromAllGroups`; the nil handler is left out.
  unfoldable pub handler_add_to_group : Option Conn → Bytes → Handler lib → Handler lib × Checked
  handler_add_to_group conn group h =
      let (r, e) = add_to_group lib conn group h.registry in (record h { registry = r }, e)

  unfoldable pub handler_remove_from_group :
      Option Conn → Bytes → Handler lib → Handler lib × Checked
  handler_remove_from_group conn group h =
      let (r, e) = remove_from_group lib conn group h.registry in (record h { registry = r }, e)

  unfoldable pub handler_remove_from_all_groups : Conn → Handler lib → Handler lib
  handler_remove_from_all_groups conn h = record h {
    registry = remove_from_all_groups lib conn h.registry;
  }

  -- What `readLoop` does to the registry for a frame that it has decoded.
  abbrev pub handler_touch : ℤ → Conn → Handler lib → Handler lib
  handler_touch now conn h = record h { registry = touch lib now conn h.registry }

  -- `UserOnline`, `UserConnections`, `GroupOnline` and `GroupConnections`.
  unfoldable pub handler_user_online : Bytes → Handler lib → ℕ
  handler_user_online user_id h = if is_empty user_id then 0 else user_online lib user_id h.registry

  unfoldable pub handler_user_connections : Bytes → Handler lib → List Conn
  handler_user_connections user_id h =
      if is_empty user_id then [] else user_connections lib user_id h.registry

  unfoldable pub handler_group_online : Bytes → Handler lib → ℕ
  handler_group_online group h =
      let g = normalize_group group in if is_empty g then 0 else group_online lib g h.registry

  unfoldable pub handler_group_connections : Bytes → Handler lib → List Conn
  handler_group_connections group h =
      let g = normalize_group group in if is_empty g then [] else group_connections lib g h.registry

  -- One call on the handler, with no other beside it. A connection is added under a fresh id.
  pub data Event (h : Handler lib) : Handler lib → Type 0 where
    connects :
        (now : ℤ) (c : Conn)
        → lib.get h.registry.connections (connection_key c) ≡ none
        → Event h (add_connection now c h).0
    disconnects : (c : Conn) → Event h (remove_connection c h)
    finishes : Event h (finish_connection h)
    receives : (now : ℤ) (c : Conn) → Event h (handler_touch now c h)
    joins : (c : Option Conn) (group : Bytes) → Event h (handler_add_to_group c group h).0
    leaves : (c : Option Conn) (group : Bytes) → Event h (handler_remove_from_group c group h).0
    leaves_all : (c : Conn) → Event h (handler_remove_from_all_groups c h)
    sweeps : (now timeout : ℤ) → Event h (close_expired_idle_connections now timeout h).0
    shuts_down : Event h (begin_shutdown h).0

  pub data Events (h : Handler lib) : Handler lib → Type 0 where
    quiet : Events h h
    later : {g k : Handler lib} → Events h g → Event g k → Events h k
