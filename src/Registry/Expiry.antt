-- ===== src/Registry/Expiry.antt =====
-- The connections that have not been heard of for too long.
use signalg.Base.{
  ◌==◌, not, ◌&&◌, if◌then◌else◌, Bool, false, List, [], ◌∷◌, Bytes, Option, none, some,
}
use signalg.Base.Int.{ℤ, pos, lt_int, ◌-ℤ◌, half_int}
use signalg.Base.Assoc.{keep}
use signalg.Registry.ShardMap.{ShardMap}
use signalg.Registry.Types.{Conn, RegistryEntry, Registry}
use signalg.Registry.Members.{drop_entry}

-- `entry.lastSeen.Load() < deadlineNano`.
abbrev pub is_stale : ℤ → RegistryEntry → Bool
is_stale deadline entry = lt_int entry.last_seen deadline

module _ (lib : ShardMap) where
  open lib use {Map, get, len, entries}

  -- Whether the entry under a key is still the one that was collected, and is still stale.
  unfoldable pub still_stale : ℤ → Option RegistryEntry → RegistryEntry → Bool
  still_stale deadline none entry = false
  still_stale deadline (some current) entry =
      (current.entry_id == entry.entry_id) && is_stale deadline current

  -- The deletions for the entry that stands under a key now.
  unfoldable pub drop_current : Bytes → Option RegistryEntry → Registry lib → Registry lib
  unfolding drop_entry
  drop_current key none r = r
  drop_current key (some current) r = drop_entry lib key current r

  -- The second loop of `expired`, which looks at each collected entry again under its lock.
  unfoldable pub expire_each :
      ℤ → List (Bytes × RegistryEntry) → Registry lib → Registry lib × List Conn
  unfolding still_stale drop_current
  expire_each deadline [] r = (r, [])
  expire_each deadline ((key, entry) ∷ es) r =
      let due = still_stale deadline (get r.connections key) entry in
      let (r', conns) =
        expire_each deadline es (if due then drop_current key (get r.connections key) r else r) in
      (r', if due then entry.conn ∷ conns else conns)

  -- `expired`; both loops together, with no other call between them.
  unfoldable pub expired : ℤ → ℤ → Registry lib → Registry lib × List Conn
  unfolding expire_each
  expired now timeout r =
      if lt_int (pos 0) timeout
      then (let deadline = now -ℤ timeout in
          expire_each deadline (keep (is_stale deadline) (entries r.connections)) r)
      else (r, [])

  unfoldable pub next_expiration : ℤ → Registry lib → Option ℤ
  next_expiration timeout r =
      if not (lt_int (pos 0) timeout)
      then none
      else if len r.connections == 0
      then none
      else some (half_int timeout)
