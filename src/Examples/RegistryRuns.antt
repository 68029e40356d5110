-- ===== src/Examples/RegistryRuns.antt =====
-- Two connections of one user, one of them in a group.
use signalg.Registry.Members.{remove_locked, remove_locked}
use signalg.Base.{◌≡◌, refl, false, length, [], ◌∷◌, bytes_eq, some}
use signalg.Base.Int.{pos, ◌-ℤ◌}
use signalg.Base.Assoc.{keep, lookup, erase}
use signalg.Text.{trim_space}
use signalg.Registry.Types.{
  Conn, Registry, new_connection_registry, connection_key, normalize_group, same_conn,
}
use signalg.Registry.Members.{add, remove, add_to_group, entry_of}
use signalg.Registry.Expiry.{expired}
use signalg.Registry.Snapshot.{user_online, group_online}
use signalg.Registry.Snapshot.{
  user_snapshot, user_snapshot_pooled, connection_snapshot, connection_snapshot_pooled,
}
use signalg.Registry.Chosen.{is_of_users}
use signalg.Registry.Snapshots.{IsSnapshot}
use signalg.Registry.ById.{is_under, snapshots-IsSnapshot}
use signalg.Registry.Consistent.{IsConsistent}
use signalg.Registry.Counts.{is_of_user, is_in_group, online-count}
use signalg.Registry.Expired.{IsSweep, expired-IsSweep}
use signalg.Registry.Removed.{IsGone, remove-IsGone}
use signalg.Registry.Reachable.{Calls, fresh, after, adds, joins, calls-IsConsistent}
use signalg.Examples.Instances.{assoc_map, assoc_map-IsMap}

abbrev pub first : Conn
first = record { addr = 1; id = b'1' ∷ []; user_id = b'u' ∷ [] }

abbrev second : Conn
second = record { addr = 2; id = b'2' ∷ []; user_id = b'u' ∷ [] }

abbrev one : Registry assoc_map
one = add assoc_map (pos 10) first (new_connection_registry assoc_map)

abbrev two : Registry assoc_map
two = add assoc_map (pos 20) second one

abbrev grouped : Registry assoc_map
grouped = (add_to_group assoc_map (some second) (b'g' ∷ []) two).0

calls : Calls assoc_map grouped
unfolding new_connection_registry add connection_key lookup erase bytes_eq
calls =
    after (after (after fresh (adds (pos 10) first refl)) (adds (pos 20) second refl))
      (joins (some second) (b'g' ∷ []))

calls-IsConsistent_example : IsConsistent assoc_map grouped
calls-IsConsistent_example = calls-IsConsistent assoc_map assoc_map-IsMap calls

online-count_example :
    (user_online assoc_map (b'u' ∷ []) grouped
      ≡ length (keep (is_of_user (b'u' ∷ [])) (assoc_map.entries grouped.connections)))
    × (group_online assoc_map (b'g' ∷ []) grouped
        ≡ length (keep (is_in_group (b'g' ∷ [])) (assoc_map.entries grouped.connections)))
online-count_example =
    online-count assoc_map assoc_map-IsMap grouped calls-IsConsistent_example (b'u' ∷ [])
      (b'g' ∷ [])

expired-IsSweep_example :
    IsSweep assoc_map assoc_map-IsMap
      (pos 30 -ℤ pos 15)
      grouped
      (expired assoc_map (pos 30) (pos 15) grouped).0
      (expired assoc_map (pos 30) (pos 15) grouped).1
expired-IsSweep_example =
    expired-IsSweep assoc_map assoc_map-IsMap (pos 30) (pos 15) grouped refl
      calls-IsConsistent_example

remove-IsGone_example :
    IsGone assoc_map assoc_map-IsMap
      (connection_key second)
      grouped
      (remove assoc_map second grouped).0
    × (remove assoc_map second (remove assoc_map second grouped).0
        ≡ ((remove assoc_map second grouped).0, false))
unfolding new_connection_registry add add_to_group remove entry_of lookup normalize_group trim_space
    bytes_eq connection_key same_conn remove_locked
remove-IsGone_example =
    remove-IsGone assoc_map assoc_map-IsMap second grouped (remove assoc_map second grouped).0
      calls-IsConsistent_example refl

snapshots-IsSnapshot_example :
    IsSnapshot assoc_map
      (is_of_users ((b'u' ∷ []) ∷ [] ∷ (b'u' ∷ []) ∷ []))
      grouped
      (user_snapshot assoc_map ((b'u' ∷ []) ∷ [] ∷ (b'u' ∷ []) ∷ []) grouped)
    × IsSnapshot assoc_map
        (is_under ((b'1' ∷ []) ∷ (b'1' ∷ []) ∷ []))
        grouped
        (connection_snapshot assoc_map ((b'1' ∷ []) ∷ (b'1' ∷ []) ∷ []) grouped)
    × (user_snapshot_pooled assoc_map ((b'u' ∷ []) ∷ [] ∷ (b'u' ∷ []) ∷ []) grouped
        ≡ user_snapshot assoc_map ((b'u' ∷ []) ∷ [] ∷ (b'u' ∷ []) ∷ []) grouped)
    × (connection_snapshot_pooled assoc_map ((b'1' ∷ []) ∷ (b'1' ∷ []) ∷ []) grouped
        ≡ connection_snapshot assoc_map ((b'1' ∷ []) ∷ (b'1' ∷ []) ∷ []) grouped)
snapshots-IsSnapshot_example =
    snapshots-IsSnapshot assoc_map assoc_map-IsMap grouped calls-IsConsistent_example
      ((b'u' ∷ []) ∷ [] ∷ (b'u' ∷ []) ∷ []) ((b'1' ∷ []) ∷ (b'1' ∷ []) ∷ [])
