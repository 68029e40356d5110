-- ===== src/Handler/Online.antt =====
-- `Online` of server.go, against the number of registered connections.
use signalg.Base.{
  ℕ, ◌+◌, ◌≡◌, ◌∙◌, sym, ap, subst, true, Bool, is_empty, List, [], ◌∷◌, length, none, arith, inl,
  inr, Bool-cases,
}
use signalg.Base.Int.{ℤ, pos, negsuc, ◌-ℤ◌, sub_pos, add_one}
use signalg.Registry.ShardMap.{ShardMap, IsMap}
use signalg.Registry.Types.{Conn, Registry, connection_key}
use signalg.Registry.Expiry.{expired}
use signalg.Registry.Consistent.{IsConsistent}
use signalg.Registry.Preserved.{
  add-IsConsistent, remove-IsConsistent, add_to_group-IsConsistent, remove_from_group-IsConsistent,
  remove_from_all_groups-IsConsistent, touch-IsConsistent,
}
use signalg.Registry.Counts.{len-added}
use signalg.Registry.Expired.{expired-IsConsistent, expired-counted}
use signalg.Registry.Removed.{remove-IsGone, remove-cases}
use signalg.Registry.Conns.{
  touch-IsSame, add_to_group-IsSame, remove_from_group-IsSame, remove_from_all_groups-IsSame,
}
use signalg.Handler.Admission.{
  Handler, add_connection, remove_connection, finish_connection, begin_shutdown,
  close_expired_idle_connections, handler_add_to_group, handler_remove_from_group,
  handler_remove_from_all_groups, Event, connects, disconnects, finishes, receives, joins, leaves,
  leaves_all, sweeps, shuts_down, Events, quiet, later,
}

none_left :
    {m : ℕ} (n : ℕ) (conns : List Conn) → is_empty conns ≡ true → m ≡ n + length conns → m ≡ n
none_left n [] e h = omega arith
none_left n (c ∷ cs) e h = cc

module _ (lib : ShardMap) (laws : IsMap lib) where
  -- The counter is the number of registered connections, and the registry is consistent.
  pub record IsCounted (h : Handler lib) : Type 0 where
    pub consistent : IsConsistent lib h.registry
    pub online : h.online ≡ pos (lib.len h.registry.connections)

  removed-IsCounted :
      (c : Conn) (h : Handler lib) → IsCounted h → IsCounted (remove_connection lib c h)
  unfolding remove_connection
  removed-IsCounted c h v = elim (remove-cases lib laws c h.registry) [
    | inl e ↦ rw (e, remove_connection) v
    | inr (r', e) ↦
        let gone = (remove-IsGone lib laws c h.registry r' v.consistent e).0 in
        let kept : IsConsistent lib r' =
          subst (λ (x : Registry lib × Bool). IsConsistent lib x.0) e
            (remove-IsConsistent lib laws h.registry v.consistent c) in
        let fewer : h.online -ℤ pos 1 ≡ pos (lib.len r'.connections) =
          ap (λ z. z -ℤ pos 1) (v.online ∙ ap pos gone.counted)
          ∙ sub_pos (lib.len r'.connections) 1 in
        rw (e, remove_connection) (record { consistent = kept; online = fewer })
  ]

  swept-IsCounted :
      (now timeout : ℤ) (h : Handler lib)
      → IsCounted h
      → IsCounted (close_expired_idle_connections lib now timeout h).0
  unfolding close_expired_idle_connections
  swept-IsCounted now timeout h v =
      let counted = expired-counted lib laws now timeout h.registry v.consistent in
      let kept = expired-IsConsistent lib laws now timeout h.registry v.consistent in
      elim (Bool-cases (is_empty (expired lib now timeout h.registry).1)) [
        | inl e ↦
            rw (e, close_expired_idle_connections)
              (record {
                consistent = kept;
                online =
                    v.online
                    ∙ ap pos (
                        none_left (lib.len (expired lib now timeout h.registry).0.connections)
                          (expired lib now timeout h.registry).1 e counted);
              })
        | inr e ↦
            rw (e, close_expired_idle_connections)
              (record {
                consistent = kept;
                online =
                    ap (λ z. z -ℤ pos (length (expired lib now timeout h.registry).1))
                      (v.online ∙ ap pos counted)
                    ∙ sub_pos _ (length (expired lib now timeout h.registry).1);
              })
      ]

  added-IsCounted :
      (now : ℤ) (c : Conn) (h : Handler lib)
      → lib.get h.registry.connections (connection_key c) ≡ none
      → IsCounted h
      → IsCounted (add_connection lib now c h).0
  unfolding add_connection
  added-IsCounted now c h e v = elim (Bool-cases h.shutting_down) [
    | inl s ↦ rw (s, add_connection) (record { consistent = v.consistent; online = v.online })
    | inr s ↦
        rw (s, add_connection)
          (record {
            consistent = add-IsConsistent lib laws h.registry v.consistent now c e;
            online =
                ap (λ z. z -ℤ negsuc 0) v.online
                ∙ add_one (lib.len h.registry.connections)
                ∙ ap pos (sym (len-added lib laws now c h.registry e));
          })
  ]

  pub Event-IsCounted : {h g : Handler lib} → Event lib h g → IsCounted h → IsCounted g
  unfolding finish_connection begin_shutdown handler_add_to_group handler_remove_from_group
      handler_remove_from_all_groups
  Event-IsCounted {h} (connects now c e) v = added-IsCounted now c h e v
  Event-IsCounted {h} (disconnects c) v = removed-IsCounted c h v
  Event-IsCounted {h} finishes v = record { consistent = v.consistent; online = v.online }
  Event-IsCounted {h} (receives now c) v = record {
    consistent = touch-IsConsistent lib laws h.registry v.consistent now c;
    online = v.online ∙ ap pos (sym (touch-IsSame lib laws h.registry now c).counted);
  }
  Event-IsCounted {h} (joins c group) v = record {
    consistent = add_to_group-IsConsistent lib laws h.registry v.consistent c group;
    online = v.online ∙ ap pos (sym (add_to_group-IsSame lib laws h.registry c group).counted);
  }
  Event-IsCounted {h} (leaves c group) v = record {
    consistent = remove_from_group-IsConsistent lib laws h.registry v.consistent c group;
    online = v.online ∙ ap pos (sym (remove_from_group-IsSame lib laws h.registry c group).counted);
  }
  Event-IsCounted {h} (leaves_all c) v = record {
    consistent = remove_from_all_groups-IsConsistent lib laws h.registry v.consistent c;
    online = v.online ∙ ap pos (sym (remove_from_all_groups-IsSame lib laws h.registry c).counted);
  }
  Event-IsCounted {h} (sweeps now timeout) v = swept-IsCounted now timeout h v
  Event-IsCounted {h} shuts_down v = record { consistent = v.consistent; online = v.online }

  -- Whatever calls are made of a handler whose counter and registry agree, one after the other,
  -- each connection under a fresh id, `Online` stays the number of the registered connections, and
  -- the registry stays consistent.
  pub Events-IsCounted : {h g : Handler lib} → Events lib h g → IsCounted h → IsCounted g
  Events-IsCounted quiet v = v
  Events-IsCounted (later es e) v = Event-IsCounted e (Events-IsCounted es v)
