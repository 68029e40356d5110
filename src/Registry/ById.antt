-- ===== src/Registry/ById.antt =====
-- What the snapshot of some connection ids holds, and the snapshots of registry.go together.
use signalg.Base.{
  ◌≡◌, refl, sym, ap, Bool, false, ◌||◌, if◌then◌else◌, is_empty, List, [], ◌∷◌, map, Bytes,
  bytes_eq_iff, none, arith, inl, inr, Option-cases, Bool-cases,
}
use signalg.Base.Assoc.{bytes_eq_self, lookup, DistinctKeys}
use signalg.Registry.ShardMap.{ShardMap, IsMap}
use signalg.Registry.Types.{Conn, RegistryEntry, Registry, connection_key, pointer_text}
use signalg.Registry.Members.{contains}
use signalg.Registry.Consistent.{IsConsistent}
use signalg.Registry.Conns.{conn_at}
use signalg.Registry.Snapshot.{
  set_conn, conn_of, collect_ids, user_snapshot, user_snapshot_pooled, connection_snapshot,
  connection_snapshot_pooled, user_connections, copy_connection_set, copy_connection_set_pooled,
}
use signalg.Registry.Chosen.{is_of_users, wanted}
use signalg.Registry.Snapshots.{IsSnapshot, nobody, users-IsSnapshot}

-- The entries whose keys are among some ids.
abbrev pub is_under : List Bytes → RegistryEntry → Bool
is_under ids e = contains ids (connection_key e.conn)

key_not_empty : (c : Conn) → is_empty (connection_key c) ≡ false
unfolding connection_key pointer_text
key_not_empty c = ground arith

module _ (lib : ShardMap) (laws : IsMap lib) (r : Registry lib) (v : IsConsistent lib r) where
  open lib use {get}

  -- The loop of `connectionSnapshot`, with the keys under which it has found its connections.
  record IsCollected (ids seen : List Bytes) : Type 0 where
    keyed : List (Bytes × Conn)
    values : collect_ids lib ids seen r ≡ map set_conn keyed
    distinct : DistinctKeys keyed
    chosen :
        (k : Bytes)
        → lookup k keyed ≡ (
            if is_empty k || contains seen k
            then none
            else if contains ids k
            then conn_at (get r.connections k)
            else none)

  collect_ids-IsCollected : (ids seen : List Bytes) → IsCollected ids seen
  unfolding collect_ids contains lookup conn_of
  collect_ids-IsCollected [] seen = record {
    keyed = [];
    values = refl;
    distinct = tt;
    chosen = λ k. ground arith;
  }
  collect_ids-IsCollected (id ∷ ids) seen = elim (Bool-cases (is_empty id || contains seen id)) [
    | inl skip ↦
        (let rest = collect_ids-IsCollected ids seen in
          record {
            keyed = rest.keyed;
            values = rw (collect_ids, skip) rest.values;
            distinct = rest.distinct;
            chosen = λ k. ground (arith, rest.chosen k, skip, bytes_eq_iff id k);
          })
    | inr new ↦
        (let rest = collect_ids-IsCollected ids (id ∷ seen) in
          elim (Option-cases (get r.connections id)) [
            | inl e ↦ record {
              keyed = rest.keyed;
              values = rw (collect_ids, new, e) rest.values;
              distinct = rest.distinct;
              chosen = λ k. ground (arith, rest.chosen k, new, e, bytes_eq_iff id k);
            }
            | inr (x, e) ↦ record {
              keyed = (id, x.conn) ∷ rest.keyed;
              values = rw (collect_ids, new, e) (ap (◌∷◌ x.conn) rest.values);
              distinct = (ground (arith, rest.chosen id, bytes_eq_self id), rest.distinct);
              chosen = λ k. ground (arith, rest.chosen k, new, e, bytes_eq_iff id k);
            }
          ])
  ]

  wanted-key :
      (ids : List Bytes) (k : Bytes)
      → wanted (is_under ids) (get r.connections k) ≡ (
          if is_empty k
          then none
          else if contains ids k
          then conn_at (get r.connections k)
          else none)
  wanted-key ids k = elim (Option-cases (get r.connections k)) [
    | inl e ↦ rw e (ground arith)
    | inr (x, e) ↦ rw e (ground (arith, v.keyed k x e, key_not_empty x.conn))
  ]

  pub ids-IsSnapshot :
      (ids : List Bytes) → IsSnapshot lib (is_under ids) r (connection_snapshot_pooled lib ids r)
  unfolding connection_snapshot_pooled contains conn_of lookup
  ids-IsSnapshot [] = nobody lib laws r v (is_under []) (λ k. ground (arith, wanted-key [] k))
  ids-IsSnapshot (id ∷ []) = elim (Bool-cases (is_empty id)) [
    | inl skip ↦ rw skip (
        nobody lib laws r v (is_under (id ∷ []))
          (λ k. ground (arith, wanted-key (id ∷ []) k, skip, bytes_eq_iff id k)))
    | inr use_it ↦ elim (Option-cases (get r.connections id)) [
      | inl e ↦
          rw (use_it, e)
            (nobody lib laws r v (is_under (id ∷ []))
              (λ k. ground (arith, wanted-key (id ∷ []) k, e, bytes_eq_iff id k)))
      | inr (x, e) ↦
          rw (use_it, e)
            (record {
              keyed = (id, x.conn) ∷ [];
              values = refl;
              distinct = (refl, tt);
              chosen = λ k. ground (arith, wanted-key (id ∷ []) k, use_it, e, bytes_eq_iff id k);
            })
    ]
  ]
  ids-IsSnapshot (id ∷ other ∷ ids) =
      let c = collect_ids-IsCollected (id ∷ other ∷ ids) [] in
      record {
        keyed = c.keyed;
        values = c.values;
        distinct = c.distinct;
        chosen = λ k. ground (arith, c.chosen k, wanted-key (id ∷ other ∷ ids) k);
      }

  user_snapshot-pooled :
      (ids : List Bytes) → user_snapshot lib ids r ≡ user_snapshot_pooled lib ids r
  unfolding user_snapshot user_snapshot_pooled user_connections copy_connection_set
      copy_connection_set_pooled
  user_snapshot-pooled [] = refl
  user_snapshot-pooled (u ∷ []) = refl
  user_snapshot-pooled (u ∷ w ∷ ids) = refl

  connection_snapshot-pooled :
      (ids : List Bytes) → connection_snapshot lib ids r ≡ connection_snapshot_pooled lib ids r
  unfolding connection_snapshot connection_snapshot_pooled
  connection_snapshot-pooled [] = refl
  connection_snapshot-pooled (id ∷ []) = refl
  connection_snapshot-pooled (id ∷ other ∷ ids) = refl

  -- In a registry whose indexes agree with its entries, whatever the users and the ids, repeated
  -- and empty ones among them: `userSnapshot` returns the connections of the entries with one of
  -- these users, and `connectionSnapshot` those of the entries under one of these ids, each
  -- connection once; the pooled snapshots are the same.
  pub snapshots-IsSnapshot :
      (users ids : List Bytes)
      → IsSnapshot lib (is_of_users users) r (user_snapshot lib users r)
        × IsSnapshot lib (is_under ids) r (connection_snapshot lib ids r)
        × (user_snapshot_pooled lib users r ≡ user_snapshot lib users r)
        × (connection_snapshot_pooled lib ids r ≡ connection_snapshot lib ids r)
  snapshots-IsSnapshot users ids = (
    rw (user_snapshot-pooled users) (users-IsSnapshot lib laws r v users),
    rw (connection_snapshot-pooled ids) (ids-IsSnapshot ids),
    sym (user_snapshot-pooled users),
    sym (connection_snapshot-pooled ids),
  )
