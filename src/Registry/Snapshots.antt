-- ===== src/Registry/Snapshots.antt =====
-- What the snapshot of some users holds: each connection that is asked for, once.
use signalg.Base.{
  ◌≡◌, refl, sym, ap, ◌∙◌, Bool, ◌==◌, is_empty, List, [], ◌∷◌, map, Bytes, none, arith, inl, inr,
  Option-cases, Bool-cases, length, length-map,
}
use signalg.Base.Assoc.{lookup, DistinctKeys, length-of_keys, keep, lookup-keep, keep-DistinctKeys}
use signalg.Registry.ShardMap.{ShardMap, IsMap}
use signalg.Registry.Types.{Conn, RegistryEntry, Registry}
use signalg.Registry.Index.{index_get}
use signalg.Registry.Consistent.{IsConsistent}
use signalg.Registry.Snapshot.{set_conn, collect_users, total_of, user_snapshot_pooled}
use signalg.Registry.Chosen.{
  is_of_users, wanted, wanted-users, wanted-none, collect_users-DistinctKeys, lookup-collect_users,
}

module _ (lib : ShardMap) where
  -- The connections of exactly those entries that pass a test, each once.
  pub record IsSnapshot (p : RegistryEntry → Bool) (r : Registry lib) (conns : List Conn)
      : Type 0 where
    pub keyed : List (Bytes × Conn)
    pub values : conns ≡ map set_conn keyed
    pub distinct : DistinctKeys keyed
    pub chosen : (k : Bytes) → lookup k keyed ≡ wanted p (lib.get r.connections k)

module _ (lib : ShardMap) (laws : IsMap lib) (r : Registry lib) (v : IsConsistent lib r) where
  open lib use {Map, get, len, entries}
  open laws use {lookup-entries, entries-DistinctKeys, len-entries}

  -- As many as there are such entries.
  pub length-IsSnapshot :
      (p : RegistryEntry → Bool) (conns : List Conn)
      → IsSnapshot lib p r conns
      → length conns ≡ length (keep p (entries r.connections))
  length-IsSnapshot p conns s =
      ap length s.values
      ∙ length-map set_conn s.keyed
      ∙ length-of_keys s.keyed (keep p (entries r.connections)) s.distinct
          (keep-DistinctKeys p (entries r.connections) (entries-DistinctKeys r.connections))
          (λ k. ground (
            arith,
            s.chosen k,
            lookup-keep p k (entries r.connections) (entries-DistinctKeys r.connections),
            lookup-entries r.connections k,
          ))

  pub nobody :
      (p : RegistryEntry → Bool)
      → ((k : Bytes) → wanted p (get r.connections k) ≡ none)
      → IsSnapshot lib p r []
  unfolding lookup
  nobody p h = record { keyed = []; values = refl; distinct = tt; chosen = λ k. sym (h k) }

  -- A sum of no connections is that of users who have none.
  total-none :
      (ids : List Bytes) (k : Bytes)
      → total_of lib ids r ≡ 0
      → wanted (is_of_users ids) (get r.connections k) ≡ none
  unfolding total_of index_get
  total-none [] k h = wanted-none (get r.connections k)
  total-none (u ∷ ids) k h =
      let more = wanted-users u ids (get r.connections k) in
      elim (Bool-cases (is_empty u)) [
        | inl skip ↦ rw (more, skip) (total-none ids k (ground (arith, skip)))
        | inr use_it ↦ elim (Option-cases (get r.user_conn_index u)) [
          | inl e ↦ rw (more, use_it) (ground (arith, use_it, e, v.users u k, total-none ids k))
          | inr (s, e) ↦ absurd (ground (arith, use_it, e, v.user_sets u s))
        ]
      ]

  lookup-all :
      (k : Bytes) (ids : List Bytes)
      → lookup k (collect_users lib ids [] r) ≡ wanted (is_of_users ids) (get r.connections k)
  lookup-all k ids = unfold lookup in lookup-collect_users lib laws r v k ids []

  pub users-IsSnapshot :
      (ids : List Bytes) → IsSnapshot lib (is_of_users ids) r (user_snapshot_pooled lib ids r)
  unfolding user_snapshot_pooled index_get
  users-IsSnapshot [] = nobody (is_of_users []) (λ k. wanted-none (get r.connections k))
  users-IsSnapshot (u ∷ []) =
      let one = λ (k : Bytes). wanted-users u [] (get r.connections k) in
      elim (Bool-cases (is_empty u)) [
        | inl skip ↦ rw skip (
            nobody (is_of_users (u ∷ []))
              (λ k. ground (arith, one k, skip, wanted-none (get r.connections k))))
        | inr use_it ↦ elim (Option-cases (get r.user_conn_index u)) [
          | inl e ↦
              rw (use_it, e)
                (nobody (is_of_users (u ∷ [])) (λ k.
                  ground (arith, one k, use_it, e, v.users u k, wanted-none (get r.connections k))))
          | inr (s, e) ↦
              rw (use_it, e)
                (record {
                  keyed = entries s;
                  values = refl;
                  distinct = entries-DistinctKeys s;
                  chosen = λ k. ground (
                    arith,
                    one k,
                    use_it,
                    e,
                    v.users u k,
                    lookup-entries s k,
                    wanted-none (get r.connections k),
                  );
                })
        ]
      ]
  users-IsSnapshot (u ∷ w ∷ ids) =
      let all = u ∷ w ∷ ids in
      elim (Bool-cases (total_of lib all r == 0)) [
        | inl zero_total ↦
            rw zero_total
              (nobody (is_of_users all) (λ k. total-none all k (ground (arith, zero_total))))
        | inr some_total ↦ rw some_total (record {
          keyed = collect_users lib all [] r;
          values = refl;
          distinct = collect_users-DistinctKeys lib laws r v all [] tt;
          chosen = λ k. lookup-all k all;
        })
      ]
