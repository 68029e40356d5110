-- ===== src/Registry/Expired.antt =====
-- What `expired` returns and what it leaves.
use signalg.Base.{
  ◌+◌, ◌≡◌, refl, ◌∙◌, ap, true, ==_self, if◌then◌else◌, List, [], ◌∷◌, Bytes, bytes_eq_iff, length,
  Option, none, some, arith, inl, inr, Bool-cases,
}
use signalg.Base.Int.{ℤ, pos, lt_int, ◌-ℤ◌}
use signalg.Base.Assoc.{
  lookup, DistinctKeys, is_some, keep, lookup-keep, keep-DistinctKeys, bytes_eq_self,
}
use signalg.Registry.ShardMap.{ShardMap, IsMap}
use signalg.Registry.Types.{Conn, RegistryEntry, Registry}
use signalg.Registry.Members.{drop_entry}
use signalg.Registry.Consistent.{IsConsistent, drop_entry-IsConsistent}
use signalg.Registry.Counts.{len-delete}
use signalg.Registry.Expiry.{is_stale, expire_each, expired}

module _ (lib : ShardMap) (laws : IsMap lib) (deadline : ℤ) where
  open lib use {Map, new, get, set, delete, len, entries}
  open laws use {get-delete, lookup-entries, entries-DistinctKeys}

  -- Entries that are registered under their keys, and stale.
  abbrev Held : Registry lib → List (Bytes × RegistryEntry) → Type 0
  Held r [] = Unit {0}
  Held r ((key, e) ∷ es) =
      (get r.connections key ≡ some e) × (is_stale deadline e ≡ true) × Held r es

  Held-drop :
      (r : Registry lib) (key : Bytes) (e : RegistryEntry) (es : List (Bytes × RegistryEntry))
      → lookup key es ≡ none
      → Held r es
      → Held (drop_entry lib key e r) es
  unfolding lookup drop_entry
  Held-drop r key e [] n h = tt
  Held-drop r key e ((k, x) ∷ es) n h = ground (
    arith,
    get-delete r.connections key k,
    bytes_eq_iff key k,
    bytes_eq_iff k key,
    Held-drop r key e es,
  )

  Held-keep :
      (r : Registry lib) (es : List (Bytes × RegistryEntry))
      → DistinctKeys es
      → ((k : Bytes) → is_some (lookup k es) ≡ true → lookup k es ≡ get r.connections k)
      → Held r (keep (is_stale deadline) es)
  unfolding lookup keep
  Held-keep r [] d h = tt
  Held-keep r ((k, x) ∷ es) d h =
      let rest = Held-keep r es d.1 (λ j t. ground (arith, h j, bytes_eq_iff k j)) in
      ground (arith, rest, h k, bytes_eq_self k)

  -- One round on a held entry drops it.
  expire_round :
      (r : Registry lib) (key : Bytes) (e : RegistryEntry) (es : List (Bytes × RegistryEntry))
      → get r.connections key ≡ some e
      → is_stale deadline e ≡ true
      → expire_each lib deadline ((key, e) ∷ es) r ≡ (
        (expire_each lib deadline es (drop_entry lib key e r)).0,
        e.conn ∷ (expire_each lib deadline es (drop_entry lib key e r)).1,
      )
  unfolding expire_each
  expire_round r key e es t s = rw (t, ==_self e.entry_id, s)

  expire_none : (r : Registry lib) → expire_each lib deadline [] r ≡ (r, [])
  unfolding expire_each
  expire_none r = refl

  abbrev conns_of : List (Bytes × RegistryEntry) → List Conn
  conns_of [] = []
  conns_of ((key, e) ∷ es) = e.conn ∷ conns_of es

  -- What a run over held entries does.
  record IsExpiry (es : List (Bytes × RegistryEntry)) (r r' : Registry lib) (conns : List Conn)
      : Type 0 where
    consistent : IsConsistent lib r'
    returned : conns ≡ conns_of es
    left :
        (k : Bytes)
        → get r'.connections k ≡ (if is_some (lookup k es) then none else get r.connections k)
    counted : len r.connections ≡ len r'.connections + length conns

  -- Deleting one more entry before a run.
  IsExpiry-cons :
      (key : Bytes) (e : RegistryEntry) (es : List (Bytes × RegistryEntry)) (r r' : Registry lib)
      (conns : List Conn)
      → get r.connections key ≡ some e
      → IsExpiry es (drop_entry lib key e r) r' conns
      → IsExpiry ((key, e) ∷ es) r r' (e.conn ∷ conns)
  unfolding lookup drop_entry
  IsExpiry-cons key e es r r' conns t x = record {
    consistent = x.consistent;
    returned = ap (λ z. e.conn ∷ z) x.returned;
    left = λ k.
        ground
          (arith, x.left k, get-delete r.connections key k, bytes_eq_iff k key, bytes_eq_iff key k);
    counted = ground (arith, x.counted, len-delete lib laws r.connections key e t);
  }

  expire_each-IsExpiry :
      (es : List (Bytes × RegistryEntry)) (r : Registry lib)
      → IsConsistent lib r
      → DistinctKeys es
      → Held r es
      → IsExpiry es r (expire_each lib deadline es r).0 (expire_each lib deadline es r).1
  unfolding lookup
  expire_each-IsExpiry [] r v d h =
      rw (expire_none r)
        record { consistent = v; returned = refl; left = λ k. refl; counted = omega arith }
  expire_each-IsExpiry ((key, e) ∷ es) r v d h =
      let rest = IsExpiry-cons key e es r _ _ h.0 (
        expire_each-IsExpiry es (drop_entry lib key e r)
          (drop_entry-IsConsistent lib laws r v key e h.0) d.1 (Held-drop r key e es d.0 h.2)) in
      rw (expire_round r key e es h.0 h.1) rest

  -- What a sweep leaves of an entry.
  abbrev pub fresh : Option RegistryEntry → Option RegistryEntry
  fresh none = none
  fresh (some e) = if is_stale deadline e then none else some e

  -- The connections whose entries are stale, in the order of `Range`.
  abbrev pub stale_conns : List (Bytes × RegistryEntry) → List Conn
  stale_conns [] = []
  stale_conns ((key, e) ∷ es) =
      if is_stale deadline e then e.conn ∷ stale_conns es else stale_conns es

  conns_of-keep :
      (es : List (Bytes × RegistryEntry)) → conns_of (keep (is_stale deadline) es) ≡ stale_conns es
  unfolding keep
  conns_of-keep [] = refl
  conns_of-keep ((key, e) ∷ es) = ground (arith, conns_of-keep es)

  -- What `expired` promises of the registry before and after it, and of its result.
  pub record IsSweep (r r' : Registry lib) (conns : List Conn) : Type 0 where
    pub consistent : IsConsistent lib r'
    pub returned : conns ≡ stale_conns (entries r.connections)
    pub left : (k : Bytes) → get r'.connections k ≡ fresh (get r.connections k)
    pub counted : len r.connections ≡ len r'.connections + length conns

  expire_each-IsSweep :
      (r : Registry lib)
      → IsConsistent lib r
      → IsSweep r
          (expire_each lib deadline (keep (is_stale deadline) (entries r.connections)) r).0
          (expire_each lib deadline (keep (is_stale deadline) (entries r.connections)) r).1
  expire_each-IsSweep r v =
      let es = entries r.connections in
      let d = entries-DistinctKeys r.connections in
      let x =
        expire_each-IsExpiry (keep (is_stale deadline) es) r v
          (keep-DistinctKeys (is_stale deadline) es d)
          (Held-keep r es d (λ k t. lookup-entries r.connections k)) in
      record {
        consistent = x.consistent;
        returned = x.returned ∙ conns_of-keep es;
        left = λ k. ground (
          arith,
          x.left k,
          lookup-keep (is_stale deadline) k es d,
          lookup-entries r.connections k,
        );
        counted = x.counted;
      }

module _ (lib : ShardMap) (laws : IsMap lib) where
  -- Of a registry whose indexes agree with its entries, at a positive timeout, `expired` returns
  -- the connections of the entries last seen before `now - timeout`, each once; exactly these
  -- entries leave the registry; as many entries are gone as connections are returned; and the
  -- indexes agree with the entries again.
  pub expired-IsSweep :
      (now timeout : ℤ) (r : Registry lib)
      → lt_int (pos 0) timeout ≡ true
      → IsConsistent lib r
      → IsSweep lib laws
          (now -ℤ timeout)
          r
          (expired lib now timeout r).0
          (expired lib now timeout r).1
  unfolding expired
  expired-IsSweep now timeout r p v = rw p (expire_each-IsSweep lib laws (now -ℤ timeout) r v)

  pub expired-IsConsistent :
      (now timeout : ℤ) (r : Registry lib)
      → IsConsistent lib r
      → IsConsistent lib (expired lib now timeout r).0
  unfolding expired
  expired-IsConsistent now timeout r v = elim (Bool-cases (lt_int (pos 0) timeout)) [
    | inl p ↦ (expired-IsSweep now timeout r p v).consistent
    | inr p ↦ rw (p, expired) v
  ]

  pub expired-counted :
      (now timeout : ℤ) (r : Registry lib)
      → IsConsistent lib r
      → lib.len r.connections
        ≡ lib.len (expired lib now timeout r).0.connections + length (expired lib now timeout r).1
  unfolding expired
  expired-counted now timeout r v = elim (Bool-cases (lt_int (pos 0) timeout)) [
    | inl p ↦ (expired-IsSweep now timeout r p v).counted
    | inr p ↦ rw (p, expired) (omega arith)
  ]
