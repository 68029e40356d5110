-- ===== src/Dispatcher/Cache.antt =====
-- `dispatcherFor` of dispatcher.go: one dispatcher for each type of hub.
use signalg.Base.{
  ℕ, ◌≡◌, ◌==◌, ==_iff, refl, sym, ap, ◌∙◌, subst, Bool-cases, inl, inr, if◌then◌else◌, Option,
  none, some, Option-cases,
}
use signalg.Errors.{Result, ok, err, nil_dispatcher_target}
use signalg.Dispatcher.Reflect.{Reflection}
use signalg.Dispatcher.Routes.{HubDispatcher, build_dispatcher}

module _ {Value : Type 0} (lib : Reflection Value) where
  -- `dispatcherCache`, a `sync.Map` with hub types for keys.
  abbrev pub Cache : Type 0
  Cache = ℕ → Option (HubDispatcher lib)

  abbrev pub stored : HubDispatcher lib → Option (HubDispatcher lib) → HubDispatcher lib
  stored d none = d
  stored d (some actual) = actual

  -- `LoadOrStore`.
  unfoldable pub load_or_store : ℕ → HubDispatcher lib → Cache → Cache × HubDispatcher lib
  load_or_store hub_type d cache =
      let actual = stored d (cache hub_type) in
      ((λ t. if t == hub_type then some actual else cache t), actual)

  -- The cache of the first argument is that of `Load`, the second that of `LoadOrStore`: others may
  -- store in between. A hub that is not nil stands by its type.
  unfoldable pub dispatcher_for : Option ℕ → Cache → Cache → Cache × Result (HubDispatcher lib)
  unfolding load_or_store
  dispatcher_for none loaded cache = (cache, err nil_dispatcher_target)
  dispatcher_for (some hub_type) loaded cache = elim (loaded hub_type) [
    | some d ↦ (cache, ok d)
    | none ↦
        (let (cache', d) = load_or_store hub_type (build_dispatcher lib hub_type) cache in
          (cache', ok d))
  ]

  -- Each dispatcher of a cache is the one that is built of its type.
  abbrev pub IsBuilt : Cache → Type 0
  IsBuilt cache = (t : ℕ) (d : HubDispatcher lib) → cache t ≡ some d → d ≡ build_dispatcher lib t

  stored-build_dispatcher :
      (hub_type : ℕ) (o : Option (HubDispatcher lib))
      → ((d : HubDispatcher lib) → o ≡ some d → d ≡ build_dispatcher lib hub_type)
      → stored (build_dispatcher lib hub_type) o ≡ build_dispatcher lib hub_type
  stored-build_dispatcher hub_type none v = refl
  stored-build_dispatcher hub_type (some d) v = v d refl

  load_or_store-IsBuilt :
      (hub_type : ℕ) (cache : Cache)
      → IsBuilt cache
      → IsBuilt (load_or_store hub_type (build_dispatcher lib hub_type) cache).0
  unfolding load_or_store
  load_or_store-IsBuilt hub_type cache v t d h =
      let built = stored-build_dispatcher hub_type (cache hub_type) (v hub_type) in
      elim (Bool-cases (t == hub_type)) [
        | inl e ↦
            let same : t ≡ hub_type = (==_iff t hub_type).0 e in
            let made : some (stored (build_dispatcher lib hub_type) (cache hub_type)) ≡ some d =
              rw e at h in
            let actual : stored (build_dispatcher lib hub_type) (cache hub_type) ≡ d = cc in
            subst (λ k. d ≡ build_dispatcher lib k) (sym same) (sym actual ∙ built)
        | inr e ↦ v t d (rw e at h)
      ]

  -- Where all dispatchers that are stored are those of their types, `dispatcherFor` returns the
  -- dispatcher that is built of the hub's type, whether it finds it, stores it, or another call has
  -- stored it after it looked; and the dispatchers stored are again those of their types.
  pub dispatcher_for-build_dispatcher :
      (hub_type : ℕ) (loaded cache : Cache)
      → IsBuilt loaded
      → IsBuilt cache
      → ((dispatcher_for (some hub_type) loaded cache).1 ≡ ok (build_dispatcher lib hub_type))
        × IsBuilt (dispatcher_for (some hub_type) loaded cache).0
  unfolding dispatcher_for load_or_store
  dispatcher_for-build_dispatcher hub_type loaded cache u v =
      elim (Option-cases (loaded hub_type)) [
        | inl e ↦
            rw (e, dispatcher_for)
              (
                ap ok (stored-build_dispatcher hub_type (cache hub_type) (v hub_type)),
                load_or_store-IsBuilt hub_type cache v,
              )
        | inr (d, e) ↦ rw (e, dispatcher_for) (ap ok (u hub_type d e), v)
      ]

  -- A hub that is not nil has a dispatcher.
  pub dispatcher_for-ok :
      (hub_type : ℕ) (loaded cache : Cache)
      → (d : HubDispatcher lib) × (after : Cache) × (dispatcher_for (some hub_type) loaded cache
          ≡ (after, ok d))
  unfolding dispatcher_for load_or_store
  dispatcher_for-ok hub_type loaded cache = elim (Option-cases (loaded hub_type)) [
    | inl e ↦ (
      stored (build_dispatcher lib hub_type) (cache hub_type),
      (load_or_store hub_type (build_dispatcher lib hub_type) cache).0,
      rw (e, dispatcher_for) refl,
    )
    | inr (d, e) ↦ (d, cache, rw (e, dispatcher_for) refl)
  ]
