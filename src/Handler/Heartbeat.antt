-- ===== src/Handler/Heartbeat.antt =====
-- `heartbeatLoop` of server.go: when the sweep of idle connections is made, and when it is not.
use signalg.Base.{
  ◌≡◌, ◌⊎◌, refl, Bool, true, false, ◌&&◌, ◌||◌, not, if◌then◌else◌, Bool-cases, is_empty, List, [],
  ◌∷◌, ◌++◌, none, some, arith, inl, inr, list-cases, ◌==◌,
}
use signalg.Base.Int.{ℤ, pos, negsuc, lt_int, half_int, ◌-ℤ◌}
use signalg.Registry.ShardMap.{ShardMap, IsMap}
use signalg.Registry.Types.{Conn}
use signalg.Registry.Expiry.{next_expiration, expired}
use signalg.Registry.Consistent.{IsConsistent}
use signalg.Registry.Expired.{IsSweep, expired-IsSweep}
use signalg.Handler.Admission.{Handler, close_expired_idle_connections}

lt_int-asym : (a b : ℤ) → lt_int a b ≡ true → lt_int b a ≡ false
lt_int-asym (pos a) (pos b) h = ground arith
lt_int-asym (pos a) (negsuc b) h = cc
lt_int-asym (negsuc a) (pos b) h = refl
lt_int-asym (negsuc a) (negsuc b) h = ground arith

module _ (lib : ShardMap) where
  -- One turn of the loop: `gap` is the time from its head to the next `heartbeatWake`, `others` what
  -- the program does while the loop waits, `now` the time when the timer fires, and `pick` whether
  -- Go takes the timer where both are ready.
  pub record Turn : Type 0 where
    pub gap : ℤ
    pub others : Handler lib → Handler lib
    pub now : ℤ
    pub pick : Bool

  -- Whether the timer fires before the loop is woken.
  abbrev pub takes_timer : ℤ → Turn → Bool
  takes_timer wait t = lt_int wait t.gap || (not (lt_int t.gap wait) && t.pick)

  -- The connections that are closed in a turn. With none registered the loop waits to be woken.
  unfoldable pub heartbeat_turn : ℤ → Turn → Handler lib → Handler lib × List Conn
  unfolding next_expiration close_expired_idle_connections
  heartbeat_turn ping_timeout t h = elim (next_expiration lib ping_timeout h.registry) [
    | none ↦ (t.others h, [])
    | some wait ↦
        (if takes_timer wait t
          then close_expired_idle_connections lib t.now ping_timeout (t.others h)
          else (t.others h, []))
  ]

  -- `heartbeatLoop` until `heartbeatStop`.
  unfoldable pub heartbeat_loop : ℤ → List Turn → Handler lib → Handler lib × List Conn
  unfolding heartbeat_turn
  heartbeat_loop ping_timeout [] h = (h, [])
  heartbeat_loop ping_timeout (t ∷ ts) h =
      let (after, closed) = heartbeat_turn ping_timeout t h in
      let (last, rest) = heartbeat_loop ping_timeout ts after in (last, closed ++ rest)

module _ (lib : ShardMap) (laws : IsMap lib) where
  -- The registry behind a sweep, whichever branch `closeExpiredIdleConnections` takes.
  swept_registry :
      (now ping_timeout : ℤ) (h : Handler lib)
      → (close_expired_idle_connections lib now ping_timeout h).0.registry
        ≡ (expired lib now ping_timeout h.registry).0
  unfolding close_expired_idle_connections
  swept_registry now ping_timeout h =
      elim (Bool-cases (is_empty (expired lib now ping_timeout h.registry).1)) [
        | inl e ↦ rw (e, close_expired_idle_connections) refl
        | inr e ↦ rw (e, close_expired_idle_connections) refl
      ]

  swept_conns :
      (now ping_timeout : ℤ) (h : Handler lib)
      → (close_expired_idle_connections lib now ping_timeout h).1
        ≡ (expired lib now ping_timeout h.registry).1
  unfolding close_expired_idle_connections
  swept_conns now ping_timeout h = elim (list-cases (expired lib now ping_timeout h.registry).1) [
    | inl e ↦ rw (e, close_expired_idle_connections) refl
    | inr (c, cs, e) ↦ rw (e, close_expired_idle_connections) refl
  ]

  module _ (ping_timeout : ℤ) (t : Turn lib) (h : Handler lib) where
    -- A turn that closes the idle connections: the loop has a timeout and a connection to wait for,
    -- and is not woken before half the timeout is over.
    pub record IsBeat (r : Handler lib × List Conn) : Type 0 where
      pub enabled : lt_int (pos 0) ping_timeout ≡ true
      pub some_connection : (lib.len h.registry.connections == 0) ≡ false
      pub in_time : lt_int t.gap (half_int ping_timeout) ≡ false
      pub sweep : IsSweep lib laws (t.now -ℤ ping_timeout) (t.others h).registry r.0.registry r.1

    -- Why a turn makes no sweep: there is no timeout, or no connection, or the loop is woken by the
    -- time at which the timer fires.
    pub data IsIdle : Type 0 where
      disabled : lt_int (pos 0) ping_timeout ≡ false → IsIdle
      no_connection : (lib.len h.registry.connections == 0) ≡ true → IsIdle
      woken : lt_int (half_int ping_timeout) t.gap ≡ false → IsIdle

    swept_turn :
        IsConsistent lib (t.others h).registry
        → lt_int (pos 0) ping_timeout ≡ true
        → (lib.len h.registry.connections == 0) ≡ false
        → lt_int t.gap (half_int ping_timeout) ≡ false
        → IsBeat (close_expired_idle_connections lib t.now ping_timeout (t.others h))
    swept_turn v p n g = record {
      enabled = p;
      some_connection = n;
      in_time = g;
      sweep =
          rw
            (
              swept_registry t.now ping_timeout (t.others h),
              swept_conns t.now ping_timeout (t.others h),
            )
            (expired-IsSweep lib laws t.now ping_timeout (t.others h).registry p v);
    }

    timed_turn :
        (fires : Bool)
        → (fires ≡ true → lt_int t.gap (half_int ping_timeout) ≡ false)
        → (fires ≡ false → lt_int (half_int ping_timeout) t.gap ≡ false)
        → IsConsistent lib (t.others h).registry
        → lt_int (pos 0) ping_timeout ≡ true
        → (lib.len h.registry.connections == 0) ≡ false
        → let swept = close_expired_idle_connections lib t.now ping_timeout (t.others h) in
          (((if fires then swept else (t.others h, [])) ≡ (t.others h, [])) × IsIdle)
          ⊎ IsBeat (if fires then swept else (t.others h, []))
    timed_turn true f g v p n = inr (swept_turn v p n (f refl))
    timed_turn false f g v p n = inl (refl, woken (g refl))

    -- Any turn of the loop, if the registry's indexes agree with its entries when the wait is over.
    -- Either the loop makes no sweep, and what the program does meanwhile is all that changes; then
    -- the ping timeout is not positive, no connection was registered when the turn began, or the
    -- loop was woken no later than half the timeout after that. Or none of the first two holds, the
    -- loop was not woken sooner than after half the timeout, and the turn closes the connections
    -- last seen more than the timeout before the timer fires, each once, and exactly these leave
    -- the registry.
    pub heartbeat_turn-IsBeat :
        IsConsistent lib (t.others h).registry
        → ((heartbeat_turn lib ping_timeout t h ≡ (t.others h, [])) × IsIdle)
          ⊎ IsBeat (heartbeat_turn lib ping_timeout t h)
    unfolding heartbeat_turn next_expiration
    heartbeat_turn-IsBeat v = elim (Bool-cases (lt_int (pos 0) ping_timeout)) [
      | inr p ↦ rw (p, heartbeat_turn, next_expiration) (inl (refl, disabled p))
      | inl p ↦ elim (Bool-cases (lib.len h.registry.connections == 0)) [
        | inl n ↦ rw (p, n, heartbeat_turn, next_expiration) (inl (refl, no_connection n))
        | inr n ↦
            let after = lt_int-asym (half_int ping_timeout) t.gap in
            rw (p, n, heartbeat_turn, next_expiration)
              (timed_turn (takes_timer lib (half_int ping_timeout) t)
                (λ f. ground (arith, f, after)) (λ f. ground (arith, f)) v p n)
      ]
    ]
