-- ===== src/Handler/Drained.antt =====
-- `shutdown` and `Shutdown` of server.go.
use signalg.Base.{
  length, length-map, ◌∙◌, ◌≡◌, refl, arith, ◌⊎◌, inl, inr, true, false, List, [], ◌∷◌, map, All,
  Option, none, some,
}
use signalg.Errors.{Error, ok, err, Checked, nil_error}
use signalg.Registry.ShardMap.{ShardMap}
use signalg.Registry.Types.{Conn}
use signalg.Registry.Snapshot.{all_connections}
use signalg.Handler.Admission.{Handler, begin_shutdown}
use signalg.Connection.Operations.{begin_drain}
use signalg.Connection.State.{Connection, close_context, close_now}

-- How a `select` between a channel and the caller's context ends: the channel is closed, or the
-- context is done with an error.
pub data Waited : Type 0 where
  came : Waited
  gave_up : Error → Waited

-- `waitConnectionsDrained`, with the ends of its waits.
unfoldable pub wait_connections_drained : List Waited → Checked
wait_connections_drained [] = nil_error
wait_connections_drained (came ∷ ws) = wait_connections_drained ws
wait_connections_drained (gave_up e ∷ ws) = err e

-- `closeDrainingConnections`.
unfoldable pub close_draining_connections : List Connection → List Connection
unfolding close_context close_now
close_draining_connections = map (λ c. close_now (close_context c))

-- The wait for `active`.
unfoldable pub wait_active : Waited → Checked
wait_active came = nil_error
wait_active (gave_up e) = err e

-- What a shutdown leaves: the handler, the connections that it has drained, and its error.
pub record Stopped (lib : ShardMap) : Type 0 where
  pub handler : Handler lib
  pub conns : List Connection
  pub result : Checked

module _ (lib : ShardMap) where
  -- `beginShutdown` with the `beginDrain` of each connection, whose state is given by `state_of`.
  unfoldable pub drain_all : (Conn → Connection) → Handler lib → Handler lib × List Connection
  unfolding begin_shutdown begin_drain
  drain_all state_of h =
      let (g, conns) = begin_shutdown lib h in (g, map (λ c. (begin_drain (state_of c)).0) conns)

  -- `shutdown`: `until` is what becomes of a connection until it is closed, `waits` are the ends of
  -- the waits for them, and `active` that of the wait for the sessions.
  unfoldable pub shutdown :
      (Conn → Connection)
      → (Connection → Connection)
      → List Waited
      → Waited
      → Handler lib
      → Stopped lib
  unfolding drain_all wait_connections_drained close_draining_connections wait_active
  shutdown state_of until waits active h =
      let (g, conns) = drain_all state_of h in
      let closed = close_draining_connections (map until conns) in
      elim (wait_connections_drained waits) [
        | err e ↦ record { handler = g; conns = closed; result = err e }
        | ok u ↦ record { handler = g; conns = closed; result = wait_active active }
      ]

-- `Shutdown`, with what `shutdown` returns, on the error that an earlier call has stored.
unfoldable pub shutdown_once : Checked → Option Checked → Option Checked × Checked
shutdown_once run none = (some run, run)
shutdown_once run (some stored) = (some stored, stored)

-- A connection whose context is cancelled, and whose websocket, if it has one, is closed.
abbrev pub IsClosed : Connection → Type 0
IsClosed c = (c.cancelled ≡ true) × ((c.has_ws ≡ false) ⊎ (c.ws_closed ≡ true))

-- One of some waits has ended with an error of the context.
abbrev pub GaveUp : Error → List Waited → Type 0
GaveUp e [] = ⊥
GaveUp e (w ∷ ws) = (w ≡ gave_up e) ⊎ GaveUp e ws

all_closed : (conns : List Connection) → All IsClosed (close_draining_connections conns)
unfolding close_draining_connections close_context close_now
all_closed [] = tt
all_closed (c ∷ cs) = (closed_one c, all_closed cs)
  where
    closed_one : (c : Connection) → IsClosed (close_now (close_context c))
    closed_one c = ground arith

waited :
    (waits : List Waited)
    → ((wait_connections_drained waits ≡ nil_error) × All (λ w. w ≡ came) waits)
      ⊎ ((e : Error) × (wait_connections_drained waits ≡ err e) × GaveUp e waits)
unfolding wait_connections_drained
waited [] = inl (refl, tt)
waited (came ∷ ws) = elim (waited ws) [
  | inl (h, a) ↦ inl (h, (refl, a))
  | inr (e, h, g) ↦ inr (e, h, inr g)
]
waited (gave_up e ∷ ws) = inr (e, refl, inl refl)

-- What a shutdown comes to: the handler admits nobody any more; each connection that was registered
-- is closed; and it returns nil where all its waits have ended without an error, or an error that
-- one of them has ended with.
pub record IsShutDown (lib : ShardMap) (h : Handler lib) (waits : List Waited) (active : Waited)
    (r : Stopped lib) : Type 0 where
  pub shutting_down : r.handler.shutting_down ≡ true
  pub drained : length r.conns ≡ length (all_connections lib h.registry)
  pub closed : All IsClosed r.conns
  pub result :
      ((r.result ≡ nil_error) × All (λ w. w ≡ came) waits × (active ≡ came))
      ⊎ ((e : Error) × (r.result ≡ err e) × (GaveUp e waits ⊎ (active ≡ gave_up e)))

length-close_draining_connections :
    (conns : List Connection) → length (close_draining_connections conns) ≡ length conns
unfolding close_draining_connections
length-close_draining_connections conns = length-map (λ c. close_now (close_context c)) conns

active-cases :
    (active : Waited)
    → ((wait_active active ≡ nil_error) × (active ≡ came))
      ⊎ ((e : Error) × (wait_active active ≡ err e) × (active ≡ gave_up e))
unfolding wait_active
active-cases came = inl (refl, refl)
active-cases (gave_up e) = inr (e, refl, refl)

module _ (lib : ShardMap) (state_of : Conn → Connection) (until : Connection → Connection) where
  length-closed :
      (h : Handler lib)
      → length (close_draining_connections (map until (drain_all lib state_of h).1))
        ≡ length (all_connections lib h.registry)
  unfolding drain_all begin_shutdown
  length-closed h =
      length-close_draining_connections (map until (drain_all lib state_of h).1)
      ∙ length-map until (drain_all lib state_of h).1
      ∙ length-map (λ c. (begin_drain (state_of c)).0) (all_connections lib h.registry)

  -- However the waits of `shutdown` end, and whatever becomes of the connections meanwhile: the
  -- handler admits no connection any more; as many connections are closed as were registered, each
  -- with its context cancelled; and it returns nil exactly where no wait was given up, or else the
  -- error of a wait that was.
  pub shutdown-IsShutDown :
      (waits : List Waited) (active : Waited) (h : Handler lib)
      → IsShutDown lib h waits active (shutdown lib state_of until waits active h)
  unfolding shutdown drain_all begin_shutdown
  shutdown-IsShutDown waits active h =
      let closed = all_closed (map until (drain_all lib state_of h).1) in
      let drained = length-closed h in
      elim (waited waits) [
        | inr (e, w, g) ↦
            rw (w, shutdown)
              (record {
                shutting_down = refl;
                drained = drained;
                closed = closed;
                result = inr (e, refl, inl g);
              })
        | inl (w, a) ↦ elim (active-cases active) [
          | inl (x, y) ↦
              rw (w, shutdown)
                (record {
                  shutting_down = refl;
                  drained = drained;
                  closed = closed;
                  result = inl (x, a, y);
                })
          | inr (e, x, y) ↦
              rw (w, shutdown)
                (record {
                  shutting_down = refl;
                  drained = drained;
                  closed = closed;
                  result = inr (e, x, inr y);
                })
        ]
      ]
