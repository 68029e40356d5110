-- ===== src/Server/Stopped.antt =====
-- What is left of a server when `Shutdown` has returned.
use signalg.Base.{◌≡◌, refl, inl, inr, ◌⊎◌, true, List, [], ◌∷◌, All, Bytes, Option, none, some}
use signalg.Errors.{Error, ok, err, Checked, nil_error}
use signalg.Protocol.Types.{ProtocolConfig}
use signalg.Protocol.Codec.{Encoders}
use signalg.Registry.ShardMap.{ShardMap}
use signalg.Registry.Types.{Conn}
use signalg.Connection.State.{Connection}
use signalg.Batch.Send.{SendJob}
use signalg.Batch.Close.{CloseJob}
use signalg.Handler.Refused.{IsRefused, shutting_down-IsRefused}
use signalg.Handler.Drained.{
  Waited, came, gave_up, GaveUp, shutdown, shutdown_once, shutdown-IsShutDown,
}
use signalg.Server.{server_shutdown, join}
use signalg.Server.Running.{
  Running, handler_shutdown, running_shutdown, server_send_users, server_send_users_raw,
  server_send_connections_raw, server_send_group, server_send_group_raw, server_send_all,
  server_send_all_raw, server_close_users, server_close_connections,
}

-- Where the errors that `Shutdown` returns come from.
abbrev pub IsOutcome : List Waited → Waited → Checked → List Error → Type 0
IsOutcome waits active server_err es =
    ((es ≡ []) × All (λ w. w ≡ came) waits × (active ≡ came) × (server_err ≡ nil_error))
    ⊎ ((x : Error) × (xs : List Error) × (es ≡ x ∷ xs)
        × ((GaveUp x waits ⊎ (active ≡ gave_up x)) ⊎ (server_err ≡ err x)))

join-IsOutcome :
    (waits : List Waited) (active : Waited) (handler_err server_err : Checked)
    → ((handler_err ≡ nil_error) × All (λ w. w ≡ came) waits × (active ≡ came))
      ⊎ ((e : Error) × (handler_err ≡ err e) × (GaveUp e waits ⊎ (active ≡ gave_up e)))
    → IsOutcome waits active server_err (join handler_err server_err)
join-IsOutcome waits active handler_err (ok u) (inl (h, a, c)) = rw h (inl (refl, a, c, refl))
join-IsOutcome waits active handler_err (err e) (inl (h, a, c)) = rw h (inr (e, [], refl, inr refl))
join-IsOutcome waits active handler_err (ok u) (inr (e, h, g)) = rw h (inr (e, [], refl, inl g))
join-IsOutcome waits active handler_err (err d) (inr (e, h, g)) =
    rw h (inr (e, d ∷ [], refl, inl g))

module _ (lib : ShardMap) (enc : Encoders) (protocol : Option ProtocolConfig)
    (send_job : Conn → SendJob) (close_job : Conn → CloseJob) {Listener : Type 0} where
  -- Every batch of a server is refused.
  pub record RefusesAll (r : Running lib Listener) : Type 0 where
    pub refused :
        (user_ids connection_ids : List Bytes) (group method : Bytes) (body : Option enc.Value)
        (payload : Bytes)
        → let Refused = IsRefused lib enc protocol send_job close_job r.handler in
          Refused (server_send_users lib enc protocol send_job close_job r user_ids method body)
          × Refused
              (server_send_users_raw lib enc protocol send_job close_job r user_ids method payload)
          × Refused (
              server_send_connections_raw lib enc protocol send_job close_job r connection_ids
                method payload)
          × Refused (server_send_group lib enc protocol send_job close_job r group method body)
          × Refused
              (server_send_group_raw lib enc protocol send_job close_job r group method payload)
          × Refused (server_send_all lib enc protocol send_job close_job r method body)
          × Refused (server_send_all_raw lib enc protocol send_job close_job r method payload)
          × Refused (server_close_users lib enc protocol send_job close_job r user_ids)
          × Refused (server_close_connections lib enc protocol send_job close_job r connection_ids)

  module _ (state_of : Conn → Connection) (until : Connection → Connection) where
    -- What a call of `Shutdown` has left: the handler admits nobody, and every batch is refused; the
    -- errors are those of the waits and of the HTTP server; and a second call changes nothing and
    -- returns them again, whatever it would wait for.
    pub record IsStopped (waits : List Waited) (active : Waited) (server_err : Checked)
        (stopped : Running lib Listener × List Error) : Type 0 where
      pub shutting_down : stopped.0.handler.shutting_down ≡ true
      pub refuses : RefusesAll stopped.0
      pub outcome : IsOutcome waits active server_err stopped.1
      pub again :
          (waits' : List Waited) (active' : Waited) (server_err' : Checked)
          → running_shutdown lib state_of until waits' active' server_err' stopped.0 ≡ stopped

    -- However the waits of a server's first `Shutdown` end, whatever becomes of the connections
    -- meanwhile, and whatever the HTTP server's `Shutdown` returns: the handler admits no
    -- connection any more, and each of the nine batch methods matches none and returns an error;
    -- `Shutdown` returns nil exactly if no wait was given up and the HTTP server has no error, or
    -- else such an error first; and every later call returns the same and changes nothing.
    pub running_shutdown-IsStopped :
        (waits : List Waited) (active : Waited) (server_err : Checked) (r : Running lib Listener)
        → r.server.shutdown_err ≡ none
        → r.handler_err ≡ none
        → IsStopped waits active server_err
            (running_shutdown lib state_of until waits active server_err r)
    unfolding running_shutdown handler_shutdown server_shutdown shutdown_once
    running_shutdown-IsStopped waits active server_err r first fresh =
        let s = shutdown lib state_of until waits active r.handler in
        let v = shutdown-IsShutDown lib state_of until waits active r.handler in
        let stopped = record r {
          server = record r.server { shutdown_err = some (join s.result server_err) };
          handler = s.handler;
          handler_err = some s.result;
        } in
        let done : IsStopped waits active server_err (stopped, join s.result server_err) = record {
          shutting_down = v.shutting_down;
          refuses = record {
            refused = λ user_ids connection_ids group method body payload.
                shutting_down-IsRefused lib enc protocol send_job close_job s.handler user_ids
                  connection_ids group method body payload v.shutting_down;
          };
          outcome = join-IsOutcome waits active s.result server_err v.result;
          again = λ waits' active' server_err'. refl;
        } in
        rw (first, fresh, first, running_shutdown, handler_shutdown) done
