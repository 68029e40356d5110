-- ===== src/Server/Running.antt =====
-- The methods of `Server` in server.go: `Shutdown` with the one of its handler, and those that pass
-- on to the handler. The nil handler is left out.
use signalg.Base.{ℕ, List, Bytes, Option, none, some}
use signalg.Base.Int.{ℤ}
use signalg.Errors.{Error, Checked}
use signalg.Protocol.Types.{ProtocolConfig}
use signalg.Protocol.Codec.{Encoders}
use signalg.Registry.ShardMap.{ShardMap}
use signalg.Registry.Types.{Conn}
use signalg.Connection.State.{Connection}
use signalg.Batch.Tally.{BatchResult}
use signalg.Batch.Send.{SendJob}
use signalg.Batch.Close.{CloseJob}
use signalg.Handler.Admission.{
  Handler, handler_add_to_group, handler_remove_from_group, handler_remove_from_all_groups,
  handler_user_online, handler_user_connections, handler_group_online, handler_group_connections,
}
use signalg.Handler.Broadcast.{
  send_users, send_users_raw, send_connections_raw, send_group, send_group_raw, send_all,
  send_all_raw, close_users, close_connections_by_id,
}
use signalg.Handler.Drained.{Waited, shutdown, shutdown_once}
use signalg.Server.{Server, server_shutdown}

-- A server with the state of its handler; `handler_err` is `shutdownErr` of the handler, once its
-- `shutdownOnce` has run.
pub record Running (lib : ShardMap) (Listener : Type 0) : Type 0 where
  pub server : Server Listener
  pub handler : Handler lib
  pub handler_err : Option Checked

module _ (lib : ShardMap) {Listener : Type 0} where
  -- `Handler.Shutdown`; the first four arguments are those of `shutdown`.
  unfoldable pub handler_shutdown :
      (Conn → Connection)
      → (Connection → Connection)
      → List Waited
      → Waited
      → Running lib Listener
      → Running lib Listener × Checked
  unfolding shutdown shutdown_once
  handler_shutdown state_of until waits active r = elim r.handler_err [
    | some stored ↦ (r, stored)
    | none ↦
        let s = shutdown lib state_of until waits active r.handler in
        let (kept, result) = shutdown_once s.result none in
        (record r { handler = s.handler; handler_err = kept }, result)
  ]

  -- `Server.Shutdown`, with what `Shutdown` of the HTTP server returns.
  unfoldable pub running_shutdown :
      (Conn → Connection)
      → (Connection → Connection)
      → List Waited
      → Waited
      → Checked
      → Running lib Listener
      → Running lib Listener × List Error
  unfolding handler_shutdown server_shutdown
  running_shutdown state_of until waits active server_err r = elim r.server.shutdown_err [
    | some stored ↦ (r, stored)
    | none ↦
        let (stopped, handler_err) = handler_shutdown state_of until waits active r in
        let (s, errors) = server_shutdown handler_err server_err stopped.server in
        (record stopped { server = s }, errors)
  ]

  abbrev pub server_online : Running lib Listener → ℤ
  server_online r = r.handler.online

  abbrev pub server_user_online : Bytes → Running lib Listener → ℕ
  server_user_online user_id r = handler_user_online lib user_id r.handler

  abbrev pub server_user_connections : Bytes → Running lib Listener → List Conn
  server_user_connections user_id r = handler_user_connections lib user_id r.handler

  abbrev pub server_group_online : Bytes → Running lib Listener → ℕ
  server_group_online group r = handler_group_online lib group r.handler

  abbrev pub server_group_connections : Bytes → Running lib Listener → List Conn
  server_group_connections group r = handler_group_connections lib group r.handler

  abbrev pub server_add_to_group :
      Option Conn → Bytes → Running lib Listener → Running lib Listener × Checked
  server_add_to_group conn group r =
      let (h, e) = handler_add_to_group lib conn group r.handler in (record r { handler = h }, e)

  abbrev pub server_remove_from_group :
      Option Conn → Bytes → Running lib Listener → Running lib Listener × Checked
  server_remove_from_group conn group r =
      let (h, e) = handler_remove_from_group lib conn group r.handler in
      (record r { handler = h }, e)

  abbrev pub server_remove_from_all_groups : Conn → Running lib Listener → Running lib Listener
  server_remove_from_all_groups conn r = record r {
    handler = handler_remove_from_all_groups lib conn r.handler;
  }

module _ (lib : ShardMap) (enc : Encoders) (protocol : Option ProtocolConfig)
    (send_job : Conn → SendJob) (close_job : Conn → CloseJob) {Listener : Type 0}
    (r : Running lib Listener) where
  abbrev pub server_send_users : List Bytes → Bytes → Option enc.Value → BatchResult
  server_send_users = send_users lib enc protocol send_job close_job r.handler

  abbrev pub server_send_users_raw : List Bytes → Bytes → Bytes → BatchResult
  server_send_users_raw = send_users_raw lib enc protocol send_job close_job r.handler

  abbrev pub server_send_connections_raw : List Bytes → Bytes → Bytes → BatchResult
  server_send_connections_raw = send_connections_raw lib enc protocol send_job close_job r.handler

  abbrev pub server_send_group : Bytes → Bytes → Option enc.Value → BatchResult
  server_send_group = send_group lib enc protocol send_job close_job r.handler

  abbrev pub server_send_group_raw : Bytes → Bytes → Bytes → BatchResult
  server_send_group_raw = send_group_raw lib enc protocol send_job close_job r.handler

  abbrev pub server_send_all : Bytes → Option enc.Value → BatchResult
  server_send_all = send_all lib enc protocol send_job close_job r.handler

  abbrev pub server_send_all_raw : Bytes → Bytes → BatchResult
  server_send_all_raw = send_all_raw lib enc protocol send_job close_job r.handler

  abbrev pub server_close_users : List Bytes → BatchResult
  server_close_users = close_users lib enc protocol send_job close_job r.handler

  abbrev pub server_close_connections : List Bytes → BatchResult
  server_close_connections = close_connections_by_id lib enc protocol send_job close_job r.handler
