-- ===== src/Connection/Close.antt =====
-- `Close`, `CloseWithStatus`, `Serialization` and the remote address of connection.go.
use signalg.Base.{ℕ, if◌then◌else◌, is_empty, Bytes, [], Option, none, some}
use signalg.Errors.{Checked, nil_error}
use signalg.Protocol.Types.{serialization_message_pack}
use signalg.Protocol.Codec.{config_serialization}
use signalg.Connection.State.{Connection, close_context}

-- `CloseWithStatus`; `closing` is what `ws.Close` returns for the code and the reason.
unfoldable pub close_with_status : Checked → Connection → Connection × Checked
unfolding close_context
close_with_status closing c = if c.has_ws then (close_context c, closing) else (c, nil_error)

-- `Serialization`, of a nil connection too.
unfoldable pub connection_serialization : Option Connection → ℕ
connection_serialization none = serialization_message_pack
connection_serialization (some c) = config_serialization c.protocol

-- The package net: `resolve` is `net.ResolveTCPAddr("tcp", addr)`, and `text` its result's `String`.
pub record Resolver : Type 1 where
  pub TcpAddr : Type 0
  pub resolve : Bytes → Option TcpAddr
  pub text : TcpAddr → Bytes

-- A `net.Addr` that is not nil.
pub data Addr (lib : Resolver) : Type 0 where
  tcp_addr : lib.TcpAddr → Addr lib
  string_addr : Bytes → Addr lib

unfoldable pub parse_remote_addr : (lib : Resolver) → Bytes → Option (Addr lib)
parse_remote_addr lib addr =
    if is_empty addr
    then none
    else elim (lib.resolve addr) [ some a ↦ some (tcp_addr a) | none ↦ some (string_addr addr) ]

-- `remoteAddr` of server.go: the text of a connection's address.
unfoldable pub remote_addr : (lib : Resolver) → Option (Addr lib) → Bytes
remote_addr lib none = []
remote_addr lib (some (tcp_addr a)) = lib.text a
remote_addr lib (some (string_addr s)) = s
