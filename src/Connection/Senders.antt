-- ===== src/Connection/Senders.antt =====
-- The six senders as one type, with what each of them means to send.
use signalg.Base.{ℕ, [], Bytes, Option}
use signalg.Errors.{Result, ok, Checked}
use signalg.Protocol.Types.{
  ProtocolConfig, frame_kind_message, frame_kind_completion, frame_kind_error, frame_kind_ping,
  frame_kind_pong,
}
use signalg.Protocol.Codec.{Encoders, marshal_append}
use signalg.Connection.State.{Connection}
use signalg.Connection.Send.{error_text, Call, send_raw, complete_error, ping, pong, send, complete}

-- The six senders with what they are given; `text` is the text of an error.
pub data Sender (lib : Encoders) : Type 0 where
  sends : Bytes → Option lib.Value → Sender lib
  sends_raw : Bytes → Bytes → Sender lib
  completes : Bytes → Option lib.Value → Sender lib
  completes_error : Bytes → Option Bytes → Sender lib
  pings pongs : Sender lib

abbrev pub kind_of : {lib : Encoders} → Sender lib → ℕ
kind_of (sends method body) = frame_kind_message
kind_of (sends_raw method payload) = frame_kind_message
kind_of (completes invocation_id body) = frame_kind_completion
kind_of (completes_error invocation_id text) = frame_kind_error
kind_of pings = frame_kind_ping
kind_of pongs = frame_kind_pong

abbrev pub method_of : {lib : Encoders} → Sender lib → Bytes
method_of (sends method body) = method
method_of (sends_raw method payload) = method
method_of _ = []

abbrev pub invocation_id_of : {lib : Encoders} → Sender lib → Bytes
invocation_id_of (completes invocation_id body) = invocation_id
invocation_id_of (completes_error invocation_id text) = invocation_id
invocation_id_of _ = []

module _ (lib : Encoders) where
  -- The payload, which the codec makes of a body.
  abbrev pub payload_of : Option ProtocolConfig → Sender lib → Result Bytes
  payload_of p (sends method body) = marshal_append lib p [] body
  payload_of p (sends_raw method payload) = ok payload
  payload_of p (completes invocation_id body) = marshal_append lib p [] body
  payload_of p (completes_error invocation_id text) = ok (error_text text)
  payload_of p pings = ok []
  payload_of p pongs = ok []

  abbrev pub run_sender : Call → Sender lib → Connection → Connection × Checked
  run_sender call (sends method body) = send lib call method body
  run_sender call (sends_raw method payload) = send_raw call method payload
  run_sender call (completes invocation_id body) = complete lib call invocation_id body
  run_sender call (completes_error invocation_id text) = complete_error call invocation_id text
  run_sender call pings = ping call
  run_sender call pongs = pong call
