-- ===== src/Buffers/Write.antt =====
-- The senders' frames in the buffers of the pool: `writeEncodedProtocolFrame`,
-- `writeRawProtocolFrame` and `enqueuePreparedProtocolFrame` up to the call of `enqueueFrame`.
use signalg.Base.{ℕ, ◌+◌, ◌-◌, ltb, if◌then◌else◌, [], length, Bytes, Option, none, some}
use signalg.Errors.{Error, Result, ok, err, invalid_frame}
use signalg.Protocol.Types.{header_size, ProtocolConfig}
use signalg.Protocol.Codec.{Encoders, marshal_append}
use signalg.Protocol.Validate.{validate_protocol_frame}
use signalg.Protocol.Decode.{encode_frame_header}
use signalg.Protocol.Frame.{empty_frame_header, config_ensure_payload_size, frame_header}
use signalg.Buffers.Heap.{
  SlicePool, Slice, Heap, content, get_frame_buffer, put_frame_buffer, append, overwrite,
  same_frame_buffer,
}

-- What one send sees of the Go runtime and of the codec: the room that each `append` leaves in a
-- new array, and what `MarshalAppend` returns with an error: a nil slice, or its buffer with some
-- bytes behind it.
pub record Room : Type 0 where
  pub for_header : ℕ
  pub for_method : ℕ
  pub for_invocation_id : ℕ
  pub for_body : ℕ
  pub on_error : Option Bytes

-- What `marshalAppend` returns.
pub data Marshalled : Type 0 where
  encoded : Slice → Marshalled
  failed : Option Slice → Error → Marshalled

module _ {lib : SlicePool} where
  -- `payload` is what the codec makes of the body.
  unfoldable pub marshal_into :
      Room → Result Bytes → Option Bytes → Slice × Heap lib → Marshalled × Heap lib
  marshal_into room (ok payload) on_error (s, h) =
      let (t, g) = append room.for_body payload (s, h) in (encoded t, g)
  marshal_into room (err e) none (s, h) = (failed none e, h)
  marshal_into room (err e) (some bytes) (s, h) =
      let (t, g) = append room.for_body bytes (s, h) in (failed (some t) e, g)

  unfoldable pub prepare_frame :
      Option ProtocolConfig → ℕ → Bytes → Bytes → Slice → Heap lib → Result Slice × Heap lib
  prepare_frame protocol kind method invocation_id frame h =
      let prefix_len = header_size + length method + length invocation_id in
      if ltb frame.len prefix_len
      then (err invalid_frame, put_frame_buffer (some frame) h)
      else let body_len = frame.len - prefix_len in
        elim (config_ensure_payload_size protocol body_len) [
          | err e ↦ (err e, put_frame_buffer (some frame) h)
          | ok u ↦ (
            ok frame,
            overwrite frame
                (encode_frame_header (content h frame)
                  (frame_header protocol kind method invocation_id body_len))
                h,
          )
        ]

  -- An empty header, the method and the invocation id, in a buffer of the pool.
  unfoldable pub put_prefix : Room → ℕ → Bytes → Bytes → Heap lib → Slice × Heap lib
  put_prefix room size method invocation_id h = append room.for_invocation_id invocation_id (
      append room.for_method method
        (append room.for_header empty_frame_header (get_frame_buffer size h)))

  unfoldable pub write_raw_frame :
      Room → Option ProtocolConfig → ℕ → Bytes → Bytes → Bytes → Heap lib → Result Slice × Heap lib
  unfolding put_prefix prepare_frame
  write_raw_frame room protocol kind method invocation_id payload h =
      elim (validate_protocol_frame kind method invocation_id) [
        | err e ↦ (err e, h)
        | ok u ↦ elim (config_ensure_payload_size protocol (length payload)) [
          | err e ↦ (err e, h)
          | ok v ↦
              (let size = header_size + length method + length invocation_id + length payload in
                let (frame, g) =
                  append room.for_body payload (put_prefix room size method invocation_id h) in
                prepare_frame protocol kind method invocation_id frame g)
        ]
      ]

  -- The buffer that `marshalAppend` was given goes back to the pool if it returned another.
  unfoldable pub put_replaced : Slice → Option Slice → Heap lib → Heap lib
  put_replaced prefix_frame frame h =
      if same_frame_buffer (some prefix_frame) frame
      then h
      else put_frame_buffer (some prefix_frame) h

  unfoldable pub finish_encoded :
      Option ProtocolConfig
      → ℕ
      → Bytes
      → Bytes
      → Slice
      → Marshalled × Heap lib
      → Result (ℕ × Result Slice) × Heap lib
  unfolding put_replaced prepare_frame
  finish_encoded protocol kind method invocation_id prefix_frame (failed frame e, h) =
      (err e, put_frame_buffer frame (put_replaced prefix_frame frame h))
  finish_encoded protocol kind method invocation_id prefix_frame (encoded frame, h) =
      let g = put_replaced prefix_frame (some frame) h in
      let body_len = frame.len - (header_size + length method + length invocation_id) in
      elim (config_ensure_payload_size protocol body_len) [
        | err e ↦ (err e, put_frame_buffer (some frame) g)
        | ok u ↦
            (let (r, k) = prepare_frame protocol kind method invocation_id frame g in
              (ok (body_len, r), k))
      ]

  -- `size` is `encodedFrameBufferSize` of the prefix. The first component is the length of the body
  -- that is observed, and the slice for `enqueueFrame` or an error.
  unfoldable pub write_encoded_frame :
      (enc : Encoders)
      → Room
      → ℕ
      → Option ProtocolConfig
      → ℕ
      → Bytes
      → Bytes
      → Option enc.Value
      → Heap lib
      → Result (ℕ × Result Slice) × Heap lib
  unfolding put_prefix marshal_into finish_encoded
  write_encoded_frame enc room size protocol kind method invocation_id body h =
      elim (validate_protocol_frame kind method invocation_id) [
        | err e ↦ (err e, h)
        | ok u ↦
            (let (prefix_frame, g) = put_prefix room size method invocation_id h in
              finish_encoded protocol kind method invocation_id prefix_frame (
                marshal_into room (marshal_append enc protocol [] body) room.on_error
                  (prefix_frame, g)))
      ]
