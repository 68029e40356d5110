-- ===== src/Buffers/Encoded.antt =====
-- The frames that the senders encode into the buffers of the pool.
use signalg.Base.{
  ℕ, ◌+◌, ◌-◌, ◌<◌, ◌≡◌, inl, inr, refl, [], ◌++◌, length, Bytes, Option, none, some, arith, sym,
  ap,
}
use mathlib.Core.List.{append-nil}
use signalg.Errors.{Result, ok, err, ◌>>=◌, ◌>>◌, Checked-cases, unsupported_codec}
use signalg.Protocol.Types.{
  header_size, BodyCodec, message_pack_codec, protobuf_codec, json_codec, ProtocolConfig,
}
use signalg.Protocol.Codec.{
  Encoders, AppendsProto, append_body, codec_marshal_append, marshal_append,
}
use signalg.Protocol.Validate.{validate_protocol_frame}
use signalg.Protocol.Frame.{
  frame_prefix, config_ensure_payload_size, prepare_protocol_frame, encoded_protocol_frame,
}
use signalg.Buffers.Heap.{SlicePool, IsPool, Slice, Heap, put_frame_buffer}
use signalg.Buffers.Owned.{Owners, IsOwned, Keeps}
use signalg.Buffers.Frames.{
  IsFrame, put_prefix-IsFrame, put-IsFrame, replaced-IsFrame, failed-IsOwned,
}
use signalg.Buffers.Write.{
  Room, encoded, write_encoded_frame, finish_encoded, marshal_into, put_replaced,
}
use signalg.Buffers.Written.{with_result, read_result, Fits, prepare_frame-IsWritten}

module _ (enc : Encoders) (appends : AppendsProto enc) where
  codec_marshal_append-prefix :
      (c : BodyCodec) (dst : Bytes) (body : Option enc.Value)
      → codec_marshal_append enc c dst body
        ≡ (codec_marshal_append enc c [] body >>= append_body dst)
  unfolding codec_marshal_append
  codec_marshal_append-prefix c dst none = ap ok (sym (append-nil dst))
  codec_marshal_append-prefix message_pack_codec dst (some v) = ground arith
  codec_marshal_append-prefix protobuf_codec dst (some v) = ground (arith, appends dst v)
  codec_marshal_append-prefix json_codec dst (some v) = ground arith

  -- What a codec appends does not depend on the buffer that it is given.
  marshal_append-prefix :
      (p : Option ProtocolConfig) (dst : Bytes) (body : Option enc.Value)
      → marshal_append enc p dst body ≡ (marshal_append enc p [] body >>= append_body dst)
  unfolding marshal_append
  marshal_append-prefix none dst body = refl
  marshal_append-prefix (some p) dst body = by_codec p.codec
    where
      by_codec :
          (c : Option BodyCodec)
          → (elim c [ none ↦ err unsupported_codec | some d ↦ codec_marshal_append enc d dst body ])
            ≡ ((elim c [
              | none ↦ err unsupported_codec
              | some d ↦ codec_marshal_append enc d [] body
            ])
                >>= append_body dst)
      by_codec none = refl
      by_codec (some c) = codec_marshal_append-prefix c dst body

-- The slice for `enqueueFrame`, if there is one.
abbrev pub slice_of : Result (ℕ × Result Slice) → Result Slice
slice_of (err e) = err e
slice_of (ok (n, r)) = r

module _ {lib : SlicePool} where
  abbrev pub read_encoded : Heap lib → Result (ℕ × Result Slice) → Result (ℕ × Result Bytes)
  read_encoded h (err e) = err e
  read_encoded h (ok (n, r)) = ok (n, read_result h r)

  -- A send that has made its frame of a body, or has failed: `v` is the length of the body and the
  -- frame, which stands in a buffer of its own, or its buffers have gone back; the bytes of all
  -- others are what they were.
  pub record IsEncoded (o : Owners) (v : Result (ℕ × Result Bytes)) (r : Result (ℕ × Result Slice))
      (h g : Heap lib) : Type 0 where
    pub owned : IsOwned (with_result (slice_of r) o) g
    pub keeps : Keeps o h g
    pub value : read_encoded g r ≡ v
    pub fits : Fits g (slice_of r)

module _ {lib : SlicePool} (o : Owners) (laws : IsPool lib) (protocol : Option ProtocolConfig)
    (kind : ℕ) (method invocation_id : Bytes) where
  -- The value that a send makes of what its codec has returned.
  abbrev finished : Result Bytes → Result (ℕ × Result Bytes)
  finished m = do
    frame ← m
    let body_len = length frame - (header_size + length method + length invocation_id)
    config_ensure_payload_size protocol body_len
    ok (body_len, prepare_protocol_frame protocol kind method invocation_id frame)

  finish_frame :
      (bytes : Bytes) (p s : Slice) (h g : Heap lib)
      → IsFrame o bytes s h (put_replaced p (some s) g)
      → let (r, k) = finish_encoded protocol kind method invocation_id p (encoded s, g) in
        IsEncoded o (finished (ok bytes)) r h k
  unfolding finish_encoded
  finish_frame bytes p s h g f =
      let body_len = s.len - (header_size + length method + length invocation_id) in
      let (given_up, kept) = put-IsFrame o laws bytes s h _ f in
      elim (Checked-cases (config_ensure_payload_size protocol body_len)) [
        | inr (e, large) ↦
            rw (← f.size, large, finish_encoded)
              (record { owned = given_up; keeps = kept; value = refl; fits = tt })
        | inl small ↦
            (let w =
                prepare_frame-IsWritten o laws protocol kind method invocation_id bytes s h _ f in
              rw (← f.size, small, finish_encoded)
                (record {
                  owned = w.owned;
                  keeps = w.keeps;
                  value = ap (λ x. ok (body_len, x)) w.value;
                  fits = w.fits;
                }))
      ]

  finish_marshal :
      (room : Room) (m : Result Bytes) (bytes : Bytes) (s : Slice) (h g : Heap lib)
      → 0 < length bytes
      → IsFrame o bytes s h g
      → let (r, k) =
          finish_encoded protocol kind method invocation_id s
            (marshal_into room m room.on_error (s, g)) in
        IsEncoded o (finished (m >>= append_body bytes)) r h k
  unfolding marshal_into finish_encoded put_frame_buffer
  finish_marshal room (ok payload) bytes s h g pos f =
      let r = replaced-IsFrame o laws room.for_body bytes payload s h g pos f in
      finish_frame (bytes ++ payload) s _ h _ r
  finish_marshal room (err e) bytes s h g pos f = on_error room.on_error
    where
      on_error :
          (returned : Option Bytes)
          → let (r, k) =
              finish_encoded protocol kind method invocation_id s
                (marshal_into room (err e) returned (s, g)) in
            IsEncoded o (err e) r h k
      on_error none =
          let (v, kept) = failed-IsOwned o laws bytes s h g pos f in
          record { owned = v; keeps = kept; value = refl; fits = tt }
      on_error (some more) =
          let r = replaced-IsFrame o laws room.for_body bytes more s h g pos f in
          let (v, kept) = put-IsFrame o laws _ _ h _ r in
          record { owned = v; keeps = kept; value = refl; fits = tt }

  -- Whatever the codec makes of the body, and whatever arrays others own, where the protobuf
  -- encoder appends to its buffer: a send that encodes its body into buffers of the pool has the
  -- error, or the length of the body and the frame, that it has with values for buffers. A frame
  -- stands in an array that nobody else owns; a send that fails owns none; and the arrays of others
  -- keep their bytes.
  pub write_encoded_frame-IsEncoded :
      (enc : Encoders) (room : Room) (size : ℕ) (body : Option enc.Value) (h : Heap lib)
      → AppendsProto enc
      → IsOwned o h
      → let (r, g) = write_encoded_frame enc room size protocol kind method invocation_id body h in
        IsEncoded o (encoded_protocol_frame enc protocol kind method invocation_id body) r h g
  unfolding write_encoded_frame encoded_protocol_frame
  write_encoded_frame-IsEncoded enc room size body h appends v =
      elim (Checked-cases (validate_protocol_frame kind method invocation_id)) [
        | inr (e, refused) ↦
            rw (write_encoded_frame, refused)
              (record { owned = v; keeps = λ b p. refl; value = refl; fits = tt })
        | inl named ↦
            (let f = put_prefix-IsFrame o laws room size method invocation_id h v in
              rw
                (
                  write_encoded_frame,
                  named,
                  marshal_append-prefix enc appends protocol (frame_prefix method invocation_id)
                      body,
                )
                (finish_marshal room (marshal_append enc protocol [] body)
                  (frame_prefix method invocation_id) _ h _ (omega arith) f))
      ]
