-- ===== src/Buffers/Written.antt =====
-- The frames that the senders make in the buffers of the pool, against those of Protocol/Frame,
-- which are values.
use signalg.Base.{
  ℕ, ◌+◌, ◌-◌, ◌≤◌, ◌≡◌, inl, inr, refl, ltb, Bool-cases, length, Bytes, Option, arith, length-drop,
  ◌∙◌, sym, ap,
}
use signalg.Errors.{Result, ok, err, Checked-cases}
use signalg.Protocol.Types.{header_size, FrameHeader, ProtocolConfig}
use signalg.Protocol.Validate.{validate_protocol_frame}
use signalg.Protocol.Decode.{encode_frame_header}
use signalg.Protocol.Frame.{
  frame_header, config_ensure_payload_size, prepare_protocol_frame, raw_protocol_frame,
}
use signalg.Buffers.Heap.{SlicePool, IsPool, Slice, Heap, capacity, content}
use signalg.Buffers.Owned.{Owners, with, IsOwned, Keeps}
use signalg.Buffers.Appended.{overwrite-content, overwrite-fits, overwrite-keeps}
use signalg.Buffers.Frames.{IsFrame, append-IsFrame, put_prefix-IsFrame, put-IsFrame}
use signalg.Buffers.Write.{Room, prepare_frame, write_raw_frame}

-- The slice that a send goes on with, if it does.
abbrev pub with_result : Result Slice → Owners → Owners
with_result (err e) o = o
with_result (ok s) o = with s o

module _ {lib : SlicePool} where
  abbrev pub read_result : Heap lib → Result Slice → Result Bytes
  read_result h (err e) = err e
  read_result h (ok s) = ok (content h s)

  abbrev pub Fits : Heap lib → Result Slice → Type 0
  Fits h (err e) = Unit
  Fits h (ok s) = s.len ≤ capacity h s

  -- A send that has made its frame, or has failed: its frame is `v`, in a buffer of its own, or its
  -- buffers have gone back; the bytes of all others are what they were.
  pub record IsWritten (o : Owners) (v : Result Bytes) (r : Result Slice) (h g : Heap lib)
      : Type 0 where
    pub owned : IsOwned (with_result r o) g
    pub keeps : Keeps o h g
    pub value : read_result g r ≡ v
    pub fits : Fits g r

length-encode_frame_header :
    (frame : Bytes) (header : FrameHeader)
    → header_size ≤ length frame
    → length (encode_frame_header frame header) ≡ length frame
unfolding encode_frame_header
length-encode_frame_header frame header h = omega (arith, length-drop header_size frame)

module _ {lib : SlicePool} (o : Owners) (laws : IsPool lib) where
  pub prepare_frame-IsWritten :
      (protocol : Option ProtocolConfig) (kind : ℕ) (method invocation_id bytes : Bytes) (s : Slice)
      (h g : Heap lib)
      → IsFrame o bytes s h g
      → let (r, k) = prepare_frame protocol kind method invocation_id s g in
        IsWritten o (prepare_protocol_frame protocol kind method invocation_id bytes) r h k
  unfolding prepare_frame prepare_protocol_frame
  prepare_frame-IsWritten protocol kind method invocation_id bytes s h g f =
      let prefix_len = header_size + length method + length invocation_id in
      let (given_up, kept) = put-IsFrame o laws bytes s h g f in
      elim (Bool-cases (ltb s.len prefix_len)) [
        | inl short ↦
            rw (← f.size, short)
              (record { owned = given_up; keeps = kept; value = refl; fits = tt })
        | inr long ↦
            elim (Checked-cases (config_ensure_payload_size protocol (s.len - prefix_len))) [
              | inr (e, large) ↦
                  rw (← f.size, long, large)
                    (record { owned = given_up; keeps = kept; value = refl; fits = tt })
              | inl small ↦
                  (let header =
                      frame_header protocol kind method invocation_id (s.len - prefix_len) in
                    let framed = encode_frame_header bytes header in
                    let same = length-encode_frame_header bytes header (ground (arith, f.size)) in
                    let w = overwrite-keeps o framed s g f.owned in
                    rw (← f.size, long, small, f.value)
                      (record {
                        owned = w.0;
                        keeps = λ b q. w.1 b q ∙ f.keeps b q;
                        value = ap ok (overwrite-content o framed s g (same ∙ sym f.size));
                        fits = overwrite-fits o framed s g (same ∙ sym f.size);
                      }))
            ]
      ]

  -- A raw send in the buffers makes the frame that `raw_protocol_frame` says, in a buffer that is
  -- nobody else's; where it fails, it owns no buffer any more; the bytes of all others stay.
  pub write_raw_frame-IsWritten :
      (room : Room) (protocol : Option ProtocolConfig) (kind : ℕ)
      (method invocation_id payload : Bytes) (h : Heap lib)
      → IsOwned o h
      → let (r, g) = write_raw_frame room protocol kind method invocation_id payload h in
        IsWritten o (raw_protocol_frame protocol kind method invocation_id payload) r h g
  unfolding write_raw_frame raw_protocol_frame
  write_raw_frame-IsWritten room protocol kind method invocation_id payload h v =
      elim (Checked-cases (validate_protocol_frame kind method invocation_id)) [
        | inr (e, refused) ↦
            rw (write_raw_frame, refused)
              (record { owned = v; keeps = λ b p. refl; value = refl; fits = tt })
        | inl named ↦ elim (Checked-cases (config_ensure_payload_size protocol (length payload))) [
          | inr (e, large) ↦
              rw (write_raw_frame, named, large)
                (record { owned = v; keeps = λ b p. refl; value = refl; fits = tt })
          | inl small ↦
              (let size = header_size + length method + length invocation_id + length payload in
                let f = put_prefix-IsFrame o laws room size method invocation_id h v in
                let g = append-IsFrame o room.for_body _ payload _ h _ f in
                rw (write_raw_frame, named, small)
                  (prepare_frame-IsWritten protocol kind method invocation_id _ _ h _ g))
        ]
      ]
