-- ===== src/Buffers/Frames.antt =====
-- A frame under construction in a buffer, and what becomes of its buffer.
use signalg.Base.{
  ℕ, ◌≤◌, ◌<◌, ◌≡◌, inl, inr, ◌==◌, true, false, [], ◌++◌, length, Bytes, none, some, arith,
  length-append, ◌∙◌, ap,
}
use signalg.Protocol.Frame.{empty_frame_header, frame_prefix}
use signalg.Buffers.Heap.{
  SlicePool, IsPool, Slice, Heap, capacity, content, get_frame_buffer, put_frame_buffer, append,
  same_frame_buffer,
}
use signalg.Buffers.Owned.{Owners, with, IsOwned, Keeps, weaken-IsOwned, put-IsOwned, get-IsGot}
use signalg.Buffers.Appended.{append-IsAppended}
use signalg.Buffers.Write.{Room, put_prefix, put_replaced}

module _ {lib : SlicePool} (o : Owners) where
  -- A slice that nobody else owns holds some bytes, and the others' arrays keep theirs.
  pub record IsFrame (bytes : Bytes) (s : Slice) (h g : Heap lib) : Type 0 where
    pub owned : IsOwned (with s o) g
    pub keeps : Keeps o h g
    pub value : content g s ≡ bytes
    pub size : s.len ≡ length bytes
    pub fits : s.len ≤ capacity g s

  pub get-IsFrame :
      (laws : IsPool lib) (size : ℕ) (h : Heap lib)
      → IsOwned o h
      → IsFrame [] (get_frame_buffer size h).0 h (get_frame_buffer size h).1
  get-IsFrame laws size h v =
      let got = get-IsGot o laws size h v in
      let s = (get_frame_buffer size h).0 in
      let g = (get_frame_buffer size h).1 in
      record {
        owned = got.owned;
        keeps = got.keeps;
        value = rw got.empty;
        size = got.empty;
        fits = omega (arith, got.empty);
      }

  pub append-IsFrame :
      (extra : ℕ) (bytes more : Bytes) (s : Slice) (h g : Heap lib)
      → IsFrame bytes s h g
      → IsFrame (bytes ++ more) (append extra more (s, g)).0 h (append extra more (s, g)).1
  append-IsFrame extra bytes more s h g f =
      let a = append-IsAppended o extra more s g f.fits f.owned in
      let t = (append extra more (s, g)).0 in
      record {
        owned = elim a.owned [
          | inl (e, v) ↦ weaken-IsOwned (with s o) (with t o) _ (λ b. rw e (omega arith)) v
          | inr (e, v) ↦ weaken-IsOwned (with t (with s o)) (with t o) _ (λ b. omega arith) v
        ];
        keeps = λ b p. a.keeps b p ∙ f.keeps b p;
        value = a.value ∙ ap (λ x. x ++ more) f.value;
        size = omega (arith, a.grown, f.size, length-append bytes more);
        fits = a.fits;
      }

  module _ (laws : IsPool lib) where
    pub put_prefix-IsFrame :
        (room : Room) (size : ℕ) (method invocation_id : Bytes) (h : Heap lib)
        → IsOwned o h
        → IsFrame
            (frame_prefix method invocation_id)
            (put_prefix room size method invocation_id h).0
            h
            (put_prefix room size method invocation_id h).1
    unfolding put_prefix
    put_prefix-IsFrame room size method invocation_id h v =
        let got = get-IsFrame laws size h v in
        let f = append-IsFrame room.for_header [] empty_frame_header _ h _ got in
        let m = append-IsFrame room.for_method _ method _ h _ f in
        append-IsFrame room.for_invocation_id _ invocation_id _ h _ m

    -- A frame that is given up: its buffer goes back to the pool.
    pub put-IsFrame :
        (bytes : Bytes) (s : Slice) (h g : Heap lib)
        → IsFrame bytes s h g
        → IsOwned o (put_frame_buffer (some s) g) × Keeps o h (put_frame_buffer (some s) g)
    unfolding put_frame_buffer
    put-IsFrame bytes s h g f = (put-IsOwned o laws s g f.owned, f.keeps)

    same_frame_buffer-array :
        (s t : Slice)
        → 0 < s.len
        → 0 < t.len
        → same_frame_buffer (some s) (some t) ≡ (s.array == t.array)
    unfolding same_frame_buffer
    same_frame_buffer-array s t p q = ground arith

    -- The frame that a codec returns, and the buffer that it was given.
    pub replaced-IsFrame :
        (extra : ℕ) (bytes more : Bytes) (s : Slice) (h g : Heap lib)
        → 0 < length bytes
        → IsFrame bytes s h g
        → let t = (append extra more (s, g)).0 in
          IsFrame (bytes ++ more) t h (put_replaced s (some t) (append extra more (s, g)).1)
    unfolding put_replaced put_frame_buffer
    replaced-IsFrame extra bytes more s h g pos f =
        let a = append-IsAppended o extra more s g f.fits f.owned in
        let t = (append extra more (s, g)).0 in
        let k = (append extra more (s, g)).1 in
        let r = append-IsFrame extra bytes more s h g f in
        let same =
          same_frame_buffer-array s t (omega (arith, f.size))
            (omega (arith, r.size, length-append bytes more)) in
        elim a.owned [
          | inl (e, v) ↦
              let q : (s.array == t.array) ≡ true = ground arith in rw (put_replaced, same, q) r
          | inr (e, v) ↦
              let q : (s.array == t.array) ≡ false = ground arith in
              let w : IsOwned (with s (with t o)) k =
                weaken-IsOwned (with t (with s o)) (with s (with t o)) k (λ b. omega arith) v in
              rw (put_replaced, same, q)
                (record {
                  owned = put-IsOwned (with t o) laws s k w;
                  keeps = r.keeps;
                  value = r.value;
                  size = r.size;
                  fits = r.fits;
                })
        ]

    -- A codec that fails returns no slice, or one that goes back to the pool.
    pub failed-IsOwned :
        (bytes : Bytes) (s : Slice) (h g : Heap lib)
        → 0 < length bytes
        → IsFrame bytes s h g
        → let k = put_replaced s none g in IsOwned o k × Keeps o h k
    unfolding put_replaced same_frame_buffer
    failed-IsOwned bytes s h g pos f =
        let q : (s.len == 0) ≡ false = ground (arith, f.size) in
        rw (put_replaced, same_frame_buffer, q) (put-IsFrame bytes s h g f)
