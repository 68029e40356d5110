-- ===== src/Buffers/Steps.antt =====
-- The senders' steps in their buffers keep the invariant of Buffers/Shared, each with its code.
use signalg.Base.{
  ℕ, ◌<◌, ◌≡◌, refl, sym, subst, List, [], ◌∷◌, ◌++◌, length, All, Bytes, some, arith,
}
use signalg.Buffers.Write.{put_replaced}
use signalg.Buffers.Heap.{
  SlicePool, IsPool, Slice, Heap, get_frame_buffer, put_frame_buffer, append, overwrite,
}
use signalg.Buffers.Owned.{with, weaken-IsOwned, put-IsOwned}
use signalg.Buffers.Appended.{overwrite-content, overwrite-fits, overwrite-keeps}
use signalg.Buffers.Frames.{IsFrame, append-IsFrame, replaced-IsFrame, get-IsFrame}
use signalg.Buffers.Memory.{Memory}
use signalg.Buffers.Shared.{
  count-append, FitsIn, owners, IsShared, fits-Keeps, All-append, All-split,
}
use signalg.Buffers.Flights.{others, flights-IsShared, flight-IsFrame, flight-IsShared}

module _ {lib : SlicePool} where
  module _ (laws : IsPool lib) (m : Memory lib) (v : IsShared m) where
    pub gets :
        (size : ℕ) (s : Slice) (g : Heap lib)
        → get_frame_buffer size m.heap ≡ (s, g)
        → IsShared (record m { heap = g; flights = s ∷ m.flights })
    gets size s g e =
        let f : IsFrame (owners m) [] s m.heap g =
          rw e at (get-IsFrame (owners m) laws size m.heap v.owned) in
        flights-IsShared m g (s ∷ m.flights) v
          (weaken-IsOwned (with s (owners m)) _ g (λ b. omega arith) f.owned)
          (λ b p. f.keeps b (omega arith))
          (f.fits, fits-Keeps (owners m) m.heap g f.keeps m.flights (λ b. omega arith) v.fits)

    module _ (before after : List Slice) (s : Slice) (at : m.flights ≡ before ++ (s ∷ after)) where
      pub appends :
          (extra : ℕ) (bytes : Bytes) (t : Slice) (g : Heap lib)
          → append extra bytes (s, m.heap) ≡ (t, g)
          → IsShared (record m { heap = g; flights = before ++ (t ∷ after) })
      appends extra bytes t g e = flight-IsShared m before after s t _ g at v (
          rw e at (
            append-IsFrame (others m before after) extra _ bytes s m.heap m.heap
              (flight-IsFrame m before after s at v)))

      pub marshals :
          (extra : ℕ) (bytes : Bytes) (t : Slice) (g : Heap lib)
          → 0 < s.len
          → append extra bytes (s, m.heap) ≡ (t, g)
          → IsShared
              (record m { heap = put_replaced s (some t) g; flights = before ++ (t ∷ after) })
      marshals extra bytes t g pos e =
          let f = flight-IsFrame m before after s at v in
          flight-IsShared m before after s t _ (put_replaced s (some t) g) at v (
            rw e at (
              replaced-IsFrame (others m before after) laws extra _ bytes s m.heap m.heap
                (omega (arith, f.size)) f))

      pub overwrites :
          (bytes : Bytes)
          → length bytes ≡ s.len
          → IsShared (record m { heap = overwrite s bytes m.heap })
      overwrites bytes e =
          let o = others m before after in
          let f = flight-IsFrame m before after s at v in
          let w = overwrite-keeps o bytes s m.heap f.owned in
          let r = flight-IsShared m before after s s bytes (overwrite s bytes m.heap) at v (record {
            owned = w.0;
            keeps = w.1;
            value = overwrite-content o bytes s m.heap e;
            size = sym e;
            fits = overwrite-fits o bytes s m.heap e;
          }) in
          subst (λ x. IsShared (record m { heap = overwrite s bytes m.heap; flights = x })) (sym at)
            r

      pub puts :
          IsShared (record m { heap = put_frame_buffer (some s) m.heap; flights = before ++ after })
      unfolding put_frame_buffer
      puts =
          let o = others m before after in
          let f = flight-IsFrame m before after s at v in
          let fits =
            All-split (FitsIn m.heap) before (s ∷ after) (subst (All (FitsIn m.heap)) at v.fits) in
          flights-IsShared m (put_frame_buffer (some s) m.heap) (before ++ after) v
            (weaken-IsOwned o _ (put_frame_buffer (some s) m.heap)
              (λ b. omega (arith, count-append b before after))
              (put-IsOwned o laws s m.heap f.owned))
            (λ b p. refl) (All-append (FitsIn m.heap) before after fits.0 fits.1.1)
