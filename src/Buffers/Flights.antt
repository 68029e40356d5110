-- ===== src/Buffers/Flights.antt =====
-- The senders' steps in their buffers keep the invariant of Buffers/Shared.
use signalg.Base.{
  ℕ, ◌+◌, ◌≤◌, ◌≡◌, refl, sym, ap, ◌∙◌, subst, List, ◌∷◌, ◌++◌, All, Bytes, Option, arith,
  length-take,
}
use signalg.Connection.Writer.{WriterState, looping, writing, discarding, stopped}
use signalg.Buffers.Heap.{SlicePool, Slice, Heap, content}
use signalg.Buffers.Owned.{Owners, with, IsOwned, Keeps, weaken-IsOwned}
use signalg.Buffers.Frames.{IsFrame}
use signalg.Buffers.Memory.{Memory}
use signalg.Buffers.Shared.{
  count, in_hand, count-append, FitsIn, owners, HandAt, IsShared, contents-Keeps, fits-Keeps,
  All-append, All-split,
}

module _ {lib : SlicePool} where
  pub hand-Keeps :
      (o : Owners) (h g : Heap lib) (w : WriterState) (hand : Option Slice)
      → Keeps o h g
      → ((b : ℕ) → in_hand b hand ≤ o b)
      → HandAt w hand h
      → HandAt w hand g
  hand-Keeps o h g looping hand keeps le v = v
  hand-Keeps o h g (writing frame) hand keeps le (s, e, v) =
      let p = subst (λ x. in_hand s.array x ≤ o s.array) e (le s.array) in
      (s, e, rw (keeps s.array (ground (arith, p))) v)
  hand-Keeps o h g discarding hand keeps le v = v
  hand-Keeps o h g stopped hand keeps le v = v

  abbrev behind : Memory lib → Owners
  behind m b = count b m.queue + in_hand b m.hand

  -- A change of the senders' slices.
  pub flights-IsShared :
      (m : Memory lib) (g : Heap lib) (flights : List Slice)
      → IsShared m
      → IsOwned (λ b. count b flights + behind m b) g
      → Keeps (behind m) m.heap g
      → All (FitsIn g) flights
      → IsShared (record m { heap = g; flights = flights })
  flights-IsShared m g flights v w keeps f = record {
    owned = w;
    fits = f;
    queue = contents-Keeps (behind m) m.heap g keeps m.queue (λ b. omega arith) ∙ v.queue;
    hand = hand-Keeps (behind m) m.heap g m.system.writer m.hand keeps (λ b. omega arith) v.hand;
    sent = v.sent;
  }

  -- The owners beside one sender.
  abbrev pub others : Memory lib → List Slice → List Slice → Owners
  others m before after b = (count b before + count b after) + behind m b

  -- The slice of one sender, as it stands.
  pub flight-IsFrame :
      (m : Memory lib) (before after : List Slice) (s : Slice)
      → m.flights ≡ before ++ (s ∷ after)
      → IsShared m
      → IsFrame (others m before after) (content m.heap s) s m.heap m.heap
  flight-IsFrame m before after s e v =
      let f = All-split (FitsIn m.heap) before (s ∷ after) (subst (All (FitsIn m.heap)) e v.fits) in
      record {
        owned =
            weaken-IsOwned (owners m) (with s (others m before after)) m.heap
              (λ b. omega (arith, ap (count b) e, count-append b before (s ∷ after))) v.owned;
        keeps = λ b p. refl;
        value = refl;
        size = sym (length-take s.len (m.heap.cells s.array) (f.1.0));
        fits = f.1.0;
      }

  -- One sender's slice after a step of its own.
  pub flight-IsShared :
      (m : Memory lib) (before after : List Slice) (s t : Slice) (bytes : Bytes) (g : Heap lib)
      → m.flights ≡ before ++ (s ∷ after)
      → IsShared m
      → IsFrame (others m before after) bytes t m.heap g
      → IsShared (record m { heap = g; flights = before ++ (t ∷ after) })
  flight-IsShared m before after s t bytes g e v f =
      let o = others m before after in
      let fits =
        All-split (FitsIn m.heap) before (s ∷ after) (subst (All (FitsIn m.heap)) e v.fits) in
      flights-IsShared m g (before ++ (t ∷ after)) v
        (weaken-IsOwned (with t o) (λ b. count b (before ++ (t ∷ after)) + behind m b) g
          (λ b. omega (arith, count-append b before (t ∷ after))) f.owned)
        (λ b p. f.keeps b (omega arith))
        (All-append (FitsIn g) before (t ∷ after)
          (fits-Keeps o m.heap g f.keeps before (λ b. omega arith) fits.0)
          (f.fits, fits-Keeps o m.heap g f.keeps after (λ b. omega arith) (fits.1.1)))
