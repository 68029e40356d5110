-- ===== src/Buffers/Appended.antt =====
-- Go's `append` and a write into the bytes of a slice: what they leave, and to whom.
use mathlib.Core.List.{append_assoc}
use signalg.Base.{
  ℕ, ◌+◌, ◌≤◌, ◌≡◌, ◌≢◌, ◌⊎◌, inl, inr, refl, leb, ==_self, Bool-cases, true, false, ◌++◌, length,
  drop, Bytes, arith, length-append, length-take, take-append,
}
use signalg.Buffers.Heap.{
  SlicePool, Slice, Heap, zeros, capacity, content, make_slice, append, overwrite,
}
use signalg.Buffers.Owned.{Owners, with, IsOwned, Keeps, make_slice-IsMade}

module _ {lib : SlicePool} (o : Owners) where
  -- What `append` returns: the bytes behind those of its slice, either in the same array or in one
  -- that nobody else owns, beside the old one.
  pub record IsAppended (bytes : Bytes) (s t : Slice) (h g : Heap lib) : Type 0 where
    pub owned :
        ((t.array ≡ s.array) × IsOwned (with s o) g)
        ⊎ ((t.array ≢ s.array) × IsOwned (with t (with s o)) g)
    pub keeps : Keeps o h g
    pub value : content g t ≡ content h s ++ bytes
    pub grown : t.len ≡ s.len + length bytes
    pub fits : t.len ≤ capacity g t

  in_place :
      (extra : ℕ) (bytes : Bytes) (s : Slice) (h : Heap lib)
      → leb (s.len + length bytes) (capacity h s) ≡ true
      → IsOwned (with s o) h
      → IsAppended bytes s (append extra bytes (s, h)).0 h (append extra bytes (s, h)).1
  unfolding append
  in_place extra bytes s h roomy v =
      let rest = drop (s.len + length bytes) (h.cells s.array) in
      let n = length-take s.len (h.cells s.array) (ground arith) in
      let m = length-append (content h s) bytes in
      rw roomy (record {
        owned = inl (refl, record { once = v.once; later = v.later });
        keeps = λ b p. ground (arith, v.once b);
        value =
            rw (==_self s.array, ← append_assoc (content h s) bytes rest)
              (take-append (content h s ++ bytes) rest (s.len + length bytes)
                (omega (arith, n, m)));
        grown = refl;
        fits = rw (==_self s.array) (
            omega
              (arith, n, length-append (content h s) (bytes ++ rest), length-append bytes rest));
      })

  moved :
      (extra : ℕ) (bytes : Bytes) (s : Slice) (h : Heap lib)
      → leb (s.len + length bytes) (capacity h s) ≡ false
      → s.len ≤ capacity h s
      → IsOwned (with s o) h
      → IsAppended bytes s (append extra bytes (s, h)).0 h (append extra bytes (s, h)).1
  unfolding append make_slice
  moved extra bytes s h small fits v =
      let n = length-take s.len (h.cells s.array) (omega arith) in
      let m = length-append (content h s) bytes in
      let made =
        make_slice-IsMade (with s o) (content h s ++ (bytes ++ zeros extra)) (s.len + length bytes)
          h v in
      rw small (record {
        owned = inr ((λ e. ground (arith, v.later s.array)), made.owned);
        keeps = λ b p. made.keeps b (omega arith);
        value =
            rw (==_self h.arrays, ← append_assoc (content h s) bytes (zeros extra))
              (take-append (content h s ++ bytes) (zeros extra) (s.len + length bytes)
                (omega (arith, n, m)));
        grown = refl;
        fits = rw (==_self h.arrays) (
            omega (
              arith,
              n,
              length-append (content h s) (bytes ++ zeros extra),
              length-append bytes (zeros extra),
            ));
      })

  pub append-IsAppended :
      (extra : ℕ) (bytes : Bytes) (s : Slice) (h : Heap lib)
      → s.len ≤ capacity h s
      → IsOwned (with s o) h
      → IsAppended bytes s (append extra bytes (s, h)).0 h (append extra bytes (s, h)).1
  append-IsAppended extra bytes s h fits v =
      elim (Bool-cases (leb (s.len + length bytes) (capacity h s))) [
        | inl roomy ↦ in_place extra bytes s h roomy v
        | inr small ↦ moved extra bytes s h small fits v
      ]

  -- A write of as many bytes as the slice has.
  pub overwrite-content :
      (bytes : Bytes) (s : Slice) (h : Heap lib)
      → length bytes ≡ s.len
      → content (overwrite s bytes h) s ≡ bytes
  unfolding overwrite
  overwrite-content bytes s h e =
      rw (==_self s.array)
        (take-append bytes (drop s.len (h.cells s.array)) s.len (omega (arith, e)))

  pub overwrite-fits :
      (bytes : Bytes) (s : Slice) (h : Heap lib)
      → length bytes ≡ s.len
      → s.len ≤ capacity (overwrite s bytes h) s
  unfolding overwrite
  overwrite-fits bytes s h e =
      rw (==_self s.array) (omega (arith, e, length-append bytes (drop s.len (h.cells s.array))))

  pub overwrite-keeps :
      (bytes : Bytes) (s : Slice) (h : Heap lib)
      → IsOwned (with s o) h
      → IsOwned (with s o) (overwrite s bytes h) × Keeps o h (overwrite s bytes h)
  unfolding overwrite
  overwrite-keeps bytes s h v =
      (record { once = v.once; later = v.later }, λ b p. ground (arith, v.once b))
