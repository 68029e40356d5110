-- ===== src/Buffers/Owned.antt =====
-- Who owns an array of Buffers/Heap: the pool or one slice of the program, never two at once.
use signalg.Base.{
  ℕ, zero, suc, ◌+◌, ◌≤◌, ◌<◌, ◌≡◌, inl, inr, refl, ltb, Bool-cases, length, Bytes, some, arith,
  ◌∙◌, ap,
}
use signalg.Buffers.Heap.{
  Handed, recycled, made, SlicePool, IsPool, one, Slice, Heap, zeros, capacity, make_slice, handed,
  fit, get_frame_buffer, put_frame_buffer,
}

-- How many owners the rest of the program has for each array, and those with a slice more.
abbrev pub Owners : Type 0
Owners = ℕ → ℕ

abbrev pub with : Slice → Owners → Owners
with s o b = o b + one s.array b

-- An array has one owner at most, the pool among them, and none before it was made.
pub record IsOwned {lib : SlicePool} (o : Owners) (h : Heap lib) : Type 0 where
  pub once : (b : ℕ) → lib.holds h.pool b + o b ≤ 1
  pub later : (b : ℕ) → h.arrays ≤ b → lib.holds h.pool b + o b ≡ 0

-- The arrays of these owners keep their bytes.
abbrev pub Keeps : {lib : SlicePool} → Owners → Heap lib → Heap lib → Type 0
Keeps o h g = (b : ℕ) → 0 < o b → g.cells b ≡ h.cells b

length-zeros : (n : ℕ) → length (zeros n) ≡ n
unfolding zeros
length-zeros zero = refl
length-zeros (suc n) = ap suc (length-zeros n)

module _ {lib : SlicePool} (o : Owners) where
  pub weaken-IsOwned :
      (o' : Owners) (h : Heap lib) → ((b : ℕ) → o' b ≤ o b) → IsOwned o h → IsOwned o' h
  weaken-IsOwned o' h le v = record {
    once = λ b. omega (arith, v.once b, le b);
    later = λ b n. omega (arith, v.later b n, le b);
  }

  -- What a new array of the program's owes.
  pub record IsMade (s : Slice) (h g : Heap lib) : Type 0 where
    pub owned : IsOwned (with s o) g
    pub keeps : Keeps o h g

  pub make_slice-IsMade :
      (bytes : Bytes) (len : ℕ) (h : Heap lib)
      → IsOwned o h
      → IsMade (make_slice bytes len h).0 h (make_slice bytes len h).1
  unfolding make_slice
  make_slice-IsMade bytes len h v = record {
    owned = record {
      once = λ b. ground (arith, v.once b, v.later b);
      later = λ b n. ground (arith, v.later b);
    };
    keeps = λ b p. ground (arith, v.later b);
  }

  module _ (laws : IsPool lib) where
    handed-IsMade :
        (size : ℕ) (h : Heap lib) (q : lib.State) (got : Handed)
        → lib.get size h.pool ≡ (q, got)
        → IsOwned o h
        → IsMade (handed (q, got) h).0 h (handed (q, got) h).1
    unfolding handed make_slice
    handed-IsMade size h q (recycled a) e v = record {
      owned = record {
        once = λ b. omega (arith, v.once b, laws.get-recycled size h.pool q a e b);
        later = λ b n. omega (arith, v.later b n, laws.get-recycled size h.pool q a e b);
      };
      keeps = λ b p. refl;
    }
    handed-IsMade size h q (made cap) e v =
        let w : IsOwned o (record h { pool = q }) = record {
          once = λ b. omega (arith, v.once b, laws.get-made size h.pool q cap e b);
          later = λ b n. omega (arith, v.later b n, laws.get-made size h.pool q cap e b);
        } in
        let m = make_slice-IsMade (zeros cap) 0 (record h { pool = q }) w in
        record { owned = m.owned; keeps = m.keeps }

    pub put-IsOwned :
        (s : Slice) (h : Heap lib) → IsOwned (with s o) h → IsOwned o (put_frame_buffer (some s) h)
    unfolding put_frame_buffer
    put-IsOwned s h v = record {
      once = λ b. omega (arith, v.once b, laws.holds-put s.array h.pool b);
      later = λ b n. omega (arith, v.later b n, laws.holds-put s.array h.pool b);
    }

  -- What `getFrameBuffer` returns: an array of nobody else's with room for `size` bytes, none used.
  pub record IsGot (size : ℕ) (s : Slice) (h g : Heap lib) : Type 0 where
    pub owned : IsOwned (with s o) g
    pub keeps : Keeps o h g
    pub room : size ≤ capacity g s
    pub empty : s.len ≡ 0

  fit-IsGot :
      (size : ℕ) (s : Slice) (h g : Heap lib)
      → s.len ≡ 0
      → IsMade s h g
      → IsGot size (fit size (s, g)).0 h (fit size (s, g)).1
  unfolding fit make_slice
  fit-IsGot size s h g e m =
      let v : IsOwned o g = record {
        once = λ b. omega (arith, m.owned.once b);
        later = λ b n. omega (arith, m.owned.later b n);
      } in
      let n = make_slice-IsMade (zeros size) 0 g v in
      elim (Bool-cases (ltb (capacity g s) size)) [
        | inl small ↦
            rw (small, fit)
              (record {
                owned = n.owned;
                keeps = λ b p. n.keeps b p ∙ m.keeps b p;
                room = ground (arith, length-zeros size);
                empty = refl;
              })
        | inr roomy ↦
            rw (roomy, fit)
              (record { owned = m.owned; keeps = m.keeps; room = ground arith; empty = e })
      ]

  handed-empty : (p : lib.State) (got : Handed) (h : Heap lib) → (handed (p, got) h).0.len ≡ 0
  unfolding handed make_slice
  handed-empty p (recycled a) h = refl
  handed-empty p (made cap) h = refl

  pub get-IsGot :
      (laws : IsPool lib) (size : ℕ) (h : Heap lib)
      → IsOwned o h
      → IsGot size (get_frame_buffer size h).0 h (get_frame_buffer size h).1
  unfolding get_frame_buffer
  get-IsGot laws size h v =
      let (q, got) = lib.get size h.pool in
      fit-IsGot size (handed (q, got) h).0 h (handed (q, got) h).1 (handed-empty q got h)
        (handed-IsMade laws size h q got refl v)
