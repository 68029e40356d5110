-- ===== src/Buffers/Heap.antt =====
-- The arrays behind the frames of connection.go: the slice pool, which is not part of the
-- repository, `getFrameBuffer`, `putFrameBuffer`, `sameFrameBuffer`, and Go's `append`.
use signalg.Base.{
  ℕ, zero, suc, ◌+◌, ◌≤◌, ◌≡◌, ltb, leb, ◌==◌, if◌then◌else◌, Bool, false, ◌||◌, [], ◌∷◌, ◌++◌,
  length, take, drop, Bytes, Option, none, some,
}

-- What the pool hands out: an array that was put into it, or a new one of some capacity.
pub data Handed : Type 0 where
  recycled : ℕ → Handed
  made : ℕ → Handed

-- The type `slicepool.Pool`. `holds` counts how often an array is in the pool.
pub record SlicePool : Type 1 where
  pub State : Type 0
  pub get : ℕ → State → State × Handed
  pub put : ℕ → State → State
  pub holds : State → ℕ → ℕ

abbrev pub one : ℕ → ℕ → ℕ
one a b = if a == b then 1 else 0

-- What a pool is: an array that it hands out leaves it, and it holds what was put into it at most;
-- it may drop an array at any time.
pub record IsPool (lib : SlicePool) : Type 0 where
  pub get-recycled :
      (size : ℕ) (p q : lib.State) (a : ℕ)
      → lib.get size p ≡ (q, recycled a)
      → (b : ℕ) → lib.holds q b + one a b ≤ lib.holds p b
  pub get-made :
      (size : ℕ) (p q : lib.State) (cap : ℕ)
      → lib.get size p ≡ (q, made cap)
      → (b : ℕ) → lib.holds q b ≤ lib.holds p b
  pub holds-put :
      (a : ℕ) (p : lib.State) (b : ℕ) → lib.holds (lib.put a p) b ≤ lib.holds p b + one a b

-- A slice of bytes that begins where its array begins.
pub record Slice : Type 0 where
  pub array : ℕ
  pub len : ℕ

-- The arrays that were made, numbered in that order, each with as many bytes as its capacity.
pub record Heap (lib : SlicePool) : Type 0 where
  pub pool : lib.State
  pub arrays : ℕ
  pub cells : ℕ → Bytes

abbrev pub write_cells : (ℕ → Bytes) → ℕ → Bytes → ℕ → Bytes
write_cells f a bytes b = if b == a then bytes else f b

unfoldable pub zeros : ℕ → Bytes
zeros zero = []
zeros (suc n) = 0 ∷ zeros n

-- `cap(s)`.
abbrev pub capacity : {lib : SlicePool} → Heap lib → Slice → ℕ
capacity h s = length (h.cells s.array)

-- The bytes of a slice.
abbrev pub content : {lib : SlicePool} → Heap lib → Slice → Bytes
content h s = take s.len (h.cells s.array)

module _ {lib : SlicePool} where
  -- A new array with some bytes in it, and the slice of the first few of them.
  unfoldable pub make_slice : Bytes → ℕ → Heap lib → Slice × Heap lib
  make_slice bytes len h = (
    record { array = h.arrays; len = len },
    record h { arrays = h.arrays + 1; cells = write_cells h.cells h.arrays bytes },
  )

  unfoldable pub handed : lib.State × Handed → Heap lib → Slice × Heap lib
  unfolding make_slice zeros
  handed (p, recycled a) h = (record { array = a; len = 0 }, record h { pool = p })
  handed (p, made cap) h = make_slice (zeros cap) 0 (record h { pool = p })

  -- `if cap(frame) < size { return make([]byte, 0, size) }`.
  unfoldable pub fit : ℕ → Slice × Heap lib → Slice × Heap lib
  unfolding make_slice zeros
  fit size (s, h) = if ltb (capacity h s) size then make_slice (zeros size) 0 h else (s, h)

  unfoldable pub get_frame_buffer : ℕ → Heap lib → Slice × Heap lib
  unfolding handed fit
  get_frame_buffer size h = fit size (handed (lib.get size h.pool) h)

  -- `none` is a nil slice, which has no array to be handed out again.
  unfoldable pub put_frame_buffer : Option Slice → Heap lib → Heap lib
  put_frame_buffer none h = h
  put_frame_buffer (some s) h = record h { pool = lib.put s.array h.pool }

  -- Go's `append`: in place where the array has room, else into a new array, with `extra` bytes of
  -- room behind.
  unfoldable pub append : ℕ → Bytes → Slice × Heap lib → Slice × Heap lib
  unfolding make_slice zeros
  append extra bytes (s, h) =
      let len = s.len + length bytes in
      if leb len (capacity h s)
      then (
        record s { len = len },
        record h {
          cells =
              write_cells h.cells s.array (content h s ++ (bytes ++ drop len (h.cells s.array)));
        },
      )
      else make_slice (content h s ++ (bytes ++ zeros extra)) len h

  -- A write over the bytes of a slice, whose length stays.
  unfoldable pub overwrite : Slice → Bytes → Heap lib → Heap lib
  overwrite s bytes h = record h {
    cells = write_cells h.cells s.array (bytes ++ drop s.len (h.cells s.array));
  }

abbrev slice_len : Option Slice → ℕ
slice_len none = 0
slice_len (some s) = s.len

-- `&a[0] == &b[0]`.
abbrev same_array : Option Slice → Option Slice → Bool
same_array (some a) (some b) = a.array == b.array
same_array _ _ = false

unfoldable pub same_frame_buffer : Option Slice → Option Slice → Bool
same_frame_buffer a b =
    if (slice_len a == 0) || (slice_len b == 0) then slice_len a == slice_len b else same_array a b
