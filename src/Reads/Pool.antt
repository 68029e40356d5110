-- ===== src/Reads/Pool.antt =====
-- internal/bpool/bpool.go, and the buffers that the goroutines of `readLoop` (server.go) take from it
-- for the messages that they read. A buffer is a number; `bytes.Buffer` holds bytes, to which
-- `ReadFrom` adds; `sync.Pool` is a parameter.
use signalg.Base.{ℕ, ◌+◌, ◌≤◌, ◌≡◌, List, [], ◌∷◌, ◌++◌, Bytes, Option, none, some}
use signalg.Buffers.Heap.{one, write_cells}

-- The type `sync.Pool`: `get` returns a buffer that was put into it, or none, and `New` runs.
-- `holds` counts how often a buffer is in the pool.
pub record SyncPool : Type 1 where
  pub State : Type 0
  pub get : State → State × Option ℕ
  pub put : ℕ → State → State
  pub holds : State → ℕ → ℕ

-- What a pool is: a buffer that it returns leaves it, it holds what was put into it at most, and it
-- may drop a buffer at any time.
pub record IsSyncPool (lib : SyncPool) : Type 0 where
  pub get-some :
      (p q : lib.State) (a : ℕ)
      → lib.get p ≡ (q, some a)
      → (b : ℕ) → lib.holds q b + one a b ≤ lib.holds p b
  pub get-none : (p q : lib.State) → lib.get p ≡ (q, none) → (b : ℕ) → lib.holds q b ≤ lib.holds p b
  pub holds-put :
      (a : ℕ) (p : lib.State) (b : ℕ) → lib.holds (lib.put a p) b ≤ lib.holds p b + one a b

-- A goroutine between `Get` and `Put`: its buffer, and the bytes that its websocket has given it.
pub record Reading : Type 0 where
  pub buffer : ℕ
  pub got : Bytes

-- The pool, the buffers that were made, numbered in that order, their bytes, and the goroutines.
pub record BufferStore (lib : SyncPool) : Type 0 where
  pub pool : lib.State
  pub made : ℕ
  pub bytes : ℕ → Bytes
  pub readings : List Reading

module _ {lib : SyncPool} where
  -- `New`, for `none`.
  unfoldable pub got_or_new : lib.State × Option ℕ → BufferStore lib → ℕ × BufferStore lib
  got_or_new (p, some b) s = (b, record s { pool = p })
  got_or_new (p, none) s =
      (s.made, record s { pool = p; made = s.made + 1; bytes = write_cells s.bytes s.made [] })

  -- `Get`.
  unfoldable pub get_buffer : BufferStore lib → ℕ × BufferStore lib
  unfolding got_or_new
  get_buffer s = got_or_new (lib.get s.pool) s

  -- `Put`: the buffer is reset first.
  unfoldable pub put_buffer : ℕ → BufferStore lib → BufferStore lib
  put_buffer b s = record s { bytes = write_cells s.bytes b []; pool = lib.put b s.pool }

  -- A part of what `ReadFrom` adds to the buffer.
  unfoldable pub read_into : ℕ → Bytes → BufferStore lib → BufferStore lib
  read_into b chunk s = record s { bytes = write_cells s.bytes b (s.bytes b ++ chunk) }

  -- What the goroutines of all connections do with their buffers, in any order: one begins to read a
  -- message, reads a part of it, or is done with it, whether it could read and decode it or not.
  pub data Step : BufferStore lib → BufferStore lib → Type 0 where
    begins :
        (s : BufferStore lib)
        → Step s (record (get_buffer s).1 {
          readings = record { buffer = (get_buffer s).0; got = [] } ∷ s.readings;
        })
    reads :
        (s : BufferStore lib) (before after : List Reading) (r : Reading) (chunk : Bytes)
        → s.readings ≡ before ++ (r ∷ after)
        → Step s (record (read_into r.buffer chunk s) {
          readings = before ++ (record r { got = r.got ++ chunk } ∷ after);
        })
    ends :
        (s : BufferStore lib) (before after : List Reading) (r : Reading)
        → s.readings ≡ before ++ (r ∷ after)
        → Step s (record (put_buffer r.buffer s) { readings = before ++ after })

  pub data Steps (s : BufferStore lib) : BufferStore lib → Type 0 where
    done : Steps s s
    then_step : {t u : BufferStore lib} → Steps s t → Step t u → Steps s u
