-- ===== src/Reads/Own.antt =====
-- A buffer of internal/bpool belongs to one goroutine at a time, which finds it empty.
use signalg.Base.{
  ℕ, ◌+◌, ◌≤◌, ◌<◌, ◌≡◌, refl, sym, ap, ◌∙◌, subst, List, [], ◌∷◌, ◌++◌, All, Bytes, Option, none,
  some, arith,
}
use signalg.Buffers.Heap.{one, write_cells}
use signalg.Buffers.Shared.{All-append, All-split}
use signalg.Reads.Pool.{
  SyncPool, IsSyncPool, Reading, BufferStore, got_or_new, get_buffer, put_buffer, read_into, Step,
  begins, reads, ends, Steps, done, then_step,
}

-- How many goroutines have a buffer.
abbrev pub users : ℕ → List Reading → ℕ
users b [] = 0
users b (r ∷ rs) = one r.buffer b + users b rs

users-append : (b : ℕ) (rs qs : List Reading) → users b (rs ++ qs) ≡ users b rs + users b qs
users-append b [] qs = omega arith
users-append b (r ∷ rs) qs = omega (arith, users-append b rs qs)

-- A goroutine's buffer has just the bytes that it has read.
abbrev pub HoldsItsOwn : (ℕ → Bytes) → Reading → Type 0
HoldsItsOwn bytes r = bytes r.buffer ≡ r.got

-- A change of one buffer spares the goroutines that have another.
spared :
    (bytes : ℕ → Bytes) (b : ℕ) (new : Bytes) (rs : List Reading)
    → users b rs ≡ 0
    → All (HoldsItsOwn bytes) rs
    → All (HoldsItsOwn (write_cells bytes b new)) rs
spared bytes b new [] n v = v
spared bytes b new (r ∷ rs) n (e, v) =
    (ground (arith, n, e), spared bytes b new rs (omega (arith, n)) v)

-- A buffer is in one place at most, and nowhere before it was made; those in the pool are empty.
record IsOwn {lib : SyncPool} (s : BufferStore lib) : Type 0 where
  once : (b : ℕ) → lib.holds s.pool b + users b s.readings ≤ 1
  later : (b : ℕ) → s.made ≤ b → lib.holds s.pool b + users b s.readings ≡ 0
  empty : (b : ℕ) → 0 < lib.holds s.pool b → s.bytes b ≡ []
  own : All (HoldsItsOwn s.bytes) s.readings

module _ {lib : SyncPool} (laws : IsSyncPool lib) where
  got_or_new-IsOwn :
      (s : BufferStore lib) (q : lib.State) (got : Option ℕ)
      → lib.get s.pool ≡ (q, got)
      → IsOwn s
      → IsOwn (record (got_or_new (q, got) s).1 {
        readings = record { buffer = (got_or_new (q, got) s).0; got = [] } ∷ s.readings;
      })
  unfolding got_or_new
  got_or_new-IsOwn s q (some a) e v = record {
    once = λ b. omega (arith, v.once b, laws.get-some s.pool q a e b);
    later = λ b n. omega (arith, v.later b n, laws.get-some s.pool q a e b);
    empty = λ b p. v.empty b (omega (arith, p, laws.get-some s.pool q a e b));
    own = (v.empty a (ground (arith, laws.get-some s.pool q a e a)), v.own);
  }
  got_or_new-IsOwn s q none e v = record {
    once = λ b. ground (arith, v.once b, v.later b, laws.get-none s.pool q e b);
    later = λ b n. ground (arith, v.later b, laws.get-none s.pool q e b);
    empty = λ b p. ground (arith, v.later b, v.empty b, laws.get-none s.pool q e b);
    own =
        (ground arith, spared s.bytes s.made [] s.readings (ground (arith, v.later s.made)) v.own);
  }

  -- What a step of one goroutine starts from.
  record IsAmong (s : BufferStore lib) (before after : List Reading) (r : Reading) : Type 0 where
    counts : (b : ℕ) → users b s.readings ≡ users b before + (one r.buffer b + users b after)
    before_own : All (HoldsItsOwn s.bytes) before
    own : HoldsItsOwn s.bytes r
    after_own : All (HoldsItsOwn s.bytes) after
    alone_before : users r.buffer before ≡ 0
    alone_after : users r.buffer after ≡ 0
    not_pooled : lib.holds s.pool r.buffer ≡ 0

  among :
      (s : BufferStore lib) (before after : List Reading) (r : Reading)
      → s.readings ≡ before ++ (r ∷ after)
      → IsOwn s
      → IsAmong s before after r
  among s before after r e v =
      let counts : (b : ℕ)
          → users b s.readings ≡ users b before + (one r.buffer b + users b after) =
        λ b. ap (users b) e ∙ users-append b before (r ∷ after) in
      let f =
        All-split (HoldsItsOwn s.bytes) before (r ∷ after)
          (subst (All (HoldsItsOwn s.bytes)) e v.own) in
      record {
        counts = counts;
        before_own = f.0;
        own = f.1.0;
        after_own = f.1.1;
        alone_before = ground (arith, v.once r.buffer, counts r.buffer);
        alone_after = ground (arith, v.once r.buffer, counts r.buffer);
        not_pooled = ground (arith, v.once r.buffer, counts r.buffer);
      }

  reads-IsOwn :
      (s : BufferStore lib) (before after : List Reading) (r : Reading) (chunk : Bytes)
      → IsAmong s before after r
      → IsOwn s
      → IsOwn (record (read_into r.buffer chunk s) {
        readings = before ++ (record r { got = r.got ++ chunk } ∷ after);
      })
  unfolding read_into
  reads-IsOwn s before after r chunk a v =
      let next = record r { got = r.got ++ chunk } in
      let counts = λ (b : ℕ). users-append b before (next ∷ after) in
      let written = write_cells s.bytes r.buffer (s.bytes r.buffer ++ chunk) in
      record {
        once = λ b. omega (arith, v.once b, a.counts b, counts b);
        later = λ b n. omega (arith, v.later b n, a.counts b, counts b);
        empty = λ b p. ground (arith, p, a.not_pooled, v.empty b p);
        own =
            All-append (HoldsItsOwn written) before (next ∷ after)
              (spared s.bytes r.buffer (s.bytes r.buffer ++ chunk) before a.alone_before
                a.before_own)
              (
                ground (arith, a.own),
                spared s.bytes r.buffer (s.bytes r.buffer ++ chunk) after a.alone_after a.after_own,
              );
      }

  ends-IsOwn :
      (s : BufferStore lib) (before after : List Reading) (r : Reading)
      → IsAmong s before after r
      → IsOwn s
      → IsOwn (record (put_buffer r.buffer s) { readings = before ++ after })
  unfolding put_buffer
  ends-IsOwn s before after r a v =
      let counts = λ (b : ℕ). users-append b before after in
      record {
        once = λ b. omega (arith, v.once b, a.counts b, counts b, laws.holds-put r.buffer s.pool b);
        later = λ b n.
            omega (arith, v.later b n, a.counts b, counts b, laws.holds-put r.buffer s.pool b);
        empty = λ b p. ground (arith, p, v.empty b, laws.holds-put r.buffer s.pool b);
        own =
            All-append (HoldsItsOwn (write_cells s.bytes r.buffer [])) before after
              (spared s.bytes r.buffer [] before a.alone_before a.before_own)
              (spared s.bytes r.buffer [] after a.alone_after a.after_own);
      }

  Step-IsOwn : {s t : BufferStore lib} → Step s t → IsOwn s → IsOwn t
  unfolding get_buffer
  Step-IsOwn (begins s) v = got_or_new-IsOwn s (lib.get s.pool).0 (lib.get s.pool).1 refl v
  Step-IsOwn (reads s before after r chunk e) v =
      reads-IsOwn s before after r chunk (among s before after r e v) v
  Step-IsOwn (ends s before after r e) v =
      ends-IsOwn s before after r (among s before after r e v) v

  Steps-IsOwn : {s t : BufferStore lib} → Steps s t → IsOwn s → IsOwn t
  Steps-IsOwn done v = v
  Steps-IsOwn (then_step steps step) v = Step-IsOwn step (Steps-IsOwn steps v)

  -- However the goroutines take buffers, read into them and put them back, from a start with no
  -- goroutine and an empty pool, with what is assumed of `sync.Pool`: the buffer of each goroutine
  -- has just the bytes that it has read itself; and no buffer is in two hands, or in a hand and in
  -- the pool.
  pub Steps-HoldsItsOwn :
      {s t : BufferStore lib}
      → Steps s t
      → s.readings ≡ []
      → ((b : ℕ) → lib.holds s.pool b ≡ 0)
      → All (HoldsItsOwn t.bytes) t.readings
        × ((b : ℕ) → lib.holds t.pool b + users b t.readings ≤ 1)
  Steps-HoldsItsOwn {s = s} steps idle fresh =
      let none_yet = λ (b : ℕ). ap (users b) idle in
      let v = Steps-IsOwn steps (record {
        once = λ b. omega (arith, fresh b, none_yet b);
        later = λ b n. omega (arith, fresh b, none_yet b);
        empty = λ b p. absurd (omega (arith, p, fresh b));
        own = subst (All (HoldsItsOwn s.bytes)) (sym idle) tt;
      }) in
      (v.own, v.once)
