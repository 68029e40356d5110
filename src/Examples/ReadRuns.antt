-- ===== src/Examples/ReadRuns.antt =====
-- Two messages that are read one after the other into the same buffer of the pool.
use signalg.Base.{ℕ, ◌+◌, ◌≤◌, ◌≡◌, refl, List, [], ◌∷◌, All, Option, none, some, arith}
use signalg.Buffers.Heap.{one}
use signalg.Reads.Pool.{
  SyncPool, IsSyncPool, Reading, BufferStore, get_buffer, put_buffer, read_into, begins, reads,
  ends, Steps, done, then_step,
}
use signalg.Reads.Own.{users, HoldsItsOwn, Steps-HoldsItsOwn}

times : ℕ → List ℕ → ℕ
times b [] = 0
times b (a ∷ rest) = one a b + times b rest

pop : List ℕ → List ℕ × Option ℕ
pop [] = ([], none)
pop (a ∷ rest) = (rest, some a)

abbrev stack : SyncPool
stack = record { State = List ℕ; get = pop; put = λ a p. a ∷ p; holds = λ p b. times b p }

pop-some : (p q : List ℕ) (a : ℕ) → pop p ≡ (q, some a) → (b : ℕ) → times b q + one a b ≤ times b p
unfolding pop times
pop-some [] q a e b = ground arith
pop-some (x ∷ p) q a e b = ground arith

pop-none : (p q : List ℕ) → pop p ≡ (q, none) → (b : ℕ) → times b q ≤ times b p
unfolding pop times
pop-none [] q e b = ground arith
pop-none (x ∷ p) q e b = ground arith

times_put : (a : ℕ) (p : List ℕ) (b : ℕ) → times b (a ∷ p) ≤ times b p + one a b
unfolding times
times_put a p b = omega arith

stack-IsSyncPool : IsSyncPool stack
stack-IsSyncPool = record { get-some = pop-some; get-none = pop-none; holds-put = times_put }

abbrev fresh : BufferStore stack
fresh = record { pool = []; made = 0; bytes = λ b. []; readings = [] }

abbrev first : Reading
first = record { buffer = 0; got = b'l' ∷ b'o' ∷ [] }

run :
    (t : BufferStore stack) × Steps fresh t
    × (t.readings ≡ record { buffer = 0; got = b's' ∷ [] } ∷ [])
unfolding get_buffer put_buffer read_into pop
run = (
  _,
  then_step
      (then_step
        (then_step
          (then_step (then_step done (begins fresh))
            (reads _ [] [] (record { buffer = 0; got = [] }) (b'l' ∷ b'o' ∷ []) refl))
          (ends _ [] [] first refl))
        (begins _))
      (reads _ [] [] (record { buffer = 0; got = [] }) (b's' ∷ []) refl),
  refl,
)

Steps-HoldsItsOwn_example :
    All (HoldsItsOwn run.0.bytes) run.0.readings
    × ((b : ℕ) → times b run.0.pool + users b run.0.readings ≤ 1)
unfolding times
Steps-HoldsItsOwn_example =
    Steps-HoldsItsOwn stack-IsSyncPool {s = fresh} {t = run.0} run.1 refl (λ b. refl)
