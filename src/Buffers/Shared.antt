-- ===== src/Buffers/Shared.antt =====
-- The invariant of a connection beside the memory of its frames, and the lemmas that its steps
-- share.
use signalg.Base.{
  ℕ, ◌+◌, ◌≤◌, ◌≡◌, refl, ap, ==_self, List, [], ◌∷◌, ◌++◌, map, All, Bytes, Option, none, some,
  arith,
}
use signalg.Connection.Writer.{WriterState, writing}
use signalg.Buffers.Heap.{SlicePool, IsPool, one, Slice, Heap, capacity, content, put_frame_buffer}
use signalg.Buffers.Owned.{Owners, with, IsOwned, Keeps, put-IsOwned, weaken-IsOwned}
use signalg.Buffers.Memory.{Memory, put_each}

-- How many of some slices have this array.
abbrev pub count : ℕ → List Slice → ℕ
count b [] = 0
count b (s ∷ rest) = one s.array b + count b rest

abbrev pub in_hand : ℕ → Option Slice → ℕ
in_hand b none = 0
in_hand b (some s) = one s.array b

pub count-append : (b : ℕ) (xs ys : List Slice) → count b (xs ++ ys) ≡ count b xs + count b ys
count-append b [] ys = omega arith
count-append b (x ∷ xs) ys = omega (arith, count-append b xs ys)

module _ {lib : SlicePool} where
  abbrev pub contents : Heap lib → List Slice → List Bytes
  contents h = map (content h)

  abbrev pub FitsIn : Heap lib → Slice → Type 0
  FitsIn h s = s.len ≤ capacity h s

  abbrev pub owners : Memory lib → Owners
  owners m b = count b m.flights + (count b m.queue + in_hand b m.hand)

  -- What the writer has in its hand.
  abbrev pub HandAt : WriterState → Option Slice → Heap lib → Type 0
  HandAt (writing frame) hand h = (s : Slice) × (hand ≡ some s) × (content h s ≡ frame)
  HandAt _ hand h = hand ≡ none

  -- No array is in two places, and each frame that is queued or being written has the bytes that
  -- were queued.
  pub record IsShared (m : Memory lib) : Type 0 where
    pub owned : IsOwned (owners m) m.heap
    pub fits : All (FitsIn m.heap) m.flights
    pub queue : contents m.heap m.queue ≡ m.system.conn.send_queue
    pub hand : HandAt m.system.writer m.hand m.heap
    pub sent : m.sent ≡ m.system.written

  module _ (o : Owners) (h g : Heap lib) (keeps : Keeps o h g) where
    -- The slices of owners whose arrays keep their bytes.
    pub contents-Keeps :
        (xs : List Slice) → ((b : ℕ) → count b xs ≤ o b) → contents g xs ≡ contents h xs
    contents-Keeps [] le = refl
    contents-Keeps (s ∷ xs) le =
        let p : one s.array s.array ≡ 1 = rw (==_self s.array) in
        rw (keeps s.array (omega (arith, le s.array, p)))
          (ap (◌∷◌ (content h s)) (contents-Keeps xs (λ b. omega (arith, le b))))

    pub fits-Keeps :
        (xs : List Slice) → ((b : ℕ) → count b xs ≤ o b) → All (FitsIn h) xs → All (FitsIn g) xs
    fits-Keeps [] le f = tt
    fits-Keeps (s ∷ xs) le f =
        let p : one s.array s.array ≡ 1 = rw (==_self s.array) in
        (
          rw (keeps s.array (omega (arith, le s.array, p))) f.0,
          fits-Keeps xs (λ b. omega (arith, le b)) f.1,
        )

  pub put_each-IsOwned :
      (laws : IsPool lib) (o : Owners) (xs : List Slice) (h : Heap lib)
      → IsOwned (λ b. o b + count b xs) h
      → IsOwned o (put_each xs h)
  unfolding put_each
  put_each-IsOwned laws o [] h v = weaken-IsOwned (λ b. o b + 0) o h (λ b. omega arith) v
  put_each-IsOwned laws o (s ∷ xs) h v =
      let w : IsOwned (with s (λ b. o b + count b xs)) h =
        weaken-IsOwned (λ b. o b + count b (s ∷ xs)) (with s (λ b. o b + count b xs)) h
          (λ b. omega arith) v in
      put_each-IsOwned laws o xs (put_frame_buffer (some s) h)
        (put-IsOwned (λ b. o b + count b xs) laws s h w)

pub All-append {ℓ κ} :
    {A : Type ℓ} (P : A → Type κ) (xs ys : List A) → All P xs → All P ys → All P (xs ++ ys)
All-append P [] ys p q = q
All-append P (x ∷ xs) ys p q = (p.0, All-append P xs ys p.1 q)

pub All-split {ℓ κ} :
    {A : Type ℓ} (P : A → Type κ) (xs ys : List A) → All P (xs ++ ys) → All P xs × All P ys
All-split P [] ys p = (tt, p)
All-split P (x ∷ xs) ys p = let (a, b) = All-split P xs ys p.1 in ((p.0, a), b)
