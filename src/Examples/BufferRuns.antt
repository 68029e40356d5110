-- ===== src/Examples/BufferRuns.antt =====
-- Frames in the buffers of a pool that hands out the array that was put into it last.
use signalg.Base.{ℕ, ◌+◌, ◌≤◌, ◌≡◌, refl, true, List, [], ◌∷◌, some, none, arith}
use signalg.Protocol.Frame.{encoded_protocol_frame}
use signalg.Protocol.Types.{frame_kind_message}
use signalg.Connection.State.{new_connection}
use signalg.Connection.Operations.{begin_send_operation}
use signalg.Connection.Queue.{enqueue_locked}
use signalg.Connection.Writer.{System, send_begins, start}
use signalg.Buffers.Heap.{
  Handed, recycled, made, SlicePool, IsPool, one, Slice, Heap, get_frame_buffer, append,
}
use signalg.Buffers.Owned.{IsOwned}
use signalg.Buffers.Write.{Room, write_encoded_frame}
use signalg.Buffers.Encoded.{IsEncoded, write_encoded_frame-IsEncoded}
use signalg.Buffers.Memory.{
  Memory, Reach, here, next, begin, elsewhere, sender_gets, sender_appends, sender_queues,
}
use signalg.Buffers.Runs.{IsFaithful, Reach-IsFaithful}
use signalg.Examples.Instances.{plain_encoders, plain_encoders-AppendsProto}
use signalg.Examples.ConnectionRuns.{json_config, new_conn}

times : ℕ → List ℕ → ℕ
times b [] = 0
times b (a ∷ rest) = one a b + times b rest

take_last : ℕ → List ℕ → List ℕ × Handed
take_last size [] = ([], made size)
take_last size (a ∷ rest) = (rest, recycled a)

abbrev stack_pool : SlicePool
stack_pool = record {
  State = List ℕ;
  get = take_last;
  put = λ a p. a ∷ p;
  holds = λ p b. times b p;
}

taken_recycled :
    (size : ℕ) (p q : List ℕ) (a : ℕ)
    → take_last size p ≡ (q, recycled a)
    → (b : ℕ) → times b q + one a b ≤ times b p
unfolding take_last times
taken_recycled size [] q a e b = ground arith
taken_recycled size (x ∷ p) q a e b = ground arith

taken_made :
    (size : ℕ) (p q : List ℕ) (cap : ℕ)
    → take_last size p ≡ (q, made cap)
    → (b : ℕ) → times b q ≤ times b p
unfolding take_last times
taken_made size [] q cap e b = ground arith
taken_made size (x ∷ p) q cap e b = ground arith

times_put : (a : ℕ) (p : List ℕ) (b : ℕ) → times b (a ∷ p) ≤ times b p + one a b
unfolding times
times_put a p b = omega arith

stack_pool-IsPool : IsPool stack_pool
stack_pool-IsPool = record {
  get-recycled = taken_recycled;
  get-made = taken_made;
  holds-put = times_put;
}

-- One array of four bytes, in the pool.
abbrev heap : Heap stack_pool
heap = record { pool = 0 ∷ []; arrays = 1; cells = λ b. 9 ∷ 9 ∷ 9 ∷ 9 ∷ [] }

heap-IsOwned : IsOwned (λ b. 0) heap
unfolding times
heap-IsOwned = record { once = λ b. ground arith; later = λ b n. ground arith }

abbrev room : Room
room = record {
  for_header = 0;
  for_method = 3;
  for_invocation_id = 0;
  for_body = 1;
  on_error = none;
}

write_encoded_frame-IsEncoded_example :
    let (r, g) =
      write_encoded_frame plain_encoders room 140
        (some json_config)
        frame_kind_message
        (b'a' ∷ [])
        []
        (some (1 ∷ 2 ∷ []))
        heap in
    IsEncoded
      (λ b. 0)
      (encoded_protocol_frame plain_encoders
        (some json_config)
        frame_kind_message
        (b'a' ∷ [])
        []
        (some (1 ∷ 2 ∷ [])))
      r
      heap
      g
write_encoded_frame-IsEncoded_example =
    write_encoded_frame-IsEncoded (λ b. 0) stack_pool-IsPool (some json_config) frame_kind_message
      (b'a' ∷ []) [] plain_encoders room 140 (some (1 ∷ 2 ∷ [])) heap plain_encoders-AppendsProto
      heap-IsOwned

-- A sender gets the array, puts three bytes into it and queues it; the writer takes the frame.
abbrev got : Slice × Heap stack_pool
got = get_frame_buffer 4 heap

abbrev filled : Slice × Heap stack_pool
filled = append 0 (1 ∷ 2 ∷ 3 ∷ []) got

abbrev begun : System
begun = record (start new_conn) { conn = (begin_send_operation new_conn).0; pending = 1 }

abbrev in_flight : Memory stack_pool
in_flight = record (begin new_conn heap) {
  system = begun;
  heap = filled.1;
  flights = filled.0 ∷ [];
}

abbrev queued : Memory stack_pool
queued = record in_flight {
  system = record begun {
    conn = (enqueue_locked true begun.conn (1 ∷ 2 ∷ 3 ∷ [])).0;
    pending = 0;
    accepted = (1 ∷ 2 ∷ 3 ∷ []) ∷ [];
  };
  queue = filled.0 ∷ [];
  flights = [];
}

run : Reach (begin new_conn heap) queued
unfolding new_connection begin_send_operation enqueue_locked append get_frame_buffer take_last
run =
    next
      (next
        (next (next here (elsewhere begun (send_begins begun.conn refl) refl refl refl))
          (sender_gets 4 got.0 got.1 refl))
        (sender_appends 0 (1 ∷ 2 ∷ 3 ∷ []) [] [] got.0 filled.0 filled.1 refl refl))
      (sender_queues true [] [] filled.0 queued.system.conn refl (omega arith) refl)

Reach-IsFaithful_example : IsFaithful new_conn queued
unfolding new_connection
Reach-IsFaithful_example = Reach-IsFaithful stack_pool-IsPool new_conn heap refl heap-IsOwned run
