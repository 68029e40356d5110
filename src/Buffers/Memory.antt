-- ===== src/Buffers/Memory.antt =====
-- A connection beside the memory of its frames: each step of Connection/Writer with what it does to
-- the buffers, and the steps that the senders make in their buffers between them.
use signalg.Base.{
  ℕ, ◌-◌, ◌<◌, ◌≡◌, Bool, true, false, if◌then◌else◌, List, [], ◌∷◌, ◌++◌, length, Bytes, Option,
  none, some,
}
use signalg.Errors.{nil_error}
use signalg.Connection.State.{Connection}
use signalg.Connection.Queue.{enqueue_locked, take_frame, write_queued_frame, discard_queued_frames}
use signalg.Connection.Writer.{System, looping, writing, discarding, stopped, start}
use signalg.Connection.Writer
use signalg.Buffers.Heap.{
  SlicePool, Slice, Heap, content, get_frame_buffer, put_frame_buffer, append, overwrite,
}
use signalg.Buffers.Write.{put_replaced}

-- `system` is the connection with its frames as values. `queue` are the slices that `sendQueue`
-- holds, `flights` those of the senders, `hand` that of the writer, and `sent` the bytes that
-- `ws.Write` has read, oldest first.
pub record Memory (lib : SlicePool) : Type 0 where
  pub system : System
  pub heap : Heap lib
  pub queue : List Slice
  pub flights : List Slice
  pub hand : Option Slice
  pub sent : List Bytes

module _ {lib : SlicePool} where
  unfoldable pub put_each : List Slice → Heap lib → Heap lib
  unfolding put_frame_buffer
  put_each [] h = h
  put_each (s ∷ rest) h = put_each rest (put_frame_buffer (some s) h)

  -- `putFrameBuffer` of `discardQueuedFrames`.
  unfoldable pub discard_slices : Connection → List Slice → Heap lib → List Slice × Heap lib
  unfolding put_each
  discard_slices c queue h = if c.send_closed then (queue, h) else ([], put_each queue h)

  pub data Step (m : Memory lib) : Memory lib → Type 0 where
    -- a step that touches no frame: operations, cancellation, a refusal, the size hint
    elsewhere :
        (t : System)
        → Writer.Step m.system t
        → t.conn.send_queue ≡ m.system.conn.send_queue
        → t.writer ≡ m.system.writer
        → t.written ≡ m.system.written
        → Step m (record m { system = t })
    sender_gets :
        (size : ℕ) (s : Slice) (g : Heap lib)
        → get_frame_buffer size m.heap ≡ (s, g)
        → Step m (record m { heap = g; flights = s ∷ m.flights })
    -- `append`; the old array is dropped where the slice moves
    sender_appends :
        (extra : ℕ) (bytes : Bytes) (before after : List Slice) (s t : Slice) (g : Heap lib)
        → m.flights ≡ before ++ (s ∷ after)
        → append extra bytes (s, m.heap) ≡ (t, g)
        → Step m (record m { heap = g; flights = before ++ (t ∷ after) })
    -- `marshalAppend` behind the prefix, which is never empty; the old array goes back to the pool
    -- where the slice moves
    sender_marshals :
        (extra : ℕ) (bytes : Bytes) (before after : List Slice) (s t : Slice) (g : Heap lib)
        → m.flights ≡ before ++ (s ∷ after)
        → 0 < s.len
        → append extra bytes (s, m.heap) ≡ (t, g)
        → Step m (record m { heap = put_replaced s (some t) g; flights = before ++ (t ∷ after) })
    -- the header
    sender_overwrites :
        (bytes : Bytes) (before after : List Slice) (s : Slice)
        → m.flights ≡ before ++ (s ∷ after)
        → length bytes ≡ s.len
        → Step m (record m { heap = overwrite s bytes m.heap })
    -- a send that fails, whether its frame was refused or never offered
    sender_puts :
        (before after : List Slice) (s : Slice)
        → m.flights ≡ before ++ (s ∷ after)
        → Step m (record m { heap = put_frame_buffer (some s) m.heap; flights = before ++ after })
    sender_queues :
        (pick : Bool) (before after : List Slice) (s : Slice) (d : Connection)
        → m.flights ≡ before ++ (s ∷ after)
        → 0 < m.system.pending
        → enqueue_locked pick m.system.conn (content m.heap s) ≡ (d, nil_error)
        → Step m (record m {
          system = record m.system {
            conn = d;
            pending = m.system.pending - 1;
            accepted = m.system.accepted ++ (content m.heap s ∷ []);
          };
          queue = m.queue ++ (s ∷ []);
          flights = before ++ after;
        })
    writer_takes :
        (s : Slice) (rest : List Slice) (frame : Bytes) (d : Connection)
        → m.system.writer ≡ looping
        → m.queue ≡ s ∷ rest
        → take_frame m.system.conn ≡ some (frame, d)
        → Step m (record m {
          system = record m.system { conn = d; writer = writing frame };
          queue = rest;
          hand = some s;
        })
    writer_writes :
        (s : Slice) (frame : Bytes)
        → m.system.writer ≡ writing frame
        → m.hand ≡ some s
        → Step m (record m {
          system = record m.system {
            conn = (write_queued_frame true m.system.conn).0;
            writer = looping;
            written = m.system.written ++ (frame ∷ []);
          };
          heap = put_frame_buffer (some s) m.heap;
          hand = none;
          sent = m.sent ++ (content m.heap s ∷ []);
        })
    writer_fails :
        (s : Slice) (frame : Bytes)
        → m.system.writer ≡ writing frame
        → m.hand ≡ some s
        → Step m (record m {
          system = record m.system {
            conn = (write_queued_frame false m.system.conn).0;
            writer = discarding;
          };
          heap = put_frame_buffer (some s) m.heap;
          hand = none;
        })
    writer_sees_cancel :
        m.system.writer ≡ looping
        → m.system.conn.cancelled ≡ true
        → Step m (record m { system = record m.system { writer = discarding } })
    writer_discards :
        m.system.writer ≡ discarding
        → Step m (record m {
          system = record m.system { conn = discard_queued_frames m.system.conn; writer = stopped };
          queue = (discard_slices m.system.conn m.queue m.heap).0;
          heap = (discard_slices m.system.conn m.queue m.heap).1;
        })

  pub data Reach (m : Memory lib) : Memory lib → Type 0 where
    here : Reach m m
    next : {k l : Memory lib} → Reach m k → Step k l → Reach m l

  -- A new connection, in a memory where it has no frames yet.
  abbrev pub begin : Connection → Heap lib → Memory lib
  begin c h = record {
    system = start c;
    heap = h;
    queue = [];
    flights = [];
    hand = none;
    sent = [];
  }
