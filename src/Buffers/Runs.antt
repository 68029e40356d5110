-- ===== src/Buffers/Runs.antt =====
-- What the websocket gets of the frames in the pool's buffers, however senders and writer
-- interleave.
use signalg.Base.{◌≡◌, refl, sym, ◌∙◌, subst, List, [], ◌∷◌, ◌++◌, Bytes, some, arith}
use signalg.Connection.State.{Connection}
use signalg.Connection.Order.{OrderAt, left_loop, Reach-InOrder}
use signalg.Connection.Writer
use signalg.Connection.Writer.{System, looping, writing, discarding, stopped, start}
use signalg.Buffers.Heap.{SlicePool, IsPool, Slice, Heap, content}
use signalg.Buffers.Owned.{IsOwned}
use signalg.Buffers.Memory.{
  Memory, Step, elsewhere, sender_gets, sender_appends, sender_marshals, sender_overwrites,
  sender_puts, sender_queues, writer_takes, writer_writes, writer_fails, writer_sees_cancel,
  writer_discards, Reach, here, next, begin,
}
use signalg.Buffers.Shared.{contents, HandAt, IsShared}
use signalg.Buffers.Steps.{gets, appends, marshals, overwrites, puts}
use signalg.Buffers.Writes.{queues, takes, writes, fails, sees_cancel, discards, held_frame}

module _ {lib : SlicePool} where
  -- Where a connection and its memory may stand: no array has two owners, the connection has done
  -- what Connection/Writer says, and the frames accepted begin, byte by byte, with those that the
  -- websocket has read; the others are, while the writer is in its loop, the one in its hand and
  -- those in the queue, and some are lost once it has left it.
  pub record IsFaithful (c : Connection) (m : Memory lib) : Type 0 where
    pub shared : IsShared m
    pub run : Writer.Reach (start c) m.system
    pub in_order : (others : List Bytes) × (m.system.accepted ≡ m.sent ++ others)
    pub waiting : m.system.writer ≡ looping → m.system.accepted ≡ m.sent ++ contents m.heap m.queue
    pub at_work :
        (s : Slice) (frame : Bytes)
        → m.system.writer ≡ writing frame
        → m.hand ≡ some s
        → m.system.accepted ≡ m.sent ++ (content m.heap s ∷ contents m.heap m.queue)

module _ {lib : SlicePool} (laws : IsPool lib) where
  Step-IsShared : {m k : Memory lib} → Step m k → IsShared m → IsShared k
  Step-IsShared {m} (elsewhere t st q w e) v = record {
    owned = v.owned;
    fits = v.fits;
    queue = v.queue ∙ sym q;
    hand = subst (λ x. HandAt x m.hand m.heap) (sym w) v.hand;
    sent = v.sent ∙ sym e;
  }
  Step-IsShared {m} (sender_gets size s g e) v = gets laws m v size s g e
  Step-IsShared {m} (sender_appends x bytes before after s t g at e) v =
      appends laws m v before after s at x bytes t g e
  Step-IsShared {m} (sender_marshals x bytes before after s t g at pos e) v =
      marshals laws m v before after s at x bytes t g pos e
  Step-IsShared {m} (sender_overwrites bytes before after s at e) v =
      overwrites laws m v before after s at bytes e
  Step-IsShared {m} (sender_puts before after s at) v = puts laws m v before after s at
  Step-IsShared {m} (sender_queues pick before after s d at p e) v =
      queues laws m v pick before after s d at e
  Step-IsShared {m} (writer_takes s rest frame d w q e) v = takes laws m v s rest frame d w q e
  Step-IsShared {m} (writer_writes s frame w h) v = writes laws m v s frame w h
  Step-IsShared {m} (writer_fails s frame w h) v = fails laws m v s h
  Step-IsShared {m} (writer_sees_cancel w c) v = sees_cancel laws m v w
  Step-IsShared {m} (writer_discards w) v = discards laws m v w

  pub Reach-IsShared : {m k : Memory lib} → Reach m k → IsShared m → IsShared k
  Reach-IsShared here v = v
  Reach-IsShared (next r st) v = Step-IsShared st (Reach-IsShared r v)

  -- The connection's part of a step is one of Connection/Writer, or none.
  Step-system :
      {m k : Memory lib} {s : System} → Step m k → Writer.Reach s m.system → Writer.Reach s k.system
  Step-system (elsewhere t st q w e) r = Writer.next r st
  Step-system (sender_gets size s g e) r = r
  Step-system (sender_appends x bytes before after s t g at e) r = r
  Step-system (sender_marshals x bytes before after s t g at pos e) r = r
  Step-system (sender_overwrites bytes before after s at e) r = r
  Step-system (sender_puts before after s at) r = r
  Step-system {m} (sender_queues pick before after s d at p e) r =
      Writer.next r (Writer.frame_is_queued pick (content m.heap s) d p e)
  Step-system (writer_takes s rest frame d w q e) r =
      Writer.next r (Writer.writer_takes frame d w e)
  Step-system (writer_writes s frame w h) r = Writer.next r (Writer.writer_writes frame w)
  Step-system (writer_fails s frame w h) r = Writer.next r (Writer.writer_fails frame w)
  Step-system (writer_sees_cancel w c) r = Writer.next r (Writer.writer_sees_cancel w c)
  Step-system (writer_discards w) r = Writer.next r (Writer.writer_discards w)

  pub Reach-system : {m k : Memory lib} → Reach m k → Writer.Reach m.system k.system
  Reach-system here = Writer.here
  Reach-system (next r st) = Step-system st (Reach-system r)

  begin-IsShared :
      (c : Connection) (h : Heap lib)
      → c.send_queue ≡ []
      → IsOwned (λ b. 0) h
      → IsShared (begin c h)
  begin-IsShared c h e v = record {
    owned = record {
      once = λ b. omega (arith, v.once b);
      later = λ b n. omega (arith, v.later b n);
    };
    fits = tt;
    queue = sym e;
    hand = refl;
    sent = refl;
  }

  -- However the senders and the writer of a new connection interleave, in a memory where only the
  -- pool owns arrays: no array is ever in two of the pool, the senders' hands, the queue and the
  -- writer's hand. What the websocket has read is, byte by byte and in their order, the first of
  -- the frames that were accepted; and while the writer is in its loop, the rest of these are the
  -- one in its hand, if it is writing, and then those in the queue. Once it has left the loop,
  -- behind a failed write or a cancelled context, the rest may be lost. The connection goes through
  -- states that it reaches with its frames as values too.
  pub Reach-IsFaithful :
      (c : Connection) (h : Heap lib) {m : Memory lib}
      → c.send_queue ≡ []
      → IsOwned (λ b. 0) h
      → Reach (begin c h) m
      → IsFaithful c m
  Reach-IsFaithful c h {m} e v r =
      let shared = Reach-IsShared r (begin-IsShared c h e v) in
      let run = Reach-system r in
      let order = Reach-InOrder run (sym e) in
      record {
        shared = shared;
        run = run;
        in_order =
            let (others, o) =
              left_loop m.system.writer m.system.accepted m.system.written m.system.conn.send_queue
                order in
            (others, subst (λ x. m.system.accepted ≡ x ++ others) (sym shared.sent) o);
        waiting = λ w.
            let o =
              subst (λ x. OrderAt x m.system.accepted m.system.written m.system.conn.send_queue) w
                order in
            let sent = shared.sent in let queue = shared.queue in cc;
        at_work = λ s frame w h.
            let o =
              subst (λ x. OrderAt x m.system.accepted m.system.written m.system.conn.send_queue) w
                order in
            let held = held_frame laws m shared s frame w h in
            let sent = shared.sent in let queue = shared.queue in cc;
      }
