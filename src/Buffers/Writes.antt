-- ===== src/Buffers/Writes.antt =====
-- The steps of the send queue and of the writer keep the invariant of Buffers/Shared.
use mathlib.Core.List.{map-append}
use signalg.Base.{
  ℕ, ◌+◌, ◌-◌, ◌≤◌, ◌≡◌, refl, sym, ap, ◌∙◌, inl, inr, Bool, true, false, Bool-cases, subst, List,
  [], ◌∷◌, ◌++◌, length, All, Bytes, none, some, arith,
}
use signalg.Errors.{nil_error}
use signalg.Connection.State.{Connection, close_context, close_now}
use signalg.Connection.Operations.{end_operation}
use signalg.Connection.Queue.{
  enqueue_locked, take_frame, discard_queued_frames, end_each, write_queued_frame,
}
use signalg.Connection.Order.{enqueued_queue, taken_queue, ended_queue}
use signalg.Connection.Writer.{looping, writing, discarding, stopped}
use signalg.Buffers.Heap.{SlicePool, IsPool, Slice, Heap, content, put_frame_buffer}
use signalg.Buffers.Owned.{with, IsOwned, weaken-IsOwned, put-IsOwned}
use signalg.Buffers.Memory.{Memory, put_each, discard_slices}
use signalg.Buffers.Shared.{
  count, in_hand, count-append, contents, FitsIn, owners, HandAt, IsShared, All-append, All-split,
  put_each-IsOwned,
}

-- What the connection's own part of a step does to the queue.
written_queue : (ok : Bool) (c : Connection) → (write_queued_frame ok c).0.send_queue ≡ c.send_queue
unfolding write_queued_frame end_operation close_now close_context
written_queue true c = ground arith
written_queue false c = ground arith

each_queue : (xs : List Bytes) (c : Connection) → (end_each xs c).send_queue ≡ c.send_queue
unfolding end_each
each_queue [] c = refl
each_queue (x ∷ xs) c = each_queue xs (end_operation c) ∙ ended_queue c

discarded_queue :
    (c : Connection) → c.send_closed ≡ false → (discard_queued_frames c).send_queue ≡ []
unfolding discard_queued_frames
discarded_queue c e =
    rw e (each_queue c.send_queue (record c { send_closed = true; send_queue = [] }))

kept_queue :
    (c : Connection) → c.send_closed ≡ true → (discard_queued_frames c).send_queue ≡ c.send_queue
unfolding discard_queued_frames
kept_queue c e = rw e

module _ {lib : SlicePool} where
  put_each-cells : (xs : List Slice) (h : Heap lib) → (put_each xs h).cells ≡ h.cells
  unfolding put_each put_frame_buffer
  put_each-cells [] h = refl
  put_each-cells (s ∷ xs) h = put_each-cells xs (put_frame_buffer (some s) h)

  module _ (laws : IsPool lib) (m : Memory lib) (v : IsShared m) where
    pub queues :
        (pick : Bool) (before after : List Slice) (s : Slice) (d : Connection)
        → m.flights ≡ before ++ (s ∷ after)
        → enqueue_locked pick m.system.conn (content m.heap s) ≡ (d, nil_error)
        → IsShared (record m {
          system = record m.system {
            conn = d;
            pending = m.system.pending - 1;
            accepted = m.system.accepted ++ (content m.heap s ∷ []);
          };
          queue = m.queue ++ (s ∷ []);
          flights = before ++ after;
        })
    queues pick before after s d at e =
        let fits =
          All-split (FitsIn m.heap) before (s ∷ after) (subst (All (FitsIn m.heap)) at v.fits) in
        record {
          owned =
              weaken-IsOwned (owners m) _ m.heap
                (λ b. omega (
                  arith,
                  ap (count b) at,
                  count-append b before (s ∷ after),
                  count-append b before after,
                  count-append b m.queue (s ∷ []),
                ))
                v.owned;
          fits = All-append (FitsIn m.heap) before after fits.0 fits.1.1;
          queue =
              map-append (content m.heap) m.queue (s ∷ [])
              ∙ ap (λ x. x ++ (content m.heap s ∷ [])) v.queue
              ∙ sym (enqueued_queue pick m.system.conn d (content m.heap s) e);
          hand = v.hand;
          sent = v.sent;
        }

    -- The writer's hand is empty while it waits for a frame.
    empty_hand : m.system.writer ≡ looping → m.hand ≡ none
    empty_hand w = subst (λ x. HandAt x m.hand m.heap) w v.hand

    pub held_frame :
        (s : Slice) (frame : Bytes)
        → m.system.writer ≡ writing frame
        → m.hand ≡ some s
        → content m.heap s ≡ frame
    held_frame s frame w h =
        let (t, e, c) = subst (λ x. HandAt x m.hand m.heap) w v.hand in
        let same : t ≡ s = cc in subst (λ x. content m.heap x ≡ frame) same c

    pub takes :
        (s : Slice) (rest : List Slice) (frame : Bytes) (d : Connection)
        → m.system.writer ≡ looping
        → m.queue ≡ s ∷ rest
        → take_frame m.system.conn ≡ some (frame, d)
        → IsShared (record m {
          system = record m.system { conn = d; writer = writing frame };
          queue = rest;
          hand = some s;
        })
    takes s rest frame d w q e =
        let same : content m.heap s ∷ contents m.heap rest ≡ frame ∷ d.send_queue =
          ap (contents m.heap) (sym q) ∙ v.queue ∙ taken_queue m.system.conn d frame e in
        record {
          owned =
              weaken-IsOwned (owners m) _ m.heap
                (λ b. omega (arith, ap (count b) q, ap (in_hand b) (empty_hand w))) v.owned;
          fits = v.fits;
          queue = cc;
          hand = (s, refl, cc);
          sent = v.sent;
        }

    put_hand :
        (s : Slice)
        → m.hand ≡ some s
        → IsOwned
            (λ b. count b m.flights + (count b m.queue + 0))
            (put_frame_buffer (some s) m.heap)
    put_hand s h =
        let o = λ (b : ℕ). count b m.flights + (count b m.queue + 0) in
        put-IsOwned o laws s m.heap (
          weaken-IsOwned (owners m) (with s o) m.heap (λ b. omega (arith, ap (in_hand b) h))
            v.owned)

    pub writes :
        (s : Slice) (frame : Bytes)
        → m.system.writer ≡ writing frame
        → m.hand ≡ some s
        → IsShared (record m {
          system = record m.system {
            conn = (write_queued_frame true m.system.conn).0;
            writer = looping;
            written = m.system.written ++ (frame ∷ []);
          };
          heap = put_frame_buffer (some s) m.heap;
          hand = none;
          sent = m.sent ++ (content m.heap s ∷ []);
        })
    unfolding put_frame_buffer
    writes s frame w h = record {
      owned = put_hand s h;
      fits = v.fits;
      queue = v.queue ∙ sym (written_queue true m.system.conn);
      hand = refl;
      sent =
          ap (λ x. x ++ (content m.heap s ∷ [])) v.sent
          ∙ ap (λ x. m.system.written ++ (x ∷ [])) (held_frame s frame w h);
    }

    pub fails :
        (s : Slice)
        → m.hand ≡ some s
        → IsShared (record m {
          system = record m.system {
            conn = (write_queued_frame false m.system.conn).0;
            writer = discarding;
          };
          heap = put_frame_buffer (some s) m.heap;
          hand = none;
        })
    unfolding put_frame_buffer
    fails s h = record {
      owned = put_hand s h;
      fits = v.fits;
      queue = v.queue ∙ sym (written_queue false m.system.conn);
      hand = refl;
      sent = v.sent;
    }

    pub sees_cancel :
        m.system.writer ≡ looping
        → IsShared (record m { system = record m.system { writer = discarding } })
    sees_cancel w = record {
      owned = v.owned;
      fits = v.fits;
      queue = v.queue;
      hand = empty_hand w;
      sent = v.sent;
    }

    pub discards :
        m.system.writer ≡ discarding
        → IsShared (record m {
          system = record m.system { conn = discard_queued_frames m.system.conn; writer = stopped };
          queue = (discard_slices m.system.conn m.queue m.heap).0;
          heap = (discard_slices m.system.conn m.queue m.heap).1;
        })
    unfolding discard_slices
    discards w =
        let empty : m.hand ≡ none = subst (λ x. HandAt x m.hand m.heap) w v.hand in
        elim (Bool-cases m.system.conn.send_closed) [
          | inl closed ↦
              rw (discard_slices, closed)
                (record {
                  owned = v.owned;
                  fits = v.fits;
                  queue =
                      v.queue ∙ sym (kept_queue (record m.system.conn { send_closed = true }) refl);
                  hand = empty;
                  sent = v.sent;
                })
          | inr unclosed ↦
              (let o = λ (b : ℕ). count b m.flights + (0 + in_hand b m.hand) in
                rw (discard_slices, unclosed)
                  (record {
                    owned = put_each-IsOwned laws o m.queue m.heap (
                        weaken-IsOwned (owners m) (λ b. o b + count b m.queue) m.heap
                          (λ b. omega arith) v.owned);
                    fits =
                        subst (λ c. All (λ s. s.len ≤ length (c s.array)) m.flights)
                          (sym (put_each-cells m.queue m.heap)) v.fits;
                    queue =
                        sym (discarded_queue (record m.system.conn { send_closed = false }) refl);
                    hand = empty;
                    sent = v.sent;
                  }))
        ]
