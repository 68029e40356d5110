-- ===== src/Connection/Idle.antt =====
-- How `writeLoop` of connection.go comes to stop, and the operations in flight to an end.
use signalg.Base.{ℕ, zero, suc, ◌-◌, ◌<◌, ◌≡◌, refl, ◌∙◌, true, false, arith}
use signalg.Connection.State.{Connection, close_context}
use signalg.Connection.Operations.{end_handler_operation, end_operation}
use signalg.Connection.Queue.{write_queued_frame}
use signalg.Connection.Writer.{
  WriterState, looping, writing, discarding, stopped, System, Step, handler_ends, send_fails,
  is_cancelled, writer_fails, writer_sees_cancel, writer_discards, Reach, here, next,
}
use signalg.Connection.Balance.{IsBalanced, Reach-IsBalanced, discard_handlers}

join : {s t u : System} → Reach s t → Reach t u → Reach s u
join r here = r
join r (next q st) = next (join r q) st

pos_of_suc : (a n : ℕ) → a ≡ suc n → 0 < a
pos_of_suc a n h = omega arith

pred_of_suc : (a n : ℕ) → a ≡ suc n → a - 1 ≡ n
pred_of_suc a n h = omega arith

-- The handlers that run may return, and the senders may give up.
ended_handlers :
    (c : Connection) → (end_handler_operation c).active_handlers ≡ c.active_handlers - 1
unfolding end_handler_operation
ended_handlers c = ground arith

ended_sender : (c : Connection) → (end_operation c).active_handlers ≡ c.active_handlers
unfolding end_operation
ended_sender c = ground arith

handlers_end :
    (n : ℕ) (s : System)
    → s.conn.active_handlers ≡ n
    → (t : System) × Reach s t × (t.conn.active_handlers ≡ 0) × (t.pending ≡ s.pending)
handlers_end zero s h = (s, here, h, refl)
handlers_end (suc n) s h =
    let s' = record s { conn = end_handler_operation s.conn } in
    let (t, r, e, f) = handlers_end n s' (ground (arith, ended_handlers s.conn)) in
    (t, join (next here (handler_ends (pos_of_suc s.conn.active_handlers n h))) r, e, f)

senders_fail :
    (n : ℕ) (s : System)
    → s.pending ≡ n
    → s.conn.active_handlers ≡ 0
    → (t : System) × Reach s t × (t.conn.active_handlers ≡ 0) × (t.pending ≡ 0)
senders_fail zero s h k = (s, here, k, h)
senders_fail (suc n) s h k =
    let s' = record s { conn = end_operation s.conn; pending = s.pending - 1 } in
    let (t, r, e, f) = senders_fail n s' (pred_of_suc s.pending n h) (ended_sender s.conn ∙ k) in
    (t, join (next here (send_fails (pos_of_suc s.pending n h))) r, e, f)

-- A state with neither handlers nor senders, from which the writer has to leave.
abbrev Stopped : System → Type 0
Stopped s =
    (t : System) × Reach s t × (t.writer ≡ stopped) × (t.conn.active_handlers ≡ 0) × (t.pending ≡ 0)

after-Step : {s t : System} → Step s t → Stopped t → Stopped s
after-Step st (t, r, e, h, k) = (t, join (next here st) r, e, h, k)

discarding_stops :
    (s : System) → s.writer ≡ discarding → s.conn.active_handlers ≡ 0 → s.pending ≡ 0 → Stopped s
discarding_stops s e h k =
    after-Step (writer_discards e) (_, here, refl, discard_handlers s.conn ∙ h, k)

failed_write_handlers :
    (c : Connection) → (write_queued_frame false c).0.active_handlers ≡ c.active_handlers
unfolding write_queued_frame
failed_write_handlers c = ground arith

cancelled_handlers : (c : Connection) → (close_context c).active_handlers ≡ c.active_handlers
unfolding close_context
cancelled_handlers c = refl

is_cancelled_now : (c : Connection) → (close_context c).cancelled ≡ true
unfolding close_context
is_cancelled_now c = refl

-- The writer sees the cancelled context, or fails its write, and throws the queue away.
writer_stops :
    (w : WriterState) (s : System)
    → s.writer ≡ w
    → s.conn.active_handlers ≡ 0
    → s.pending ≡ 0
    → Stopped s
writer_stops looping s e h k = after-Step is_cancelled (
    after-Step (writer_sees_cancel e (is_cancelled_now s.conn))
      (discarding_stops _ refl (cancelled_handlers s.conn ∙ h) k))
writer_stops (writing frame) s e h k =
    after-Step (writer_fails frame e) (discarding_stops _ refl (failed_write_handlers s.conn ∙ h) k)
writer_stops discarding s e h k = discarding_stops s e h k
writer_stops stopped s e h k = (s, here, e, h, k)

stopped_idle :
    (t : System)
    → IsBalanced t
    → t.writer ≡ stopped
    → t.conn.active_handlers ≡ 0
    → t.pending ≡ 0
    → t.conn.active_ops ≡ 0
stopped_idle t v e h k = ground arith

-- No state of a connection whose books are kept is stuck: steps lead from it to one with no
-- operation in flight.
pub can_become_idle :
    (s : System) → IsBalanced s → (t : System) × Reach s t × (t.conn.active_ops ≡ 0)
can_become_idle s v =
    let (a, r₁, h₁, _) = handlers_end s.conn.active_handlers s refl in
    let (b, r₂, h₂, k₂) = senders_fail a.pending a refl h₁ in
    let (t, r₃, e, h₃, k₃) = writer_stops b.writer b refl h₂ k₂ in
    let r = join r₁ (join r₂ r₃) in (t, r, stopped_idle t (Reach-IsBalanced r v) e h₃ k₃)
