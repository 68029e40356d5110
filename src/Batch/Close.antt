-- ===== src/Batch/Close.antt =====
-- `closeConnections` of batch_close.go.
use signalg.Base.{if◌then◌else◌, List, map, Option, none, some}
use signalg.Errors.{Error, err, Checked, nil_error}
use signalg.Connection.State.{Connection, close_context, close_now}
use signalg.Batch.Tally.{BatchResult, batch_result}

-- A connection of the snapshot, the error of the caller's context if one of the two tests of it
-- finds it done, and what `ws.CloseNow()` returns otherwise.
pub record CloseJob : Type 0 where
  pub ctx : Option Error
  pub closing : Checked
  pub conn : Connection

unfoldable pub run_close_job : CloseJob → Connection × Checked
unfolding close_context close_now
run_close_job job = elim job.ctx [
  | some e ↦ (job.conn, err e)
  | none ↦ (close_now (close_context job.conn), if job.conn.has_ws then job.closing else nil_error)
]

abbrev pub closed : Connection × Checked → Checked
closed (c, r) = r

-- The jobs stand in the order in which the results arrive.
unfoldable pub close_connections : List CloseJob → BatchResult
unfolding batch_result run_close_job
close_connections jobs = batch_result (map (λ job. closed (run_close_job job)) jobs)
