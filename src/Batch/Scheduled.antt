-- ===== src/Batch/Scheduled.antt =====
-- `sendConnections` of batch_send.go, with its goroutines and as one loop over the jobs.
use signalg.Base.{ℕ, ◌≡◌, refl, ap, sym, true, List, [], ◌∷◌, map, Bytes}
use signalg.Errors.{Checked}
use signalg.Batch.Tally.{BatchResult, batch_result}
use signalg.Batch.Send.{SendJob, run_send_job, outcome, send_connections}
use signalg.Batch.Counts.{same_report}
use signalg.Batch.Pool.{Pool, start, Steps}
use signalg.Batch.PoolEnds.{Steps-got}

map-id : {A : Type 0} (xs : List A) → map (λ (x : A). x) xs ≡ xs
map-id [] = refl
map-id (x ∷ xs) = ap (◌∷◌ x) (map-id xs)

-- Two reports with the same numbers.
abbrev pub SameNumbers : BatchResult → BatchResult → Type 0
SameNumbers a b = (a.matched ≡ b.matched) × (a.done ≡ b.done) × (a.failed ≡ b.failed)

-- However many workers `sendConnections` has and however its goroutines are scheduled: when the
-- caller's loop has ended, the numbers that it reports of the results that it has read are those of
-- the sends done one after the other.
pub Steps-send_connections :
    (workers : ℕ) (method payload : Bytes) (jobs : List SendJob)
    (s : Pool (λ job. outcome (run_send_job method payload job)) workers)
    → Steps
        (λ job. outcome (run_send_job method payload job))
        workers
        (start (λ job. outcome (run_send_job method payload job)) workers jobs)
        s
    → s.returned ≡ true
    → SameNumbers (batch_result s.got) (send_connections method payload jobs)
unfolding send_connections
Steps-send_connections workers method payload jobs s p r =
    let run = λ (job : SendJob). outcome (run_send_job method payload job) in
    let same = same_report (λ (c : Checked). c) (Steps-got run workers jobs s p r) in
    let numbers : SameNumbers (batch_result (map run jobs)) (batch_result s.got) =
      rw (map-id (map run jobs), map-id s.got) at same in
    let (m, d, f) = numbers in (sym m, sym d, sym f)
