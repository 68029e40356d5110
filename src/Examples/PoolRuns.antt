-- ===== src/Examples/PoolRuns.antt =====
-- A batch of two jobs, numbers whose outcomes are their successors, with one worker.
use mathlib.Core.List.{Permᴰ}
use signalg.Base.{ℕ, suc, ◌≤◌, refl, true, List, [], ◌∷◌, map, arith}
use signalg.Batch.Pool.{
  Pool, start, hands, closes_jobs, sends, exits, closes_results, reads, returns, Steps, stays,
  steps,
}
use signalg.Errors.{Checked}
use signalg.Base.{none}
use signalg.Batch.Tally.{batch_result}
use signalg.Batch.Send.{SendJob, run_send_job, outcome, send_connections}
use signalg.Batch.Scheduled.{SameNumbers, Steps-send_connections}
use signalg.Examples.ConnectionRuns.{new_conn}
use signalg.Batch.PoolEnds.{IsReturned, step_count, Steps-bounded, Steps-got, Steps-IsReturned}

abbrev jobs : List ℕ
jobs = 7 ∷ 8 ∷ []

abbrev begun : Pool suc 1
begun = start suc 1 jobs

abbrev handed : Pool suc 1
handed = record begun { jobs = 8 ∷ []; idle = 0; busy = 7 ∷ [] }

abbrev over : Pool suc 1
over = record begun {
  jobs = [];
  jobs_closed = true;
  idle = 0;
  exited = 1;
  results_closed = true;
  got = 8 ∷ 9 ∷ [];
  returned = true;
}

half : Steps suc 1 begun handed
unfolding start
half = steps stays (hands 7 (8 ∷ []) 0 refl refl)

whole : Steps suc 1 begun over
unfolding start
whole =
    let a = steps half (sends [] 7 [] refl (omega arith)) in
    let b = steps a (hands 8 [] 0 refl refl) in
    let c = steps b (reads 8 [] refl) in
    let d = steps c (sends [] 8 [] refl (omega arith)) in
    let e = steps d (closes_jobs refl refl) in
    let f = steps e (exits 0 refl refl) in
    let g = steps f (closes_results refl refl refl) in
    let h = steps g (reads 9 [] refl) in steps h (returns refl refl refl)

Steps-bounded_example : step_count suc 1 half ≤ 12
Steps-bounded_example = Steps-bounded suc 1 jobs handed half

Steps-got_example : Permᴰ (map suc jobs) over.got
Steps-got_example = Steps-got suc 1 jobs over whole refl

Steps-IsReturned_example : (t : Pool suc 1) × Steps suc 1 handed t × IsReturned suc 1 jobs t
Steps-IsReturned_example = Steps-IsReturned suc 1 jobs handed (omega arith) half

-- The send of a batch with one connection, its worker, and the caller.
abbrev send_job : SendJob
send_job = record { call = record { pick = true; ctx = none }; conn = new_conn }

abbrev send_run : SendJob → Checked
send_run job = outcome (run_send_job (b'm' ∷ []) (1 ∷ []) job)

abbrev sent : Pool send_run 1
sent = record (start send_run 1 (send_job ∷ [])) {
  jobs = [];
  jobs_closed = true;
  idle = 0;
  exited = 1;
  results_closed = true;
  got = send_run send_job ∷ [];
  returned = true;
}

abbrev sending_one : Pool send_run 1
sending_one = record (start send_run 1 (send_job ∷ [])) {
  jobs = [];
  idle = 0;
  busy = send_job ∷ [];
}

sending : Steps send_run 1 (start send_run 1 (send_job ∷ [])) sent
unfolding start
sending =
    let a : Steps send_run 1 (start send_run 1 (send_job ∷ [])) sending_one =
      steps stays (hands send_job [] 0 refl refl) in
    let b = steps a (sends [] send_job [] refl (omega arith)) in
    let c = steps b (closes_jobs refl refl) in
    let d = steps c (exits 0 refl refl) in
    let e = steps d (closes_results refl refl refl) in
    let f = steps e (reads (send_run send_job) [] refl) in steps f (returns refl refl refl)

Steps-send_connections_example :
    SameNumbers (batch_result sent.got) (send_connections (b'm' ∷ []) (1 ∷ []) (send_job ∷ []))
Steps-send_connections_example =
    Steps-send_connections 1 (b'm' ∷ []) (1 ∷ []) (send_job ∷ []) sent sending refl
