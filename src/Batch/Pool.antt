-- ===== src/Batch/Pool.antt =====
-- The goroutines of `sendConnections` and `closeConnections`: one that hands the jobs to the
-- workers and then closes the channels, the workers, and the caller, which reads the results.
use signalg.Base.{ℕ, ◌+◌, ◌≡◌, ◌<◌, Bool, true, false, List, [], ◌∷◌, ◌++◌, length}

module _ {Job Outcome : Type 0} (run : Job → Outcome) (workers : ℕ) where
  -- `jobs` has no buffer: a job goes from the first goroutine to an idle worker at once. `results`
  -- has room for one result of each worker.
  pub record Pool : Type 0 where
    pub jobs : List Job  -- the connections that are not handed out
    pub jobs_closed : Bool
    pub idle : ℕ  -- workers that wait for a job
    pub busy : List Job  -- the jobs of the others
    pub exited : ℕ  -- workers that have left their loop
    pub results : List Outcome  -- the buffer of the channel
    pub results_closed : Bool
    pub got : List Outcome  -- what the caller has read
    pub returned : Bool  -- the caller has left its loop

  unfoldable pub start : List Job → Pool
  start jobs = record {
    jobs = jobs;
    jobs_closed = false;
    idle = workers;
    busy = [];
    exited = 0;
    results = [];
    results_closed = false;
    got = [];
    returned = false;
  }

  pub data Step (s : Pool) : Pool → Type 0 where
    -- `jobs <- conn`
    hands :
        (j : Job) (js : List Job) (n : ℕ)
        → s.jobs ≡ j ∷ js
        → s.idle ≡ n + 1
        → Step s (record s { jobs = js; idle = n; busy = s.busy ++ (j ∷ []) })
    -- `close(jobs)`
    closes_jobs : s.jobs ≡ [] → s.jobs_closed ≡ false → Step s (record s { jobs_closed = true })
    -- `results <- ...`, of any worker, where the buffer has room
    sends :
        (before : List Job) (j : Job) (after : List Job)
        → s.busy ≡ before ++ (j ∷ after)
        → length s.results < workers
        → Step s (record s {
          busy = before ++ after;
          idle = s.idle + 1;
          results = s.results ++ (run j ∷ []);
        })
    -- the end of `range jobs`, and `wg.Done`
    exits :
        (n : ℕ)
        → s.jobs_closed ≡ true
        → s.idle ≡ n + 1
        → Step s (record s { idle = n; exited = s.exited + 1 })
    -- `wg.Wait` and `close(results)`
    closes_results :
        s.jobs_closed ≡ true
        → s.exited ≡ workers
        → s.results_closed ≡ false
        → Step s (record s { results_closed = true })
    -- `range results`
    reads :
        (r : Outcome) (rs : List Outcome)
        → s.results ≡ r ∷ rs
        → Step s (record s { results = rs; got = s.got ++ (r ∷ []) })
    -- its end
    returns :
        s.results ≡ []
        → s.results_closed ≡ true
        → s.returned ≡ false
        → Step s (record s { returned = true })

  pub data Steps (s : Pool) : Pool → Type 0 where
    stays : Steps s s
    steps : {t u : Pool} → Steps s t → Step t u → Steps s u
