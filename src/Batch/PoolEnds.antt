-- ===== src/Batch/PoolEnds.antt =====
-- That the goroutines of a batch end, and what the caller has read then.
use signalg.Base.{
  ℕ, zero, suc, ◌+◌, ◌-◌, ◌*◌, ◌==◌, ◌≡◌, ◌≤◌, ◌<◌, ap, subst, inl, inr, Bool, true, false,
  Bool-cases, List, [], ◌∷◌, ◌++◌, length, length-append, map, arith, ==_iff, list-cases,
}
use mathlib.Core.List.{append-nil, Permᴰ}
use signalg.Batch.Pool.{
  Pool, start, Step, hands, closes_jobs, sends, exits, closes_results, reads, returns, Steps, stays,
  steps,
}
use signalg.Batch.PoolWorks.{IsWorking, no_worker, start-IsWorking, Step-IsWorking}

module _ {Job Outcome : Type 0} (run : Job → Outcome) (workers : ℕ) where
  -- A count that each step lowers.
  abbrev flag : Bool → ℕ
  flag false = 1
  flag true = 0

  unfoldable pub remaining : Pool run workers → ℕ
  remaining s =
      4 * length s.jobs
      + 3 * length s.busy
      + length s.results
      + s.idle
      + flag s.jobs_closed
      + flag s.results_closed
      + flag s.returned

  Step-remaining : {s t : Pool run workers} → Step run workers s t → remaining t < remaining s
  unfolding remaining
  Step-remaining {s} (hands j js n e f) = omega (arith, ap length e, length-append s.busy (j ∷ []))
  Step-remaining {s} (closes_jobs e f) = ground (arith, f)
  Step-remaining {s} (sends before j after e l) = omega (
    arith,
    ap length e,
    length-append before (j ∷ after),
    length-append before after,
    length-append s.results (run j ∷ []),
  )
  Step-remaining {s} (exits n e f) = omega arith
  Step-remaining {s} (closes_results e f g) = ground (arith, g)
  Step-remaining {s} (reads r rs e) = omega (arith, ap length e)
  Step-remaining {s} (returns e f g) = ground (arith, g)

  abbrev pub step_count : {s t : Pool run workers} → Steps run workers s t → ℕ
  step_count stays = 0
  step_count (steps p q) = step_count p + 1

  Steps-remaining :
      {s t : Pool run workers} (p : Steps run workers s t)
      → step_count p + remaining t ≤ remaining s
  Steps-remaining stays = omega arith
  Steps-remaining (steps p q) = omega (arith, Steps-remaining p, Step-remaining q)

  -- However the goroutines of a batch are scheduled, they make at most four steps for each
  -- connection and one for each worker, and three more, so that no batch goes on for ever.
  pub Steps-bounded :
      (jobs : List Job) (t : Pool run workers) (p : Steps run workers (start run workers jobs) t)
      → step_count p ≤ 4 * length jobs + workers + 3
  unfolding start remaining
  Steps-bounded jobs t p = omega (arith, Steps-remaining p)

  Steps-IsWorking :
      (jobs : List Job) {s t : Pool run workers}
      → Steps run workers s t
      → IsWorking run workers jobs s
      → IsWorking run workers jobs t
  Steps-IsWorking jobs stays v = v
  Steps-IsWorking jobs (steps p q) v = Step-IsWorking run workers jobs q (Steps-IsWorking jobs p v)

  abbrev CanStep : Pool run workers → Type 0
  CanStep s = (t : Pool run workers) × Step run workers s t

  -- Nothing waits for ever: with a worker, something can go on until the caller returns.
  idle_step :
      (jobs : List Job) (s : Pool run workers)
      → 0 < workers
      → IsWorking run workers jobs s
      → s.results_closed ≡ false
      → s.busy ≡ []
      → CanStep s
  idle_step jobs s w v c b = elim (Bool-cases s.jobs_closed) [
    | inl d ↦ elim (Bool-cases (s.exited == workers)) [
      | inl e ↦ (_, closes_results d ((==_iff s.exited workers).0 e) c)
      | inr e ↦ (_, exits (s.idle - 1) d (ground (arith, v.places, ap length b)))
    ]
    | inr d ↦ elim (list-cases s.jobs) [
      | inl e ↦ (_, closes_jobs e d)
      | inr (j, js, e) ↦
          (_, hands j js (s.idle - 1) e (omega (arith, v.places, v.exited d, ap length b)))
    ]
  ]

  can_step :
      (jobs : List Job) (s : Pool run workers)
      → 0 < workers
      → IsWorking run workers jobs s
      → s.returned ≡ false
      → CanStep s
  can_step jobs s w v g = elim (list-cases s.results) [
    | inr (r, rs, e) ↦ (_, reads r rs e)
    | inl e ↦ elim (Bool-cases s.results_closed) [
      | inl c ↦ (_, returns e c g)
      | inr c ↦ elim (list-cases s.busy) [
        | inl b ↦ idle_step jobs s w v c b
        | inr (j, after, b) ↦ (_, sends [] j after b (omega (arith, ap length e)))
      ]
    ]
  ]

  ended :
      (jobs : List Job) (s : Pool run workers)
      → IsWorking run workers jobs s
      → s.returned ≡ true
      → Permᴰ (map run jobs) s.got
  ended jobs s v g =
      let (c, r) = v.returned g in
      let b = (no_worker run workers jobs s v c).1 in
      let js = v.handed (v.closed c).1 in
      let all : Permᴰ (map run jobs) (s.got ++ []) =
        subst (λ x. Permᴰ (map run jobs) (s.got ++ (x ++ []))) r
          (subst (λ x. Permᴰ (map run jobs) (s.got ++ (s.results ++ (map run x ++ [])))) b
            (subst
              (λ x. Permᴰ (map run jobs) (s.got ++ (s.results ++ (map run s.busy ++ map run x)))) js
              v.all)) in
      subst (Permᴰ (map run jobs)) (append-nil s.got) all

  prepend :
      {s t u : Pool run workers}
      → Step run workers s t
      → Steps run workers t u
      → Steps run workers s u
  prepend q stays = steps stays q
  prepend q (steps p r) = steps (prepend q p) r

  -- What a batch comes to: the caller returns, with the outcomes of all jobs in some order.
  pub record IsReturned (jobs : List Job) (s : Pool run workers) : Type 0 where
    pub returned : s.returned ≡ true
    pub got : Permᴰ (map run jobs) s.got

  ends_within :
      (n : ℕ) (jobs : List Job) (s : Pool run workers)
      → 0 < workers
      → IsWorking run workers jobs s
      → remaining s ≤ n
      → (t : Pool run workers) × Steps run workers s t × IsReturned jobs t
  ends_within zero jobs s w v h = elim (Bool-cases s.returned) [
    | inl g ↦ (s, stays, record { returned = g; got = ended jobs s v g })
    | inr g ↦ let (t, q) = can_step jobs s w v g in absurd (omega (arith, Step-remaining q))
  ]
  ends_within (suc n) jobs s w v h = elim (Bool-cases s.returned) [
    | inl g ↦ (s, stays, record { returned = g; got = ended jobs s v g })
    | inr g ↦
        let (t, q) = can_step jobs s w v g in
        let (u, p, e) =
          ends_within n jobs t w (Step-IsWorking run workers jobs q v)
            (omega (arith, Step-remaining q)) in
        (u, prepend q p, e)
  ]

  -- Wherever the caller of a batch returns, however its goroutines were scheduled, it has read the
  -- outcome of each connection once, in some order.
  pub Steps-got :
      (jobs : List Job) (s : Pool run workers)
      → Steps run workers (start run workers jobs) s
      → s.returned ≡ true
      → Permᴰ (map run jobs) s.got
  Steps-got jobs s p = ended jobs s (Steps-IsWorking jobs p (start-IsWorking run workers jobs))

  -- However the goroutines of a batch with a worker have been scheduled so far, none of them is
  -- stuck for good: they can go on until the caller returns, with the outcome of each connection.
  pub Steps-IsReturned :
      (jobs : List Job) (s : Pool run workers)
      → 0 < workers
      → Steps run workers (start run workers jobs) s
      → (t : Pool run workers) × Steps run workers s t × IsReturned jobs t
  Steps-IsReturned jobs s w p =
      ends_within (remaining s) jobs s w (Steps-IsWorking jobs p (start-IsWorking run workers jobs))
        (omega arith)
