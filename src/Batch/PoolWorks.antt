-- ===== src/Batch/PoolWorks.antt =====
-- What holds of the goroutines of a batch however they are scheduled.
use signalg.Base.{
  ℕ, ◌+◌, ◌≡◌, refl, sym, ap, subst, ◌∙◌, true, false, List, [], ◌∷◌, ◌++◌, length, length-append,
  map, arith,
}
use mathlib.Core.List.{append_assoc, Permᴰ}
use mathlib.Core.List.Permᴰ as Perms
use mathlib.Core.List.Permᴰ.{trans, append_left, append_right, middle}
use signalg.Batch.Pool.{
  Pool, start, Step, hands, closes_jobs, sends, exits, closes_results, reads, returns,
}

module _ {Job Outcome : Type 0} (run : Job → Outcome) (workers : ℕ) where
  -- The outcomes of all jobs, by where they are.
  abbrev pub outcomes : Pool run workers → List Outcome
  outcomes s = s.got ++ (s.results ++ (map run s.busy ++ map run s.jobs))

  -- No job is lost or doubled, each worker is in one place, and the channels are closed in order.
  pub record IsWorking (jobs : List Job) (s : Pool run workers) : Type 0 where
    pub all : Permᴰ (map run jobs) (outcomes s)
    pub places : s.idle + length s.busy + s.exited ≡ workers
    pub exited : s.jobs_closed ≡ false → s.exited ≡ 0
    pub handed : s.jobs_closed ≡ true → s.jobs ≡ []
    pub closed : s.results_closed ≡ true → (s.exited ≡ workers) × (s.jobs_closed ≡ true)
    pub returned : s.returned ≡ true → (s.results_closed ≡ true) × (s.results ≡ [])

  map-append : (xs ys : List Job) → map run (xs ++ ys) ≡ map run xs ++ map run ys
  map-append [] ys = refl
  map-append (x ∷ xs) ys = ap (◌∷◌ (run x)) (map-append xs ys)

  no_items : {A : Type 0} (xs : List A) → length xs ≡ 0 → xs ≡ []
  no_items [] h = refl
  no_items (x ∷ xs) h = absurd (omega arith)

  pub start-IsWorking : (jobs : List Job) → IsWorking jobs (start run workers jobs)
  unfolding start
  start-IsWorking jobs = record {
    all = Perms.refl (map run jobs);
    places = omega arith;
    exited = λ e. refl;
    handed = λ e. cc;
    closed = λ e. cc;
    returned = λ e. cc;
  }

  Step-all :
      (jobs : List Job) {s t : Pool run workers}
      → Step run workers s t
      → Permᴰ (map run jobs) (outcomes s)
      → Permᴰ (map run jobs) (outcomes t)
  Step-all jobs {s} (hands j js n e f) h =
      let split : map run (s.busy ++ (j ∷ [])) ++ map run js
          ≡ map run s.busy ++ (run j ∷ map run js) =
        ap (λ x. x ++ map run js) (map-append s.busy (j ∷ []))
        ∙ append_assoc (map run s.busy) (run j ∷ []) (map run js) in
      let h' : Permᴰ (map run jobs)
          (s.got ++ (s.results ++ (map run s.busy ++ (run j ∷ map run js)))) =
        subst (λ x. Permᴰ (map run jobs) (s.got ++ (s.results ++ (map run s.busy ++ map run x)))) e
          h in
      subst (λ x. Permᴰ (map run jobs) (s.got ++ (s.results ++ x))) (sym split) h'
  Step-all jobs {s} (closes_jobs e f) h = h
  Step-all jobs {s} (sends before j after e l) h =
      let moved : Permᴰ (map run s.busy ++ map run s.jobs)
          (run j ∷ (map run (before ++ after) ++ map run s.jobs)) =
        rw (e, map-append before (j ∷ after), map-append before after)
          (append_right (map run s.jobs) (middle (run j) (map run before) (map run after))) in
      subst (λ x. Permᴰ (map run jobs) (s.got ++ x))
        (sym (append_assoc s.results (run j ∷ []) (map run (before ++ after) ++ map run s.jobs)))
        (trans h (append_left s.got (append_left s.results moved)))
  Step-all jobs {s} (exits n e f) h = h
  Step-all jobs {s} (closes_results e f g) h = h
  Step-all jobs {s} (reads r rs e) h =
      let rest = map run s.busy ++ map run s.jobs in
      let h' : Permᴰ (map run jobs) (s.got ++ ((r ∷ rs) ++ rest)) =
        subst (λ x. Permᴰ (map run jobs) (s.got ++ (x ++ rest))) e h in
      subst (Permᴰ (map run jobs)) (sym (append_assoc s.got (r ∷ []) (rs ++ rest))) h'
  Step-all jobs {s} (returns e f g) h = h

  pub no_worker :
      (jobs : List Job) (s : Pool run workers)
      → IsWorking jobs s
      → s.results_closed ≡ true
      → (s.idle ≡ 0) × (s.busy ≡ [])
  no_worker jobs s v c =
      let done = (v.closed c).0 in
      (omega (arith, v.places, done), no_items s.busy (omega (arith, v.places, done)))

  pub Step-IsWorking :
      (jobs : List Job) {s t : Pool run workers}
      → Step run workers s t
      → IsWorking jobs s
      → IsWorking jobs t
  Step-IsWorking jobs {s} (hands j js n e f) v = record {
    all = Step-all jobs {s = s} (hands j js n e f) v.all;
    places = omega (arith, v.places, length-append s.busy (j ∷ []));
    exited = v.exited;
    handed = λ c. cc (v.handed c, e);
    closed = v.closed;
    returned = v.returned;
  }
  Step-IsWorking jobs {s} (closes_jobs e f) v = record {
    all = v.all;
    places = v.places;
    exited = λ c. cc;
    handed = λ c. e;
    closed = λ c. cc (f, (v.closed c).1);
    returned = v.returned;
  }
  Step-IsWorking jobs {s} (sends before j after e l) v = record {
    all = Step-all jobs {s = s} (sends before j after e l) v.all;
    places = omega (
      arith,
      v.places,
      ap length e,
      length-append before (j ∷ after),
      length-append before after,
    );
    exited = v.exited;
    handed = v.handed;
    closed = v.closed;
    returned = λ c. absurd (
        omega (
          arith,
          ap length (sym e ∙ (no_worker jobs s v (v.returned c).0).1),
          length-append before (j ∷ after),
        ));
  }
  Step-IsWorking jobs {s} (exits n e f) v = record {
    all = v.all;
    places = omega (arith, v.places);
    exited = λ c. cc (c, e);
    handed = v.handed;
    closed = λ c. absurd (omega (arith, (no_worker jobs s v c).0));
    returned = v.returned;
  }
  Step-IsWorking jobs {s} (closes_results e f g) v = record {
    all = v.all;
    places = v.places;
    exited = v.exited;
    handed = v.handed;
    closed = λ c. (f, e);
    returned = λ c. cc (g, (v.returned c).0);
  }
  Step-IsWorking jobs {s} (reads r rs e) v = record {
    all = Step-all jobs {s = s} (reads r rs e) v.all;
    places = v.places;
    exited = v.exited;
    handed = v.handed;
    closed = v.closed;
    returned = λ c. cc ((v.returned c).1, e);
  }
  Step-IsWorking jobs {s} (returns e f g) v = record {
    all = v.all;
    places = v.places;
    exited = v.exited;
    handed = v.handed;
    closed = v.closed;
    returned = λ c. (f, e);
  }
