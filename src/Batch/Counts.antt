-- ===== src/Batch/Counts.antt =====
-- The numbers of a batch (batch_send.go, batch_close.go), and the order of the results.
use mathlib.Core.List.{Permᴰ}
use mathlib.Core.List.Permᴰ.{nil, cons, swap, trans}
use signalg.Base.{
  ℕ, ◌+◌, ◌<◌, ◌≡◌, refl, ◌∙◌, sym, ap, ltb, true, false, if◌then◌else◌, List, [], ◌∷◌, map, length,
  length-append, Bytes, Option, none, some, arith,
}
use signalg.Base.Assoc.{is_some}
use signalg.Base.Int.{ℤ, pos, lt_int}
use signalg.Errors.{ok, err, Checked}
use signalg.Batch.Tally.{
  BatchError, single, joined, BatchResult, Tally, count_result, count_results, batch_result,
  build_batch_error, max_send_error_samples, normalize_send_concurrency, workers_for,
}
use signalg.Batch.Send.{SendJob, run_send_job, outcome, send_connections}
use signalg.Batch.Close.{CloseJob, run_close_job, closed, close_connections}

-- How many results are nil, and how many are errors.
abbrev pub successes : List Checked → ℕ
successes [] = 0
successes (ok u ∷ rs) = successes rs + 1
successes (err e ∷ rs) = successes rs

abbrev pub failures : List Checked → ℕ
failures [] = 0
failures (ok u ∷ rs) = failures rs
failures (err e ∷ rs) = failures rs + 1

abbrev pub sample_count : Option BatchError → ℕ
sample_count none = 0
sample_count (some (single e)) = 0
sample_count (some (joined failed samples)) = length samples

-- The samples are all errors up to the limit.
abbrev Sampled : Tally → Type 0
Sampled t =
    length t.samples
    ≡ (if ltb max_send_error_samples t.failed then max_send_error_samples else t.failed)

count_result-Sampled : (r : Checked) (t : Tally) → Sampled t → Sampled (count_result r t)
unfolding count_result
count_result-Sampled (ok u) t s = s
count_result-Sampled (err e) t s = ground (arith, length-append t.samples (e ∷ []))

counted :
    (rs : List Checked) (t : Tally)
    → Sampled t
    → ((count_results rs t).done ≡ t.done + successes rs)
      × ((count_results rs t).failed ≡ t.failed + failures rs)
      × Sampled (count_results rs t)
unfolding count_results count_result
counted [] t s = ground arith
counted (ok u ∷ rs) t s = ground (arith, counted rs (count_result (ok u) t) s)
counted (err e ∷ rs) t s =
    ground (arith, counted rs (count_result (err e) t) (count_result-Sampled (err e) t s))

pub all_counted : (rs : List Checked) → successes rs + failures rs ≡ length rs
all_counted [] = refl
all_counted (ok u ∷ rs) = omega (arith, all_counted rs)
all_counted (err e ∷ rs) = omega (arith, all_counted rs)

-- What a batch reports of its results.
pub record IsReport (results : List Checked) (r : BatchResult) : Type 0 where
  pub matched : r.matched ≡ length results
  pub done : r.done ≡ successes results
  pub failed : r.failed ≡ failures results
  pub all : r.done + r.failed ≡ r.matched
  pub failure : is_some r.error ≡ ltb 0 r.failed
  pub samples :
      sample_count r.error
      ≡ (if ltb max_send_error_samples r.failed then max_send_error_samples else r.failed)

-- Whatever the results of a batch, it reports as many successes and failures as there are among
-- them, which together are the connections matched; it has an error exactly if something failed;
-- and the error joins as many samples as there are failures, four at most.
pub batch_result-IsReport : (results : List Checked) → IsReport results (batch_result results)
unfolding batch_result build_batch_error
batch_result-IsReport results =
    let c = counted results (record { done = 0; failed = 0; samples = [] }) refl in
    ground (arith, c, all_counted results)

one_success : Checked → ℕ
one_success (ok u) = 1
one_success (err e) = 0

one_failure : Checked → ℕ
one_failure (ok u) = 0
one_failure (err e) = 1

successes-cons :
    (r : Checked) (rs : List Checked) → successes (r ∷ rs) ≡ one_success r + successes rs
unfolding one_success
successes-cons (ok u) rs = omega arith
successes-cons (err e) rs = omega arith

failures-cons : (r : Checked) (rs : List Checked) → failures (r ∷ rs) ≡ one_failure r + failures rs
unfolding one_failure
failures-cons (ok u) rs = omega arith
failures-cons (err e) rs = omega arith

module _ {J : Type 0} (run : J → Checked) where
  -- The counts of two orders of the same jobs.
  same_counts :
      {js ks : List J}
      → Permᴰ js ks
      → (successes (map run js) ≡ successes (map run ks))
        × (failures (map run js) ≡ failures (map run ks))
        × (length (map run js) ≡ length (map run ks))
  same_counts nil = (refl, refl, refl)
  same_counts (cons {a = a} {b = b} {l₁ = js} {l₂ = ks} e d) =
      let (p, q, l) = same_counts d in
      let f = ap run e in
      (
        omega (
          arith,
          p,
          successes-cons (run a) (map run js),
          successes-cons (run b) (map run ks),
          ap one_success f,
        ),
        omega (
          arith,
          q,
          failures-cons (run a) (map run js),
          failures-cons (run b) (map run ks),
          ap one_failure f,
        ),
        omega (arith, l),
      )
  same_counts (swap {a = a} {b = b} {a' = c} {b' = d} {l = js} e f) =
      let rest = map run js in
      (
        omega (
          arith,
          successes-cons (run a) (run b ∷ rest),
          successes-cons (run b) rest,
          successes-cons (run c) (run d ∷ rest),
          successes-cons (run d) rest,
          ap one_success (ap run e),
          ap one_success (ap run f),
        ),
        omega (
          arith,
          failures-cons (run a) (run b ∷ rest),
          failures-cons (run b) rest,
          failures-cons (run c) (run d ∷ rest),
          failures-cons (run d) rest,
          ap one_failure (ap run e),
          ap one_failure (ap run f),
        ),
        omega arith,
      )
  same_counts (trans x y) =
      let (p, q, l) = same_counts x in let (p', q', l') = same_counts y in (p ∙ p', q ∙ q', l ∙ l')

  pub same_report :
      {js ks : List J}
      → Permᴰ js ks
      → ((batch_result (map run js)).matched ≡ (batch_result (map run ks)).matched)
        × ((batch_result (map run js)).done ≡ (batch_result (map run ks)).done)
        × ((batch_result (map run js)).failed ≡ (batch_result (map run ks)).failed)
  same_report {js} {ks} d =
      let a = batch_result-IsReport (map run js) in
      let b = batch_result-IsReport (map run ks) in
      let (p, q, l) = same_counts d in
      (a.matched ∙ l ∙ sym b.matched, a.done ∙ p ∙ sym b.done, a.failed ∙ q ∙ sym b.failed)

-- In whatever order the workers' results arrive, `sendConnections` reports the same numbers.
pub send_connections-order :
    (method payload : Bytes) {js ks : List SendJob}
    → Permᴰ js ks
    → ((send_connections method payload js).matched ≡ (send_connections method payload ks).matched)
      × ((send_connections method payload js).done ≡ (send_connections method payload ks).done)
      × ((send_connections method payload js).failed ≡ (send_connections method payload ks).failed)
unfolding send_connections
send_connections-order method payload =
    same_report (λ job. outcome (run_send_job method payload job))

-- In whatever order the results arrive, `closeConnections` reports the same numbers.
pub close_connections-order :
    {js ks : List CloseJob}
    → Permᴰ js ks
    → ((close_connections js).matched ≡ (close_connections ks).matched)
      × ((close_connections js).done ≡ (close_connections ks).done)
      × ((close_connections js).failed ≡ (close_connections ks).failed)
unfolding close_connections
close_connections-order = same_report (λ job. closed (run_close_job job))

-- A batch that has a connection has a worker, and no more workers than connections, whatever the
-- concurrency that is configured.
pub workers_for-bounds :
    (n : ℤ) (matched : ℕ)
    → 0 < matched
    → (lt_int (pos 0) (workers_for (normalize_send_concurrency n) matched) ≡ true)
      × (lt_int (pos matched) (workers_for (normalize_send_concurrency n) matched) ≡ false)
unfolding workers_for normalize_send_concurrency
workers_for-bounds n matched h = ground arith
