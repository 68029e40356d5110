-- ===== src/Batch/Tally.antt =====
-- What a batch returns, and the loop that reads the results of its workers.
use signalg.Base.{ℕ, ◌+◌, ◌==◌, ltb, if◌then◌else◌, List, [], ◌∷◌, ◌++◌, length, Option, none, some}
use signalg.Base.Int.{ℤ, pos, lt_int}
use signalg.Errors.{Error, ok, err, Checked}

-- An error of a batch: one of the package's, or the one that `buildBatchError` makes of the number
-- of failures and of the samples that it joins. Its text is left out.
pub data BatchError : Type 0 where
  single : Error → BatchError
  joined : ℕ → List Error → BatchError

-- `SendResult`; `CloseResult` calls its second field `Closed`.
pub record BatchResult : Type 0 where
  pub matched : ℕ
  pub done : ℕ
  pub failed : ℕ
  pub error : Option BatchError

abbrev pub default_send_concurrency : ℤ
default_send_concurrency = pos 256

unfoldable pub normalize_send_concurrency : ℤ → ℤ
normalize_send_concurrency n = if lt_int (pos 0) n then n else default_send_concurrency

-- The number of workers for some connections.
unfoldable pub workers_for : ℤ → ℕ → ℤ
workers_for send_concurrency n = if lt_int (pos n) send_concurrency then pos n else send_concurrency

abbrev pub max_send_error_samples : ℕ
max_send_error_samples = 4

unfoldable pub build_batch_error : ℕ → List Error → Option BatchError
build_batch_error failed samples = if failed == 0 then none else some (joined failed samples)

-- The variables of the loop over the results.
pub record Tally : Type 0 where
  pub done : ℕ
  pub failed : ℕ
  pub samples : List Error

unfoldable pub count_result : Checked → Tally → Tally
count_result (ok u) t = record t { done = t.done + 1 }
count_result (err e) t = record t {
  failed = t.failed + 1;
  samples =
      if ltb (length t.samples) max_send_error_samples then t.samples ++ (e ∷ []) else t.samples;
}

unfoldable pub count_results : List Checked → Tally → Tally
unfolding count_result
count_results [] t = t
count_results (r ∷ rs) t = count_results rs (count_result r t)

-- What a batch returns, given the results in the order in which they arrive.
unfoldable pub batch_result : List Checked → BatchResult
unfolding count_results build_batch_error
batch_result results =
    let t = count_results results (record { done = 0; failed = 0; samples = [] }) in
    record {
      matched = length results;
      done = t.done;
      failed = t.failed;
      error = build_batch_error t.failed t.samples;
    }
