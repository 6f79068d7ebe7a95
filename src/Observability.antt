-- ===== src/Observability.antt =====
-- core/runtime/observability.go: the counters of the runtime, words of 64 bits. What the shutdown of
-- the profiling server returns is an argument; `activeWorkers` is never used, and left out.
use node_decent_system.Prelude.{
  ℕ, zero, suc, ◌+◌, ◌*◌, ◌/◌, ◌%◌, ◌^◌, ◌≤◌, ◌<◌, ◌≡◌, refl, sym, subst, Bool, true, false, Option,
  none, List, [], ◌∷◌, arith, Error, if◌then◌else◌, length, All,
}
use native.Mathlib.Nat.{mul-div-le, div-le_of_le-mul, lt-div-mul-add, mul_comm}

pub record RuntimeObservability : Type 0 where
  -- `server != nil`
  pub serves : Bool
  pub tx_processed : ℕ
  pub latency_sum_ms : ℕ

unfoldable pub new_runtime_observability : RuntimeObservability
new_runtime_observability = record { serves = false; tx_processed = 0; latency_sum_ms = 0 }

-- The server's goroutine only listens.
unfoldable pub start_pprof_server : RuntimeObservability → RuntimeObservability
start_pprof_server ro = record ro { serves = true }

-- `shutdown` is what the server's shutdown returns.
unfoldable pub stop : RuntimeObservability → Option Error → Option Error
stop ro shutdown = if ro.serves then shutdown else none

-- `Add` of an `atomic.Uint64`.
abbrev pub add64 : ℕ → ℕ → ℕ
add64 a b = (a + b) % 2 ^ 64

-- A duration, in whole milliseconds as a word.
unfoldable pub record_execution : RuntimeObservability → ℕ → RuntimeObservability
record_execution ro ms = record ro {
  tx_processed = add64 ro.tx_processed 1;
  latency_sum_ms = add64 ro.latency_sum_ms ms;
}

average : ℕ → ℕ → ℕ
average total zero = 0
average total (suc n) = total / suc n

-- The number of executions and their average latency.
unfoldable pub get_metrics : RuntimeObservability → ℕ × ℕ
unfolding average
get_metrics ro = (ro.tx_processed, average ro.latency_sum_ms ro.tx_processed)

unfoldable pub record_all : RuntimeObservability → List ℕ → RuntimeObservability
record_all ro [] = ro
record_all ro (ms ∷ rest) = record_all (record_execution ro ms) rest

abbrev pub total : List ℕ → ℕ
total [] = 0
total (ms ∷ rest) = ms + total rest

-- The counters are the number of executions and the sum of their durations, modulo 2 ^ 64.
pub record_all-counters :
    (ro : RuntimeObservability) (ds : List ℕ)
    → ro.tx_processed < 2 ^ 64
    → ro.latency_sum_ms < 2 ^ 64
    → ((record_all ro ds).tx_processed ≡ (ro.tx_processed + length ds) % 2 ^ 64)
      × ((record_all ro ds).latency_sum_ms ≡ (ro.latency_sum_ms + total ds) % 2 ^ 64)
unfolding record_all record_execution
record_all-counters ro [] h k = (omega arith, omega arith)
record_all-counters ro (ms ∷ rest) h k =
    let later = record_all-counters (record_execution ro ms) rest (omega arith) (omega arith) in
    (omega (arith, later.0), omega (arith, later.1))

total-bound : (m : ℕ) (ds : List ℕ) → All (λ d. d ≤ m) ds → total ds ≤ m * length ds
total-bound m [] h = omega arith
total-bound m (d ∷ ds) h = grind (arith, total-bound m ds h.1)

average-bounds :
    (m t n : ℕ)
    → t ≤ m * n
    → (average t n ≤ m) × (average t n * n ≤ t) × (0 < n → t < suc (average t n) * n)
unfolding average
average-bounds m t zero h = (omega arith, omega arith, λ p. absurd (omega arith))
average-bounds m t (suc n) h = (
  div-le_of_le-mul (suc n) (subst (λ x. t ≤ x) (mul_comm m (suc n)) h),
  subst (λ x. x ≤ t) (mul_comm (suc n) (t / suc n)) (mul-div-le t (suc n)),
  λ p. omega (arith, lt-div-mul-add {a = t} p),
)

-- As long as fewer than 2 ^ 64 executions were recorded, of less than 2 ^ 64 milliseconds together,
-- the metrics are their number and their average, rounded down, which no execution's bound is below.
pub get_metrics-bounds :
    (ds : List ℕ) (m : ℕ)
    → length ds < 2 ^ 64
    → total ds < 2 ^ 64
    → All (λ d. d ≤ m) ds
    → let (count, avg) = get_metrics (record_all new_runtime_observability ds) in
      (count ≡ length ds)
      × (avg ≤ m)
      × (avg * count ≤ total ds)
      × (0 < count → total ds < suc avg * count)
unfolding get_metrics new_runtime_observability
get_metrics-bounds ds m short small below =
    let counters = record_all-counters new_runtime_observability ds (omega arith) (omega arith) in
    let exact : (record_all new_runtime_observability ds).tx_processed ≡ length ds =
      omega (arith, counters.0) in
    let sum : (record_all new_runtime_observability ds).latency_sum_ms ≡ total ds =
      omega (arith, counters.1) in
    let bounds = average-bounds m (total ds) (length ds) (total-bound m ds below) in
    subst
      (λ n.
        (n ≡ length ds)
        × (average (record_all new_runtime_observability ds).latency_sum_ms n ≤ m)
        × (average (record_all new_runtime_observability ds).latency_sum_ms n * n ≤ total ds)
        × (0 < n
            → total ds
              < suc (average (record_all new_runtime_observability ds).latency_sum_ms n) * n))
      (sym exact)
      (subst
        (λ t.
          (length ds ≡ length ds)
          × (average t (length ds) ≤ m)
          × (average t (length ds) * length ds ≤ total ds)
          × (0 < length ds → total ds < suc (average t (length ds)) * length ds))
        (sym sum) (refl, bounds.0, bounds.1, bounds.2))
