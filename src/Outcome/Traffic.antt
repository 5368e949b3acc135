-- ===== src/Outcome/Traffic.antt =====
-- The throughput series of upstream/src/pool/outcome.rs over any sequence of calls: the requests under
-- way are the measurements that are not finished.
use codex_provider.Base.{
  ℕ, zero, suc, ◌+◌, ◌-◌, ◌≤◌, ◌≡◌, refl, Bool, true, false, Option, none, some, List, [], ◌∷◌,
  length, All, arith, if◌then◌else◌,
}
use codex_provider.Time.{Timestamp}
use codex_provider.State.{Pool}
use codex_provider.State.Usage.{ThroughputMeasurement}
use codex_provider.Outcome.Throughput.{
  throughput_bucket_limit, record_throughput_measurement, begin_throughput_measurement,
  finish_throughput_measurement, discard_throughput_measurement, completed_of,
}
use codex_provider.Outcome.Tally.{Tallied, record-Settled}

unfoldable pub is_open : ThroughputMeasurement → ℕ
is_open m = if m.finished then 0 else 1

unfoldable pub unfinished : List ThroughputMeasurement → ℕ
unfolding is_open
unfinished [] = 0
unfinished (m ∷ ms) = is_open m + unfinished ms

-- A call of the series. A measurement belongs to the handler of its request, which also fills it in
-- (`updates`) and never sets `finished` itself.
pub data Call : Type 0 where
  begins : Bool → Call
  updates : ℕ → (ThroughputMeasurement → ThroughputMeasurement) → Call
  finishes discards : ℕ → Call

-- The pool and the measurements of the requests so far, finished ones included.
pub record Traffic : Type 0 where
  pub pool : Pool
  pub measurements : List ThroughputMeasurement

unfoldable pub some_or {ℓ} : {A : Type ℓ} → Option A → A → A
some_or none a = a
some_or (some b) a = b

-- A call on the measurement at an index.
unfoldable pub apply_at :
    (Pool → Option ThroughputMeasurement → Pool × Option ThroughputMeasurement)
    → ℕ
    → Pool
    → List ThroughputMeasurement
    → Traffic
unfolding some_or
apply_at call i p [] = record { pool = p; measurements = [] }
apply_at call zero p (m ∷ ms) =
    let (q, after) = call p (some m) in record { pool = q; measurements = some_or after m ∷ ms }
apply_at call (suc i) p (m ∷ ms) =
    let rest = apply_at call i p ms in
    record { pool = rest.pool; measurements = m ∷ rest.measurements }

abbrev keeping :
    (ThroughputMeasurement → ThroughputMeasurement)
    → Pool
    → Option ThroughputMeasurement
    → Pool × Option ThroughputMeasurement
keeping f p none = (p, none)
keeping f p (some m) = (p, some (record (f m) { finished = m.finished }))

unfoldable pub call_step : Traffic → Call → Timestamp → Traffic
unfolding begin_throughput_measurement finish_throughput_measurement discard_throughput_measurement
    apply_at
call_step t (begins streaming) now =
    let (q, m) = begin_throughput_measurement t.pool streaming now in
    record { pool = q; measurements = m ∷ t.measurements }
call_step t (updates i f) now = apply_at (keeping f) i t.pool t.measurements
call_step t (finishes i) now =
    apply_at (λ p m. finish_throughput_measurement p m now) i t.pool t.measurements
call_step t (discards i) now = apply_at discard_throughput_measurement i t.pool t.measurements

unfoldable pub traffic : Traffic → List (Timestamp × Call) → Traffic
unfolding call_step
traffic t [] = t
traffic t ((now, call) ∷ calls) = traffic (call_step t call now) calls

-- The series adds up and is bounded, and the requests under way are the unfinished measurements and
-- `other` ones.
pub record Settled (other : ℕ) (p : Pool) (ms : List ThroughputMeasurement) : Type 0 where
  pub tallies : All Tallied p.throughput_buckets
  pub kept : length p.throughput_buckets ≤ throughput_bucket_limit
  pub under_way : p.active_proxy_requests ≡ unfinished ms + other

-- A call on one measurement keeps the series settled, whatever else is under way.
Keeps : (Pool → Option ThroughputMeasurement → Pool × Option ThroughputMeasurement) → Type 0
Keeps call =
    (other : ℕ) (p : Pool) (m : ThroughputMeasurement)
    → Settled other p (m ∷ [])
    → let (q, after) = call p (some m) in Settled other q (some_or after m ∷ [])

keeping-Keeps : (f : ThroughputMeasurement → ThroughputMeasurement) → Keeps (keeping f)
unfolding some_or unfinished is_open Keeps
keeping-Keeps f other p m s = record { tallies = s.tallies; kept = s.kept; under_way = s.under_way }

-- A call that leaves a finished measurement alone and ends another one.
once-Keeps :
    (other : ℕ) (p q : Pool) (m ended : ThroughputMeasurement) (done : Bool)
    → m.finished ≡ done
    → Settled other p (m ∷ [])
    → (done ≡ false → Settled other q (ended ∷ []))
    → let r : Pool × Option ThroughputMeasurement = if done then (p, some m) else (q, some ended) in
      Settled other r.0 (some_or r.1 m ∷ [])
unfolding some_or
once-Keeps other p q m ended true e s f = s
once-Keeps other p q m ended false e s f = f refl

-- One request fewer is under way where an unfinished measurement ends.
one_fewer :
    (other : ℕ) (p : Pool) (m : ThroughputMeasurement)
    → m.finished ≡ false
    → Settled other p (m ∷ [])
    → p.active_proxy_requests - 1 ≡ other
unfolding unfinished is_open
one_fewer other p m e s = omega (arith, rw e at s.under_way)

finish-Keeps : (now : Timestamp) → Keeps (λ p m. finish_throughput_measurement p m now)
unfolding finish_throughput_measurement unfinished is_open Keeps
finish-Keeps now other p m s =
    let ended = record m { finished = true; completed_at = completed_of m now } in
    let q = record p { active_proxy_requests = p.active_proxy_requests - 1 } in
    let (tallies, kept, same) = record-Settled q ended now s.tallies in
    once-Keeps other p (record_throughput_measurement q ended now) m ended m.finished refl s (λ e.
      record {
        tallies = tallies;
        kept = kept;
        under_way = omega (arith, same, one_fewer other p m e s);
      })

discard-Keeps : Keeps discard_throughput_measurement
unfolding discard_throughput_measurement unfinished is_open Keeps
discard-Keeps other p m s =
    let q = record p { active_proxy_requests = p.active_proxy_requests - 1 } in
    once-Keeps other p q m (record m { finished = true }) m.finished refl s
      (λ e. record {
        tallies = s.tallies;
        kept = s.kept;
        under_way = omega (arith, one_fewer other p m e s);
      })

module _ (call : Pool → Option ThroughputMeasurement → Pool × Option ThroughputMeasurement)
    (keeps : Keeps call) where
  apply_at-Settled :
      (i other : ℕ) (p : Pool) (ms : List ThroughputMeasurement)
      → Settled other p ms
      → let t = apply_at call i p ms in Settled other t.pool t.measurements
  unfolding apply_at unfinished Keeps
  apply_at-Settled i other p [] s = s
  apply_at-Settled zero other p (m ∷ ms) s =
      let one : Settled (unfinished ms + other) p (m ∷ []) = record {
        tallies = s.tallies;
        kept = s.kept;
        under_way = omega (arith, s.under_way);
      } in
      let next = keeps (unfinished ms + other) p m one in
      record { tallies = next.tallies; kept = next.kept; under_way = omega (arith, next.under_way) }
  apply_at-Settled (suc i) other p (m ∷ ms) s =
      let rest : Settled (is_open m + other) p ms = record {
        tallies = s.tallies;
        kept = s.kept;
        under_way = omega (arith, s.under_way);
      } in
      let next = apply_at-Settled i (is_open m + other) p ms rest in
      record { tallies = next.tallies; kept = next.kept; under_way = omega (arith, next.under_way) }

call_step-Settled :
    (other : ℕ) (t : Traffic) (call : Call) (now : Timestamp)
    → Settled other t.pool t.measurements
    → let t' = call_step t call now in Settled other t'.pool t'.measurements
unfolding call_step begin_throughput_measurement unfinished is_open
call_step-Settled other t (begins streaming) now s = record {
  tallies = s.tallies;
  kept = s.kept;
  under_way = omega (arith, s.under_way);
}
call_step-Settled other t (updates i f) now s =
    apply_at-Settled (keeping f) (keeping-Keeps f) i other _ _ s
call_step-Settled other t (finishes i) now s =
    apply_at-Settled (λ p m. finish_throughput_measurement p m now) (finish-Keeps now) i other _ _ s
call_step-Settled other t (discards i) now s =
    apply_at-Settled discard_throughput_measurement discard-Keeps i other _ _ s

-- Over any sequence of calls that begin, fill in, finish and discard measurements, each any number of
-- times: the requests under way are the unfinished measurements and the `other` ones that were under
-- way before, the series stays within its limit, and in each bucket the successes, failures and
-- cancellations, and the observations of the histogram, add up to the requests.
pub traffic-Settled :
    (other : ℕ) (t : Traffic) (calls : List (Timestamp × Call))
    → Settled other t.pool t.measurements
    → let t' = traffic t calls in Settled other t'.pool t'.measurements
unfolding traffic
traffic-Settled other t [] s = s
traffic-Settled other t ((now, call) ∷ calls) s =
    traffic-Settled other (call_step t call now) calls (call_step-Settled other t call now s)
