-- ===== src/Outcome/Throughput.antt =====
-- upstream/src/pool/outcome.rs: the throughput series, one bucket for each account and minute, and the
-- count of requests under way. Log lines are left out.
use codex_provider.Base.{
  ℕ, zero, suc, ◌+◌, ◌-◌, ◌/◌, String, Bool, true, false, ◌&&◌, ◌||◌, not, Option, none, some, List,
  [], ◌∷◌, ◌++◌, length, drop, filter, ltb, leb, ◌==◌, if◌then◌else◌, str_eq,
}
use codex_provider.Time.{Timestamp, add, truncate, after, before, is_zero, minutes, hours}
use codex_provider.State.{Pool}
use codex_provider.State.Usage.{PromptCacheUsage, ThroughputMeasurement, ThroughputBucket}

abbrev pub throughput_bucket_interval : ℕ
throughput_bucket_interval = minutes 1

abbrev pub throughput_bucket_ttl : ℕ
throughput_bucket_ttl = hours 48

abbrev pub throughput_bucket_limit : ℕ
throughput_bucket_limit = 100000

abbrev pub throughput_latency_bounds_millis : List ℕ
throughput_latency_bounds_millis =
    100 ∷ 250 ∷ 500 ∷ 1000 ∷ 2000 ∷ 5000 ∷ 10000 ∷ 30000 ∷ 60000 ∷ 120000 ∷ 300000 ∷ 600000 ∷ 900000
    ∷ []

unfoldable pub elapsed_millis : Timestamp → Timestamp → ℕ
elapsed_millis start end_at =
    if is_zero start || is_zero end_at || before end_at start then 0 else (end_at - start) / 1000000

-- `Vec::resize(n, 0)`.
unfoldable pub resize : ℕ → List ℕ → List ℕ
resize zero xs = []
resize (suc n) [] = 0 ∷ resize n []
resize (suc n) (x ∷ xs) = x ∷ resize n xs

-- `iter().position(|bound| value <= bound).unwrap_or(len)`.
unfoldable pub position_of : ℕ → List ℕ → ℕ
position_of value [] = 0
position_of value (bound ∷ bounds) = if leb value bound then 0 else suc (position_of value bounds)

-- `histogram[index] += 1`; an index out of range, at which the source would panic, changes nothing.
unfoldable pub count_at : ℕ → List ℕ → List ℕ
count_at i [] = []
count_at zero (x ∷ xs) = suc x ∷ xs
count_at (suc i) (x ∷ xs) = x ∷ count_at i xs

unfoldable pub add_histogram_observation : List ℕ → ℕ → List ℕ
unfolding resize position_of count_at
add_histogram_observation histogram value =
    count_at (position_of value throughput_latency_bounds_millis)
      (resize (length throughput_latency_bounds_millis + 1) histogram)

module _ {ℓ} {A : Type ℓ} where
  unfoldable pub insert_by_key : (A → ℕ) → A → List A → List A
  insert_by_key key x [] = x ∷ []
  insert_by_key key x (y ∷ ys) =
      if ltb (key y) (key x) then y ∷ insert_by_key key x ys else x ∷ y ∷ ys

  -- `sort_by_key`, which is stable.
  unfoldable pub sort_by_key : (A → ℕ) → List A → List A
  unfolding insert_by_key
  sort_by_key key [] = []
  sort_by_key key (x ∷ xs) = insert_by_key key x (sort_by_key key xs)

  -- The element at `rposition(test)` changed in place; none where no element passes.
  unfoldable pub update_last : (A → Bool) → (A → A) → List A → Option (List A)
  update_last test f [] = none
  update_last test f (x ∷ xs) = elim (update_last test f xs) [
    | some ys ↦ some (x ∷ ys)
    | none ↦ if test x then some (f x ∷ xs) else none
  ]

-- The oldest buckets beyond the limit are dropped.
unfoldable pub limit_buckets : List ThroughputBucket → List ThroughputBucket
unfolding sort_by_key
limit_buckets buckets =
    if ltb throughput_bucket_limit (length buckets)
    then drop (length buckets - throughput_bucket_limit) (sort_by_key (λ b. b.bucket_at) buckets)
    else buckets

unfoldable pub prune_throughput_buckets : Pool → Timestamp → Pool × Bool
unfolding filter add limit_buckets
prune_throughput_buckets p now =
    let cutoff = now - throughput_bucket_ttl in
    let kept =
      filter (λ b. after (add b.bucket_at throughput_bucket_interval) cutoff)
        p.throughput_buckets in
    if length p.throughput_buckets == 0 then (p, false) else (
      record p { throughput_buckets = limit_buckets kept },
      not (length kept == length p.throughput_buckets) || ltb throughput_bucket_limit (length kept),
    )

abbrev pub no_bucket : Timestamp → String → ThroughputBucket
no_bucket at id = record {
  bucket_at = at;
  account_id = id;
  request_count = 0;
  success_count = 0;
  failure_count = 0;
  cancelled_count = 0;
  streaming_request_count = 0;
  usage_observed_request_count = 0;
  output_observed_request_count = 0;
  input_tokens = 0;
  cached_tokens = 0;
  output_tokens = 0;
  total_duration_millis = 0;
  duration_histogram = [];
}

abbrev pub one_if : Bool → ℕ
one_if b = if b then 1 else 0

abbrev pub only_if : Bool → ℕ → ℕ
only_if b n = if b then n else 0

-- One request in its bucket.
unfoldable pub count_request : ThroughputMeasurement → ℕ → ThroughputBucket → ThroughputBucket
unfolding add_histogram_observation
count_request m duration b = record b {
  request_count = b.request_count + 1;
  cancelled_count = b.cancelled_count + one_if m.cancelled;
  success_count = b.success_count + one_if (not m.cancelled && m.success);
  failure_count = b.failure_count + one_if (not m.cancelled && not m.success);
  streaming_request_count = b.streaming_request_count + one_if m.streaming;
  usage_observed_request_count = b.usage_observed_request_count + one_if m.usage.present;
  input_tokens = b.input_tokens + only_if m.usage.present m.usage.input_tokens;
  cached_tokens = b.cached_tokens + only_if m.usage.present m.usage.cached_tokens;
  output_observed_request_count = b.output_observed_request_count + one_if m.usage.output_present;
  output_tokens = b.output_tokens + only_if m.usage.output_present m.usage.output_tokens;
  total_duration_millis = b.total_duration_millis + duration;
  duration_histogram = add_histogram_observation b.duration_histogram duration;
}

abbrev pub completed_of : ThroughputMeasurement → Timestamp → Timestamp
completed_of m now = if is_zero m.completed_at then now else m.completed_at

unfoldable pub started_of : ThroughputMeasurement → Timestamp → Timestamp
started_of m completed_at =
    if is_zero m.started_at || before completed_at m.started_at then completed_at else m.started_at

-- The buckets with one changed in place, or with a new one.
abbrev pub or_new :
    List ThroughputBucket
    → ThroughputBucket
    → Option (List ThroughputBucket)
    → List ThroughputBucket
or_new buckets new none = buckets ++ new ∷ []
or_new buckets new (some updated) = updated

abbrev pub is_bucket : Timestamp → String → ThroughputBucket → Bool
is_bucket at id b = b.bucket_at == at && str_eq b.account_id id

-- The request is counted in the bucket of its account and minute, a new one if need be.
unfoldable pub count_in :
    Timestamp → ThroughputMeasurement → ℕ → List ThroughputBucket → List ThroughputBucket
unfolding update_last count_request
count_in bucket_at m duration buckets =
    or_new buckets (count_request m duration (no_bucket bucket_at m.account_id))
      (update_last (is_bucket bucket_at m.account_id) (count_request m duration) buckets)

unfoldable pub record_throughput_measurement : Pool → ThroughputMeasurement → Timestamp → Pool
unfolding started_of prune_throughput_buckets truncate count_in elapsed_millis limit_buckets
record_throughput_measurement p m now =
    let completed_at = completed_of m now in
    let q = (prune_throughput_buckets p completed_at).0 in
    let duration = elapsed_millis (started_of m completed_at) completed_at in
    record q {
      throughput_buckets = limit_buckets (
          count_in (truncate completed_at throughput_bucket_interval) m duration
            q.throughput_buckets);
    }

abbrev pub no_usage : PromptCacheUsage
no_usage = record {
  input_tokens = 0;
  cached_tokens = 0;
  cache_write_tokens = none;
  output_tokens = 0;
  output_present = false;
  present = false;
}

unfoldable pub begin_throughput_measurement : Pool → Bool → Timestamp → Pool × ThroughputMeasurement
begin_throughput_measurement p streaming now =
    let m : ThroughputMeasurement = record {
      started_at = now;
      completed_at = 0;
      account_id = "";
      streaming = streaming;
      success = false;
      cancelled = false;
      finished = false;
      usage = no_usage;
      model = "";
      cancel_reason = "";
    } in
    (record p { active_proxy_requests = p.active_proxy_requests + 1 }, m)

abbrev finish_one : Pool → Pool
finish_one p = record p { active_proxy_requests = p.active_proxy_requests - 1 }

unfoldable pub finish_throughput_measurement :
    Pool → Option ThroughputMeasurement → Timestamp → Pool × Option ThroughputMeasurement
unfolding record_throughput_measurement
finish_throughput_measurement p none now = (p, none)
finish_throughput_measurement p (some m) now =
    let ended = record m { finished = true; completed_at = completed_of m now } in
    if m.finished
    then (p, some m)
    else (record_throughput_measurement (finish_one p) ended now, some ended)

unfoldable pub discard_throughput_measurement :
    Pool → Option ThroughputMeasurement → Pool × Option ThroughputMeasurement
discard_throughput_measurement p none = (p, none)
discard_throughput_measurement p (some m) =
    if m.finished then (p, some m) else (finish_one p, some (record m { finished = true }))
