-- ===== src/Outcome/Tally.antt =====
-- The buckets of the throughput series of upstream/src/pool/outcome.rs: what a bucket counts adds up,
-- and recording a measurement keeps it so.
use codex_provider.Base.{
  ℕ, zero, suc, ◌+◌, ◌-◌, ◌≤◌, ◌<◌, ◌≡◌, refl, Bool, true, false, not, ◌&&◌, Option, none, some,
  inl, inr, List, [], ◌∷◌, length, All, All-append, All-drop, All-mono, All-filter, length-drop,
  arith, Bool-cases, ltb, ◌==◌,
}
use codex_provider.Time.{Timestamp}
use codex_provider.State.{Pool}
use codex_provider.State.Usage.{ThroughputMeasurement, ThroughputBucket}
use codex_provider.Outcome.Throughput.{
  throughput_bucket_limit, throughput_latency_bounds_millis, resize, position_of, count_at,
  add_histogram_observation, sort_by_key, limit_buckets, prune_throughput_buckets, no_bucket,
  count_request, count_in, or_new, is_bucket, record_throughput_measurement, one_if,
}
use codex_provider.Outcome.Update.{
  All-sort_by_key, length-sort_by_key, total, counted, When, update_last-All, update_last-total,
  total-append,
}

unfoldable pub sum : List ℕ → ℕ
sum [] = 0
sum (x ∷ xs) = x + sum xs

-- What a bucket counts adds up: each request is one of the three outcomes and one observation of the
-- histogram, and every other count is of some of the requests.
pub record Tallied (b : ThroughputBucket) : Type 0 where
  pub outcomes : b.request_count ≡ b.success_count + b.failure_count + b.cancelled_count
  pub observations : sum b.duration_histogram ≡ b.request_count
  pub bars : length b.duration_histogram ≤ 14
  pub streams : b.streaming_request_count ≤ b.request_count
  pub usages : b.usage_observed_request_count ≤ b.request_count
  pub outputs : b.output_observed_request_count ≤ b.request_count

length-resize : (n : ℕ) (xs : List ℕ) → length (resize n xs) ≡ n
unfolding resize
length-resize zero xs = refl
length-resize (suc n) [] = omega (arith, length-resize n [])
length-resize (suc n) (x ∷ xs) = omega (arith, length-resize n xs)

sum-resize : (n : ℕ) (xs : List ℕ) → length xs ≤ n → sum (resize n xs) ≡ sum xs
unfolding resize sum
sum-resize zero [] h = refl
sum-resize zero (x ∷ xs) h = omega (arith, h)
sum-resize (suc n) [] h = omega (arith, sum-resize n [] (omega arith))
sum-resize (suc n) (x ∷ xs) h = omega (arith, sum-resize n xs (omega (arith, h)))

position_of-le : (v : ℕ) (bounds : List ℕ) → position_of v bounds ≤ length bounds
unfolding position_of
position_of-le v [] = omega arith
position_of-le v (b ∷ bounds) = ground (arith, position_of-le v bounds)

sum-count_at : (i : ℕ) (xs : List ℕ) → i < length xs → sum (count_at i xs) ≡ sum xs + 1
unfolding count_at sum
sum-count_at i [] h = omega (arith, h)
sum-count_at zero (x ∷ xs) h = omega arith
sum-count_at (suc i) (x ∷ xs) h = omega (arith, sum-count_at i xs (omega (arith, h)))

length-count_at : (i : ℕ) (xs : List ℕ) → length (count_at i xs) ≡ length xs
unfolding count_at
length-count_at i [] = refl
length-count_at zero (x ∷ xs) = refl
length-count_at (suc i) (x ∷ xs) = omega (arith, length-count_at i xs)

count_at-resize :
    (i : ℕ) (xs : List ℕ)
    → i ≤ 13
    → length xs ≤ 14
    → (sum (count_at i (resize 14 xs)) ≡ sum xs + 1) × (length (count_at i (resize 14 xs)) ≤ 14)
count_at-resize i xs le h =
    let long = length-resize 14 xs in
    (
      omega (arith, sum-count_at i (resize 14 xs) (omega (arith, long, le)), sum-resize 14 xs h),
      omega (arith, length-count_at i (resize 14 xs), long),
    )

observed :
    (xs : List ℕ) (v : ℕ)
    → length xs ≤ 14
    → (sum (add_histogram_observation xs v) ≡ sum xs + 1)
      × (length (add_histogram_observation xs v) ≤ 14)
unfolding add_histogram_observation
observed xs v h =
    let bounds = throughput_latency_bounds_millis in
    count_at-resize (position_of v bounds) xs (position_of-le v bounds) h

-- One request is one outcome.
one_outcome :
    (cancelled success : Bool) (r s f c : ℕ)
    → r ≡ s + f + c
    → r + 1
      ≡ s
        + one_if (not cancelled && success)
        + (f + one_if (not cancelled && not success))
        + (c + one_if cancelled)
one_outcome true success r s f c h = omega (arith, h)
one_outcome false true r s f c h = omega (arith, h)
one_outcome false false r s f c h = omega (arith, h)

one_more : (b : Bool) (n r : ℕ) → n ≤ r → n + one_if b ≤ r + 1
one_more true n r h = omega (arith, h)
one_more false n r h = omega (arith, h)

count_request-Tallied :
    (m : ThroughputMeasurement) (duration : ℕ) (b : ThroughputBucket)
    → Tallied b
    → Tallied (count_request m duration b)
unfolding count_request
count_request-Tallied m duration b t =
    let (more, long) = observed b.duration_histogram duration t.bars in
    record {
      outcomes = one_outcome m.cancelled m.success _ _ _ _ t.outcomes;
      observations = omega (arith, more, t.observations);
      bars = long;
      streams = one_more m.streaming _ _ t.streams;
      usages = one_more m.usage.present _ _ t.usages;
      outputs = one_more m.usage.output_present _ _ t.outputs;
    }

no_bucket-Tallied : (at : Timestamp) (id : _) → Tallied (no_bucket at id)
unfolding sum
no_bucket-Tallied at id = record {
  outcomes = refl;
  observations = refl;
  bars = omega arith;
  streams = omega arith;
  usages = omega arith;
  outputs = omega arith;
}

module _ (buckets : List ThroughputBucket) (new : ThroughputBucket) where
  or_new-Tallied :
      (found : Option (List ThroughputBucket))
      → All Tallied buckets
      → Tallied new
      → When (All Tallied) found
      → All Tallied (or_new buckets new found)
  or_new-Tallied none h fresh w = All-append Tallied buckets (new ∷ []) h (fresh, tt)
  or_new-Tallied (some ys) h fresh w = w

  or_new-total :
      (found : Option (List ThroughputBucket))
      → new.request_count ≡ 1
      → When (λ ys. total counted ys ≡ total counted buckets + 1) found
      → total counted (or_new buckets new found) ≡ total counted buckets + 1
  unfolding total
  or_new-total none one w = omega (arith, total-append counted buckets (new ∷ []), one)
  or_new-total (some ys) one w = w

module _ (at : Timestamp) (m : ThroughputMeasurement) (duration : ℕ) where
  count_in-Tallied :
      (buckets : List ThroughputBucket)
      → All Tallied buckets
      → All Tallied (count_in at m duration buckets)
  unfolding count_in
  count_in-Tallied buckets h =
      or_new-Tallied buckets _ _ h
        (count_request-Tallied m duration _ (no_bucket-Tallied at m.account_id))
        (update_last-All (is_bucket at m.account_id) (count_request m duration) Tallied
          (count_request-Tallied m duration) buckets h)

  -- The request is counted once.
  count_in-total :
      (buckets : List ThroughputBucket)
      → total counted (count_in at m duration buckets) ≡ total counted buckets + 1
  unfolding count_in count_request
  count_in-total buckets = or_new-total buckets _ _ refl (
      update_last-total (is_bucket at m.account_id) (count_request m duration) counted (λ b. refl)
        buckets)

limit_buckets-Tallied :
    (buckets : List ThroughputBucket) → All Tallied buckets → All Tallied (limit_buckets buckets)
unfolding limit_buckets
limit_buckets-Tallied buckets h = elim (Bool-cases (ltb throughput_bucket_limit (length buckets))) [
  | inl e ↦ rw e (All-drop Tallied _ _ (All-sort_by_key Tallied (λ b. b.bucket_at) buckets h))
  | inr e ↦ rw e h
]

limit_buckets-le :
    (buckets : List ThroughputBucket) → length (limit_buckets buckets) ≤ throughput_bucket_limit
unfolding limit_buckets
limit_buckets-le buckets = elim (Bool-cases (ltb throughput_bucket_limit (length buckets))) [
  | inl e ↦ rw e (
      omega (
        arith,
        length-drop (length buckets - throughput_bucket_limit)
            (sort_by_key (λ b. b.bucket_at) buckets),
        length-sort_by_key (λ b. b.bucket_at) buckets,
      ))
  | inr e ↦ rw e (not_beyond (length buckets) e)
]
  where
    not_beyond : (n : ℕ) → ltb throughput_bucket_limit n ≡ false → n ≤ throughput_bucket_limit
    not_beyond n e = ground (arith, e)

prune-Tallied :
    (p : Pool) (now : Timestamp)
    → All Tallied p.throughput_buckets
    → All Tallied (prune_throughput_buckets p now).0.throughput_buckets
unfolding prune_throughput_buckets
prune-Tallied p now h = elim (Bool-cases (length p.throughput_buckets == 0)) [
  | inl e ↦ rw e h
  | inr e ↦ rw e (limit_buckets-Tallied _ (All-mono (λ b k. k.0) _ (All-filter Tallied _ _ h)))
]

pub prune-active :
    (p : Pool) (now : Timestamp)
    → (prune_throughput_buckets p now).0.active_proxy_requests ≡ p.active_proxy_requests
unfolding prune_throughput_buckets
prune-active p now = elim (Bool-cases (length p.throughput_buckets == 0)) [
  | inl e ↦ rw e refl
  | inr e ↦ rw e refl
]

pub record-Settled :
    (p : Pool) (m : ThroughputMeasurement) (now : Timestamp)
    → All Tallied p.throughput_buckets
    → let q = record_throughput_measurement p m now in
      All Tallied q.throughput_buckets
      × (length q.throughput_buckets ≤ throughput_bucket_limit)
      × (q.active_proxy_requests ≡ p.active_proxy_requests)
unfolding record_throughput_measurement
record-Settled p m now h = (
  limit_buckets-Tallied _ (count_in-Tallied _ m _ _ (prune-Tallied p _ h)),
  search limit_buckets-le,
  prune-active p _,
)
