-- ===== src/Proxy/Serve.antt =====
-- upstream/src/pool/proxy.rs, `proxy`: a request around the loop, which is measured from its start to
-- its end. The rewriting of the request before the loop is in Adapt.
use codex_provider.Base.{ℕ, String, Bool, Option, none, some, []}
use codex_provider.Time.{Timestamp}
use codex_provider.State.{Pool}
use codex_provider.State.Usage.{ThroughputMeasurement}
use codex_provider.Select.{RoutingDecision, Draw}
use codex_provider.Outcome.Throughput.{begin_throughput_measurement, finish_throughput_measurement}
use codex_provider.Proxy.{Tuning, Answer, Reply, Budget, Attempts, End}
use codex_provider.Proxy.Attempt.{attempts}

abbrev pub unspent : Budget
unspent = record {
  spent = 0;
  given_back = 0;
  capacity_retries = 0;
  overload_retries = 0;
  transport_retries = 0;
}

-- The variables of the loop at its start.
abbrev pub start_of : Pool → RoutingDecision → ThroughputMeasurement → Attempts
start_of p route m = record {
  pool = p;
  route = route;
  excluded = [];
  capacity_excluded = [];
  budget = unspent;
  failover_from = "";
  failover_outcome = "";
  throughput = m;
}

-- `finish_throughput_measurement` after the loop.
unfoldable pub settle : Timestamp → Option End → Option (Pool × Reply)
unfolding finish_throughput_measurement
settle now none = none
settle now (some e) =
    some ((finish_throughput_measurement e.pool (some e.throughput) now).0, e.reply)

module _ (draw : Draw) (tuning : Tuning) (limit : ℕ) (model : String) where
  unfoldable pub proxy :
      ℕ
      → Pool
      → RoutingDecision
      → Bool
      → Timestamp
      → (ℕ → Timestamp × Answer)
      → Timestamp
      → Option (Pool × Reply)
  unfolding begin_throughput_measurement attempts settle
  proxy fuel p route streaming begun answers over =
      let (q, m) = begin_throughput_measurement p streaming begun in
      settle over (attempts draw tuning limit model fuel (start_of q route m) answers)
