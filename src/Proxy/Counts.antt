-- ===== src/Proxy/Counts.antt =====
-- The end of a measurement in upstream/src/pool/outcome.rs, which takes its request from those under
-- way: once, whatever the outcome.
use codex_provider.Base.{
  ℕ, ◌+◌, ◌-◌, unwrap_or, arith, Bool-cases, inl, inr, ◌≡◌, ◌∙◌, refl, String, Bool, true, false,
  Option, some, if◌then◌else◌, str_eq,
}
use codex_provider.Time.{Timestamp}
use codex_provider.State.{Pool}
use codex_provider.State.Usage.{ProxyResponseInfo, ThroughputMeasurement}
use codex_provider.Select.{RoutingDecision}
use codex_provider.Outcome.{note_capacity_event}
use codex_provider.Outcome.Success.{bind_success}
use codex_provider.Outcome.Whole.{
  settle_account, terminal_class, mark_terminal_response_failure, mark_success_with_measurement,
  terminal_reason, affinities_of, websocket_connection_limit_reached_code,
}
use codex_provider.Outcome.Throughput.{
  finish_throughput_measurement, discard_throughput_measurement, record_throughput_measurement,
  completed_of,
}
use codex_provider.Outcome.Traffic.{is_open}
use codex_provider.Outcome.Tally.{prune-active}
use codex_provider.Proxy.Frame.{
  active, note_capacity_event-active, settle_account-active, settle_terminal-active,
  settle_success-active, bind_success-active,
}

-- The requests under way are this one, if its measurement is not finished, and `n` others.
abbrev pub Counts : ℕ → Pool → ThroughputMeasurement → Type 0
Counts n p m = active p ≡ is_open m + n

module _ (n : ℕ) (p : Pool) (m : ThroughputMeasurement) (now : Timestamp) where
  -- A measurement that ends where it has not ended before.
  ends_once :
      (q : Pool) (ended : ThroughputMeasurement) (done : Bool)
      → m.finished ≡ done
      → Counts n p m
      → active q ≡ active p - 1
      → ended.finished ≡ true
      → let r : Pool × Option ThroughputMeasurement =
          if done then (p, some m) else (q, some ended) in
        (active r.0 ≡ n) × Counts n r.0 (unwrap_or r.1 m)
  unfolding is_open
  ends_once q ended true e c less f = (omega (arith, rw e at c), c)
  ends_once q ended false e c less f =
      let same : active q ≡ n = omega (arith, less, rw e at c) in (same, rw f (omega (arith, same)))

  pub finish-Counts :
      Counts n p m
      → let r = finish_throughput_measurement p (some m) now in
        (active r.0 ≡ n) × Counts n r.0 (unwrap_or r.1 m)
  unfolding finish_throughput_measurement record_throughput_measurement
  finish-Counts c =
      let ended = record m { finished = true; completed_at = completed_of m now } in
      let q = record p { active_proxy_requests = p.active_proxy_requests - 1 } in
      ends_once (record_throughput_measurement q ended now) ended m.finished refl c
        (prune-active q _) refl

  discard-Counts :
      Counts n p m
      → let r = discard_throughput_measurement p (some m) in
        (active r.0 ≡ n) × Counts n r.0 (unwrap_or r.1 m)
  unfolding discard_throughput_measurement
  discard-Counts c =
      ends_once (record p { active_proxy_requests = p.active_proxy_requests - 1 })
        (record m { finished = true }) m.finished refl c refl refl

  pub success-Counts :
      (route : RoutingDecision) (model id : String) (info : ProxyResponseInfo)
      → Counts n p m
      → let r = mark_success_with_measurement p route model id info (some m) now in
        Counts n r.0 (unwrap_or r.1 m)
  unfolding mark_success_with_measurement
  success-Counts route model id info c =
      let q = (finish_throughput_measurement p (some m) now).0 in
      let bound = bind_success q route model id info.response_id now in
      settle_success-active bound route model id _ info (affinities_of q route model id) now
      ∙ bind_success-active q route model id info.response_id now
      ∙ (finish-Counts c).1

  pub terminal-Counts :
      (route : RoutingDecision) (model id : String) (info : ProxyResponseInfo) (cool_down : Bool)
      → Counts n p m
      → let r = mark_terminal_response_failure p route model id info (some m) cool_down now in
        Counts n r.0 (unwrap_or r.1 m)
  unfolding mark_terminal_response_failure
  terminal-Counts route model id info cool_down c =
      let reason = terminal_reason info in
      let q = (finish_throughput_measurement p (some m) now).0 in
      let noted = note_capacity_event q id model reason now in
      let settled = settle_account noted id model (terminal_class info) reason cool_down now in
      elim (Bool-cases (str_eq info.terminal_error_code websocket_connection_limit_reached_code)) [
        | inl e ↦ rw e ((discard-Counts c).1)
        | inr e ↦ rw e (
            settle_terminal-active settled route model id info now
            ∙ settle_account-active noted id model (terminal_class info) reason cool_down now
            ∙ note_capacity_event-active q id model reason now
            ∙ (finish-Counts c).1)
      ]
