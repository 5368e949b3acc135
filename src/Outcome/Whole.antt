-- ===== src/Outcome/Whole.antt =====
-- upstream/src/pool/outcome.rs: a request's outcome as a whole, which settles its measurement, the
-- account, the statistics and the diagnostics in one step; and a round of waiting for capacity.
use codex_provider.Base.Maps.{get}
use codex_provider.Base.Text.{is_empty}
use codex_provider.Base.{
  ℕ, suc, ◌+◌, String, Bool, false, ◌&&◌, ◌||◌, not, Option, none, some, List, [], ◌∷◌, filter,
  if◌then◌else◌, str_eq,
}
use codex_provider.Time.{Timestamp, add}
use codex_provider.Quota.{sanitized_error_code}
use codex_provider.Affinity.{put_state, save, thread_binding_state_key}
use codex_provider.State.{Pool, RuntimeState}
use codex_provider.State.Bindings.{StickySession, ThreadBinding}
use codex_provider.State.Usage.{ThroughputMeasurement, ProxyResponseInfo}
use codex_provider.Select.{RoutingDecision, Excluded, is_excluded}
use codex_provider.Outcome.{
  note_failure_health, append_cooldown, quarantine_credential, note_capacity_event,
  retryable_terminal_cooldown, reason_or, clear_capacity_cooldowns,
}
use codex_provider.Outcome.Success.{bind_success}
use codex_provider.Outcome.Throughput.{
  finish_throughput_measurement, discard_throughput_measurement,
}
use codex_provider.Outcome.Cache.{Affinities, record_prompt_cache_result, note_unrecognized_failure}
use codex_provider.Outcome.Events.{routing_outcome, append_routing_cache_event}

abbrev pub websocket_connection_limit_reached_code : String
websocket_connection_limit_reached_code = "websocket_connection_limit_reached"

unfoldable pub terminal_reason : ProxyResponseInfo → String
unfolding sanitized_error_code
terminal_reason info =
    if str_eq info.terminal_event "response.incomplete"
    then "stream_incomplete"
    else reason_or (sanitized_error_code info.terminal_error_code) "upstream_response_failed"

abbrev pub terminal_class : ProxyResponseInfo → String
terminal_class info = reason_or info.terminal_failure_class "unknown"

-- What the class of a terminal failure does to the account.
unfoldable pub settle_account : Pool → String → String → String → String → Bool → Timestamp → Pool
unfolding note_failure_health append_cooldown retryable_terminal_cooldown quarantine_credential add
settle_account p id model class reason cool_down now =
    let noted = note_failure_health p id reason now in
    if str_eq class "capacity" || str_eq class "transient"
    then (if cool_down
        then append_cooldown noted id model reason (add now (retryable_terminal_cooldown reason))
            now
        else noted)
    else if str_eq class "authentication"
    then quarantine_credential noted id model reason now
    else p

abbrev pub no_affinities : Affinities
no_affinities = record {
  parent_affinity_hit = false;
  parent_affinity_fallback = false;
  lineage_failover = false;
}

unfoldable pub count_terminal : RuntimeState → String → RuntimeState
count_terminal s event = record s {
  request_count = s.request_count + 1;
  failure_count = s.failure_count + 1;
  upstream_response_failed_count =
      s.upstream_response_failed_count + (if str_eq event "response.failed" then 1 else 0);
  stream_incomplete_count =
      s.stream_incomplete_count + (if str_eq event "response.incomplete" then 1 else 0);
}

-- The statistics and the diagnostic of a terminal failure.
unfoldable pub settle_terminal :
    Pool → RoutingDecision → String → String → ProxyResponseInfo → Timestamp → Pool
unfolding record_prompt_cache_result note_unrecognized_failure append_routing_cache_event
    count_terminal
settle_terminal p route model id info now =
    let q =
      record_prompt_cache_result p id model route.identity info.usage no_affinities
        "upstream_response_failed" now in
    let r =
      if str_eq (terminal_class info) "unknown"
      then note_unrecognized_failure q id model route.identity
      else q in
    let s =
      append_routing_cache_event r route model id info.failover_from_account_id
        "upstream_response_failed" info now in
    save (put_state s (count_terminal s.state info.terminal_event)) now

unfoldable pub mark_terminal_response_failure :
    Pool
    → RoutingDecision
    → String
    → String
    → ProxyResponseInfo
    → Option ThroughputMeasurement
    → Bool
    → Timestamp
    → Pool × Option ThroughputMeasurement
unfolding finish_throughput_measurement discard_throughput_measurement note_capacity_event
    terminal_reason settle_account settle_terminal
mark_terminal_response_failure p route model id info measurement cool_down now =
    let reason = terminal_reason info in
    let (q, ended) = finish_throughput_measurement p measurement now in
    let noted = note_capacity_event q id model reason now in
    let settled = settle_account noted id model (terminal_class info) reason cool_down now in
    if str_eq info.terminal_error_code websocket_connection_limit_reached_code
    then discard_throughput_measurement p measurement
    else (settle_terminal settled route model id info now, ended)

abbrev account_of : Option StickySession → String
account_of none = ""
account_of (some s) = s.account_id

abbrev thread_account_of : Option ThreadBinding → String
thread_account_of none = ""
thread_account_of (some b) = b.account_id

abbrev is_other : String → String → Bool
is_other prior id = not (is_empty prior) && not (str_eq prior id)

-- What the request did to its affinities, read before its bindings are written.
unfoldable pub affinities_of : Pool → RoutingDecision → String → String → Affinities
unfolding get thread_binding_state_key
affinities_of p route model id =
    let prior = account_of (get route.sticky_key p.sticky_sessions) in
    let key = thread_binding_state_key model route.identity.thread_id in
    let thread = thread_account_of (get key p.thread_bindings) in
    let hit =
      route.parent_affinity_attempted
      && not (is_empty route.lineage_account_id)
      && str_eq route.lineage_account_id id in
    record {
      parent_affinity_hit = hit;
      parent_affinity_fallback = route.parent_affinity_attempted && not hit;
      lineage_failover =
          (route.identity.is_subagent
            && (is_other prior id
                || (not (is_empty route.identity.thread_id) && is_other thread id)))
          || (route.parent_affinity_attempted && is_other route.lineage_account_id id);
    }

-- The statistics and the diagnostic of a success.
unfoldable pub settle_success :
    Pool
    → RoutingDecision
    → String
    → String
    → String
    → ProxyResponseInfo
    → Affinities
    → Timestamp
    → Pool
unfolding routing_outcome record_prompt_cache_result append_routing_cache_event
settle_success p route model id prior info a now =
    let (outcome, failover_from) = routing_outcome p route model id prior info a now in
    let q = record_prompt_cache_result p id model route.identity info.usage a outcome now in
    let r = append_routing_cache_event q route model id failover_from outcome info now in
    save
      (put_state r (record r.state {
        request_count = r.request_count + 1;
        success_count = r.success_count + 1;
      }))
      now

unfoldable pub mark_success_with_measurement :
    Pool
    → RoutingDecision
    → String
    → String
    → ProxyResponseInfo
    → Option ThroughputMeasurement
    → Timestamp
    → Pool × Option ThroughputMeasurement
unfolding finish_throughput_measurement get affinities_of bind_success settle_success
mark_success_with_measurement p route model id info measurement now =
    let (q, ended) = finish_throughput_measurement p measurement now in
    let prior = account_of (get route.sticky_key q.sticky_sessions) in
    let a = affinities_of q route model id in
    let bound = bind_success q route model id info.response_id now in
    (settle_success bound route model id prior info a now, ended)

-- The keys of a `HashMap<String, bool>` whose values are all true.
unfoldable pub exclude : String → Excluded → Excluded
unfolding is_excluded
exclude id excluded = if is_excluded excluded id then excluded else id ∷ excluded

-- The loop of `spend_capacity_retry_round`, and how many it restores.
unfoldable pub restore : List String → Excluded → Excluded × ℕ
unfolding is_excluded filter
restore [] excluded = (excluded, 0)
restore (id ∷ ids) excluded =
    let removed =
      if is_excluded excluded id
      then filter (λ other. not (str_eq other id)) excluded
      else excluded in
    let (rest, n) = restore ids removed in (rest, if is_excluded excluded id then suc n else n)

-- What `spend_capacity_retry_round` does before it waits; the wait is the caller's.
unfoldable pub spend_capacity_retry_round :
    Pool → String → Excluded → Excluded → Timestamp → Pool × Excluded × Excluded × ℕ
unfolding restore clear_capacity_cooldowns
spend_capacity_retry_round p model excluded capacity_excluded now =
    let (rest, restored) = restore capacity_excluded excluded in
    (clear_capacity_cooldowns p capacity_excluded model now, rest, [], restored)
