-- ===== src/Proxy/Attempt.antt =====
-- upstream/src/pool/proxy.rs, `attempts`: one round of the loop and the loop. Each function is one of
-- the branches, in the order of the source. Log lines are left out.
use codex_provider.Base.{
  ℕ, zero, suc, ◌+◌, String, Bool, true, false, ◌&&◌, ◌||◌, not, Option, none, some, [], ◌∷◌, ltb,
  leb, ◌==◌, if◌then◌else◌, unwrap_or, Result, ok, err,
}
use codex_provider.Base.Text.{is_empty, trim}
use codex_provider.Time.{Timestamp, seconds}
use codex_provider.Plan.{among}
use codex_provider.State.{Pool, Account}
use codex_provider.State.Usage.{ProxyResponseInfo}
use codex_provider.Select.{RoutingDecision, SelectError, Draw}
use codex_provider.Select.Choice.{select_account_for_route, note_session_placement}
use codex_provider.Outcome.{
  mark_failure, mark_cooldown, mark_account_auth_failure, mark_retryable_terminal_response_failure,
  note_capacity_event, reason_or,
}
use codex_provider.Quota.{sanitized_error_code}
use codex_provider.Outcome.Whole.{
  exclude, spend_capacity_retry_round, mark_terminal_response_failure,
  mark_success_with_measurement,
}
use codex_provider.Proxy.{
  Tuning, Response, Answer, is_within, has_another, client_closed, credential_unusable, unreachable,
  incompletable, answered, Reply, error_reply, relayed, closed, Budget, Attempts, End, Step, again,
  ended, overload_same_account_retry_limit, transport_same_account_retry_limit,
  upstream_5xx_failover_after, retry_after_or_default, delta, transient_overload_code,
  stream_retry_failover_outcome, has_preferred_account, has_upstream_base, is_success,
  is_server_error, all_failed, selection_reply,
}

abbrev pub spend_attempt : Budget → Budget
spend_attempt b = record b { spent = b.spent + 1 }

abbrev pub spend_transport : Budget → Budget
spend_transport b = record b { transport_retries = b.transport_retries + 1 }

abbrev pub spend_overload : Budget → Budget
spend_overload b = record b { overload_retries = b.overload_retries + 1 }

-- A round of waiting, which gives back the attempts of the accounts that it restores.
abbrev pub spend_round : Budget → ℕ → Budget
spend_round b restored = record b {
  spent = b.spent + 1;
  given_back = b.given_back + restored;
  capacity_retries = b.capacity_retries + 1;
}

abbrev stop : Attempts → Pool → Reply → Step
stop s p reply = ended (record { pool = p; throughput = s.throughput; reply = reply })

abbrev pub cancel : Attempts → Pool → String → Step
cancel s p reason = ended (record {
  pool = p;
  throughput = record s.throughput { cancelled = true; cancel_reason = reason };
  reply = closed;
})

-- On to another account, for `outcome`.
abbrev move_on : Attempts → Pool → String → String → Step
move_on s p id outcome = again (record s {
  pool = p;
  budget = spend_attempt s.budget;
  failover_from = id;
  failover_outcome = outcome;
})

abbrev fail_over : Attempts → Pool → String → String → Step
fail_over s p id outcome = move_on (record s { excluded = exclude id s.excluded }) p id outcome

-- The same account again.
abbrev pub retry : Attempts → Pool → Budget → Step
retry s p budget = again (record s { pool = p; budget = budget })

unfoldable pub on_unreachable : Attempts → String → String → Bool → Timestamp → Step
unfolding mark_failure exclude
on_unreachable s model id waited now =
    if ltb s.budget.transport_retries transport_same_account_retry_limit
    then (if waited
        then retry s s.pool (spend_transport s.budget)
        else cancel s s.pool "client_closed_during_transport_retry")
    else fail_over s (mark_failure s.pool id model "upstream_transport_error" (seconds 30) now).0 id
        "transport_failover"

-- A refused credential, for the error code of the answer if there is one.
unfoldable pub on_refused_credential : Attempts → String → String → String → Timestamp → Step
unfolding mark_account_auth_failure exclude
on_refused_credential s model id code now =
    fail_over s
      (mark_account_auth_failure s.pool id model (reason_or code "account_auth_failed") now) id
      "auth_failover"

-- One capacity round: the pool after the marked refusal waits, and every account that refused for
-- capacity is restored.
unfoldable pub capacity_round : Attempts → Pool → String → Bool → Timestamp → Step
unfolding spend_capacity_retry_round
capacity_round s p model waited now =
    let (q, rest, capacity, restored) =
      spend_capacity_retry_round p model s.excluded s.capacity_excluded now in
    if waited
    then again (record s {
      pool = q;
      excluded = rest;
      capacity_excluded = capacity;
      budget = spend_round s.budget restored;
    })
    else cancel s q "client_closed_during_capacity_wait"

-- The variables after an account refused for capacity.
abbrev pub capacity_refused : Attempts → String → Attempts
capacity_refused s id = record s {
  excluded = exclude id s.excluded;
  capacity_excluded = exclude id s.capacity_excluded;
}

unfoldable pub on_rate_limited :
    Tuning → ℕ → Attempts → String → String → Response → Timestamp → Step
unfolding exclude has_preferred_account retry_after_or_default delta mark_failure capacity_round
on_rate_limited tuning limit s model id r now =
    let refused = capacity_refused s id in
    let wait = delta (retry_after_or_default r.retry_after (seconds 60)) in
    let advertised = retry_after_or_default r.retry_after 0 in
    let marked = (mark_failure s.pool id model "rate_limited" wait now).0 in
    if has_another s.budget limit && has_preferred_account s.pool model refused.excluded now
    then move_on refused marked id "rate_limit_failover"
    else if ltb s.budget.capacity_retries tuning.capacity_retry_limit
        && leb advertised tuning.capacity_retry_max_wait
    then capacity_round refused (mark_failure s.pool id model "rate_limited" 0 now).0 model r.waited
        now
    else move_on refused marked id "rate_limit_failover"

unfoldable pub on_server_error : Attempts → String → String → Response → Timestamp → Step
unfolding exclude has_preferred_account retry_after_or_default delta mark_failure mark_cooldown trim
on_server_error s model id r now =
    let wait = delta (retry_after_or_default r.retry_after (seconds 10)) in
    let (p, consecutive) = mark_failure s.pool id model "upstream_5xx" 0 now in
    let others = exclude id s.excluded in
    if not (is_empty (trim r.retry_after))
    then fail_over s (mark_failure s.pool id model "upstream_5xx" wait now).0 id
        "repeated_5xx_failover"
    else if ltb consecutive upstream_5xx_failover_after
    then stop s p (error_reply 502 "bad_gateway" "selected upstream account failed transiently")
    else if not (has_preferred_account p model others now)
    then stop s p (error_reply 502 "bad_gateway" "selected upstream account failed repeatedly")
    else fail_over s (mark_cooldown p id model "upstream_5xx" wait now) id "repeated_5xx_failover"

-- The answer that the client is given, settled.
unfoldable pub deliver :
    Attempts → String → String → Response → ProxyResponseInfo → Timestamp → Step
unfolding mark_terminal_response_failure mark_success_with_measurement
deliver s model id r read now =
    let info : ProxyResponseInfo = record read {
      failover_from_account_id = s.failover_from;
      failover_outcome = s.failover_outcome;
    } in
    let failed =
      among info.terminal_event ("error" ∷ "response.failed" ∷ "response.incomplete" ∷ []) in
    let measured = record s.throughput {
      completed_at = info.completed_at;
      usage = info.usage;
      success = not failed && is_success r.status;
    } in
    let (p, after) =
      if failed
      then mark_terminal_response_failure s.pool s.route model id info (some measured) true now
      else mark_success_with_measurement s.pool s.route model id info (some measured) now in
    ended (record { pool = p; throughput = unwrap_or after measured; reply = relayed r.status })

-- An answer that failed before anything reached the client.
unfoldable pub on_stream_failure :
    Tuning → ℕ → Attempts → String → String → Response → ProxyResponseInfo → Timestamp → Step
unfolding transient_overload_code mark_retryable_terminal_response_failure exclude
    has_preferred_account stream_retry_failover_outcome capacity_round deliver
on_stream_failure tuning limit s model id r info now =
    let code = info.terminal_error_code in
    let refused = capacity_refused s id in
    let spared = mark_retryable_terminal_response_failure s.pool id model code false now in
    if transient_overload_code code
      && ltb s.budget.overload_retries overload_same_account_retry_limit
    then (if r.waited
        then retry s spared (spend_overload s.budget)
        else cancel s spared "client_closed_during_overload_retry")
    else if has_another s.budget limit && has_preferred_account s.pool model refused.excluded now
    then move_on refused (mark_retryable_terminal_response_failure s.pool id model code true now) id
        (stream_retry_failover_outcome info.terminal_failure_class)
    else if ltb s.budget.capacity_retries tuning.capacity_retry_limit
    then capacity_round refused spared model r.waited now
    else deliver refused model id r info now

-- An answer that is no refusal, as far as it was read.
unfoldable pub on_read :
    Tuning → ℕ → Attempts → String → String → Response → Option ProxyResponseInfo → Timestamp → Step
unfolding mark_failure on_stream_failure deliver
on_read tuning limit s model id r none now =
    stop s (mark_failure s.pool id model "upstream_response_error" (seconds 30) now).0
      (relayed r.status)
on_read tuning limit s model id r (some info) now =
    if r.retryable_terminal_failure
    then on_stream_failure tuning limit s model id r info now
    else deliver s model id r info now

-- outcome.rs `log_codex_verdict_for_http`, which also feeds the capacity watch.
unfoldable pub log_codex_verdict_for_http :
    Attempts → String → String → String → Timestamp → Attempts
unfolding sanitized_error_code note_capacity_event
log_codex_verdict_for_http s model id code now = record s {
  pool = note_capacity_event s.pool id model (sanitized_error_code code) now;
}

unfoldable pub on_answered : Tuning → ℕ → Attempts → String → String → Response → Timestamp → Step
unfolding on_refused_credential on_rate_limited on_server_error on_read log_codex_verdict_for_http
on_answered tuning limit s model id r now =
    let logged = log_codex_verdict_for_http s model id r.logged_code now in
    if r.status == 401 || r.status == 403
    then on_refused_credential logged model id r.error_code now
    else if (r.status == 429 || is_server_error r.status) && r.gateway_unknown_model
    then stop s s.pool
        (error_reply 404 "model_not_found" "requested model is not available through this pool")
    else if r.status == 429
    then on_rate_limited tuning limit logged model id r now
    else if is_server_error r.status
    then on_server_error logged model id r now
    else on_read tuning limit s model id r r.info now

unfoldable pub on_forwarded : Tuning → ℕ → Attempts → String → String → Answer → Timestamp → Step
unfolding on_unreachable on_refused_credential on_answered
on_forwarded tuning limit s model id client_closed now =
    cancel s s.pool "client_closed_waiting_for_upstream"
on_forwarded tuning limit s model id credential_unusable now =
    on_refused_credential s model id "" now
on_forwarded tuning limit s model id (unreachable waited) now = on_unreachable s model id waited now
on_forwarded tuning limit s model id (incompletable error) now =
    stop s s.pool (error_reply 400 "invalid_request" error)
on_forwarded tuning limit s model id (answered r) now = on_answered tuning limit s model id r now

abbrev pub placed : Attempts → String → String → Timestamp → Attempts
placed s id model now = record s {
  pool = note_session_placement s.pool s.route.balance_key id now;
  throughput = record s.throughput { account_id = id; model = model };
}

-- An attempt on an account that was selected.
unfoldable pub on_candidate : Tuning → ℕ → Attempts → String → Account → Answer → Timestamp → Step
unfolding note_session_placement has_upstream_base on_forwarded
on_candidate tuning limit s model candidate answer now =
    let id = candidate.id in
    let t = placed s id model now in
    if not (has_upstream_base tuning candidate)
    then stop t t.pool (error_reply 502 "bad_gateway" "selected account has no upstreamBaseUrl")
    else on_forwarded tuning limit t model id answer now

module _ (draw : Draw) (tuning : Tuning) (limit : ℕ) (model : String) where
  -- What follows a selection.
  unfoldable pub on_selected :
      Attempts → Pool × RoutingDecision × Result SelectError Account → Answer → Timestamp → Step
  unfolding on_candidate selection_reply
  on_selected s (p, route, ok candidate) answer now =
      on_candidate tuning limit (record s { pool = p; route = route }) model candidate answer now
  on_selected s (p, route, err e) answer now = stop s p (selection_reply e s.excluded)

  -- One round of the loop.
  unfoldable pub attempt_step : Attempts → Answer → Timestamp → Step
  attempt_step s answer now =
      on_selected s (select_account_for_route draw s.pool s.route model s.excluded now) answer now

  -- The loop, on fuel; `answers` are what comes of each round and when. No result is no fuel left.
  unfoldable pub attempts : ℕ → Attempts → (ℕ → Timestamp × Answer) → Option End
  attempts zero s answers = none
  attempts (suc fuel) s answers =
      let (now, answer) = answers fuel in
      if is_within s.budget limit
      then elim (attempt_step s answer now) [ again t ↦ attempts fuel t answers | ended e ↦ some e ]
      else some (record { pool = s.pool; throughput = s.throughput; reply = all_failed })
