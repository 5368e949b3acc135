-- ===== src/Proxy/Settled.antt =====
-- Every round of the loop of upstream/src/pool/proxy.rs keeps the count of the requests under way in
-- step with the measurement of its own request, so that a request is settled once.
use codex_provider.Base.{
  ℕ, ◌≡◌, ◌∙◌, [], ◌∷◌, String, Bool, true, false, ◌&&◌, ◌||◌, not, Option, none, some, inl, inr,
  Bool-cases, ltb, leb, ◌==◌, if◌then◌else◌, Result, ok, err, unwrap_or,
}
use codex_provider.Base.Text.{is_empty, trim}
use codex_provider.Plan.{among}
use codex_provider.Time.{Timestamp, seconds}
use codex_provider.State.{Pool, Account}
use codex_provider.State.Usage.{ProxyResponseInfo, ThroughputMeasurement}
use codex_provider.Quota.{sanitized_error_code}
use codex_provider.Select.{RoutingDecision, SelectError, Draw}
use codex_provider.Select.Choice.{select_account_for_route}
use codex_provider.Outcome.{mark_failure, mark_retryable_terminal_response_failure, reason_or}
use codex_provider.Outcome.Whole.{
  exclude, spend_capacity_retry_round, mark_terminal_response_failure,
  mark_success_with_measurement,
}
use codex_provider.Outcome.Traffic.{is_open}
use codex_provider.Proxy.{
  Tuning, Response, Answer, has_another, client_closed, credential_unusable, unreachable,
  incompletable, answered, Attempts, Step, again, ended, overload_same_account_retry_limit,
  transport_same_account_retry_limit, is_server_error, has_preferred_account, is_success,
  retry_after_or_default, upstream_5xx_failover_after, transient_overload_code, has_upstream_base,
  delta,
}
use codex_provider.Proxy.Attempt.{
  placed, capacity_refused, on_unreachable, on_refused_credential, capacity_round, on_rate_limited,
  on_server_error, deliver, on_stream_failure, on_answered, on_read, on_forwarded,
  log_codex_verdict_for_http, on_candidate, on_selected, attempt_step,
}
use codex_provider.Proxy.Frame.{
  active, placement-active, mark_failure-active, mark_cooldown-active, note_capacity_event-active,
  clear_capacity_cooldowns-active, mark_account_auth_failure-active, retryable-active,
  select-active,
}
use codex_provider.Proxy.Counts.{Counts, success-Counts, terminal-Counts}

-- The count after a step.
abbrev pub StepCounts : ℕ → Step → Type 0
StepCounts n (again t) = Counts n t.pool t.throughput
StepCounts n (ended e) = Counts n e.pool e.throughput

either_end-Counts :
    (n : ℕ) (m : ThroughputMeasurement) (b : Bool) (x y : Pool × Option ThroughputMeasurement)
    → Counts n x.0 (unwrap_or x.1 m)
    → Counts n y.0 (unwrap_or y.1 m)
    → let r = if b then x else y in Counts n r.0 (unwrap_or r.1 m)
either_end-Counts n m true x y c d = c
either_end-Counts n m false x y c d = d

module _ (n : ℕ) (s : Attempts) (model : String) (now : Timestamp)
    (c : Counts n s.pool s.throughput) where
  on_unreachable-Counts :
      (id : String) (waited : Bool) → StepCounts n (on_unreachable s model id waited now)
  unfolding on_unreachable is_open
  on_unreachable-Counts id waited =
      let failed =
        mark_failure-active s.pool id model "upstream_transport_error" (seconds 30) now in
      elim (Bool-cases (ltb s.budget.transport_retries transport_same_account_retry_limit)) [
        | inl e ↦ elim (Bool-cases waited) [ inl w ↦ rw (e, w) c | inr w ↦ rw (e, w) c ]
        | inr e ↦ rw e (failed ∙ c)
      ]

  on_refused_credential-Counts :
      (id code : String) → StepCounts n (on_refused_credential s model id code now)
  unfolding on_refused_credential
  on_refused_credential-Counts id code =
      mark_account_auth_failure-active s.pool id model (reason_or code "account_auth_failed") now
      ∙ c

  capacity_round-Counts :
      (p : Pool) (waited : Bool)
      → active p ≡ active s.pool
      → StepCounts n (capacity_round s p model waited now)
  unfolding capacity_round spend_capacity_retry_round is_open
  capacity_round-Counts p true same =
      clear_capacity_cooldowns-active p s.capacity_excluded model now ∙ same ∙ c
  capacity_round-Counts p false same =
      clear_capacity_cooldowns-active p s.capacity_excluded model now ∙ same ∙ c

  on_server_error-Counts :
      (id : String) (r : Response) → StepCounts n (on_server_error s model id r now)
  unfolding on_server_error
  on_server_error-Counts id r =
      let wait = delta (retry_after_or_default r.retry_after (seconds 10)) in
      let (p, consecutive) = mark_failure s.pool id model "upstream_5xx" 0 now in
      let failed = mark_failure-active s.pool id model "upstream_5xx" 0 now in
      let others = exclude id s.excluded in
      elim (Bool-cases (not (is_empty (trim r.retry_after)))) [
        | inl e ↦ rw e (mark_failure-active s.pool id model "upstream_5xx" wait now ∙ c)
        | inr e ↦ elim (Bool-cases (ltb consecutive upstream_5xx_failover_after)) [
          | inl f ↦ rw (e, f) (failed ∙ c)
          | inr f ↦ elim (Bool-cases (not (has_preferred_account p model others now))) [
            | inl g ↦ rw (e, f, g) (failed ∙ c)
            | inr g ↦
                rw (e, f, g) (mark_cooldown-active p id model "upstream_5xx" wait now ∙ failed ∙ c)
          ]
        ]
      ]

  deliver-Counts :
      (id : String) (r : Response) (read : ProxyResponseInfo)
      → StepCounts n (deliver s model id r read now)
  unfolding deliver is_open
  deliver-Counts id r read =
      let info : ProxyResponseInfo = record read {
        failover_from_account_id = s.failover_from;
        failover_outcome = s.failover_outcome;
      } in
      let failed =
        among info.terminal_event ("error" ∷ "response.failed" ∷ "response.incomplete" ∷ []) in
      let measured = record s.throughput {
        completed_at = info.completed_at;
        usage = info.usage;
        success = not failed && is_success r.status;
      } in
      either_end-Counts n measured failed
        (mark_terminal_response_failure s.pool s.route model id info (some measured) true now)
        (mark_success_with_measurement s.pool s.route model id info (some measured) now)
        (terminal-Counts n s.pool measured now s.route model id info true c)
        (success-Counts n s.pool measured now s.route model id info c)

module _ (n : ℕ) (tuning : Tuning) (limit : ℕ) where
  module _ (s : Attempts) (model id : String) (r : Response) (now : Timestamp)
      (c : Counts n s.pool s.throughput) where
    on_rate_limited-Counts : StepCounts n (on_rate_limited tuning limit s model id r now)
    unfolding on_rate_limited
    on_rate_limited-Counts =
        let refused = capacity_refused s id in
        let wait = delta (retry_after_or_default r.retry_after (seconds 60)) in
        let marked = mark_failure-active s.pool id model "rate_limited" wait now ∙ c in
        let spared = (mark_failure s.pool id model "rate_limited" 0 now).0 in
        let first =
          has_another s.budget limit && has_preferred_account s.pool model refused.excluded now in
        let second =
          ltb s.budget.capacity_retries tuning.capacity_retry_limit
          && leb (retry_after_or_default r.retry_after 0) tuning.capacity_retry_max_wait in
        elim (Bool-cases first) [
          | inl e ↦ rw e marked
          | inr e ↦ elim (Bool-cases second) [
            | inl f ↦
                rw (e, f)
                  (capacity_round-Counts n refused model now c spared r.waited
                    (mark_failure-active s.pool id model "rate_limited" 0 now))
            | inr f ↦ rw (e, f) marked
          ]
        ]

    on_stream_failure-Counts :
        (info : ProxyResponseInfo)
        → StepCounts n (on_stream_failure tuning limit s model id r info now)
    unfolding on_stream_failure is_open
    on_stream_failure-Counts info =
        let code = info.terminal_error_code in
        let refused = capacity_refused s id in
        let spared = mark_retryable_terminal_response_failure s.pool id model code false now in
        let same = retryable-active s.pool id model code false now in
        let overload =
          transient_overload_code code
          && ltb s.budget.overload_retries overload_same_account_retry_limit in
        let other =
          has_another s.budget limit && has_preferred_account s.pool model refused.excluded now in
        elim (Bool-cases overload) [
          | inl e ↦ elim (Bool-cases r.waited) [
            | inl w ↦ rw (e, w) (same ∙ c)
            | inr w ↦ rw (e, w) (same ∙ c)
          ]
          | inr e ↦ elim (Bool-cases other) [
            | inl f ↦ rw (e, f) (retryable-active s.pool id model code true now ∙ c)
            | inr f ↦
                elim (Bool-cases (ltb s.budget.capacity_retries tuning.capacity_retry_limit)) [
                  | inl g ↦
                      rw (e, f, g)
                        (capacity_round-Counts n refused model now c spared r.waited same)
                  | inr g ↦ rw (e, f, g) (deliver-Counts n refused model now c id r info)
                ]
          ]
        ]

    on_read-Counts :
        (read : Option ProxyResponseInfo)
        → StepCounts n (on_read tuning limit s model id r read now)
    unfolding on_read
    on_read-Counts none =
        mark_failure-active s.pool id model "upstream_response_error" (seconds 30) now ∙ c
    on_read-Counts (some info) = elim (Bool-cases r.retryable_terminal_failure) [
      | inl e ↦ rw e (on_stream_failure-Counts info)
      | inr e ↦ rw e (deliver-Counts n s model now c id r info)
    ]

  on_answered-Counts :
      (s : Attempts) (model id : String) (r : Response) (now : Timestamp)
      → Counts n s.pool s.throughput
      → StepCounts n (on_answered tuning limit s model id r now)
  unfolding on_answered log_codex_verdict_for_http
  on_answered-Counts s model id r now c =
      let logged = log_codex_verdict_for_http s model id r.logged_code now in
      let l =
        note_capacity_event-active s.pool id model (sanitized_error_code r.logged_code) now ∙ c in
      elim (Bool-cases (r.status == 401 || r.status == 403)) [
        | inl e ↦ rw e (on_refused_credential-Counts n logged model now l id r.error_code)
        | inr e ↦
            elim (Bool-cases
              ((r.status == 429 || is_server_error r.status) && r.gateway_unknown_model)) [
                | inl f ↦ rw (e, f) c
                | inr f ↦ elim (Bool-cases (r.status == 429)) [
                  | inl g ↦ rw (e, f, g) (on_rate_limited-Counts logged model id r now l)
                  | inr g ↦ elim (Bool-cases (is_server_error r.status)) [
                    | inl h ↦ rw (e, f, g, h) (on_server_error-Counts n logged model now l id r)
                    | inr h ↦ rw (e, f, g, h) (on_read-Counts s model id r now c r.info)
                  ]
                ]
              ]
      ]

  on_forwarded-Counts :
      (s : Attempts) (model id : String) (answer : Answer) (now : Timestamp)
      → Counts n s.pool s.throughput
      → StepCounts n (on_forwarded tuning limit s model id answer now)
  unfolding on_forwarded is_open
  on_forwarded-Counts s model id client_closed now c = c
  on_forwarded-Counts s model id credential_unusable now c =
      on_refused_credential-Counts n s model now c id ""
  on_forwarded-Counts s model id (unreachable waited) now c =
      on_unreachable-Counts n s model now c id waited
  on_forwarded-Counts s model id (incompletable error) now c = c
  on_forwarded-Counts s model id (answered r) now c = on_answered-Counts s model id r now c

  on_candidate-Counts :
      (s : Attempts) (model : String) (candidate : Account) (answer : Answer) (now : Timestamp)
      → Counts n s.pool s.throughput
      → StepCounts n (on_candidate tuning limit s model candidate answer now)
  unfolding on_candidate is_open
  on_candidate-Counts s model candidate answer now c =
      let t = placed s candidate.id model now in
      let d : Counts n t.pool t.throughput =
        placement-active s.pool s.route.balance_key candidate.id now ∙ c in
      elim (Bool-cases (not (has_upstream_base tuning candidate))) [
        | inl e ↦ rw e d
        | inr e ↦ rw e (on_forwarded-Counts t model candidate.id answer now d)
      ]

  module _ (draw : Draw) (model : String) where
    on_selected-Counts :
        (s : Attempts) (selected : Pool × RoutingDecision × Result SelectError Account)
        (answer : Answer) (now : Timestamp)
        → Counts n selected.0 s.throughput
        → StepCounts n (on_selected draw tuning limit model s selected answer now)
    unfolding on_selected
    on_selected-Counts s (p, route, err e) answer now c = c
    on_selected-Counts s (p, route, ok candidate) answer now c =
        on_candidate-Counts (record s { pool = p; route = route }) model candidate answer now c

    pub attempt_step-Counts :
        (s : Attempts) (answer : Answer) (now : Timestamp)
        → Counts n s.pool s.throughput
        → StepCounts n (attempt_step draw tuning limit model s answer now)
    unfolding attempt_step
    attempt_step-Counts s answer now c =
        on_selected-Counts s (select_account_for_route draw s.pool s.route model s.excluded now)
          answer now (select-active draw s.pool s.route model s.excluded now ∙ c)
