-- ===== src/Proxy/Follows.antt =====
-- Each branch of the loop of upstream/src/pool/proxy.rs ends the request as upstream's answer does, or is
-- a move that the answer allows.
use codex_provider.Base.{
  ℕ, ◌<◌, ◌≡◌, refl, String, Bool, true, false, ◌&&◌, ◌||◌, not, Option, none, some, inl, inr,
  Bool-cases, ltb, if◌then◌else◌, leb, ltb→lt, arith, ◌==◌,
}
use codex_provider.Time.{Timestamp}
use codex_provider.State.{Pool}
use codex_provider.State.Usage.{ProxyResponseInfo}
use codex_provider.Proxy.{
  Reply, relayed, error_reply, closed, Tuning, Response, Answer, has_another, client_closed,
  credential_unusable, unreachable, incompletable, answered, Attempts, Step, again, ended,
  overload_same_account_retry_limit, transport_same_account_retry_limit, is_server_error,
  has_preferred_account, retry_after_or_default, upstream_5xx_failover_after,
  transient_overload_code,
}
use codex_provider.Base.Text.{is_empty, trim}
use codex_provider.Outcome.{mark_failure, mark_retryable_terminal_response_failure}
use codex_provider.Outcome.Whole.{exclude, spend_capacity_retry_round}
use codex_provider.Proxy.Moves.{
  View, view, Move, refuses_credential, is_unreachable, fails_for_good, lacks_capacity,
  is_overloaded,
}
use codex_provider.Proxy.Attempt.{
  retry, cancel, spend_overload, capacity_refused, on_unreachable, on_refused_credential,
  capacity_round, on_rate_limited, on_server_error, deliver, on_stream_failure, on_answered,
  on_read, on_forwarded, log_codex_verdict_for_http,
}

and_first : (a b : Bool) → a && b ≡ true → a ≡ true
and_first true b e = refl
and_first false b e = e

and_second : (a b : Bool) → a && b ≡ true → b ≡ true
and_second true b e = e
and_second false b e = cc

-- How an answer that refused no credential ends the request: it is relayed; or the client left while
-- the loop waited; or the gateway does not know the model; or upstream failed.
pub data AnswerEnds (r : Response) : Reply → Type 0 where
  relays : r.status == 429 || is_server_error r.status ≡ false → AnswerEnds r (relayed r.status)
  gives_up :
      r.status == 429 || r.retryable_terminal_failure ≡ true
      → r.waited ≡ false
      → AnswerEnds r closed
  unknown_model :
      (r.status == 429 || is_server_error r.status) && r.gateway_unknown_model ≡ true
      → AnswerEnds r
          (error_reply 404 "model_not_found" "requested model is not available through this pool")
  failed :
      is_server_error r.status ≡ true
      → (message : String) → AnswerEnds r (error_reply 502 "bad_gateway" message)

-- What the client is given where an answer ends the request. A refused credential never does.
abbrev pub EndsWith : Answer → Reply → Type 0
EndsWith client_closed reply = reply ≡ closed
EndsWith credential_unusable reply = ⊥
EndsWith (unreachable waited) reply = (waited ≡ false) × (reply ≡ closed)
EndsWith (incompletable error) reply = reply ≡ error_reply 400 "invalid_request" error
EndsWith (answered r) reply = (refuses_credential r.status ≡ false) × AnswerEnds r reply

equal : (n m : ℕ) → n == m ≡ true → n ≡ m
equal n m e = ground (arith, e)

limited_lacks :
    (r : Response)
    → refuses_credential r.status ≡ false
    → r.status == 429 ≡ true
    → lacks_capacity (answered r) ≡ true
limited_lacks r d e = rw (d, e, not_server r.status e) refl
  where
    not_server : (n : ℕ) → n == 429 ≡ true → is_server_error n ≡ false
    not_server n f = rw (equal n 429 f) refl

or_true : (a b : Bool) → b ≡ true → a || b ≡ true
or_true true b e = refl
or_true false b e = e

module _ (tuning : Tuning) (limit : ℕ) where
  -- The step ends the request as the answer does, or is a move on account `id`.
  abbrev pub Follows : String → Answer → View → Step → Type 0
  Follows id answer v (again s) = Move tuning id answer v (view s)
  Follows id answer v (ended e) = EndsWith answer e.reply

  either-Follows :
      (id : String) (answer : Answer) (v : View) (b : Bool) (x y : Step)
      → (b ≡ true → Follows id answer v x)
      → Follows id answer v y
      → Follows id answer v (if b then x else y)
  either-Follows id answer v true x y f g = f refl
  either-Follows id answer v false x y f g = g

  module _ (s : Attempts) (model : String) (now : Timestamp) where
    on_unreachable-Follows :
        (id : String) (waited : Bool)
        → Follows id (unreachable waited) (view s) (on_unreachable s model id waited now)
    unfolding on_unreachable
    on_unreachable-Follows id true =
        elim (Bool-cases (ltb s.budget.transport_retries transport_same_account_retry_limit)) [
          | inl e ↦ rw e (Move.transport_again refl (ltb→lt _ _ e))
          | inr e ↦ rw e (Move.refused refl)
        ]
    on_unreachable-Follows id false =
        elim (Bool-cases (ltb s.budget.transport_retries transport_same_account_retry_limit)) [
          | inl e ↦ rw e (refl, refl)
          | inr e ↦ rw e (Move.refused refl)
        ]

    capacity_round-Follows :
        (id : String) (answer : Answer) (p : Pool) (waited : Bool)
        → lacks_capacity answer ≡ true
        → (waited ≡ false → EndsWith answer closed)
        → s.budget.capacity_retries < tuning.capacity_retry_limit
        → Follows id answer (view s) (capacity_round (capacity_refused s id) p model waited now)
    unfolding capacity_round spend_capacity_retry_round
    capacity_round-Follows id answer p true a left room = Move.waits a room
    capacity_round-Follows id answer p false a left room = left refl

    on_rate_limited-Follows :
        (id : String) (r : Response)
        → refuses_credential r.status ≡ false
        → r.status == 429 ≡ true
        → Follows id (answered r) (view s) (on_rate_limited tuning limit s model id r now)
    unfolding on_rate_limited
    on_rate_limited-Follows id r d limited =
        let lacks = limited_lacks r d limited in
        let left : r.waited ≡ false → EndsWith (answered r) closed =
          λ w. (d, AnswerEnds.gives_up (rw limited refl) w) in
        let refused = capacity_refused s id in
        let first =
          has_another s.budget limit && has_preferred_account s.pool model refused.excluded now in
        let second =
          ltb s.budget.capacity_retries tuning.capacity_retry_limit
          && leb (retry_after_or_default r.retry_after 0) tuning.capacity_retry_max_wait in
        elim (Bool-cases first) [
          | inl e ↦ rw e (Move.at_capacity lacks)
          | inr e ↦ elim (Bool-cases second) [
            | inl f ↦
                rw (e, f)
                  (capacity_round-Follows id (answered r) _ r.waited lacks left
                    (ltb→lt _ _ (and_first _ _ f)))
            | inr f ↦ rw (e, f) (Move.at_capacity lacks)
          ]
        ]

    on_server_error-Follows :
        (id : String) (r : Response)
        → refuses_credential r.status ≡ false
        → is_server_error r.status ≡ true
        → Follows id (answered r) (view s) (on_server_error s model id r now)
    unfolding on_server_error
    on_server_error-Follows id r d server =
        let bad = or_true (refuses_credential r.status) (is_server_error r.status) server in
        let (p, consecutive) = mark_failure s.pool id model "upstream_5xx" 0 now in
        elim (Bool-cases (not (is_empty (trim r.retry_after)))) [
          | inl e ↦ rw e (Move.refused bad)
          | inr e ↦ elim (Bool-cases (ltb consecutive upstream_5xx_failover_after)) [
            | inl f ↦ rw (e, f) (d, AnswerEnds.failed server _)
            | inr f ↦
                elim (Bool-cases
                  (not (has_preferred_account p model (exclude id s.excluded) now))) [
                    | inl g ↦ rw (e, f, g) (d, AnswerEnds.failed server _)
                    | inr g ↦ rw (e, f, g) (Move.refused bad)
                  ]
          ]
        ]

    overload_round-Follows :
        (id : String) (answer : Answer) (p : Pool) (waited : Bool)
        → is_overloaded answer ≡ true
        → (waited ≡ false → EndsWith answer closed)
        → s.budget.overload_retries < overload_same_account_retry_limit
        → Follows id answer (view s) (
            if waited
            then retry s p (spend_overload s.budget)
            else cancel s p "client_closed_during_overload_retry")
    overload_round-Follows id answer p true a left room = Move.overload_again a room
    overload_round-Follows id answer p false a left room = left refl

    on_stream_failure-Follows :
        (id : String) (r : Response) (info : ProxyResponseInfo)
        → refuses_credential r.status ≡ false
        → r.status == 429 ≡ false
        → is_server_error r.status ≡ false
        → r.retryable_terminal_failure ≡ true
        → r.info ≡ some info
        → Follows id (answered r) (view s) (on_stream_failure tuning limit s model id r info now)
    unfolding on_stream_failure deliver
    on_stream_failure-Follows id r info d limited server retryable there =
        let lacks : lacks_capacity (answered r) ≡ true = rw (d, limited, server, retryable) refl in
        let left : r.waited ≡ false → EndsWith (answered r) closed = λ w. (
          d,
          AnswerEnds.gives_up (or_true (r.status == 429) r.retryable_terminal_failure retryable) w,
        ) in
        let code = info.terminal_error_code in
        let refused = capacity_refused s id in
        let overload =
          transient_overload_code info.terminal_error_code
          && ltb s.budget.overload_retries overload_same_account_retry_limit in
        let other =
          has_another s.budget limit && has_preferred_account s.pool model refused.excluded now in
        elim (Bool-cases overload) [
          | inl e ↦
              let a : is_overloaded (answered r) ≡ true =
                rw (d, limited, server, there, and_first (transient_overload_code code) _ e) refl in
              rw e (
                overload_round-Follows id (answered r)
                  (mark_retryable_terminal_response_failure s.pool id model code false now) r.waited
                  a left (ltb→lt _ _ (and_second _ _ e)))
          | inr e ↦ elim (Bool-cases other) [
            | inl f ↦ rw (e, f) (Move.at_capacity lacks)
            | inr f ↦
                elim (Bool-cases (ltb s.budget.capacity_retries tuning.capacity_retry_limit)) [
                  | inl g ↦
                      rw (e, f, g)
                        (capacity_round-Follows id (answered r) _ r.waited lacks left
                          (ltb→lt _ _ g))
                  | inr g ↦ rw (e, f, g) (d, AnswerEnds.relays (rw (limited, server) refl))
                ]
          ]
        ]

  on_refused_credential-Follows :
      (s : Attempts) (model id code : String) (answer : Answer) (now : Timestamp)
      → is_unreachable answer || fails_for_good answer ≡ true
      → Follows id answer (view s) (on_refused_credential s model id code now)
  unfolding on_refused_credential
  on_refused_credential-Follows s model id code answer now bad = Move.refused bad

  on_read-Follows :
      (s : Attempts) (model id : String) (r : Response) (read : Option ProxyResponseInfo)
      (now : Timestamp)
      → refuses_credential r.status ≡ false
      → r.status == 429 ≡ false
      → is_server_error r.status ≡ false
      → r.info ≡ read
      → Follows id (answered r) (view s) (on_read tuning limit s model id r read now)
  unfolding on_read deliver
  on_read-Follows s model id r none now d limited server there =
      (d, AnswerEnds.relays (rw (limited, server) refl))
  on_read-Follows s model id r (some info) now d limited server there =
      either-Follows id (answered r) (view s) r.retryable_terminal_failure
        (on_stream_failure tuning limit s model id r info now) (deliver s model id r info now)
        (λ e. on_stream_failure-Follows s model now id r info d limited server e there)
        (d, AnswerEnds.relays (rw (limited, server) refl))

  on_answered-Follows :
      (s : Attempts) (model id : String) (r : Response) (now : Timestamp)
      → Follows id (answered r) (view s) (on_answered tuning limit s model id r now)
  unfolding on_answered log_codex_verdict_for_http
  on_answered-Follows s model id r now =
      let logged = log_codex_verdict_for_http s model id r.logged_code now in
      elim (Bool-cases (r.status == 401 || r.status == 403)) [
        | inl e ↦ rw e (
            on_refused_credential-Follows logged model id r.error_code (answered r) now (rw e refl))
        | inr e ↦
            elim (Bool-cases
              ((r.status == 429 || is_server_error r.status) && r.gateway_unknown_model)) [
                | inl f ↦ rw (e, f) (e, AnswerEnds.unknown_model f)
                | inr f ↦ elim (Bool-cases (r.status == 429)) [
                  | inl g ↦ rw (e, f, g) (on_rate_limited-Follows logged model now id r e g)
                  | inr g ↦ elim (Bool-cases (is_server_error r.status)) [
                    | inl h ↦ rw (e, f, g, h) (on_server_error-Follows logged model now id r e h)
                    | inr h ↦ rw (e, f, g, h) (on_read-Follows s model id r r.info now e g h refl)
                  ]
                ]
              ]
      ]

  pub on_forwarded-Follows :
      (s : Attempts) (model id : String) (answer : Answer) (now : Timestamp)
      → Follows id answer (view s) (on_forwarded tuning limit s model id answer now)
  unfolding on_forwarded
  on_forwarded-Follows s model id client_closed now = refl
  on_forwarded-Follows s model id credential_unusable now =
      on_refused_credential-Follows s model id "" credential_unusable now refl
  on_forwarded-Follows s model id (unreachable waited) now =
      on_unreachable-Follows s model now id waited
  on_forwarded-Follows s model id (incompletable error) now = refl
  on_forwarded-Follows s model id (answered r) now = on_answered-Follows s model id r now
