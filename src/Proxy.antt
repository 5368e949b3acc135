-- ===== src/Proxy.antt =====
-- upstream/src/pool/proxy.rs: one client request, tried on accounts in turn until one answers. The
-- network is outside: what upstream and the client do at each attempt is an `Answer`, and the code
-- that reads a body or a stream (quota.rs, stream.rs, response_info.rs) has already read it. The
-- tallies of the loop are a `Budget`. One reading of the clock serves a whole attempt.
pub mod Attempt
pub mod Moves
pub mod Refusals
pub mod Follows
pub mod Rounds
pub mod Fuel
pub mod Frame
pub mod Counts
pub mod Serve
pub mod Settled
pub mod Once
use Prim.Native.Char.{code}
use Prim.Native.String.{◌∷◌ as ◌∷ₛ◌, [] as []ₛ}
use codex_provider.Base.Maps.{Map, insert, retain}
use codex_provider.Base.Text.{is_empty, all_chars}
use codex_provider.Base.{
  ℕ, zero, suc, ◌+◌, ◌-◌, ◌*◌, max, String, Bool, true, false, ◌&&◌, ◌||◌, not, Option, none, some,
  List, [], ◌∷◌, length, any, ltb, leb, ◌==◌, if◌then◌else◌, str_eq, unwrap_or,
}
use codex_provider.Time.{Timestamp, seconds, minutes}
use codex_provider.Plan.{among, is_codex_device_auth}
use codex_provider.Quota.{sanitized_error_code, is_some}
use codex_provider.State.{Pool, Account}
use codex_provider.State.Bindings.{SessionPlacement}
use codex_provider.State.Usage.{ThroughputMeasurement, ProxyResponseInfo}
use codex_provider.Select.{
  RoutingDecision, SelectError, auth_repair_pending, no_eligible_account, Excluded,
  preferred_account, placement_active_window,
}

-- tuning.rs OVERLOAD_SAME_ACCOUNT_RETRY_LIMIT and TRANSPORT_SAME_ACCOUNT_RETRY_LIMIT.
abbrev pub overload_same_account_retry_limit : ℕ
overload_same_account_retry_limit = 3

abbrev pub transport_same_account_retry_limit : ℕ
transport_same_account_retry_limit = 2

-- outcome.rs UPSTREAM_5XX_FAILOVER_AFTER.
abbrev pub upstream_5xx_failover_after : ℕ
upstream_5xx_failover_after = 3

-- The tuning and the settings that the loop reads; durations are nanoseconds.
pub record Tuning : Type 0 where
  pub capacity_retry_limit : ℕ
  pub capacity_retry_backoff : ℕ
  pub capacity_retry_max_wait : ℕ
  pub max_retry_accounts : ℕ
  pub codex_responses_base_url : String

-- app.rs `proxy_attempt_limit`.
unfoldable pub proxy_attempt_limit : Pool → Tuning → ℕ
proxy_attempt_limit p tuning =
    let count = length p.accounts in
    let most = tuning.max_retry_accounts in
    if count == 0 then 1 else if ltb 0 most && ltb most count then most else count

-- What upstream answers, as the loop reads it: the status, the `retry-after` header, the error code in
-- a refusal's body, as routing and as the log read it, and whether the gateway does not know the model; whether the answer is streamed and
-- ended in a failure before anything reached the client; what was read of the answer; and whether the
-- client is still there when a wait that the attempt makes is over.
pub record Response : Type 0 where
  pub status : ℕ
  pub retry_after : String
  pub error_code : String
  pub logged_code : String
  pub gateway_unknown_model : Bool
  pub retryable_terminal_failure : Bool
  pub info : Option ProxyResponseInfo
  pub waited : Bool

-- What comes of an attempt: the client left, the account's credential is unusable, upstream was not
-- reached, an app's request cannot be completed for the account, or upstream answered.
pub data Answer : Type 0 where
  client_closed credential_unusable : Answer
  unreachable : Bool → Answer
  incompletable : String → Answer
  answered : Response → Answer

-- What the client is given: an error of the pool's own, upstream's answer, or nothing any more.
pub data Reply : Type 0 where
  error_reply : ℕ → String → String → Reply
  relayed : ℕ → Reply
  closed : Reply

-- The tallies of the loop. The `attempt` of the source, an i64, is `spent` less `given_back`: the
-- attempts made less those that waits gave back.
pub record Budget : Type 0 where
  pub spent : ℕ
  pub given_back : ℕ
  pub capacity_retries : ℕ
  pub overload_retries : ℕ
  pub transport_retries : ℕ

-- `attempt < limit` and `attempt + 1 < limit`, without a subtraction.
abbrev pub is_within : Budget → ℕ → Bool
is_within b limit = ltb b.spent (limit + b.given_back)

abbrev pub has_another : Budget → ℕ → Bool
has_another b limit = ltb (b.spent + 1) (limit + b.given_back)

-- The variables of the loop.
pub record Attempts : Type 0 where
  pub pool : Pool
  pub route : RoutingDecision
  pub excluded : Excluded
  pub capacity_excluded : Excluded
  pub budget : Budget
  pub failover_from : String
  pub failover_outcome : String
  pub throughput : ThroughputMeasurement

-- The end of a request: the pool, its measurement and what the client is given.
pub record End : Type 0 where
  pub pool : Pool
  pub throughput : ThroughputMeasurement
  pub reply : Reply

pub data Step : Type 0 where
  again : Attempts → Step
  ended : End → Step

abbrev is_digit : ℕ → Bool
is_digit c = leb 48 c && leb c 57

unfoldable pub digits_from : ℕ → String → Option ℕ
digits_from n []ₛ = some n
digits_from n (c ∷ₛ s) =
    let rest = digits_from (n * 10 + (code c - 48)) s in if is_digit (code c) then rest else none

abbrev u64_range : Option ℕ → Option ℕ
u64_range none = none
u64_range (some n) = if ltb n 18446744073709551616 then some n else none

-- `parse::<u64>`, which allows one leading plus sign.
unfoldable pub parse_u64 : String → Option ℕ
unfolding digits_from
parse_u64 []ₛ = none
parse_u64 (c ∷ₛ s) =
    if code c == 43
    then (if is_empty s then none else u64_range (digits_from 0 s))
    else u64_range (digits_from 0 (c ∷ₛ s))

unfoldable pub retry_after_or_default : String → ℕ → ℕ
unfolding parse_u64
retry_after_or_default value fallback = elim (parse_u64 value) [
  | none ↦ fallback
  | some n ↦ if ltb 0 n then seconds n else fallback
]

-- `TimeDelta::from_std(duration).unwrap_or(zero)`: a TimeDelta holds `i64::MAX` milliseconds.
unfoldable pub delta : ℕ → ℕ
delta duration = if leb duration 9223372036854775807000000 then duration else 0

-- The doublings of `capacity_retry_backoff_for`, of which there are at most `rounds`.
unfoldable pub doubled : ℕ → ℕ → ℕ → ℕ
doubled top zero delay = delay
doubled top (suc rounds) delay =
    let more = doubled top rounds (delay * 2) in if leb top delay then delay else more

unfoldable pub capacity_retry_backoff_for : Tuning → ℕ → ℕ
unfolding doubled
capacity_retry_backoff_for tuning round =
    let top = tuning.capacity_retry_max_wait in
    let delay = doubled top (max round 1 - 1) tuning.capacity_retry_backoff in
    if ltb top delay then top else delay

unfoldable pub transient_overload_code : String → Bool
unfolding sanitized_error_code any
transient_overload_code code = among (sanitized_error_code code) (
    "server_is_overloaded" ∷ "policy_capacity_unavailable" ∷ "slow_down" ∷ "server_error"
    ∷ "internal_server_error" ∷ [])

-- response_info.rs `stream_retry_failover_outcome`.
unfoldable pub stream_retry_failover_outcome : String → String
stream_retry_failover_outcome class =
    if str_eq class "transient" then "stream_transient_failover" else "stream_capacity_failover"

unfoldable pub has_preferred_account : Pool → String → Excluded → Timestamp → Bool
unfolding preferred_account
has_preferred_account p model excluded now = is_some (preferred_account p model excluded now)

-- The error of `prepare_upstream_request`: an account without a base URL. The other error, a body that
-- is no JSON object, cannot be here: the request was read as one before.
unfoldable pub has_upstream_base : Tuning → Account → Bool
unfolding is_codex_device_auth all_chars
has_upstream_base tuning item =
    not (all_chars (λ c. c == 47) item.upstream_base_url)
    || (is_codex_device_auth item && not (is_empty tuning.codex_responses_base_url))

unfoldable pub codex_stream_failure_status : String → ℕ
codex_stream_failure_status class =
    if str_eq class "capacity"
    then 429
    else if str_eq class "authentication"
    then 401
    else if str_eq class "request"
    then 400
    else 502

abbrev pub is_success : ℕ → Bool
is_success status = leb 200 status && leb status 299

abbrev pub is_server_error : ℕ → Bool
is_server_error status = leb 500 status && leb status 599

abbrev pub all_failed : Reply
all_failed = error_reply 502 "bad_gateway" "all eligible upstream accounts failed"

unfoldable pub selection_reply : SelectError → Excluded → Reply
selection_reply auth_repair_pending excluded =
    error_reply 503 "account_authenticating"
      "the session account is completing sign-in repair; retry shortly"
selection_reply no_eligible_account excluded =
    if length excluded == 0
    then error_reply 503 "all_accounts_cooling_down"
        "no eligible account is available for the requested model"
    else all_failed
