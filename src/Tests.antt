-- ===== src/Tests.antt =====
-- The pool that the tests run on: two device logins, a session and a lineage bound to one of them.
mod Limits
mod Selection
mod Quotas
mod Outcomes
mod Polls
mod Requests
mod Traffic
mod Bodies
use codex_provider.Base.Int.{ℤ, pos}
use codex_provider.Base.{
  ℕ, ◌+◌, String, Bool, true, false, Option, none, some, List, [], ◌∷◌, str_lt, ltb, Result,
}
use codex_provider.Time.{Timestamp, seconds, minutes, hours, epoch}
use codex_provider.State.{Pool, Account, RuntimeState, QuotaReserve, CodexAuthInfo, Cooldown}
use codex_provider.State.Quota.{
  no_window, QuotaWindow, AccountQuota, QuotaSnapshot, QuotaResetCredits, no_snapshot,
}
use codex_provider.State.Bindings.{
  StickySession, ResponseBinding, ThreadBinding, LineageBinding, SessionPlacement, RequestIdentity,
}
use codex_provider.Select.{Draw, RoutingDecision, Weight}
use codex_provider.State.Usage.{ThroughputMeasurement, ProxyResponseInfo}
use codex_provider.Outcome.Throughput.{no_usage}
use codex_provider.Proxy.{Tuning, Attempts, Budget, Response}

abbrev pub moment : Timestamp
moment = epoch + seconds 1000000

abbrev pub login : String → ℤ → Account
login name priority = record {
  id = name;
  email = "";
  account_id = name;
  organization_name = "";
  plan_type = "plus";
  plan_limit = "";
  plan_family = "plus";
  seat_type = "";
  auth_type = "codex_device_auth";
  enabled = true;
  in_pool = true;
  priority = priority;
  remaining_quota = none;
  quota_protection_enabled = false;
  quota_protection_threshold = pos 0;
  quota_protection_weekly_threshold = none;
  allowed_models = [];
  excluded_models = [];
  upstream_base_url = "";
  pending_auth_verification = false;
}

abbrev pub ann : Account
ann = login "ann" (pos 0)

abbrev pub bob : Account
bob = login "bob" (pos 1)

abbrev pub no_state : RuntimeState
no_state = record {
  cooldowns = [];
  health = [];
  quotas = [];
  sticky_sessions = [];
  response_bindings = [];
  thread_bindings = [];
  lineage_bindings = [];
  routing_cache_events = [];
  capacity_events = [];
  prompt_cache = [];
  prompt_cache_baseline = [];
  prompt_cache_reset_at_by_account = [];
  request_count = 0;
  success_count = 0;
  failure_count = 0;
  stream_incomplete_count = 0;
  upstream_response_failed_count = 0;
  updated_at = 0;
}

abbrev pub ann_session : StickySession
ann_session = record {
  key = "s";
  model_id = "m";
  account_id = "ann";
  created_at = moment;
  last_success_at = moment;
  expires_at = moment + hours 1;
  failover_from = "";
}

abbrev pub ann_lineage : LineageBinding
ann_lineage = record {
  lineage_root_id = "root";
  account_id = "ann";
  failover_from = "";
  created_at = moment;
  moved_at = moment;
  last_success_at = moment;
  expires_at = moment + hours 1;
}

abbrev pub pool_of : List Account → RuntimeState → Pool
pool_of accounts state = record {
  routing_strategy = "balanced";
  session_affinity_ttl = 0;
  quota_floor_percent = 0;
  premium_seat_weight = 1000000;
  accounts = accounts;
  config_updated_at = 0;
  state = state;
  preserve_pro_quota = true;
  lineage_affinity = true;
  quota_reserve = record { enabled = false; five_hour = pos 0; weekly = pos 0 };
  jobs = [];
  session_placements = [];
  throughput_buckets = [];
  active_proxy_requests = 0;
  clock = moment;
  auth_files = λ name. some (record { account_id = name; email = ""; organization_name = "" });
}

-- Both logins are idle; the session "s" and the lineage "root" are bound to `ann`.
abbrev pub bound_pool : Pool
bound_pool = pool_of (ann ∷ bob ∷ []) (record no_state {
  sticky_sessions = ("s", ann_session) ∷ [];
  lineage_bindings = ("root", ann_lineage) ∷ [];
})

abbrev pub no_pool : Pool
no_pool = pool_of [] no_state

-- A draw that gives every account the same chance: the lower id wins.
abbrev pub even : Draw
even = record {
  Score = ℕ;
  placement_score = λ key identity weight. 0;
  above = λ a b. ltb b a;
  same = λ a b. true;
}

abbrev pub identity_of : String → String → RequestIdentity
identity_of thread root = record {
  session_id = thread;
  thread_id = thread;
  parent_thread_id = "";
  forked_from_id = "";
  lineage_root_id = root;
  subagent_kind = "";
  thread_source = "";
  is_subagent = false;
}

abbrev pub route_of : String → String → RoutingDecision
route_of thread root = record {
  sticky_key = thread;
  identity = identity_of thread root;
  lineage_account_id = "";
  lineage_affinity = true;
  balance_key = "key";
  upstream_prompt_cache_key = "";
  source = "thread_id";
  parent_affinity_attempted = false;
}

-- A weekly window with a number of millionths of a percent left, which resets in an hour.
abbrev pub week_with : ℕ → QuotaWindow
week_with left = record {
  percentage = pos 0;
  remaining_percent = some (pos left);
  reset_at = some (pos 1003600);
  window_minutes = some (pos 10080);
  observed = true;
  present = true;
}

abbrev pub quota_with : ℕ → AccountQuota
quota_with left = record {
  primary = no_window;
  secondary = no_window;
  windows = week_with left ∷ [];
  additional_limits = [];
  reset_credits = none;
  exhausted = false;
  hourly = no_window;
  weekly = no_window;
}

abbrev pub some_tuning : Tuning
some_tuning = record {
  capacity_retry_limit = 8;
  capacity_retry_backoff = seconds 1;
  capacity_retry_max_wait = seconds 20;
  max_retry_accounts = 0;
  codex_responses_base_url = "https://chatgpt.com/backend-api/codex";
}

abbrev pub new_measurement : ThroughputMeasurement
new_measurement = record {
  started_at = moment;
  completed_at = 0;
  account_id = "";
  streaming = false;
  success = false;
  cancelled = false;
  finished = false;
  usage = no_usage;
  model = "";
  cancel_reason = "";
}

-- The start of a request of the bound session.
abbrev pub first_attempts : Attempts
first_attempts = record {
  pool = bound_pool;
  route = route_of "t" "root";
  excluded = [];
  capacity_excluded = [];
  budget = record {
    spent = 0;
    given_back = 0;
    capacity_retries = 0;
    overload_retries = 0;
    transport_retries = 0;
  };
  failover_from = "";
  failover_outcome = "";
  throughput = new_measurement;
}

abbrev pub completed : ProxyResponseInfo
completed = record {
  response_id = "r";
  usage = no_usage;
  completed_at = moment + seconds 2;
  terminal_event = "response.completed";
  terminal_failure_class = "";
  terminal_error_code = "";
  request_id = "q";
  failover_from_account_id = "";
  failover_outcome = "";
}

abbrev pub response_with : ℕ → Response
response_with status = record {
  status = status;
  retry_after = "";
  error_code = "";
  logged_code = "";
  gateway_unknown_model = false;
  retryable_terminal_failure = false;
  info = some completed;
  waited = true;
}
