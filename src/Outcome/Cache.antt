-- ===== src/Outcome/Cache.antt =====
-- upstream/src/pool/outcome.rs: the prompt-cache statistics, the outcome that a routing diagnostic
-- names, and the diagnostics themselves.
use Prim.Native.String.{◌++◌ as ◌<>◌}
use codex_provider.Base.Int.{ℤ, pos, negsuc}
use codex_provider.Base.Maps.{get, insert}
use codex_provider.Base.Text.{ends_with}
use codex_provider.Base.{
  ℕ, ◌+◌, ◌-◌, String, Bool, false, ◌&&◌, ◌||◌, not, Option, none, some, List, [], ◌∷◌, any, ltb,
  leb, ◌==◌, if◌then◌else◌, str_eq, unwrap_or,
}
use codex_provider.Time.{Timestamp, after}
use codex_provider.Plan.{among}
use codex_provider.Quota.{quota_explicitly_blocks_routing, sanitized_error_code}
use codex_provider.Protection.{quota_protection_status}
use codex_provider.Identity.{account}
use codex_provider.Eligibility.{
  cooldowns_of, quota_snapshot, quota_error_blocks_routing, manual_quota_available,
}
use codex_provider.Affinity.{put_state}
use codex_provider.State.{Pool, Account, Cooldown}
use codex_provider.State.Bindings.{RequestIdentity}
use codex_provider.State.Quota.{AccountQuota}
use codex_provider.State.Usage.{PromptCacheUsage, PromptCacheStat}
use codex_provider.Outcome.Throughput.{one_if}

-- response_info.rs PROMPT_CACHE_MIN_TOKENS.
abbrev pub prompt_cache_min_tokens : ℕ
prompt_cache_min_tokens = 1024

unfoldable pub agent_kind : RequestIdentity → String
agent_kind identity = if identity.is_subagent then "subagent" else "main"

unfoldable pub routing_event_source : String → String
unfolding any
routing_event_source source =
    if among source (
      "previous_response_id" ∷ "thread_id" ∷ "session" ∷ "project" ∷ "prompt_cache_key"
      ∷ "conversation" ∷ "session_id" ∷ "conversation_id" ∷ [])
    then source
    else "fallback"

unfoldable pub normalized_routing_outcome : String → String
unfolding any
normalized_routing_outcome value =
    if among value (
      "sticky_reuse" ∷ "new_route_assignment" ∷ "parent_affinity" ∷ "parent_affinity_fallback"
      ∷ "lineage_follow" ∷ "quota_failover" ∷ "rate_limit_failover" ∷ "stream_capacity_failover"
      ∷ "stream_transient_failover" ∷ "auth_failover" ∷ "transport_failover"
      ∷ "repeated_5xx_failover" ∷ [])
    then value
    else ""

abbrev i64_max : ℕ
i64_max = 9223372036854775807

abbrev clamp_i64 : ℕ → ℕ
clamp_i64 n = if leb n i64_max then n else i64_max

abbrev minus : ℕ → ℤ
minus n = if n == 0 then pos 0 else negsuc (n - 1)

unfoldable pub token_balance : ℕ → ℕ → ℤ
token_balance cached written =
    if leb written cached
    then pos (clamp_i64 (cached - written))
    else minus (clamp_i64 (written - cached))

unfoldable pub stat_key : String → String → String → String
stat_key id model kind = id <> ":" <> model <> ":" <> kind

-- `PromptCacheStat::default()`.
abbrev pub no_stat : PromptCacheStat
no_stat = record {
  account_id = "";
  model_id = "";
  agent_kind = "";
  request_count = 0;
  usage_observed_request_count = 0;
  input_tokens = 0;
  cached_tokens = 0;
  cache_write_tokens = 0;
  cache_write_input_tokens = 0;
  cache_write_observed_request_count = 0;
  cache_hit_request_count = 0;
  cache_eligible_request_count = 0;
  cold_request_count = 0;
  parent_affinity_hit_count = 0;
  parent_affinity_fallback_count = 0;
  lineage_failover_count = 0;
  routing_failover_count = 0;
  unrecognized_failure_count = 0;
  updated_at = 0;
}

-- The part of `record_prompt_cache_result` under `usage.cache_write_tokens`.
unfoldable pub count_write : PromptCacheUsage → Option ℕ → PromptCacheStat → PromptCacheStat
count_write usage none stat = stat
count_write usage (some written) stat = record stat {
  cache_write_tokens = stat.cache_write_tokens + written;
  cache_write_input_tokens = stat.cache_write_input_tokens + usage.input_tokens;
  cache_write_observed_request_count = stat.cache_write_observed_request_count + 1;
}

-- The part of `record_prompt_cache_result` under `usage.present`.
unfoldable pub count_usage : PromptCacheUsage → PromptCacheStat → PromptCacheStat
unfolding count_write
count_usage usage stat =
    let eligible = leb prompt_cache_min_tokens usage.input_tokens in
    let counted = record stat {
      usage_observed_request_count = stat.usage_observed_request_count + 1;
      input_tokens = stat.input_tokens + usage.input_tokens;
      cached_tokens = stat.cached_tokens + usage.cached_tokens;
      cache_hit_request_count = stat.cache_hit_request_count + one_if (ltb 0 usage.cached_tokens);
      cache_eligible_request_count = stat.cache_eligible_request_count + one_if eligible;
      cold_request_count = stat.cold_request_count + one_if (eligible && usage.cached_tokens == 0);
    } in
    if usage.present then count_write usage usage.cache_write_tokens counted else stat

-- What a request did to the affinity of its session and its lineage.
pub record Affinities : Type 0 where
  pub parent_affinity_hit : Bool
  pub parent_affinity_fallback : Bool
  pub lineage_failover : Bool

unfoldable pub count_result :
    Affinities → String → PromptCacheUsage → Timestamp → PromptCacheStat → PromptCacheStat
unfolding count_usage ends_with
count_result a outcome usage now stat =
    let counted = count_usage usage (record stat { request_count = stat.request_count + 1 }) in
    record counted {
      parent_affinity_hit_count = counted.parent_affinity_hit_count + one_if a.parent_affinity_hit;
      parent_affinity_fallback_count =
          counted.parent_affinity_fallback_count + one_if a.parent_affinity_fallback;
      lineage_failover_count = counted.lineage_failover_count + one_if a.lineage_failover;
      routing_failover_count =
          counted.routing_failover_count + one_if (ends_with "_failover" outcome);
      updated_at = now;
    }

unfoldable pub record_prompt_cache_result :
    Pool
    → String
    → String
    → RequestIdentity
    → PromptCacheUsage
    → Affinities
    → String
    → Timestamp
    → Pool
unfolding agent_kind stat_key get insert count_result
record_prompt_cache_result p id model identity usage affinities outcome now =
    let kind = agent_kind identity in
    let key = stat_key id model kind in
    let stat = record (unwrap_or (get key p.prompt_cache) no_stat) {
      account_id = id;
      model_id = model;
      agent_kind = kind;
    } in
    put_state p (record p.state {
      prompt_cache = insert key (count_result affinities outcome usage now stat) p.prompt_cache;
    })

unfoldable pub note_unrecognized_failure : Pool → String → String → RequestIdentity → Pool
unfolding agent_kind stat_key get insert
note_unrecognized_failure p id model identity =
    let key = stat_key id model (agent_kind identity) in
    let stat = unwrap_or (get key p.prompt_cache) no_stat in
    put_state p (record p.state {
      prompt_cache =
          insert key
            (record stat { unrecognized_failure_count = stat.unrecognized_failure_count + 1 })
            p.prompt_cache;
    })

-- The outcome that a cooldown's reason names.
unfoldable pub cooldown_outcome : String → Option String
unfolding sanitized_error_code any
cooldown_outcome reason =
    let code = sanitized_error_code reason in
    if str_eq code "rate_limited"
    then some "rate_limit_failover"
    else if among code (
        "account_auth_failed" ∷ "invalid_token" ∷ "token_invalidated" ∷ "token_revoked"
        ∷ "unauthorized" ∷ "forbidden" ∷ [])
    then some "auth_failover"
    else if str_eq code "upstream_transport_error"
    then some "transport_failover"
    else if str_eq code "upstream_5xx"
    then some "repeated_5xx_failover"
    else none

-- The loop over the account's cooldowns.
unfoldable pub cooldowns_outcome : String → Timestamp → List Cooldown → String
unfolding cooldown_outcome
cooldowns_outcome model now [] = ""
cooldowns_outcome model now (c ∷ cs) =
    let rest = cooldowns_outcome model now cs in
    if not (str_eq c.model_id model) || not (after c.next_retry_at now)
    then rest
    else unwrap_or (cooldown_outcome c.reason) rest

abbrev quota_blocks : Pool → Account → String → Timestamp → Option AccountQuota → Bool
quota_blocks p item model now none = false
quota_blocks p item model now (some quota) =
    quota_explicitly_blocks_routing quota model now p.quota_floor_percent
    || (quota_protection_status p item (quota_snapshot p item.id) now).blocked

abbrev is_false : Option Bool → Bool
is_false none = false
is_false (some b) = not b

unfoldable pub persisted_failover_outcome : Pool → String → String → Timestamp → String
unfolding account quota_snapshot quota_error_blocks_routing quota_explicitly_blocks_routing
    quota_protection_status manual_quota_available cooldowns_outcome
persisted_failover_outcome p id model now = elim (account p id) [
  | none ↦ "auth_failover"
  | some item ↦
      let snapshot = quota_snapshot p id in
      if quota_error_blocks_routing snapshot.quota_error
      then "auth_failover"
      else if quota_blocks p item model now snapshot.quota || is_false (manual_quota_available item)
      then "quota_failover"
      else cooldowns_outcome model now (cooldowns_of p id)
]
