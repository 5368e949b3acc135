-- ===== src/Outcome/Events.antt =====
-- upstream/src/pool/outcome.rs: the routing diagnostics, the outcome they name, and what is forgotten
-- with an account.
use codex_provider.Base.Int.{ℤ}
use codex_provider.Base.Maps.{get, insert, remove, retain}
use codex_provider.Base.Text.{is_empty}
use codex_provider.Base.{
  ◌-◌, String, Bool, ◌&&◌, ◌||◌, not, Option, none, some, [], ◌∷◌, ◌++◌, length, drop, filter, leb,
  ltb, ◌==◌, if◌then◌else◌, str_eq,
}
use codex_provider.Time.{Timestamp, is_zero}
use codex_provider.Quota.{sanitized_error_code, is_some}
use codex_provider.Eligibility.{quota_snapshot}
use codex_provider.Affinity.{
  put_state, prune_routing_cache_events, routing_cache_event_limit, clear_sticky_for_account,
}
use codex_provider.State.{Pool, AccountHealth, RoutingCacheEvent}
use codex_provider.State.Quota.{QuotaSnapshot}
use codex_provider.State.Usage.{PromptCacheUsage, PromptCacheStat, ProxyResponseInfo}
use codex_provider.Select.{RoutingDecision}
use codex_provider.Outcome.{no_health}
use codex_provider.Outcome.Cache.{
  Affinities, agent_kind, normalized_routing_outcome, routing_event_source, token_balance,
  persisted_failover_outcome, prompt_cache_min_tokens,
}

-- The outcome and the account that it moved from; `prior` is the account of the session before.
unfoldable pub routing_outcome :
    Pool
    → RoutingDecision
    → String
    → String
    → String
    → ProxyResponseInfo
    → Affinities
    → Timestamp
    → String × String
unfolding normalized_routing_outcome persisted_failover_outcome
routing_outcome p route model id prior info a now =
    let normalized = normalized_routing_outcome info.failover_outcome in
    let persisted = persisted_failover_outcome p prior model now in
    if not (is_empty normalized)
    then (normalized, info.failover_from_account_id)
    else if not (is_empty prior) && not (str_eq prior id) && not (is_empty persisted)
    then (persisted, prior)
    else if a.parent_affinity_hit
    then ("parent_affinity", "")
    else if a.parent_affinity_fallback
    then ("parent_affinity_fallback", "")
    else if not (is_empty prior) && str_eq prior id
    then ("sticky_reuse", "")
    else if route.lineage_affinity && not (is_empty prior) && str_eq route.lineage_account_id id
    then ("lineage_follow", prior)
    else ("new_route_assignment", "")

unfoldable pub event_affinity : RoutingDecision → String → String
event_affinity route id =
    if not route.parent_affinity_attempted
    then "not_attempted"
    else if not (is_empty route.lineage_account_id) && str_eq route.lineage_account_id id
    then "hit"
    else "fallback"

unfoldable pub event_balance : PromptCacheUsage → Option ℤ
unfolding token_balance
event_balance usage = elim usage.cache_write_tokens [
  | none ↦ none
  | some written ↦ some (token_balance usage.cached_tokens written)
]

unfoldable pub routing_event :
    RoutingDecision
    → String
    → String
    → String
    → String
    → ProxyResponseInfo
    → Timestamp
    → RoutingCacheEvent
unfolding agent_kind routing_event_source sanitized_error_code event_affinity event_balance
routing_event route model id failover_from outcome info now = record {
  timestamp = now;
  model_id = model;
  account_id = id;
  agent_kind = agent_kind route.identity;
  routing_outcome = outcome;
  routing_source = routing_event_source route.source;
  terminal_event = info.terminal_event;
  terminal_failure_class = info.terminal_failure_class;
  terminal_error_code = sanitized_error_code info.terminal_error_code;
  parent_affinity = event_affinity route id;
  failover_from_account_id = failover_from;
  usage_observed = info.usage.present;
  input_tokens = info.usage.input_tokens;
  cached_tokens = info.usage.cached_tokens;
  cache_write_tokens = info.usage.cache_write_tokens;
  uncached_input_tokens = info.usage.input_tokens - info.usage.cached_tokens;
  cache_reuse_balance = event_balance info.usage;
  cache_hit = info.usage.present && ltb 0 info.usage.cached_tokens;
  cold_cache_eligible =
      info.usage.present
      && leb prompt_cache_min_tokens info.usage.input_tokens
      && info.usage.cached_tokens == 0;
}

unfoldable pub push_event : Pool → RoutingCacheEvent → Pool
push_event p event =
    let events = p.routing_cache_events ++ event ∷ [] in
    put_state p (record p.state {
      routing_cache_events = drop (length events - routing_cache_event_limit) events;
    })

unfoldable pub append_routing_cache_event :
    Pool
    → RoutingDecision
    → String
    → String
    → String
    → String
    → ProxyResponseInfo
    → Timestamp
    → Pool
unfolding prune_routing_cache_events routing_event push_event
append_routing_cache_event p route model id failover_from outcome info now =
    push_event (prune_routing_cache_events p now).0
      (routing_event route model id failover_from outcome info now)

abbrev pub other_stat : String → PromptCacheStat → Bool
other_stat id stat = not (str_eq stat.account_id id)

unfoldable pub clear_account_identity_scoped_state : Pool → String → Pool
unfolding remove retain filter clear_sticky_for_account
clear_account_identity_scoped_state p id =
    let q =
      clear_sticky_for_account
        (put_state p (record p.state {
          health = remove id p.health;
          cooldowns = remove id p.cooldowns;
          quotas = remove id p.quotas;
          prompt_cache = retain (other_stat id) p.prompt_cache;
          prompt_cache_baseline = retain (other_stat id) p.prompt_cache_baseline;
          prompt_cache_reset_at_by_account = remove id p.prompt_cache_reset_at_by_account;
        }))
        id in
    record q {
      throughput_buckets = filter (λ b. not (str_eq b.account_id id)) q.throughput_buckets;
    }

abbrev has_evidence : QuotaSnapshot → Bool
has_evidence s =
    not (is_empty s.account_id)
    || is_some s.quota
    || is_some s.quota_error
    || not (is_zero s.usage_updated_at)

-- The maps are there: `load` makes them.
unfoldable pub clear_account_runtime_state : Pool → String → Pool
unfolding get insert remove quota_snapshot
clear_account_runtime_state p id =
    let health : AccountHealth = (elim (get id p.health) [
      | none ↦ no_health
      | some h ↦ record h { consecutive_failure = 0; last_failure_reason = "" }
    ]) in
    let snapshot = quota_snapshot p id in
    put_state p (record p.state {
      health = insert id health p.health;
      cooldowns = remove id p.cooldowns;
      quotas =
          (if has_evidence snapshot
            then insert id (record snapshot { account_id = id; quota_error = none }) p.quotas
            else p.quotas);
    })
