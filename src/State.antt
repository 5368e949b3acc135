-- ===== src/State.antt =====
-- upstream/src/pool/state.rs and the state that app.rs guards by one lock (`Inner`), as far as
-- routing and its outcomes read or write it. A `BTreeMap` that is absent is an empty one. The
-- flattened `extra` maps, which only carry fields of newer versions through a save, are left out.
pub mod Quota
pub mod Bindings
pub mod Usage
use codex_provider.Base.Int.{ℤ}
use codex_provider.Base.Maps.{Map}
use codex_provider.Base.{ℕ, String, Bool, Option, List}
use codex_provider.Time.{Timestamp}
use Quota.{QuotaSnapshot}
use Usage.{PromptCacheStat, ThroughputBucket}
use Bindings.{StickySession, ResponseBinding, ThreadBinding, LineageBinding, SessionPlacement}

-- The fields of an account that decide about routing.
pub record Account : Type 0 where
  pub id : String
  pub email : String
  pub account_id : String
  pub organization_name : String
  pub plan_type : String
  pub plan_limit : String
  pub plan_family : String
  pub seat_type : String
  pub auth_type : String
  pub enabled : Bool
  pub in_pool : Bool
  pub priority : ℤ
  pub remaining_quota : Option ℤ
  pub quota_protection_enabled : Bool
  pub quota_protection_threshold : ℤ
  pub quota_protection_weekly_threshold : Option ℤ
  pub allowed_models : List String
  pub excluded_models : List String
  pub upstream_base_url : String
  pub pending_auth_verification : Bool

pub record Cooldown : Type 0 where
  pub model_id : String
  pub next_retry_at : Timestamp
  pub reason : String

pub record AccountHealth : Type 0 where
  pub last_success_at : Timestamp
  pub last_failure_at : Timestamp
  pub last_failure_reason : String
  pub consecutive_failure : ℕ

pub record CapacityEvent : Type 0 where
  pub timestamp : Timestamp
  pub account_id : String
  pub model_id : String
  pub code : String

-- A routing diagnostic. Left out are the hashed identifiers, the two floating-point rates, and the
-- fields that copy the pre-commit diagnostics and the client's fingerprint.
pub record RoutingCacheEvent : Type 0 where
  pub timestamp : Timestamp
  pub model_id : String
  pub account_id : String
  pub agent_kind : String
  pub routing_outcome : String
  pub routing_source : String
  pub terminal_event : String
  pub terminal_failure_class : String
  pub terminal_error_code : String
  pub parent_affinity : String
  pub failover_from_account_id : String
  pub usage_observed : Bool
  pub input_tokens : ℕ
  pub cached_tokens : ℕ
  pub cache_write_tokens : Option ℕ
  pub uncached_input_tokens : ℕ
  pub cache_reuse_balance : Option ℤ
  pub cache_hit : Bool
  pub cold_cache_eligible : Bool

pub record LoginJob : Type 0 where
  pub account_id : String
  pub status : String

-- The global quota reserve.
pub record QuotaReserve : Type 0 where
  pub enabled : Bool
  pub five_hour : ℤ
  pub weekly : ℤ

-- What `codex_auth` reads of an account's auth.json.
pub record CodexAuthInfo : Type 0 where
  pub account_id : String
  pub email : String
  pub organization_name : String

pub record RuntimeState : Type 0 where
  pub cooldowns : Map (List Cooldown)
  pub health : Map AccountHealth
  pub quotas : Map QuotaSnapshot
  pub sticky_sessions : Map StickySession
  pub response_bindings : Map ResponseBinding
  pub thread_bindings : Map ThreadBinding
  pub lineage_bindings : Map LineageBinding
  pub routing_cache_events : List RoutingCacheEvent
  pub capacity_events : List CapacityEvent
  pub prompt_cache : Map PromptCacheStat
  pub prompt_cache_baseline : Map PromptCacheStat
  pub prompt_cache_reset_at_by_account : Map Timestamp
  pub request_count : ℕ
  pub success_count : ℕ
  pub failure_count : ℕ
  pub stream_incomplete_count : ℕ
  pub upstream_response_failed_count : ℕ
  pub updated_at : Timestamp

-- `Inner`: the settings and tuning that routing reads, the accounts, the runtime state, the
-- switches, the login jobs and the placements. Two fields are the outside world's part: `auth_files`,
-- what a read of an account's auth.json gives now, and `clock`, what the clock reads where a
-- comparison of accounts reads it itself.
pub record Pool : Type 0 where
  pub routing_strategy : String
  pub session_affinity_ttl : ℕ
  pub quota_floor_percent : ℕ
  pub premium_seat_weight : ℕ
  pub accounts : List Account
  pub config_updated_at : Timestamp
  pub state : RuntimeState
  pub open state use *
  pub preserve_pro_quota : Bool
  pub lineage_affinity : Bool
  pub quota_reserve : QuotaReserve
  pub jobs : Map LoginJob
  pub session_placements : Map SessionPlacement
  pub throughput_buckets : List ThroughputBucket
  pub active_proxy_requests : ℕ
  pub auth_files : String → Option CodexAuthInfo
  pub clock : Timestamp
