-- ===== src/State/Usage.antt =====
-- What one request leaves behind: the usage it reports (upstream/src/pool/response_info.rs), its
-- throughput measurement (outcome.rs) and the statistics that are kept of it (state.rs). A counter
-- (`u64`) is a natural number: none reaches 2^64 in a process's life.
use codex_provider.Base.{ℕ, String, Bool, Option, List}
use codex_provider.Time.{Timestamp}

pub record PromptCacheUsage : Type 0 where
  pub input_tokens : ℕ
  pub cached_tokens : ℕ
  pub cache_write_tokens : Option ℕ
  pub output_tokens : ℕ
  pub output_present : Bool
  pub present : Bool

-- What the outcome of a request reads of the response. The fields that only the log shows are left
-- out.
pub record ProxyResponseInfo : Type 0 where
  pub response_id : String
  pub usage : PromptCacheUsage
  pub completed_at : Timestamp
  pub terminal_event : String
  pub terminal_failure_class : String
  pub terminal_error_code : String
  pub request_id : String
  pub failover_from_account_id : String
  pub failover_outcome : String

pub record ThroughputMeasurement : Type 0 where
  pub started_at : Timestamp
  pub completed_at : Timestamp
  pub account_id : String
  pub streaming : Bool
  pub success : Bool
  pub cancelled : Bool
  pub finished : Bool
  pub usage : PromptCacheUsage
  pub model : String
  pub cancel_reason : String

-- The requests of one account that were completed in one minute.
pub record ThroughputBucket : Type 0 where
  pub bucket_at : Timestamp
  pub account_id : String
  pub request_count : ℕ
  pub success_count : ℕ
  pub failure_count : ℕ
  pub cancelled_count : ℕ
  pub streaming_request_count : ℕ
  pub usage_observed_request_count : ℕ
  pub output_observed_request_count : ℕ
  pub input_tokens : ℕ
  pub cached_tokens : ℕ
  pub output_tokens : ℕ
  pub total_duration_millis : ℕ
  pub duration_histogram : List ℕ

pub record PromptCacheStat : Type 0 where
  pub account_id : String
  pub model_id : String
  pub agent_kind : String
  pub request_count : ℕ
  pub usage_observed_request_count : ℕ
  pub input_tokens : ℕ
  pub cached_tokens : ℕ
  pub cache_write_tokens : ℕ
  pub cache_write_input_tokens : ℕ
  pub cache_write_observed_request_count : ℕ
  pub cache_hit_request_count : ℕ
  pub cache_eligible_request_count : ℕ
  pub cold_request_count : ℕ
  pub parent_affinity_hit_count : ℕ
  pub parent_affinity_fallback_count : ℕ
  pub lineage_failover_count : ℕ
  pub routing_failover_count : ℕ
  pub unrecognized_failure_count : ℕ
  pub updated_at : Timestamp
