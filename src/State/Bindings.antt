-- ===== src/State/Bindings.antt =====
-- The bindings of sessions to accounts of upstream/src/pool/state.rs and routing.rs.
use codex_provider.Base.{String, Bool}
use codex_provider.Time.{Timestamp}

pub record StickySession : Type 0 where
  pub key : String
  pub model_id : String
  pub account_id : String
  pub created_at : Timestamp
  pub last_success_at : Timestamp
  pub expires_at : Timestamp
  pub failover_from : String

pub record ResponseBinding : Type 0 where
  pub response_id : String
  pub sticky_key : String
  pub model_id : String
  pub account_id : String
  pub created_at : Timestamp
  pub expires_at : Timestamp

pub record ThreadBinding : Type 0 where
  pub thread_id : String
  pub session_id : String
  pub parent_thread_id : String
  pub lineage_root_id : String
  pub subagent_kind : String
  pub model_id : String
  pub account_id : String
  pub sticky_key : String
  pub prompt_cache_key : String
  pub created_at : Timestamp
  pub last_success_at : Timestamp
  pub expires_at : Timestamp

pub record LineageBinding : Type 0 where
  pub lineage_root_id : String
  pub account_id : String
  pub failover_from : String
  pub created_at : Timestamp
  pub moved_at : Timestamp
  pub last_success_at : Timestamp
  pub expires_at : Timestamp

pub record SessionPlacement : Type 0 where
  pub account_id : String
  pub at : Timestamp

pub record RequestIdentity : Type 0 where
  pub session_id : String
  pub thread_id : String
  pub parent_thread_id : String
  pub forked_from_id : String
  pub lineage_root_id : String
  pub subagent_kind : String
  pub thread_source : String
  pub is_subagent : Bool
