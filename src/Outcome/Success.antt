-- ===== src/Outcome/Success.antt =====
-- upstream/src/pool/outcome.rs, `mark_success_with_measurement` and `record_lineage_success`: the
-- health and the bindings after a success.
use codex_provider.Base.Maps.{get, insert}
use codex_provider.Base.Text.{is_empty}
use codex_provider.Base.{ℕ, String, ◌&&◌, not, Option, none, some, if◌then◌else◌, str_eq}
use codex_provider.Time.{Timestamp, add, after, is_zero}
use codex_provider.Affinity.{put_state, sticky_ttl, thread_binding_state_key, identity_parent_id}
use codex_provider.State.{Pool}
use codex_provider.State.Bindings.{StickySession, ThreadBinding, LineageBinding}
use codex_provider.Select.{RoutingDecision}
use codex_provider.Outcome.{health_of, put_health}

-- The binding of the lineage that is in force.
unfoldable pub live_lineage_binding : Pool → String → Timestamp → Option LineageBinding
unfolding get
live_lineage_binding p root now = elim (get root p.lineage_bindings) [
  | none ↦ none
  | some b ↦ if not (is_empty b.account_id) && after b.expires_at now then some b else none
]

abbrev pub fresh_lineage : RoutingDecision → String → Timestamp → LineageBinding
fresh_lineage route id now = record {
  lineage_root_id = route.identity.lineage_root_id;
  account_id = id;
  failover_from =
      (if not (is_empty route.lineage_account_id) && not (str_eq route.lineage_account_id id)
        then route.lineage_account_id
        else "");
  created_at = now;
  moved_at = now;
  last_success_at = 0;
  expires_at = 0;
}

-- The binding after a success: new, kept, moved, or only kept alive by a stale success.
unfoldable pub lineage_after :
    RoutingDecision → String → Timestamp → ℕ → Option LineageBinding → LineageBinding
unfolding add
lineage_after route id now ttl none = record (fresh_lineage route id now) {
  last_success_at = now;
  expires_at = add now ttl;
}
lineage_after route id now ttl (some current) =
    if str_eq current.account_id id
    then record current { last_success_at = now; expires_at = add now ttl }
    else if str_eq route.lineage_account_id current.account_id
    then record current {
      account_id = id;
      failover_from = current.account_id;
      moved_at = now;
      last_success_at = now;
      expires_at = add now ttl;
    }
    else record current { expires_at = add now ttl }

unfoldable pub record_lineage_success : Pool → RoutingDecision → String → Timestamp → Pool
unfolding live_lineage_binding lineage_after sticky_ttl insert
record_lineage_success p route id now =
    let root = route.identity.lineage_root_id in
    put_state p (record p.state {
      lineage_bindings =
          insert root (lineage_after route id now (sticky_ttl p) (live_lineage_binding p root now))
            p.lineage_bindings;
    })

abbrev first_set : Timestamp → Timestamp → Timestamp
first_set t now = if is_zero t then now else t

abbrev pub bind_health : Pool → String → Timestamp → Pool
bind_health p id now =
    put_health p id (record (health_of p id) { last_success_at = now; consecutive_failure = 0 })

-- The session's own binding after a success on account `id`.
unfoldable pub sticky_after :
    String → String → String → Timestamp → ℕ → Option StickySession → StickySession
unfolding add
sticky_after key model id now ttl none = record {
  key = key;
  model_id = model;
  account_id = id;
  created_at = now;
  last_success_at = now;
  expires_at = add now ttl;
  failover_from = "";
}
sticky_after key model id now ttl (some prior) = record {
  key = key;
  model_id = model;
  account_id = id;
  created_at = first_set prior.created_at now;
  last_success_at = now;
  expires_at = add now ttl;
  failover_from =
      (if not (is_empty prior.account_id) && not (str_eq prior.account_id id)
        then prior.account_id
        else prior.failover_from);
}

abbrev created_of : Option ThreadBinding → Timestamp
created_of none = 0
created_of (some b) = b.created_at

unfoldable pub thread_after :
    RoutingDecision → String → String → Timestamp → ℕ → Option ThreadBinding → ThreadBinding
unfolding add identity_parent_id
thread_after route model id now ttl prior = record {
  thread_id = route.identity.thread_id;
  session_id = route.identity.session_id;
  parent_thread_id = identity_parent_id route.identity;
  lineage_root_id =
      (if is_empty route.identity.lineage_root_id
        then route.identity.thread_id
        else route.identity.lineage_root_id);
  subagent_kind = route.identity.subagent_kind;
  model_id = model;
  account_id = id;
  sticky_key = route.sticky_key;
  prompt_cache_key = route.upstream_prompt_cache_key;
  created_at = first_set (created_of prior) now;
  last_success_at = now;
  expires_at = add now ttl;
}

abbrev pub bind_thread : Pool → RoutingDecision → String → String → Timestamp → Pool
bind_thread p route model id now =
    let key = thread_binding_state_key model route.identity.thread_id in
    if is_empty route.identity.thread_id
    then p
    else put_state p (record p.state {
      thread_bindings =
          insert key (thread_after route model id now (sticky_ttl p) (get key p.thread_bindings))
            p.thread_bindings;
    })

abbrev pub bind_response : Pool → RoutingDecision → String → String → String → Timestamp → Pool
bind_response p route model id response_id now =
    if is_empty response_id
    then p
    else put_state p (record p.state {
      response_bindings =
          insert response_id
            (record {
              response_id = response_id;
              sticky_key = route.sticky_key;
              model_id = model;
              account_id = id;
              created_at = now;
              expires_at = add now (sticky_ttl p);
            })
            p.response_bindings;
    })

abbrev pub bind_sticky : Pool → RoutingDecision → String → String → Timestamp → Pool
bind_sticky p route model id now = put_state p (record p.state {
  sticky_sessions =
      insert route.sticky_key
        (sticky_after route.sticky_key model id now (sticky_ttl p)
          (get route.sticky_key p.sticky_sessions))
        p.sticky_sessions;
})

abbrev pub bind_lineage : Pool → RoutingDecision → String → Timestamp → Pool
bind_lineage p route id now =
    if route.lineage_affinity && not (is_empty route.identity.lineage_root_id)
    then record_lineage_success p route id now
    else p

-- The part of `mark_success_with_measurement` that routing reads again: the account's health and the
-- bindings of the session, the thread, the lineage and the response.
unfoldable pub bind_success : Pool → RoutingDecision → String → String → String → Timestamp → Pool
unfolding get insert sticky_after thread_after record_lineage_success sticky_ttl add
    thread_binding_state_key
bind_success p route model id response_id now =
    let q = bind_sticky (bind_health p id now) route model id now in
    let r = bind_lineage (bind_thread q route model id now) route id now in
    bind_response r route model id response_id now
