-- ===== src/Proxy/Frame.antt =====
-- The calls that upstream/src/pool/proxy.rs makes of routing.rs and outcome.rs leave the count of the
-- requests under way alone.
use codex_provider.Base.{
  ℕ, ◌≡◌, ◌∙◌, refl, String, Bool, true, false, List, ◌&&◌, ◌||◌, not, ltb, if◌then◌else◌, str_eq,
  Result,
}
use codex_provider.Base.Text.{is_empty}
use codex_provider.Time.{Timestamp}
use codex_provider.State.{Pool, Account}
use codex_provider.State.Usage.{ProxyResponseInfo}
use codex_provider.Quota.{sanitized_error_code}
use codex_provider.Affinity.{prune_routing_cache_events}
use codex_provider.Select.{Draw, RoutingDecision, SelectError, Excluded}
use codex_provider.Select.Choice.{
  Own, answer, pass, drop_route, after_own, select_account_with_preference,
  select_account_for_route, note_session_placement,
}
use codex_provider.Outcome.{
  mark_failure, mark_cooldown, mark_account_auth_failure, quarantine_credential, append_cooldown,
  clear_capacity_cooldowns, note_capacity_event, mark_retryable_terminal_response_failure,
  note_failure_health, count_failure, reason_or,
}
use codex_provider.Outcome.Success.{
  bind_success, record_lineage_success, bind_health, bind_sticky, bind_lineage, bind_thread,
  bind_response,
}
use codex_provider.Outcome.Cache.{Affinities, record_prompt_cache_result, note_unrecognized_failure}
use codex_provider.Outcome.Events.{append_routing_cache_event, push_event, routing_outcome}
use codex_provider.Outcome.Whole.{
  settle_account, settle_terminal, settle_success, terminal_class, no_affinities,
}

abbrev pub active : Pool → ℕ
active p = p.active_proxy_requests

-- Two pools with the same count, chosen by a test.
pub either-active :
    (b : Bool) (p q : Pool) (n : ℕ) → active p ≡ n → active q ≡ n → active (if b then p else q) ≡ n
either-active true p q n e f = e
either-active false p q n e f = f

append_cooldown-active :
    (p : Pool) (id model reason : String) (at now : Timestamp)
    → active (append_cooldown p id model reason at now) ≡ active p
unfolding append_cooldown
append_cooldown-active p id model reason at now = refl

note_failure_health-active :
    (p : Pool) (id reason : String) (now : Timestamp)
    → active (note_failure_health p id reason now) ≡ active p
unfolding note_failure_health
note_failure_health-active p id reason now = refl

pub placement-active :
    (p : Pool) (key id : String) (now : Timestamp)
    → active (note_session_placement p key id now) ≡ active p
unfolding note_session_placement
placement-active p key id now = either-active _ p _ (active p) refl refl

pub mark_failure-active :
    (p : Pool) (id model reason : String) (duration : ℕ) (now : Timestamp)
    → active (mark_failure p id model reason duration now).0 ≡ active p
unfolding mark_failure append_cooldown
mark_failure-active p id model reason duration now =
    either-active (ltb 0 duration) _ _ (active p) refl refl

pub mark_cooldown-active :
    (p : Pool) (id model reason : String) (duration : ℕ) (now : Timestamp)
    → active (mark_cooldown p id model reason duration now) ≡ active p
unfolding mark_cooldown append_cooldown
mark_cooldown-active p id model reason duration now =
    either-active (ltb 0 duration) _ p (active p) refl refl

quarantine-active :
    (p : Pool) (id model reason : String) (now : Timestamp)
    → active (quarantine_credential p id model reason now) ≡ active p
unfolding quarantine_credential append_cooldown
quarantine-active p id model reason now = either-active _ _ _ (active p) refl refl

pub note_capacity_event-active :
    (p : Pool) (id model code : String) (now : Timestamp)
    → active (note_capacity_event p id model code now) ≡ active p
unfolding note_capacity_event
note_capacity_event-active p id model code now = either-active _ p _ (active p) refl refl

pub clear_capacity_cooldowns-active :
    (p : Pool) (ids : List String) (model : String) (now : Timestamp)
    → active (clear_capacity_cooldowns p ids model now) ≡ active p
unfolding clear_capacity_cooldowns
clear_capacity_cooldowns-active p ids model now = either-active _ _ _ (active p) refl refl

pub mark_account_auth_failure-active :
    (p : Pool) (id model code : String) (now : Timestamp)
    → active (mark_account_auth_failure p id model code now) ≡ active p
unfolding mark_account_auth_failure note_failure_health
mark_account_auth_failure-active p id model code now =
    let reason = reason_or (sanitized_error_code code) "account_auth_failed" in
    quarantine-active (count_failure (note_failure_health p id reason now)) id model reason now

pub retryable-active :
    (p : Pool) (id model code : String) (cool_down : Bool) (now : Timestamp)
    → active (mark_retryable_terminal_response_failure p id model code cool_down now) ≡ active p
unfolding mark_retryable_terminal_response_failure append_cooldown note_failure_health
retryable-active p id model code cool_down now =
    let reason = reason_or (sanitized_error_code code) "upstream_response_failed" in
    let noted =
      note_capacity_event-active (note_failure_health p id reason now) id model reason now in
    either-active cool_down _ _ (active p) noted noted

pub settle_account-active :
    (p : Pool) (id model class reason : String) (cool_down : Bool) (now : Timestamp)
    → active (settle_account p id model class reason cool_down now) ≡ active p
unfolding settle_account append_cooldown note_failure_health
settle_account-active p id model class reason cool_down now =
    let noted = note_failure_health p id reason now in
    either-active (str_eq class "capacity" || str_eq class "transient") _ _ (active p)
      (either-active cool_down _ noted (active p) refl refl)
      (either-active (str_eq class "authentication") _ p (active p)
        (quarantine-active noted id model reason now) refl)

either_first-active :
    (b : Bool) (x y : Pool × Bool) (n : ℕ)
    → active x.0 ≡ n
    → active y.0 ≡ n
    → active (if b then x else y).0 ≡ n
either_first-active true x y n e f = e
either_first-active false x y n e f = f

prune_events-active :
    (p : Pool) (now : Timestamp) → active (prune_routing_cache_events p now).0 ≡ active p
unfolding prune_routing_cache_events
prune_events-active p now = either_first-active _ (p, false) _ (active p) refl refl

append_event-active :
    (p : Pool) (route : RoutingDecision) (model id failover_from outcome : String)
    (info : ProxyResponseInfo) (now : Timestamp)
    → active (append_routing_cache_event p route model id failover_from outcome info now) ≡ active p
unfolding append_routing_cache_event push_event
append_event-active p route model id failover_from outcome info now = prune_events-active p now

pub settle_terminal-active :
    (p : Pool) (route : RoutingDecision) (model id : String) (info : ProxyResponseInfo)
    (now : Timestamp)
    → active (settle_terminal p route model id info now) ≡ active p
unfolding settle_terminal record_prompt_cache_result note_unrecognized_failure
settle_terminal-active p route model id info now =
    let outcome : String = "upstream_response_failed" in
    let q =
      record_prompt_cache_result p id model route.identity info.usage no_affinities outcome now in
    let r =
      if str_eq (terminal_class info) "unknown"
      then note_unrecognized_failure q id model route.identity
      else q in
    append_event-active r route model id info.failover_from_account_id outcome info now
    ∙ either-active (str_eq (terminal_class info) "unknown") _ q (active p) refl refl

pub settle_success-active :
    (p : Pool) (route : RoutingDecision) (model id prior : String) (info : ProxyResponseInfo)
    (a : Affinities) (now : Timestamp)
    → active (settle_success p route model id prior info a now) ≡ active p
unfolding settle_success record_prompt_cache_result
settle_success-active p route model id prior info a now =
    let (outcome, failover_from) = routing_outcome p route model id prior info a now in
    append_event-active
      (record_prompt_cache_result p id model route.identity info.usage a outcome now) route model id
      failover_from outcome info now

bind_thread-active :
    (p : Pool) (route : RoutingDecision) (model id : String) (now : Timestamp)
    → active (bind_thread p route model id now) ≡ active p
bind_thread-active p route model id now =
    either-active (is_empty route.identity.thread_id) p _ (active p) refl refl

bind_response-active :
    (p : Pool) (route : RoutingDecision) (model id response_id : String) (now : Timestamp)
    → active (bind_response p route model id response_id now) ≡ active p
bind_response-active p route model id response_id now =
    either-active (is_empty response_id) p _ (active p) refl refl

bind_lineage-active :
    (p : Pool) (route : RoutingDecision) (id : String) (now : Timestamp)
    → active (bind_lineage p route id now) ≡ active p
unfolding record_lineage_success
bind_lineage-active p route id now =
    either-active (route.lineage_affinity && not (is_empty route.identity.lineage_root_id)) _ p
      (active p) refl refl

pub bind_success-active :
    (p : Pool) (route : RoutingDecision) (model id response_id : String) (now : Timestamp)
    → active (bind_success p route model id response_id now) ≡ active p
unfolding bind_success
bind_success-active p route model id response_id now =
    let q = bind_sticky (bind_health p id now) route model id now in
    let r = bind_thread q route model id now in
    bind_response-active (bind_lineage r route id now) route model id response_id now
    ∙ bind_lineage-active r route id now
    ∙ bind_thread-active q route model id now

module _ (draw : Draw) where
  after_own-active :
      (p : Pool) (key balance_key model parent : String) (excluded : Excluded) (now : Timestamp)
      (own : Own)
      → active (after_own draw p key balance_key model parent excluded now own).0 ≡ active p
  unfolding after_own
  after_own-active p key balance_key model parent excluded now (answer r) = refl
  after_own-active p key balance_key model parent excluded now pass = refl
  after_own-active p key balance_key model parent excluded now drop_route = refl

  preference-active :
      (p : Pool) (key balance_key model parent : String) (excluded : Excluded) (now : Timestamp)
      → active (select_account_with_preference draw p key balance_key model parent excluded now).0
        ≡ active p
  unfolding select_account_with_preference
  preference-active p key balance_key model parent excluded now =
      after_own-active p key balance_key model parent excluded now _

  either_selected-active :
      (b : Bool) (x y : Pool × RoutingDecision × Result SelectError Account) (n : ℕ)
      → active x.0 ≡ n
      → active y.0 ≡ n
      → active (if b then x else y).0 ≡ n
  either_selected-active true x y n e f = e
  either_selected-active false x y n e f = f

  pub select-active :
      (p : Pool) (route : RoutingDecision) (model : String) (excluded : Excluded) (now : Timestamp)
      → active (select_account_for_route draw p route model excluded now).0 ≡ active p
  unfolding select_account_for_route
  select-active p route model excluded now =
      either_selected-active _ _ _ (active p) refl
        (preference-active p route.sticky_key _ model route.lineage_account_id excluded now)
