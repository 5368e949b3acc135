-- ===== src/Outcome.antt =====
-- upstream/src/pool/outcome.rs: what a request's outcome does to the pool: health, cooldowns,
-- quarantined credentials and the capacity watch; the bindings are in Success. Each call holds the
-- lock, so it is one step; the clock is read once, as `now`. Log lines are left out.
pub mod Cooldowns
pub mod Success
pub mod Lineage
pub mod Watch
pub mod Throughput
pub mod Cache
pub mod Events
pub mod Whole
pub mod Stats
pub mod Update
pub mod Tally
pub mod Traffic
use codex_provider.Base.Int.{ℤ}
use codex_provider.Base.Maps.{Map, get, insert, remove}
use codex_provider.Base.Text.{is_empty}
use codex_provider.Base.{
  ℕ, suc, ◌+◌, ◌-◌, ◌*◌, String, Bool, true, false, ◌&&◌, ◌||◌, not, Option, none, some, List, [],
  ◌∷◌, ◌++◌, length, drop, filter, any, ltb, leb, ◌==◌, if◌then◌else◌, str_eq, unwrap_or,
}
use codex_provider.Time.{Timestamp, add, after, before, seconds, minutes, hours, is_zero}
use codex_provider.Plan.{among, is_codex_device_auth}
use codex_provider.Quota.{sanitized_error_code}
use codex_provider.Identity.{account}
use codex_provider.Eligibility.{cooldowns_of, quota_snapshot}
use codex_provider.Affinity.{
  put_state, save, sticky_ttl, thread_binding_state_key, identity_parent_id,
}
use codex_provider.State.{Pool, Account, Cooldown, AccountHealth, CapacityEvent}
use codex_provider.State.Quota.{QuotaSnapshot, QuotaErrorInfo}
use codex_provider.State.Bindings.{
  StickySession, ThreadBinding, ResponseBinding, LineageBinding, RequestIdentity,
}
use codex_provider.Select.{RoutingDecision}

abbrev pub upstream_5xx_cooldown : ℕ
upstream_5xx_cooldown = seconds 10

abbrev pub upstream_5xx_failure_window : ℕ
upstream_5xx_failure_window = minutes 2

-- quota_schedule.rs MAX_INTERVAL.
abbrev pub max_interval : ℕ
max_interval = minutes 6

unfoldable pub retryable_terminal_cooldown : String → ℕ
unfolding any
retryable_terminal_cooldown reason =
    if among reason (
      "server_is_overloaded" ∷ "policy_capacity_unavailable" ∷ "slow_down" ∷ "server_error"
      ∷ "internal_server_error" ∷ [])
    then upstream_5xx_cooldown
    else if among reason (
        "usage_limit_reached" ∷ "usage_not_included" ∷ "insufficient_quota"
        ∷ "credit_balance_exhausted" ∷ "organization_spend_limit_exceeded"
        ∷ "project_spend_limit_exceeded" ∷ "organization_usage_limit_exceeded" ∷ [])
    then max_interval
    else seconds 30

unfoldable pub retryable_cooldown_reason : String → Bool
unfolding any
retryable_cooldown_reason reason = among reason (
    "server_is_overloaded" ∷ "policy_capacity_unavailable" ∷ "slow_down" ∷ "upstream_5xx"
    ∷ "server_error" ∷ "internal_server_error" ∷ [])

abbrev pub capacity_event_limit : ℕ
capacity_event_limit = 1000

abbrev pub capacity_event_ttl : ℕ
capacity_event_ttl = hours (7 * 24)

unfoldable pub capacity_watch_code : String → Bool
unfolding any
capacity_watch_code code =
    among code ("server_is_overloaded" ∷ "policy_capacity_unavailable" ∷ "slow_down" ∷ [])

unfoldable pub append_cooldown : Pool → String → String → String → Timestamp → Timestamp → Pool
unfolding filter get insert
append_cooldown p id model reason retry_at now =
    let kept = filter (λ entry. after entry.next_retry_at now) (cooldowns_of p id) in
    let new : Cooldown = record { model_id = model; next_retry_at = retry_at; reason = reason } in
    put_state p (record p.state { cooldowns = insert id (kept ++ new ∷ []) p.cooldowns })

-- `AccountHealth::default()`.
abbrev pub no_health : AccountHealth
no_health = record {
  last_success_at = 0;
  last_failure_at = 0;
  last_failure_reason = "";
  consecutive_failure = 0;
}

abbrev pub health_of : Pool → String → AccountHealth
health_of p id = unwrap_or (get id p.health) no_health

abbrev pub put_health : Pool → String → AccountHealth → Pool
put_health p id h = put_state p (record p.state { health = insert id h p.health })

unfoldable pub note_failure_health : Pool → String → String → Timestamp → Pool
unfolding get insert
note_failure_health p id reason now =
    let h = health_of p id in
    put_health p id (record h {
      last_failure_at = now;
      last_failure_reason = reason;
      consecutive_failure = h.consecutive_failure + 1;
    })

abbrev pub is_device_auth_slot : Pool → String → Bool
is_device_auth_slot p id = elim (account p id) [
  | none ↦ false
  | some item ↦ is_codex_device_auth item
]

unfoldable pub quarantine_credential : Pool → String → String → String → Timestamp → Pool
unfolding account is_codex_device_auth insert append_cooldown add quota_snapshot
quarantine_credential p id model reason now =
    let error : QuotaErrorInfo = record {
      code = reason;
      message = "account credential is unavailable; sign in again";
      timestamp = now;
    } in
    if is_device_auth_slot p id
    then put_state p (record p.state {
      quotas =
          insert id (record (quota_snapshot p id) { account_id = id; quota_error = some error })
            p.quotas;
    })
    else append_cooldown p id model reason (add now (minutes 15)) now

abbrev pub count_failure : Pool → Pool
count_failure p = put_state p (record p.state { failure_count = p.failure_count + 1 })

-- The failures that the new one continues: an `upstream_5xx` only continues a recent one.
unfoldable pub failures_before : AccountHealth → String → Timestamp → ℕ
failures_before h reason now =
    if str_eq reason "upstream_5xx"
      && (not (str_eq h.last_failure_reason reason)
          || ltb upstream_5xx_failure_window (now - h.last_failure_at))
    then 0
    else h.consecutive_failure

-- `mark_failure`, and the account's consecutive failures.
unfoldable pub mark_failure : Pool → String → String → String → ℕ → Timestamp → Pool × ℕ
unfolding get insert append_cooldown add failures_before
mark_failure p id model reason duration now =
    let h = health_of p id in
    let consecutive = failures_before h reason now + 1 in
    let q = count_failure (
      put_health p id (record h {
        last_failure_at = now;
        last_failure_reason = reason;
        consecutive_failure = consecutive;
      })) in
    let r =
      if ltb 0 duration then append_cooldown q id model reason (add now duration) now else q in
    (save r now, consecutive)

unfoldable pub mark_cooldown : Pool → String → String → String → ℕ → Timestamp → Pool
unfolding append_cooldown add
mark_cooldown p id model reason duration now =
    if ltb 0 duration
    then save (append_cooldown p id model reason (add now duration) now) now
    else p

abbrev pub reason_or : String → String → String
reason_or reason fallback = if is_empty reason then fallback else reason

unfoldable pub mark_account_auth_failure : Pool → String → String → String → Timestamp → Pool
unfolding sanitized_error_code note_failure_health quarantine_credential
mark_account_auth_failure p id model code now =
    let reason = reason_or (sanitized_error_code code) "account_auth_failed" in
    save
      (quarantine_credential (count_failure (note_failure_health p id reason now)) id model reason
        now)
      now

-- Whether a capacity round drops a cooldown.
unfoldable pub is_cleared : String → Cooldown → Bool
unfolding retryable_cooldown_reason
is_cleared model entry = str_eq entry.model_id model && retryable_cooldown_reason entry.reason

-- One round of the loop of `clear_capacity_cooldowns`.
unfoldable pub clear_account : String → Map (List Cooldown) → String → Map (List Cooldown)
unfolding filter is_cleared insert remove get
clear_account model cooldowns id =
    let kept = filter (λ entry. not (is_cleared model entry)) (unwrap_or (get id cooldowns) []) in
    elim kept [ [] ↦ remove id cooldowns | x ∷ xs ↦ insert id (x ∷ xs) cooldowns ]

unfoldable pub clear_accounts : String → Map (List Cooldown) → List String → Map (List Cooldown)
unfolding clear_account
clear_accounts model cooldowns [] = cooldowns
clear_accounts model cooldowns (id ∷ ids) =
    clear_accounts model (clear_account model cooldowns id) ids

-- `account_ids` are distinct: they are the keys of a map.
unfoldable pub clear_capacity_cooldowns : Pool → List String → String → Timestamp → Pool
unfolding clear_accounts any is_cleared get
clear_capacity_cooldowns p account_ids model now =
    let q =
      put_state p (record p.state { cooldowns = clear_accounts model p.cooldowns account_ids }) in
    let changed = any (λ id. any (is_cleared model) (cooldowns_of p id)) account_ids in
    if changed then save q now else q

unfoldable pub note_capacity_event : Pool → String → String → String → Timestamp → Pool
unfolding capacity_watch_code filter
note_capacity_event p id model code now =
    let cutoff = now - capacity_event_ttl in
    let event : CapacityEvent = record {
      timestamp = now;
      account_id = id;
      model_id = model;
      code = code;
    } in
    let events = filter (λ e. not (before e.timestamp cutoff)) p.capacity_events ++ event ∷ [] in
    let extra = length events - capacity_event_limit in
    if not (capacity_watch_code code)
    then p
    else put_state p (record p.state { capacity_events = drop extra events })

-- `info.terminal_error_code` is all that the function reads of the response.
unfoldable pub mark_retryable_terminal_response_failure :
    Pool → String → String → String → Bool → Timestamp → Pool
unfolding sanitized_error_code note_failure_health note_capacity_event append_cooldown add
    retryable_terminal_cooldown
mark_retryable_terminal_response_failure p id model terminal_error_code cool_down now =
    let reason = reason_or (sanitized_error_code terminal_error_code) "upstream_response_failed" in
    let q = note_capacity_event (note_failure_health p id reason now) id model reason now in
    let r =
      if cool_down
      then append_cooldown q id model reason (add now (retryable_terminal_cooldown reason)) now
      else q in
    save
      (put_state r (record r.state {
        failure_count = r.failure_count + 1;
        upstream_response_failed_count = r.upstream_response_failed_count + 1;
      }))
      now
