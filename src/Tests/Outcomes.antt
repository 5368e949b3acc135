-- ===== src/Tests/Outcomes.antt =====
-- The outcomes of outcome.rs and the pruning of routing.rs on a pool of two logins.
use codex_provider.Base.Maps.{get}
use codex_provider.Base.Text.{is_empty}
use codex_provider.Base.{
  ◌+◌, ◌≤◌, ◌≡◌, refl, true, false, ◌&&◌, ◌||◌, not, some, [], ◌∷◌, All, filter, length, arith,
  str_eq, if◌then◌else◌,
}
use codex_provider.Time.{add, after, seconds, hours}
use codex_provider.Plan.{among}
use codex_provider.State.{Pool}
use codex_provider.Eligibility.{account_cooling_down, cooldowns_of, usable}
use codex_provider.Affinity.{
  sticky_session_expired, sticky_ttl, prune_expired_runtime_state, routing_cache_event_limit,
  lineage_account_id,
}
use codex_provider.Affinity.Prune.{prune-live, prune-lineage_account_id}
use codex_provider.Outcome.{
  append_cooldown, mark_failure, is_cleared, clear_capacity_cooldowns, capacity_watch_code,
  note_capacity_event, capacity_event_limit, capacity_event_ttl,
}
use codex_provider.Outcome.Success.{live_lineage_binding, record_lineage_success}
use codex_provider.Outcome.Cooldowns.{
  append_cooldown-cooling, mark_failure-not_usable, clear_capacity_cooldowns-kept,
}
use codex_provider.Outcome.Lineage.{holder, record_lineage_success-account}
use codex_provider.Outcome.Watch.{note_capacity_event-bounded}
use codex_provider.Time.{minutes}
use codex_provider.Tests.{moment, ann, bound_pool, no_state, pool_of, route_of}

append_cooldown-cooling_example :
    account_cooling_down
      (append_cooldown bound_pool "ann" "m" "slow_down" (moment + seconds 30) moment)
      "ann"
      "m"
      (moment + seconds 10)
    ≡ account_cooling_down bound_pool "ann" "m" (moment + seconds 10)
      || (str_eq "ann" "ann"
          && (is_empty "m" || str_eq "m" "m")
          && after (moment + seconds 30) (moment + seconds 10))
append_cooldown-cooling_example =
    append_cooldown-cooling bound_pool "ann" "m" "slow_down" (moment + seconds 30) moment "ann" "m"
      (moment + seconds 10) (omega arith)

mark_failure-not_usable_example :
    usable
      (mark_failure bound_pool "ann" "m" "slow_down" (seconds 30) moment).0
      ann
      "m"
      (moment + seconds 10)
    ≡ false
unfolding add
mark_failure-not_usable_example =
    mark_failure-not_usable bound_pool ann "m" "slow_down" (seconds 30) moment (moment + seconds 10)
      (omega arith) (omega arith) (omega arith)

-- `ann` was told to slow down, and that its token is not valid.
abbrev tired_pool : Pool
tired_pool = pool_of (ann ∷ []) (record no_state {
  cooldowns =
      (
        "ann",
        record { model_id = "m"; next_retry_at = moment + seconds 30; reason = "slow_down" }
            ∷ record {
              model_id = "m";
              next_retry_at = moment + seconds 30;
              reason = "invalid_token";
            }
            ∷ [],
      )
      ∷ [];
})

clear_capacity_cooldowns-kept_example :
    cooldowns_of (clear_capacity_cooldowns tired_pool ("ann" ∷ []) "m" moment) "ann" ≡ (
      if among "ann" ("ann" ∷ [])
      then filter (λ c. not (is_cleared "m" c)) (cooldowns_of tired_pool "ann")
      else cooldowns_of tired_pool "ann")
clear_capacity_cooldowns-kept_example =
    clear_capacity_cooldowns-kept tired_pool ("ann" ∷ []) "m" moment "ann"

-- A request that was not routed by the binding succeeds on `bob`: `ann` holds the lineage, a minute
-- later too.
record_lineage_success-account_example :
    lineage_account_id
      (record_lineage_success bound_pool (route_of "t" "root") "bob" moment)
      "root"
      (moment + minutes 1)
    ≡ some (holder "" "bob" (live_lineage_binding bound_pool "root" moment))
unfolding sticky_ttl
record_lineage_success-account_example =
    record_lineage_success-account bound_pool (route_of "t" "root") "bob" moment
      (moment + minutes 1) refl refl (omega arith) (omega arith)

note_capacity_event-bounded_example :
    let q = note_capacity_event bound_pool "ann" "m" "slow_down" moment in
    if capacity_watch_code "slow_down"
    then (length q.capacity_events ≤ capacity_event_limit)
      × All (λ e. moment ≤ e.timestamp + capacity_event_ttl) q.capacity_events
    else q ≡ bound_pool
note_capacity_event-bounded_example =
    note_capacity_event-bounded bound_pool "ann" "m" "slow_down" moment

-- Two hours later the session and the lineage have expired.
prune-live_example :
    let q = (prune_expired_runtime_state bound_pool (moment + hours 2)).0 in
    All
      (λ e. not (sticky_session_expired bound_pool e.1 (moment + hours 2)) ≡ true)
      q.sticky_sessions
    × All (λ e. after e.1.expires_at (moment + hours 2) ≡ true) q.response_bindings
    × All (λ e. after e.1.expires_at (moment + hours 2) ≡ true) q.thread_bindings
    × All (λ e. after e.1.expires_at (moment + hours 2) ≡ true) q.lineage_bindings
    × (length q.routing_cache_events ≤ routing_cache_event_limit)
prune-live_example = prune-live bound_pool (moment + hours 2)

prune-lineage_account_id_example :
    lineage_account_id (prune_expired_runtime_state bound_pool moment).0 "root" moment
    ≡ lineage_account_id bound_pool "root" moment
unfolding get
prune-lineage_account_id_example = prune-lineage_account_id bound_pool "root" moment (refl, tt)
