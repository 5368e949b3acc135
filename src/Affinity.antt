-- ===== src/Affinity.antt =====
-- upstream/src/pool/routing.rs, `Inner`: the bindings of sessions, threads and lineages to accounts.
pub mod Prune
use Prim.Native.String.{◌++◌ as ◌<>◌}
use codex_provider.Base.Maps.{Map, get, remove, retain, values}
use codex_provider.Base.Text.{is_empty}
use codex_provider.Base.{
  ℕ, zero, suc, ◌+◌, ◌-◌, String, Bool, true, false, ◌&&◌, ◌||◌, not, Option, none, some, List, [],
  ◌∷◌, length, drop, filter, find, any, ltb, ◌==◌, if◌then◌else◌, str_eq, str_lt, unwrap_or,
}
use codex_provider.Time.{Timestamp, add, after, before, hours, is_zero}
use codex_provider.State.{Pool, RuntimeState, RoutingCacheEvent}
use codex_provider.State.Bindings.{
  StickySession, ResponseBinding, ThreadBinding, LineageBinding, RequestIdentity,
}

-- `identity_parent_id`.
unfoldable pub identity_parent_id : RequestIdentity → String
identity_parent_id identity =
    if is_empty identity.parent_thread_id
    then identity.forked_from_id
    else identity.parent_thread_id

unfoldable pub thread_binding_state_key : String → String → String
thread_binding_state_key model thread_id = model <> ":" <> thread_id

unfoldable pub sticky_ttl : Pool → ℕ
sticky_ttl p = if ltb 0 p.session_affinity_ttl then p.session_affinity_ttl else hours 24

unfoldable pub sticky_expires_at : Pool → StickySession → Timestamp
unfolding sticky_ttl add
sticky_expires_at p item =
    let base = if is_zero item.last_success_at then item.created_at else item.last_success_at in
    if not (is_zero item.expires_at)
    then item.expires_at
    else if is_zero base
    then 0
    else add base (sticky_ttl p)

unfoldable pub sticky_session_expired : Pool → StickySession → Timestamp → Bool
unfolding sticky_expires_at
sticky_session_expired p item now =
    let expires_at = sticky_expires_at p item in is_zero expires_at || not (after expires_at now)

abbrev pub put_state : Pool → RuntimeState → Pool
put_state p s = record p { state = s }

unfoldable pub prune_expired_sticky_sessions : Pool → Timestamp → Pool × Bool
unfolding sticky_session_expired retain any
prune_expired_sticky_sessions p now = (
  put_state p (record p.state {
    sticky_sessions = retain (λ item. not (sticky_session_expired p item now)) p.sticky_sessions;
  }),
  any (λ item. sticky_session_expired p item now) (values p.sticky_sessions),
)

abbrev bindings_count : RuntimeState → ℕ
bindings_count s = length s.response_bindings + length s.thread_bindings + length s.lineage_bindings

abbrev pub routing_cache_event_limit : ℕ
routing_cache_event_limit = 500

abbrev pub routing_cache_event_ttl : ℕ
routing_cache_event_ttl = hours 24

-- `take_while(before cutoff).count()`.
unfoldable pub leading_before : Timestamp → List RoutingCacheEvent → ℕ
leading_before cutoff [] = 0
leading_before cutoff (e ∷ es) =
    if before e.timestamp cutoff then suc (leading_before cutoff es) else 0

unfoldable pub prune_routing_cache_events : Pool → Timestamp → Pool × Bool
unfolding leading_before
prune_routing_cache_events p now =
    let events = p.routing_cache_events in
    let old = leading_before (now - routing_cache_event_ttl) events in
    let remaining = length events - old in
    let first =
      if ltb routing_cache_event_limit remaining
      then old + (remaining - routing_cache_event_limit)
      else old in
    if first == 0
    then (p, false)
    else (put_state p (record p.state { routing_cache_events = drop first events }), true)

unfoldable pub prune_expired_runtime_state : Pool → Timestamp → Pool × Bool
unfolding prune_expired_sticky_sessions retain prune_routing_cache_events
prune_expired_runtime_state p now =
    let (q, changed) = prune_expired_sticky_sessions p now in
    let s = record q.state {
      response_bindings = retain (λ b. after b.expires_at now) q.response_bindings;
      thread_bindings = retain (λ b. after b.expires_at now) q.thread_bindings;
      lineage_bindings = retain (λ b. after b.expires_at now) q.lineage_bindings;
    } in
    let (r, dropped) = prune_routing_cache_events (put_state q s) now in
    (r, changed || not (bindings_count q.state == bindings_count s) || dropped)

unfoldable pub sticky_activity_time : StickySession → Timestamp
sticky_activity_time item =
    if is_zero item.last_success_at then item.created_at else item.last_success_at

-- A loop `for x in xs` that keeps the best `x` among those that pass a test.
unfoldable pub best_of {ℓ} :
    {A : Type ℓ} → (A → Bool) → (A → A → Bool) → Option A → List A → Option A
best_of {A} passes better best [] = best
best_of {A} passes better best (x ∷ xs) =
    let next : Option A = (elim best [
      | none ↦ if passes x then some x else none
      | some b ↦ if passes x && better x b then some x else some b
    ]) in
    best_of passes better next xs

unfoldable pub latest_sticky_session : Pool → String → Timestamp → Option StickySession
unfolding best_of sticky_session_expired sticky_activity_time
latest_sticky_session p model now =
    best_of (λ item. str_eq item.model_id model && not (sticky_session_expired p item now))
      (λ item best. after (sticky_activity_time item) (sticky_activity_time best)) none
      (values p.sticky_sessions)

unfoldable pub clear_sticky_for_account : Pool → String → Pool
unfolding retain filter
clear_sticky_for_account p id = put_state p (record p.state {
  sticky_sessions = retain (λ b. not (str_eq b.account_id id)) p.sticky_sessions;
  response_bindings = retain (λ b. not (str_eq b.account_id id)) p.response_bindings;
  thread_bindings = retain (λ b. not (str_eq b.account_id id)) p.thread_bindings;
  lineage_bindings = retain (λ b. not (str_eq b.account_id id)) p.lineage_bindings;
  routing_cache_events =
      filter (λ e. not (str_eq e.account_id id) && not (str_eq e.failover_from_account_id id))
        p.routing_cache_events;
})

-- The most recent live binding of the thread under any model.
unfoldable pub latest_thread_binding : Pool → String → Timestamp → Option ThreadBinding
unfolding best_of
latest_thread_binding p thread_id now =
    best_of (λ b. str_eq b.thread_id thread_id && after b.expires_at now)
      (λ b best. after b.last_success_at best.last_success_at) none (values p.thread_bindings)

unfoldable pub live_thread_binding : Pool → String → String → Timestamp → Option ThreadBinding
unfolding get thread_binding_state_key latest_thread_binding
live_thread_binding p model thread_id now =
    if is_empty thread_id
    then none
    else elim (get (thread_binding_state_key model thread_id) p.thread_bindings) [
      | none ↦ latest_thread_binding p thread_id now
      | some b ↦ if after b.expires_at now then some b else latest_thread_binding p thread_id now
    ]

-- The member thread of the lineage that most recently succeeded.
unfoldable pub latest_lineage_member : Pool → String → Timestamp → Option ThreadBinding
unfolding best_of
latest_lineage_member p root now =
    best_of
      (λ b. str_eq b.lineage_root_id root && not (is_empty b.account_id) && after b.expires_at now)
      (λ b best.
        after b.last_success_at best.last_success_at
        || (b.last_success_at == best.last_success_at && str_lt b.account_id best.account_id))
      none (values p.thread_bindings)

abbrev account_of : Option ThreadBinding → Option String
account_of none = none
account_of (some b) = some b.account_id

unfoldable pub lineage_account_id : Pool → String → Timestamp → Option String
unfolding get latest_lineage_member
lineage_account_id p root now =
    let member = account_of (latest_lineage_member p root now) in
    if is_empty root then none else elim (get root p.lineage_bindings) [
      | none ↦ member
      | some b ↦
          if not (is_empty b.account_id) && after b.expires_at now
          then some b.account_id
          else member
    ]

unfoldable pub request_identity_for_sticky :
    Pool → String → String → Timestamp → Option RequestIdentity
unfolding find
request_identity_for_sticky p sticky_key model now =
    elim (find
      (λ b. str_eq b.model_id model && str_eq b.sticky_key sticky_key && after b.expires_at now)
      (values p.thread_bindings)) [
        | none ↦ none
        | some b ↦ some (record {
          session_id = b.session_id;
          thread_id = b.thread_id;
          parent_thread_id = b.parent_thread_id;
          forked_from_id = "";
          lineage_root_id = b.lineage_root_id;
          subagent_kind = b.subagent_kind;
          thread_source = "";
          is_subagent = not (is_empty b.parent_thread_id) || not (is_empty b.subagent_kind);
        })
      ]

unfoldable pub live_sticky_session : Pool → String → Timestamp → Bool
unfolding get sticky_session_expired
live_sticky_session p sticky_key now = elim (get sticky_key p.sticky_sessions) [
  | none ↦ false
  | some item ↦ not (sticky_session_expired p item now)
]

abbrev resolved_root : RequestIdentity → Option ThreadBinding → String → String
resolved_root identity none parent_id = if is_empty parent_id then identity.thread_id else parent_id
resolved_root identity (some parent) parent_id =
    if is_empty parent.lineage_root_id then parent.thread_id else parent.lineage_root_id

unfoldable pub resolve_request_identity :
    Pool → RequestIdentity → String → Timestamp → RequestIdentity × Option String
unfolding live_thread_binding identity_parent_id
resolve_request_identity p identity model now =
    let parent_id = identity_parent_id identity in
    let parent = live_thread_binding p model parent_id now in
    (
      (if is_empty identity.lineage_root_id
          then record identity { lineage_root_id = resolved_root identity parent parent_id }
          else identity),
      account_of parent,
    )

-- `save`: the time stamps that it writes; the two files are outside the model.
abbrev pub save : Pool → Timestamp → Pool
save p now = record p { config_updated_at = now; state = record p.state { updated_at = now } }

-- `App::response_binding`: a binding that has expired or is another model's is dropped.
unfoldable pub response_binding : Pool → String → String → Timestamp → Pool × Option ResponseBinding
unfolding get remove
response_binding p response_id model now = elim (get response_id p.response_bindings) [
  | none ↦ (p, none)
  | some b ↦
      if not (str_eq b.model_id model) || not (after b.expires_at now)
      then (
        save
            (put_state p
              (record p.state { response_bindings = remove response_id p.response_bindings }))
            now,
        none,
      )
      else (p, some b)
]
