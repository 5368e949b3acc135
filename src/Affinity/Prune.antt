-- ===== src/Affinity/Prune.antt =====
-- upstream/src/pool/routing.rs, `prune_expired_runtime_state`: what pruning drops and what it keeps.
use codex_provider.Base.Maps.{Map, get, retain, values, retain_passes}
use codex_provider.Base.Text.{is_empty}
use codex_provider.Base.{
  ℕ, ◌+◌, ◌-◌, ◌≤◌, ◌≡◌, refl, sym, ap, ◌∙◌, subst, String, Bool, true, false, ◌&&◌, ◌||◌, not,
  Option, none, some, List, [], ◌∷◌, length, drop, length-drop, All, arith, ltb, ◌==◌,
  if◌then◌else◌, str_eq, str_lt, eq_iff, Bool-cases, Option-cases, inl, inr,
}
use codex_provider.Time.{Timestamp, after}
use codex_provider.State.{Pool}
use codex_provider.State.Bindings.{ThreadBinding, LineageBinding}
use codex_provider.Affinity.{
  sticky_session_expired, prune_expired_sticky_sessions, prune_routing_cache_events,
  prune_expired_runtime_state, routing_cache_event_limit, leading_before, best_of,
  latest_lineage_member, lineage_account_id, account_of, put_state, routing_cache_event_ttl,
}

-- The keys of a map are distinct, as a `BTreeMap` keeps them.
abbrev pub Unique {ℓ} : {V : Type ℓ} → Map V → Type ℓ
Unique [] = Unit
Unique ((k, v) ∷ m) = (get k m ≡ none) × Unique m

module _ {ℓ} {V : Type ℓ} (keep : V → Bool) where
  get-retain-none : (k : String) (m : Map V) → get k m ≡ none → get k (retain keep m) ≡ none
  unfolding get retain
  get-retain-none k [] h = refl
  get-retain-none k ((j, v) ∷ m) h = elim (Bool-cases (str_eq j k)) [
    | inl e ↦ absurd (cc (rw e at h))
    | inr e ↦ elim (Bool-cases (keep v)) [
      | inl f ↦ rw (f, e) (get-retain-none k m (rw e at h))
      | inr f ↦ rw f (get-retain-none k m (rw e at h))
    ]
  ]

  -- What is kept is found, and what is dropped is not.
  get-retain :
      (k : String) (m : Map V)
      → Unique m
      → get k (retain keep m)
        ≡ (elim (get k m) [ none ↦ none | some v ↦ if keep v then some v else none ])
  unfolding get retain
  get-retain k [] u = refl
  get-retain k ((j, v) ∷ m) u = elim (Bool-cases (str_eq j k)) [
    | inl e ↦ elim (Bool-cases (keep v)) [
      | inl f ↦ rw (f, e, f) refl
      | inr f ↦
          rw (f, e, f) (get-retain-none k m (subst (λ i. get i m ≡ none) ((eq_iff j k).0 e) u.0))
    ]
    | inr e ↦ elim (Bool-cases (keep v)) [
      | inl f ↦ rw (f, e) (get-retain k m u.1)
      | inr f ↦ rw (f, e) (get-retain k m u.1)
    ]
  ]

  best_of-skip :
      (passes : V → Bool) (better : V → V → Bool) (best : Option V) (v : V) (vs : List V)
      → passes v ≡ false
      → best_of passes better best (v ∷ vs) ≡ best_of passes better best vs
  unfolding best_of
  best_of-skip passes better none v vs h = rw h refl
  best_of-skip passes better (some b) v vs h = rw h refl

  -- A loop that passes over what is dropped finds the same.
  best_of-retain :
      (passes : V → Bool) (better : V → V → Bool) (m : Map V) (best : Option V)
      → ((v : V) → keep v ≡ false → passes v ≡ false)
      → best_of passes better best (values (retain keep m)) ≡ best_of passes better best (values m)
  unfolding best_of retain
  best_of-retain passes better [] best sub = refl
  best_of-retain passes better ((j, v) ∷ m) best sub = elim (Bool-cases (keep v)) [
    | inl f ↦ rw f (best_of-retain passes better m _ sub)
    | inr f ↦ rw f (
        best_of-retain passes better m best sub
        ∙ sym (best_of-skip passes better best v (values m) (sub v f)))
  ]

dropped : Pool → ℕ → Pool × Bool
dropped p k = if k == 0 then (p, false) else (
  put_state p (record p.state { routing_cache_events = drop k p.routing_cache_events }),
  true,
)

dropped-length :
    (p : Pool) (k : ℕ)
    → length p.routing_cache_events - k ≤ routing_cache_event_limit
    → length (dropped p k).0.routing_cache_events ≤ routing_cache_event_limit
unfolding dropped
dropped-length p k h = elim (Bool-cases (k == 0)) [
  | inl e ↦ let none_left : k ≡ 0 = ground arith in rw e (omega (arith, none_left, h))
  | inr e ↦ rw e (omega (arith, length-drop k p.routing_cache_events, h))
]

first_bound :
    (old n : ℕ)
    → n
        - (if ltb routing_cache_event_limit (n - old)
            then old + (n - old - routing_cache_event_limit)
            else old)
      ≤ routing_cache_event_limit
first_bound old n = ground arith

events-le :
    (p : Pool) (now : Timestamp)
    → length (prune_routing_cache_events p now).0.routing_cache_events ≤ routing_cache_event_limit
unfolding prune_routing_cache_events dropped
events-le p now = dropped-length p _ (
    first_bound (leading_before (now - routing_cache_event_ttl) p.routing_cache_events)
      (length p.routing_cache_events))

-- The bindings are as they were.
keeps :
    (p : Pool) (k : ℕ)
    → let q = (dropped p k).0 in
      (q.sticky_sessions ≡ p.sticky_sessions)
      × (q.response_bindings ≡ p.response_bindings)
      × (q.thread_bindings ≡ p.thread_bindings)
      × (q.lineage_bindings ≡ p.lineage_bindings)
unfolding dropped
keeps p k = elim (Bool-cases (k == 0)) [
  | inl e ↦ rw e (refl, refl, refl, refl)
  | inr e ↦ rw e (refl, refl, refl, refl)
]

events-keep :
    (p : Pool) (now : Timestamp)
    → let q = (prune_routing_cache_events p now).0 in
      (q.sticky_sessions ≡ p.sticky_sessions)
      × (q.response_bindings ≡ p.response_bindings)
      × (q.thread_bindings ≡ p.thread_bindings)
      × (q.lineage_bindings ≡ p.lineage_bindings)
unfolding prune_routing_cache_events dropped
events-keep p now = keeps p _

-- The pool with the bindings pruned.
unpruned_events : Pool → Timestamp → Pool
unfolding retain sticky_session_expired
unpruned_events p now = put_state p (record p.state {
  sticky_sessions = retain (λ item. not (sticky_session_expired p item now)) p.sticky_sessions;
  response_bindings = retain (λ b. after b.expires_at now) p.response_bindings;
  thread_bindings = retain (λ b. after b.expires_at now) p.thread_bindings;
  lineage_bindings = retain (λ b. after b.expires_at now) p.lineage_bindings;
})

pruned :
    (p : Pool) (now : Timestamp)
    → (prune_expired_runtime_state p now).0
      ≡ (prune_routing_cache_events (unpruned_events p now) now).0
unfolding prune_expired_runtime_state prune_expired_sticky_sessions unpruned_events
pruned p now = refl

-- After pruning no binding of a session, a response, a thread or a lineage is left whose time is up,
-- and there are at most 500 routing diagnostics.
pub prune-live :
    (p : Pool) (now : Timestamp)
    → let q = (prune_expired_runtime_state p now).0 in
      All (λ e. not (sticky_session_expired p e.1 now) ≡ true) q.sticky_sessions
      × All (λ e. after e.1.expires_at now ≡ true) q.response_bindings
      × All (λ e. after e.1.expires_at now ≡ true) q.thread_bindings
      × All (λ e. after e.1.expires_at now ≡ true) q.lineage_bindings
      × (length q.routing_cache_events ≤ routing_cache_event_limit)
unfolding unpruned_events
prune-live p now =
    let (sticky, response, thread, lineage) = events-keep (unpruned_events p now) now in
    rw (pruned p now) (
      subst (λ m. All (λ e. not (sticky_session_expired p e.1 now) ≡ true) m) (sym sticky)
          (retain_passes (λ item. not (sticky_session_expired p item now)) p.sticky_sessions),
      subst (λ m. All (λ e. after e.1.expires_at now ≡ true) m) (sym response)
          (retain_passes (λ b. after b.expires_at now) p.response_bindings),
      subst (λ m. All (λ e. after e.1.expires_at now ≡ true) m) (sym thread)
          (retain_passes (λ b. after b.expires_at now) p.thread_bindings),
      subst (λ m. All (λ e. after e.1.expires_at now ≡ true) m) (sym lineage)
          (retain_passes (λ b. after b.expires_at now) p.lineage_bindings),
      events-le (unpruned_events p now) now,
    )

-- The account of a lineage, read from the two maps that it depends on.
member_of : String → Timestamp → Map ThreadBinding → Option String
unfolding best_of
member_of root now threads = account_of (
    best_of
      (λ b. str_eq b.lineage_root_id root && not (is_empty b.account_id) && after b.expires_at now)
      (λ b best.
        after b.last_success_at best.last_success_at
        || (b.last_success_at == best.last_success_at && str_lt b.account_id best.account_id))
      none (values threads))

bound_or : Timestamp → Option LineageBinding → Option String → Option String
bound_or now none member = member
bound_or now (some b) member =
    if not (is_empty b.account_id) && after b.expires_at now then some b.account_id else member

read :
    (p : Pool) (root : String) (now : Timestamp)
    → lineage_account_id p root now ≡ (
        if is_empty root
        then none
        else bound_or now (get root p.lineage_bindings) (member_of root now p.thread_bindings))
unfolding lineage_account_id latest_lineage_member member_of bound_or
read p root now = elim (Option-cases (get root p.lineage_bindings)) [
  | inl e ↦ rw e refl
  | inr (b, e) ↦ rw e refl
]

member_of-retain :
    (root : String) (now : Timestamp) (m : Map ThreadBinding)
    → member_of root now (retain (λ b. after b.expires_at now) m) ≡ member_of root now m
unfolding member_of
member_of-retain root now m = ap account_of (
    best_of-retain (λ b. after b.expires_at now) _ _ m none
      (λ b h.
        dead (str_eq b.lineage_root_id root) (not (is_empty b.account_id)) (after b.expires_at now)
          h))
  where
    dead : (x y z : Bool) → z ≡ false → x && y && z ≡ false
    dead x y z h = rw h (ground arith)

bound_or-retain :
    (now : Timestamp) (o : Option LineageBinding) (member : Option String)
    → bound_or now
        (elim o [ none ↦ none | some b ↦ if after b.expires_at now then some b else none ])
        member
      ≡ bound_or now o member
unfolding bound_or
bound_or-retain now none member = refl
bound_or-retain now (some b) member = elim (Bool-cases (after b.expires_at now)) [
  | inl e ↦ rw (e, e) refl
  | inr e ↦ rw e (dead (not (is_empty b.account_id)))
]
  where
    dead : (x : Bool) → member ≡ (if x && false then some b.account_id else member)
    dead true = refl
    dead false = refl

-- The keys of the lineage bindings being distinct, the account of every lineage is the same after
-- pruning as before.
pub prune-lineage_account_id :
    (p : Pool) (root : String) (now : Timestamp)
    → Unique p.lineage_bindings
    → lineage_account_id (prune_expired_runtime_state p now).0 root now
      ≡ lineage_account_id p root now
unfolding unpruned_events
prune-lineage_account_id p root now u =
    let (_, _, thread, lineage) = events-keep (unpruned_events p now) now in
    let answer : Map LineageBinding → Map ThreadBinding → Option String =
      λ l t. if is_empty root then none else bound_or now (get root l) (member_of root now t) in
    ap (λ q. lineage_account_id q root now) (pruned p now)
    ∙ read (prune_routing_cache_events (unpruned_events p now) now).0 root now
    ∙ ap (λ l. answer l (prune_routing_cache_events (unpruned_events p now) now).0.thread_bindings)
        lineage
    ∙ ap (λ t. answer (unpruned_events p now).lineage_bindings t) thread
    ∙ ap
        (λ o.
          if is_empty root
          then none
          else bound_or now (get root (unpruned_events p now).lineage_bindings) o)
        (member_of-retain root now p.thread_bindings)
    ∙ ap
        (λ o. if is_empty root then none else bound_or now o (member_of root now p.thread_bindings))
        (get-retain (λ b. after b.expires_at now) root p.lineage_bindings u)
    ∙ ap (λ o. if is_empty root then none else o)
        (bound_or-retain now (get root p.lineage_bindings) (member_of root now p.thread_bindings))
    ∙ sym (read p root now)
