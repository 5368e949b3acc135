-- ===== src/Outcome/Lineage.antt =====
-- upstream/src/pool/outcome.rs, `record_lineage_success`: which account a lineage is bound to.
use codex_provider.Base.Maps.{get, get-insert_self}
use codex_provider.Base.Text.{is_empty}
use codex_provider.Base.{
  ℕ, ◌+◌, ◌≤◌, ◌<◌, ◌≡◌, refl, ap, subst, String, Bool, true, false, Option, none, some, arith,
  if◌then◌else◌, str_eq, eq_iff, Bool-cases, Option-cases, inl, inr,
}
use codex_provider.Time.{Timestamp, add, after, last_instant}
use codex_provider.State.{Pool}
use codex_provider.State.Bindings.{LineageBinding}
use codex_provider.Affinity.{sticky_ttl, lineage_account_id}
use codex_provider.Select.{RoutingDecision}
use codex_provider.Outcome.Success.{live_lineage_binding, lineage_after, record_lineage_success}

-- Who holds a lineage after a success on account `id`: a success that was routed by the binding
-- moves it, one that was routed otherwise does not.
unfoldable pub holder : String → String → Option LineageBinding → String
holder routed_by id none = id
holder routed_by id (some b) =
    if str_eq b.account_id id
    then id
    else if str_eq routed_by b.account_id
    then id
    else b.account_id

add-later :
    (now ttl later : ℕ)
    → later < now + ttl
    → now + ttl ≤ last_instant
    → after (add now ttl) later ≡ true
unfolding add
add-later now ttl later before_end fits = ground arith

-- What a live binding is.
live-nonempty :
    (p : Pool) (root : String) (now : Timestamp) (b : LineageBinding)
    → live_lineage_binding p root now ≡ some b
    → is_empty b.account_id ≡ false
unfolding live_lineage_binding
live-nonempty p root now b e = elim (Option-cases (get root p.lineage_bindings)) [
  | inl f ↦ absurd (cc (rw (f, live_lineage_binding) at e))
  | inr (c, f) ↦ elim (Bool-cases (is_empty c.account_id)) [
    | inl g ↦ absurd (cc (rw (f, live_lineage_binding, g) at e))
    | inr g ↦ elim (Bool-cases (after c.expires_at now)) [
      | inr h ↦ absurd (cc (rw (f, live_lineage_binding, g, h) at e))
      | inl h ↦
          let same : some c ≡ some b = rw (f, live_lineage_binding, g, h) at e in
          subst (λ o. is_empty (account_name o) ≡ false) same g
    ]
  ]
]
  where
    account_name : Option LineageBinding → String
    account_name none = ""
    account_name (some d) = d.account_id

lineage_after-holder :
    (route : RoutingDecision) (id : String) (now : Timestamp) (ttl : ℕ) (o : Option LineageBinding)
    → ((lineage_after route id now ttl o).account_id ≡ holder route.lineage_account_id id o)
      × ((lineage_after route id now ttl o).expires_at ≡ add now ttl)
unfolding lineage_after holder
lineage_after-holder route id now ttl none = (refl, refl)
lineage_after-holder route id now ttl (some b) = elim (Bool-cases (str_eq b.account_id id)) [
  | inl e ↦ rw e ((eq_iff b.account_id id).0 e, refl)
  | inr e ↦ elim (Bool-cases (str_eq route.lineage_account_id b.account_id)) [
    | inl f ↦ rw (e, f) (refl, refl)
    | inr f ↦ rw (e, f) (refl, refl)
  ]
]

holder-nonempty :
    (routed_by id : String) (b : LineageBinding)
    → is_empty id ≡ false
    → is_empty b.account_id ≡ false
    → is_empty (holder routed_by id (some b)) ≡ false
unfolding holder
holder-nonempty routed_by id b named held =
    pick (str_eq b.account_id id) (str_eq routed_by b.account_id)
  where
    pick : (c d : Bool) → is_empty (if c then id else if d then id else b.account_id) ≡ false
    pick true d = named
    pick false true = named
    pick false false = held

-- The root and the account of the success being named and the new expiry within the calendar: after a
-- success of a lineage's member a request of it at any time until the session lifetime is over finds a
-- live binding of one account: the account of the success where the lineage had no live binding, was on that account already, or the
-- request had been routed by the binding; else the account that it was bound to, so that a request
-- that was routed before a move never moves the lineage back.
pub record_lineage_success-account :
    (p : Pool) (route : RoutingDecision) (id : String) (now later : Timestamp)
    → is_empty route.identity.lineage_root_id ≡ false
    → is_empty id ≡ false
    → later < now + sticky_ttl p
    → now + sticky_ttl p ≤ last_instant
    → let root = route.identity.lineage_root_id in
      lineage_account_id (record_lineage_success p route id now) root later
      ≡ some (holder route.lineage_account_id id (live_lineage_binding p root now))
unfolding lineage_account_id record_lineage_success holder
record_lineage_success-account p route id now later rooted named before_end fits =
    let root = route.identity.lineage_root_id in
    let current = live_lineage_binding p root now in
    let b = lineage_after route id now (sticky_ttl p) current in
    let (held, ends) = lineage_after-holder route id now (sticky_ttl p) current in
    let full : is_empty b.account_id ≡ false = rw held (elim (Option-cases current) [
      | inl e ↦ rw (e, holder) named
      | inr (c, e) ↦
          rw e (holder-nonempty route.lineage_account_id id c named (live-nonempty p root now c e))
    ]) in
    let alive : after b.expires_at later ≡ true =
      rw ends (add-later now (sticky_ttl p) later before_end fits) in
    rw (rooted, get-insert_self root b p.lineage_bindings, full, alive) (ap (λ x. some x) held)
