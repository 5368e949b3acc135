-- ===== src/Select.antt =====
-- upstream/src/pool/routing.rs: which account serves a request. Each selection holds the lock on the
-- pool, so it is one step from a pool to a pool; the clock is read once, as `now`.
pub mod Choice
pub mod Red
pub mod Tiers
pub mod Best
pub mod Pick
pub mod Serves
pub mod Answers
pub mod Stays
use codex_provider.Base.Int.{ℤ, pos, ltb_ℤ, eq_ℤ}
use codex_provider.Base.Maps.{Map, get, insert, remove, retain}
use codex_provider.Base.Text.{is_empty, trim}
use codex_provider.Base.{
  ℕ, zero, suc, ◌+◌, ◌-◌, ◌*◌, max, String, Bool, true, false, ◌&&◌, ◌||◌, not, Option, none, some,
  List, [], ◌∷◌, map, filter, any, all, head?, ltb, leb, ◌==◌, if◌then◌else◌, str_eq, str_lt,
  unwrap_or, Result, ok, err,
}
use Prim.Native.String.{◌++◌ as ◌<>◌}
use codex_provider.Time.{Timestamp, after, before, hours, minutes}
use codex_provider.Plan.{among, account_weekly_weight, base_weekly_weight}
use codex_provider.Quota.{remaining_quota_hint}
use codex_provider.GoSort.{slice_stable}
use codex_provider.Identity.{account, account_auth_verification_pending, upstream_identity_key}
use codex_provider.Eligibility.{
  cooldowns_of, quota_snapshot, pro_tier, reset_credit_expiry_window, reset_credit_expiry_boost,
  expiring_reset_credit, preferred_before, primary_upstream_account_id,
  excluded_upstream_identities, usable,
}
use codex_provider.Affinity.{lineage_account_id, sticky_session_expired, put_state, save}
use codex_provider.State.{Pool, Account, Cooldown}
use codex_provider.State.Bindings.{SessionPlacement, StickySession, RequestIdentity, ThreadBinding}
use codex_provider.State.Quota.{AccountQuota}

pub data SelectError : Type 0 where
  auth_repair_pending no_eligible_account : SelectError

-- The part of a `RoutingDecision` that selection reads or writes.
pub record RoutingDecision : Type 0 where
  pub sticky_key : String
  pub identity : RequestIdentity
  pub lineage_account_id : String
  pub lineage_affinity : Bool
  pub balance_key : String
  pub upstream_prompt_cache_key : String
  pub source : String
  pub parent_affinity_attempted : Bool

-- The exact value of a placement weight, which the source computes in `f64`.
pub record Weight : Type 0 where
  pub numerator : ℕ
  pub denominator : ℕ

-- hash.rs `placement_score`: the weighted draw from the SHA-256 digest of a key and an identity, in
-- floating point, with the two comparisons that selection makes of its results.
pub record Draw : Type 1 where
  pub Score : Type 0
  pub placement_score : String → String → Weight → Score
  pub above : Score → Score → Bool
  pub same : Score → Score → Bool

abbrev pub placement_active_window : ℕ
placement_active_window = minutes 30

-- Accounts that this request has already tried.
abbrev pub Excluded : Type 0
Excluded = List String

unfoldable pub is_excluded : Excluded → String → Bool
unfolding any
is_excluded excluded id = among id excluded

unfoldable pub is_failover : Pool → Bool
is_failover p = str_eq p.routing_strategy "failover"

-- The duplicate-identity test: no excluded slot shares the identity, and the slot represents it.
unfoldable pub passes_identity : Pool → Account → String → Excluded → Timestamp → Bool
unfolding upstream_identity_key excluded_upstream_identities primary_upstream_account_id any
passes_identity p item model excluded now =
    let identity = upstream_identity_key p item in
    let primary = primary_upstream_account_id p item model now in
    not (not (is_empty identity) && among identity (excluded_upstream_identities p excluded))
    && (is_empty primary || str_eq primary item.id)

unfoldable pub selectable_account : Pool → Account → String → Excluded → Timestamp → Bool
unfolding is_excluded usable passes_identity
selectable_account p item model excluded now =
    if is_excluded excluded item.id || not (usable p item model now)
    then false
    else passes_identity p item model excluded now

unfoldable pub eligible_accounts : Pool → String → Excluded → Timestamp → List Account
unfolding filter selectable_account
eligible_accounts p model excluded now =
    filter (λ item. selectable_account p item model excluded now) p.accounts

unfoldable pub preferred_account : Pool → String → Excluded → Timestamp → Option Account
unfolding slice_stable preferred_before eligible_accounts
preferred_account p model excluded now =
    head? (slice_stable (preferred_before p now) (eligible_accounts p model excluded now))

-- Whether a placement counts as a session that its account is carrying.
unfoldable pub is_active : Timestamp → String → String × SessionPlacement → Bool
is_active now own_key (key, placement) =
    not (str_eq key own_key) && leb (now - placement.at) placement_active_window

unfoldable pub count_active : Timestamp → String → String → Map SessionPlacement → ℕ
unfolding is_active
count_active now own_key id [] = 0
count_active now own_key id (e ∷ es) =
    if is_active now own_key e && str_eq e.1.account_id id
    then suc (count_active now own_key id es)
    else count_active now own_key id es

-- `active_session_counts`, read at one account.
unfoldable pub active_session_count : Pool → Timestamp → String → String → ℕ
unfolding count_active
active_session_count p now own_key id = count_active now own_key id p.session_placements

abbrev choose : String → String → String
choose value fallback = if is_empty (trim value) then fallback else value

unfoldable pub placement_weight : Pool → Timestamp → Account → ℕ → Weight
unfolding quota_snapshot remaining_quota_hint trim account_weekly_weight reset_credit_expiry_boost
placement_weight p now item active =
    let snapshot = quota_snapshot p item.id in
    let reported : ℕ = (elim snapshot.quota [
      | none ↦ 100
      | some quota ↦ remaining_quota_hint quota
    ]) in
    let remaining = max reported 1 in
    let weekly =
      account_weekly_weight (choose snapshot.plan_family item.plan_family)
        (choose snapshot.plan_limit item.plan_limit) (choose snapshot.seat_type item.seat_type)
        p.premium_seat_weight in
    let multiplier = if weekly == 0 then base_weekly_weight else weekly in
    let carried = 1 + active in
    record {
      numerator = remaining * multiplier * reset_credit_expiry_boost snapshot.quota now;
      denominator = base_weekly_weight * reset_credit_expiry_window * (carried * carried);
    }

unfoldable pub sticky_identity_or_slot : String → String → String
sticky_identity_or_slot identity slot_id =
    if is_empty identity then "slot:" <> slot_id else identity

-- `filter`, unless it leaves nothing.
unfoldable pub narrow {ℓ} : {A : Type ℓ} → (A → Bool) → List A → List A
unfolding filter
narrow test items = elim (filter test items) [ [] ↦ items | x ∷ xs ↦ x ∷ xs ]

-- `iter().map(f).min().unwrap_or(d)` of tiers.
unfoldable pub lowest_tier : Pool → List Account → ℕ
unfolding pro_tier
lowest_tier p [] = 2
lowest_tier p (a ∷ []) = pro_tier p a
lowest_tier p (a ∷ b ∷ rest) =
    let other = lowest_tier p (b ∷ rest) in if ltb other (pro_tier p a) then other else pro_tier p a

-- `iter().map(priority).max().unwrap_or_default()`.
unfoldable pub highest_priority : List Account → ℤ
highest_priority [] = pos 0
highest_priority (a ∷ []) = a.priority
highest_priority (a ∷ b ∷ rest) =
    let other = highest_priority (b ∷ rest) in if ltb_ℤ a.priority other then other else a.priority

-- The tiers of balanced placement: expiring reset credits, Use Pro last, priority, idle accounts.
unfoldable pub placement_tier : Pool → Timestamp → String → List Account → List Account
unfolding narrow filter expiring_reset_credit pro_tier lowest_tier highest_priority
    active_session_count
placement_tier p now sticky_key eligible =
    let red = narrow (λ item. expiring_reset_credit p item now) eligible in
    let lowest = lowest_tier p red in
    let spared =
      if p.preserve_pro_quota then filter (λ item. pro_tier p item == lowest) red else red in
    let highest = highest_priority spared in
    let tier = filter (λ item. eq_ℤ item.priority highest) spared in
    narrow (λ item. active_session_count p now sticky_key item.id == 0) tier

-- What `bound_session_may_move` and `bound_session_moves_to` decide.
unfoldable pub bound_session_may_move : Pool → Account → Timestamp → Bool
unfolding pro_tier expiring_reset_credit
bound_session_may_move p current now =
    if p.preserve_pro_quota && ltb 0 (pro_tier p current)
    then true
    else not (expiring_reset_credit p current now)

unfoldable pub bound_session_moves_to : Pool → Account → Account → Timestamp → Bool
unfolding pro_tier expiring_reset_credit
bound_session_moves_to p current replacement now =
    let replacement_red = expiring_reset_credit p replacement now in
    let current_red = expiring_reset_credit p current now in
    if str_eq replacement.id current.id
    then false
    else if replacement_red && not current_red
    then true
    else if current_red && not replacement_red
    then false
    else p.preserve_pro_quota && ltb (pro_tier p replacement) (pro_tier p current)

unfoldable pub is_overload_reason : String → Bool
unfolding any
is_overload_reason reason =
    among reason
      ("server_is_overloaded" ∷ "policy_capacity_unavailable" ∷ "slow_down" ∷ "upstream_5xx" ∷ [])

-- The loop of `overloaded_only_cooldown`.
unfoldable pub soonest_overload :
    String → Timestamp → Option Timestamp → List Cooldown → Option Timestamp
unfolding is_overload_reason
soonest_overload model now soonest [] = soonest
soonest_overload model now soonest (c ∷ cs) =
    let next : Option Timestamp = (elim soonest [
      | none ↦ some c.next_retry_at
      | some s ↦ if before c.next_retry_at s then some c.next_retry_at else some s
    ]) in
    let skip =
      (not (is_empty model) && not (str_eq c.model_id model)) || not (after c.next_retry_at now) in
    let rest = soonest_overload model now (if skip then soonest else next) cs in
    if not skip && not (is_overload_reason c.reason) then none else rest

unfoldable pub overloaded_only_cooldown : Pool → String → String → Timestamp → Option Timestamp
unfolding get soonest_overload
overloaded_only_cooldown p id model now = soonest_overload model now none (cooldowns_of p id)

-- When an account could be retried as the overload fallback.
unfoldable pub fallback_at : Pool → String → Excluded → Timestamp → Account → Option Timestamp
unfolding is_excluded overloaded_only_cooldown usable upstream_identity_key
    excluded_upstream_identities any
fallback_at p model excluded now item =
    let identity = upstream_identity_key p item in
    if is_excluded excluded item.id
    then none
    else elim (overloaded_only_cooldown p item.id model now) [
      | none ↦ none
      | some retry_at ↦
          if not (usable p item model retry_at)
          then none
          else if not (is_empty identity)
              && among identity (excluded_upstream_identities p excluded)
          then none
          else some retry_at
    ]

-- The candidate of the loop that is better: the sooner one, and of two at once the preferred one.
unfoldable pub better_fallback :
    Pool → Timestamp → Account → Timestamp → Option (Account × Timestamp) → Account × Timestamp
unfolding preferred_before
better_fallback p now item retry_at none = (item, retry_at)
better_fallback p now item retry_at (some (best, best_at)) =
    if before retry_at best_at || (retry_at == best_at && preferred_before p now item best)
    then (item, retry_at)
    else (best, best_at)

unfoldable pub fallback_loop :
    Pool
    → String
    → Excluded
    → Timestamp
    → Option (Account × Timestamp)
    → List Account
    → Option (Account × Timestamp)
unfolding fallback_at better_fallback
fallback_loop p model excluded now best [] = best
fallback_loop p model excluded now best (item ∷ items) =
    let next : Option (Account × Timestamp) = (elim (fallback_at p model excluded now item) [
      | none ↦ best
      | some retry_at ↦ some (better_fallback p now item retry_at best)
    ]) in
    fallback_loop p model excluded now next items

abbrev pub item_of : Option (Account × Timestamp) → Option Account
item_of none = none
item_of (some (item, at)) = some item

unfoldable pub overloaded_fallback_account : Pool → String → Excluded → Timestamp → Option Account
unfolding fallback_loop
overloaded_fallback_account p model excluded now =
    item_of (fallback_loop p model excluded now none p.accounts)

-- The last step of both selections.
unfoldable pub or_fallback :
    Pool → String → Excluded → Timestamp → Option Account → Result SelectError Account
unfolding overloaded_fallback_account
or_fallback p model excluded now (some selected) = ok selected
or_fallback p model excluded now none = elim (overloaded_fallback_account p model excluded now) [
  | none ↦ err no_eligible_account
  | some item ↦ ok item
]
