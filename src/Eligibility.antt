-- ===== src/Eligibility.antt =====
-- upstream/src/pool/app.rs, `Inner`: which accounts may serve a request for a model now. `now`
-- is the time that is asked about, which the overload fallback sets in the future; the comparison of
-- two slots reads the clock itself, as `clock`.
pub mod Sound
pub mod Representative
use codex_provider.Base.Int.{ℤ, pos, negsuc, ltb_ℤ, eq_ℤ, pos_part, scale}
use codex_provider.Base.Maps.{Map, get, insert}
use codex_provider.Base.Text.{is_empty}
use codex_provider.Base.{
  ℕ, ◌+◌, ◌-◌, ◌*◌, String, Bool, true, false, ◌&&◌, ◌||◌, not, Option, none, some, List, [], ◌∷◌,
  ◌++◌, map, filter, any, head?, ltb, leb, ◌==◌, if◌then◌else◌, str_eq, str_lt, unwrap_or,
}
use codex_provider.Time.{Timestamp, after, epoch, hours, second}
use codex_provider.Plan.{allowed_model, is_codex_device_auth, normalize_plan_type, among}
use codex_provider.Quota.{
  sanitized_error_code, quota_explicitly_blocks_routing, remaining_quota_hint,
  additional_limit_names_model,
}
use codex_provider.Protection.{quota_protection_status}
use codex_provider.Identity.{
  codex_auth, account_auth_verification_pending, has_usable_auth, upstream_identity_key,
}
use codex_provider.Quota.{is_some}
use codex_provider.GoSort.{slice_stable}
use codex_provider.State.{Pool, Account, Cooldown}
use codex_provider.State.Quota.{
  QuotaSnapshot, QuotaErrorInfo, AccountQuota, QuotaResetCredits, no_snapshot,
}

unfoldable pub quota_error_blocks_routing : Option QuotaErrorInfo → Bool
unfolding any sanitized_error_code
quota_error_blocks_routing none = false
quota_error_blocks_routing (some info) = among (sanitized_error_code info.code) (
    "account_auth_failed" ∷ "invalid_token" ∷ "token_invalidated" ∷ "token_revoked" ∷ "unauthorized"
    ∷ "forbidden" ∷ [])

unfoldable pub manual_quota_available : Account → Option Bool
manual_quota_available item = elim item.remaining_quota [
  | none ↦ none
  | some remaining ↦ some (ltb_ℤ (pos 0) remaining)
]

unfoldable pub quota_snapshot : Pool → String → QuotaSnapshot
unfolding get
quota_snapshot p id = unwrap_or (get id p.quotas) no_snapshot

unfoldable pub account_metadata_error : Pool → String → Bool
unfolding quota_error_blocks_routing get
account_metadata_error p id = elim (get id p.quotas) [
  | none ↦ false
  | some snapshot ↦ quota_error_blocks_routing snapshot.quota_error
]

abbrev pub cooldowns_of : Pool → String → List Cooldown
cooldowns_of p id = unwrap_or (get id p.cooldowns) []

unfoldable pub account_cooling_down : Pool → String → String → Timestamp → Bool
unfolding any get
account_cooling_down p id model now =
    any (λ c. (is_empty model || str_eq c.model_id model) && after c.next_retry_at now)
      (cooldowns_of p id)

-- The tiers of Use Pro last: ordinary 0, Pro Lite 1, Pro 2.
unfoldable pub pro_tier : Pool → Account → ℕ
unfolding get normalize_plan_type
pro_tier p item =
    let plan_type : String = (elim (get item.id p.quotas) [
      | none ↦ item.plan_type
      | some snapshot ↦ if is_empty snapshot.plan_type then item.plan_type else snapshot.plan_type
    ]) in
    let plan = normalize_plan_type plan_type in
    if str_eq plan "pro" || str_eq plan "pro_max"
    then 2
    else if str_eq plan "pro_lite"
    then 1
    else 0

abbrev pub reset_credit_expiry_window : ℕ
reset_credit_expiry_window = hours (7 * 24)

-- The nanoseconds from `now` to a Unix time, when it is later.
unfoldable pub time_left : ℤ → Timestamp → ℕ
time_left (pos s) now = (epoch + s * second) - now
time_left (negsuc s) now = (epoch - (s + 1) * second) - now

-- `reset_credit_expiry_boost` times the window's length: 1 is `reset_credit_expiry_window`, and the
-- boost 2 + 5 * (1 - left / window) is 2 * window + 5 * (window - left).
unfoldable pub reset_credit_expiry_boost : Option AccountQuota → Timestamp → ℕ
unfolding time_left
reset_credit_expiry_boost none now = reset_credit_expiry_window
reset_credit_expiry_boost (some quota) now = elim quota.reset_credits [
  | none ↦ reset_credit_expiry_window
  | some credits ↦ elim credits.available_count [
    | none ↦ reset_credit_expiry_window
    | some count ↦ elim credits.expires_at [
      | none ↦ reset_credit_expiry_window
      | some expires_at ↦
          let left = time_left expires_at now in
          if not (ltb_ℤ (pos 0) count)
          then reset_credit_expiry_window
          else if left == 0 || ltb reset_credit_expiry_window left
          then reset_credit_expiry_window
          else 2 * reset_credit_expiry_window + 5 * (reset_credit_expiry_window - left)
    ]
  ]
]

unfoldable pub expiring_reset_credit : Pool → Account → Timestamp → Bool
unfolding reset_credit_expiry_boost quota_snapshot
expiring_reset_credit p item now =
    ltb reset_credit_expiry_window (reset_credit_expiry_boost (quota_snapshot p item.id).quota now)

unfoldable pub preferred_before : Pool → Timestamp → Account → Account → Bool
unfolding expiring_reset_credit pro_tier
preferred_before p now left right =
    let left_red = expiring_reset_credit p left now in
    let right_red = expiring_reset_credit p right now in
    let by_priority =
      if eq_ℤ left.priority right.priority
      then str_lt left.id right.id
      else ltb_ℤ right.priority left.priority in
    if left_red && not right_red
    then true
    else if right_red && not left_red
    then false
    else if p.preserve_pro_quota && not (pro_tier p left == pro_tier p right)
    then ltb (pro_tier p left) (pro_tier p right)
    else by_priority

unfoldable pub identity_representative_quota_class : Pool → Account → String → Timestamp → ℕ × ℤ
unfolding quota_error_blocks_routing quota_explicitly_blocks_routing quota_protection_status
    remaining_quota_hint manual_quota_available quota_snapshot
identity_representative_quota_class p item model now =
    let snapshot = quota_snapshot p item.id in
    if quota_error_blocks_routing snapshot.quota_error then (0, pos 0) else (elim snapshot.quota [
      | some quota ↦
          if quota_explicitly_blocks_routing quota model now p.quota_floor_percent
            || (quota_protection_status p item snapshot now).blocked
          then (0, pos 0)
          else (2, pos (remaining_quota_hint quota))
      | none ↦ elim (manual_quota_available item) [
        | none ↦ (1, pos 0)
        | some false ↦ (0, pos 0)
        | some true ↦ (2, unwrap_or item.remaining_quota (pos 0))
      ]
    ])

unfoldable pub identity_representative_before : Pool → String → Timestamp → Account → Account → Bool
unfolding account_cooling_down identity_representative_quota_class preferred_before
identity_representative_before p model now left right =
    let left_cooldown = account_cooling_down p left.id model now in
    let right_cooldown = account_cooling_down p right.id model now in
    let (left_class, left_remaining) = identity_representative_quota_class p left model now in
    let (right_class, right_remaining) = identity_representative_quota_class p right model now in
    if left_cooldown && not right_cooldown
    then false
    else if right_cooldown && not left_cooldown
    then true
    else if not (left_class == right_class)
    then ltb right_class left_class
    else if left_class == 2 && not (eq_ℤ left_remaining right_remaining)
    then ltb_ℤ right_remaining left_remaining
    else preferred_before p p.clock left right

-- Whether a slot may represent the identity.
unfoldable pub is_candidate : Pool → String → String → Account → Bool
unfolding allowed_model has_usable_auth account_metadata_error upstream_identity_key
is_candidate p identity model candidate =
    candidate.enabled
    && candidate.in_pool
    && (is_empty model || allowed_model candidate model)
    && has_usable_auth p candidate
    && not (account_metadata_error p candidate.id)
    && str_eq (upstream_identity_key p candidate) identity

abbrev pub first_id : List Account → String
first_id [] = ""
first_id (a ∷ rest) = a.id

unfoldable pub primary_upstream_account_id : Pool → Account → String → Timestamp → String
unfolding upstream_identity_key filter is_candidate slice_stable identity_representative_before
primary_upstream_account_id p item model now =
    let identity = upstream_identity_key p item in
    let candidates = filter (is_candidate p identity model) p.accounts in
    if is_empty identity
    then ""
    else first_id (slice_stable (identity_representative_before p model now) candidates)

unfoldable pub excluded_upstream_identities : Pool → List String → List String
unfolding filter upstream_identity_key any
excluded_upstream_identities p excluded =
    filter (λ identity. not (is_empty identity))
      (map (upstream_identity_key p) (filter (λ item. among item.id excluded) p.accounts))

unfoldable pub quota_snapshot_available : Pool → Account → String → Timestamp → Option Bool
unfolding quota_error_blocks_routing quota_explicitly_blocks_routing quota_protection_status
    quota_snapshot
quota_snapshot_available p item model now =
    let snapshot = quota_snapshot p item.id in
    if quota_error_blocks_routing snapshot.quota_error then some false else (elim snapshot.quota [
      | none ↦ none
      | some quota ↦ some (
          not (
            quota_explicitly_blocks_routing quota model now p.quota_floor_percent
            || (quota_protection_status p item snapshot now).blocked))
    ])

abbrev is_true : Option Bool → Bool
is_true (some true) = true
is_true _ = false

-- A sibling slot that proves that the shared upstream account has capacity.
unfoldable pub is_hint : Pool → Account → String → Timestamp → Account → Bool
unfolding has_usable_auth upstream_identity_key account_metadata_error quota_snapshot_available
    manual_quota_available
is_hint p item model now candidate =
    not (
      str_eq candidate.id item.id
      || not candidate.enabled
      || not candidate.in_pool
      || not (has_usable_auth p candidate))
    && str_eq (upstream_identity_key p candidate) (upstream_identity_key p item)
    && not (account_metadata_error p candidate.id)
    && (is_true (quota_snapshot_available p candidate model now)
        || is_true (manual_quota_available candidate))

unfoldable pub same_identity_quota_hint_available : Pool → Account → String → Timestamp → Bool
unfolding upstream_identity_key primary_upstream_account_id any is_hint
same_identity_quota_hint_available p item model now =
    let primary = primary_upstream_account_id p item model now in
    if is_empty (upstream_identity_key p item)
    then false
    else if not (is_empty primary) && not (str_eq primary item.id)
    then false
    else any (is_hint p item model now) p.accounts

unfoldable pub quota_available : Pool → Account → String → Timestamp → Bool
unfolding quota_error_blocks_routing quota_explicitly_blocks_routing quota_protection_status
    same_identity_quota_hint_available manual_quota_available quota_snapshot
quota_available p item model now =
    let snapshot = quota_snapshot p item.id in
    let hint = same_identity_quota_hint_available p item model now in
    if quota_error_blocks_routing snapshot.quota_error then false else (elim snapshot.quota [
      | some quota ↦
          if quota_explicitly_blocks_routing quota model now p.quota_floor_percent
          then hint
          else not (quota_protection_status p item snapshot now).blocked
      | none ↦ elim (manual_quota_available item) [
        | none ↦ true
        | some true ↦ true
        | some false ↦ hint
      ]
    ])

unfoldable pub account_meters_model : Pool → String → String → Bool
unfolding get any additional_limit_names_model
account_meters_model p id model = elim (get id p.quotas) [
  | none ↦ false
  | some snapshot ↦ elim snapshot.quota [
    | none ↦ false
    | some quota ↦ any (λ limit. additional_limit_names_model limit model) quota.additional_limits
  ]
]

unfoldable pub model_meter_allows : Pool → Account → String → Bool
unfolding account_meters_model any
model_meter_allows p item model =
    account_meters_model p item.id model
    || not (
        any
          (λ candidate.
            not (str_eq candidate.id item.id)
            && candidate.enabled
            && candidate.in_pool
            && account_meters_model p candidate.id model)
          p.accounts)

unfoldable pub usable : Pool → Account → String → Timestamp → Bool
unfolding allowed_model account_auth_verification_pending primary_upstream_account_id
    quota_available model_meter_allows is_codex_device_auth account_cooling_down
usable p item model now =
    let primary = primary_upstream_account_id p item model now in
    if not item.enabled || not item.in_pool || not (allowed_model item model)
    then false
    else if account_auth_verification_pending p item
    then false
    else if not (is_empty primary) && not (str_eq primary item.id)
    then false
    else if not (quota_available p item model now) || not (model_meter_allows p item model)
    then false
    else if is_codex_device_auth item && not (is_some (codex_auth p item))
    then false
    else if not (is_codex_device_auth item) && is_empty item.upstream_base_url
    then false
    else not (account_cooling_down p item.id model now)
