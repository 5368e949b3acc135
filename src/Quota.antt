-- ===== src/Quota.antt =====
-- upstream/src/pool/quota.rs, as far as routing reads it: which windows an account reports, what is
-- left of them, and when a quota blocks routing.
pub mod Hint
pub mod Blocks
use Prim.Native.String.{len}
use codex_provider.Base.Int.{ℤ, pos, negsuc, ltb_ℤ, clamp_to, le_ℤ}
use codex_provider.Base.Text.{is_empty, trim, all_chars}
use codex_provider.Base.{
  ℕ, ◌+◌, ◌-◌, ◌*◌, ◌/◌, min, String, Bool, true, false, ◌&&◌, ◌||◌, not, Option, none, some, List,
  [], ◌∷◌, map, filter, any, ltb, leb, ◌==◌, if◌then◌else◌, str_eq,
}
use codex_provider.Time.{Timestamp, second, minutes, is_zero, unix}
use codex_provider.Plan.{clean_metadata_token, is_ascii_lowercase_or_digit}
use codex_provider.State.Quota.{
  QuotaWindow, QuotaLimit, AccountQuota, QuotaResetCredits, QuotaSnapshot, QuotaErrorInfo,
}

abbrev pub five_hour_window_minutes : ℤ
five_hour_window_minutes = pos 300

abbrev pub weekly_window_minutes : ℤ
weekly_window_minutes = pos 10080

abbrev pub quota_telemetry_freshness_minutes : ℕ
quota_telemetry_freshness_minutes = 35

-- One percent, in the unit of the percentages.
abbrev pub percent : ℕ
percent = 1000000

abbrev pub is_some {ℓ} : {A : Type ℓ} → Option A → Bool
is_some none = false
is_some (some a) = true

unfoldable pub quota_window_remaining : QuotaWindow → ℕ
quota_window_remaining w = elim w.remaining_percent [
  | some remaining ↦ clamp_to (100 * percent) remaining
  | none ↦ clamp_to 100 w.percentage * percent
]

unfoldable pub quota_window_spent : QuotaWindow → ℕ → Bool
unfolding quota_window_remaining
quota_window_spent w floor_percent = leb (quota_window_remaining w) floor_percent

abbrev pub reported : QuotaWindow → Bool
reported w = w.observed || w.present || is_some w.window_minutes

-- The first of the lists that is not empty.
abbrev pub or_else {ℓ} : {A : Type ℓ} → List A → List A → List A
or_else [] ys = ys
or_else (x ∷ xs) ys = x ∷ xs

unfoldable pub quota_reported_windows : AccountQuota → List QuotaWindow
unfolding filter
quota_reported_windows q = or_else q.windows (
    or_else (filter reported (q.primary ∷ q.secondary ∷ []))
      (filter reported (q.hourly ∷ q.weekly ∷ [])))

-- `iter().min()`.
unfoldable pub least : List ℕ → Option ℕ
least [] = none
least (x ∷ xs) = elim (least xs) [ none ↦ some x | some m ↦ some (min x m) ]

-- Whole percents: the source truncates each window's remaining percentage.
unfoldable pub remaining_quota_hint : AccountQuota → ℕ
unfolding filter quota_reported_windows least quota_window_remaining
remaining_quota_hint q =
    elim (least (
      map (λ w. quota_window_remaining w / percent)
        (filter (λ w. w.present) (quota_reported_windows q)))) [
          | some m ↦ min m 100
          | none ↦ if q.exhausted then 0 else 100
        ]

unfoldable pub quota_window_evidence_active : QuotaWindow → Timestamp → Bool
unfolding unix
quota_window_evidence_active w now = elim w.reset_at [
  | none ↦ true
  | some reset_at ↦ ltb_ℤ (unix now) reset_at
]

unfoldable pub additional_limit_names_model : QuotaLimit → String → Bool
unfolding clean_metadata_token
additional_limit_names_model limit name =
    let model = clean_metadata_token name in
    not (is_empty model)
    && (str_eq (clean_metadata_token limit.limit_id) model
        || str_eq (clean_metadata_token limit.limit_name) model)

-- The closure `blocks` of `quota_explicitly_blocks_routing`.
unfoldable pub blocks : Timestamp → ℕ → QuotaWindow → Bool
unfolding quota_window_spent quota_window_evidence_active
blocks now floor_percent w =
    w.present && quota_window_spent w floor_percent && quota_window_evidence_active w now

-- The loop over `additional_limits`.
unfoldable pub meters_block : String → Timestamp → ℕ → List QuotaLimit → Bool
unfolding any blocks additional_limit_names_model
meters_block model now floor_percent [] = false
meters_block model now floor_percent (limit ∷ limits) =
    let rest = meters_block model now floor_percent limits in
    if additional_limit_names_model limit model
    then (if limit.exhausted
        then true
        else if any (blocks now floor_percent) limit.windows
        then true
        else rest)
    else rest

unfoldable pub quota_explicitly_blocks_routing : AccountQuota → String → Timestamp → ℕ → Bool
unfolding any blocks quota_reported_windows meters_block
quota_explicitly_blocks_routing q model now floor_percent =
    if q.exhausted
    then true
    else if any (blocks now floor_percent) (quota_reported_windows q)
    then true
    else meters_block model now floor_percent q.additional_limits

pub data Freshness : Type 0 where
  refresh_unavailable not_reported fresh stale : Freshness

unfoldable pub quota_telemetry_state : QuotaSnapshot → Timestamp → Freshness
quota_telemetry_state s now = elim s.quota_error [
  | some e ↦ refresh_unavailable
  | none ↦
      let observed_at =
        if is_zero s.last_successful_refresh_at
        then s.usage_updated_at
        else s.last_successful_refresh_at in
      if is_zero observed_at
      then not_reported
      else if leb (now - observed_at) (minutes quota_telemetry_freshness_minutes)
      then fresh
      else stale
]

unfoldable pub sanitized_error_code : String → String
unfolding trim all_chars is_ascii_lowercase_or_digit
sanitized_error_code raw =
    let value = trim raw in
    if is_empty value || ltb 64 (len value)
    then ""
    else if all_chars
        (λ c.
          is_ascii_lowercase_or_digit c
          || (leb b'A' c && leb c b'Z')
          || c == b'_'
          || c == b'-'
          || c == b'.')
        value
    then value
    else ""
