-- ===== src/Refresh.antt =====
-- upstream/src/pool/quota.rs: what an answer of the usage endpoint makes of an account's quota. The
-- answer is read from its JSON already; the fields that only the console shows (credits, the spend
-- limit's amounts, labels, reasons) are left out. Where `reset_after_seconds` is beyond what a
-- TimeDelta holds, the source panics; here the instant is then as it was.
pub mod Sound
use Prim.Native.String.{count}
use codex_provider.Base.Int.{ℤ, pos, negsuc, clamp_to, eq_ℤ}
use codex_provider.Base.Text.{is_empty, trim, filter_chars, is_control}
use codex_provider.Base.{
  ℕ, ◌+◌, ◌-◌, ◌*◌, ◌/◌, String, Bool, true, false, ◌&&◌, ◌||◌, not, Option, none, some, List, [],
  ◌∷◌, ◌++◌, map, filter, any, find, ltb, ◌==◌, if◌then◌else◌, unwrap_or,
}
use codex_provider.Time.{Timestamp, seconds, add, unix}
use codex_provider.Plan.{clean_metadata_token, collapse_fields, truncate_runes}
use codex_provider.Quota.{
  percent, is_some, five_hour_window_minutes, weekly_window_minutes, quota_reported_windows,
  additional_limit_names_model,
}
use codex_provider.State.Quota.{no_window, QuotaWindow, QuotaLimit, QuotaResetCredits, AccountQuota}

abbrev pub is_none {ℓ} : {A : Type ℓ} → Option A → Bool
is_none o = not (is_some o)

-- `used_percent` counts millionths of a percent.
pub record WindowInfo : Type 0 where
  pub used_percent : Option ℤ
  pub limit_window_seconds : Option ℤ
  pub reset_after_seconds : Option ℤ
  pub reset_at : Option ℤ

pub record RateLimitInfo : Type 0 where
  pub allowed : Option Bool
  pub limit_reached : Option Bool
  pub primary_window : Option WindowInfo
  pub secondary_window : Option WindowInfo

pub record AdditionalRateLimit : Type 0 where
  pub limit_name : String
  pub metered_feature : String
  pub rate_limit : Option RateLimitInfo

-- `spend_reached` is `spend_control.reached`, and false where there is none of it.
pub record UsageResponse : Type 0 where
  pub rate_limit : Option RateLimitInfo
  pub code_review_rate_limit : Option RateLimitInfo
  pub spend_reached : Bool
  pub additional_rate_limits : Option (List AdditionalRateLimit)
  pub rate_limit_reached_type : String
  pub reset_credits : Option (Option ℤ)

-- `filter(|value| *value > 0)`.
abbrev positive : Option ℤ → Option ℕ
positive none = none
positive (some (pos n)) = if n == 0 then none else some n
positive (some (negsuc n)) = none

abbrev from_now : Timestamp → Option ℤ → Option ℤ
from_now now none = none
from_now now (some (pos n)) = some (unix (add now (seconds n)))
from_now now (some (negsuc n)) = none

unfoldable pub normalized_reset_at : Option ℤ → Option ℤ → Timestamp → Option ℤ
unfolding unix add
normalized_reset_at reset_at reset_after_seconds now = elim (positive reset_at) [
  | some at ↦ some (pos at)
  | none ↦ from_now now reset_after_seconds
]

abbrev in_minutes : Option ℕ → Option ℤ
in_minutes none = none
in_minutes (some n) = some (pos ((n + 59) / 60))

-- The percentage of a window that was reported.
abbrev pub with_used : QuotaWindow → Option ℤ → QuotaWindow
with_used w none = w
with_used w (some used) =
    let remaining = 100 * percent - clamp_to (100 * percent) used in
    record w {
      remaining_percent = some (pos remaining);
      percentage = pos (remaining / percent);
      present = true;
    }

unfoldable pub normalize_quota_window : Option WindowInfo → Timestamp → QuotaWindow
unfolding normalized_reset_at
normalize_quota_window none now = no_window
normalize_quota_window (some window) now =
    with_used
      (record no_window {
        observed = true;
        window_minutes = in_minutes (positive window.limit_window_seconds);
        reset_at = normalized_reset_at window.reset_at window.reset_after_seconds now;
      })
      window.used_percent

abbrev is_true : Option Bool → Bool
is_true b = unwrap_or b false

abbrev is_denied : Option Bool → Bool
is_denied b = not (unwrap_or b true)

unfoldable pub quota_limit_from_rate_limit :
    String → String → Option RateLimitInfo → Timestamp → QuotaLimit
unfolding normalize_quota_window filter
quota_limit_from_rate_limit limit_id limit_name none now = record {
  limit_id = limit_id;
  limit_name = limit_name;
  primary = no_window;
  secondary = no_window;
  windows = [];
  exhausted = false;
}
quota_limit_from_rate_limit limit_id limit_name (some rate_limit) now =
    let primary = normalize_quota_window rate_limit.primary_window now in
    let secondary = normalize_quota_window rate_limit.secondary_window now in
    record {
      limit_id = limit_id;
      limit_name = limit_name;
      primary = primary;
      secondary = secondary;
      windows = filter (λ w. w.observed || w.present) (primary ∷ secondary ∷ []);
      exhausted = is_true rate_limit.limit_reached || is_denied rate_limit.allowed;
    }

unfoldable pub clean_metadata_text : String → ℕ → String
unfolding trim filter_chars is_control collapse_fields truncate_runes
clean_metadata_text value max_runes =
    let kept = collapse_fields (filter_chars (λ c. not (is_control c)) (trim value)) in
    if ltb 0 max_runes && ltb max_runes (count kept) then truncate_runes kept max_runes else kept

abbrev pub retired_codex_model_slugs : List String
retired_codex_model_slugs =
    "gpt-5.4" ∷ "gpt-5.4-mini" ∷ "gpt-5.3-codex-spark" ∷ "gpt-5.2-codex" ∷ []

unfoldable pub names_retired : QuotaLimit → Bool
unfolding any additional_limit_names_model
names_retired limit = any (additional_limit_names_model limit) retired_codex_model_slugs

unfoldable pub drop_retired_model_meters : List QuotaLimit → List QuotaLimit
unfolding filter names_retired
drop_retired_model_meters limits = filter (λ limit. not (names_retired limit)) limits

abbrev pub is_of : ℤ → QuotaWindow → Bool
is_of minutes w = elim w.window_minutes [ none ↦ false | some m ↦ eq_ℤ m minutes ]

unfoldable pub quota_window_by_duration : AccountQuota → ℤ → QuotaWindow
unfolding find quota_reported_windows
quota_window_by_duration q minutes =
    unwrap_or (find (is_of minutes) (quota_reported_windows q)) no_window

unfoldable pub additional_limit : Timestamp → AdditionalRateLimit → QuotaLimit
unfolding clean_metadata_token clean_metadata_text quota_limit_from_rate_limit
additional_limit now limit =
    quota_limit_from_rate_limit (clean_metadata_token limit.metered_feature)
      (clean_metadata_text limit.limit_name 120) limit.rate_limit now

abbrev pub code_review_limits : Option RateLimitInfo → Timestamp → List QuotaLimit
code_review_limits none now = []
code_review_limits (some info) now =
    quota_limit_from_rate_limit "code_review" "Code review" (some info) now ∷ []

-- The meters of an answer, before the retired ones are dropped.
abbrev pub reported_meters : UsageResponse → Timestamp → List QuotaLimit
reported_meters usage now =
    map (additional_limit now) (unwrap_or usage.additional_rate_limits [])
    ++ code_review_limits usage.code_review_rate_limit now

-- The quota without its two windows of a known duration, which are read from it.
unfoldable pub quota_reported : UsageResponse → Timestamp → AccountQuota
unfolding quota_limit_from_rate_limit clean_metadata_token drop_retired_model_meters
    additional_limit
quota_reported usage now =
    let base = quota_limit_from_rate_limit "codex" "" usage.rate_limit now in
    let reached = clean_metadata_token usage.rate_limit_reached_type in
    record {
      primary = base.primary;
      secondary = base.secondary;
      windows = base.windows;
      additional_limits = drop_retired_model_meters (reported_meters usage now);
      reset_credits = elim usage.reset_credits [
        | none ↦ none
        | some n ↦ some (record { available_count = n; expires_at = none })
      ];
      exhausted = base.exhausted || usage.spend_reached || not (is_empty reached);
      hourly = no_window;
      weekly = no_window;
    }

unfoldable pub quota_from_usage : UsageResponse → Timestamp → AccountQuota
unfolding quota_reported quota_window_by_duration
quota_from_usage usage now =
    let q = quota_reported usage now in
    record q {
      hourly = quota_window_by_duration q five_hour_window_minutes;
      weekly =
          quota_window_by_duration
            (record q { hourly = quota_window_by_duration q five_hour_window_minutes })
            weekly_window_minutes;
    }

-- `merge_sparse_quota`: what the answer leaves out stays as it was.
unfoldable pub merge_sparse_quota :
    Option AccountQuota → AccountQuota → UsageResponse → AccountQuota
unfolding drop_retired_model_meters
merge_sparse_quota none current usage = current
merge_sparse_quota (some prior) current usage = record current {
  reset_credits = elim usage.reset_credits [
    | none ↦ prior.reset_credits
    | some n ↦ current.reset_credits
  ];
  additional_limits =
      if is_none usage.additional_rate_limits && is_none usage.code_review_rate_limit
      then drop_retired_model_meters prior.additional_limits
      else current.additional_limits;
}
