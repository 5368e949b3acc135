-- ===== src/Refresh/Sound.antt =====
-- The quota that upstream/src/pool/quota.rs keeps of an account is sound after every refresh.
use codex_provider.Base.Int.{ℤ, pos, negsuc}
use codex_provider.Base.{
  ◌*◌, ◌/◌, ◌≤◌, ◌≡◌, refl, String, Bool, true, false, ◌&&◌, ◌||◌, not, Option, none, some, inl,
  inr, List, [], ◌∷◌, map, filter, find, All, All-append, All-filter, All-mono, arith, Bool-cases,
  unwrap_or,
}
use codex_provider.Time.{Timestamp}
use codex_provider.Quota.{
  percent, or_else, reported, quota_reported_windows, five_hour_window_minutes,
  weekly_window_minutes,
}
use codex_provider.State.Quota.{no_window, QuotaWindow, QuotaLimit, AccountQuota}
use codex_provider.Refresh.{
  WindowInfo, RateLimitInfo, AdditionalRateLimit, UsageResponse, with_used, normalize_quota_window,
  quota_limit_from_rate_limit, names_retired, drop_retired_model_meters, quota_window_by_duration,
  additional_limit, code_review_limits, reported_meters, quota_reported, quota_from_usage,
  merge_sparse_quota, is_of, is_none,
}

-- What is left of a window: nothing is said of it, or it is between nothing and all of it, and the
-- whole percentage is that, rounded down.
abbrev Remains : Option ℤ → ℤ → Bool → Type 0
Remains none percentage present = present ≡ false
Remains (some (negsuc n)) percentage present = ⊥
Remains (some (pos n)) percentage present =
    (n ≤ 100 * percent) × (percentage ≡ pos (n / percent)) × (present ≡ true)

abbrev pub Legible : QuotaWindow → Type 0
Legible w = Remains w.remaining_percent w.percentage w.present

abbrev pub LegibleLimit : QuotaLimit → Type 0
LegibleLimit limit = All Legible limit.windows

pub record Sound (q : AccountQuota) : Type 0 where
  pub roles : Legible q.primary × Legible q.secondary
  pub reported : All Legible q.windows
  pub known : Legible q.hourly × Legible q.weekly
  pub meters : All (λ limit. LegibleLimit limit × (names_retired limit ≡ false)) q.additional_limits

with_used-Legible : (w : QuotaWindow) (used : Option ℤ) → Legible w → Legible (with_used w used)
with_used-Legible w none h = h
with_used-Legible w (some used) h = (omega arith, refl, refl)

normalize-Legible :
    (window : Option WindowInfo) (now : Timestamp) → Legible (normalize_quota_window window now)
unfolding normalize_quota_window
normalize-Legible none now = refl
normalize-Legible (some window) now = with_used-Legible _ window.used_percent refl

All_kept {ℓ κ} :
    {A : Type ℓ} (P : A → Type κ) (p : A → Bool) (xs : List A) → All P xs → All P (filter p xs)
All_kept P p xs h = All-mono (λ x k. k.0) (filter p xs) (All-filter P p xs h)

limit-Legible :
    (limit_id limit_name : String) (info : Option RateLimitInfo) (now : Timestamp)
    → let limit = quota_limit_from_rate_limit limit_id limit_name info now in
      (Legible limit.primary × Legible limit.secondary) × LegibleLimit limit
unfolding quota_limit_from_rate_limit
limit-Legible limit_id limit_name none now = ((refl, refl), tt)
limit-Legible limit_id limit_name (some info) now =
    let primary = normalize_quota_window info.primary_window now in
    let secondary = normalize_quota_window info.secondary_window now in
    let p = normalize-Legible info.primary_window now in
    let s = normalize-Legible info.secondary_window now in
    (
      (p, s),
      All_kept Legible (λ w. w.observed || w.present) (primary ∷ secondary ∷ []) (p, (s, tt)),
    )

drop_retired-Sound :
    (limits : List QuotaLimit)
    → All LegibleLimit limits
    → All
        (λ limit. LegibleLimit limit × (names_retired limit ≡ false))
        (drop_retired_model_meters limits)
unfolding drop_retired_model_meters
drop_retired-Sound limits h =
    All-mono (λ limit k. (k.0, not_true (names_retired limit) k.1)) _
      (All-filter LegibleLimit (λ limit. not (names_retired limit)) limits h)
  where
    not_true : (b : Bool) → not b ≡ true → b ≡ false
    not_true true e = cc
    not_true false e = refl

additional-Legible :
    (now : Timestamp) (limits : List AdditionalRateLimit)
    → All LegibleLimit (map (additional_limit now) limits)
unfolding additional_limit
additional-Legible now [] = tt
additional-Legible now (x ∷ xs) =
    ((limit-Legible _ _ x.rate_limit now).1, additional-Legible now xs)

code_review-Legible :
    (info : Option RateLimitInfo) (now : Timestamp) → All LegibleLimit (code_review_limits info now)
code_review-Legible none now = tt
code_review-Legible (some info) now =
    ((limit-Legible "code_review" "Code review" (some info) now).1, tt)

meters-Legible :
    (usage : UsageResponse) (now : Timestamp) → All LegibleLimit (reported_meters usage now)
meters-Legible usage now =
    let limits = unwrap_or usage.additional_rate_limits [] in
    All-append LegibleLimit (map (additional_limit now) limits)
      (code_review_limits usage.code_review_rate_limit now) (additional-Legible now limits)
      (code_review-Legible usage.code_review_rate_limit now)

-- A window that is found is one of the windows.
found-Legible :
    (p : QuotaWindow → Bool) (windows : List QuotaWindow)
    → All Legible windows
    → Legible (unwrap_or (find p windows) no_window)
unfolding find
found-Legible p [] h = refl
found-Legible p (w ∷ windows) h = elim (Bool-cases (p w)) [
  | inl e ↦ rw e h.0
  | inr e ↦ rw e (found-Legible p windows h.1)
]

or_else-Legible :
    (first second : List QuotaWindow)
    → All Legible first
    → All Legible second
    → All Legible (or_else first second)
or_else-Legible [] second h k = k
or_else-Legible (w ∷ first) second h k = h

reported_windows-Legible :
    (q : AccountQuota)
    → All Legible q.windows
    → Legible q.primary × Legible q.secondary
    → Legible q.hourly × Legible q.weekly
    → All Legible (quota_reported_windows q)
unfolding quota_reported_windows
reported_windows-Legible q windows roles known =
    let by_role = q.primary ∷ q.secondary ∷ [] in
    let by_duration = q.hourly ∷ q.weekly ∷ [] in
    or_else-Legible q.windows (or_else (filter reported by_role) (filter reported by_duration))
      windows
      (or_else-Legible (filter reported by_role) (filter reported by_duration)
        (All_kept Legible reported by_role (roles.0, (roles.1, tt)))
        (All_kept Legible reported by_duration (known.0, (known.1, tt))))

by_duration-Legible :
    (q : AccountQuota) (minutes : ℤ)
    → All Legible (quota_reported_windows q)
    → Legible (quota_window_by_duration q minutes)
unfolding quota_window_by_duration
by_duration-Legible q minutes h = found-Legible (is_of minutes) (quota_reported_windows q) h

quota_from_usage-Sound :
    (usage : UsageResponse) (now : Timestamp) → Sound (quota_from_usage usage now)
unfolding quota_from_usage quota_reported
quota_from_usage-Sound usage now =
    let q = quota_reported usage now in
    let (roles, windows) = limit-Legible "codex" "" usage.rate_limit now in
    let hourly =
      by_duration-Legible q five_hour_window_minutes
        (reported_windows-Legible q windows roles (refl, refl)) in
    let r = record q { hourly = quota_window_by_duration q five_hour_window_minutes } in
    let weekly =
      by_duration-Legible r weekly_window_minutes
        (reported_windows-Legible r windows roles (hourly, refl)) in
    record {
      roles = roles;
      reported = windows;
      known = (hourly, weekly);
      meters = drop_retired-Sound _ (meters-Legible usage now);
    }

-- The meters of the quota that an account has, if it has one.
abbrev pub meters_of : Option AccountQuota → List QuotaLimit
meters_of none = []
meters_of (some q) = q.additional_limits

-- Where the windows of the meters are legible that the account's quota had before, whatever else it
-- had, a refresh with any answer leaves a sound quota: what is left of each window that upstream told
-- is between nothing and all of it, with the whole percentage in step, a window that it did not tell
-- does not count as present, and no meter is of a retired model.
pub refresh-Sound :
    (prior : Option AccountQuota) (usage : UsageResponse) (now : Timestamp)
    → All LegibleLimit (meters_of prior)
    → Sound (merge_sparse_quota prior (quota_from_usage usage now) usage)
unfolding merge_sparse_quota
refresh-Sound none usage now h = quota_from_usage-Sound usage now
refresh-Sound (some prior) usage now h =
    let fresh = quota_from_usage-Sound usage now in
    let kept = drop_retired-Sound prior.additional_limits h in
    record {
      roles = fresh.roles;
      reported = fresh.reported;
      known = fresh.known;
      meters =
          elim (Bool-cases
            (is_none usage.additional_rate_limits && is_none usage.code_review_rate_limit)) [
              | inl e ↦ rw e kept
              | inr e ↦ rw e fresh.meters
            ];
    }
