-- ===== src/Protection.antt =====
-- upstream/src/pool/app.rs: an account's own quota protection and the global reserve. The messages
-- for the dashboard are left out; what decides routing is `blocked`.
pub mod Blocked
use codex_provider.Base.Int.{ℤ, pos, negsuc, ltb_ℤ, eq_ℤ, clamp_to, le_ℤ, scale}
use codex_provider.Base.{
  ℕ, ◌*◌, String, Bool, true, false, ◌&&◌, ◌||◌, not, Option, none, some, List, [], ◌∷◌, find,
  if◌then◌else◌, unwrap_or,
}
use codex_provider.Time.{Timestamp, unix, is_zero}
use codex_provider.Plan.{is_codex_device_auth}
use codex_provider.Quota.{
  Freshness, fresh, percent, is_some, five_hour_window_minutes, weekly_window_minutes,
  quota_window_remaining, quota_reported_windows, quota_telemetry_state,
}
use codex_provider.State.{Pool, Account, QuotaReserve}
use codex_provider.State.Quota.{QuotaWindow, AccountQuota, QuotaSnapshot}

pub data Source : Type 0 where
  no_source own_protection global_reserve : Source

pub data ProtectionState : Type 0 where
  disabled unavailable available blocked_state : ProtectionState

pub record QuotaProtectionStatus : Type 0 where
  pub supported : Bool
  pub enabled : Bool
  pub threshold : ℤ
  pub source : Source
  pub five_hour_threshold : Option ℤ
  pub weekly_threshold : Option ℤ
  pub state : ProtectionState
  pub blocked : Bool
  pub effective_window : Option QuotaWindow
  pub freshness : Freshness
  pub last_successful_update : Timestamp

unfoldable pub account_weekly_threshold : Account → ℤ
account_weekly_threshold item = pos (
    clamp_to 100 (unwrap_or item.quota_protection_weekly_threshold item.quota_protection_threshold))

-- The window of one length, if it is reported and present.
unfoldable pub window_of : ℤ → List QuotaWindow → Option QuotaWindow
unfolding find
window_of minutes =
    find λ w. w.present && elim w.window_minutes [ none ↦ false | some m ↦ eq_ℤ m minutes ]

-- What the loop over the two windows makes of one window.
pub data Verdict : Type 0 where
  absent above unproven below : Verdict

unfoldable pub is_fresh : Freshness → Bool
is_fresh fresh = true
is_fresh _ = false

unfoldable pub reset_expired : QuotaWindow → Timestamp → Bool
unfolding unix
reset_expired w now = elim w.reset_at [
  | none ↦ false
  | some reset_at ↦ not (ltb_ℤ (unix now) reset_at)
]

unfoldable pub window_verdict : Freshness → Timestamp → ℤ → Option QuotaWindow → Verdict
unfolding quota_window_remaining reset_expired is_fresh
window_verdict freshness now threshold none = absent
window_verdict freshness now threshold (some w) =
    if not (le_ℤ (quota_window_remaining w) (scale percent threshold))
    then above
    else if reset_expired w now
    then unproven
    else if not (is_some w.reset_at) && not (is_fresh freshness)
    then unproven
    else below

-- The window that is shown when none blocks. A window above its threshold is shown where none was
-- yet, a window whose reading proves nothing in any case.
abbrev shown_after : Verdict → Option QuotaWindow → Option QuotaWindow → Option QuotaWindow
shown_after absent w shown = shown
shown_after above w none = w
shown_after above w (some s) = some s
shown_after unproven w shown = w
shown_after below w shown = w

abbrev is_unproven : Verdict → Bool
is_unproven unproven = true
is_unproven _ = false

-- The status after both windows, none of which blocks.
unfoldable pub settled : QuotaProtectionStatus → Option QuotaWindow → Bool → QuotaProtectionStatus
unfolding is_fresh
settled status none doubt = record status { state = unavailable }
settled status (some w) doubt = record status {
  effective_window = some w;
  state = (if doubt || not (is_fresh status.freshness) then unavailable else available);
}

abbrev block : QuotaProtectionStatus → Option QuotaWindow → QuotaProtectionStatus
block status w = record status { effective_window = w; blocked = true; state = blocked_state }

unfoldable pub after_windows :
    QuotaProtectionStatus
    → Option QuotaWindow
    → Verdict
    → Option QuotaWindow
    → Verdict
    → QuotaProtectionStatus
unfolding settled
after_windows status five below week v = block status five
after_windows status five u week below = block status week
after_windows status five u week v =
    settled status (shown_after v week (shown_after u five none)) (is_unproven u || is_unproven v)

unfoldable pub windows_status :
    QuotaProtectionStatus → QuotaSnapshot → Timestamp → ℤ → ℤ → QuotaProtectionStatus
unfolding window_of window_verdict quota_reported_windows after_windows
windows_status base snapshot now five_hour weekly =
    let status = record base {
      five_hour_threshold = some five_hour;
      weekly_threshold = some weekly;
    } in
    elim snapshot.quota [
      | none ↦ record status { state = unavailable }
      | some quota ↦
          let windows = quota_reported_windows quota in
          let five = window_of five_hour_window_minutes windows in
          let week = window_of weekly_window_minutes windows in
          after_windows status five (window_verdict status.freshness now five_hour five) week
            (window_verdict status.freshness now weekly week)
    ]

unfoldable pub quota_protection_status :
    Pool → Account → QuotaSnapshot → Timestamp → QuotaProtectionStatus
unfolding is_codex_device_auth quota_telemetry_state windows_status account_weekly_threshold
quota_protection_status p item snapshot now =
    let threshold = pos (clamp_to 100 item.quota_protection_threshold) in
    let status : QuotaProtectionStatus = record {
      supported = is_codex_device_auth item;
      enabled = item.quota_protection_enabled;
      threshold = threshold;
      source = no_source;
      five_hour_threshold = none;
      weekly_threshold = none;
      state = disabled;
      blocked = false;
      effective_window = none;
      freshness = quota_telemetry_state snapshot now;
      last_successful_update =
          (if is_zero snapshot.last_successful_refresh_at
            then snapshot.usage_updated_at
            else snapshot.last_successful_refresh_at);
    } in
    if not status.supported
    then status
    else if not status.enabled
    then (if p.quota_reserve.enabled
        then windows_status (record status { source = global_reserve }) snapshot now
            p.quota_reserve.five_hour p.quota_reserve.weekly
        else status)
    else windows_status (record status { source = own_protection }) snapshot now threshold
        (account_weekly_threshold item)
