-- ===== src/Tests/Quotas.antt =====
-- The quotas of quota.rs and the protections of app.rs on a weekly window that is nearly spent.
use codex_provider.Plan.{is_codex_device_auth}
use codex_provider.Quota.{
  quota_window_remaining, quota_reported_windows, remaining_quota_hint,
  quota_explicitly_blocks_routing,
}
use codex_provider.Protection.{quota_protection_status}
use codex_provider.Base.Int.{pos}
use codex_provider.Base.{
  [], ◌∷◌, none, false, ◌*◌, ◌≤◌, ◌≡◌, refl, true, ◌||◌, some, Mem, Memᴰ, ◌⊎◌, arith,
}
use codex_provider.State.{Account}
use codex_provider.State.Quota.{
  no_window, QuotaLimit, QuotaWindow, AccountQuota, QuotaSnapshot, no_snapshot,
}
use codex_provider.Quota.{
  percent, quota_telemetry_state, five_hour_window_minutes, weekly_window_minutes,
}
use codex_provider.Refresh.{UsageResponse, quota_from_usage, merge_sparse_quota}
use codex_provider.Refresh.Sound.{Sound, refresh-Sound}
use codex_provider.Quota.Hint.{remaining_quota_hint-le}
use codex_provider.Quota.Blocks.{quota_explicitly_blocks_routing_mono}
use codex_provider.Protection.Blocked.{
  Spent, five_hour_threshold_of, weekly_threshold_of, quota_protection_status-blocked,
}
use codex_provider.Tests.{moment, ann, bound_pool, week_with, quota_with}

-- 40.5 percent is left.
week_reported : Mem (week_with 40500000) (quota_reported_windows (quota_with 40500000))
unfolding quota_reported_windows
week_reported = ∣ Memᴰ.head refl ∣₁

remaining_quota_hint-le_example :
    (remaining_quota_hint (quota_with 40500000) ≤ 100)
    × (remaining_quota_hint (quota_with 40500000) * percent
        ≤ quota_window_remaining (week_with 40500000))
remaining_quota_hint-le_example =
    remaining_quota_hint-le (quota_with 40500000) (week_with 40500000) week_reported refl

-- 1 percent is left, and the floor is 2 percent.
week_blocks : quota_explicitly_blocks_routing (quota_with 1000000) "m" moment 2000000 ≡ true
unfolding quota_explicitly_blocks_routing
week_blocks = refl

quota_explicitly_blocks_routing_mono_example :
    quota_explicitly_blocks_routing (quota_with 1000000) "m" 5 3000000 ≡ true
quota_explicitly_blocks_routing_mono_example =
    quota_explicitly_blocks_routing_mono (quota_with 1000000) "m" 5 moment 2000000 3000000
      (omega arith) (omega arith) week_blocks

abbrev guarded : Account
guarded = record ann { quota_protection_enabled = true; quota_protection_threshold = pos 5 }

abbrev spent : QuotaSnapshot
spent = record no_snapshot { quota = some (quota_with 1000000) }

guarded_blocked : (quota_protection_status bound_pool guarded spent moment).blocked ≡ true
unfolding quota_protection_status
guarded_blocked = refl

quota_protection_status-blocked_example :
    (is_codex_device_auth guarded ≡ true)
    × (guarded.quota_protection_enabled || bound_pool.quota_reserve.enabled ≡ true)
    × (quota : AccountQuota) × (spent.quota ≡ some quota)
    × (w : QuotaWindow) × (Spent quota
          (quota_telemetry_state spent moment)
          moment
          (five_hour_threshold_of bound_pool guarded)
          five_hour_window_minutes
          w
        ⊎ Spent quota
            (quota_telemetry_state spent moment)
            moment
            (weekly_threshold_of bound_pool guarded)
            weekly_window_minutes
            w)
quota_protection_status-blocked_example =
    quota_protection_status-blocked bound_pool guarded spent moment guarded_blocked

-- A meter of a retired model, which an older snapshot has.
abbrev spark : QuotaLimit
spark = record {
  limit_id = "gpt-5.3-codex-spark";
  limit_name = "Spark";
  primary = no_window;
  secondary = no_window;
  windows = [];
  exhausted = true;
}

-- 30.5 percent of a week are used, and nothing else is told.
abbrev some_usage : UsageResponse
some_usage = record {
  rate_limit = some (record {
    allowed = some true;
    limit_reached = none;
    primary_window = some (record {
      used_percent = some (pos 30500000);
      limit_window_seconds = some (pos 604800);
      reset_after_seconds = some (pos 60);
      reset_at = none;
    });
    secondary_window = none;
  });
  code_review_rate_limit = none;
  spend_reached = false;
  additional_rate_limits = none;
  rate_limit_reached_type = "";
  reset_credits = none;
}

abbrev metered : AccountQuota
metered = record (quota_with 0) { additional_limits = spark ∷ [] }

refresh_drops :
    let q = merge_sparse_quota (some metered) (quota_from_usage some_usage moment) some_usage in
    (q.weekly.percentage ≡ pos 69)
    × (q.weekly.remaining_percent ≡ some (pos 69500000))
    × (q.additional_limits ≡ [])
unfolding merge_sparse_quota quota_from_usage
refresh_drops = (refl, refl, refl)

refresh-Sound_example :
    Sound (merge_sparse_quota (some metered) (quota_from_usage some_usage moment) some_usage)
refresh-Sound_example = refresh-Sound (some metered) some_usage moment (tt, tt)
