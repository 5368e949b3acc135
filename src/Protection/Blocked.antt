-- ===== src/Protection/Blocked.antt =====
-- upstream/src/pool/app.rs, `quota_protection_status`: what it takes for a protection to block.
use codex_provider.Base.Int.{ℤ, eq_ℤ, pos, clamp_to, le_ℤ, scale}
use codex_provider.Base.{
  ◌≡◌, refl, ◌≢◌, Bool, true, false, ◌&&◌, ◌||◌, not, Option, none, some, Mem, find-Mem, find-some,
  if◌then◌else◌, Bool-cases, Option-cases, ◌⊎◌, inl, inr,
}
use codex_provider.Time.{Timestamp, is_zero}
use codex_provider.Plan.{is_codex_device_auth}
use codex_provider.State.{Pool, Account}
use codex_provider.State.Quota.{QuotaWindow, AccountQuota, QuotaSnapshot}
use codex_provider.Quota.{
  Freshness, percent, is_some, five_hour_window_minutes, weekly_window_minutes,
  quota_window_remaining, quota_reported_windows, quota_telemetry_state,
}
use codex_provider.Protection.{
  Source, own_protection, global_reserve, disabled, Verdict, absent, above, unproven, below,
  QuotaProtectionStatus, account_weekly_threshold, is_fresh, reset_expired, window_of,
  window_verdict, shown_after, is_unproven, settled, after_windows, windows_status,
  quota_protection_status,
}

abbrev lasts : ℤ → QuotaWindow → Bool
lasts minutes w = elim w.window_minutes [ none ↦ false | some m ↦ eq_ℤ m minutes ]

-- A window that a protection may rely on: the account reports it as present and of the length of the
-- limit, its reset is not past, it has a reset or the reading is fresh, and what is left is no more
-- than the threshold.
unfoldable pub Spent : AccountQuota → Freshness → Timestamp → ℤ → ℤ → QuotaWindow → Type 0
unfolding quota_reported_windows reset_expired quota_window_remaining is_fresh
Spent quota f now threshold minutes w =
    Mem w (quota_reported_windows quota)
    × (w.present ≡ true)
    × (lasts minutes w ≡ true)
    × (reset_expired w now ≡ false)
    × (not (is_some w.reset_at) && not (is_fresh f) ≡ false)
    × (le_ℤ (quota_window_remaining w) (scale percent threshold) ≡ true)

verdict_below :
    (f : Freshness) (now : Timestamp) (t : ℤ) (w : QuotaWindow)
    → window_verdict f now t (some w) ≡ below
    → (reset_expired w now ≡ false)
      × (not (is_some w.reset_at) && not (is_fresh f) ≡ false)
      × (le_ℤ (quota_window_remaining w) (scale percent t) ≡ true)
unfolding window_verdict
verdict_below f now t w h =
    chain (le_ℤ (quota_window_remaining w) (scale percent t)) (reset_expired w now)
      (not (is_some w.reset_at) && not (is_fresh f)) h
  where
    chain :
        (l r s : Bool)
        → (if not l then above else if r then unproven else if s then unproven else below) ≡ below
        → (r ≡ false) × (s ≡ false) × (l ≡ true)
    chain false r s k = cc
    chain true true s k = cc
    chain true false true k = cc
    chain true false false k = (refl, refl, refl)

window_below :
    (quota : AccountQuota) (f : Freshness) (now : Timestamp) (t m : ℤ)
    → window_verdict f now t (window_of m (quota_reported_windows quota)) ≡ below
    → (w : QuotaWindow) × Spent quota f now t m w
unfolding window_verdict window_of Spent
window_below quota f now t m h = elim (Option-cases (window_of m (quota_reported_windows quota))) [
  | inl e ↦ absurd (cc (rw (e, window_verdict) at h))
  | inr (w, e) ↦
      let (live, proven, low) = verdict_below f now t w (rw e at h) in
      let found = (find-some _ (quota_reported_windows quota) w e).0 in
      (
        w,
        (
          find-Mem _ (quota_reported_windows quota) w e,
          here _ _ found,
          there _ _ found,
          live,
          proven,
          low,
        ),
      )
]
  where
    here : (x y : Bool) → x && y ≡ true → x ≡ true
    here true y k = refl
    here false y k = k

    there : (x y : Bool) → x && y ≡ true → y ≡ true
    there true y k = k
    there false y k = cc

settled-blocked :
    (s : QuotaProtectionStatus) (o : Option QuotaWindow) (doubt : Bool)
    → (settled s o doubt).blocked ≡ s.blocked
unfolding settled
settled-blocked s none doubt = refl
settled-blocked s (some w) doubt = refl

unsettled :
    (s : QuotaProtectionStatus) (five week : Option QuotaWindow) (u v : Verdict)
    → s.blocked ≡ false
    → (settled s
        (shown_after v week (shown_after u five none))
        (is_unproven u || is_unproven v)).blocked
      ≡ true
    → true ≢ true
unsettled s five week u v e h =
    let shown = shown_after v week (shown_after u five none) in
    cc (settled-blocked s shown (is_unproven u || is_unproven v), e, h)

after_windows-blocked :
    (s : QuotaProtectionStatus) (five week : Option QuotaWindow) (u v : Verdict)
    → s.blocked ≡ false
    → (after_windows s five u week v).blocked ≡ true
    → (u ≡ below) ⊎ (v ≡ below)
unfolding after_windows
after_windows-blocked s five week below v e h = inl refl
after_windows-blocked s five week absent below e h = inr refl
after_windows-blocked s five week above below e h = inr refl
after_windows-blocked s five week unproven below e h = inr refl
after_windows-blocked s five week absent absent e h =
    absurd (unsettled s five week absent absent e h refl)
after_windows-blocked s five week absent above e h =
    absurd (unsettled s five week absent above e h refl)
after_windows-blocked s five week absent unproven e h =
    absurd (unsettled s five week absent unproven e h refl)
after_windows-blocked s five week above absent e h =
    absurd (unsettled s five week above absent e h refl)
after_windows-blocked s five week above above e h =
    absurd (unsettled s five week above above e h refl)
after_windows-blocked s five week above unproven e h =
    absurd (unsettled s five week above unproven e h refl)
after_windows-blocked s five week unproven absent e h =
    absurd (unsettled s five week unproven absent e h refl)
after_windows-blocked s five week unproven above e h =
    absurd (unsettled s five week unproven above e h refl)
after_windows-blocked s five week unproven unproven e h =
    absurd (unsettled s five week unproven unproven e h refl)

-- The thresholds in force: the account's own, or the reserve's where it has none of its own.
unfoldable pub five_hour_threshold_of : Pool → Account → ℤ
five_hour_threshold_of p a =
    if a.quota_protection_enabled
    then pos (clamp_to 100 a.quota_protection_threshold)
    else p.quota_reserve.five_hour

unfoldable pub weekly_threshold_of : Pool → Account → ℤ
unfolding account_weekly_threshold
weekly_threshold_of p a =
    if a.quota_protection_enabled then account_weekly_threshold a else p.quota_reserve.weekly

windows_status-blocked :
    (base : QuotaProtectionStatus) (snapshot : QuotaSnapshot) (now : Timestamp) (five week : ℤ)
    → base.blocked ≡ false
    → (windows_status base snapshot now five week).blocked ≡ true
    → (quota : AccountQuota) × (snapshot.quota ≡ some quota)
      × (w : QuotaWindow) × (Spent quota base.freshness now five five_hour_window_minutes w
          ⊎ Spent quota base.freshness now week weekly_window_minutes w)
unfolding windows_status
windows_status-blocked base snapshot now five week e h = elim (Option-cases snapshot.quota) [
  | inl f ↦ absurd (cc (e, rw f at h))
  | inr (quota, f) ↦
      let windows = quota_reported_windows quota in
      let status = record base { five_hour_threshold = some five; weekly_threshold = some week } in
      elim (after_windows-blocked status _ _
        (window_verdict base.freshness now five (window_of five_hour_window_minutes windows))
        (window_verdict base.freshness now week (window_of weekly_window_minutes windows)) e
        (rw f at h)) [
          | inl u ↦
              let (w, spent) =
                window_below quota base.freshness now five five_hour_window_minutes u in
              (quota, f, w, inl spent)
          | inr v ↦
              let (w, spent) = window_below quota base.freshness now week weekly_window_minutes v in
              (quota, f, w, inr spent)
        ]
]

-- The status before the windows are read.
abbrev before_windows : Account → QuotaSnapshot → Timestamp → Bool → Source → QuotaProtectionStatus
before_windows a snapshot now own source = record {
  supported = true;
  enabled = own;
  threshold = pos (clamp_to 100 a.quota_protection_threshold);
  source = source;
  five_hour_threshold = none;
  weekly_threshold = none;
  state = disabled;
  blocked = false;
  effective_window = none;
  freshness = quota_telemetry_state snapshot now;
  last_successful_update =
      (if is_zero snapshot.last_successful_refresh_at
        then snapshot.usage_updated_at
        else snapshot.last_successful_refresh_at);
}

-- A protection only blocks on evidence: where an account is blocked, its own protection or the
-- global reserve is on, it has a login of its own, and it reports a five-hour window of which no more
-- is left than the five-hour threshold in force, or a weekly one of which no more is left than the
-- weekly threshold; that window is present, its reset is not past, and where it has no reset the
-- reading is fresh.
pub quota_protection_status-blocked :
    (p : Pool) (a : Account) (snapshot : QuotaSnapshot) (now : Timestamp)
    → (quota_protection_status p a snapshot now).blocked ≡ true
    → (is_codex_device_auth a ≡ true)
      × (a.quota_protection_enabled || p.quota_reserve.enabled ≡ true)
      × (quota : AccountQuota) × (snapshot.quota ≡ some quota)
      × (w : QuotaWindow) × (Spent quota
            (quota_telemetry_state snapshot now)
            now
            (five_hour_threshold_of p a)
            five_hour_window_minutes
            w
          ⊎ Spent quota
              (quota_telemetry_state snapshot now)
              now
              (weekly_threshold_of p a)
              weekly_window_minutes
              w)
unfolding quota_protection_status five_hour_threshold_of weekly_threshold_of
quota_protection_status-blocked p a snapshot now h = elim (Bool-cases (is_codex_device_auth a)) [
  | inr e ↦ absurd (cc (rw (e, quota_protection_status) at h))
  | inl e ↦ elim (Bool-cases a.quota_protection_enabled) [
    | inl own ↦
        let h' = rw (e, own) at h in
        let (quota, there, w, spent) =
          windows_status-blocked (before_windows a snapshot now true own_protection) snapshot now _
            _ refl h' in
        (e, rw own refl, quota, there, w, rw own spent)
    | inr shared ↦ elim (Bool-cases p.quota_reserve.enabled) [
      | inl on ↦
          let h' = rw (e, shared, on) at h in
          let (quota, there, w, spent) =
            windows_status-blocked (before_windows a snapshot now false global_reserve) snapshot now
              _ _ refl h' in
          (e, rw (shared, on) refl, quota, there, w, rw shared spent)
      | inr off ↦ absurd (cc (rw (e, shared, off) at h))
    ]
  ]
]
