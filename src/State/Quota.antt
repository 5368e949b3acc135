-- ===== src/State/Quota.antt =====
-- The quota records of upstream/src/pool/state.rs. A percentage that the source keeps as `f64` is a
-- whole number of millionths of a percent.
use codex_provider.Base.Int.{ℤ, pos}
use codex_provider.Base.{String, Bool, false, Option, none, List}
use codex_provider.Time.{Timestamp}

pub record QuotaWindow : Type 0 where
  pub percentage : ℤ
  pub remaining_percent : Option ℤ
  pub reset_at : Option ℤ
  pub window_minutes : Option ℤ
  pub observed : Bool
  pub present : Bool

-- `QuotaWindow::default()`.
abbrev pub no_window : QuotaWindow
no_window = record {
  percentage = pos 0;
  remaining_percent = none;
  reset_at = none;
  window_minutes = none;
  observed = false;
  present = false;
}

pub record QuotaLimit : Type 0 where
  pub limit_id : String
  pub limit_name : String
  pub primary : QuotaWindow
  pub secondary : QuotaWindow
  pub windows : List QuotaWindow
  pub exhausted : Bool

pub record QuotaResetCredits : Type 0 where
  pub available_count : Option ℤ
  pub expires_at : Option ℤ

pub record AccountQuota : Type 0 where
  pub primary : QuotaWindow
  pub secondary : QuotaWindow
  pub windows : List QuotaWindow
  pub additional_limits : List QuotaLimit
  pub reset_credits : Option QuotaResetCredits
  pub exhausted : Bool
  pub hourly : QuotaWindow
  pub weekly : QuotaWindow

pub record QuotaErrorInfo : Type 0 where
  pub code : String
  pub message : String
  pub timestamp : Timestamp

pub record QuotaSnapshot : Type 0 where
  pub account_id : String
  pub plan_family : String
  pub plan_type : String
  pub plan_limit : String
  pub seat_type : String
  pub quota : Option AccountQuota
  pub last_successful_refresh_at : Timestamp
  pub usage_updated_at : Timestamp
  pub quota_error : Option QuotaErrorInfo

-- `QuotaSnapshot::default()`.
abbrev pub no_snapshot : QuotaSnapshot
no_snapshot = record {
  account_id = "";
  plan_family = "";
  plan_type = "";
  plan_limit = "";
  seat_type = "";
  quota = none;
  last_successful_refresh_at = 0;
  usage_updated_at = 0;
  quota_error = none;
}
