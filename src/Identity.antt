-- ===== src/Identity.antt =====
-- upstream/src/pool/app.rs, `Inner`: accounts, login jobs and the upstream identity of an account.
use codex_provider.Base.Maps.{values}
use codex_provider.Base.Text.{is_empty, trim}
use codex_provider.Base.{
  String, Bool, false, ◌&&◌, ◌||◌, not, Option, none, some, [], ◌∷◌, any, find, if◌then◌else◌,
  str_eq, unwrap_or,
}
use Prim.Native.String.{◌++◌ as ◌<>◌}
use text.Mathlib.Text.{starts_with}
use codex_provider.Plan.{is_codex_device_auth, normalize_email, clean_organization_name, among}
use codex_provider.Quota.{is_some}
use codex_provider.State.{Pool, Account, CodexAuthInfo}

unfoldable pub account : Pool → String → Option Account
unfolding find
account p id = find (λ item. str_eq item.id id) p.accounts

abbrev pub codex_auth : Pool → Account → Option CodexAuthInfo
codex_auth p item = p.auth_files item.id

unfoldable pub login_job_active_status : String → Bool
unfolding any
login_job_active_status status =
    among status ("running" ∷ "waiting_for_user" ∷ "finalizing" ∷ "cancelling" ∷ [])

unfoldable pub account_login_in_progress : Pool → String → Bool
unfolding any login_job_active_status
account_login_in_progress p id =
    any (λ j. str_eq j.account_id id && login_job_active_status j.status) (values p.jobs)

unfoldable pub account_auth_verification_pending : Pool → Account → Bool
unfolding account_login_in_progress
account_auth_verification_pending p item =
    item.pending_auth_verification || account_login_in_progress p item.id

unfoldable pub has_usable_auth : Pool → Account → Bool
unfolding account_auth_verification_pending is_codex_device_auth trim
has_usable_auth p item =
    if account_auth_verification_pending p item
    then false
    else if is_codex_device_auth item
    then is_some (codex_auth p item)
    else not (is_empty (trim item.upstream_base_url))

-- The key of a profile without an account id, or nothing.
unfoldable pub profile_key : String → String → Option String
profile_key email organization =
    if not (is_empty email) || not (is_empty organization)
    then some ("codex-profile:" <> email <> "|" <> organization)
    else none

unfoldable pub item_profile_key : Account → String
unfolding profile_key normalize_email clean_organization_name
item_profile_key item =
    unwrap_or
      (profile_key (normalize_email item.email) (clean_organization_name item.organization_name)) ""

unfoldable pub auth_workspace_key : Account → Option CodexAuthInfo → String
unfolding profile_key normalize_email clean_organization_name item_profile_key trim
auth_workspace_key item none = item_profile_key item
auth_workspace_key item (some auth) =
    let account_id = trim auth.account_id in
    if not (is_empty account_id)
    then "codex-account:" <> account_id
    else unwrap_or
        (profile_key (normalize_email auth.email) (clean_organization_name auth.organization_name))
        (item_profile_key item)

unfoldable pub upstream_workspace_key : Pool → Account → String
unfolding is_codex_device_auth auth_workspace_key trim
upstream_workspace_key p item =
    let account_id = trim item.account_id in
    if not (is_codex_device_auth item)
    then ""
    else if not (is_empty account_id)
    then "codex-account:" <> account_id
    else auth_workspace_key item (codex_auth p item)

-- The email of the slot, or of its credential.
unfoldable pub member_email : Pool → Account → String
unfolding normalize_email
member_email p item =
    let email = normalize_email item.email in
    if is_empty email
    then (elim (codex_auth p item) [ none ↦ "" | some auth ↦ normalize_email auth.email ])
    else email

unfoldable pub upstream_identity_key : Pool → Account → String
unfolding upstream_workspace_key member_email
upstream_identity_key p item =
    let workspace = upstream_workspace_key p item in
    let email = member_email p item in
    if not (starts_with workspace "codex-account:")
    then workspace
    else if is_empty email
    then workspace
    else workspace <> "|member:" <> email
