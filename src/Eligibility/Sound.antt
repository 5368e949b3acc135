-- ===== src/Eligibility/Sound.antt =====
-- upstream/src/pool/app.rs, `usable`: what an account that may serve has.
use codex_provider.Base.Maps.{get}
use codex_provider.Base.Text.{is_empty}
use codex_provider.Base.{
  ◌≡◌, refl, String, Bool, true, false, ◌&&◌, ◌||◌, not, if◌then◌else◌, Bool-cases, Option-cases,
  inl, inr, str_eq,
}
use codex_provider.Time.{Timestamp}
use codex_provider.State.{Pool, Account}
use codex_provider.Plan.{allowed_model, is_codex_device_auth}
use codex_provider.Quota.{is_some}
use codex_provider.Identity.{codex_auth, account_auth_verification_pending}
use codex_provider.Eligibility.{
  account_cooling_down, account_metadata_error, primary_upstream_account_id, quota_available,
  model_meter_allows, usable, quota_error_blocks_routing, quota_snapshot,
}

guards :
    (g1 g2 g3 g4 g5 g6 c : Bool)
    → (if g1
        then false
        else if g2
        then false
        else if g3
        then false
        else if g4
        then false
        else if g5
        then false
        else if g6
        then false
        else not c)
      ≡ true
    → (g1 ≡ false) × (g2 ≡ false) × (g3 ≡ false) × (g4 ≡ false) × (g5 ≡ false) × (c ≡ false)
guards true g2 g3 g4 g5 g6 c h = cc
guards false true g3 g4 g5 g6 c h = cc
guards false false true g4 g5 g6 c h = cc
guards false false false true g5 g6 c h = cc
guards false false false false true g6 c h = cc
guards false false false false false true c h = cc
guards false false false false false false true h = cc
guards false false false false false false false h = (refl, refl, refl, refl, refl, refl)

flags : (e i m : Bool) → not e || not i || not m ≡ false → (e ≡ true) × (i ≡ true) × (m ≡ true)
flags true true true h = (refl, refl, refl)
flags true true false h = cc
flags true false m h = cc
flags false i m h = cc

either_false : (q m : Bool) → not q || not m ≡ false → (q ≡ true) × (m ≡ true)
either_false true true h = (refl, refl)
either_false true false h = cc
either_false false m h = cc

-- What `usable` grants.
pub record Fit (p : Pool) (a : Account) (model : String) (now : Timestamp) : Type 0 where
  pub enabled : a.enabled ≡ true
  pub in_pool : a.in_pool ≡ true
  pub allowed : allowed_model a model ≡ true
  pub verified : account_auth_verification_pending p a ≡ false
  pub represents :
      let primary = primary_upstream_account_id p a model now in
      not (is_empty primary) && not (str_eq primary a.id) ≡ false
  pub quota : quota_available p a model now ≡ true
  pub metered : model_meter_allows p a model ≡ true
  pub signed_in : is_codex_device_auth a && not (is_some (codex_auth p a)) ≡ false
  pub rested : account_cooling_down p a.id model now ≡ false

pub usable-Fit :
    (p : Pool) (a : Account) (model : String) (now : Timestamp)
    → usable p a model now ≡ true
    → Fit p a model now
unfolding usable
usable-Fit p a model now h =
    let primary = primary_upstream_account_id p a model now in
    let (g1, g2, g3, g4, g5, c) =
      guards (not a.enabled || not a.in_pool || not (allowed_model a model))
        (account_auth_verification_pending p a)
        (not (is_empty primary) && not (str_eq primary a.id))
        (not (quota_available p a model now) || not (model_meter_allows p a model))
        (is_codex_device_auth a && not (is_some (codex_auth p a)))
        (not (is_codex_device_auth a) && is_empty a.upstream_base_url)
        (account_cooling_down p a.id model now) h in
    let (en, pooled, allow) = flags a.enabled a.in_pool (allowed_model a model) g1 in
    let (q, m) = either_false (quota_available p a model now) (model_meter_allows p a model) g4 in
    record {
      enabled = en;
      in_pool = pooled;
      allowed = allow;
      verified = g2;
      represents = g3;
      quota = q;
      metered = m;
      signed_in = g5;
      rested = c;
    }

-- An account with a quota has no error that rules its credential out.
pub quota-metadata :
    (p : Pool) (a : Account) (model : String) (now : Timestamp)
    → quota_available p a model now ≡ true
    → account_metadata_error p a.id ≡ false
unfolding quota_available account_metadata_error quota_snapshot quota_error_blocks_routing
quota-metadata p a model now h = elim (Option-cases (get a.id p.quotas)) [
  | inl e ↦ rw (e, account_metadata_error) refl
  | inr (s, e) ↦ elim (Bool-cases (quota_error_blocks_routing s.quota_error)) [
    | inr f ↦ rw (e, account_metadata_error, f) refl
    | inl f ↦ absurd (cc (rw (e, f) at h))
  ]
]
