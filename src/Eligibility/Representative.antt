-- ===== src/Eligibility/Representative.antt =====
-- upstream/src/pool/app.rs, `primary_upstream_account_id`: one slot for each upstream identity.
use codex_provider.Base.Text.{is_empty}
use codex_provider.Base.{
  ◌≡◌, ◌≢◌, refl, sym, ap, ◌∙◌, subst, String, Bool, true, false, ◌&&◌, ◌||◌, not, List, [], ◌∷◌,
  All, All-Mem, Mem, mem_first, mem-nil, mem-filter, filter-Mem, filter, Bool-cases, inl, inr,
  str_eq, eq_iff, eq_refl,
}
use mathlib.Core.List.Perm
use codex_provider.Time.{Timestamp}
use codex_provider.State.{Pool, Account}
use codex_provider.Plan.{allowed_model, is_codex_device_auth}
use codex_provider.Quota.{is_some}
use codex_provider.Identity.{
  codex_auth, account_auth_verification_pending, has_usable_auth, upstream_workspace_key,
  upstream_identity_key,
}
use codex_provider.GoSort.{slice_stable}
use codex_provider.GoSort.Perm.{slice_stable-perm}
use codex_provider.Eligibility.{
  account_metadata_error, identity_representative_before, is_candidate, first_id,
  primary_upstream_account_id, usable,
}
use codex_provider.Eligibility.Sound.{usable-Fit, quota-metadata}

-- Only a device login has an upstream identity.
identity_device :
    (p : Pool) (a : Account)
    → is_empty (upstream_identity_key p a) ≡ false
    → is_codex_device_auth a ≡ true
unfolding upstream_identity_key upstream_workspace_key
identity_device p a h = elim (Bool-cases (is_codex_device_auth a)) [
  | inl e ↦ e
  | inr e ↦ absurd (cc (rw (e, upstream_identity_key) at h))
]

device_auth_usable :
    (p : Pool) (a : Account)
    → account_auth_verification_pending p a ≡ false
    → is_codex_device_auth a ≡ true
    → is_codex_device_auth a && not (is_some (codex_auth p a)) ≡ false
    → has_usable_auth p a ≡ true
unfolding has_usable_auth
device_auth_usable p a verified device signed = elim (Bool-cases (is_some (codex_auth p a))) [
  | inl e ↦ rw (verified, device, e) refl
  | inr e ↦ absurd (cc (rw (device, e) at signed))
]

all_of :
    (a b c d e f : Bool)
    → a ≡ true
    → b ≡ true
    → c ≡ true
    → d ≡ true
    → e ≡ true
    → f ≡ true
    → a && b && c && d && e && f ≡ true
all_of a b c d e f ha hb hc hd he hf = rw (ha, hb, hc, hd, he, hf) refl

or_right : (x y : Bool) → y ≡ true → x || y ≡ true
or_right true y h = refl
or_right false y h = h

not-true : (x : Bool) → x ≡ false → not x ≡ true
not-true x h = rw h refl

usable_candidate :
    (p : Pool) (a : Account) (model : String) (now : Timestamp)
    → usable p a model now ≡ true
    → is_empty (upstream_identity_key p a) ≡ false
    → is_candidate p (upstream_identity_key p a) model a ≡ true
unfolding is_candidate
usable_candidate p a model now h named =
    let fit = usable-Fit p a model now h in
    all_of a.enabled a.in_pool (is_empty model || allowed_model a model) (has_usable_auth p a)
      (not (account_metadata_error p a.id))
      (str_eq (upstream_identity_key p a) (upstream_identity_key p a)) fit.enabled fit.in_pool
      (or_right (is_empty model) (allowed_model a model) fit.allowed)
      (device_auth_usable p a fit.verified (identity_device p a named) fit.signed_in)
      (not-true _ (quota-metadata p a model now fit.quota)) (eq_refl (upstream_identity_key p a))

-- The slot that represents an identity.
primary_of : Pool → String → String → Timestamp → String
unfolding filter is_candidate slice_stable identity_representative_before
primary_of p identity model now = first_id (
    slice_stable (identity_representative_before p model now)
      (filter (is_candidate p identity model) p.accounts))

primary_named :
    (p : Pool) (a : Account) (model : String) (now : Timestamp)
    → is_empty (upstream_identity_key p a) ≡ false
    → primary_upstream_account_id p a model now ≡ primary_of p (upstream_identity_key p a) model now
unfolding primary_upstream_account_id primary_of
primary_named p a model now named = rw named refl

first_id-All :
    (xs ys : List Account)
    → All (λ c. is_empty c.id ≡ false) ys
    → ((c : Account) → Mem c xs → Mem c ys)
    → xs ≢ []
    → is_empty (first_id xs) ≡ false
first_id-All [] ys h sub full = absurd (full refl)
first_id-All (x ∷ xs) ys h sub full =
    All-Mem (λ c. is_empty c.id) false ys h (sub x (mem_first x xs))

primary_nonempty :
    (p : Pool) (a : Account) (identity model : String) (now : Timestamp)
    → All (λ c. is_empty c.id ≡ false) p.accounts
    → Mem a p.accounts
    → is_candidate p identity model a ≡ true
    → is_empty (primary_of p identity model now) ≡ false
unfolding primary_of
primary_nonempty p a identity model now ids m h =
    let test = is_candidate p identity model in
    let sorted =
      slice_stable-perm (identity_representative_before p model now) (filter test p.accounts) in
    first_id-All _ p.accounts ids (λ c n. filter-Mem test p.accounts (Perm.subset sorted c n))
      (λ empty. mem-nil empty (Perm.subset (Perm.symm sorted) a (mem-filter test p.accounts m h)))

represents-id :
    (primary id : String)
    → is_empty primary ≡ false
    → not (is_empty primary) && not (str_eq primary id) ≡ false
    → primary ≡ id
represents-id primary id named h = elim (Bool-cases (str_eq primary id)) [
  | inl e ↦ (eq_iff primary id).0 e
  | inr e ↦ absurd (cc (rw (named, e) at h))
]

-- Of the slots that share one upstream identity at most one is usable for a model at a time: where
-- every slot of the pool has an id, two usable slots with the same identity, which is not empty, have
-- the same id, the first being in the pool.
pub usable-same_identity :
    (p : Pool) (a b : Account) (model : String) (now : Timestamp)
    → All (λ c. is_empty c.id ≡ false) p.accounts
    → Mem a p.accounts
    → is_empty (upstream_identity_key p a) ≡ false
    → upstream_identity_key p a ≡ upstream_identity_key p b
    → usable p a model now ≡ true
    → usable p b model now ≡ true
    → a.id ≡ b.id
usable-same_identity p a b model now ids m named same ha hb =
    let identity = upstream_identity_key p a in
    let full =
      primary_nonempty p a identity model now ids m (usable_candidate p a model now ha named) in
    let fit_a = usable-Fit p a model now ha in
    let fit_b = usable-Fit p b model now hb in
    let prim_a = primary_named p a model now named in
    let prim_b =
      primary_named p b model now (subst (λ i. is_empty i ≡ false) same named)
      ∙ ap (λ i. primary_of p i model now) (sym same) in
    sym (represents-id _ a.id full (rw prim_a at fit_a.represents))
    ∙ represents-id _ b.id full (rw prim_b at fit_b.represents)
