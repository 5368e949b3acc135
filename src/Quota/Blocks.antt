-- ===== src/Quota/Blocks.antt =====
-- upstream/src/pool/quota.rs, `quota_explicitly_blocks_routing`: how a block depends on the time and on
-- the floor.
use codex_provider.Base.Int.{ℤ, pos, negsuc, ltb_ℤ}
use codex_provider.Base.{
  ℕ, ◌≤◌, ◌≡◌, refl, String, Bool, true, false, ◌&&◌, ◌||◌, Option, none, some, List, [], ◌∷◌, any,
  arith, Bool-cases, inl, inr, if◌then◌else◌, leb,
}
use codex_provider.Time.{Timestamp, unix}
use codex_provider.State.Quota.{QuotaWindow, QuotaLimit, AccountQuota}
use codex_provider.Quota.{
  quota_window_remaining, quota_window_spent, quota_window_evidence_active, quota_reported_windows,
  additional_limit_names_model, blocks, meters_block, quota_explicitly_blocks_routing,
}

unix_mono : (s t : Timestamp) (z : ℤ) → s ≤ t → ltb_ℤ (unix t) z ≡ true → ltb_ℤ (unix s) z ≡ true
unfolding unix
unix_mono s t (pos z) le h = ground arith
unix_mono s t (negsuc z) le h = ground arith

evidence_mono :
    (w : QuotaWindow) (s t : Timestamp)
    → s ≤ t
    → quota_window_evidence_active w t ≡ true
    → quota_window_evidence_active w s ≡ true
unfolding quota_window_evidence_active
evidence_mono w s t le h = at_reset w.reset_at h
  where
    at_reset :
        (o : Option ℤ)
        → (elim o [ none ↦ true | some r ↦ ltb_ℤ (unix t) r ]) ≡ true
        → (elim o [ none ↦ true | some r ↦ ltb_ℤ (unix s) r ]) ≡ true
    at_reset none h' = refl
    at_reset (some r) h' = unix_mono s t r le h'

any_mono :
    (f g : QuotaWindow → Bool) (ws : List QuotaWindow)
    → ((w : QuotaWindow) → f w ≡ true → g w ≡ true)
    → any f ws ≡ true
    → any g ws ≡ true
unfolding any
any_mono f g [] mono h = h
any_mono f g (w ∷ ws) mono h = elim (Bool-cases (f w)) [
  | inl e ↦ rw (mono w e) refl
  | inr e ↦ or_right (g w) (any g ws) (any_mono f g ws mono (rw e at h))
]
  where
    or_right : (x y : Bool) → y ≡ true → x || y ≡ true
    or_right true y k = refl
    or_right false y k = k

three :
    (x y z y' z' : Bool)
    → (y ≡ true → y' ≡ true)
    → (z ≡ true → z' ≡ true)
    → x && y && z ≡ true
    → x && y' && z' ≡ true
three true true true y' z' f g h = rw (f refl, g refl) refl
three true true false y' z' f g h = cc
three true false z y' z' f g h = cc
three false y z y' z' f g h = cc

module _ (s t : Timestamp) (floor floor' : ℕ) (earlier : s ≤ t) (higher : floor ≤ floor') where
  blocks_mono : (w : QuotaWindow) → blocks t floor w ≡ true → blocks s floor' w ≡ true
  unfolding blocks quota_window_spent
  blocks_mono w h =
      three w.present (quota_window_spent w floor) (quota_window_evidence_active w t)
        (quota_window_spent w floor') (quota_window_evidence_active w s) spent
        (evidence_mono w s t earlier) h
    where
      spent :
          leb (quota_window_remaining w) floor ≡ true → leb (quota_window_remaining w) floor' ≡ true
      spent k = ground arith

  meters_mono :
      (model : String) (limits : List QuotaLimit)
      → meters_block model t floor limits ≡ true
      → meters_block model s floor' limits ≡ true
  unfolding meters_block
  meters_mono model [] h = h
  meters_mono model (l ∷ ls) h = elim (Bool-cases (additional_limit_names_model l model)) [
    | inr e ↦ rw e (meters_mono model ls (rw e at h))
    | inl e ↦ elim (Bool-cases l.exhausted) [
      | inl x ↦ rw (e, x) refl
      | inr x ↦ elim (Bool-cases (any (blocks t floor) l.windows)) [
        | inl y ↦
            rw (e, x, any_mono (blocks t floor) (blocks s floor') l.windows blocks_mono y) refl
        | inr y ↦ rw (e, x) (last _ (meters_mono model ls (rw (e, x, y) at h)))
      ]
    ]
  ]
    where
      last :
          (c : Bool)
          → meters_block model s floor' ls ≡ true
          → (if c then true else meters_block model s floor' ls) ≡ true
      last true k = refl
      last false k = k

-- A block only wears off with time and only hardens with a higher reserve: a quota that blocks a model
-- at a time with a floor blocks it at every earlier time with every higher floor. So time alone never
-- brings a block back.
pub quota_explicitly_blocks_routing_mono :
    (q : AccountQuota) (model : String) (s t : Timestamp) (floor floor' : ℕ)
    → s ≤ t
    → floor ≤ floor'
    → quota_explicitly_blocks_routing q model t floor ≡ true
    → quota_explicitly_blocks_routing q model s floor' ≡ true
unfolding quota_explicitly_blocks_routing
quota_explicitly_blocks_routing_mono q model s t floor floor' le higher h =
    elim (Bool-cases q.exhausted) [
      | inl x ↦ rw x refl
      | inr x ↦ elim (Bool-cases (any (blocks t floor) (quota_reported_windows q))) [
        | inl y ↦
            rw
              (
                x,
                any_mono (blocks t floor) (blocks s floor') (quota_reported_windows q)
                    (blocks_mono s t floor floor' le higher) y,
              )
              refl
        | inr y ↦ rw x (
            last _
              (meters_mono s t floor floor' le higher model q.additional_limits (rw (x, y) at h)))
      ]
    ]
  where
    last :
        (c : Bool)
        → meters_block model s floor' q.additional_limits ≡ true
        → (if c then true else meters_block model s floor' q.additional_limits) ≡ true
    last true k = refl
    last false k = k
