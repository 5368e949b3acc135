-- ===== src/Quota/Hint.antt =====
-- upstream/src/pool/quota.rs, `remaining_quota_hint`: what is left, for the placement of sessions.
use codex_provider.Base.{
  ℕ, ◌*◌, ◌/◌, ◌≤◌, ◌≡◌, refl, sym, subst, Bool, true, none, some, List, [], ◌∷◌, map, min, Mem,
  mem-filter, mem-nil, filter, arith, Option-cases, inl, inr, All, leb, All-Mem, All-mono,
}
use codex_provider.State.Quota.{QuotaWindow, AccountQuota}
use codex_provider.Quota.{
  percent, least, quota_window_remaining, quota_reported_windows, remaining_quota_hint,
}

least-none : (xs : List ℕ) → least xs ≡ none → xs ≡ []
unfolding least
least-none [] e = refl
least-none (x ∷ xs) e = elim (Option-cases (least xs)) [
  | inl f ↦ cc (rw (f, least) at e)
  | inr (m, f) ↦ cc (rw (f, least) at e)
]

least-All : (xs : List ℕ) (m : ℕ) → least xs ≡ some m → All (λ x. leb m x ≡ true) xs
unfolding least
least-All [] m e = tt
least-All (x ∷ xs) m e = elim (Option-cases (least xs)) [
  | inl f ↦
      let here : some x ≡ some m = rw (f, least) at e in
      subst (λ ys. All (λ y. leb m y ≡ true) (x ∷ ys)) (sym (least-none xs f)) (ground arith, tt)
  | inr (k, f) ↦
      let here : some (min x k) ≡ some m = rw (f, least) at e in
      (ground arith, All-mono (λ y h. ground (arith, here)) xs (least-All xs k f))
]

map-All :
    (f : QuotaWindow → ℕ) (m : ℕ) (ws : List QuotaWindow)
    → All (λ x. leb m x ≡ true) (map f ws)
    → All (λ w. leb m (f w) ≡ true) ws
map-All f m [] h = tt
map-All f m (w ∷ ws) h = (h.0, map-All f m ws h.1)

-- The hint is a whole percentage, and it never promises more than a window that is reported as
-- present has left.
pub remaining_quota_hint-le :
    (q : AccountQuota) (w : QuotaWindow)
    → Mem w (quota_reported_windows q)
    → w.present ≡ true
    → (remaining_quota_hint q ≤ 100) × (remaining_quota_hint q * percent ≤ quota_window_remaining w)
unfolding remaining_quota_hint
remaining_quota_hint-le q w m here =
    let test : QuotaWindow → Bool = λ v. v.present in
    let left : QuotaWindow → ℕ = λ v. quota_window_remaining v / percent in
    let shown = filter test (quota_reported_windows q) in
    let there : Mem w shown = mem-filter test (quota_reported_windows q) m here in
    elim (Option-cases (least (map left shown))) [
      | inl e ↦ absurd (nothing left shown (least-none _ e) there)
      | inr (k, e) ↦
          let le =
            All-Mem (λ v. leb k (left v)) true shown (map-All left k shown (least-All _ k e))
              there in
          rw (e, remaining_quota_hint) (omega arith, divided k (quota_window_remaining w) le)
    ]
  where
    nothing : (f : QuotaWindow → ℕ) (ws : List QuotaWindow) → map f ws ≡ [] → Mem w ws → ⊥
    nothing f [] e n = mem-nil refl n
    nothing f (v ∷ vs) e n = absurd (cc e)

    divided : (k r : ℕ) → leb k (r / percent) ≡ true → min k 100 * percent ≤ r
    divided k r h = ground arith
