-- ===== src/Select/Tiers.antt =====
-- upstream/src/pool/routing.rs, `pick_balanced_account`: the tiers that come before the weighted draw.
use codex_provider.Base.Int.{ℤ, ltb_ℤ, eq_ℤ}
use codex_provider.Base.{
  ◌≤◌, ◌≡◌, ◌≢◌, refl, sym, ◌∙◌, subst, Bool, true, false, List, [], ◌∷◌, All, All-mono, Mem, Memᴰ,
  mem_first, mem-filter, mem-nil, filter-Mem, filter-passes, filter, arith, ltb, ◌==◌,
  if◌then◌else◌, Bool-cases, List-cases, inl, inr,
}
use codex_provider.State.{Pool, Account}
use codex_provider.Eligibility.{pro_tier}
use codex_provider.Select.{narrow, lowest_tier, highest_priority}

module _ {ℓ} {A : Type ℓ} (test : A → Bool) (xs : List A) where
  narrow-kept : {y : A} {ys : List A} → filter test xs ≡ y ∷ ys → narrow test xs ≡ y ∷ ys
  unfolding narrow
  narrow-kept e = rw (e, narrow) refl

  narrow-all : filter test xs ≡ [] → narrow test xs ≡ xs
  unfolding narrow
  narrow-all e = rw (e, narrow) refl

  narrow-some : {b : A} → Mem b xs → test b ≡ true → narrow test xs ≡ filter test xs
  narrow-some {b} m h = elim (List-cases (filter test xs)) [
    | inl e ↦ absurd (mem-nil e (mem-filter test xs m h))
    | inr (y, ys, e) ↦ narrow-kept e ∙ sym e
  ]

  pub narrow-Mem : {a : A} → Mem a (narrow test xs) → Mem a xs
  narrow-Mem {a} m = elim (List-cases (filter test xs)) [
    | inl e ↦ subst (Mem a) (narrow-all e) m
    | inr (y, ys, e) ↦ filter-Mem test xs (subst (Mem a) (narrow-kept e ∙ sym e) m)
  ]

  pub narrow-passes : {a b : A} → Mem a (narrow test xs) → Mem b xs → test b ≡ true → test a ≡ true
  narrow-passes {a} {b} m n h = filter-passes test xs (subst (Mem a) (narrow-some n h) m)

  pub mem-narrow :
      {a b : A} → Mem a (narrow test xs) → Mem b xs → test b ≡ test a → Mem b (narrow test xs)
  mem-narrow {a} {b} m n same = elim (Bool-cases (test b)) [
    | inl e ↦ subst (Mem b) (sym (narrow-some n e)) (mem-filter test xs n e)
    | inr e ↦ elim (List-cases (filter test xs)) [
      | inl empty ↦ subst (Mem b) (sym (narrow-all empty)) n
      | inr (y, ys, k) ↦
          let there : Mem y (filter test xs) = subst (Mem y) (sym k) (mem_first y ys) in
          let passed = narrow-passes m (filter-Mem test xs there) (filter-passes test xs there) in
          absurd (cc (same, e, passed))
    ]
  ]

  pub narrow_nonempty : xs ≢ [] → narrow test xs ≢ []
  narrow_nonempty full e = elim (List-cases (filter test xs)) [
    | inl k ↦ full (sym (narrow-all k) ∙ e)
    | inr (y, ys, k) ↦ cc (narrow-kept k, e)
  ]

pub lowest_tier-All : (p : Pool) (xs : List Account) → All (λ b. lowest_tier p xs ≤ pro_tier p b) xs
unfolding lowest_tier
lowest_tier-All p [] = tt
lowest_tier-All p (a ∷ []) = (omega arith, tt)
lowest_tier-All p (a ∷ b ∷ rest) =
    let le : lowest_tier p (a ∷ b ∷ rest) ≤ lowest_tier p (b ∷ rest) = ground arith in
    (ground arith, All-mono (λ c h. omega (arith, h, le)) (b ∷ rest) (lowest_tier-All p (b ∷ rest)))

pub lowest_tier-attained :
    (p : Pool) (x : Account) (xs : List Account)
    → (b : Account) × Memᴰ b (x ∷ xs) × (pro_tier p b == lowest_tier p (x ∷ xs) ≡ true)
unfolding lowest_tier
lowest_tier-attained p x [] = (x, Memᴰ.head refl, ground arith)
lowest_tier-attained p x (y ∷ ys) =
    let (b, m, e) = lowest_tier-attained p y ys in
    elim (Bool-cases (ltb (lowest_tier p (y ∷ ys)) (pro_tier p x))) [
      | inl h ↦ (b, Memᴰ.tail m, rw h e)
      | inr h ↦ (x, Memᴰ.head refl, rw h (ground arith))
    ]

le_ℤ-trans : (x y z : ℤ) → ltb_ℤ x y ≡ false → ltb_ℤ y z ≡ false → ltb_ℤ x z ≡ false
le_ℤ-trans x y z h k = ground arith

larger : (x y : ℤ) → ℤ
larger x y = if ltb_ℤ x y then y else x

larger-le : (x y : ℤ) → (ltb_ℤ (larger x y) x ≡ false) × (ltb_ℤ (larger x y) y ≡ false)
unfolding larger
larger-le x y = elim (Bool-cases (ltb_ℤ x y)) [
  | inl h ↦ rw h (ground arith, ground arith)
  | inr h ↦ rw h (ground arith, h)
]

pub highest_priority-All :
    (xs : List Account) → All (λ b. ltb_ℤ (highest_priority xs) b.priority ≡ false) xs
unfolding highest_priority larger
highest_priority-All [] = tt
highest_priority-All (a ∷ []) = (ground arith, tt)
highest_priority-All (a ∷ b ∷ rest) =
    let (le_a, le_rest) = larger-le a.priority (highest_priority (b ∷ rest)) in
    (
      le_a,
      All-mono
          (λ c h.
            le_ℤ-trans (highest_priority (a ∷ b ∷ rest)) (highest_priority (b ∷ rest)) c.priority
              le_rest h)
          (b ∷ rest) (highest_priority-All (b ∷ rest)),
    )

pub highest_priority-attained :
    (x : Account) (xs : List Account)
    → (b : Account) × Memᴰ b (x ∷ xs) × (eq_ℤ b.priority (highest_priority (x ∷ xs)) ≡ true)
unfolding highest_priority
highest_priority-attained x [] = (x, Memᴰ.head refl, ground arith)
highest_priority-attained x (y ∷ ys) =
    let (b, m, e) = highest_priority-attained y ys in
    elim (Bool-cases (ltb_ℤ x.priority (highest_priority (y ∷ ys)))) [
      | inl h ↦ (b, Memᴰ.tail m, rw h e)
      | inr h ↦ (x, Memᴰ.head refl, rw h (ground arith))
    ]
