-- ===== src/Outcome/Update.antt =====
-- Lists of upstream/src/pool/outcome.rs that are sorted by a key, or in which one element is changed
-- in place.
use codex_provider.Base.{
  ℕ, suc, ◌+◌, ◌≡◌, refl, Bool, Option, none, some, inl, inr, List, [], ◌∷◌, ◌++◌, length, All,
  arith, Bool-cases, Option-cases, ltb,
}
use codex_provider.State.Usage.{ThroughputBucket}
use codex_provider.Outcome.Throughput.{insert_by_key, sort_by_key, update_last}

module _ {ℓ κ} {A : Type ℓ} (P : A → Type κ) (key : A → ℕ) where
  All-insert_by_key : (x : A) (xs : List A) → P x → All P xs → All P (insert_by_key key x xs)
  unfolding insert_by_key
  All-insert_by_key x [] h hs = (h, tt)
  All-insert_by_key x (y ∷ ys) h hs = elim (Bool-cases (ltb (key y) (key x))) [
    | inl e ↦ rw e (hs.0, All-insert_by_key x ys h hs.1)
    | inr e ↦ rw e (h, hs)
  ]

  pub All-sort_by_key : (xs : List A) → All P xs → All P (sort_by_key key xs)
  unfolding sort_by_key
  All-sort_by_key [] h = tt
  All-sort_by_key (x ∷ xs) h = All-insert_by_key x (sort_by_key key xs) h.0 (All-sort_by_key xs h.1)

module _ {ℓ} {A : Type ℓ} (key : A → ℕ) where
  length-insert_by_key : (x : A) (xs : List A) → length (insert_by_key key x xs) ≡ suc (length xs)
  unfolding insert_by_key
  length-insert_by_key x [] = refl
  length-insert_by_key x (y ∷ ys) = elim (Bool-cases (ltb (key y) (key x))) [
    | inl e ↦ rw e (omega (arith, length-insert_by_key x ys))
    | inr e ↦ rw e refl
  ]

  pub length-sort_by_key : (xs : List A) → length (sort_by_key key xs) ≡ length xs
  unfolding sort_by_key
  length-sort_by_key [] = refl
  length-sort_by_key (x ∷ xs) =
      omega (arith, length-insert_by_key x (sort_by_key key xs), length-sort_by_key xs)

-- The sum of a count over the elements.
unfoldable pub total {ℓ} : {A : Type ℓ} → (A → ℕ) → List A → ℕ
total count [] = 0
total count (x ∷ xs) = count x + total count xs

abbrev pub counted : ThroughputBucket → ℕ
counted b = b.request_count

-- A property of the value, if there is one.
abbrev pub When {ℓ κ} : {A : Type ℓ} → (A → Type κ) → Option A → Type κ
When P none = Unit
When P (some a) = P a

module _ {ℓ} {A : Type ℓ} (test : A → Bool) (f : A → A) where
  -- The element changed in place is one of the list, and the others are kept.
  pub update_last-All {κ} :
      (P : A → Type κ)
      → ((a : A) → P a → P (f a))
      → (xs : List A) → All P xs
      → When (All P) (update_last test f xs)
  unfolding update_last
  update_last-All P keep [] h = tt
  update_last-All P keep (x ∷ xs) h =
      let rest = update_last-All P keep xs h.1 in
      elim (Option-cases (update_last test f xs)) [
        | inr (ys, e) ↦ rw e (h.0, rw e at rest)
        | inl e ↦ elim (Bool-cases (test x)) [
          | inl t ↦ rw (e, t) (keep x h.0, h.1)
          | inr t ↦ rw (e, t) tt
        ]
      ]

  pub update_last-total :
      (count : A → ℕ)
      → ((a : A) → count (f a) ≡ count a + 1)
      → (xs : List A) → When (λ ys. total count ys ≡ total count xs + 1) (update_last test f xs)
  unfolding update_last total
  update_last-total count more [] = tt
  update_last-total count more (x ∷ xs) =
      let rest = update_last-total count more xs in
      elim (Option-cases (update_last test f xs)) [
        | inr (ys, e) ↦ rw e (omega (arith, rw e at rest))
        | inl e ↦ elim (Bool-cases (test x)) [
          | inl t ↦ rw (e, t) (omega (arith, more x))
          | inr t ↦ rw (e, t) tt
        ]
      ]

pub total-append {ℓ} :
    {A : Type ℓ} (count : A → ℕ) (xs ys : List A)
    → total count (xs ++ ys) ≡ total count xs + total count ys
unfolding total
total-append count [] ys = omega arith
total-append count (x ∷ xs) ys = omega (arith, total-append count xs ys)
