-- ===== src/Base/Members.antt =====
-- Membership in a list that is filtered, narrowed or searched.
use mathlib.Core.List.{List, [], ◌∷◌, Mem, Memᴰ, Perm, not-mem-nil}
use mathlib.Core.List.Perm
use mathlib.Core.Path.{◌≡◌, refl, sym, subst}
use mathlib.Core.Logic.{inl, inr, ∥∥₁_map, ∥∥₁_elim}
use mathlib.Core.Bool.{Bool, true, false, Bool-set}
use mathlib.Core.Option.{some}
use native.Mathlib.Omega.{arith}
use codex_provider.Base.Tests.{Bool-cases}
use codex_provider.Base.Lists.{filter, any, find, head?, find-some, All, All-filter, All-of_mem}

module _ {ℓ} {A : Type ℓ} where
  pub mem_first : (x : A) (xs : List A) → Mem x (x ∷ xs)
  mem_first x xs = ∣ Memᴰ.head refl ∣₁

  pub mem_rest : {a x : A} {xs : List A} → Mem a xs → Mem a (x ∷ xs)
  mem_rest m = ∥∥₁_map m (λ d. Memᴰ.tail d)

  pub All-at {κ} : (P : A → Type κ) (xs : List A) {a : A} → All P xs → Memᴰ a xs → P a
  All-at P [] h m = elim m [ ]
  All-at P (x ∷ xs) h (Memᴰ.head e) = subst P (sym e) h.0
  All-at P (x ∷ xs) h (Memᴰ.tail m) = All-at P xs h.1 m

  -- A kept element was there and passes the test.
  pub filter-Mem : (p : A → Bool) (xs : List A) {a : A} → Mem a (filter p xs) → Mem a xs
  filter-Mem p xs m = ∥∥₁_map m λ d.
      (All-at (λ b. Memᴰ b xs × (p b ≡ true)) (filter p xs)
        (All-filter (λ b. Memᴰ b xs) p xs (All-of_mem (λ b. Memᴰ b xs) xs (λ b m'. m'))) d).0

  pub filter-passes : (p : A → Bool) (xs : List A) {a : A} → Mem a (filter p xs) → p a ≡ true
  filter-passes p xs {a} m = ∥∥₁_elim m (Bool-set (p a) true) λ d.
      (All-at (λ b. Memᴰ b xs × (p b ≡ true)) (filter p xs)
        (All-filter (λ b. Memᴰ b xs) p xs (All-of_mem (λ b. Memᴰ b xs) xs (λ b m'. m'))) d).1

  kept : (p : A → Bool) (xs : List A) {a : A} → Memᴰ a xs → p a ≡ true → Memᴰ a (filter p xs)
  unfolding filter
  kept p [] m e = elim m [ ]
  kept p (x ∷ xs) {a} (Memᴰ.head e) h = rw (← e, h) (Memᴰ.head refl)
  kept p (x ∷ xs) {a} (Memᴰ.tail m) h = elim (Bool-cases (p x)) [
    | inl e ↦ rw e (Memᴰ.tail (kept p xs m h))
    | inr e ↦ rw e (kept p xs m h)
  ]

  pub mem-filter :
      (p : A → Bool) (xs : List A) {a : A} → Mem a xs → p a ≡ true → Mem a (filter p xs)
  mem-filter p xs m h = ∥∥₁_map m λ d. kept p xs d h

  pub mem-nil : {a : A} {xs : List A} → xs ≡ [] → Mem a xs → ⊥
  mem-nil {a} e m = not-mem-nil (subst (Mem a) e m)

  pub find-Mem : (p : A → Bool) (xs : List A) (a : A) → find p xs ≡ some a → Mem a xs
  find-Mem p xs a e = ∣ (find-some p xs a e).1 ∣₁

  -- The head of a permutation is an element of the list.
  pub head-Perm : {xs ys : List A} {a : A} → Perm xs ys → head? xs ≡ some a → Mem a ys
  head-Perm {xs} {ys} {a} perm e = Perm.subset perm a (head_mem xs e)
    where
      head_mem : (xs : List A) → head? xs ≡ some a → Mem a xs
      head_mem [] e = cc
      head_mem (x ∷ xs) e = let here : x ≡ a = ground arith in rw here (mem_first a xs)

  -- `any` fails only where every element fails.
  pub any-false : (p : A → Bool) (xs : List A) → any p xs ≡ false → All (λ a. p a ≡ false) xs
  unfolding any
  any-false p [] h = tt
  any-false p (x ∷ xs) h = (ground arith, any-false p xs (ground arith))

  -- A Boolean test that comes out the same at every element.
  pub All-Mem :
      (f : A → Bool) (c : Bool) (xs : List A) {a : A} → All (λ b. f b ≡ c) xs → Mem a xs → f a ≡ c
  All-Mem f c xs {a} h m = ∥∥₁_elim m (Bool-set (f a) c) λ d. All-at (λ b. f b ≡ c) xs h d
