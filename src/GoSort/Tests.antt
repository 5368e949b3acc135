-- ===== src/GoSort/Tests.antt =====
-- The vectors of the source's tests, whose results come from Go 1.24.
use codex_provider.GoSort.{slice_stable}
use codex_provider.Base.{
  ℕ, zero, suc, ◌-◌, ◌*◌, ◌%◌, Bool, not, List, [], ◌∷◌, ◌≡◌, refl, ltb, ◌==◌, if◌then◌else◌,
}

up : ℕ → ℕ → (ℕ → ℕ) → List ℕ
up zero i f = []
up (suc n) i f = f i ∷ up n (suc i) f

-- The rule of the source's first vector is not a strict weak order.
inconsistent : ℕ → ℕ → Bool
inconsistent a b = if a % 3 == 0 then not (b % 5 == 0) else b % 5 == 0

slice_stable-inconsistent :
    slice_stable inconsistent (up 60 0 (λ i. 59 - i))
    ≡ 15 ∷ 12 ∷ 57 ∷ 59 ∷ 58 ∷ 56 ∷ 55 ∷ 18 ∷ 36 ∷ 39 ∷ 51 ∷ 54 ∷ 53 ∷ 52 ∷ 49 ∷ 19 ∷ 17 ∷ 16 ∷ 14
      ∷ 13 ∷ 11 ∷ 10 ∷ 6 ∷ 9 ∷ 8 ∷ 7 ∷ 4 ∷ 5 ∷ 0 ∷ 3 ∷ 38 ∷ 37 ∷ 34 ∷ 35 ∷ 30 ∷ 27 ∷ 33 ∷ 32 ∷ 50
      ∷ 45 ∷ 42 ∷ 48 ∷ 47 ∷ 46 ∷ 44 ∷ 43 ∷ 41 ∷ 31 ∷ 29 ∷ 28 ∷ 26 ∷ 2 ∷ 25 ∷ 40 ∷ 21 ∷ 24 ∷ 23 ∷ 22
      ∷ 1 ∷ 20 ∷ []
unfolding slice_stable inconsistent up
slice_stable-inconsistent = refl

slice_stable_ties :
    slice_stable (λ a b. ltb (a % 4) (b % 4)) (up 45 0 (λ i. (i * 37) % 11))
    ≡ 0 ∷ 4 ∷ 8 ∷ 0 ∷ 4 ∷ 8 ∷ 0 ∷ 4 ∷ 8 ∷ 0 ∷ 4 ∷ 8 ∷ 0 ∷ 1 ∷ 5 ∷ 9 ∷ 1 ∷ 5 ∷ 9 ∷ 1 ∷ 5 ∷ 9 ∷ 1 ∷ 5
      ∷ 9 ∷ 2 ∷ 6 ∷ 10 ∷ 2 ∷ 6 ∷ 10 ∷ 2 ∷ 6 ∷ 10 ∷ 2 ∷ 6 ∷ 10 ∷ 3 ∷ 7 ∷ 3 ∷ 7 ∷ 3 ∷ 7 ∷ 3 ∷ 7 ∷ []
unfolding slice_stable up
slice_stable_ties = refl
