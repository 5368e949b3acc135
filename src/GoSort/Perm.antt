-- ===== src/GoSort/Perm.antt =====
-- The sort only moves elements: it loses none and makes none up, whatever the rule.
use mathlib.Core.List.{Perm}
use mathlib.Core.List.Perm
use codex_provider.GoSort.{
  get_elem?, set, swap, swap_range, rotate_loop, rotate, less_at, sink, insertion_rounds,
  insertion_sort, bisect, shift_up, shift_down, sym_merge, insert_first, insert_last, cut,
  rotate_parts, merge_part, merge_parts, sort_blocks, merge_pass, merge_passes, slice_stable,
}
use codex_provider.Base.{
  ℕ, zero, suc, ◌+◌, ◌-◌, ◌*◌, ◌/◌, Bool, true, false, ◌&&◌, not, some, List, [], ◌∷◌, ◌≡◌, refl,
  arith, length, ltb, leb, ◌==◌, if◌then◌else◌, Option-cases, inl, inr,
}

module _ {ℓ} {A : Type ℓ} where
  if-perm :
      (b : Bool) {xs ys zs : List A} → Perm xs zs → Perm ys zs → Perm (if b then xs else ys) zs
  if-perm true p q = p
  if-perm false p q = q

  set_self : (xs : List A) (i : ℕ) (a : A) → get_elem? xs i ≡ some a → set xs i a ≡ xs
  unfolding get_elem? set
  set_self [] i a e = refl
  set_self (x ∷ xs) zero a e = ground arith
  set_self (x ∷ xs) (suc i) a e = ground (arith, set_self xs i a)

  -- To exchange the head with the element at `j`.
  exchange_head :
      (x : A) (xs : List A) (j : ℕ) (b : A)
      → get_elem? xs j ≡ some b
      → Perm (b ∷ set xs j x) (x ∷ xs)
  unfolding get_elem? set
  exchange_head x [] j b e = cc
  exchange_head x (y ∷ ys) zero b e = let here : y ≡ b = ground arith in rw here (Perm.swap x b ys)
  exchange_head x (y ∷ ys) (suc j) b e =
      Perm.trans (Perm.swap y b (set ys j x))
        (Perm.trans (Perm.cons y (exchange_head x ys j b e)) (Perm.swap x y ys))

  exchange :
      (xs : List A) (i j : ℕ) (a b : A)
      → get_elem? xs i ≡ some a
      → get_elem? xs j ≡ some b
      → Perm (set (set xs i b) j a) xs
  unfolding get_elem? set
  exchange [] i j a b e f = cc
  exchange (x ∷ xs) zero zero a b e f = let here : x ≡ a = ground arith in rw here Perm.rfl
  exchange (x ∷ xs) zero (suc j) a b e f =
      let here : x ≡ a = ground arith in rw here (exchange_head a xs j b f)
  exchange (x ∷ xs) (suc i) zero a b e f =
      let here : x ≡ b = ground arith in rw here (exchange_head b xs i a e)
  exchange (x ∷ xs) (suc i) (suc j) a b e f = Perm.cons x (exchange xs i j a b e f)

  swap-perm : (xs : List A) (i j : ℕ) → Perm (swap xs i j) xs
  unfolding swap
  swap-perm xs i j = elim (Option-cases (get_elem? xs i)) [
    | inl e ↦ rw (e, swap) Perm.rfl
    | inr (a, e) ↦ elim (Option-cases (get_elem? xs j)) [
      | inl f ↦ rw (e, swap, f) Perm.rfl
      | inr (b, f) ↦ rw (e, swap, f) (exchange xs i j a b e f)
    ]
  ]

  swap_range-perm : (n : ℕ) (xs : List A) (a b : ℕ) → Perm (swap_range n xs a b) xs
  unfolding swap_range
  swap_range-perm zero xs a b = Perm.rfl
  swap_range-perm (suc n) xs a b =
      Perm.trans (swap_range-perm n (swap xs a b) (suc a) (suc b)) (swap-perm xs a b)

  rotate_loop-perm : (fuel : ℕ) (xs : List A) (m i j : ℕ) → Perm (rotate_loop fuel xs m i j) xs
  unfolding rotate_loop
  rotate_loop-perm zero xs m i j = Perm.rfl
  rotate_loop-perm (suc fuel) xs m i j = if-perm (i == j) (swap_range-perm i xs _ _) (
      if-perm (ltb j i)
        (Perm.trans (rotate_loop-perm fuel _ m (i - j) j) (swap_range-perm j xs _ _))
        (Perm.trans (rotate_loop-perm fuel _ m i (j - i)) (swap_range-perm i xs _ _)))

module _ {ℓ} {A : Type ℓ} (less : A → A → Bool) where
  sink-perm : (a : ℕ) (xs : List A) (j : ℕ) → Perm (sink less a xs j) xs
  unfolding sink
  sink-perm a xs zero = Perm.rfl
  sink-perm a xs (suc j) =
      if-perm (leb a j && less_at less xs (suc j) j)
        (Perm.trans (sink-perm a (swap xs (suc j) j) j) (swap-perm xs (suc j) j)) Perm.rfl

  insertion_rounds-perm : (r a : ℕ) (xs : List A) (i : ℕ) → Perm (insertion_rounds less r a xs i) xs
  unfolding insertion_rounds
  insertion_rounds-perm zero a xs i = Perm.rfl
  insertion_rounds-perm (suc r) a xs i =
      Perm.trans (insertion_rounds-perm r a (sink less a xs i) (suc i)) (sink-perm a xs i)

  insertion_sort-perm : (xs : List A) (a b : ℕ) → Perm (insertion_sort less xs a b) xs
  unfolding insertion_sort
  insertion_sort-perm xs a b = insertion_rounds-perm (b - (a + 1)) a xs (a + 1)

  shift_up-perm : (n : ℕ) (xs : List A) (k : ℕ) → Perm (shift_up less n xs k) xs
  unfolding shift_up
  shift_up-perm zero xs k = Perm.rfl
  shift_up-perm (suc n) xs k =
      Perm.trans (shift_up-perm n (swap xs k (k + 1)) (k + 1)) (swap-perm xs k (k + 1))

  shift_down-perm : (n : ℕ) (xs : List A) (k : ℕ) → Perm (shift_down less n xs k) xs
  unfolding shift_down
  shift_down-perm zero xs k = Perm.rfl
  shift_down-perm (suc n) xs k =
      Perm.trans (shift_down-perm n (swap xs k (k - 1)) (k - 1)) (swap-perm xs k (k - 1))

  insert_first-perm : (xs : List A) (a m b : ℕ) → Perm (insert_first less xs a m b) xs
  unfolding insert_first
  insert_first-perm xs a m b =
      shift_up-perm (bisect less (b - m) (λ h. less_at less xs h a) m b - 1 - a) xs a

  insert_last-perm : (xs : List A) (a m b : ℕ) → Perm (insert_last less xs a m b) xs
  unfolding insert_last
  insert_last-perm xs a m b =
      shift_down-perm (m - bisect less (m - a) (λ h. not (less_at less xs m h)) a m) xs m

  rotate_parts-perm : (xs : List A) (a m b : ℕ) → Perm (rotate_parts less xs a m b) xs
  unfolding rotate_parts rotate
  rotate_parts-perm xs a m b =
      if-perm (ltb a m && ltb m b) (rotate_loop-perm (suc (b - a)) xs m (m - a) (b - m)) Perm.rfl

  module _ (merge : List A → ℕ → ℕ → ℕ → List A)
      (merge-perm : (xs : List A) (a m b : ℕ) → Perm (merge xs a m b) xs) where
    merge_part-perm : (xs : List A) (a m b : ℕ) → Perm (merge_part less merge xs a m b) xs
    unfolding merge_part
    merge_part-perm xs a m b = if-perm (ltb a m && ltb m b) (merge-perm xs a m b) Perm.rfl

    merge_parts-perm : (xs : List A) (a m b : ℕ) → Perm (merge_parts less merge xs a m b) xs
    unfolding merge_parts
    merge_parts-perm xs a m b = Perm.trans (merge_part-perm _ ((a + b) / 2) _ b) (
        Perm.trans (merge_part-perm _ a (cut less xs a m b) ((a + b) / 2))
          (rotate_parts-perm xs (cut less xs a m b) m _))

  sym_merge-perm : (fuel : ℕ) (xs : List A) (a m b : ℕ) → Perm (sym_merge less fuel xs a m b) xs
  unfolding sym_merge
  sym_merge-perm zero xs a m b = Perm.rfl
  sym_merge-perm (suc fuel) xs a m b = if-perm (m - a == 1) (insert_first-perm xs a m b) (
      if-perm (b - m == 1) (insert_last-perm xs a m b)
        (merge_parts-perm (sym_merge less fuel) (sym_merge-perm fuel) xs a m b))

  sort_blocks-perm :
      (fuel : ℕ) (xs : List A) (block a n : ℕ) → Perm (sort_blocks less fuel xs block a n) xs
  unfolding sort_blocks
  sort_blocks-perm zero xs block a n = insertion_sort-perm xs a n
  sort_blocks-perm (suc fuel) xs block a n =
      if-perm (leb (a + block) n)
        (Perm.trans (sort_blocks-perm fuel _ block (a + block) n)
          (insertion_sort-perm xs a (a + block)))
        (insertion_sort-perm xs a n)

  merge_pass-perm :
      (fuel : ℕ) (xs : List A) (block a n : ℕ) → Perm (merge_pass less fuel xs block a n) xs
  unfolding merge_pass
  merge_pass-perm zero xs block a n = Perm.rfl
  merge_pass-perm (suc fuel) xs block a n =
      if-perm (leb (a + 2 * block) n)
        (Perm.trans (merge_pass-perm fuel _ block (a + 2 * block) n)
          (sym_merge-perm n xs a (a + block) (a + 2 * block)))
        (if-perm (ltb (a + block) n) (sym_merge-perm n xs a (a + block) n) Perm.rfl)

  merge_passes-perm :
      (fuel : ℕ) (xs : List A) (block n : ℕ) → Perm (merge_passes less fuel xs block n) xs
  unfolding merge_passes
  merge_passes-perm zero xs block n = Perm.rfl
  merge_passes-perm (suc fuel) xs block n =
      if-perm (ltb block n)
        (Perm.trans (merge_passes-perm fuel _ (block * 2) n) (merge_pass-perm (suc n) xs block 0 n))
        Perm.rfl

  -- Under any rule, a strict weak order or not, the result is a permutation of the slice.
  pub slice_stable-perm : (xs : List A) → Perm (slice_stable less xs) xs
  unfolding slice_stable
  slice_stable-perm xs =
      let n = length xs in Perm.trans (merge_passes-perm n _ 20 n) (sort_blocks-perm n xs 20 0 n)
