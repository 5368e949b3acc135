-- ===== src/GoSort.antt =====
-- upstream/src/pool/gosort.rs: Go's stable sort, insertion sort over blocks of 20 and then SymMerge.
-- A slice is a list. An index out of range, at which the source panics, is no swap here and compares
-- as false. Each loop counts its rounds on fuel that is at least the distance it has to go.
pub mod Perm
mod Tests
use codex_provider.Base.{
  ℕ, zero, suc, ◌+◌, ◌-◌, ◌*◌, ◌/◌, Bool, true, false, ◌&&◌, not, Option, none, some, List, [], ◌∷◌,
  length, ltb, leb, ◌==◌, if◌then◌else◌,
}

module _ {ℓ} {A : Type ℓ} where
  unfoldable pub get_elem? : List A → ℕ → Option A
  get_elem? [] i = none
  get_elem? (x ∷ xs) zero = some x
  get_elem? (x ∷ xs) (suc i) = get_elem? xs i

  unfoldable pub set : List A → ℕ → A → List A
  set [] i v = []
  set (x ∷ xs) zero v = v ∷ xs
  set (x ∷ xs) (suc i) v = x ∷ set xs i v

  -- `data.swap(i, j)`.
  unfoldable pub swap : List A → ℕ → ℕ → List A
  unfolding get_elem? set
  swap xs i j = elim (get_elem? xs i) [
    | none ↦ xs
    | some a ↦ elim (get_elem? xs j) [ none ↦ xs | some b ↦ set (set xs i b) j a ]
  ]

  -- `for i in 0..n`, swapping `a + i` and `b + i`.
  unfoldable pub swap_range : ℕ → List A → ℕ → ℕ → List A
  unfolding swap
  swap_range zero data' a b = data'
  swap_range (suc n) data' a b = swap_range n (swap data' a b) (suc a) (suc b)

  unfoldable pub rotate_loop : ℕ → List A → ℕ → ℕ → ℕ → List A
  unfolding swap_range
  rotate_loop zero data' m i j = data'
  rotate_loop (suc fuel) data' m i j =
      let shorter_i = rotate_loop fuel (swap_range j data' (m - i) m) m (i - j) j in
      let shorter_j = rotate_loop fuel (swap_range i data' (m - i) (m + j - i)) m i (j - i) in
      if i == j then swap_range i data' (m - i) m else if ltb j i then shorter_i else shorter_j

  unfoldable pub rotate : List A → ℕ → ℕ → ℕ → List A
  unfolding rotate_loop
  rotate data' a m b = rotate_loop (suc (b - a)) data' m (m - a) (b - m)

module _ {ℓ} {A : Type ℓ} (less : A → A → Bool) where
  unfoldable pub less_at : List A → ℕ → ℕ → Bool
  unfolding get_elem?
  less_at data' i j = elim (get_elem? data' i) [
    | none ↦ false
    | some x ↦ elim (get_elem? data' j) [ none ↦ false | some y ↦ less x y ]
  ]

  -- The `while` loop that moves the element at `j` down to its place above `a`.
  unfoldable pub sink : ℕ → List A → ℕ → List A
  unfolding less_at swap
  sink a data' zero = data'
  sink a data' (suc j) =
      let moved = sink a (swap data' (suc j) j) j in
      if leb a j && less_at data' (suc j) j then moved else data'

  -- `for i in i..i + rounds`.
  unfoldable pub insertion_rounds : ℕ → ℕ → List A → ℕ → List A
  unfolding sink
  insertion_rounds zero a data' i = data'
  insertion_rounds (suc rounds) a data' i = insertion_rounds rounds a (sink a data' i) (suc i)

  unfoldable pub insertion_sort : List A → ℕ → ℕ → List A
  unfolding insertion_rounds
  insertion_sort data' a b = insertion_rounds (b - (a + 1)) a data' (a + 1)

  -- The three binary searches: the first `h` in `[i, j)` at which `right` fails.
  unfoldable pub bisect : ℕ → (ℕ → Bool) → ℕ → ℕ → ℕ
  bisect zero right i j = i
  bisect (suc fuel) right i j =
      let h = (i + j) / 2 in
      let above = bisect fuel right (h + 1) j in
      let below = bisect fuel right i h in if ltb i j then (if right h then above else below) else i

  -- `while k + 1 < i` and `while k > i`.
  unfoldable pub shift_up : ℕ → List A → ℕ → List A
  unfolding swap
  shift_up zero data' k = data'
  shift_up (suc n) data' k = shift_up n (swap data' k (k + 1)) (k + 1)

  unfoldable pub shift_down : ℕ → List A → ℕ → List A
  unfolding swap
  shift_down zero data' k = data'
  shift_down (suc n) data' k = shift_down n (swap data' k (k - 1)) (k - 1)

  -- `m - a == 1`: the one element of the first run moves up to its place in the second.
  unfoldable pub insert_first : List A → ℕ → ℕ → ℕ → List A
  unfolding less_at bisect shift_up
  insert_first data' a m b =
      let i = bisect (b - m) (λ h. less_at data' h a) m b in shift_up (i - 1 - a) data' a

  -- `b - m == 1`: the one element of the second run moves down to its place in the first.
  unfoldable pub insert_last : List A → ℕ → ℕ → ℕ → List A
  unfolding less_at bisect shift_down
  insert_last data' a m b =
      let i = bisect (m - a) (λ h. not (less_at data' m h)) a m in shift_down (m - i) data' m

  -- Where the runs are cut: the third search of `sym_merge`.
  unfoldable pub cut : List A → ℕ → ℕ → ℕ → ℕ
  unfolding less_at bisect
  cut data' a m b =
      let mid = (a + b) / 2 in
      let n = mid + m in
      let lo = if ltb mid m then n - b else a in
      let hi = if ltb mid m then mid else m in
      let p = n - 1 in bisect (hi - lo) (λ c. not (less_at data' (p - c) c)) lo hi

  unfoldable pub rotate_parts : List A → ℕ → ℕ → ℕ → List A
  unfolding rotate
  rotate_parts data' start m end' =
      if ltb start m && ltb m end' then rotate data' start m end' else data'

  -- `merge` is the recursive call, made where `lo < mid < hi`.
  unfoldable pub merge_part : (List A → ℕ → ℕ → ℕ → List A) → List A → ℕ → ℕ → ℕ → List A
  merge_part merge data' lo mid hi =
      if ltb lo mid && ltb mid hi then merge data' lo mid hi else data'

  unfoldable pub merge_parts : (List A → ℕ → ℕ → ℕ → List A) → List A → ℕ → ℕ → ℕ → List A
  unfolding cut rotate_parts merge_part
  merge_parts merge data' a m b =
      let mid = (a + b) / 2 in
      let start = cut data' a m b in
      let end' = (mid + m) - start in
      let rotated = rotate_parts data' start m end' in
      merge_part merge (merge_part merge rotated a start mid) mid end' b

  unfoldable pub sym_merge : ℕ → List A → ℕ → ℕ → ℕ → List A
  unfolding insert_first insert_last merge_parts
  sym_merge zero data' a m b = data'
  sym_merge (suc fuel) data' a m b =
      if m - a == 1
      then insert_first data' a m b
      else if b - m == 1
      then insert_last data' a m b
      else merge_parts (sym_merge fuel) data' a m b

  -- `while b <= n` of the block sort, and the rest of the last block.
  unfoldable pub sort_blocks : ℕ → List A → ℕ → ℕ → ℕ → List A
  unfolding insertion_sort
  sort_blocks zero data' block a n = insertion_sort data' a n
  sort_blocks (suc fuel) data' block a n =
      let rest = sort_blocks fuel (insertion_sort data' a (a + block)) block (a + block) n in
      if leb (a + block) n then rest else insertion_sort data' a n

  -- `while b <= n` of one merge pass, and the merge of the rest.
  unfoldable pub merge_pass : ℕ → List A → ℕ → ℕ → ℕ → List A
  unfolding sym_merge
  merge_pass zero data' block a n = data'
  merge_pass (suc fuel) data' block a n =
      let b = a + 2 * block in
      let rest = merge_pass fuel (sym_merge n data' a (a + block) b) block b n in
      let last = sym_merge n data' a (a + block) n in
      if leb b n then rest else if ltb (a + block) n then last else data'

  unfoldable pub merge_passes : ℕ → List A → ℕ → ℕ → List A
  unfolding merge_pass
  merge_passes zero data' block n = data'
  merge_passes (suc fuel) data' block n =
      let rest = merge_passes fuel (merge_pass (suc n) data' block 0 n) (block * 2) n in
      if ltb block n then rest else data'

  unfoldable pub slice_stable : List A → List A
  unfolding sort_blocks merge_passes
  slice_stable data' = let n = length data' in merge_passes n (sort_blocks n data' 20 0 n) 20 n
