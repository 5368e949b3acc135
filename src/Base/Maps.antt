-- ===== src/Base/Maps.antt =====
-- `BTreeMap<String, V>` and `HashMap<String, V>`: a list of entries kept in the order of the keys,
-- which is the order in which a BTreeMap is iterated.
use Prim.Native.String.{String}
use mathlib.Core.Path.{◌≡◌, refl}
use mathlib.Core.List.{List, [], ◌∷◌, map}
use mathlib.Core.Bool.{Bool, true, false}
use mathlib.Core.Option.{Option, none, some}
use mathlib.Core.Logic.{inl, inr}
use native.Mathlib.Omega.{arith}
use text.Mathlib.Text.{◌==◌ as str_eq}
use text.Mathlib.TextEquality.{eq_iff}
use text.Mathlib.TextPositions.{eq_refl}
use codex_provider.Base.Tests.{if◌then◌else◌, str_lt, Bool-cases}
use codex_provider.Base.Lists.{All}

abbrev pub Map {ℓ} : Type ℓ → Type ℓ
Map V = List (String × V)

module _ {ℓ} {V : Type ℓ} where
  unfoldable pub get : String → Map V → Option V
  get k [] = none
  get k ((j, v) ∷ m) = if str_eq j k then some v else get k m

  unfoldable pub insert : String → V → Map V → Map V
  insert k v [] = (k, v) ∷ []
  insert k v ((j, w) ∷ m) =
      if str_eq j k
      then (k, v) ∷ m
      else if str_lt k j
      then (k, v) ∷ (j, w) ∷ m
      else (j, w) ∷ insert k v m

  unfoldable pub remove : String → Map V → Map V
  remove k [] = []
  remove k ((j, v) ∷ m) = if str_eq j k then remove k m else (j, v) ∷ remove k m

  -- `retain(|_, v| p(v))`.
  unfoldable pub retain : (V → Bool) → Map V → Map V
  retain p [] = []
  retain p ((j, v) ∷ m) = if p v then (j, v) ∷ retain p m else retain p m

  abbrev pub values : Map V → List V
  values = map (λ e. e.1)

  pub get-insert :
      (k j : String) (v : V) (m : Map V)
      → get j (insert k v m) ≡ (if str_eq k j then some v else get j m)
  unfolding get insert
  get-insert k j v [] = refl
  get-insert k j v ((i, w) ∷ m) =
      ground (arith, eq_iff k j, eq_iff i k, eq_iff i j, get-insert k j v m)

  pub get-insert_self : (k : String) (v : V) (m : Map V) → get k (insert k v m) ≡ some v
  get-insert_self k v m = rw (get-insert k k v m, eq_refl k)

  pub get-insert_ne :
      (k j : String) (v : V) (m : Map V) → str_eq k j ≡ false → get j (insert k v m) ≡ get j m
  get-insert_ne k j v m h = rw (get-insert k j v m, h)

  pub get-remove :
      (k j : String) (m : Map V) → get j (remove k m) ≡ (if str_eq k j then none else get j m)
  unfolding get remove
  get-remove k j [] = ground arith
  get-remove k j ((i, w) ∷ m) = ground (arith, eq_iff k j, eq_iff i k, eq_iff i j, get-remove k j m)

  -- A property of every value survives an insertion of a value that has it.
  pub All-insert {κ} :
      (P : V → Type κ) (k : String) (v : V) (m : Map V)
      → P v
      → All (λ e. P e.1) m
      → All (λ e. P e.1) (insert k v m)
  unfolding insert
  All-insert P k v [] p h = (p, tt)
  All-insert P k v ((j, w) ∷ m) p h = elim (Bool-cases (str_eq j k)) [
    | inl e ↦ rw e (p, h.1)
    | inr e ↦ elim (Bool-cases (str_lt k j)) [
      | inl l ↦ rw (e, l) (p, h)
      | inr l ↦ rw (e, l) (h.0, All-insert P k v m p h.1)
    ]
  ]

  pub All-retain {κ} :
      (P : V → Type κ) (p : V → Bool) (m : Map V)
      → All (λ e. P e.1) m
      → All (λ e. P e.1) (retain p m)
  unfolding retain
  All-retain P p [] h = tt
  All-retain P p ((j, w) ∷ m) h = elim (Bool-cases (p w)) [
    | inl e ↦ rw e (h.0, All-retain P p m h.1)
    | inr e ↦ rw e (All-retain P p m h.1)
  ]

  -- After `retain p` every value passes `p`.
  pub retain_passes : (p : V → Bool) (m : Map V) → All (λ e. p e.1 ≡ true) (retain p m)
  unfolding retain
  retain_passes p [] = tt
  retain_passes p ((j, w) ∷ m) = elim (Bool-cases (p w)) [
    | inl e ↦ rw e (e, retain_passes p m)
    | inr e ↦ rw e (retain_passes p m)
  ]

  pub get-All {κ} :
      (P : V → Type κ) (k : String) (v : V) (m : Map V)
      → All (λ e. P e.1) m
      → get k m ≡ some v
      → P v
  unfolding get
  get-All P k v [] h e = cc
  get-All P k v ((j, w) ∷ m) h e = elim (Bool-cases (str_eq j k)) [
    | inl same ↦ let here : w ≡ v = ground arith in rw here at h.0
    | inr other ↦ get-All P k v m h.1 (ground arith)
  ]
