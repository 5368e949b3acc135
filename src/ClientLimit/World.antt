-- ===== src/ClientLimit/World.antt =====
-- Every call that changes the limits, over any number of clients. The state also carries what the
-- limits promise about: the starts that were granted, in order, and the permits still held.
use codex_provider.Base.{
  ℕ, zero, suc, String, List, [], ◌∷◌, ◌++◌, ◌≤◌, str_eq, if◌then◌else◌, Result, ok, err,
}
use codex_provider.ClientLimit.{
  ClientLimits, Held, Permit, new, admit_client, count_client, drop_permit,
}

pub record World : Type 0 where
  pub limits : ClientLimits
  pub granted : List (String × ℕ)
  pub held : List String

pub data Event : Type 0 where
  admits counts : String → Event
  drops : String → Event

-- Drops one permit of the key, if one is held.
unfoldable pub release_one : String → List String → List String
release_one key [] = []
release_one key (k ∷ ks) = if str_eq k key then ks else k ∷ release_one key ks

unfoldable pub holds : String → List String → ℕ
holds key [] = 0
holds key (k ∷ ks) = if str_eq k key then suc (holds key ks) else holds key ks

unfoldable pub after_admit : World → String → ℕ → ClientLimits × Result Held Permit → World
after_admit w key now (l, ok p) = record {
  limits = l;
  granted = w.granted ++ (key, now) ∷ [];
  held = p.key ∷ w.held;
}
after_admit w key now (l, err e) = record w { limits = l }

unfoldable pub after_count : World → String → ℕ → ClientLimits × Result Held (Unit {0}) → World
after_count w key now (l, ok _) = record w { limits = l; granted = w.granted ++ (key, now) ∷ [] }
after_count w key now (l, err e) = record w { limits = l }

-- A permit that is not held cannot be dropped.
unfoldable pub after_drop : World → String → ℕ → World
unfolding release_one
after_drop w key n = elim n [
  | zero ↦ w
  | suc _ ↦ record w {
    limits = drop_permit w.limits (record { key = key });
    held = release_one key w.held;
  }
]

unfoldable pub step : World → ℕ → Event → World
unfolding after_admit after_count after_drop holds
step w now (admits key) = after_admit w key now (admit_client w.limits key now)
step w now (counts key) = after_count w key now (count_client w.limits key now)
step w now (drops key) = after_drop w key (holds key w.held)

-- The events with the time of each.
unfoldable pub run : World → List (ℕ × Event) → World
run w [] = w
run w ((now, e) ∷ es) = run (step w now e) es

unfoldable pub fresh : ℕ → ℕ → World
unfolding new
fresh f m = record { limits = new f m; granted = []; held = [] }

-- The clock never goes back, from `t` on.
abbrev pub Ordered : ℕ → List (ℕ × Event) → Type 0
Ordered t [] = Unit
Ordered t ((now, e) ∷ es) = (t ≤ now) × Ordered now es
