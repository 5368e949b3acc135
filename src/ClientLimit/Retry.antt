-- ===== src/ClientLimit/Retry.antt =====
-- The `retry-after` of a refusal is the wait that is needed, and the answer is one that Codex waits on.
use codex_provider.Base.{
  ℕ, suc, ◌+◌, ◌-◌, ◌≤◌, ◌<◌, ◌≡◌, ◌≢◌, ap, ◌∙◌, String, false, inl, inr, List, [], ◌∷◌, length,
  All, arith, leb, Bool-cases, List-cases, ok, err,
}
use codex_provider.ClientLimit.{
  ClientLimits, KeyUse, per_minute, entry, window, prune, start, count,
}
use codex_provider.ClientLimit.Effect.{entry-store_self}

prune_head :
    (now : ℕ) (s : List ℕ) {at : ℕ} {rest : List ℕ}
    → prune now s ≡ at ∷ rest
    → leb window (now - at) ≡ false
unfolding prune
prune_head now [] e = cc
prune_head now (x ∷ s) e = elim (Bool-cases (leb window (now - x))) [
  | inl old ↦ prune_head now s (rw (old, prune) at e)
  | inr young ↦ ground arith
]

length-prune-le : (now : ℕ) (s : List ℕ) → length (prune now s) ≤ length s
unfolding prune
length-prune-le now [] = omega arith
length-prune-le now (x ∷ s) = ground (arith, length-prune-le now s)

All-prune : (P : ℕ → Type 0) (now : ℕ) (s : List ℕ) → All P s → All P (prune now s)
unfolding prune
All-prune P now [] h = tt
All-prune P now (x ∷ s) h = ground (arith, All-prune P now s h.1)

-- What a refused `start` leaves: the window was full of starts, the oldest at `at`.
record Full (limit now r : ℕ) (e : KeyUse) : Type 0 where
  at : ℕ
  rest : List ℕ
  shape : prune now e.started ≡ at ∷ rest
  young : now - at < window
  wait : r ≡ window - (now - at)
  full : limit ≤ suc (length rest)
  state : (start limit e now).0.started ≡ at ∷ rest

start-Full :
    (limit : ℕ) (e : KeyUse) (now r : ℕ)
    → 0 < limit
    → (start limit e now).1 ≡ err (per_minute r)
    → Full limit now r e
unfolding start
start-Full limit e now r pos refused = elim (List-cases (prune now e.started)) [
  | inl empty ↦ absurd (ground arith)
  | inr (at, rest, shape) ↦
      let young = prune_head now e.started shape in
      record {
        at = at;
        rest = rest;
        shape = shape;
        young = ground arith;
        wait = ground arith;
        full = ground arith;
        state = ground arith;
      }
]

start_when_aged :
    (limit : ℕ) (e : KeyUse) (at t : ℕ) (rest : List ℕ)
    → e.started ≡ at ∷ rest
    → window ≤ t - at
    → length rest < limit
    → (start limit e t).1 ≡ ok tt
unfolding start prune
start_when_aged limit e at t rest shape aged room =
    rw shape (ground (arith, length-prune-le t rest))

start_when_young :
    (limit : ℕ) (e : KeyUse) (at t : ℕ) (rest : List ℕ)
    → e.started ≡ at ∷ rest
    → t - at < window
    → limit ≤ suc (length rest)
    → (start limit e t).1 ≢ ok tt
unfolding start prune
start_when_young limit e at t rest shape young full = rw shape (λ granted. ground arith)

-- A key with room for a start at all, that is refused one at `now` and told to wait `r`, gets it at
-- `now + r`, and is refused at every time before: `r` is the least wait that helps. The starts of the
-- key are no later than `now` and no more than the limit, as every run of the limits keeps them.
pub count-retry_after :
    (l : ClientLimits) (key : String) (now r t : ℕ)
    → 0 < l.max_per_minute
    → length (entry l key).started ≤ l.max_per_minute
    → All (λ at. at ≤ now) (entry l key).started
    → (count l key now).1 ≡ err (per_minute r)
    → now ≤ t
    → t < now + r
    → let l' = (count l key now).0 in
      ((count l' key (now + r)).1 ≡ ok tt) × ((count l' key t).1 ≢ ok tt)
unfolding count
count-retry_after l key now r t pos fits past refused later sooner =
    let limit = l.max_per_minute in
    let e = entry l key in
    let f = start-Full limit e now r pos refused in
    let own = entry-store_self l key (start limit e now).0 in
    let shape = ap (λ (u : KeyUse). u.started) own ∙ f.state in
    let older : f.at ≤ now = (rw f.shape at (All-prune (λ at. at ≤ now) now e.started past)).0 in
    let less = length-prune-le now e.started in
    (
      start_when_aged limit _ f.at (now + r) f.rest shape (omega (arith, f.wait, f.young, older))
          (omega (arith, ap length f.shape, less, fits)),
      start_when_young limit _ f.at t f.rest shape (omega (arith, f.wait, f.young, older)) f.full,
    )
