-- ===== src/ClientLimit/Window.antt =====
-- The promise of the minute limit: whatever the calls, fewer than a minute's worth of starts.
use codex_provider.Base.Maps.{get}
use codex_provider.Base.{
  ℕ, zero, suc, ◌+◌, ◌-◌, ◌≤◌, ◌≡◌, refl, sym, ap, subst, String, false, inl, inr, List, [], ◌∷◌,
  ◌++◌, ◌∙◌, length, length-append, filter, All, All-append, All-mono, arith, str_eq, eq_iff,
  eq_refl, leb, ltb, if◌then◌else◌, Bool-cases,
}
use mathlib.Core.List.{append_assoc}
use mathlib.Core.List.{append-nil}
use codex_provider.ClientLimit.{
  ClientLimits, KeyUse, entry, window, prune, admit_client, count_client, new,
}
use codex_provider.ClientLimit.Effect.{
  Only, Grants, Keeps, admit_client_effect, count_client_effect, drop_permit_effect,
}
use codex_provider.ClientLimit.World.{
  World, Event, admits, counts, drops, Ordered, step, run, fresh, after_admit, after_count,
  after_drop, holds,
}

-- The times at which starts of `key` were granted.
abbrev pub starts_of : String → List (String × ℕ) → List ℕ
starts_of key [] = []
starts_of key ((k, at) ∷ log) = if str_eq k key then at ∷ starts_of key log else starts_of key log

-- The starts of `key` that are less than a minute old at `t`.
pub recent : ℕ → List ℕ → List ℕ
recent t = filter (λ at. ltb t (at + window))

starts_of-append :
    (key : String) (xs ys : List (String × ℕ))
    → starts_of key (xs ++ ys) ≡ starts_of key xs ++ starts_of key ys
starts_of-append key [] ys = refl
starts_of-append key ((k, at) ∷ xs) ys = ground (arith, starts_of-append key xs ys)

prune_split :
    (now : ℕ) (s : List ℕ)
    → (gone : List ℕ) × (s ≡ gone ++ prune now s) × All (λ at. at + window ≤ now) gone
unfolding prune
prune_split now [] = ([], refl, tt)
prune_split now (at ∷ rest) = elim (Bool-cases (leb window (now - at))) [
  | inl old ↦
      let (gone, e, all) = prune_split now rest in
      rw old (at ∷ gone, ap (◌∷◌ at) e, (ground arith, all))
  | inr young ↦ rw young ([], refl, tt)
]

length-recent_aged :
    (t : ℕ) (old s : List ℕ)
    → All (λ at. at + window ≤ t) old
    → length (recent t (old ++ s)) ≤ length s
unfolding recent filter
length-recent_aged t [] [] h = omega arith
length-recent_aged t [] (at ∷ s) h = ground (arith, length-recent_aged t [] s tt)
length-recent_aged t (at ∷ old) s h = ground (arith, length-recent_aged t old s h.1)

-- The entry's starts are the last ones granted; those before them have left the window at `t`.
record Remembers (t limit : ℕ) (log : List ℕ) (e : KeyUse) : Type 0 where
  old : List ℕ
  split : log ≡ old ++ e.started
  aged : All (λ at. at + window ≤ t) old
  bounded : length e.started ≤ limit

module _ {t limit : ℕ} (now : ℕ) {log : List ℕ} {e : KeyUse} (r : Remembers t limit log e)
    (later : t ≤ now) where
  still_aged : All (λ at. at + window ≤ now) r.old
  still_aged = All-mono (λ at h. omega arith) r.old r.aged

  prune-Remembers : {e' : KeyUse} → e'.started ≡ prune now e.started → Remembers now limit log e'
  prune-Remembers same =
      let (gone, s, aged) = prune_split now e.started in
      record {
        old = r.old ++ gone;
        split =
            r.split
            ∙ ap (◌++◌ r.old) s
            ∙ sym (append_assoc r.old gone _)
            ∙ ap (λ l. (r.old ++ gone) ++ l) (sym same);
        aged = All-append _ r.old gone still_aged aged;
        bounded = omega (
          arith,
          r.bounded,
          ap length s,
          ap length same,
          length-append gone (prune now e.started),
        );
      }

  Keeps-Remembers : {e' : KeyUse} → Keeps now e e' → Remembers now limit log e'
  Keeps-Remembers (inl same) = record {
    old = r.old;
    split = r.split ∙ ap (◌++◌ r.old) (sym same);
    aged = still_aged;
    bounded = rw same r.bounded;
  }
  Keeps-Remembers (inr same) = prune-Remembers same

  Grants-Remembers :
      {e' : KeyUse} → Grants limit now e e' → Remembers now limit (log ++ now ∷ []) e'
  Grants-Remembers g =
      let (gone, s, aged) = prune_split now e.started in
      record {
        old = r.old ++ gone;
        split =
            rw (g.starts, r.split)
              (ap (λ l. (r.old ++ l) ++ now ∷ []) s
                ∙ ap (λ l. l ++ now ∷ []) (sym (append_assoc r.old gone _))
                ∙ append_assoc (r.old ++ gone) _ _);
        aged = All-append _ r.old gone still_aged aged;
        bounded =
            omega
              (arith, g.room, ap length g.starts, length-append (prune now e.started) (now ∷ []));
      }

abbrev Holds : String → ℕ → ℕ → World → Type 0
Holds key limit t w =
    (w.limits.max_per_minute ≡ limit)
    × Remembers t limit (starts_of key w.granted) (entry w.limits key)

starts_of-snoc_self :
    (key : String) (log : List (String × ℕ)) (now : ℕ)
    → starts_of key (log ++ (key, now) ∷ []) ≡ starts_of key log ++ now ∷ []
starts_of-snoc_self key log now = rw (starts_of-append key log _, eq_refl key)

starts_of-snoc_ne :
    (key k : String) (log : List (String × ℕ)) (now : ℕ)
    → str_eq k key ≡ false
    → starts_of key (log ++ (k, now) ∷ []) ≡ starts_of key log
starts_of-snoc_ne key k log now other = rw (starts_of-append key log _, other) (append-nil _)

module _ (key k : String) (limit t now : ℕ) (w : World) (later : t ≤ now)
    (h : Holds key limit t w) where
  others-Remembers :
      {l' : ClientLimits}
      → Only k w.limits l'
      → str_eq k key ≡ false
      → Remembers now limit (starts_of key w.granted) (entry l' key)
  others-Remembers only other =
      rw (only.others key other) (Keeps-Remembers now h.1 later (inl refl))

  keep-Holds :
      {l' : ClientLimits}
      → Only k w.limits l'
      → Keeps now (entry w.limits k) (entry l' k)
      → (l'.max_per_minute ≡ limit) × Remembers now limit (starts_of key w.granted) (entry l' key)
  keep-Holds only kept = elim (Bool-cases (str_eq k key)) [
    | inl same ↦
        let e = (eq_iff k key).0 same in
        (cc (only.minute_limit, h.0), Keeps-Remembers now h.1 later (rw e at kept))
    | inr other ↦ (cc (only.minute_limit, h.0), others-Remembers only other)
  ]

  grant-Holds :
      {l' : ClientLimits}
      → Only k w.limits l'
      → Grants w.limits.max_per_minute now (entry w.limits k) (entry l' k)
      → (l'.max_per_minute ≡ limit)
        × Remembers now limit (starts_of key (w.granted ++ (k, now) ∷ [])) (entry l' key)
  grant-Holds {l'} only grants = elim (Bool-cases (str_eq k key)) [
    | inl same ↦
        let e = (eq_iff k key).0 same in
        let own : Grants limit now (entry w.limits key) (entry l' key) = rw (e, h.0) at grants in
        (
          cc (only.minute_limit, h.0),
          rw (e, starts_of-snoc_self key w.granted now) (Grants-Remembers now h.1 later own),
        )
    | inr other ↦ (
      cc (only.minute_limit, h.0),
      rw (starts_of-snoc_ne key k w.granted now other) (others-Remembers only other),
    )
  ]

drop-Holds :
    (key k : String) (limit t now n : ℕ) (w : World)
    → t ≤ now
    → Holds key limit t w
    → Holds key limit now (after_drop w k n)
unfolding after_drop
drop-Holds key k limit t now zero w later h = (h.0, Keeps-Remembers now h.1 later (inl refl))
drop-Holds key k limit t now (suc n) w later h =
    let (only, s, _) = drop_permit_effect w.limits k in
    keep-Holds key k limit t now w later h only (inl s)

step-Holds :
    (key : String) (limit t now : ℕ) (w : World) (e : Event)
    → t ≤ now
    → Holds key limit t w
    → Holds key limit now (step w now e)
unfolding step after_admit after_count
step-Holds key limit t now w (admits k) later h =
    let (l', r) = admit_client w.limits k now in
    let (only, cases) = admit_client_effect w.limits k now in
    elim cases [
      | inl (res, grants, _, _) ↦
          subst (λ x. Holds key limit now (after_admit w k now (l', x))) (sym res)
            (grant-Holds key k limit t now w later h only grants)
      | inr (held, res, kept, _) ↦
          subst (λ x. Holds key limit now (after_admit w k now (l', x))) (sym res)
            (keep-Holds key k limit t now w later h only kept)
    ]
step-Holds key limit t now w (counts k) later h =
    let (l', r) = count_client w.limits k now in
    let (only, _, cases) = count_client_effect w.limits k now in
    elim cases [
      | inl (res, grants) ↦
          subst (λ x. Holds key limit now (after_count w k now (l', x))) (sym res)
            (grant-Holds key k limit t now w later h only grants)
      | inr (held, res, kept) ↦
          subst (λ x. Holds key limit now (after_count w k now (l', x))) (sym res)
            (keep-Holds key k limit t now w later h only kept)
    ]
step-Holds key limit t now w (drops k) later h =
    drop-Holds key k limit t now (holds k w.held) w later h

-- The time of the last event.
abbrev pub last_time : ℕ → List (ℕ × Event) → ℕ
last_time t [] = t
last_time t ((now, e) ∷ es) = last_time now es

run-Holds :
    (key : String) (limit t : ℕ) (w : World) (es : List (ℕ × Event))
    → Ordered t es
    → Holds key limit t w
    → Holds key limit (last_time t es) (run w es)
unfolding run
run-Holds key limit t w [] o h = h
run-Holds key limit t w ((now, e) ∷ es) o h =
    run-Holds key limit now (step w now e) es o.1 (step-Holds key limit t now w e o.0 h)

fresh-Holds : (key : String) (f m : ℕ) → Holds key m 0 (fresh f m)
unfolding fresh new get
fresh-Holds key f m = (refl, record { old = []; split = refl; aged = tt; bounded = omega arith })

-- Whatever the clients ask, in any order, with a clock that never goes back: at the time of the
-- last call no key has been granted more than `max_per_minute` starts in the last minute.
pub run-recent-le :
    (f m : ℕ) (es : List (ℕ × Event)) (key : String)
    → Ordered 0 es
    → length (recent (last_time 0 es) (starts_of key (run (fresh f m) es).granted)) ≤ m
run-recent-le f m es key o =
    let (_, r) = run-Holds key m 0 (fresh f m) es o (fresh-Holds key f m) in
    rw r.split (omega (arith, r.bounded, length-recent_aged (last_time 0 es) r.old _ r.aged))
