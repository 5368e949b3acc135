-- ===== src/ClientLimit/Flight.antt =====
-- The promise of the in-flight limit, and that the count of a key is its permits.
use codex_provider.Base.Maps.{get}
use codex_provider.Base.{
  ℕ, zero, suc, ◌+◌, ◌-◌, ◌≤◌, ◌<◌, ◌≡◌, ◌∙◌, refl, sym, subst, String, false, inl, inr, List, [],
  ◌∷◌, arith, str_eq, eq_iff, Bool-cases,
}
use codex_provider.ClientLimit.{ClientLimits, entry, admit_client, count_client, new}
use codex_provider.ClientLimit.Effect.{
  Only, admit_client_effect, count_client_effect, drop_permit_effect,
}
use codex_provider.ClientLimit.World.{
  World, Event, admits, counts, drops, step, run, fresh, after_admit, after_count, after_drop,
  holds, release_one,
}

-- The entry of `key` counts the permits held for it, and there are no more than the limit.
record Counted (key : String) (limit : ℕ) (w : World) : Type 0 where
  same_limit : w.limits.max_in_flight ≡ limit
  exact : (entry w.limits key).in_flight ≡ holds key w.held
  bounded : holds key w.held ≤ limit

holds-release_self :
    (key : String) (held : List String) → holds key (release_one key held) ≡ holds key held - 1
unfolding holds release_one
holds-release_self key [] = omega arith
holds-release_self key (k ∷ ks) = elim (Bool-cases (str_eq k key)) [
  | inl same ↦ rw same (omega arith)
  | inr other ↦ rw (other, other) (holds-release_self key ks)
]

holds-release_ne :
    (key j : String) (held : List String)
    → str_eq j key ≡ false
    → holds key (release_one j held) ≡ holds key held
unfolding holds release_one
holds-release_ne key j [] h = refl
holds-release_ne key j (k ∷ ks) h =
    ground (arith, eq_iff k j, eq_iff k key, eq_iff j key, holds-release_ne key j ks)

module _ (key k : String) (limit now : ℕ) (w : World) (c : Counted key limit w) where
  -- A change of the entry of `k` that keeps its count.
  keep-Counted :
      {l' : ClientLimits} (log : List (String × ℕ))
      → Only k w.limits l'
      → (entry l' k).in_flight ≡ (entry w.limits k).in_flight
      → Counted key limit (record { limits = l'; granted = log; held = w.held })
  keep-Counted {l'} log only same = record {
    same_limit = cc (only.flight_limit, c.same_limit);
    exact = elim (Bool-cases (str_eq k key)) [
      | inl e ↦ let eq = (eq_iff k key).0 e in (rw eq at same) ∙ c.exact
      | inr e ↦ rw (only.others key e) c.exact
    ];
    bounded = c.bounded;
  }

  admit-Counted :
      {l' : ClientLimits} (log : List (String × ℕ))
      → Only k w.limits l'
      → (entry l' k).in_flight ≡ (entry w.limits k).in_flight + 1
      → (entry w.limits k).in_flight < w.limits.max_in_flight
      → Counted key limit (record { limits = l'; granted = log; held = k ∷ w.held })
  unfolding holds
  admit-Counted {l'} log only more room = elim (Bool-cases (str_eq k key)) [
    | inl e ↦
        let eq = (eq_iff k key).0 e in
        let more' : (entry l' key).in_flight ≡ (entry w.limits key).in_flight + 1 = rw eq at more in
        let room' : (entry w.limits key).in_flight < w.limits.max_in_flight = rw eq at room in
        record {
          same_limit = cc (only.flight_limit, c.same_limit);
          exact = rw e (omega (arith, c.exact));
          bounded = rw e (omega (arith, c.exact, c.same_limit));
        }
    | inr e ↦ record {
      same_limit = cc (only.flight_limit, c.same_limit);
      exact = rw (e, only.others key e) c.exact;
      bounded = rw e c.bounded;
    }
  ]

  drop-Counted : (n : ℕ) → Counted key limit (after_drop w k n)
  unfolding after_drop
  drop-Counted zero = c
  drop-Counted (suc n) =
      let (only, _, less) = drop_permit_effect w.limits k in
      elim (Bool-cases (str_eq k key)) [
        | inl e ↦
            let (own, _, fewer) = drop_permit_effect w.limits key in
            rw ((eq_iff k key).0 e) (record {
              same_limit = cc (own.flight_limit, c.same_limit);
              exact = omega (arith, fewer, c.exact, holds-release_self key w.held);
              bounded = omega (arith, c.bounded, holds-release_self key w.held);
            })
        | inr e ↦ record {
          same_limit = cc (only.flight_limit, c.same_limit);
          exact = rw (only.others key e, holds-release_ne key k w.held e) c.exact;
          bounded = rw (holds-release_ne key k w.held e) c.bounded;
        }
      ]

step-Counted :
    (key : String) (limit now : ℕ) (w : World) (e : Event)
    → Counted key limit w
    → Counted key limit (step w now e)
unfolding step after_admit after_count
step-Counted key limit now w (admits k) c =
    let (l', r) = admit_client w.limits k now in
    let (only, cases) = admit_client_effect w.limits k now in
    elim cases [
      | inl (res, _, more, room) ↦
          subst (λ x. Counted key limit (after_admit w k now (l', x))) (sym res)
            (admit-Counted key k limit now w c _ only more room)
      | inr (held, res, _, same) ↦
          subst (λ x. Counted key limit (after_admit w k now (l', x))) (sym res)
            (keep-Counted key k limit now w c _ only same)
    ]
step-Counted key limit now w (counts k) c =
    let (l', r) = count_client w.limits k now in
    let (only, same, cases) = count_client_effect w.limits k now in
    elim cases [
      | inl (res, _) ↦
          subst (λ x. Counted key limit (after_count w k now (l', x))) (sym res)
            (keep-Counted key k limit now w c _ only same)
      | inr (held, res, _) ↦
          subst (λ x. Counted key limit (after_count w k now (l', x))) (sym res)
            (keep-Counted key k limit now w c _ only same)
    ]
step-Counted key limit now w (drops k) c = drop-Counted key k limit now w c (holds k w.held)

run-Counted :
    (key : String) (limit : ℕ) (w : World) (es : List (ℕ × Event))
    → Counted key limit w
    → Counted key limit (run w es)
unfolding run
run-Counted key limit w [] c = c
run-Counted key limit w ((now, e) ∷ es) c =
    run-Counted key limit (step w now e) es (step-Counted key limit now w e c)

-- Whatever the clients ask and in whatever order permits are dropped, the in-flight count of a key
-- is the number of its permits that are still held, and that is at most `max_in_flight`.
pub run-in_flight :
    (f m : ℕ) (es : List (ℕ × Event)) (key : String)
    → let w = run (fresh f m) es in
      ((entry w.limits key).in_flight ≡ holds key w.held) × (holds key w.held ≤ f)
unfolding fresh new get holds
run-in_flight f m es key =
    let c =
      run-Counted key f (fresh f m) es
        (record { same_limit = refl; exact = refl; bounded = omega arith }) in
    (c.exact, c.bounded)
