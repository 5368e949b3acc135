-- ===== src/Proxy/Refusals.antt =====
-- Which accounts a request of upstream/src/pool/proxy.rs keeps excluded over the rounds of its loop.
use codex_provider.Base.{
  ◌≡◌, ◌∙◌, refl, sym, ap, String, Bool, true, false, ◌||◌, not, [], ◌∷◌, filter, arith, any,
  Bool-cases, inl, inr, str_eq, eq_iff, eq_refl,
}
use codex_provider.Select.{Excluded, is_excluded}
use codex_provider.Outcome.Whole.{exclude, restore}
use codex_provider.Proxy.{
  Tuning, Answer, answered, unreachable, credential_unusable, client_closed, incompletable,
}
use codex_provider.Proxy.Moves.{
  View, Move, fails_for_good, lacks_capacity, is_overloaded, is_unreachable,
}

-- An account refused the request, and not for capacity.
abbrev pub Refused : String → View → Type 0
Refused other v =
    (is_excluded v.excluded other ≡ true) × (is_excluded v.capacity_excluded other ≡ false)

module _ (id other : String) (apart : str_eq id other ≡ false) where
  exclude-is_excluded :
      (ids : Excluded) → is_excluded (exclude id ids) other ≡ is_excluded ids other
  unfolding exclude is_excluded any
  exclude-is_excluded ids = elim (Bool-cases (any (λ x. str_eq x id) ids)) [
    | inl e ↦ rw e refl
    | inr e ↦ rw (e, apart) refl
  ]

  filter-is_excluded :
      (ids : Excluded)
      → is_excluded (filter (λ x. not (str_eq x id)) ids) other ≡ is_excluded ids other
  unfolding filter is_excluded any
  filter-is_excluded [] = refl
  filter-is_excluded (x ∷ xs) = elim (Bool-cases (str_eq x id)) [
    | inl e ↦
        let same : x ≡ id = (eq_iff x id).0 e in
        rw e (filter-is_excluded xs ∙ sym (rw (same, apart) refl))
    | inr e ↦ rw e (ap (λ b. str_eq x other || b) (filter-is_excluded xs))
  ]

restore-is_excluded :
    (other : String) (ids excluded : Excluded)
    → is_excluded ids other ≡ false
    → is_excluded (restore ids excluded).0 other ≡ is_excluded excluded other
unfolding restore is_excluded any
restore-is_excluded other [] excluded e = refl
restore-is_excluded other (id ∷ ids) excluded e =
    let (apart, others) = neither (str_eq id other) (is_excluded ids other) e in
    elim (Bool-cases (is_excluded excluded id)) [
      | inl f ↦ rw f (
          restore-is_excluded other ids (filter (λ x. not (str_eq x id)) excluded) others
          ∙ filter-is_excluded id other apart excluded)
      | inr f ↦ rw f (restore-is_excluded other ids excluded others)
    ]
  where
    neither : (a b : Bool) → a || b ≡ false → (a ≡ false) × (b ≡ false)
    neither true b e = cc
    neither false b e = (refl, e)

no_one : (x : String) → is_excluded [] x ≡ false
unfolding is_excluded any
no_one x = refl

pub tried_apart :
    (id other : String) (ids : Excluded)
    → is_excluded ids id ≡ false
    → is_excluded ids other ≡ true
    → str_eq id other ≡ false
tried_apart id other ids fresh tried = elim (Bool-cases (str_eq id other)) [
  | inr e ↦ e
  | inl e ↦
      let same : id ≡ other = (eq_iff id other).0 e in
      absurd (ground (arith, rw same at fresh, tried))
]

-- A round on an account that the request had not tried leaves every account excluded that refused
-- the request, unless it did so for capacity.
pub Move-Refused :
    (tuning : Tuning) (id other : String) (answer : Answer) (v w : View)
    → is_excluded v.excluded id ≡ false
    → Move tuning id answer v w
    → Refused other v
    → Refused other w
Move-Refused tuning id other answer v w fresh (Move.transport_again a h) r = r
Move-Refused tuning id other answer v w fresh (Move.overload_again a h) r = r
Move-Refused tuning id other answer v w fresh (Move.refused a) r =
    let apart = tried_apart id other v.excluded fresh r.0 in
    (exclude-is_excluded id other apart v.excluded ∙ r.0, r.1)
Move-Refused tuning id other answer v w fresh (Move.at_capacity a) r =
    let apart = tried_apart id other v.excluded fresh r.0 in
    (
      exclude-is_excluded id other apart v.excluded ∙ r.0,
      exclude-is_excluded id other apart v.capacity_excluded ∙ r.1,
    )
Move-Refused tuning id other answer v w fresh (Move.waits a h) r =
    let apart = tried_apart id other v.excluded fresh r.0 in
    let capacity = exclude-is_excluded id other apart v.capacity_excluded ∙ r.1 in
    (
      restore-is_excluded other (exclude id v.capacity_excluded) (exclude id v.excluded) capacity
          ∙ exclude-is_excluded id other apart v.excluded
          ∙ r.0,
      no_one other,
    )

-- An exclusion adds one account and no other.
exclude-or :
    (id x : String) (ids : Excluded)
    → is_excluded (exclude id ids) x ≡ str_eq id x || is_excluded ids x
unfolding exclude is_excluded any
exclude-or id x ids = elim (Bool-cases (any (λ y. str_eq y id) ids)) [
  | inr e ↦ rw e refl
  | inl e ↦ elim (Bool-cases (str_eq id x)) [
    | inr f ↦ rw (e, f) refl
    | inl f ↦
        let same : id ≡ x = (eq_iff id x).0 f in
        rw (e, f) (ap (λ y. any (λ z. str_eq z y) ids) (sym same) ∙ e)
  ]
]

-- Every account that refused for capacity is excluded.
abbrev pub Among : View → Type 0
Among v = (x : String) → is_excluded v.capacity_excluded x ≡ true → is_excluded v.excluded x ≡ true

pub empty-Among : (v : View) → v.capacity_excluded ≡ [] → Among v
empty-Among v e = λ x h. absurd (cc (no_one x, rw e at h))

grows :
    (id : String) (ids more : Excluded)
    → ((x : String) → is_excluded ids x ≡ true → is_excluded more x ≡ true)
    → (x : String) → is_excluded ids x ≡ true
    → is_excluded (exclude id more) x ≡ true
grows id ids more sub x e = exclude-or id x more ∙ either (str_eq id x) (sub x e)
  where
    either : (b : Bool) {c : Bool} → c ≡ true → b || c ≡ true
    either true h = refl
    either false h = h

both_grow :
    (id : String) (ids more : Excluded)
    → ((x : String) → is_excluded ids x ≡ true → is_excluded more x ≡ true)
    → (x : String) → is_excluded (exclude id ids) x ≡ true
    → is_excluded (exclude id more) x ≡ true
both_grow id ids more sub x e =
    exclude-or id x more
    ∙ widen (str_eq id x) (is_excluded ids x) (is_excluded more x) (sub x)
        (sym (exclude-or id x ids) ∙ e)
  where
    widen : (b c d : Bool) → (c ≡ true → d ≡ true) → b || c ≡ true → b || d ≡ true
    widen true c d f h = refl
    widen false c d f h = f h

pub Move-Among :
    (tuning : Tuning) (id : String) (answer : Answer) (v w : View)
    → Move tuning id answer v w
    → Among v
    → Among w
Move-Among tuning id answer v w (Move.transport_again a h) sub = sub
Move-Among tuning id answer v w (Move.overload_again a h) sub = sub
Move-Among tuning id answer v w (Move.refused a) sub = grows id v.capacity_excluded v.excluded sub
Move-Among tuning id answer v w (Move.at_capacity a) sub =
    both_grow id v.capacity_excluded v.excluded sub
Move-Among tuning id answer v w (Move.waits a h) sub = λ x e. absurd (cc (no_one x, e))

-- A failure for good is no other kind of answer.
for_good_only :
    (answer : Answer)
    → fails_for_good answer ≡ true
    → (is_unreachable answer ≡ false)
      × (is_overloaded answer ≡ false)
      × (lacks_capacity answer ≡ false)
for_good_only client_closed e = cc
for_good_only credential_unusable e = (refl, refl, refl)
for_good_only (unreachable waited) e = cc
for_good_only (incompletable error) e = cc
for_good_only (answered r) e = (refl, rw e refl, rw e refl)

-- After a failure for good of an account that the request had not tried, the account has refused.
pub Move-for_good :
    (tuning : Tuning) (id : String) (answer : Answer) (v w : View)
    → fails_for_good answer ≡ true
    → is_excluded v.excluded id ≡ false
    → Among v
    → Move tuning id answer v w
    → Refused id w
Move-for_good tuning id answer v w bad fresh sub (Move.transport_again a h) =
    absurd (cc ((for_good_only answer bad).0, a))
Move-for_good tuning id answer v w bad fresh sub (Move.overload_again a h) =
    absurd (cc ((for_good_only answer bad).1, a))
Move-for_good tuning id answer v w bad fresh sub (Move.at_capacity a) =
    absurd (cc ((for_good_only answer bad).2, a))
Move-for_good tuning id answer v w bad fresh sub (Move.waits a h) =
    absurd (cc ((for_good_only answer bad).2, a))
Move-for_good tuning id answer v w bad fresh sub (Move.refused a) = (
  exclude-or id id v.excluded ∙ rw (eq_refl id) refl,
  elim (Bool-cases (is_excluded v.capacity_excluded id)) [
    | inr e ↦ e
    | inl e ↦ absurd (cc (sub id e, fresh))
  ],
)
