-- ===== src/Schedule/Due.antt =====
-- upstream/src/pool/quota_schedule.rs: which account `due` names, and when a polled one comes again.
use codex_provider.Base.Maps.{Map, get, insert, get-insert_self, get-insert_ne}
use codex_provider.Base.{
  ℕ, zero, suc, ◌+◌, ◌-◌, ◌*◌, ◌/◌, ◌≤◌, ◌<◌, ◌≡◌, refl, sym, ap, ◌∙◌, subst, String, Bool, true,
  false, Option, none, some, List, [], ◌∷◌, All, All-mono, Mem, Memᴰ, any, ◌||◌, mem_first,
  mem_rest, arith, ltb, str_eq, eq_iff, eq_refl, Bool-cases, Option-cases, inl, inr,
}
use codex_provider.Plan.{among}
use codex_provider.Schedule.{
  PollPlan, QuotaPollSchedule, interval, jitter, longest_interval, idle_min_interval,
  idle_max_interval, next_at, at_of, overdue, name_of, due, polled, wake_at, wake_delay_min,
  wake_delay_max, between, parts, first_plan, add_one, add_missing, retain_listed,
}

module _ (now : ℕ) (at : String → ℕ) (all : List String) where
  -- What the loop knows of its best account.
  Best : Option (String × ℕ) → Type 0
  Best none = Unit
  Best (some (b, t)) = (at b ≡ t) × (t ≤ now) × Mem b all

  -- What it has found after a list: the best so far is no later than any of it, or none is due.
  Found : Option (String × ℕ) → Option (String × ℕ) → List String → Type 0
  unfolding Best
  Found none none ids = All (λ j. now < at j) ids
  Found (some best) none ids = ⊥
  Found none (some (b, t)) ids = Best (some (b, t)) × All (λ j. t ≤ at j) ids
  Found (some (c, u)) (some (b, t)) ids = Best (some (b, t)) × All (λ j. t ≤ at j) ids × (t ≤ u)

  later-Found :
      (best r : Option (String × ℕ)) (id : String) (ids : List String)
      → now < at id
      → Found best r ids
      → Found best r (id ∷ ids)
  unfolding Found Best
  later-Found none none id ids l f = (l, f)
  later-Found (some best) none id ids l f = f
  later-Found none (some (b, t)) id ids l (h, f) = (h, (omega (arith, l, h.1), f))
  later-Found (some (c, u)) (some (b, t)) id ids l (h, f, le) = (h, (omega (arith, l, h.1), f), le)

  -- A due account is the best so far, or the one before it is no later.
  first-Found :
      (r : Option (String × ℕ)) (id : String) (ids : List String)
      → Found (some (id, at id)) r ids
      → Found none r (id ∷ ids)
  unfolding Found Best
  first-Found none id ids f = absurd f
  first-Found (some (b, t)) id ids (h, f, le) = (h, (le, f))

  sooner-Found :
      (c : String) (u : ℕ) (r : Option (String × ℕ)) (id : String) (ids : List String)
      → at id ≤ u
      → Found (some (id, at id)) r ids
      → Found (some (c, u)) r (id ∷ ids)
  unfolding Found Best
  sooner-Found c u none id ids l f = f
  sooner-Found c u (some (b, t)) id ids l (h, f, le) = (h, (le, f), omega (arith, le, l))

  kept-Found :
      (c : String) (u : ℕ) (r : Option (String × ℕ)) (id : String) (ids : List String)
      → u ≤ at id
      → Found (some (c, u)) r ids
      → Found (some (c, u)) r (id ∷ ids)
  unfolding Found Best
  kept-Found c u none id ids l f = f
  kept-Found c u (some (b, t)) id ids l (h, f, le) = (h, (omega (arith, le, l), f), le)

  overdue-Found :
      (ids : List String) (best : Option (String × ℕ))
      → ((j : String) → Mem j ids → Mem j all)
      → Best best
      → Found best (overdue now at best ids) ids
  unfolding Found Best overdue
  overdue-Found [] none sub h = tt
  overdue-Found [] (some (c, u)) sub h = (h, tt, omega arith)
  overdue-Found (id ∷ ids) none sub h = elim (Bool-cases (ltb now (at id))) [
    | inl e ↦ rw e (
        later-Found none _ id ids (ground arith)
          (overdue-Found ids none (λ j m. sub j (mem_rest m)) h))
    | inr e ↦ rw e (
        first-Found _ id ids (
          overdue-Found ids (some (id, at id)) (λ j m. sub j (mem_rest m))
            (refl, ground arith, sub id (mem_first id ids))))
  ]
  overdue-Found (id ∷ ids) (some (c, u)) sub h = elim (Bool-cases (ltb now (at id))) [
    | inl e ↦ rw e (
        later-Found (some (c, u)) _ id ids (ground arith)
          (overdue-Found ids (some (c, u)) (λ j m. sub j (mem_rest m)) h))
    | inr e ↦ elim (Bool-cases (ltb (at id) u)) [
      | inl f ↦
          rw (e, f)
            (sooner-Found c u _ id ids (ground arith) (
              overdue-Found ids (some (id, at id)) (λ j m. sub j (mem_rest m))
                (refl, ground arith, sub id (mem_first id ids))))
      | inr f ↦
          rw (e, f)
            (kept-Found c u _ id ids (ground arith)
              (overdue-Found ids (some (c, u)) (λ j m. sub j (mem_rest m)) h))
    ]
  ]

  named-Found :
      (r : Option (String × ℕ)) (id : String)
      → name_of r ≡ some id
      → Found none r all
      → Mem id all × (at id ≤ now) × All (λ j. at id ≤ at j) all
  unfolding Found Best
  named-Found none id e f = cc
  named-Found (some (b, t)) id e (h, f) =
      let same : b ≡ id = ground arith in
      let when : at id ≡ t = ap at (sym same) ∙ h.0 in
      (
        subst (λ i. Mem i all) same h.2,
        omega (arith, when, h.1),
        All-mono (λ j le. omega (arith, when, le)) all f,
      )

  unnamed-Found :
      (r : Option (String × ℕ)) → name_of r ≡ none → Found none r all → All (λ j. now < at j) all
  unfolding Found
  unnamed-Found none e f = f
  unnamed-Found (some (b, t)) e f = cc

module _ (random : ℕ → ℕ) (s : QuotaPollSchedule) (now : ℕ) (ids : List String)
    (active : String → Bool) where
  -- The account that `due` names is a listed one that is due, and the one most overdue: no listed
  -- account has an earlier next poll.
  pub due-overdue :
      (id : String)
      → (due random s now ids active).1 ≡ some id
      → let at = at_of (due random s now ids active).0.plans active in
        Mem id ids × (at id ≤ now) × All (λ j. at id ≤ at j) ids
  unfolding due Best
  due-overdue id e =
      let at = at_of (due random s now ids active).0.plans active in
      named-Found now at ids _ id e (overdue-Found now at ids ids none (λ j m. m) tt)

  -- Where `due` names no account, no listed account is due.
  pub due-none :
      (due random s now ids active).1 ≡ none
      → All (λ j. now < at_of (due random s now ids active).0.plans active j) ids
  unfolding due Best
  due-none e =
      let at = at_of (due random s now ids active).0.plans active in
      unnamed-Found now at ids _ e (overdue-Found now at ids ids none (λ j m. m) tt)

-- A listed account's plan is the one it had before the others were forgotten.
get-retain_listed :
    (ids : List String) (m : Map PollPlan) (j : String)
    → among j ids ≡ true
    → get j (retain_listed ids m) ≡ get j m
unfolding get retain_listed
get-retain_listed ids [] j h = refl
get-retain_listed ids ((i, plan) ∷ m) j h = elim (Bool-cases (str_eq i j)) [
  | inl e ↦
      let listed = subst (λ k. among k ids ≡ true) (sym ((eq_iff i j).0 e)) h in rw (listed, e) refl
  | inr e ↦ elim (Bool-cases (among i ids)) [
    | inl f ↦ rw (f, e) (get-retain_listed ids m j h)
    | inr f ↦ rw (f, e) (get-retain_listed ids m j h)
  ]
]

-- An account has a plan.
Planned : String → QuotaPollSchedule → Type 0
unfolding get
Planned j s = (plan : PollPlan) × (get j s.plans ≡ some plan)

listed-among : (j : String) (ids : List String) → Memᴰ j ids → among j ids ≡ true
unfolding any
listed-among j [] m = elim m [ ]
listed-among j (id ∷ ids) (Memᴰ.head e) = rw (← e, eq_refl j) refl
listed-among j (id ∷ ids) (Memᴰ.tail m) = or_true (str_eq id j) (listed-among j ids m)
  where
    or_true : (x : Bool) {y : Bool} → y ≡ true → x || y ≡ true
    or_true true h = refl
    or_true false h = h

module _ (random : ℕ → ℕ) (now : ℕ) where
  add_one-some :
      (id : String) (s : QuotaPollSchedule) (plan : PollPlan)
      → get id s.plans ≡ some plan
      → add_one random now id s ≡ s
  unfolding add_one
  add_one-some id s plan e = rw (e, add_one) refl

  add_one-none :
      (id : String) (s : QuotaPollSchedule)
      → get id s.plans ≡ none
      → (add_one random now id s).plans ≡ insert id (first_plan random now s.drawn) s.plans
  unfolding add_one
  add_one-none id s e = rw (e, add_one) refl

  add_one_self : (id : String) (s : QuotaPollSchedule) → Planned id (add_one random now id s)
  unfolding Planned
  add_one_self id s = elim (Option-cases (get id s.plans)) [
    | inl e ↦ (
      first_plan random now s.drawn,
      ap (get id) (add_one-none id s e)
          ∙ get-insert_self id (first_plan random now s.drawn) s.plans,
    )
    | inr (plan, e) ↦ (plan, ap (λ t. get id t.plans) (add_one-some id s plan e) ∙ e)
  ]

  add_one-Planned :
      (id j : String) (s : QuotaPollSchedule) → Planned j s → Planned j (add_one random now id s)
  unfolding Planned
  add_one-Planned id j s (v, h) = elim (Option-cases (get id s.plans)) [
    | inr (plan, e) ↦ (v, ap (λ t. get j t.plans) (add_one-some id s plan e) ∙ h)
    | inl e ↦ elim (Bool-cases (str_eq id j)) [
      | inl same ↦ absurd (cc (rw ((eq_iff id j).0 same) at e, h))
      | inr other ↦ (
        v,
        ap (get j) (add_one-none id s e)
            ∙ get-insert_ne id j (first_plan random now s.drawn) s.plans other
            ∙ h,
      )
    ]
  ]

  add_missing-Planned :
      (ids : List String) (j : String) (s : QuotaPollSchedule)
      → Planned j s
      → Planned j (add_missing random now ids s)
  unfolding add_missing
  add_missing-Planned [] j s h = h
  add_missing-Planned (id ∷ ids) j s h =
      add_missing-Planned ids j (add_one random now id s) (add_one-Planned id j s h)

  add_missing-listed :
      (ids : List String) (j : String) (s : QuotaPollSchedule)
      → Memᴰ j ids
      → Planned j (add_missing random now ids s)
  unfolding add_missing
  add_missing-listed [] j s m = elim m [ ]
  add_missing-listed (id ∷ ids) j s (Memᴰ.head e) =
      add_missing-Planned ids j (add_one random now id s)
        (subst (λ k. Planned k (add_one random now id s)) (sym e) (add_one_self id s))
  add_missing-listed (id ∷ ids) j s (Memᴰ.tail m) =
      add_missing-listed ids j (add_one random now id s) m

-- Every listed account has a plan when `due` looks for the most overdue one, so the index of the
-- plans does not fail.
pub due-planned :
    (random : ℕ → ℕ) (s : QuotaPollSchedule) (now : ℕ) (ids : List String) (active : String → Bool)
    (j : String)
    → Memᴰ j ids
    → (plan : PollPlan) × (get j (due random s now ids active).0.plans ≡ some plan)
unfolding due Planned
due-planned random s now ids active j m =
    let (plan, h) = add_missing-listed random now ids j s m in
    (plan, get-retain_listed ids (add_missing random now ids s).plans j (listed-among j ids m) ∙ h)

plan_after : (ℕ → ℕ) → ℕ → ℕ → PollPlan
plan_after random n finished = record {
  first = finished;
  last = some finished;
  active_gap = between random n (interval - jitter) longest_interval;
  idle_gap = between random (suc n) idle_min_interval idle_max_interval;
  wake = none;
  poll_before = none;
}

polled_plan :
    (random : ℕ → ℕ) (s : QuotaPollSchedule) (id : String) (finished : ℕ)
    → get id (polled random s id finished).plans ≡ some (plan_after random s.drawn finished)
unfolding polled plan_after
polled_plan random s id finished = get-insert_self id (plan_after random s.drawn finished) s.plans

woken_plan :
    (random : ℕ → ℕ) (t : QuotaPollSchedule) (id : String) (reset : ℕ) (plan : PollPlan)
    → get id t.plans ≡ some plan
    → get id (wake_at random t id reset).plans
      ≡ some (record plan {
        wake = some (reset + between random t.drawn wake_delay_min wake_delay_max);
      })
unfolding wake_at
woken_plan random t id reset plan e = rw (e, wake_at) (get-insert_self id _ t.plans)

-- What `between` gives is between its bounds.
abbrev pub IsBetween : ℕ → ℕ → ℕ → Type 0
IsBetween low high n = (low ≤ n) × (n ≤ high)

times-le : (width r most : ℕ) → r ≤ most → width * r ≤ width * most
times-le zero r most h = omega arith
times-le (suc width) r most h = omega (arith, times-le width r most h, h)

part-le : (width r : ℕ) → r < parts → width * r / parts ≤ width
part-le width r h = omega (arith, times-le width r parts (omega (arith, h)))

between-bounds :
    (random : ℕ → ℕ) (n low high : ℕ)
    → low ≤ high
    → random n < parts
    → IsBetween low high (between random n low high)
unfolding between
between-bounds random n low high le h = (
  omega (arith, part-le (high - low) (random n) h),
  omega (arith, le, part-le (high - low) (random n) h),
)

-- Where the random numbers are below one: an account that was polled is polled again between four and
-- six minutes later while it is in use. While it is idle, it is between six and eight hours later as
-- long as its reset is not known, and between one and ten minutes after the reset once that is told.
pub polled-next_at :
    (random : ℕ → ℕ) (s : QuotaPollSchedule) (id : String) (finished reset : ℕ)
    → ((n : ℕ) → random n < parts)
    → let t = polled random s id finished in
      let u = wake_at random t id reset in
      IsBetween
        (finished + (interval - jitter))
        (finished + longest_interval)
        (at_of t.plans (λ _. true) id)
      × IsBetween
          (finished + (interval - jitter))
          (finished + longest_interval)
          (at_of u.plans (λ _. true) id)
      × IsBetween
          (finished + idle_min_interval)
          (finished + idle_max_interval)
          (at_of t.plans (λ _. false) id)
      × IsBetween (reset + wake_delay_min) (reset + wake_delay_max) (at_of u.plans (λ _. false) id)
unfolding at_of next_at plan_after
polled-next_at random s id finished reset below =
    let t = polled random s id finished in
    let quick =
      between-bounds random s.drawn (interval - jitter) longest_interval (omega arith)
        (below s.drawn) in
    let slow =
      between-bounds random (suc s.drawn) idle_min_interval idle_max_interval (omega arith)
        (below (suc s.drawn)) in
    let woken =
      between-bounds random t.drawn wake_delay_min wake_delay_max (omega arith) (below t.drawn) in
    let plan = polled_plan random s id finished in
    rw (plan, woken_plan random t id reset _ plan, at_of)
      (
        (omega (arith, quick.0), omega (arith, quick.1)),
        (omega (arith, quick.0), omega (arith, quick.1)),
        (omega (arith, slow.0), omega (arith, slow.1)),
        (omega (arith, woken.0), omega (arith, woken.1)),
      )
