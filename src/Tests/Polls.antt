-- ===== src/Tests/Polls.antt =====
-- The schedule of quota_schedule.rs on two accounts, with a random source that gives the least gap.
use codex_provider.Base.Maps.{get}
use codex_provider.Base.{
  ℕ, ◌+◌, ◌-◌, ◌≤◌, ◌<◌, ◌≡◌, refl, String, true, false, none, some, [], ◌∷◌, All, Mem, Memᴰ, arith,
}
use codex_provider.Schedule.{
  PollPlan, QuotaPollSchedule, interval, jitter, longest_interval, idle_min_interval,
  idle_max_interval, at_of, due, polled, wake_at, wake_delay_min, wake_delay_max,
}
use codex_provider.Schedule.Due.{due-overdue, due-none, due-planned, polled-next_at, IsBetween}

abbrev least_draw : ℕ → ℕ
least_draw n = 0

abbrev plan_at : ℕ → PollPlan
plan_at t = record {
  first = t;
  last = none;
  active_gap = 0;
  idle_gap = 0;
  wake = none;
  poll_before = none;
}

abbrev two : QuotaPollSchedule
two = record { plans = ("ann", plan_at 20) ∷ ("bob", plan_at 10) ∷ []; drawn = 0 }

bob_due : (due least_draw two 30 ("ann" ∷ "bob" ∷ []) (λ _. true)).1 ≡ some "bob"
unfolding due
bob_due = refl

due-overdue_example :
    let at = at_of (due least_draw two 30 ("ann" ∷ "bob" ∷ []) (λ _. true)).0.plans (λ _. true) in
    Mem {A = String} "bob" ("ann" ∷ "bob" ∷ [])
    × (at "bob" ≤ 30)
    × All (λ j. at "bob" ≤ at j) ("ann" ∷ "bob" ∷ [])
due-overdue_example = due-overdue least_draw two 30 ("ann" ∷ "bob" ∷ []) (λ _. true) "bob" bob_due

none-due : (due least_draw two 5 ("ann" ∷ "bob" ∷ []) (λ _. true)).1 ≡ none
unfolding due
none-due = refl

due-none_example :
    All
      (λ j. 5 < at_of (due least_draw two 5 ("ann" ∷ "bob" ∷ []) (λ _. true)).0.plans (λ _. true) j)
      ("ann" ∷ "bob" ∷ [])
due-none_example = due-none least_draw two 5 ("ann" ∷ "bob" ∷ []) (λ _. true) none-due

polled-next_at_example :
    let t = polled least_draw two "ann" 100 in
    let u = wake_at least_draw t "ann" 5000 in
    IsBetween (100 + (interval - jitter)) (100 + longest_interval) (at_of t.plans (λ _. true) "ann")
    × IsBetween
        (100 + (interval - jitter))
        (100 + longest_interval)
        (at_of u.plans (λ _. true) "ann")
    × IsBetween
        (100 + idle_min_interval)
        (100 + idle_max_interval)
        (at_of t.plans (λ _. false) "ann")
    × IsBetween (5000 + wake_delay_min) (5000 + wake_delay_max) (at_of u.plans (λ _. false) "ann")
polled-next_at_example = polled-next_at least_draw two "ann" 100 5000 (λ n. omega arith)

-- `eve` is seen for the first time.
due-planned_example :
    (plan : PollPlan) × (get "eve" (due least_draw two 5 ("ann" ∷ "eve" ∷ []) (λ _. true)).0.plans
      ≡ some plan)
due-planned_example =
    due-planned least_draw two 5 ("ann" ∷ "eve" ∷ []) (λ _. true) "eve" (Memᴰ.tail (Memᴰ.head refl))
