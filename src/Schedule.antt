-- ===== src/Schedule.antt =====
-- upstream/src/pool/quota_schedule.rs: when each account's quota is polled. An `Instant` and a
-- `Duration` are nanoseconds. The random source is a parameter: its n-th number, uniform in [0, 1) in
-- the source, is `random n` of 2 ^ 53 parts of one, and the schedule counts the calls.
pub mod Due
use codex_provider.Base.Maps.{Map, get, insert}
use codex_provider.Base.{
  ℕ, zero, suc, ◌+◌, ◌-◌, ◌*◌, ◌/◌, String, Bool, true, false, Option, none, some, List, [], ◌∷◌,
  any, ltb, if◌then◌else◌, unwrap_or,
}
use codex_provider.Time.{seconds, minutes, hours}
use codex_provider.Plan.{among}

abbrev pub interval : ℕ
interval = minutes 5

abbrev pub jitter : ℕ
jitter = minutes 1

abbrev pub longest_interval : ℕ
longest_interval = interval + jitter

abbrev pub idle_min_interval : ℕ
idle_min_interval = hours 6

abbrev pub idle_max_interval : ℕ
idle_max_interval = hours 8

abbrev pub wake_delay_min : ℕ
wake_delay_min = seconds 60

abbrev pub wake_delay_max : ℕ
wake_delay_max = minutes 10

abbrev pub start_spread : ℕ
start_spread = minutes 2

pub record PollPlan : Type 0 where
  pub first : ℕ
  pub last : Option ℕ
  pub active_gap : ℕ
  pub idle_gap : ℕ
  pub wake : Option ℕ
  pub poll_before : Option ℕ

unfoldable pub next_at : PollPlan → Bool → ℕ
next_at plan active =
    let next : ℕ = (elim plan.last [
      | none ↦ plan.first
      | some last ↦
          if active then last + plan.active_gap else unwrap_or plan.wake (last + plan.idle_gap)
    ]) in
    elim plan.poll_before [ none ↦ next | some at ↦ if ltb at next then at else next ]

pub record QuotaPollSchedule : Type 0 where
  pub plans : Map PollPlan
  pub drawn : ℕ

-- `self.plans.retain(|id, _| listed.contains(id))`.
unfoldable pub retain_listed : List String → Map PollPlan → Map PollPlan
unfolding any
retain_listed ids [] = []
retain_listed ids ((j, plan) ∷ m) =
    if among j ids then (j, plan) ∷ retain_listed ids m else retain_listed ids m

-- The time of the next poll of a listed account. `due` gives every listed account a plan first; the
-- index of a missing plan, at which the source panics, is 0 here.
unfoldable pub at_of : Map PollPlan → (String → Bool) → String → ℕ
unfolding get next_at
at_of plans active id = elim (get id plans) [ none ↦ 0 | some plan ↦ next_at plan (active id) ]

-- The loop that finds the most overdue account.
unfoldable pub overdue : ℕ → (String → ℕ) → Option (String × ℕ) → List String → Option (String × ℕ)
overdue now at best [] = best
overdue now at best (id ∷ ids) =
    let better : Option (String × ℕ) = (elim best [
      | none ↦ some (id, at id)
      | some (b, b_at) ↦ if ltb (at id) b_at then some (id, at id) else some (b, b_at)
    ]) in
    overdue now at (if ltb now (at id) then best else better) ids

abbrev pub name_of : Option (String × ℕ) → Option String
name_of none = none
name_of (some (id, at)) = some id

-- The parts of one that a random number is told in.
abbrev pub parts : ℕ
parts = 9007199254740992

-- `between`; a fraction of a nanosecond is dropped.
unfoldable pub between : (ℕ → ℕ) → ℕ → ℕ → ℕ → ℕ
between random n low high = low + (high - low) * random n / parts

module _ (random : ℕ → ℕ) where
  -- The plan of an account that is seen for the first time.
  abbrev pub first_plan : ℕ → ℕ → PollPlan
  first_plan now drawn = record {
    first = now + between random drawn 0 start_spread;
    last = none;
    active_gap = 0;
    idle_gap = 0;
    wake = none;
    poll_before = none;
  }

  unfoldable pub add_one : ℕ → String → QuotaPollSchedule → QuotaPollSchedule
  unfolding get insert between
  add_one now id s = elim (get id s.plans) [
    | some plan ↦ s
    | none ↦ record { plans = insert id (first_plan now s.drawn) s.plans; drawn = suc s.drawn }
  ]

  unfoldable pub add_missing : ℕ → List String → QuotaPollSchedule → QuotaPollSchedule
  unfolding add_one
  add_missing now [] s = s
  add_missing now (id ∷ ids) s = add_missing now ids (add_one now id s)

  unfoldable pub due :
      QuotaPollSchedule → ℕ → List String → (String → Bool) → QuotaPollSchedule × Option String
  unfolding add_missing retain_listed overdue at_of
  due s now ids active =
      let t = add_missing now ids s in
      let plans = retain_listed ids t.plans in
      (record t { plans = plans }, name_of (overdue now (at_of plans active) none ids))

  unfoldable pub polled : QuotaPollSchedule → String → ℕ → QuotaPollSchedule
  unfolding insert between
  polled s id finished = record {
    plans =
        insert id
          (record {
            first = finished;
            last = some finished;
            active_gap = between random s.drawn (interval - jitter) longest_interval;
            idle_gap = between random (suc s.drawn) idle_min_interval idle_max_interval;
            wake = none;
            poll_before = none;
          })
          s.plans;
    drawn = suc (suc s.drawn);
  }

  unfoldable pub wake_at : QuotaPollSchedule → String → ℕ → QuotaPollSchedule
  unfolding get insert between
  wake_at s id reset =
      let at = reset + between random s.drawn wake_delay_min wake_delay_max in
      elim (get id s.plans) [
        | none ↦ record s { drawn = suc s.drawn }
        | some plan ↦ record {
          plans = insert id (record plan { wake = some at }) s.plans;
          drawn = suc s.drawn;
        }
      ]

unfoldable pub poll_by : QuotaPollSchedule → String → ℕ → QuotaPollSchedule
unfolding get insert
poll_by s id at = elim (get id s.plans) [
  | none ↦ s
  | some plan ↦ record s { plans = insert id (record plan { poll_before = some at }) s.plans }
]
