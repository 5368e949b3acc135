-- ===== src/Proxy/Moves.antt =====
-- What a round of the loop of upstream/src/pool/proxy.rs may do to the accounts that the request has
-- tried and to its tallies, as a step relation, and what follows from it.
use codex_provider.Base.{
  ℕ, suc, ◌&&◌, ◌==◌, none, some, ◌+◌, ◌-◌, ◌*◌, ◌≤◌, ◌<◌, ◌≡◌, String, Bool, true, false, ◌||◌,
  not, [], ◌∷◌, length, length-filter-le, filter, arith, any, Bool-cases, inl, inr, str_eq,
}
use native.Mathlib.Nat.{mul-le-mul_left}
use codex_provider.Select.{Excluded, is_excluded}
use codex_provider.Outcome.Whole.{exclude, restore}
use codex_provider.Proxy.{
  Tuning, Budget, Attempts, Answer, answered, unreachable, credential_unusable, is_server_error,
  transient_overload_code, overload_same_account_retry_limit, transport_same_account_retry_limit,
}
use codex_provider.Proxy.Attempt.{spend_attempt, spend_transport, spend_overload, spend_round}

-- The accounts that the request has tried, those of them that refused for capacity, and the tallies.
pub record View : Type 0 where
  pub excluded : Excluded
  pub capacity_excluded : Excluded
  pub budget : Budget

abbrev pub view : Attempts → View
view s = record {
  excluded = s.excluded;
  capacity_excluded = s.capacity_excluded;
  budget = s.budget;
}

abbrev pub after_refusal : View → String → View
after_refusal v id = record v { excluded = exclude id v.excluded; budget = spend_attempt v.budget }

abbrev pub after_capacity : View → String → View
after_capacity v id = record {
  excluded = exclude id v.excluded;
  capacity_excluded = exclude id v.capacity_excluded;
  budget = spend_attempt v.budget;
}

abbrev pub after_wait : View → String → View
after_wait v id =
    let (rest, restored) = restore (exclude id v.capacity_excluded) (exclude id v.excluded) in
    record { excluded = rest; capacity_excluded = []; budget = spend_round v.budget restored }

-- What upstream or the client did, as far as it decides what the loop may do next.
abbrev pub is_unreachable : Answer → Bool
is_unreachable (unreachable waited) = true
is_unreachable _ = false

abbrev pub refuses_credential : ℕ → Bool
refuses_credential status = status == 401 || status == 403

-- The account is of no use for this request: upstream refused its credential or there is none, or
-- upstream failed on it.
abbrev pub fails_for_good : Answer → Bool
fails_for_good credential_unusable = true
fails_for_good (answered r) = refuses_credential r.status || is_server_error r.status
fails_for_good _ = false

-- Upstream lacks capacity: it limits the rate, or its answer failed before the client got any of it.
abbrev pub lacks_capacity : Answer → Bool
lacks_capacity (answered r) =
    not (refuses_credential r.status || is_server_error r.status)
    && (r.status == 429 || r.retryable_terminal_failure)
lacks_capacity _ = false

-- An answer that failed, before the client got any of it, for an overload that may soon be over.
abbrev pub is_overloaded : Answer → Bool
is_overloaded (answered r) =
    not (refuses_credential r.status || is_server_error r.status)
    && not (r.status == 429)
    && elim r.info [ none ↦ false | some info ↦ transient_overload_code info.terminal_error_code ]
is_overloaded _ = false

-- A round on account `id` that does not end the request, after `answer`: the same account again after
-- an unreachable upstream or an overload, each a few times; on to another one after a failure of the
-- account or of upstream on it, or for lack of capacity; or, a few times and for lack of capacity, a
-- wait that restores every account that lacked it.
pub data Move (tuning : Tuning) (id : String) (answer : Answer) (v : View) : View → Type 0 where
  transport_again :
      is_unreachable answer ≡ true
      → v.budget.transport_retries < transport_same_account_retry_limit
      → Move tuning id answer v (record v { budget = spend_transport v.budget })
  overload_again :
      is_overloaded answer ≡ true
      → v.budget.overload_retries < overload_same_account_retry_limit
      → Move tuning id answer v (record v { budget = spend_overload v.budget })
  refused :
      is_unreachable answer || fails_for_good answer ≡ true
      → Move tuning id answer v (after_refusal v id)
  at_capacity : lacks_capacity answer ≡ true → Move tuning id answer v (after_capacity v id)
  waits :
      lacks_capacity answer ≡ true
      → v.budget.capacity_retries < tuning.capacity_retry_limit
      → Move tuning id answer v (after_wait v id)

-- What the attempts that are left, and all that could be given back, come to: neither an attempt nor a
-- wait makes it more.
abbrev slack : ℕ → View → ℕ
slack limit v = limit + v.budget.given_back + length v.excluded - v.budget.spent

-- What may still be spent: each round of waiting pays for all that it could give back.
unfoldable pub measure : Tuning → ℕ → View → ℕ
measure tuning limit v =
    (tuning.capacity_retry_limit - v.budget.capacity_retries) * (slack limit v + 1)
    + (overload_same_account_retry_limit - v.budget.overload_retries)
    + (transport_same_account_retry_limit - v.budget.transport_retries)
    + (limit + v.budget.given_back - v.budget.spent)

length-exclude : (id : String) (ids : Excluded) → length (exclude id ids) ≤ length ids + 1
unfolding exclude
length-exclude id ids = elim (Bool-cases (is_excluded ids id)) [
  | inl e ↦ rw e (omega arith)
  | inr e ↦ rw e (omega arith)
]

length-filter-lt :
    (id : String) (ids : Excluded)
    → is_excluded ids id ≡ true
    → length (filter (λ other. not (str_eq other id)) ids) + 1 ≤ length ids
unfolding is_excluded any filter
length-filter-lt id [] e = cc
length-filter-lt id (x ∷ xs) e = elim (Bool-cases (str_eq x id)) [
  | inl same ↦ rw same (omega (arith, length-filter-le (λ other. not (str_eq other id)) xs))
  | inr apart ↦ rw apart (omega (arith, length-filter-lt id xs (rw apart at e)))
]

-- Every account that a wait restores is one fewer that is excluded.
length-restore :
    (ids excluded : Excluded)
    → length (restore ids excluded).0 + (restore ids excluded).1 ≤ length excluded
unfolding restore
length-restore [] excluded = omega arith
length-restore (id ∷ ids) excluded = elim (Bool-cases (is_excluded excluded id)) [
  | inl e ↦ rw e (
      omega (
        arith,
        length-restore ids (filter (λ other. not (str_eq other id)) excluded),
        length-filter-lt id excluded e,
      ))
  | inr e ↦ rw e (length-restore ids excluded)
]

-- Every account that the request has tried and not been given back cost it an attempt that was not
-- given back.
abbrev pub Within : View → Type 0
Within v = length v.excluded + v.budget.given_back ≤ v.budget.spent

pub Move-Within :
    (tuning : Tuning) (id : String) (answer : Answer) (v w : View)
    → Move tuning id answer v w
    → Within v
    → Within w
Move-Within tuning id answer v w (Move.transport_again a h) within = within
Move-Within tuning id answer v w (Move.overload_again a h) within = within
Move-Within tuning id answer v w (Move.refused a) within =
    omega (arith, length-exclude id v.excluded, within)
Move-Within tuning id answer v w (Move.at_capacity a) within =
    omega (arith, length-exclude id v.excluded, within)
Move-Within tuning id answer v w (Move.waits a h) within = omega (
  arith,
  length-exclude id v.excluded,
  length-restore (exclude id v.capacity_excluded) (exclude id v.excluded),
  within,
)

rounds_left : (c n k : ℕ) → n < c → (c - (n + 1)) * k + k ≡ (c - n) * k
rounds_left c n k h = let e : c - n ≡ suc (c - (n + 1)) = omega (arith, h) in rw e (omega arith)

-- One attempt fewer, and what could be given back is no more.
attempt-measure :
    (tuning : Tuning) (limit : ℕ) (id : String) (v : View) (capacity_excluded : Excluded)
    → v.budget.spent < limit + v.budget.given_back
    → measure tuning limit (record {
      excluded = exclude id v.excluded;
      capacity_excluded = capacity_excluded;
      budget = spend_attempt v.budget;
    })
      < measure tuning limit v
unfolding measure
attempt-measure tuning limit id v capacity_excluded inside =
    let c = tuning.capacity_retry_limit - v.budget.capacity_retries in
    let after : ℕ =
      limit + v.budget.given_back + length (exclude id v.excluded) - (v.budget.spent + 1) in
    let less : after + 1 ≤ slack limit v + 1 =
      omega (arith, length-exclude id v.excluded, inside) in
    omega (arith, inside, mul-le-mul_left c less)

wait-measure :
    (tuning : Tuning) (limit : ℕ) (id : String) (v : View)
    → v.budget.capacity_retries < tuning.capacity_retry_limit
    → v.budget.spent < limit + v.budget.given_back
    → measure tuning limit (after_wait v id) < measure tuning limit v
unfolding measure
wait-measure tuning limit id v room inside =
    let c = tuning.capacity_retry_limit - (v.budget.capacity_retries + 1) in
    let (rest, restored) = restore (exclude id v.capacity_excluded) (exclude id v.excluded) in
    let after : ℕ = limit + (v.budget.given_back + restored) + length rest - (v.budget.spent + 1) in
    let kept = length-restore (exclude id v.capacity_excluded) (exclude id v.excluded) in
    let less : after + 1 ≤ slack limit v + 1 =
      omega (arith, length-exclude id v.excluded, kept, inside) in
    omega (
      arith,
      inside,
      length-exclude id v.excluded,
      kept,
      mul-le-mul_left c less,
      rounds_left tuning.capacity_retry_limit v.budget.capacity_retries (slack limit v + 1) room,
    )

-- Within the limit of attempts, a round leaves less to spend.
pub Move-measure :
    (tuning : Tuning) (limit : ℕ) (id : String) (answer : Answer) (v w : View)
    → v.budget.spent < limit + v.budget.given_back
    → Move tuning id answer v w
    → measure tuning limit w < measure tuning limit v
unfolding measure
Move-measure tuning limit id answer v w inside (Move.transport_again a h) = omega (arith, h)
Move-measure tuning limit id answer v w inside (Move.overload_again a h) = omega (arith, h)
Move-measure tuning limit id answer v w inside (Move.refused a) =
    attempt-measure tuning limit id v v.capacity_excluded inside
Move-measure tuning limit id answer v w inside (Move.at_capacity a) =
    attempt-measure tuning limit id v (exclude id v.capacity_excluded) inside
Move-measure tuning limit id answer v w inside (Move.waits a h) =
    wait-measure tuning limit id v h inside
