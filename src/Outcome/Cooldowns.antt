-- ===== src/Outcome/Cooldowns.antt =====
-- upstream/src/pool/outcome.rs: how cooldowns begin and end, as routing sees them.
use codex_provider.Base.Maps.{Map, get, get-insert, get-remove}
use codex_provider.Base.Text.{is_empty}
use codex_provider.Base.{
  ℕ, ◌≤◌, ◌<◌, ◌≡◌, refl, sym, ap, ◌∙◌, subst, String, Bool, true, false, ◌&&◌, ◌||◌, not, List, [],
  ◌∷◌, ◌++◌, filter, any, arith, ltb, if◌then◌else◌, str_eq, eq_iff, eq_refl, Bool-cases,
  List-cases, ◌+◌, inl, inr, unwrap_or,
}
use codex_provider.Time.{Timestamp, after, add}
use codex_provider.Plan.{among}
use codex_provider.State.{Pool, Account, Cooldown}
use codex_provider.Eligibility.{account_cooling_down, cooldowns_of, usable}
use codex_provider.Eligibility.Sound.{usable-Fit}
use codex_provider.Affinity.{put_state, save}
use codex_provider.Outcome.{
  append_cooldown, is_cleared, clear_account, clear_accounts, clear_capacity_cooldowns,
  mark_failure, count_failure, put_health, failures_before, health_of,
}

module _ {ℓ} {A : Type ℓ} where
  any-append : (p : A → Bool) (xs ys : List A) → any p (xs ++ ys) ≡ any p xs || any p ys
  unfolding any
  any-append p [] ys = refl
  any-append p (x ∷ xs) ys = elim (Bool-cases (p x)) [
    | inl e ↦ rw e refl
    | inr e ↦ rw e (any-append p xs ys)
  ]

  any-filter :
      (p q : A → Bool) (xs : List A)
      → ((a : A) → p a ≡ true → q a ≡ true)
      → any p (filter q xs) ≡ any p xs
  unfolding any filter
  any-filter p q [] sub = refl
  any-filter p q (x ∷ xs) sub = elim (Bool-cases (q x)) [
    | inl e ↦ rw e (ap (λ c. p x || c) (any-filter p q xs sub))
    | inr e ↦ elim (Bool-cases (p x)) [
      | inl f ↦ absurd (cc (sub x f, e))
      | inr f ↦ rw (e, f) (any-filter p q xs sub)
    ]
  ]

  filter-filter : (p : A → Bool) (xs : List A) → filter p (filter p xs) ≡ filter p xs
  unfolding filter
  filter-filter p [] = refl
  filter-filter p (x ∷ xs) = elim (Bool-cases (p x)) [
    | inl e ↦ rw (e, e) (ap (λ ys. x ∷ ys) (filter-filter p xs))
    | inr e ↦ rw e (filter-filter p xs)
  ]

-- The test that a cooldown of an account holds it back.
abbrev holds_back : String → Timestamp → Cooldown → Bool
holds_back model now c = (is_empty model || str_eq c.model_id model) && after c.next_retry_at now

and_right : (x y : Bool) → x && y ≡ true → y ≡ true
and_right true y h = h
and_right false y h = cc

or_false : (x : Bool) → x || false ≡ x
or_false true = refl
or_false false = refl

-- A new cooldown holds its account back from its model until it ends, and changes nothing else: no
-- other account and no other model is held back by it, and what it drops holds nobody back.
pub append_cooldown-cooling :
    (p : Pool) (id model reason : String) (retry_at now : Timestamp) (j other : String)
    (later : Timestamp)
    → now ≤ later
    → account_cooling_down (append_cooldown p id model reason retry_at now) j other later
      ≡ account_cooling_down p j other later
        || (str_eq id j && (is_empty other || str_eq model other) && after retry_at later)
unfolding account_cooling_down append_cooldown
append_cooldown-cooling p id model reason retry_at now j other later le =
    elim (Bool-cases (str_eq id j)) [
      | inl e ↦
          let same = (eq_iff id j).0 e in
          rw (get-insert id j (kept ++ new ∷ []) p.cooldowns, e)
            (any-append (holds_back other later) kept (new ∷ [])
              ∙ both (any-filter (holds_back other later) young (cooldowns_of p id) sub) (
                  subst
                    (λ i.
                      any (holds_back other later) (cooldowns_of p i)
                      ≡ any (holds_back other later) (cooldowns_of p j))
                    (sym same) refl))
      | inr e ↦
          rw (get-insert id j (kept ++ new ∷ []) p.cooldowns, e)
            (sym (or_false (any (holds_back other later) (cooldowns_of p j))))
    ]
  where
    young : Cooldown → Bool
    young c = after c.next_retry_at now

    kept : List Cooldown
    kept = filter young (cooldowns_of p id)

    new : Cooldown
    new = record { model_id = model; next_retry_at = retry_at; reason = reason }

    sub : (c : Cooldown) → holds_back other later c ≡ true → young c ≡ true
    sub c h =
        let at =
          and_right (is_empty other || str_eq c.model_id other) (after c.next_retry_at later) h in
        sooner c.next_retry_at at
      where
        sooner : (at : Timestamp) → ltb later at ≡ true → ltb now at ≡ true
        sooner at k = ground arith

    both :
        {x y z : Bool}
        → x ≡ y
        → y ≡ z
        → x || any (holds_back other later) (new ∷ [])
          ≡ z || (is_empty other || str_eq model other) && after retry_at later
    both {z = z} e f = rw (e, f) (ap (λ c. z || c) (or_false (holds_back other later new)))

or_true : (x : Bool) → (x || true) && true ≡ true
or_true true = refl
or_true false = refl

mark_failure-cooling :
    (p : Pool) (id model reason : String) (duration now later : ℕ)
    → 0 < duration
    → now ≤ later
    → later < add now duration
    → account_cooling_down (mark_failure p id model reason duration now).0 id model later ≡ true
unfolding mark_failure account_cooling_down
mark_failure-cooling p id model reason duration now later some_time le until =
    let h = health_of p id in
    let consecutive = failures_before h reason now + 1 in
    let q = count_failure (
      put_health p id (record h {
        last_failure_at = now;
        last_failure_reason = reason;
        consecutive_failure = consecutive;
      })) in
    let positive : ltb 0 duration ≡ true = ground arith in
    let cooled =
      append_cooldown-cooling q id model reason (add now duration) now id model later le in
    rw positive (cooled ∙ held (account_cooling_down q id model later))
  where
    held :
        (c : Bool)
        → c
            || (str_eq id id
                && (is_empty model || str_eq model model)
                && after (add now duration) later)
          ≡ true
    held true = refl
    held false =
        let ends : after (add now duration) later ≡ true = ground arith in
        rw (eq_refl id, eq_refl model, ends) (or_true (is_empty model))

-- A request that fails with a cool-down takes its account out of service: until the cooldown ends no
-- selection finds the account usable for the model, whatever else the pool knows of it.
pub mark_failure-not_usable :
    (p : Pool) (item : Account) (model reason : String) (duration now later : ℕ)
    → 0 < duration
    → now ≤ later
    → later < add now duration
    → usable (mark_failure p item.id model reason duration now).0 item model later ≡ false
mark_failure-not_usable p item model reason duration now later some_time le until =
    let (q, n) = mark_failure p item.id model reason duration now in
    elim (Bool-cases (usable q item model later)) [
      | inr e ↦ e
      | inl e ↦
          let fit = usable-Fit q item model later e in
          absurd (
            cc (
              fit.rested,
              mark_failure-cooling p item.id model reason duration now later some_time le until,
            ))
    ]

clear_account-get :
    (model : String) (cooldowns : Map (List Cooldown)) (id j : String)
    → unwrap_or (get j (clear_account model cooldowns id)) [] ≡ (
        if str_eq id j
        then filter (λ c. not (is_cleared model c)) (unwrap_or (get j cooldowns) [])
        else unwrap_or (get j cooldowns) [])
unfolding clear_account
clear_account-get model cooldowns id j =
    let keep : Cooldown → Bool = λ c. not (is_cleared model c) in
    elim (List-cases (filter keep (unwrap_or (get id cooldowns) []))) [
      | inl e ↦ elim (Bool-cases (str_eq id j)) [
        | inl same ↦
            rw (e, clear_account, get-remove id j cooldowns, same)
              (sym (
                subst (λ i. filter keep (unwrap_or (get i cooldowns) []) ≡ [])
                  ((eq_iff id j).0 same) e))
        | inr other ↦ rw (e, clear_account, get-remove id j cooldowns, other) refl
      ]
      | inr (x, xs, e) ↦ elim (Bool-cases (str_eq id j)) [
        | inl same ↦
            rw (e, clear_account, get-insert id j (x ∷ xs) cooldowns, same)
              (sym (
                subst (λ i. filter keep (unwrap_or (get i cooldowns) []) ≡ x ∷ xs)
                  ((eq_iff id j).0 same) e))
        | inr other ↦ rw (e, clear_account, get-insert id j (x ∷ xs) cooldowns, other) refl
      ]
    ]

cleared_once :
    (model : String) (cs : List Cooldown) (c d : Bool)
    → (if c
        then filter
            (λ e. not (is_cleared model e))
            (if d then filter (λ e. not (is_cleared model e)) cs else cs)
        else if d
        then filter (λ e. not (is_cleared model e)) cs
        else cs)
      ≡ (if d || c then filter (λ e. not (is_cleared model e)) cs else cs)
cleared_once model cs true true = filter-filter (λ e. not (is_cleared model e)) cs
cleared_once model cs true false = refl
cleared_once model cs false true = refl
cleared_once model cs false false = refl

clear_accounts-get :
    (model : String) (cooldowns : Map (List Cooldown)) (ids : List String) (j : String)
    → unwrap_or (get j (clear_accounts model cooldowns ids)) [] ≡ (
        if among j ids
        then filter (λ c. not (is_cleared model c)) (unwrap_or (get j cooldowns) [])
        else unwrap_or (get j cooldowns) [])
unfolding clear_accounts any
clear_accounts-get model cooldowns [] j = refl
clear_accounts-get model cooldowns (id ∷ ids) j =
    clear_accounts-get model (clear_account model cooldowns id) ids j
    ∙ ap (λ cs. if among j ids then filter (λ c. not (is_cleared model c)) cs else cs)
        (clear_account-get model cooldowns id j)
    ∙ cleared_once model (unwrap_or (get j cooldowns) []) (among j ids) (str_eq id j)

-- A capacity round forgives overloads and nothing more: each account of the round loses the cooldowns
-- of the model that a passing overload caused and keeps every other one, and an account outside
-- the round keeps all of its cooldowns.
pub clear_capacity_cooldowns-kept :
    (p : Pool) (ids : List String) (model : String) (now : Timestamp) (j : String)
    → cooldowns_of (clear_capacity_cooldowns p ids model now) j ≡ (
        if among j ids
        then filter (λ c. not (is_cleared model c)) (cooldowns_of p j)
        else cooldowns_of p j)
unfolding clear_capacity_cooldowns
clear_capacity_cooldowns-kept p ids model now j =
    saved (any (λ id. any (is_cleared model) (cooldowns_of p id)) ids)
    ∙ clear_accounts-get model p.cooldowns ids j
  where
    q : Pool
    q = put_state p (record p.state { cooldowns = clear_accounts model p.cooldowns ids })

    saved : (c : Bool) → cooldowns_of (if c then save q now else q) j ≡ cooldowns_of q j
    saved true = refl
    saved false = refl
