-- ===== src/Select/Serves.antt =====
-- upstream/src/pool/routing.rs: every account that a selection answers may serve the request.
use codex_provider.Base.Text.{is_empty}
use codex_provider.Base.{
  ℕ, ◌≡◌, refl, ap, subst, String, Bool, true, false, ◌&&◌, ◌||◌, not, Option, none, some, List, [],
  ◌∷◌, Mem, mem_first, mem_rest, filter-Mem, filter-passes, find-Mem, find-some, arith, ◌==◌,
  if◌then◌else◌, str_eq, eq_iff, Bool-cases, Option-cases, ◌⊎◌, inl, inr, Result, ok, err,
}
use codex_provider.Time.{Timestamp, before}
use codex_provider.State.{Pool, Account}
use codex_provider.Identity.{account, upstream_identity_key}
use codex_provider.Plan.{among}
use codex_provider.Eligibility.{usable, preferred_before, excluded_upstream_identities}
use codex_provider.Select.{
  SelectError, auth_repair_pending, Draw, Excluded, is_excluded, passes_identity,
  selectable_account, eligible_accounts, or_fallback, overloaded_fallback_account,
  overloaded_only_cooldown, item_of, no_eligible_account, bound_session_may_move,
  bound_session_moves_to, fallback_at, fallback_loop, better_fallback,
}
use codex_provider.Select.Choice.{keep_or_move}

-- An account may serve: it is in the pool, the request has not tried it, and it is usable now, or
-- only overloads hold it back and it is usable when the last of them ends.
unfoldable pub Serves : Pool → String → Excluded → Timestamp → Account → Type 0
unfolding is_excluded usable overloaded_only_cooldown
Serves p model excluded now a =
    Mem a p.accounts
    × (is_excluded excluded a.id ≡ false)
    × ((usable p a model now ≡ true)
        ⊎ ((at : Timestamp) × (overloaded_only_cooldown p a.id model now ≡ some at)
            × (usable p a model at ≡ true)))

selectable_guards :
    (tried can fits : Bool)
    → (if tried || not can then false else fits) ≡ true
    → (tried ≡ false) × (can ≡ true)
selectable_guards true can fits h = cc
selectable_guards false true fits h = (refl, refl)
selectable_guards false false fits h = cc

fallback_guards :
    (tried : Bool) (o : Option ℕ) (can : ℕ → Bool) (same : Bool) (at : ℕ)
    → (if tried then none else elim o [
      | none ↦ none
      | some r ↦ if not (can r) then none else if same then none else some r
    ])
      ≡ some at
    → (tried ≡ false) × (o ≡ some at) × (can at ≡ true)
fallback_guards true o can same at h = cc
fallback_guards false none can same at h = cc
fallback_guards false (some r) can true at h = absurd (ground arith)
fallback_guards false (some r) can false at h = elim (Bool-cases (can r)) [
  | inl e ↦
      let here : r ≡ at = ground arith in (refl, ap some here, subst (λ t. can t ≡ true) here e)
  | inr e ↦ absurd (ground arith)
]

module _ (draw : Draw) (p : Pool) (model : String) (excluded : Excluded) (now : Timestamp) where
  -- Every account in an answer may serve, and no account is the answer only where there is none.
  unfoldable pub SomeServes : Option Account → Type 0
  SomeServes none = Unit
  SomeServes (some a) = Serves p model excluded now a

  unfoldable pub OkServes : Result SelectError Account → Type 0
  unfolding eligible_accounts overloaded_fallback_account
  OkServes (ok a) = Serves p model excluded now a
  OkServes (err auth_repair_pending) = Unit
  OkServes (err no_eligible_account) =
      (eligible_accounts p model excluded now ≡ [])
      × (overloaded_fallback_account p model excluded now ≡ none)

  unfoldable pub OkSomeServes : Result SelectError (Option Account) → Type 0
  unfolding SomeServes
  OkSomeServes (ok o) = SomeServes o
  OkSomeServes (err e) = e ≡ auth_repair_pending

  pub selectable-Serves :
      (a : Account)
      → Mem a p.accounts
      → selectable_account p a model excluded now ≡ true
      → Serves p model excluded now a
  unfolding selectable_account Serves
  selectable-Serves a m h =
      let (fresh, can) =
        selectable_guards (is_excluded excluded a.id) (usable p a model now)
          (passes_identity p a model excluded now) h in
      (m, fresh, inl can)

  pub eligible-Serves :
      (a : Account) → Mem a (eligible_accounts p model excluded now) → Serves p model excluded now a
  unfolding eligible_accounts
  eligible-Serves a m =
      let test : Account → Bool = λ item. selectable_account p item model excluded now in
      selectable-Serves a (filter-Mem test p.accounts m) (filter-passes test p.accounts m)

  pub of_some :
      (o : Option Account)
      → ((a : Account) → o ≡ some a → Serves p model excluded now a)
      → SomeServes o
  unfolding SomeServes
  of_some none f = tt
  of_some (some a) f = f a refl

  pub keep_or_move-Serves :
      (current : Account) (o : Option Account)
      → Serves p model excluded now current
      → SomeServes o
      → Serves p model excluded now (keep_or_move draw p current o now)
  unfolding keep_or_move SomeServes
  keep_or_move-Serves current none s t = s
  keep_or_move-Serves current (some replacement) s t =
      either
        (bound_session_may_move p current now && bound_session_moves_to p current replacement now)
    where
      either : (c : Bool) → Serves p model excluded now (if c then replacement else current)
      either true = t
      either false = s

  pub account-id :
      (id : String) (a : Account) → account p id ≡ some a → Mem a p.accounts × (a.id ≡ id)
  unfolding account
  account-id id a e =
      let test : Account → Bool = λ item. str_eq item.id id in
      (find-Mem test p.accounts a e, (eq_iff a.id id).0 (find-some test p.accounts a e).0)

  -- The overload fallback.
  fallback_at-Serves :
      (a : Account) (at : Timestamp)
      → Mem a p.accounts
      → fallback_at p model excluded now a ≡ some at
      → Serves p model excluded now a
  unfolding fallback_at Serves
  fallback_at-Serves a at m e =
      let identity = upstream_identity_key p a in
      let (fresh, soon, can) =
        fallback_guards (is_excluded excluded a.id) (overloaded_only_cooldown p a.id model now)
          (λ t. usable p a model t)
          (not (is_empty identity) && among identity (excluded_upstream_identities p excluded)) at
          e in
      (m, fresh, inr (at, soon, can))

  PairServes : Option (Account × Timestamp) → Type 0
  PairServes none = Unit
  PairServes (some (a, at)) = Serves p model excluded now a

  better-Serves :
      (a : Account) (at : Timestamp) (best : Option (Account × Timestamp))
      → Serves p model excluded now a
      → PairServes best
      → PairServes (some (better_fallback p now a at best))
  unfolding better_fallback PairServes
  better-Serves a at none s t = s
  better-Serves a at (some (b, b_at)) s t =
      either (before at b_at || (at == b_at && preferred_before p now a b))
    where
      either : (c : Bool) → PairServes (some (if c then (a, at) else (b, b_at)))
      either true = s
      either false = t

  fallback_loop-Serves :
      (items : List Account) (best : Option (Account × Timestamp))
      → ((b : Account) → Mem b items → Mem b p.accounts)
      → PairServes best
      → PairServes (fallback_loop p model excluded now best items)
  unfolding fallback_loop
  fallback_loop-Serves [] best sub t = t
  fallback_loop-Serves (item ∷ items) best sub t =
      fallback_loop-Serves items _ (λ b n. sub b (mem_rest n)) next
    where
      next : PairServes (elim (fallback_at p model excluded now item) [
        | none ↦ best
        | some at ↦ some (better_fallback p now item at best)
      ])
      next = elim (Option-cases (fallback_at p model excluded now item)) [
        | inl e ↦ rw e t
        | inr (at, e) ↦ rw e (
            better-Serves item at best
              (fallback_at-Serves item at (sub item (mem_first item items)) e) t)
      ]

  fallback-SomeServes : SomeServes (overloaded_fallback_account p model excluded now)
  unfolding overloaded_fallback_account PairServes SomeServes
  fallback-SomeServes =
      item (fallback_loop p model excluded now none p.accounts)
        (fallback_loop-Serves p.accounts none (λ b n. n) tt)
    where
      item : (o : Option (Account × Timestamp)) → PairServes o → SomeServes (item_of o)
      item none t = tt
      item (some (a, at)) t = t

  pub or_fallback-OkServes :
      (o : Option Account)
      → SomeServes o
      → (o ≡ none → eligible_accounts p model excluded now ≡ [])
      → OkServes (or_fallback p model excluded now o)
  unfolding or_fallback OkServes SomeServes
  or_fallback-OkServes (some a) s f = s
  or_fallback-OkServes none s f =
      elim (Option-cases (overloaded_fallback_account p model excluded now)) [
        | inl e ↦ rw (e, or_fallback) (f refl, e)
        | inr (a, e) ↦ rw (e, or_fallback) (subst SomeServes e fallback-SomeServes)
      ]
