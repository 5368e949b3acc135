-- ===== src/Select/Answers.antt =====
-- upstream/src/pool/routing.rs, `select_account_for_route`: what the two selections answer.
use codex_provider.Base.Maps.{get, remove}
use codex_provider.Base.Text.{is_empty}
use codex_provider.Base.{
  ◌≡◌, refl, sym, subst, String, Bool, true, false, ◌&&◌, not, Option, none, some, List, [], Mem,
  ltb, length, if◌then◌else◌, Bool-cases, Option-cases, List-cases, inl, inr, Result, ok, err,
  unwrap_or,
}
use codex_provider.Time.{Timestamp}
use codex_provider.State.{Pool, Account}
use codex_provider.State.Bindings.{StickySession}
use codex_provider.Identity.{account}
use codex_provider.Eligibility.{usable}
use codex_provider.Affinity.{sticky_session_expired, put_state, save, lineage_account_id}
use codex_provider.Select.{
  SelectError, auth_repair_pending, no_eligible_account, overloaded_fallback_account,
  RoutingDecision, Draw, Excluded, is_excluded, selectable_account, eligible_accounts, narrow,
  or_fallback,
}
use codex_provider.Select.Tiers.{narrow-Mem, narrow_nonempty}
use codex_provider.Select.Pick.{pick-Mem, nothing_picked}
use codex_provider.Select.Serves.{
  Serves, SomeServes, OkServes, OkSomeServes, eligible-Serves, of_some, keep_or_move-Serves,
  selectable-Serves, account-id, or_fallback-OkServes,
}
use codex_provider.Select.Choice.{
  Own, answer, drop_route, pass, preferred_account_for_sticky, preferred_lineage_account,
  replacement_for, lineage_preference, lineage_or_new, lineage_models, lineage_selection,
  select_lineage_account, parent_or_new, own_route, after_own, select_account_with_preference,
  select_account_for_route,
}

module _ (draw : Draw) (p : Pool) (model : String) (excluded : Excluded) (now : Timestamp) where
  sticky-Serves :
      (key : String)
      → SomeServes draw p model excluded now
          (preferred_account_for_sticky draw p key model excluded now)
  unfolding preferred_account_for_sticky
  sticky-Serves key =
      of_some draw p model excluded now _
        λ a e. eligible-Serves draw p model excluded now a (pick-Mem draw p now key _ a e)

  sticky-none :
      (key : String)
      → preferred_account_for_sticky draw p key model excluded now ≡ none
      → eligible_accounts p model excluded now ≡ []
  unfolding preferred_account_for_sticky
  sticky-none key e = nothing_picked draw p now key _ e

  joint_empty :
      (c : Bool) (t : Account → Bool) (xs : List Account)
      → (if c then narrow t xs else xs) ≡ []
      → xs ≡ []
  joint_empty true t xs e = elim (List-cases xs) [
    | inl empty ↦ empty
    | inr (y, ys, shape) ↦ absurd (narrow_nonempty t xs (λ empty. cc (shape, empty)) e)
  ]
  joint_empty false t xs e = e

  lineage-none :
      (key : String) (models : List String)
      → preferred_lineage_account draw p key model models excluded now ≡ none
      → eligible_accounts p model excluded now ≡ []
  unfolding preferred_lineage_account
  lineage-none key models e =
      joint_empty (ltb 1 (length models)) _ _ (nothing_picked draw p now key _ e)

  among_joint :
      (c : Bool) (t : Account → Bool) {xs : List Account} {a : Account}
      → Mem a (if c then narrow t xs else xs)
      → Mem a xs
  among_joint true t {xs} m = narrow-Mem t xs m
  among_joint false t m = m

  lineage-Serves :
      (key : String) (models : List String)
      → SomeServes draw p model excluded now
          (preferred_lineage_account draw p key model models excluded now)
  unfolding preferred_lineage_account
  lineage-Serves key models = of_some draw p model excluded now _ λ a e.
      eligible-Serves draw p model excluded now a
        (among_joint (ltb 1 (length models)) _ (pick-Mem draw p now key _ a e))

  replacement-Serves :
      (key : String) (models : Option (List String))
      → SomeServes draw p model excluded now (replacement_for draw p key model models excluded now)
  unfolding replacement_for
  replacement-Serves key none = sticky-Serves key
  replacement-Serves key (some models) = lineage-Serves key models

  preference-Serves :
      (id key : String) (models : Option (List String)) (hold : Bool)
      → OkSomeServes draw p model excluded now
          (lineage_preference draw p id key model models excluded hold now)
  unfolding lineage_preference OkSomeServes SomeServes
  preference-Serves id key models hold = elim (Option-cases (account p id)) [
    | inl e ↦ rw (e, lineage_preference) tt
    | inr (a, e) ↦ elim (Bool-cases (selectable_account p a model excluded now)) [
      | inl can ↦
          rw (e, lineage_preference, can)
            (keep_or_move-Serves draw p model excluded now a _
              (selectable-Serves draw p model excluded now a
                (account-id draw p model excluded now id a e).0 can)
              (replacement-Serves key models))
      | inr cannot ↦ rw (e, lineage_preference, cannot) (held _)
    ]
  ]
    where
      held :
          (c : Bool)
          → OkSomeServes draw p model excluded now (if c then err auth_repair_pending else ok none)
      held true = refl
      held false = tt

  lineage_or_new-OkServes :
      (key : String) (models : List String) (r : Result SelectError (Option Account))
      → OkSomeServes draw p model excluded now r
      → OkServes draw p model excluded now (lineage_or_new draw p key model models excluded now r)
  unfolding lineage_or_new OkSomeServes SomeServes OkServes
  lineage_or_new-OkServes key models (err e) s =
      subst (λ x. OkServes draw p model excluded now (err x)) (sym s) tt
  lineage_or_new-OkServes key models (ok (some a)) s = s
  lineage_or_new-OkServes key models (ok none) s =
      or_fallback-OkServes draw p model excluded now _ (lineage-Serves key models)
        (lineage-none key models)

  lineage_selection-OkServes :
      (root key : String)
      → OkServes draw p model excluded now (lineage_selection draw p root key model excluded now)
  unfolding lineage_selection OkSomeServes SomeServes
  lineage_selection-OkServes root key =
      lineage_or_new-OkServes key models _
        (bound_or (is_empty (unwrap_or (lineage_account_id p root now) "")))
    where
      models : List String
      models = lineage_models p root model now

      bound_or :
          (c : Bool)
          → OkSomeServes draw p model excluded now (
              if c
              then ok none
              else lineage_preference draw p
                  (unwrap_or (lineage_account_id p root now) "")
                  key
                  model
                  (some models)
                  excluded
                  true
                  now)
      bound_or true = tt
      bound_or false = preference-Serves _ key (some models) true

  parent_or_new-OkServes :
      (key parent : String)
      → OkServes draw p model excluded now (parent_or_new draw p key model parent excluded now)
  unfolding parent_or_new OkSomeServes SomeServes OkServes
  parent_or_new-OkServes key parent =
      chosen (is_empty parent) _ (preference-Serves parent key none false)
    where
      new : Result SelectError Account
      new =
          or_fallback p model excluded now
            (preferred_account_for_sticky draw p key model excluded now)

      new-OkServes : OkServes draw p model excluded now new
      new-OkServes =
          or_fallback-OkServes draw p model excluded now _ (sticky-Serves key) (sticky-none key)

      chosen :
          (c : Bool) (r : Result SelectError (Option Account))
          → OkSomeServes draw p model excluded now r
          → OkServes draw p model excluded now (
              if c
              then new
              else elim r [ err e ↦ new | ok none ↦ new | ok (some selected) ↦ ok selected ])
      chosen true r s = new-OkServes
      chosen false (err e) s = new-OkServes
      chosen false (ok none) s = new-OkServes
      chosen false (ok (some a)) s = s

  -- The answer that the session's own route gives.
  OwnServes : Own → Type 0
  unfolding OkServes
  OwnServes (answer r) = OkServes draw p model excluded now r
  OwnServes drop_route = Unit
  OwnServes pass = Unit

  own_route-OwnServes :
      (key : String) (b : StickySession) → OwnServes (own_route draw p key model excluded now b)
  unfolding own_route OwnServes OkServes Serves
  own_route-OwnServes key b = elim (Bool-cases (is_excluded excluded b.account_id)) [
    | inl out ↦ rw (out, own_route) tt
    | inr fresh ↦ elim (Bool-cases (sticky_session_expired p b now)) [
      | inl old ↦ rw (fresh, own_route, old) tt
      | inr live ↦ elim (Option-cases (account p b.account_id)) [
        | inl gone ↦ rw (fresh, own_route, live, gone) tt
        | inr (a, e) ↦ elim (Bool-cases (usable p a model now)) [
          | inl can ↦
              let (there, same) = account-id draw p model excluded now b.account_id a e in
              rw (fresh, own_route, live, e, can)
                (keep_or_move-Serves draw p model excluded now a _
                  (there, subst (λ i. is_excluded excluded i ≡ false) (sym same) fresh, inl can)
                  (sticky-Serves key))
          | inr cannot ↦ rw (fresh, own_route, live, e, cannot) (repaired _)
        ]
      ]
    ]
  ]
    where
      repaired : (c : Bool) → OwnServes (if c then answer (err auth_repair_pending) else pass)
      repaired true = tt
      repaired false = tt

module _ (draw : Draw) (model : String) (excluded : Excluded) (now : Timestamp) where
  -- An answer is right in the pool that the selection leaves.
  AnswerServes : Pool × Result SelectError Account → Type 0
  unfolding OkServes
  AnswerServes (q, r) = OkServes draw q model excluded now r

  after_own-AnswerServes :
      (p : Pool) (key balance_key parent : String) (own : Own)
      → OwnServes draw p model excluded now own
      → AnswerServes (after_own draw p key balance_key model parent excluded now own)
  unfolding after_own OwnServes AnswerServes
  after_own-AnswerServes p key balance_key parent (answer r) s = s
  after_own-AnswerServes p key balance_key parent pass s =
      parent_or_new-OkServes draw p model excluded now balance_key parent
  after_own-AnswerServes p key balance_key parent drop_route s =
      parent_or_new-OkServes draw
        (save (put_state p (record p.state { sticky_sessions = remove key p.sticky_sessions })) now)
        model excluded now balance_key parent

  preference-AnswerServes :
      (p : Pool) (key balance_key parent : String)
      → AnswerServes
          (select_account_with_preference draw p key balance_key model parent excluded now)
  unfolding select_account_with_preference OwnServes
  preference-AnswerServes p key balance_key parent =
      after_own-AnswerServes p key balance_key parent _ (own (get key p.sticky_sessions))
    where
      own :
          (o : Option StickySession)
          → OwnServes draw p model excluded now
              (elim o [ none ↦ pass | some b ↦ own_route draw p balance_key model excluded now b ])
      own none = tt
      own (some b) = own_route-OwnServes draw p model excluded now balance_key b

  route-OkServes :
      (p : Pool) (route : RoutingDecision)
      → let (q, route', r) = select_account_for_route draw p route model excluded now in
        OkServes draw q model excluded now r
  unfolding select_account_for_route select_lineage_account AnswerServes
  route-OkServes p route =
      either (route.lineage_affinity && not (is_empty route.identity.lineage_root_id))
    where
      key : String
      key = if is_empty route.balance_key then route.sticky_key else route.balance_key

      either :
          (c : Bool)
          → let (route', r) = select_lineage_account draw p route key model excluded now in
            let (q, r') =
              select_account_with_preference draw p route.sticky_key key model
                route.lineage_account_id excluded now in
            let result : Pool × RoutingDecision × Result SelectError Account =
              (if c then (p, route', r) else (q, route, r')) in
            OkServes draw result.0 model excluded now result.2
      either true =
          lineage_selection-OkServes draw p model excluded now route.identity.lineage_root_id key
      either false = preference-AnswerServes p route.sticky_key key route.lineage_account_id

  -- Whatever the session, the thread and the lineage are bound to, an account that the selection
  -- answers is an account of the pool that the request has not tried, and it is usable for the model
  -- now, or only overloads hold it back and it is usable when the soonest of them ends.
  pub select-Serves :
      (p q : Pool) (route route' : RoutingDecision) (a : Account)
      → select_account_for_route draw p route model excluded now ≡ (q, route', ok a)
      → Serves q model excluded now a
  unfolding OkServes
  select-Serves p q route route' a e =
      subst
        (λ (x : Pool × RoutingDecision × Result SelectError Account).
          OkServes draw x.0 model excluded now x.2)
        e (route-OkServes p route)

  -- A request is told that there is no eligible account only when no account is eligible for its
  -- model, every one being tried already, not usable, or a duplicate of one, and there is no account
  -- either that overloads alone hold back.
  pub select-no_eligible_account :
      (p q : Pool) (route route' : RoutingDecision)
      → select_account_for_route draw p route model excluded now
        ≡ (q, route', err no_eligible_account)
      → (eligible_accounts q model excluded now ≡ [])
        × (overloaded_fallback_account q model excluded now ≡ none)
  unfolding OkServes
  select-no_eligible_account p q route route' e =
      subst
        (λ (x : Pool × RoutingDecision × Result SelectError Account).
          OkServes draw x.0 model excluded now x.2)
        e (route-OkServes p route)
