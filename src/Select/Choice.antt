-- ===== src/Select/Choice.antt =====
-- upstream/src/pool/routing.rs: the choice among the eligible accounts, and the two selections. The
-- draw of hash.rs is a parameter.
use codex_provider.Base.Maps.{get, insert, remove, retain, values}
use codex_provider.Base.Text.{is_empty}
use codex_provider.Base.{
  ◌-◌, String, Bool, true, false, ◌&&◌, ◌||◌, not, Option, none, some, List, [], ◌∷◌, all, head?,
  length, ltb, leb, if◌then◌else◌, str_eq, str_lt, unwrap_or, Result, ok, err,
}
use codex_provider.Time.{Timestamp, after}
use codex_provider.GoSort.{slice_stable}
use codex_provider.Identity.{account, account_auth_verification_pending, upstream_identity_key}
use codex_provider.Eligibility.{preferred_before, usable}
use codex_provider.Affinity.{lineage_account_id, sticky_session_expired, put_state, save}
use codex_provider.State.{Pool, Account}
use codex_provider.State.Bindings.{StickySession, ThreadBinding}
use codex_provider.Select.{
  SelectError, auth_repair_pending, RoutingDecision, Draw, Excluded, placement_active_window,
  is_excluded, is_failover, selectable_account, eligible_accounts, active_session_count,
  placement_weight, sticky_identity_or_slot, narrow, placement_tier, bound_session_may_move,
  bound_session_moves_to, or_fallback,
}

-- `lineage_models`: the request's model, then the others in order, each once.
unfoldable pub insert_model : String → List String → List String
insert_model m [] = m ∷ []
insert_model m (x ∷ xs) =
    if str_eq x m then x ∷ xs else if str_lt m x then m ∷ x ∷ xs else x ∷ insert_model m xs

unfoldable pub other_models : String → String → Timestamp → List ThreadBinding → List String
unfolding insert_model
other_models root model now [] = []
other_models root model now (b ∷ bs) =
    let rest = other_models root model now bs in
    if not (str_eq b.lineage_root_id root)
      || not (after b.expires_at now)
      || is_empty b.model_id
      || str_eq model b.model_id
    then rest
    else insert_model b.model_id rest

unfoldable pub lineage_models : Pool → String → String → Timestamp → List String
unfolding other_models
lineage_models p root model now = model ∷ other_models root model now (values p.thread_bindings)

-- What the session's own route decides: an answer, or that it is dropped or not used.
pub data Own : Type 0 where
  answer : Result SelectError Account → Own
  drop_route : Own
  pass : Own

module _ (draw : Draw) where
  open draw use {Score, placement_score, above, same}

  unfoldable pub account_score : Pool → Timestamp → String → Account → Score
  unfolding placement_weight active_session_count sticky_identity_or_slot upstream_identity_key
  account_score p now sticky_key item =
      placement_score sticky_key (sticky_identity_or_slot (upstream_identity_key p item) item.id)
        (placement_weight p now item (active_session_count p now sticky_key item.id))

  -- The loop over `tier[1..]`.
  unfoldable pub best_score : (Account → Score) → Account → List Account → Account
  best_score score selected [] = selected
  best_score score selected (item ∷ items) =
      best_score score
        (if above (score item) (score selected)
            || (same (score item) (score selected) && str_lt item.id selected.id)
          then item
          else selected)
        items

  -- An empty list is `tier[0]` out of range; `placement_tier` keeps one account of any.
  unfoldable pub first_best : (Account → Score) → List Account → Option Account
  unfolding best_score
  first_best score [] = none
  first_best score (item ∷ items) = some (best_score score item items)

  unfoldable pub pick_balanced_account : Pool → Timestamp → String → List Account → Option Account
  unfolding is_failover slice_stable preferred_before first_best account_score placement_tier
  pick_balanced_account p now sticky_key eligible =
      if is_failover p
      then head? (slice_stable (preferred_before p now) eligible)
      else first_best (account_score p now sticky_key) (placement_tier p now sticky_key eligible)

  unfoldable pub preferred_account_for_sticky :
      Pool → String → String → Excluded → Timestamp → Option Account
  unfolding pick_balanced_account eligible_accounts
  preferred_account_for_sticky p sticky_key model excluded now =
      pick_balanced_account p now sticky_key (eligible_accounts p model excluded now)

  unfoldable pub preferred_lineage_account :
      Pool → String → String → List String → Excluded → Timestamp → Option Account
  unfolding pick_balanced_account eligible_accounts narrow all usable
  preferred_lineage_account p balance_key model models excluded now =
      let eligible = eligible_accounts p model excluded now in
      let joint =
        narrow (λ item. all (λ other. str_eq other model || usable p item other now) models)
          eligible in
      pick_balanced_account p now balance_key (if ltb 1 (length models) then joint else eligible)

  -- The replacement of a bound account: usable for the whole lineage where `models` is given.
  unfoldable pub replacement_for :
      Pool → String → String → Option (List String) → Excluded → Timestamp → Option Account
  unfolding preferred_account_for_sticky preferred_lineage_account
  replacement_for p balance_key model none excluded now =
      preferred_account_for_sticky p balance_key model excluded now
  replacement_for p balance_key model (some models) excluded now =
      preferred_lineage_account p balance_key model models excluded now

  -- A bound account that may serve: it stays, unless the session moves to the replacement.
  unfoldable pub keep_or_move : Pool → Account → Option Account → Timestamp → Account
  unfolding bound_session_may_move bound_session_moves_to
  keep_or_move p current none now = current
  keep_or_move p current (some replacement) now =
      if bound_session_may_move p current now && bound_session_moves_to p current replacement now
      then replacement
      else current

  unfoldable pub lineage_preference :
      Pool
      → String
      → String
      → String
      → Option (List String)
      → Excluded
      → Bool
      → Timestamp
      → Result SelectError (Option Account)
  unfolding account selectable_account keep_or_move replacement_for is_excluded
      account_auth_verification_pending
  lineage_preference p id balance_key model models excluded hold_for_repair now =
      elim (account p id) [
        | none ↦ ok none
        | some lineage ↦
            if selectable_account p lineage model excluded now
            then ok (
                some (
                  keep_or_move p lineage (replacement_for p balance_key model models excluded now)
                    now))
            else if hold_for_repair
                && not (is_excluded excluded lineage.id)
                && account_auth_verification_pending p lineage
            then err auth_repair_pending
            else ok none
      ]

  -- What strict selection does with the answer of `lineage_preference`.
  unfoldable pub lineage_or_new :
      Pool
      → String
      → String
      → List String
      → Excluded
      → Timestamp
      → Result SelectError (Option Account)
      → Result SelectError Account
  unfolding preferred_lineage_account or_fallback
  lineage_or_new p balance_key model models excluded now (err e) = err e
  lineage_or_new p balance_key model models excluded now (ok (some selected)) = ok selected
  lineage_or_new p balance_key model models excluded now (ok none) =
      or_fallback p model excluded now
        (preferred_lineage_account p balance_key model models excluded now)

  -- The selection of a lineage's account, which depends on its root and the balance key only.
  unfoldable pub lineage_selection :
      Pool → String → String → String → Excluded → Timestamp → Result SelectError Account
  unfolding lineage_account_id lineage_models lineage_preference lineage_or_new
  lineage_selection p root balance_key model excluded now =
      let bound = unwrap_or (lineage_account_id p root now) "" in
      let models = lineage_models p root model now in
      lineage_or_new p balance_key model models excluded now (
        if is_empty bound
        then ok none
        else lineage_preference p bound balance_key model (some models) excluded true now)

  unfoldable pub select_lineage_account :
      Pool
      → RoutingDecision
      → String
      → String
      → Excluded
      → Timestamp
      → RoutingDecision × Result SelectError Account
  unfolding lineage_account_id lineage_selection
  select_lineage_account p route balance_key model excluded now =
      let root = route.identity.lineage_root_id in
      (
        record route { lineage_account_id = unwrap_or (lineage_account_id p root now) "" },
        lineage_selection p root balance_key model excluded now,
      )

  -- After the session's own route: the parent's account, a balanced choice, the fallback.
  unfoldable pub parent_or_new :
      Pool → String → String → String → Excluded → Timestamp → Result SelectError Account
  unfolding lineage_preference preferred_account_for_sticky or_fallback
  parent_or_new p balance_key model parent excluded now =
      let new =
        or_fallback p model excluded now
          (preferred_account_for_sticky p balance_key model excluded now) in
      if is_empty parent
      then new
      else elim (lineage_preference p parent balance_key model none excluded false now) [
        | err e ↦ new
        | ok none ↦ new
        | ok (some selected) ↦ ok selected
      ]

  unfoldable pub own_route : Pool → String → String → Excluded → Timestamp → StickySession → Own
  unfolding account usable sticky_session_expired is_excluded keep_or_move
      preferred_account_for_sticky account_auth_verification_pending
  own_route p balance_key model excluded now existing =
      if is_excluded excluded existing.account_id
      then pass
      else if sticky_session_expired p existing now
      then drop_route
      else elim (account p existing.account_id) [
        | none ↦ drop_route
        | some item ↦
            if usable p item model now
            then answer (
                ok (
                  keep_or_move p item
                    (preferred_account_for_sticky p balance_key model excluded now) now))
            else if account_auth_verification_pending p item
            then answer (err auth_repair_pending)
            else pass
      ]

  unfoldable pub after_own :
      Pool
      → String
      → String
      → String
      → String
      → Excluded
      → Timestamp
      → Own
      → Pool × Result SelectError Account
  unfolding remove parent_or_new
  after_own p key balance_key model parent excluded now (answer r) = (p, r)
  after_own p key balance_key model parent excluded now pass =
      (p, parent_or_new p balance_key model parent excluded now)
  after_own p key balance_key model parent excluded now drop_route =
      let q =
        save (put_state p (record p.state { sticky_sessions = remove key p.sticky_sessions }))
          now in
      (q, parent_or_new q balance_key model parent excluded now)

  unfoldable pub select_account_with_preference :
      Pool
      → String
      → String
      → String
      → String
      → Excluded
      → Timestamp
      → Pool × Result SelectError Account
  unfolding get own_route after_own
  select_account_with_preference p key balance_key model parent excluded now =
      after_own p key balance_key model parent excluded now (elim (get key p.sticky_sessions) [
        | none ↦ pass
        | some existing ↦ own_route p balance_key model excluded now existing
      ])

  unfoldable pub select_account_for_route :
      Pool
      → RoutingDecision
      → String
      → Excluded
      → Timestamp
      → Pool × RoutingDecision × Result SelectError Account
  unfolding select_lineage_account select_account_with_preference
  select_account_for_route p route model excluded now =
      let balance_key =
        if is_empty route.balance_key then route.sticky_key else route.balance_key in
      let (route', r) = select_lineage_account p route balance_key model excluded now in
      let (q, r') =
        select_account_with_preference p route.sticky_key balance_key model route.lineage_account_id
          excluded now in
      if route.lineage_affinity && not (is_empty route.identity.lineage_root_id)
      then (p, route', r)
      else (q, route, r')

-- `note_session_placement`.
unfoldable pub note_session_placement : Pool → String → String → Timestamp → Pool
unfolding insert retain
note_session_placement p balance_key id now =
    if is_empty balance_key || is_empty id then p else record p {
      session_placements =
          retain (λ placed. leb (now - placed.at) placement_active_window)
            (insert balance_key (record { account_id = id; at = now }) p.session_placements);
    }
