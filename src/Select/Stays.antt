-- ===== src/Select/Stays.antt =====
-- upstream/src/pool/routing.rs: a bound session or lineage keeps its account while that can serve.
use codex_provider.Base.Maps.{get}
use codex_provider.Base.Text.{is_empty}
use codex_provider.Base.{
  ◌<◌, ◌≡◌, refl, String, Bool, true, false, Option, none, some, List, Bool-cases, ◌⊎◌, inl, inr,
  ok,
}
use codex_provider.Time.{Timestamp}
use codex_provider.State.{Pool, Account}
use codex_provider.State.Bindings.{StickySession}
use codex_provider.Identity.{account}
use codex_provider.Eligibility.{usable}
use codex_provider.Affinity.{sticky_session_expired, lineage_account_id}
use codex_provider.Select.{
  Draw, Excluded, is_excluded, selectable_account, bound_session_may_move, bound_session_moves_to,
}
use codex_provider.Select.Red.{rank, move-rank}
use codex_provider.Select.Choice.{
  keep_or_move, lineage_models, lineage_preference, lineage_or_new, lineage_selection,
  replacement_for, preferred_account_for_sticky, own_route, after_own,
  select_account_with_preference,
}

module _ (draw : Draw) (p : Pool) (now : Timestamp) where
  keep_or_move-rank :
      (a : Account) (o : Option Account)
      → (keep_or_move draw p a o now ≡ a)
        ⊎ (rank p now (keep_or_move draw p a o now) < rank p now a)
  unfolding keep_or_move
  keep_or_move-rank a none = inl refl
  keep_or_move-rank a (some b) = elim (Bool-cases (bound_session_may_move p a now)) [
    | inr e ↦ rw e (inl refl)
    | inl e ↦ elim (Bool-cases (bound_session_moves_to p a b now)) [
      | inr f ↦ rw (e, f) (inl refl)
      | inl f ↦ rw (e, f) (inr (move-rank p now a b f))
    ]
  ]

  preference_kept :
      (balance_key model id : String) (models : Option (List String)) (excluded : Excluded)
      (hold : Bool) (a : Account)
      → account p id ≡ some a
      → selectable_account p a model excluded now ≡ true
      → lineage_preference draw p id balance_key model models excluded hold now
        ≡ ok (
            some (
              keep_or_move draw p a
                (replacement_for draw p balance_key model models excluded now)
                now))
  unfolding lineage_preference
  preference_kept balance_key model id models excluded hold a found can =
      rw (found, lineage_preference, can) refl

  -- While the account of a lineage can serve, the lineage is answered it, or an account that goes
  -- before it: one with an expiring reset credit where its own has none, or, of two alike in that
  -- and with Use Pro last, one of a lower tier.
  pub lineage_selection-stays :
      (root balance_key model : String) (excluded : Excluded) (id : String) (a : Account)
      → lineage_account_id p root now ≡ some id
      → is_empty id ≡ false
      → account p id ≡ some a
      → selectable_account p a model excluded now ≡ true
      → (b : Account) × (lineage_selection draw p root balance_key model excluded now ≡ ok b)
        × ((b ≡ a) ⊎ (rank p now b < rank p now a))
  unfolding lineage_selection lineage_preference lineage_or_new
  lineage_selection-stays root balance_key model excluded id a bound named found can =
      let other =
        replacement_for draw p balance_key model (some (lineage_models p root model now)) excluded
          now in
      (
        keep_or_move draw p a other now,
        rw
            (
              bound,
              lineage_selection,
              named,
              preference_kept balance_key model id (some (lineage_models p root model now)) excluded
                  true a found can,
            )
            refl,
        keep_or_move-rank a other,
      )

  -- While the account of a live session is usable and the request has not tried it, the session is
  -- answered it, or an account that goes before it, and the pool stays as it was.
  pub sticky_session-stays :
      (key balance_key model parent : String) (excluded : Excluded) (s : StickySession)
      (a : Account)
      → get key p.sticky_sessions ≡ some s
      → is_excluded excluded s.account_id ≡ false
      → sticky_session_expired p s now ≡ false
      → account p s.account_id ≡ some a
      → usable p a model now ≡ true
      → (b : Account) × (select_account_with_preference draw p key balance_key model parent excluded
            now
          ≡ (p, ok b))
        × ((b ≡ a) ⊎ (rank p now b < rank p now a))
  unfolding select_account_with_preference own_route after_own
  sticky_session-stays key balance_key model parent excluded s a bound fresh live found can =
      let other = preferred_account_for_sticky draw p balance_key model excluded now in
      (
        keep_or_move draw p a other now,
        rw (bound, select_account_with_preference, fresh, live, found, can) refl,
        keep_or_move-rank a other,
      )
