-- ===== src/Proxy/Rounds.antt =====
-- Each round of the loop of upstream/src/pool/proxy.rs ends the request or is a move, on an account that
-- the request had not tried.
use codex_provider.Base.{ℕ, ◌≡◌, ◌⊎◌, refl, String, false, inl, inr, Bool-cases, Result, ok, err}
use codex_provider.Time.{Timestamp}
use codex_provider.State.{Pool, Account}
use codex_provider.Select.{RoutingDecision, SelectError, Draw}
use codex_provider.Select.Choice.{select_account_for_route}
use codex_provider.Proxy.{
  selection_reply, error_reply, Tuning, Answer, Attempts, Step, again, ended, has_upstream_base,
}
use codex_provider.Proxy.Moves.{view, Move}
use codex_provider.Select.{is_excluded}
use codex_provider.Select.Serves.{Serves}
use codex_provider.Select.Answers.{select-Serves}
use codex_provider.Proxy.Attempt.{placed, on_forwarded, on_candidate, on_selected, attempt_step}
use codex_provider.Proxy.Follows.{EndsWith, Follows, on_forwarded-Follows}

module _ (tuning : Tuning) (limit : ℕ) where
  module _ (draw : Draw) (model : String) where
    -- The step ends the request, for want of an account that can be selected, of a base URL of the
    -- selected one, or as the answer does; or it is a move on the selected account, which the request
    -- had not tried.
    abbrev pub Round : Attempts → Answer → Timestamp → Step → Type 0
    Round s answer now (again t) =
        (p : Pool) × (route : RoutingDecision) × (candidate : Account) × (select_account_for_route
            draw s.pool s.route model s.excluded now
          ≡ (p, route, ok candidate))
        × (is_excluded s.excluded candidate.id ≡ false)
        × Move tuning candidate.id answer (view s) (view t)
    Round s answer now (ended d) =
        (p : Pool) × (route : RoutingDecision) × (((e : SelectError) × (select_account_for_route
                draw s.pool s.route model s.excluded now
              ≡ (p, route, err e))
            × (d.reply ≡ selection_reply e s.excluded))
          ⊎ ((candidate : Account) × (select_account_for_route draw s.pool s.route model s.excluded
                  now
                ≡ (p, route, ok candidate))
              × (((has_upstream_base tuning candidate ≡ false)
                    × (d.reply
                        ≡ error_reply 502 "bad_gateway" "selected account has no upstreamBaseUrl"))
                  ⊎ EndsWith answer d.reply)))

    -- A round on a selected account.
    on_candidate-Round :
        (s : Attempts) (p : Pool) (route : RoutingDecision) (candidate : Account) (answer : Answer)
        (now : Timestamp)
        → select_account_for_route draw s.pool s.route model s.excluded now
          ≡ (p, route, ok candidate)
        → Round s answer now (
            on_candidate tuning limit
              (record s { pool = p; route = route })
              model
              candidate
              answer
              now)
    unfolding on_candidate Serves
    on_candidate-Round s p route candidate answer now found =
        let serves =
          select-Serves draw model s.excluded now s.pool p s.route route candidate found in
        let t = placed (record s { pool = p; route = route }) candidate.id model now in
        elim (Bool-cases (has_upstream_base tuning candidate)) [
          | inr e ↦ rw e (p, route, inr (candidate, found, inl (e, refl)))
          | inl e ↦ rw e (
              forwarded (on_forwarded tuning limit t model candidate.id answer now) serves.1
                (on_forwarded-Follows tuning limit t model candidate.id answer now))
        ]
      where
        forwarded :
            (step : Step)
            → is_excluded s.excluded candidate.id ≡ false
            → Follows tuning limit candidate.id answer (view s) step
            → Round s answer now step
        forwarded (again t) fresh move = (p, route, candidate, found, fresh, move)
        forwarded (ended d) fresh ends = (p, route, inr (candidate, found, inr ends))

    on_selected-Round :
        (s : Attempts) (selected : Pool × RoutingDecision × Result SelectError Account)
        (answer : Answer) (now : Timestamp)
        → select_account_for_route draw s.pool s.route model s.excluded now ≡ selected
        → Round s answer now (on_selected draw tuning limit model s selected answer now)
    unfolding on_selected
    on_selected-Round s (p, route, err e) answer now found = (p, route, inl (e, found, refl))
    on_selected-Round s (p, route, ok candidate) answer now found =
        on_candidate-Round s p route candidate answer now found

    -- Whatever the request's history, upstream's answer and the client do, a round of the loop is a move
    -- that the answer allows, on the selected account, which the request had not tried; or it ends the
    -- request, with the reply of the selection's error, with an error where the selected account has no
    -- base URL, or with a reply that the answer allows.
    pub attempt_step-Round :
        (s : Attempts) (answer : Answer) (now : Timestamp)
        → Round s answer now (attempt_step draw tuning limit model s answer now)
    unfolding attempt_step
    attempt_step-Round s answer now =
        on_selected-Round s (select_account_for_route draw s.pool s.route model s.excluded now)
          answer now refl
