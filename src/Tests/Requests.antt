-- ===== src/Tests/Requests.antt =====
-- A request on the pool of two logins: `ann` refuses it, `bob` answers.
use codex_provider.Base.{
  ℕ, zero, suc, ◌≡◌, ◌≢◌, refl, String, true, false, Option, none, some, [], ◌∷◌, arith, str_eq, ok,
}
use codex_provider.Time.{Timestamp}
use codex_provider.Select.{RoutingDecision}
use codex_provider.Select.Choice.{select_account_for_route}
use codex_provider.Proxy.{
  Answer, answered, credential_unusable, unreachable, Reply, relayed, Attempts, End, Step, again,
  ended,
}
use codex_provider.Proxy.Attempt.{attempt_step, attempts, on_selected}
use codex_provider.Proxy.Moves.{view, measure, Within}
use codex_provider.Proxy.Rounds.{Round, attempt_step-Round}
use codex_provider.State.{Pool}
use codex_provider.Proxy.Frame.{active}
use codex_provider.Proxy.Serve.{proxy}
use codex_provider.Proxy.Once.{proxy-settles}
use codex_provider.Proxy.Fuel.{attempts-total, Reaches, Reaches-Within, Reaches-not_selected}
use codex_provider.Tests.{
  moment, ann, bob, bound_pool, even, route_of, some_tuning, first_attempts, response_with,
}

-- The first round is refused, every other one answered; `answers` are read by the fuel that is left.
abbrev refused_then_answered : ℕ → Timestamp × Answer
refused_then_answered n = (
  moment,
  elim n [
    | zero ↦ credential_unusable
    | suc m ↦ elim m [ zero ↦ answered (response_with 200) | suc k ↦ credential_unusable ]
  ],
)

abbrev reply_of : Option End → Option (Reply × String)
reply_of none = none
reply_of (some e) = some (e.reply, e.throughput.account_id)

fails_over :
    reply_of (attempts even some_tuning 2 "m" 3 first_attempts refused_then_answered)
    ≡ some (relayed 200, "bob")
unfolding attempts attempt_step on_selected select_account_for_route
fails_over = refl

attempts-total_example :
    attempts even some_tuning 2 "m" 32 first_attempts refused_then_answered ≢ none
unfolding measure
attempts-total_example =
    attempts-total some_tuning 2 even "m" 32 first_attempts refused_then_answered (omega arith)

attempt_step-Round_example :
    Round some_tuning 2 even "m" first_attempts credential_unusable moment
      (attempt_step even some_tuning 2 "m" first_attempts credential_unusable moment)
attempt_step-Round_example =
    attempt_step-Round some_tuning 2 even "m" first_attempts credential_unusable moment

-- `ann` has refused the request for good.
abbrev ann_refused : Attempts
ann_refused = record first_attempts {
  excluded = "ann" ∷ [];
  budget = record first_attempts.budget { spent = 1 };
}

-- Upstream is not reached on `bob`, who is tried again.
abbrev after_retry : Attempts
after_retry = record ann_refused {
  pool = record bound_pool {
    session_placements = ("key", record { account_id = "bob"; at = moment }) ∷ [];
  };
  route = record (route_of "t" "root") { lineage_account_id = "ann" };
  budget = record ann_refused.budget { transport_retries = 1 };
  throughput = record first_attempts.throughput { account_id = "bob"; model = "m" };
}

retried :
    attempt_step even some_tuning 2 "m" ann_refused (unreachable true) moment ≡ again after_retry
unfolding attempt_step on_selected select_account_for_route
retried = refl

path : Reaches some_tuning 2 even "m" ann_refused after_retry
path = Reaches.round ann_refused (unreachable true) moment Reaches.start retried

Reaches-Within_example : Within (view after_retry)
Reaches-Within_example =
    Reaches-Within some_tuning 2 even "m" ann_refused after_retry path (omega arith)

-- The variables after a round that goes on.
abbrev after : Step → Attempts
after (again t) = t
after (ended e) = first_attempts

-- The credential of `ann` is unusable, then upstream is not reached on `bob`, who is tried again.
abbrev without_ann : Attempts
without_ann = after (attempt_step even some_tuning 2 "m" first_attempts credential_unusable moment)

abbrev bob_unreached : Attempts
bob_unreached = after (attempt_step even some_tuning 2 "m" without_ann (unreachable true) moment)

abbrev ann_route : RoutingDecision
ann_route = record (route_of "t" "root") { lineage_account_id = "ann" }

ann_first :
    select_account_for_route even first_attempts.pool first_attempts.route "m" [] moment
    ≡ (bound_pool, ann_route, ok ann)
unfolding select_account_for_route
ann_first = refl

ann_fails :
    attempt_step even some_tuning 2 "m" first_attempts credential_unusable moment
    ≡ again without_ann
unfolding attempt_step on_selected select_account_for_route
ann_fails = refl

bob_retried :
    attempt_step even some_tuning 2 "m" without_ann (unreachable true) moment ≡ again bob_unreached
unfolding attempt_step on_selected select_account_for_route
bob_retried = refl

bob_again :
    select_account_for_route even bob_unreached.pool bob_unreached.route "m" bob_unreached.excluded
      moment
    ≡ (bob_unreached.pool, bob_unreached.route, ok bob)
unfolding attempt_step on_selected select_account_for_route
bob_again = refl

Reaches-not_selected_example : str_eq "bob" "ann" ≡ false
Reaches-not_selected_example =
    Reaches-not_selected some_tuning 2 even "m" first_attempts first_attempts without_ann
      bob_unreached credential_unusable moment moment bound_pool bob_unreached.pool ann_route
      bob_unreached.route ann bob refl Reaches.start ann_first refl ann_fails
      (Reaches.round without_ann (unreachable true) moment Reaches.start bob_retried) bob_again

proxy-settles_example :
    (q : Pool) × (reply : Reply) × (proxy even some_tuning 2 "m" 32 bound_pool
        (route_of "t" "root")
        false
        moment
        refused_then_answered
        moment
      ≡ some (q, reply))
    × (active q ≡ active bound_pool)
unfolding measure
proxy-settles_example =
    proxy-settles some_tuning 2 even "m" 32 bound_pool (route_of "t" "root") false moment moment
      refused_then_answered (omega arith)
