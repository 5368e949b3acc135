-- ===== src/Proxy/Fuel.antt =====
-- The loop of upstream/src/pool/proxy.rs over all its rounds: that it ends, which accounts it tries
-- again, and its count of attempts.
use codex_provider.Base.{
  str_eq, ap, sym, ◌∙◌, ◌+◌, [], true, Result, err, ℕ, zero, suc, ◌<◌, ◌≡◌, ◌≢◌, ◌⊎◌, refl, subst,
  String, false, none, inl, inr, arith, Bool-cases, ltb→lt, ok,
}
use codex_provider.Time.{Timestamp}
use codex_provider.State.{Pool, Account}
use codex_provider.Select.{RoutingDecision, Draw, SelectError}
use codex_provider.Select.Choice.{select_account_for_route}
use codex_provider.Proxy.{is_within, Tuning, Answer, Attempts, End, Step, again, ended}
use codex_provider.Proxy.Attempt.{attempt_step, attempts}
use codex_provider.Select.Answers.{select-Serves}
use codex_provider.Select.Serves.{Serves}
use codex_provider.Proxy.Moves.{view, measure, Move-measure, Within, Move-Within, fails_for_good}
use codex_provider.Proxy.Refusals.{
  Refused, Move-Refused, tried_apart, Among, empty-Among, Move-Among, Move-for_good,
}
use codex_provider.Proxy.Rounds.{attempt_step-Round, Round}

pub Step-cases : (x : Step) → ((s : Attempts) × (x ≡ again s)) ⊎ ((e : End) × (x ≡ ended e))
Step-cases (again s) = inl (s, refl)
Step-cases (ended e) = inr (e, refl)

module _ (tuning : Tuning) (limit : ℕ) (draw : Draw) (model : String) where
  -- A round that goes on is a move on the selected account, which the request had not tried.
  moved :
      (s t : Attempts) (answer : Answer) (now : Timestamp)
      → attempt_step draw tuning limit model s answer now ≡ again t
      → Round tuning limit draw model s answer now (again t)
  moved s t answer now e =
      subst (Round tuning limit draw model s answer now) e
        (attempt_step-Round tuning limit draw model s answer now)

  -- A round that goes on leaves less to spend.
  round-measure :
      (s t : Attempts) (answer : Answer) (now : Timestamp)
      → s.budget.spent < limit + s.budget.given_back
      → attempt_step draw tuning limit model s answer now ≡ again t
      → measure tuning limit (view t) < measure tuning limit (view s)
  round-measure s t answer now inside e =
      let (_, _, candidate, _, _, move) = moved s t answer now e in
      Move-measure tuning limit candidate.id answer (view s) (view t) inside move

  -- Whatever upstream and the client do, in whatever order, a request ends: with as many rounds of
  -- fuel as there is to spend, and one, the loop has a result.
  pub attempts-total :
      (fuel : ℕ) (s : Attempts) (answers : ℕ → Timestamp × Answer)
      → measure tuning limit (view s) < fuel
      → attempts draw tuning limit model fuel s answers ≢ none
  unfolding attempts
  attempts-total zero s answers h = omega (arith, h)
  attempts-total (suc fuel) s answers h =
      let (now, answer) = answers fuel in
      elim (Bool-cases (is_within s.budget limit)) [
        | inr e ↦ rw e (λ same. cc)
        | inl e ↦ elim (Step-cases (attempt_step draw tuning limit model s answer now)) [
          | inl (t, f) ↦
              let less = round-measure s t answer now (ltb→lt _ _ e) f in
              rw (e, f) (attempts-total fuel t answers (omega (arith, less, h)))
          | inr (d, f) ↦ rw (e, f) (λ same. cc)
        ]
      ]

  -- The variables of the loop that its rounds lead to.
  pub data Reaches (s : Attempts) : Attempts → Type 0 where
    start : Reaches s s
    round :
        {u : Attempts} (t : Attempts) (answer : Answer) (now : Timestamp)
        → Reaches s t
        → attempt_step draw tuning limit model t answer now ≡ again u
        → Reaches s u

  -- Where it was so at the start of some rounds, it is so after them: the accounts that are excluded and
  -- the attempts that waits gave back come to no more than the attempts that were spent. So the count of
  -- attempts, which is the difference of the last two, is never below the number of excluded accounts.
  pub Reaches-Within : (s t : Attempts) → Reaches s t → Within (view s) → Within (view t)
  Reaches-Within s t Reaches.start within = within
  Reaches-Within s u (Reaches.round t answer now path e) within =
      let (_, _, candidate, _, _, move) = moved t u answer now e in
      Move-Within tuning candidate.id answer (view t) (view u) move (Reaches-Within s t path within)

  Reaches-Refused :
      (s t : Attempts) (other : String)
      → Reaches s t
      → Refused other (view s)
      → Refused other (view t)
  Reaches-Refused s t other Reaches.start r = r
  Reaches-Refused s u other (Reaches.round t answer now path e) r =
      let (_, _, candidate, _, fresh, move) = moved t u answer now e in
      Move-Refused tuning candidate.id other answer (view t) (view u) fresh move
        (Reaches-Refused s t other path r)

  Reaches-Among : (s t : Attempts) → Reaches s t → Among (view s) → Among (view t)
  Reaches-Among s t Reaches.start sub = sub
  Reaches-Among s u (Reaches.round t answer now path e) sub =
      let (_, _, candidate, _, _, move) = moved t u answer now e in
      Move-Among tuning candidate.id answer (view t) (view u) move (Reaches-Among s t path sub)

  -- From a start at which no account is noted as short of capacity: where a selected account failed for good in a round,
  -- its credential refused or unusable or a server error of upstream on it, and the request went on, no
  -- later round selects that account, however many rounds, waits and restored accounts come between.
  pub Reaches-not_selected :
      (s t u w : Attempts) (answer : Answer) (now then : Timestamp) (p q : Pool)
      (route way : RoutingDecision) (refuser candidate : Account)
      → s.capacity_excluded ≡ []
      → Reaches s t
      → select_account_for_route draw t.pool t.route model t.excluded now ≡ (p, route, ok refuser)
      → fails_for_good answer ≡ true
      → attempt_step draw tuning limit model t answer now ≡ again u
      → Reaches u w
      → select_account_for_route draw w.pool w.route model w.excluded then ≡ (q, way, ok candidate)
      → str_eq candidate.id refuser.id ≡ false
  unfolding Serves
  Reaches-not_selected s t u w answer now then p q route way refuser candidate none_waiting before
        chosen bad step after found =
      let (_, _, selected, same, fresh, move) = moved t u answer now step in
      let sub = Reaches-Among s t before (empty-Among (view s) none_waiting) in
      let refused = Move-for_good tuning selected.id answer (view t) (view u) bad fresh sub move in
      let one : selected.id ≡ refuser.id = ap id_of (sym same ∙ chosen) in
      let kept =
        Reaches-Refused u w refuser.id after (subst (λ i. Refused i (view u)) one refused) in
      let serves = select-Serves draw model w.excluded then w.pool q w.route way candidate found in
      tried_apart candidate.id refuser.id w.excluded serves.1 kept.0
    where
      id_of : Pool × RoutingDecision × Result SelectError Account → String
      id_of (p, route, ok a) = a.id
      id_of (p, route, err e) = ""
