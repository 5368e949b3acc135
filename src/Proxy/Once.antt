-- ===== src/Proxy/Once.antt =====
-- A request of upstream/src/pool/proxy.rs from its start to its end: it is answered, and its
-- measurement is settled once, on every path of the loop.
use codex_provider.Base.{
  ℕ, zero, suc, ◌<◌, ◌≡◌, refl, String, Bool, Option, none, some, [], inl, inr, arith, Bool-cases,
  Option-cases, subst,
}
use codex_provider.Time.{Timestamp}
use codex_provider.State.{Pool}
use codex_provider.Select.{RoutingDecision, Draw}
use codex_provider.Outcome.Throughput.{begin_throughput_measurement}
use codex_provider.Outcome.Traffic.{is_open}
use codex_provider.Proxy.{is_within, Tuning, Answer, Reply, Attempts, End}
use codex_provider.Proxy.Attempt.{attempt_step, attempts}
use codex_provider.Proxy.Frame.{active}
use codex_provider.Proxy.Counts.{Counts, finish-Counts}
use codex_provider.Proxy.Settled.{StepCounts, attempt_step-Counts}
use codex_provider.Proxy.Moves.{View, measure}
use codex_provider.Proxy.Fuel.{attempts-total, Step-cases}
use codex_provider.Proxy.Serve.{start_of, unspent, settle, proxy}

-- A request that has tried no account yet.
abbrev pub untried : View
untried = record { excluded = []; capacity_excluded = []; budget = unspent }

module _ (tuning : Tuning) (limit : ℕ) (draw : Draw) (model : String) where
  -- The count at the end of the loop, if it ends.
  EndCounts : ℕ → Option End → Type 0
  EndCounts n none = Unit
  EndCounts n (some e) = Counts n e.pool e.throughput

  attempts-Counts :
      (n fuel : ℕ) (s : Attempts) (answers : ℕ → Timestamp × Answer)
      → Counts n s.pool s.throughput
      → EndCounts n (attempts draw tuning limit model fuel s answers)
  unfolding attempts EndCounts
  attempts-Counts n zero s answers c = tt
  attempts-Counts n (suc fuel) s answers c =
      let (now, answer) = answers fuel in
      let next = attempt_step-Counts n tuning limit draw model s answer now c in
      elim (Bool-cases (is_within s.budget limit)) [
        | inr e ↦ rw e c
        | inl e ↦ elim (Step-cases (attempt_step draw tuning limit model s answer now)) [
          | inl (t, f) ↦ rw (e, f) (attempts-Counts n fuel t answers (subst (StepCounts n) f next))
          | inr (d, f) ↦ rw (e, f) (subst (StepCounts n) f next)
        ]
      ]

  -- Whatever upstream and the client do, in whatever order, and as many other requests as are under
  -- way: with as many rounds of fuel as an unspent budget has to spend, and one, the request ends with
  -- a reply, and the requests under way are as many as before it.
  pub proxy-settles :
      (fuel : ℕ) (p : Pool) (route : RoutingDecision) (streaming : Bool) (begun over : Timestamp)
      (answers : ℕ → Timestamp × Answer)
      → measure tuning limit untried < fuel
      → (q : Pool) × (reply : Reply) × (proxy draw tuning limit model fuel p route streaming begun
            answers over
          ≡ some (q, reply))
        × (active q ≡ active p)
  unfolding proxy settle begin_throughput_measurement is_open EndCounts
  proxy-settles fuel p route streaming begun over answers h =
      let (q, m) = begin_throughput_measurement p streaming begun in
      let s = start_of q route m in
      let counts = attempts-Counts (active p) fuel s answers (omega arith) in
      elim (Option-cases (attempts draw tuning limit model fuel s answers)) [
        | inl e ↦ absurd (attempts-total tuning limit draw model fuel s answers h e)
        | inr (e, f) ↦
            let closed =
              finish-Counts (active p) e.pool e.throughput over
                (subst (EndCounts (active p)) f counts) in
            rw f (_, _, refl, closed.0)
      ]
