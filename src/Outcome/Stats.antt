-- ===== src/Outcome/Stats.antt =====
-- The prompt-cache statistics and the diagnostics of upstream/src/pool/outcome.rs stay consistent and
-- bounded.
use codex_provider.Base.Maps.{get, All-insert, get-All}
use codex_provider.Base.Text.{ends_with}
use codex_provider.Base.{
  ℕ, zero, suc, ◌+◌, ◌≤◌, ◌≡◌, String, Bool, true, false, ◌&&◌, Option, none, some, inl, inr, All,
  arith, Option-cases, leb, ltb, ◌==◌, unwrap_or, if◌then◌else◌,
}
use codex_provider.Time.{Timestamp}
use codex_provider.State.{Pool}
use codex_provider.State.Bindings.{RequestIdentity}
use codex_provider.State.Usage.{PromptCacheUsage, PromptCacheStat}
use codex_provider.Outcome.Throughput.{one_if}
use codex_provider.Outcome.Cache.{
  Affinities, count_write, count_usage, count_result, record_prompt_cache_result, no_stat,
  prompt_cache_min_tokens, stat_key, agent_kind, note_unrecognized_failure,
}

-- Every rate that the dashboard makes of a statistic is one of a part and a whole.
-- `room` is how many more requests the last three counts could be raised for.
pub record Consistent (room : ℕ) (s : PromptCacheStat) : Type 0 where
  pub observed : s.usage_observed_request_count ≤ s.request_count
  pub hit_or_cold :
      s.cache_hit_request_count + s.cold_request_count ≤ s.usage_observed_request_count
  pub cold : s.cold_request_count ≤ s.cache_eligible_request_count
  pub eligible : s.cache_eligible_request_count ≤ s.usage_observed_request_count
  pub writes : s.cache_write_observed_request_count ≤ s.usage_observed_request_count
  pub write_tokens : s.cache_write_input_tokens ≤ s.input_tokens
  pub cached_tokens : s.cached_tokens ≤ s.input_tokens
  pub affinities :
      s.parent_affinity_hit_count + s.parent_affinity_fallback_count + room ≤ s.request_count
  pub moved_lineages : s.lineage_failover_count + room ≤ s.request_count
  pub failovers : s.routing_failover_count + room ≤ s.request_count

-- A request is not both a hit and cold, and a cold one is eligible.
hit_or_cold_once :
    (eligible : Bool) (cached : ℕ)
    → (one_if (ltb 0 cached) + one_if (eligible && cached == 0) ≤ 1)
      × (one_if (eligible && cached == 0) ≤ one_if eligible)
      × (one_if eligible ≤ 1)
hit_or_cold_once true zero = (omega arith, omega arith, omega arith)
hit_or_cold_once false zero = (omega arith, omega arith, omega arith)
hit_or_cold_once true (suc n) = ground arith
hit_or_cold_once false (suc n) = ground arith

one_if-le : (b : Bool) → one_if b ≤ 1
one_if-le true = omega arith
one_if-le false = omega arith

count_write-Consistent :
    (usage : PromptCacheUsage) (written : Option ℕ) (s : PromptCacheStat)
    → Consistent 1 s
    → s.cache_write_observed_request_count + 1 ≤ s.usage_observed_request_count
    → s.cache_write_input_tokens + usage.input_tokens ≤ s.input_tokens
    → Consistent 1 (count_write usage written s)
unfolding count_write
count_write-Consistent usage none s c room tokens = c
count_write-Consistent usage (some written) s c room tokens = record {
  observed = c.observed;
  hit_or_cold = c.hit_or_cold;
  cold = c.cold;
  eligible = c.eligible;
  writes = room;
  write_tokens = tokens;
  cached_tokens = c.cached_tokens;
  affinities = c.affinities;
  moved_lineages = c.moved_lineages;
  failovers = c.failovers;
}

either-Consistent :
    (b : Bool) (s t : PromptCacheStat)
    → Consistent 1 s
    → Consistent 1 t
    → Consistent 1 (if b then s else t)
either-Consistent true s t c d = c
either-Consistent false s t c d = d

-- A statistic with one more request has room for one more of each.
with_request-Consistent :
    (s : PromptCacheStat)
    → Consistent 0 s
    → Consistent 1 (record s { request_count = s.request_count + 1 })
with_request-Consistent s c = record {
  observed = omega (arith, c.observed);
  hit_or_cold = c.hit_or_cold;
  cold = c.cold;
  eligible = c.eligible;
  writes = c.writes;
  write_tokens = c.write_tokens;
  cached_tokens = c.cached_tokens;
  affinities = omega (arith, c.affinities);
  moved_lineages = omega (arith, c.moved_lineages);
  failovers = omega (arith, c.failovers);
}

count_usage-Consistent :
    (usage : PromptCacheUsage) (s : PromptCacheStat)
    → usage.cached_tokens ≤ usage.input_tokens
    → Consistent 0 s
    → Consistent 1 (count_usage usage (record s { request_count = s.request_count + 1 }))
unfolding count_usage
count_usage-Consistent usage s within c =
    let eligible = leb prompt_cache_min_tokens usage.input_tokens in
    let (once, cold, at_most) = hit_or_cold_once eligible usage.cached_tokens in
    either-Consistent usage.present _ _
      (count_write-Consistent usage usage.cache_write_tokens _
        (record {
          observed = omega (arith, c.observed);
          hit_or_cold = omega (arith, c.hit_or_cold, once);
          cold = omega (arith, c.cold, cold);
          eligible = omega (arith, c.eligible, at_most);
          writes = omega (arith, c.writes);
          write_tokens = omega (arith, c.write_tokens);
          cached_tokens = omega (arith, c.cached_tokens, within);
          affinities = omega (arith, c.affinities);
          moved_lineages = omega (arith, c.moved_lineages);
          failovers = omega (arith, c.failovers);
        })
        (omega (arith, c.writes)) (omega (arith, c.write_tokens)))
      (with_request-Consistent s c)

one_affinity : (hit fallback : Bool) → hit && fallback ≡ false → one_if hit + one_if fallback ≤ 1
one_affinity true true e = cc
one_affinity true false e = omega arith
one_affinity false true e = omega arith
one_affinity false false e = omega arith

count_result-Consistent :
    (a : Affinities) (outcome : String) (usage : PromptCacheUsage) (now : Timestamp)
    (s : PromptCacheStat)
    → usage.cached_tokens ≤ usage.input_tokens
    → a.parent_affinity_hit && a.parent_affinity_fallback ≡ false
    → Consistent 0 s
    → Consistent 0 (count_result a outcome usage now s)
unfolding count_result
count_result-Consistent a outcome usage now s within apart c =
    let counted = count_usage-Consistent usage s within c in
    let once = one_affinity a.parent_affinity_hit a.parent_affinity_fallback apart in
    record {
      observed = counted.observed;
      hit_or_cold = counted.hit_or_cold;
      cold = counted.cold;
      eligible = counted.eligible;
      writes = counted.writes;
      write_tokens = counted.write_tokens;
      cached_tokens = counted.cached_tokens;
      affinities = omega (arith, counted.affinities, once);
      moved_lineages = omega (arith, counted.moved_lineages, one_if-le a.lineage_failover);
      failovers = omega (arith, counted.failovers, one_if-le (ends_with "_failover" outcome));
    }

no_stat-Consistent : Consistent 0 no_stat
no_stat-Consistent = record {
  observed = omega arith;
  hit_or_cold = omega arith;
  cold = omega arith;
  eligible = omega arith;
  writes = omega arith;
  write_tokens = omega arith;
  cached_tokens = omega arith;
  affinities = omega arith;
  moved_lineages = omega arith;
  failovers = omega arith;
}

abbrev pub AllConsistent : Pool → Type 0
AllConsistent p = All (λ e. Consistent 0 e.1) p.prompt_cache

stat_of-Consistent :
    (p : Pool) (key : String)
    → AllConsistent p
    → Consistent 0 (unwrap_or (get key p.prompt_cache) no_stat)
stat_of-Consistent p key h = elim (Option-cases (get key p.prompt_cache)) [
  | inl e ↦ rw e no_stat-Consistent
  | inr (s, e) ↦ rw e (get-All (Consistent 0) key s p.prompt_cache h e)
]

-- Recording a result of a request whose parent affinity was not both a hit and a fallback, and of whose
-- input no more is cached than there is, keeps every prompt-cache statistic consistent: the cached
-- tokens and those of the requests that wrote are at most the input tokens, each count is at most the
-- count of the requests that it is of, and a hit is never also counted cold.
pub record_prompt_cache_result-Consistent :
    (p : Pool) (id model : String) (identity : RequestIdentity) (usage : PromptCacheUsage)
    (a : Affinities) (outcome : String) (now : Timestamp)
    → usage.cached_tokens ≤ usage.input_tokens
    → a.parent_affinity_hit && a.parent_affinity_fallback ≡ false
    → AllConsistent p
    → AllConsistent (record_prompt_cache_result p id model identity usage a outcome now)
unfolding record_prompt_cache_result
record_prompt_cache_result-Consistent p id model identity usage a outcome now within apart h =
    let key = stat_key id model (agent_kind identity) in
    let c = stat_of-Consistent p key h in
    let named : Consistent 0 (record (unwrap_or (get key p.prompt_cache) no_stat) {
      account_id = id;
      model_id = model;
      agent_kind = agent_kind identity;
    }) =
      record {
        observed = c.observed;
        hit_or_cold = c.hit_or_cold;
        cold = c.cold;
        eligible = c.eligible;
        writes = c.writes;
        write_tokens = c.write_tokens;
        cached_tokens = c.cached_tokens;
        affinities = c.affinities;
        moved_lineages = c.moved_lineages;
        failovers = c.failovers;
      } in
    All-insert (Consistent 0) key _ p.prompt_cache
      (count_result-Consistent a outcome usage now _ within apart named) h

pub note_unrecognized_failure-Consistent :
    (p : Pool) (id model : String) (identity : RequestIdentity)
    → AllConsistent p
    → AllConsistent (note_unrecognized_failure p id model identity)
unfolding note_unrecognized_failure
note_unrecognized_failure-Consistent p id model identity h =
    let key = stat_key id model (agent_kind identity) in
    let c = stat_of-Consistent p key h in
    All-insert (Consistent 0) key _ p.prompt_cache
      (record {
        observed = c.observed;
        hit_or_cold = c.hit_or_cold;
        cold = c.cold;
        eligible = c.eligible;
        writes = c.writes;
        write_tokens = c.write_tokens;
        cached_tokens = c.cached_tokens;
        affinities = c.affinities;
        moved_lineages = c.moved_lineages;
        failovers = c.failovers;
      })
      h
