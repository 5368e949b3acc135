-- ===== src/Tests/Traffic.antt =====
-- The throughput series and the prompt-cache statistics on a few requests.
use codex_provider.Base.{◌+◌, refl, true, false, some, List, [], ◌∷◌, arith}
use codex_provider.Time.{Timestamp, seconds}
use codex_provider.State.Usage.{PromptCacheUsage}
use codex_provider.Outcome.Traffic.{
  Call, begins, updates, finishes, discards, Traffic, traffic, Settled, traffic-Settled, unfinished,
}
use codex_provider.Outcome.Cache.{Affinities, record_prompt_cache_result}
use codex_provider.Outcome.Stats.{AllConsistent, record_prompt_cache_result-Consistent}
use codex_provider.Tests.{moment, bound_pool, identity_of}

-- Two requests begin; one succeeds and is finished twice, the other is discarded.
abbrev some_calls : List (Timestamp × Call)
some_calls =
    (moment, begins true)
    ∷ (moment, begins false)
    ∷ (moment, updates 1 (λ m. record m { account_id = "ann"; success = true }))
    ∷ (moment + seconds 2, finishes 1)
    ∷ (moment + seconds 3, finishes 1)
    ∷ (moment + seconds 3, discards 0)
    ∷ []

abbrev idle : Traffic
idle = record { pool = bound_pool; measurements = [] }

idle-Settled : Settled 0 bound_pool []
unfolding unfinished
idle-Settled = record { tallies = tt; kept = omega arith; under_way = refl }

traffic-Settled_example : let t = traffic idle some_calls in Settled 0 t.pool t.measurements
traffic-Settled_example = traffic-Settled 0 idle some_calls idle-Settled

abbrev warm : PromptCacheUsage
warm = record {
  input_tokens = 3000;
  cached_tokens = 2000;
  cache_write_tokens = some 500;
  output_tokens = 10;
  output_present = true;
  present = true;
}

abbrev hit : Affinities
hit = record {
  parent_affinity_hit = true;
  parent_affinity_fallback = false;
  lineage_failover = false;
}

record_prompt_cache_result-Consistent_example : AllConsistent (
    record_prompt_cache_result bound_pool "ann" "m"
      (identity_of "t" "root")
      warm
      hit
      "sticky_reuse"
      moment)
record_prompt_cache_result-Consistent_example =
    record_prompt_cache_result-Consistent bound_pool "ann" "m" (identity_of "t" "root") warm hit
      "sticky_reuse" moment (omega arith) refl tt
