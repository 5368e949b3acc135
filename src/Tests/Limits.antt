-- ===== src/Tests/Limits.antt =====
-- The limits of client_limit.rs on a key that may start twice a minute.
use codex_provider.Base.{
  ℕ, ◌+◌, ◌*◌, ◌≤◌, ◌≡◌, ◌≢◌, refl, none, List, [], ◌∷◌, length, arith, ok, err,
}
use codex_provider.Base.Maps.{get, insert}
use codex_provider.ClientLimit.{ClientLimits, entry, per_minute, second, count, start, prune}
use codex_provider.ClientLimit.World.{Event, admits, counts, drops, run, fresh, holds}
use codex_provider.ClientLimit.Window.{recent, last_time, starts_of, run-recent-le}
use codex_provider.ClientLimit.Flight.{run-in_flight}
use codex_provider.ClientLimit.Retry.{count-retry_after}

abbrev calls : List (ℕ × Event)
calls =
    (1 * second, admits "k")
    ∷ (2 * second, counts "k")
    ∷ (3 * second, counts "k")
    ∷ (70 * second, counts "k")
    ∷ []

run-recent-le_example :
    length (recent (last_time 0 calls) (starts_of "k" (run (fresh 1 2) calls).granted)) ≤ 2
run-recent-le_example =
    run-recent-le 1 2 calls "k" (omega arith, (omega arith, (omega arith, (omega arith, tt))))

abbrev flights : List (ℕ × Event)
flights =
    (1, admits "k") ∷ (2, admits "k") ∷ (3, drops "k") ∷ (4, admits "k") ∷ (5, admits "j") ∷ []

run-in_flight_example :
    let w = run (fresh 1 9) flights in
    ((entry w.limits "k").in_flight ≡ holds "k" w.held) × (holds "k" w.held ≤ 1)
run-in_flight_example = run-in_flight 1 9 flights "k"

-- The key started at 10 s and 20 s.
abbrev full : ClientLimits
full = record {
  max_in_flight = 1;
  max_per_minute = 2;
  keys =
      ("k", record { in_flight = 0; started = 10 * second ∷ 20 * second ∷ []; logged = none }) ∷ [];
}

full_refuses : (count full "k" (30 * second)).1 ≡ err (per_minute (40 * second))
unfolding count start prune get insert
full_refuses = refl

-- At 30 s the wait is 40 s; at 60 s the key is still refused.
count-retry_after_example :
    let l' = (count full "k" (30 * second)).0 in
    ((count l' "k" (30 * second + 40 * second)).1 ≡ ok tt)
    × ((count l' "k" (60 * second)).1 ≢ ok tt)
unfolding get
count-retry_after_example =
    count-retry_after full "k" (30 * second) (40 * second) (60 * second) (omega arith) (omega arith)
      (omega arith, (omega arith, tt)) full_refuses (omega arith) (omega arith)
