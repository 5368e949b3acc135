-- ===== src/Lib.antt =====
-- The account pool of codex-provider (upstream/src/pool): which of several upstream accounts serves a
-- request, what the outcome does to the pool, and how much one client key may send.
--
-- A request names a model, a session key and perhaps a lineage, the threads that descend from one
-- main agent. `select_account_for_route` (upstream/src/pool/routing.rs) answers an account: that of the
-- lineage's or the session's binding while it can serve, else one of the eligible accounts, else the
-- one that leaves an overload cooldown first. An account is eligible if `usable`
-- (upstream/src/pool/app.rs) finds it so: enabled, signed in, with quota, not cooling down, and the one
-- slot that represents its upstream identity. The request's outcome (upstream/src/pool/outcome.rs)
-- writes health, cooldowns and bindings, which the next selection reads. Before all this a client key
-- passes the limits of upstream/src/pool/client_limit.rs. The loop of upstream/src/pool/proxy.rs ties
-- these together: it selects an account, sends the request, records what comes of it and, while it may,
-- retries, waits or fails over to another account.
--
-- The files, each with the theorems on it in the folder of its name:
--   ClientLimit  client_limit.rs: `admit`, `count`, the drop of a `Permit`, the 429 of `hold_client`;
--                ClientLimit/World is every sequence of these calls over any number of keys.
--   Time         time.rs: an instant is the nanoseconds since year 1.
--   State        state.rs and `Inner` of app.rs: the accounts and the runtime state. State/Quota holds
--                the quota records, State/Bindings what binds sessions to accounts.
--   Plan         plan.rs: allowed models, plan types, weekly weights.
--   Quota        quota.rs: reported windows, the remaining hint, what blocks routing.
--   Refresh      quota.rs: `quota_from_usage`, `merge_sparse_quota`, the quota a refresh leaves.
--   GoSort       gosort.rs: `slice_stable`, `sym_merge`, `rotate`.
--   Identity     app.rs: `upstream_identity_key`, `has_usable_auth`.
--   Protection   app.rs: `quota_protection_status`, the account's own protection and the reserve.
--   Eligibility  app.rs: `usable`, `primary_upstream_account_id`, `preferred_before`.
--   Affinity     routing.rs: live and expired bindings, `lineage_account_id`, pruning.
--   Select       routing.rs: the eligible accounts, the tiers, the overload fallback; Select/Choice is
--                the draw and `select_account_for_route`.
--   Outcome      outcome.rs: `mark_failure`, `append_cooldown`, `clear_capacity_cooldowns`,
--                `note_capacity_event`; Outcome/Success is `record_lineage_success` and the other
--                bindings after a success.
--                Outcome/Whole is a whole outcome, `mark_success_with_measurement` and
--                `mark_terminal_response_failure`, and a wait for capacity; Outcome/Throughput the
--                throughput series, Outcome/Cache and Outcome/Events the prompt-cache statistics and
--                the diagnostics.
--   Proxy        proxy.rs: the loop that tries one request on accounts in turn; Proxy/Attempt is
--                `attempts`, branch by branch, Proxy/Moves its rounds as a step relation, and
--                Proxy/Serve is `proxy`, which measures the request around the loop.
--   Adapt        proxy.rs: `codex_backend_request_body`; Adapt/Tools `drop_hosted_tool_conflicts`.
--   Pins         routing_pin.rs: `note` and `for_reviewer`.
--   Schedule     quota_schedule.rs: `due`, `polled`, `wake_at`, `poll_by`, over a random source.
--   Base         lists, sorted maps, JSON values, texts, integers and results for all of them.
--   Tests        concrete pools and limits on which the theorems are applied.
--
-- Conventions. A call that holds the pool's lock is one function from a pool to a pool, which reads the
-- clock once, as `now`; the comparison of two slots of one identity reads it again, as the field
-- `clock`, since it may be asked about a later time. A map is a list of entries in the order of its
-- keys; a set of excluded accounts is the list of their ids. A percentage is a whole number of
-- millionths of a percent, and a placement weight an exact fraction, where the source has `f64`;
-- `placement_score` of hash.rs is the parameter `Draw`, on which no theorem relies. Numbers that the
-- source keeps as `i64` are signed where the sign is read. An instant before year 1 is not
-- represented, and a sum beyond the calendar of chrono leaves its instant as it was. `to_lowercase`
-- changes ASCII letters.
--
-- Bounds and fuel. Loops over lists are structural. The loops of gosort.rs count their rounds on fuel:
-- `rotate` on the length of its range, a search on the length of its interval, `sym_merge` and the
-- passes on the length of the slice, each at least the number of rounds the source makes. An index
-- out of range, where the source panics, is no swap and compares as false. The loop of proxy.rs counts
-- its rounds on fuel; `measure` of Proxy/Moves is how many it can make at most. Its `attempt`, an i64, is
-- kept as what was spent and what waits gave back.
--
-- Not modelled: the text of log lines and messages, the two files that `save` writes (the time stamps
-- are), the extra fields of newer versions, request identities read from headers and JSON, the
-- reading of answers and streams, the network, the logins and the console. What upstream and the
-- client do in an attempt is an argument of the loop. What a read of an account's auth.json gives is
-- the field `auth_files` of the pool.
pub mod Base
pub mod ClientLimit
pub mod Time
pub mod State
pub mod Plan
pub mod Quota
pub mod Refresh
pub mod GoSort
pub mod Identity
pub mod Protection
pub mod Eligibility
pub mod Affinity
pub mod Select
pub mod Outcome
pub mod Proxy
pub mod Pins
pub mod Adapt
pub mod Schedule
pub mod Tests
