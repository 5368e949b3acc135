-- ===== src/ClientLimit.antt =====
-- upstream/src/pool/client_limit.rs: how much one client key may send through the pool.
-- An `Instant` and a `Duration` are nanoseconds. The `HashMap` of the keys is a map that each call
-- reads and writes whole, since the source holds its mutex for the whole call.
mod Effect
pub mod World
pub mod Window
pub mod Flight
pub mod Retry
use codex_provider.Base.Maps.{Map, get, insert}
use codex_provider.Base.{
  ℕ, suc, ◌+◌, ◌-◌, ◌*◌, ◌/◌, max, String, Bool, true, false, Option, none, some, List, [], ◌∷◌,
  ◌++◌, length, head?, leb, if◌then◌else◌, Result, ok, err, unwrap_or,
}

abbrev pub second : ℕ
second = 1000000000

abbrev pub window : ℕ
window = 60 * second

abbrev pub in_flight_retry_after : ℕ
in_flight_retry_after = 5 * second

pub record KeyUse : Type 0 where
  pub in_flight : ℕ
  pub started : List ℕ
  pub logged : Option ℕ

abbrev pub unused : KeyUse
unused = record { in_flight = 0; started = []; logged = none }

pub record ClientLimits : Type 0 where
  pub max_in_flight : ℕ
  pub max_per_minute : ℕ
  pub keys : Map KeyUse

pub data Over : Type 0 where
  in_flight_over : Over
  per_minute : ℕ → Over

unfoldable pub retry_after : Over → ℕ
retry_after in_flight_over = in_flight_retry_after
retry_after (per_minute r) = r

-- Whole seconds, rounded up, at least one.
unfoldable pub retry_after_seconds : Over → ℕ
unfolding retry_after
retry_after_seconds o = max ((retry_after o + (second - 1)) / second) 1

-- A `Permit`: the key whose slot it holds.
pub record Permit : Type 0 where
  pub key : String

unfoldable pub new : ℕ → ℕ → ClientLimits
new f m = record { max_in_flight = f; max_per_minute = m; keys = [] }

-- `entry(key).or_default()`.
abbrev pub entry : ClientLimits → String → KeyUse
entry l key = unwrap_or (get key l.keys) unused

-- The `while` loop of `start`: it pops the starts that have left the window.
unfoldable pub prune : ℕ → List ℕ → List ℕ
prune now [] = []
prune now (at ∷ rest) = if leb window (now - at) then prune now rest else at ∷ rest

unfoldable pub start : ℕ → KeyUse → ℕ → KeyUse × Result Over (Unit {0})
unfolding prune
start limit e now =
    let kept = prune now e.started in
    if leb limit (length kept)
    then (
      record e { started = kept },
      err (per_minute (window - (now - unwrap_or (head? kept) now))),
    )
    else (record e { started = kept ++ now ∷ [] }, ok tt)

abbrev pub store : ClientLimits → String → KeyUse → ClientLimits
store l key e = record l { keys = insert key e l.keys }

unfoldable pub admit_started :
    ClientLimits → String → KeyUse × Result Over (Unit {0}) → ClientLimits × Result Over Permit
admit_started l key (e, ok _) =
    (store l key (record e { in_flight = e.in_flight + 1 }), ok (record { key = key }))
admit_started l key (e, err over) = (store l key e, err over)

unfoldable pub admit : ClientLimits → String → ℕ → ClientLimits × Result Over Permit
unfolding start admit_started
admit l key now =
    let e = entry l key in
    if leb l.max_in_flight e.in_flight
    then (store l key e, err in_flight_over)
    else admit_started l key (start l.max_per_minute e now)

unfoldable pub count : ClientLimits → String → ℕ → ClientLimits × Result Over (Unit {0})
unfolding start
count l key now = let (e, r) = start l.max_per_minute (entry l key) now in (store l key e, r)

-- `Drop for Permit`.
unfoldable pub drop_permit : ClientLimits → Permit → ClientLimits
drop_permit l p = elim (get p.key l.keys) [
  | none ↦ l
  | some e ↦ store l p.key (record e { in_flight = e.in_flight - 1 })
]

unfoldable pub log_is_due : Option ℕ → ℕ → Bool
log_is_due none now = true
log_is_due (some at) now = leb window (now - at)

unfoldable pub log_due : ClientLimits → String → ℕ → ClientLimits × Bool
unfolding log_is_due
log_due l key now =
    let e = entry l key in
    let due = log_is_due e.logged now in
    (store l key (if due then record e { logged = some now } else e), due)

-- The 429 that a held client gets, and whether the log has a line for it.
pub record Held : Type 0 where
  pub status : ℕ
  pub retry_after_header : ℕ
  pub over : Over
  pub log_line : Bool

unfoldable pub hold_client : ClientLimits → String → Over → ℕ → ClientLimits × Held
unfolding log_due retry_after_seconds
hold_client l key over now =
    let (l', line) = log_due l key now in
    (
      l',
      record {
        status = 429;
        retry_after_header = retry_after_seconds over;
        over = over;
        log_line = line;
      },
    )

unfoldable pub answer {ℓ} :
    {A : Type ℓ} → String → ℕ → ClientLimits × Result Over A → ClientLimits × Result Held A
unfolding hold_client
answer key now (l, ok a) = (l, ok a)
answer key now (l, err over) = let (l', held) = hold_client l key over now in (l', err held)

unfoldable pub admit_client : ClientLimits → String → ℕ → ClientLimits × Result Held Permit
unfolding admit answer
admit_client l key now = answer key now (admit l key now)

unfoldable pub count_client : ClientLimits → String → ℕ → ClientLimits × Result Held (Unit {0})
unfolding count answer
count_client l key now = answer key now (count l key now)
