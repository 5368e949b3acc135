-- ===== src/Time.antt =====
-- upstream/src/pool/time.rs. A `Timestamp` is the nanoseconds since 0001-01-01T00:00:00Z, Go's zero
-- time; the offset it was written with does not enter a comparison. A `TimeDelta` that the program
-- only adds or compares is a number of nanoseconds.
use codex_provider.Base.Int.{ℤ, pos, negsuc}
use codex_provider.Base.{ℕ, ◌+◌, ◌-◌, ◌*◌, ◌/◌, ◌%◌, ◌^◌, Bool, ◌&&◌, ltb, ◌==◌, if◌then◌else◌, leb}

abbrev pub Timestamp : Type 0
Timestamp = ℕ

abbrev pub second : ℕ
second = 1000000000

abbrev pub seconds : ℕ → ℕ
seconds n = n * second

abbrev pub minutes : ℕ → ℕ
minutes n = seconds (n * 60)

abbrev pub hours : ℕ → ℕ
hours n = minutes (n * 60)

-- 1970-01-01T00:00:00Z.
abbrev pub epoch : ℕ
epoch = seconds 62135596800

-- The last instant that chrono can hold, 262142-12-31T23:59:59.999999999Z.
abbrev pub last_instant : ℕ
last_instant = seconds 8272402473600 - 1

abbrev pub is_zero : Timestamp → Bool
is_zero t = t == 0

-- `checked_add_signed(delta).unwrap_or(self)`.
unfoldable pub add : Timestamp → ℕ → Timestamp
add t delta = if leb (t + delta) last_instant then t + delta else t

abbrev pub before : Timestamp → Timestamp → Bool
before a b = ltb a b

abbrev pub after : Timestamp → Timestamp → Bool
after a b = ltb b a

-- `unix`: whole seconds since the epoch, rounded down.
unfoldable pub unix : Timestamp → ℤ
unix t = if leb epoch t then pos ((t - epoch) / second) else negsuc ((epoch - t - 1) / second)

-- Whether a time can be told in nanoseconds since the epoch as an `i64`.
abbrev pub in_nanos : Timestamp → Bool
in_nanos t = leb (epoch - 2 ^ 63) t && ltb t (epoch + 2 ^ 63)

-- `truncate`: down to a multiple of `step` since the epoch, and the epoch where the nanoseconds are
-- out of range.
unfoldable pub truncate : Timestamp → ℕ → Timestamp
truncate t step =
    if step == 0 then t else if in_nanos t then t - (t + (step - epoch % step)) % step else epoch
