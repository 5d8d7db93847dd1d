-- ===== src/Prelude/Clock.antt =====
-- Go's `time.Time` as nanoseconds since its zero value, the start of year 1. Durations are
-- nanoseconds.
use Prim.Native.Nat.{ℕ, ◌+◌, ◌*◌}
use mathlib.Core.Bool.{Bool}
use tenderduty_nos.Prelude.Tests.{ltb, ◌==◌}

abbrev pub Time : Type 0
Time = ℕ

-- `t.IsZero()`
abbrev pub is_zero : Time → Bool
is_zero t = t == 0

abbrev pub second : ℕ
second = 1000000000

abbrev pub minute : ℕ
minute = 60 * second

-- `t.After(now.Add(-d))`, with the subtraction moved to the other side.
abbrev pub is_after_ago : Time → ℕ → Time → Bool
is_after_ago t d now = ltb now (t + d)

-- `t.Before(now.Add(-d))`
abbrev pub is_before_ago : Time → ℕ → Time → Bool
is_before_ago t d now = ltb (t + d) now

-- `time.Unix(0, 0)`: 62135596800 seconds after the zero time.
abbrev pub unix_epoch : Time
unix_epoch = 62135596800 * second
