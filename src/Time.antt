-- ===== src/Time.antt =====
-- `time.Time` as nanoseconds since the first instant that JSON and RFC 3339 can write, the start of
-- the year 0. `time.Time{}` is the start of the year 1. The far ends of the 64-bit range, where
-- `Add` would wrap, are left out.
use provider_sdk.Base.{Bool, ltb, nat_beq, ℕ, ◌*◌}
use provider_sdk.Base.Int.{pos_part, ℤ}

abbrev pub second : ℕ
second = 1000000000

abbrev pub minute : ℕ
minute = 60 * second

-- The year 0 is a leap year.
abbrev pub zero_time : ℕ
zero_time = 366 * 86400 * second

-- `t.IsZero()`
abbrev pub is_zero_time : ℕ → Bool
is_zero_time t = nat_beq t zero_time

-- `t.After(u)` and `t.Before(u)`
abbrev pub is_after : ℕ → ℕ → Bool
is_after t u = ltb u t

abbrev pub is_before : ℕ → ℕ → Bool
is_before t u = ltb t u

-- `time.Duration(n)*time.Second`, used only after `n` was found to be positive and small.
abbrev pub seconds : ℤ → ℕ
seconds n = pos_part n * second
