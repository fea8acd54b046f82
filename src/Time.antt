-- ===== src/Time.antt =====
-- package time: instants, all in UTC, and durations.
use better_token.Base.{ℕ, ◌+◌, ◌-◌, ◌^◌, min, Bool, false, leb, ltb, if◌then◌else◌}

-- Nanoseconds since the zero time, January 1 of year 1: `IsZero` is the test for 0.
abbrev pub Time : Type 0
Time = ℕ

-- A signed number of nanoseconds: `negative n` is -(n + 1).
pub data Duration : Type 0 where
  nanoseconds : ℕ → Duration
  negative : ℕ → Duration

abbrev pub max_duration : ℕ
max_duration = 2 ^ 63 - 1

abbrev pub no_duration : Duration
no_duration = nanoseconds 0

-- d > 0
abbrev pub is_positive : Duration → Bool
is_positive (nanoseconds n) = ltb 0 n
is_positive (negative n) = false

-- d == 0
abbrev pub is_zero_duration : Duration → Bool
is_zero_duration (nanoseconds n) = leb n 0
is_zero_duration (negative n) = false

-- t.Add(d), within the years that a `Time` can hold
unfoldable pub add_duration : Time → Duration → Time
add_duration t (nanoseconds n) = t + n
add_duration t (negative n) = t - (n + 1)

-- t.Sub(u), which is held within int64
unfoldable pub sub_time : Time → Time → Duration
sub_time t u =
    if leb u t
    then nanoseconds (min (t - u) max_duration)
    else negative (min (u - t - 1) max_duration)

abbrev pub before : Time → Time → Bool
before t u = ltb t u
