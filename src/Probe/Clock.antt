-- ===== src/Probe/Clock.antt =====
-- Instants and durations as internal/probe/scheduler.go uses them. A `time.Time` has a wall-clock
-- reading, here in nanoseconds from 1970, and may carry a monotonic one; two instants are compared
-- by the monotonic readings where both have one. A `time.Duration` is an `int64` of nanoseconds.
use smokeng.Common.{ℕ, zero, suc, ◌^◌, ◌-◌, ◌+◌, ◌/◌, Bool, ◌||◌, Option, none, some, if◌then◌else◌}
use smokeng.Common.Int.{ℤ, pos, negsuc, ◌+ℤ◌, ◌-ℤ◌, ltb_ℤ, eq_ℤ, mul64, wrap64}

pub record Instant : Type 0 where
  pub wall : ℤ
  pub mono : Option ℤ

-- The zero `time.Time`, the start of year 1.
abbrev pub zero_time : Instant
zero_time = record { wall = negsuc 62135596799999999999; mono = none }

unfoldable pub is_zero : Instant → Bool
is_zero t = eq_ℤ t.wall zero_time.wall

unfoldable pub apart : Option ℤ → Option ℤ → ℤ → ℤ
apart (some a) (some b) wall = a -ℤ b
apart none b wall = wall
apart (some a) none wall = wall

-- How much later `t` is than `u`.
unfoldable pub since : Instant → Instant → ℤ
unfolding apart
since t u = apart t.mono u.mono (t.wall -ℤ u.wall)

-- t.Before(u)
unfoldable pub before : Instant → Instant → Bool
unfolding since
before t u = ltb_ℤ (since t u) (pos 0)

-- t.After(u)
unfoldable pub after : Instant → Instant → Bool
unfolding since
after t u = ltb_ℤ (pos 0) (since t u)

abbrev pub max_duration : ℤ
max_duration = pos (2 ^ 63 - 1)

abbrev pub min_duration : ℤ
min_duration = negsuc (2 ^ 63 - 1)

-- A difference that a `Duration` cannot hold is cut to the longest one.
unfoldable pub saturate : ℤ → ℤ
saturate d =
    if ltb_ℤ max_duration d then max_duration else if ltb_ℤ d min_duration then min_duration else d

-- t.Sub(u)
unfoldable pub sub : Instant → Instant → ℤ
unfolding since saturate
sub t u = saturate (since t u)

abbrev pub shifted : Option ℤ → ℤ → Option ℤ
shifted none d = none
shifted (some a) d = some (a +ℤ d)

-- t.Add(d)
unfoldable pub add : Instant → ℤ → Instant
add t d = record { wall = t.wall +ℤ d; mono = shifted t.mono d }

-- t.Round(0)
unfoldable pub strip : Instant → Instant
strip t = record { wall = t.wall; mono = none }

-- A quotient of `int64`s with a positive divisor, which Go rounds towards 0.
abbrev pub quot : ℤ → ℕ → ℤ
quot (pos n) k = pos (n / k)
quot (negsuc n) k = pos 0 -ℤ pos ((n + 1) / k)

abbrev pub clock_step_floor : ℤ
clock_step_floor = pos 2000000

abbrev pub clock_slew_ppm : ℤ
clock_slew_ppm = pos 600

unfoldable pub tolerance : ℤ → ℤ
tolerance mono_delta = wrap64 (clock_step_floor +ℤ quot (mul64 mono_delta clock_slew_ppm) 1000000)

unfoldable pub clock_stepped : ℤ → ℤ → Bool
unfolding tolerance
clock_stepped wall_delta mono_delta =
    let d = wrap64 (wall_delta -ℤ mono_delta) in
    ltb_ℤ (tolerance mono_delta) d || ltb_ℤ d (wrap64 (pos 0 -ℤ tolerance mono_delta))

-- A quotient of `int64`s; `none` is the panic of a division by 0.
unfoldable pub div64 : ℤ → ℤ → Option ℤ
div64 a (pos zero) = none
div64 a (pos (suc n)) = some (quot a (suc n))
div64 a (negsuc n) = some (wrap64 (pos 0 -ℤ quot a (suc n)))
