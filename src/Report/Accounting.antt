-- ===== src/Report/Accounting.antt =====
-- What a report says of its window: every down interval in one outage, and every second accounted for.
use smokeng.Common.{
  ℕ, ◌+◌, ◌-◌, ◌*◌, ◌^◌, ◌≤◌, ◌<◌, ◌≡◌, refl, Bool, true, false, none, List, [], ◌∷◌, arith, length,
  keep, if◌then◌else◌, ltb, ◌∙◌, sym, ap,
}
use native.Mathlib.Nat.{mul-le-mul_right, add-mul}
use smokeng.Common.Int.{pos, wrap64, wrap64-pos, mul64, mul64-pos, +ℤ-pos, leb_ℤ, ◌+ℤ◌, ◌-ℤ◌}
use smokeng.Common.Float.{FloatOps}
use smokeng.Report.Model.{Point, Report, Tally, close, tally, is_down, summarise, availability}
use smokeng.Report.Outages.{marks, broken_after, down_points, up_point, close-counts, tally-counts}

abbrev start : Tally
start = record { up = 0; down = 0; downtime = []; cur = none }

module _ {F : Type 0} (fl : FloatOps F) (threshold : F) (interval : ℕ) where
  abbrev final : List Point → Tally
  final points = close (tally fl threshold interval 0 points start)

  final-counts :
      (points : List Point)
      → ((final points).down
          ≡ length (down_points fl threshold interval (marks fl threshold interval true 0 points)))
        × ((final points).up ≡ length (keep (up_point fl threshold interval) points))
  final-counts points =
      let t = tally fl threshold interval 0 points start in
      let (up, down) = close-counts fl threshold interval t in
      let (d, u) = tally-counts fl threshold interval true 0 points start in
      (omega (arith, down, d), omega (arith, up, u))

  availability-summarise :
      (points : List Point) (from to : ℕ)
      → 0 < interval
      → availability fl points (pos interval) from to threshold
        ≡ summarise fl
            (pos interval)
            from
            to
            (if ltb from to then to - from else 0)
            threshold
            (final points)
  unfolding availability
  availability-summarise points from to h =
      let positive : leb_ℤ (pos interval) (pos 0) ≡ false = ground arith in rw positive

-- The seconds that the measured intervals of a tally take.
abbrev measured_s : Tally → ℕ → ℕ
measured_s t interval = (t.up + t.down) * interval

module _ {F : Type 0} (fl : FloatOps F) (threshold : F) (interval from to window : ℕ) (t : Tally)
    (bounded : measured_s t interval < 2 ^ 63) where
  abbrev whole : Report F
  whole = summarise fl (pos interval) from to window threshold t

  product : (n : ℕ) → n ≤ t.up + t.down → mul64 (pos n) (pos interval) ≡ pos (n * interval)
  product n h = mul64-pos n interval (omega (arith, mul-le-mul_right interval h, bounded))

  summarise-up : whole.up_s ≡ pos (t.up * interval)
  unfolding summarise
  summarise-up = product t.up (omega arith)

  summarise-down : whole.down_s ≡ pos (t.down * interval)
  unfolding summarise
  summarise-down = product t.down (omega arith)

  sum-exact :
      wrap64 (mul64 (pos t.up) (pos interval) +ℤ mul64 (pos t.down) (pos interval))
      ≡ pos (measured_s t interval)
  sum-exact =
      let up = product t.up (omega arith) in
      let down = product t.down (omega arith) in
      let spread : t.up * interval + t.down * interval ≡ measured_s t interval =
        sym (add-mul t.up t.down interval) in
      rw (up, down, +ℤ-pos) (wrap64-pos _ (omega (arith, spread, bounded)) ∙ ap pos spread)

  summarise-covered :
      0 < window
      → whole.covered_s
        ≡ pos (if ltb window (measured_s t interval) then window else measured_s t interval)
  unfolding summarise
  summarise-covered h = rw sum-exact (ground (arith, h))

  summarise-unknown :
      0 < window → window < 2 ^ 63 → whole.unknown_s ≡ pos (window - measured_s t interval)
  unfolding summarise ◌-ℤ◌ wrap64
  summarise-unknown h w = rw sum-exact (ground (arith, h, w))

module _ {F : Type 0} (fl : FloatOps F) (threshold : F) (interval : ℕ) where
  counts-le :
      (broken : Bool) (prev : ℕ) (points : List Point)
      → length (keep (up_point fl threshold interval) points)
          + length
              (down_points fl threshold interval (marks fl threshold interval broken prev points))
        ≤ length points
  unfolding keep marks is_down
  counts-le broken prev [] = omega arith
  counts-le broken prev (p ∷ rest) =
      ground (arith, counts-le (broken_after fl threshold interval broken p) p.ts rest)

  final-bounded :
      (points : List Point)
      → length points * interval < 2 ^ 63
      → measured_s (final fl threshold interval points) interval < 2 ^ 63
  final-bounded points h =
      let (down, up) = final-counts fl threshold interval points in
      let few : (final fl threshold interval points).up + (final fl threshold interval points).down
          ≤ length points =
        omega (arith, down, up, counts-le true 0 points) in
      omega (arith, mul-le-mul_right interval few, h)

  -- Every second of the window is accounted for. Over a positive interval and a window that is not
  -- empty, and as long as the points' seconds and the window's end fit an `int64`: up and down
  -- intervals are reported with their seconds, and what is covered, the smaller of those seconds and
  -- of the window, makes up the window together with what is unknown.
  pub availability-seconds :
      (points : List Point) (from to : ℕ)
      → 0 < interval
      → length points * interval < 2 ^ 63
      → from < to
      → to < 2 ^ 63
      → let r = availability fl points (pos interval) from to threshold in
        (covered : ℕ) × (unknown : ℕ) × (r.covered_s ≡ pos covered)
        × (r.unknown_s ≡ pos unknown)
        × (r.window_s ≡ to - from)
        × (covered + unknown ≡ to - from)
        × (r.up_s ≡ pos (r.up_intervals * interval))
        × (r.down_s ≡ pos (r.down_intervals * interval))
        × (covered ≡ (
            if ltb (to - from) ((r.up_intervals + r.down_intervals) * interval)
            then to - from
            else (r.up_intervals + r.down_intervals) * interval))
  unfolding summarise
  availability-seconds points from to i h w e =
      let t = final fl threshold interval points in
      let b = final-bounded points h in
      let window : (if ltb from to then to - from else 0) ≡ to - from = ground arith in
      let open_window : 0 < to - from = omega arith in
      rw (availability-summarise fl threshold interval points from to i, window)
        (
          (if ltb (to - from) (measured_s t interval) then to - from else measured_s t interval),
          to - from - measured_s t interval,
          summarise-covered fl threshold interval from to (to - from) t b open_window,
          summarise-unknown fl threshold interval from to (to - from) t b open_window (omega arith),
          refl,
          ground arith,
          summarise-up fl threshold interval from to (to - from) t b,
          summarise-down fl threshold interval from to (to - from) t b,
          refl,
        )
