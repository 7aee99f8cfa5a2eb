-- ===== src/Report/Model.antt =====
-- internal/report/availability.go. Timestamps and counts of probes are not negative; sums and products
-- in `int64` keep their wrap-around.
use smokeng.Common.{
  ℕ, suc, ◌+◌, ◌-◌, ◌/◌, Bool, false, Option, none, some, List, [], ◌∷◌, ◌++◌, if◌then◌else◌, ◌==◌,
  ltb, ◌&&◌,
}
use smokeng.Common.Int.{ℤ, pos, pos_part, ltb_ℤ, leb_ℤ, sub_ℕ, wrap64, mul64, ◌+ℤ◌, ◌-ℤ◌}
use smokeng.Common.Float.{FloatOps}

pub record Point : Type 0 where
  pub ts : ℕ
  pub sent : ℕ
  pub received : ℕ

pub record Episode : Type 0 where
  pub start_ts : ℕ
  pub end_ts : ℤ
  pub duration_s : ℤ
  pub intervals : ℕ

pub record Report (F : Type 0) : Type 0 where
  pub from : ℕ
  pub to : ℕ
  pub interval_s : ℤ
  pub down_threshold_pct : F
  pub window_s : ℕ
  pub up_s : ℤ
  pub down_s : ℤ
  pub unknown_s : ℤ
  pub covered_s : ℤ
  pub up_intervals : ℕ
  pub down_intervals : ℕ
  pub has_data : Bool
  pub availability : F
  pub coverage : F
  pub downtime : List Episode

-- The variables of the loop: the counts and the episodes of the report, and `cur`.
pub record Tally : Type 0 where
  pub up : ℕ
  pub down : ℕ
  pub downtime : List Episode
  pub cur : Option Episode

-- `p.TS-points[i-1].TS > gapTol`; behind its guard the interval is positive.
unfoldable pub is_gap : (interval prev ts : ℕ) → Bool
is_gap interval prev ts = ltb_ℤ (wrap64 (pos (interval + interval / 2))) (sub_ℕ ts prev)

-- The episode after one more down interval.
unfoldable pub extend : (interval : ℕ) → Option Episode → Point → Episode
extend interval none p = record {
  start_ts = p.ts;
  end_ts = wrap64 (pos (p.ts + interval));
  duration_s = mul64 (pos 1) (pos interval);
  intervals = 1;
}
extend interval (some e) p = record {
  start_ts = e.start_ts;
  end_ts = wrap64 (pos (p.ts + interval));
  duration_s = mul64 (pos (suc e.intervals)) (pos interval);
  intervals = suc e.intervals;
}

-- `if cur != nil { r.Downtime = append(r.Downtime, *cur); cur = nil }`
unfoldable pub close : Tally → Tally
close t = elim t.cur [
  | none ↦ t
  | some e ↦ record t { downtime = t.downtime ++ e ∷ []; cur = none }
]

module _ {F : Type 0} (fl : FloatOps F) (threshold : F) where
  -- isDown
  unfoldable pub is_down : Point → Bool
  is_down p =
      if p.sent == 0
      then false
      else fl.le threshold (
          fl.div (fl.mul (fl.of_int (pos 100)) (fl.of_int (sub_ℕ p.sent p.received)))
            (fl.of_int (pos p.sent)))

  -- The two branches of the body, behind the test for a gap.
  unfoldable pub count : (interval : ℕ) → Point → Tally → Tally
  count interval p t =
      if is_down p
      then record t { down = suc t.down; cur = some (extend interval t.cur p) }
      else close (record t { up = suc t.up })

  -- The body of the loop; `prev` is the time of the point before.
  unfoldable pub tally_point : (interval prev : ℕ) → Point → Tally → Tally
  unfolding count
  tally_point interval prev p t =
      if p.sent == 0 then t else count interval p (if is_gap interval prev p.ts then close t else t)

  unfoldable pub tally : (interval prev : ℕ) → List Point → Tally → Tally
  unfolding tally_point
  tally interval prev [] t = t
  tally interval prev (p ∷ rest) t = tally interval p.ts rest (tally_point interval prev p t)

abbrev at_least_0 : ℤ → ℤ
at_least_0 a = if ltb_ℤ a (pos 0) then pos 0 else a

-- The rest of `Availability`, from the tally of the points.
module _ {F : Type 0} (fl : FloatOps F) where
  abbrev zero_float : F
  zero_float = fl.of_int (pos 0)

  unfoldable pub summarise :
      (interval_s : ℤ) → (from to window : ℕ) → (threshold : F) → Tally → Report F
  summarise interval_s from to window threshold t =
      let up_s = mul64 (pos t.up) interval_s in
      let down_s = mul64 (pos t.down) interval_s in
      let sum = wrap64 (up_s +ℤ down_s) in
      let covered_s = if ltb_ℤ (pos window) sum && ltb 0 window then pos window else sum in
      let has_data = ltb_ℤ (pos 0) covered_s in
      record {
        from = from;
        to = to;
        interval_s = interval_s;
        down_threshold_pct = threshold;
        window_s = window;
        up_s = up_s;
        down_s = down_s;
        unknown_s = at_least_0 (wrap64 (pos window -ℤ covered_s));
        covered_s = covered_s;
        up_intervals = t.up;
        down_intervals = t.down;
        has_data = has_data;
        availability =
            if has_data then fl.div (fl.of_int up_s) (fl.of_int covered_s) else zero_float;
        coverage =
            if ltb 0 window
            then fl.div (fl.of_int covered_s) (fl.of_int (pos window))
            else zero_float;
        downtime = t.downtime;
      }

  -- Availability
  unfoldable pub availability :
      List Point → (interval_s : ℤ) → (from to : ℕ) → (threshold : F) → Report F
  unfolding summarise tally
  availability points interval_s from to threshold =
      let window = if ltb from to then to - from else 0 in
      let start : Tally = record { up = 0; down = 0; downtime = []; cur = none } in
      if leb_ℤ interval_s (pos 0)
      then record {
        from = from;
        to = to;
        interval_s = interval_s;
        down_threshold_pct = threshold;
        window_s = window;
        up_s = pos 0;
        down_s = pos 0;
        unknown_s = pos window;
        covered_s = pos 0;
        up_intervals = 0;
        down_intervals = 0;
        has_data = false;
        availability = zero_float;
        coverage = zero_float;
        downtime = [];
      }
      else summarise interval_s from to window threshold
          (close (tally fl threshold (pos_part interval_s) 0 points start))
