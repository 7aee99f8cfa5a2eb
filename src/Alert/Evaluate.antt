-- ===== src/Alert/Evaluate.antt =====
-- `Value`, `percentileMS`, `trustworthy`, `Evaluate` and `EvaluateValue` of
-- internal/alert/alert.go. A method that changes `*State` returns the new state.
use smokeng.Common.{
  ℕ, ◌+◌, ◌-◌, Bool, true, false, not, ◌&&◌, ◌||◌, Option, none, some, List, [], ◌∷◌, if◌then◌else◌,
  ◌==◌, leb, length, get_elem?,
}
use smokeng.Common.Int.{ℤ, pos, negsuc, ltb_ℤ, leb_ℤ, mul64, sub_ℕ}
use smokeng.Common.Float.{FloatOps}
use smokeng.Alert.Rule.{
  Metric, loss, median, p95, spread, Op, less, Input, Rule, State, Transition, no_change, fired,
  resolved, is_loss,
}

-- trustworthy
unfoldable pub trustworthy : Input → Metric → Bool
trustworthy m metric = if is_loss metric then m.loss_trusted else m.rtt_trusted

-- `st.LastTS != 0 && ts-st.LastTS > int64(2*intervalS)`
unfoldable pub is_gap : ℕ → ℕ → ℤ → Bool
is_gap last_ts ts interval_s =
    not (last_ts == 0) && ltb_ℤ (mul64 (pos 2) interval_s) (sub_ℕ ts last_ts)

-- Whether two Booleans are equal, as `matches == st.Firing`.
abbrev pub same_bool : Bool → Bool → Bool
same_bool true b = b
same_bool false b = not b

module _ {F : Type 0} (fl : FloatOps F) where
  -- percentileMS; the quantile is given as a fraction, `q` hundredths. An index below 0 would be a
  -- panic, and is `none` with an empty list.
  abbrev quantile : ℕ → F
  quantile q = fl.div (fl.of_int (pos q)) (fl.of_int (pos 100))

  abbrev index_of : ℤ → ℕ → Option ℕ
  index_of (pos i) n = some (if leb n i then n - 1 else i)
  index_of (negsuc i) n = none

  unfoldable pub percentile_ms : List ℕ → ℕ → Option F
  percentile_ms [] q = none
  percentile_ms (x ∷ xs) q =
      let n = length (x ∷ xs) in
      elim (index_of (fl.trunc (fl.mul (quantile q) (fl.of_int (pos n)))) n) [
        | none ↦ none
        | some i ↦ elim (get_elem? (x ∷ xs) i) [
          | none ↦ none
          | some s ↦ some (fl.div (fl.of_int (pos s)) (fl.of_int (pos 1000)))
        ]
      ]

  -- `p95 - p5`
  abbrev difference : Option F → Option F → Option F
  difference none lo = none
  difference (some hi) none = none
  difference (some hi) (some lo) = some (fl.sub hi lo)

  -- Value; `ok` is whether there is one.
  unfoldable pub metric_value : Input → Metric → Option F
  unfolding percentile_ms
  metric_value m loss =
      if m.sent == 0
      then none
      else some (
          fl.div (fl.mul (fl.of_int (pos 100)) (fl.of_int (sub_ℕ m.sent m.received)))
            (fl.of_int (pos m.sent)))
  metric_value m median = percentile_ms m.samples 50
  metric_value m p95 = percentile_ms m.samples 95
  metric_value m spread = difference (percentile_ms m.samples 95) (percentile_ms m.samples 5)
  metric_value m _ = none

  -- Whether the value is on the side of the threshold that the rule fires on.
  abbrev side : Op → F → F → Bool
  side less value threshold = fl.lt value threshold
  side _ value threshold = fl.lt threshold value

  unfoldable pub matches : Rule F → F → Bool
  matches r value = side r.op value r.threshold

  -- The part of `EvaluateValue` behind the test for continuity: `st` has its `LastTS` and `Value`
  -- set already.
  unfoldable pub advance : Rule F → State F → Bool → ℕ → Transition × State F
  advance r st m ts =
      let streak = st.streak + 1 in
      if same_bool m st.firing
      then (no_change, record st { streak = 0 })
      else if not st.firing && leb_ℤ r.for_intervals (pos streak)
      then (fired, record st { firing = true; since = ts; streak = 0 })
      else if st.firing && leb_ℤ r.clear_intervals (pos streak)
      then (
        resolved,
        record st {
          firing = false;
          since = 0;
          streak = 0;
          acked_since = 0;
          acked_at = 0;
          acked_by = [];
        },
      )
      else (no_change, record st { streak = streak })

  -- EvaluateValue; `value` is `none` where `ok` is false.
  unfoldable pub evaluate_value :
      Rule F
      → State F
      → Option F
      → (trusted : Bool) → (ts : ℕ) → (interval_s : ℤ) → Transition × State F
  unfolding advance
  evaluate_value r st none trusted ts interval_s =
      if not r.enabled then (no_change, st) else (no_change, record st { streak = 0; last_ts = ts })
  evaluate_value r st (some value) trusted ts interval_s =
      if not r.enabled
      then (no_change, st)
      else if is_gap st.last_ts ts interval_s || not trusted
      then (no_change, record st { streak = 0; last_ts = ts })
      else advance r (record st { last_ts = ts; value = value }) (matches r value) ts

  -- Evaluate
  unfoldable pub evaluate : Rule F → State F → Input → ℤ → Transition × State F
  unfolding evaluate_value metric_value trustworthy
  evaluate r st m interval_s =
      evaluate_value r st (metric_value m r.metric) (trustworthy m r.metric) m.ts interval_s
