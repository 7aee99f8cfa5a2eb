-- ===== src/Alert/Rule.antt =====
-- The data of internal/alert/alert.go and `(*Rule).Validate`. A string type with named constants is
-- a data type whose constructor `other` stands for any text that is none of them.
use smokeng.Common.{ℕ, Bool, true, false, not, ◌&&◌, ◌||◌, List, [], ◌==◌}
use smokeng.Common.Int.{ℤ, pos, ltb_ℤ}
use smokeng.Common.Float.{FloatOps}
use smokeng.Common.Text.{same}
use smokeng.Common.Result.{Result, ok, err, ◌>>◌, fail_if}

pub data Metric : Type 0 where
  loss median p95 spread shape bimodality : Metric
  other : List ℕ → Metric

pub data Op : Type 0 where
  greater less : Op
  other : List ℕ → Op

pub data Mode : Type 0 where
  auto tunable : Mode
  other : List ℕ → Mode

pub data Baseline : Type 0 where
  rolling golden : Baseline
  other : List ℕ → Baseline

pub data Severity : Type 0 where
  critical warning info : Severity
  other : List ℕ → Severity

-- The part of a measurement that alerting reads; `samples` are microseconds, ascending.
pub record Input : Type 0 where
  pub target_id : ℕ
  pub agent_id : ℕ
  pub ts : ℕ
  pub sent : ℕ
  pub received : ℕ
  pub samples : List ℕ
  pub loss_trusted : Bool
  pub rtt_trusted : Bool

pub record Rule (F : Type 0) : Type 0 where
  pub id : ℕ
  pub target_id : ℕ
  pub name : List ℕ
  pub metric : Metric
  pub op : Op
  pub threshold : F
  pub for_intervals : ℤ
  pub clear_intervals : ℤ
  pub enabled : Bool
  pub mode : Mode
  pub baseline : Baseline
  pub severity : Severity

-- A rule's standing for one series. Unix seconds are never negative; 0 stands for "none".
pub record State (F : Type 0) : Type 0 where
  pub rule_id : ℕ
  pub target_id : ℕ
  pub agent_id : ℕ
  pub firing : Bool
  pub since : ℕ
  pub streak : ℕ
  pub last_ts : ℕ
  pub value : F
  pub acked_since : ℕ
  pub acked_at : ℕ
  pub acked_by : List ℕ

pub data Transition : Type 0 where
  no_change fired resolved : Transition

pub data RuleError : Type 0 where
  shape_op shape_mode shape_baseline unknown_metric unknown_op name_required : RuleError
  threshold_not_finite loss_range for_too_small clear_too_small severity_unknown : RuleError

-- IsShape
unfoldable pub is_shape : Metric → Bool
is_shape shape = true
is_shape bimodality = true
is_shape _ = false

abbrev mode_known : Mode → Bool
mode_known auto = true
mode_known tunable = true
mode_known (other _) = false

abbrev baseline_known : Baseline → Bool
baseline_known rolling = true
baseline_known golden = true
baseline_known (other _) = false

abbrev severity_known : Severity → Bool
severity_known critical = true
severity_known warning = true
severity_known info = true
severity_known (other _) = false

abbrev pub is_greater : Op → Bool
is_greater greater = true
is_greater less = false
is_greater (other _) = false

abbrev op_known : Op → Bool
op_known greater = true
op_known less = true
op_known (other _) = false

-- The `switch` on the metric.
unfoldable pub validate_metric : Metric → Op → Mode → Baseline → Result RuleError (Unit {0})
validate_metric loss op mode baseline = ok tt
validate_metric median op mode baseline = ok tt
validate_metric p95 op mode baseline = ok tt
validate_metric spread op mode baseline = ok tt
validate_metric shape op mode baseline = do
  fail_if (not (is_greater op)) shape_op
  fail_if (not (mode_known mode)) shape_mode
  fail_if (not (baseline_known baseline)) shape_baseline
validate_metric bimodality op mode baseline = do
  fail_if (not (is_greater op)) shape_op
  fail_if (not (mode_known mode)) shape_mode
validate_metric (other _) op mode baseline = err unknown_metric

abbrev pub is_loss : Metric → Bool
is_loss loss = true
is_loss _ = false

module _ {F : Type 0} (fl : FloatOps F) where
  -- Validate
  unfoldable pub validate : Rule F → Result RuleError (Unit {0})
  unfolding validate_metric
  validate r = do
    validate_metric r.metric r.op r.mode r.baseline
    fail_if (not (op_known r.op)) unknown_op
    fail_if (same r.name []) name_required
    fail_if (fl.is_nan r.threshold || fl.is_inf r.threshold) threshold_not_finite
    fail_if
        (is_loss r.metric
          && (fl.lt r.threshold (fl.of_int (pos 0)) || fl.lt (fl.of_int (pos 100)) r.threshold))
        loss_range
    fail_if (ltb_ℤ r.for_intervals (pos 1)) for_too_small
    fail_if (ltb_ℤ r.clear_intervals (pos 1)) clear_too_small
    fail_if (not (severity_known r.severity)) severity_unknown

-- Acked
unfoldable pub acked : {F : Type 0} → State F → Bool
acked st = st.firing && not (st.acked_since == 0) && (st.acked_since == st.since)
