-- ===== src/Scenarios/Alerts.antt =====
-- A loss rule on one target, its measurements, and a manager that watches it.
use smokeng.Common.{ℕ, ◌≡◌, refl, true, false, some, List, [], ◌∷◌, arith}
use smokeng.Common.Int.{pos, mul64, wrap64, ◌*ℤ◌}
use smokeng.Common.Text.{codes}
use smokeng.Scenarios.Fixed.{fixed}
use smokeng.Alert.Rule.{Rule, State, fired, loss, greater, tunable, rolling, critical, acked}
use smokeng.Alert.Evaluate.{is_gap, matches, evaluate_value}
use smokeng.Alert.Hysteresis.{Observation, Pushed, step, seen, run, fired-Pushed, resolved-Pushed}
use smokeng.Alert.Liveness.{Steady-fires}
use smokeng.Alert.Episodes.{run-fired-unacked, acked-kept}

-- More than 10 percent lost, in two intervals of a minute.
abbrev pub rule : Rule ℕ
rule = record {
  id = 7;
  target_id = 3;
  name = codes "loss";
  metric = loss;
  op = greater;
  threshold = 10000;
  for_intervals = pos 2;
  clear_intervals = pos 2;
  enabled = true;
  mode = tunable;
  baseline = rolling;
  severity = critical;
}

abbrev pub clear : State ℕ
clear = record {
  rule_id = 7;
  target_id = 3;
  agent_id = 1;
  firing = false;
  since = 0;
  streak = 0;
  last_ts = 0;
  value = 0;
  acked_since = 0;
  acked_at = 0;
  acked_by = [];
}

-- Firing since 120, and acknowledged.
abbrev pub burning : State ℕ
burning = record clear { firing = true; since = 120; last_ts = 120; acked_since = 120 }

abbrev at : ℕ → ℕ → Observation ℕ
at value ts = record { value = some value; trusted = true; ts = ts }

abbrev before : List (Observation ℕ)
before = at 0 60 ∷ at 50000 120 ∷ []

fired-Pushed_example : Pushed 2 true (
    seen fixed rule (pos 60) (run fixed rule (pos 60) clear [] before).0 (at 20000 180)
    ∷ (run fixed rule (pos 60) clear [] before).1)
unfolding evaluate_value is_gap matches mul64 wrap64 ◌*ℤ◌
fired-Pushed_example =
    fired-Pushed fixed rule (pos 60) (omega arith) (omega arith) clear before (at 20000 180) refl
      refl

resolved-Pushed_example : Pushed 2 false (
    seen fixed rule (pos 60) (run fixed rule (pos 60) burning [] (at 0 180 ∷ [])).0 (at 0 240)
    ∷ (run fixed rule (pos 60) burning [] (at 0 180 ∷ [])).1)
unfolding evaluate_value is_gap matches mul64 wrap64 ◌*ℤ◌
resolved-Pushed_example =
    resolved-Pushed fixed rule (pos 60) (omega arith) (omega arith) burning (at 0 180 ∷ [])
      (at 0 240) refl refl

Steady-fires_example :
    ((run fixed rule (pos 60) clear [] (at 50000 60 ∷ [])).0.firing ≡ false)
    × ((step fixed rule
          (pos 60)
          (run fixed rule (pos 60) clear [] (at 50000 60 ∷ [])).0
          (at 20000 120)).0
        ≡ fired)
    × ((step fixed rule
          (pos 60)
          (run fixed rule (pos 60) clear [] (at 50000 60 ∷ [])).0
          (at 20000 120)).1.since
        ≡ 120)
unfolding is_gap matches mul64 wrap64 ◌*ℤ◌
Steady-fires_example =
    Steady-fires fixed rule (pos 60) refl (at 50000 60 ∷ []) (at 20000 120) clear []
      (
        record { v = 50000; value = refl; matching = refl; trusted = refl; on_time = refl },
        (record { v = 20000; value = refl; matching = refl; trusted = refl; on_time = refl }, tt),
      )
      refl refl

run-fired-unacked_example :
    acked (step fixed rule (pos 60) (run fixed rule (pos 60) clear [] before).0 (at 20000 180)).1
    ≡ false
unfolding evaluate_value is_gap matches mul64 wrap64 ◌*ℤ◌
run-fired-unacked_example =
    run-fired-unacked fixed rule (pos 60) clear before (at 20000 180) (λ _. refl) refl

acked-kept_example : acked (step fixed rule (pos 60) burning (at 0 180)).1 ≡ true
unfolding evaluate_value is_gap matches mul64 wrap64 ◌*ℤ◌ acked
acked-kept_example = acked-kept fixed rule (pos 60) burning (at 0 180) refl (λ e. cc)
