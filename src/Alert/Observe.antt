-- ===== src/Alert/Observe.antt =====
-- `Observe` of internal/alert/manager.go. The value of a shape rule, which shape.go computes from a
-- memory `H` of the series' history, is a parameter `shape_value`.
use smokeng.Common.{ℕ, Option, none, some, List, [], ◌∷◌, ◌++◌, if◌then◌else◌}
use smokeng.Common.Int.{ℤ}
use smokeng.Common.Float.{FloatOps}
use smokeng.Alert.Rule.{Input, Rule, State, Transition, is_shape}
use smokeng.Alert.Evaluate.{evaluate, evaluate_value}
use smokeng.Alert.Manager.{
  Applicable, Alert, Manager, Effects, state_at, put_state, applicable_at, deliver, fresh_state,
  or_fresh, announce,
}

module _ {F H : Type 0} (fl : FloatOps F) (zero_value : F)
    (shape_value : H → Rule F → Input → H × Option F) where
  -- The evaluation of one rule on one measurement.
  unfoldable pub judge : H → Rule F → State F → Input → ℤ → H × Transition × State F
  judge shapes r st meas interval_s =
      if is_shape r.metric
      then (let (shapes', value) = shape_value shapes r meas in
          let (t, st') = evaluate_value fl r st value meas.rtt_trusted meas.ts interval_s in
          (shapes', t, st'))
      else (let (t, st') = evaluate fl r st meas interval_s in (shapes, t, st'))

  -- The variables of `Observe`: the states, the shape memory, and the slices `fired` and `dirty`.
  pub record Observed : Type 0 where
    pub states : List (State F)
    pub shapes : H
    pub alerts : List (Alert F)
    pub dirty : List (State F)

  unfoldable pub current : List (State F) → (rule target agent : ℕ) → State F
  unfolding state_at
  current states rule target agent =
      or_fresh (state_at states rule target agent) (fresh_state zero_value rule target agent)

  -- The body of the inner loop.
  unfoldable pub observe_rule : Applicable F → (now : ℕ) → Input → Rule F → Observed → Observed
  observe_rule app now meas r o =
      let (shapes, t, st) =
        judge o.shapes r (current o.states r.id meas.target_id meas.agent_id) meas app.interval_s in
      record {
        states = put_state st o.states;
        shapes = shapes;
        alerts = o.alerts ++ announce t r st app now;
        dirty = o.dirty ++ st ∷ [];
      }

  unfoldable pub observe_rules :
      Applicable F → (now : ℕ) → Input → List (Rule F) → Observed → Observed
  observe_rules app now meas [] o = o
  observe_rules app now meas (r ∷ rest) o =
      observe_rules app now meas rest (observe_rule app now meas r o)

  -- The body of the outer loop; a measurement of a target that no rule applies to is skipped.
  unfoldable pub observe_input : List (Applicable F) → (now : ℕ) → Input → Observed → Observed
  observe_input apps now meas o = elim (applicable_at apps meas.target_id) [
    | none ↦ o
    | some app ↦ observe_rules app now meas app.rules o
  ]

  unfoldable pub observe_inputs : List (Applicable F) → (now : ℕ) → List Input → Observed → Observed
  observe_inputs apps now [] o = o
  observe_inputs apps now (meas ∷ rest) o =
      observe_inputs apps now rest (observe_input apps now meas o)

  -- Observe
  unfoldable pub observe : Manager F H → (now : ℕ) → List Input → Manager F H × Effects F
  observe m now ms =
      let o =
        observe_inputs m.by_target now ms
          (record { states = m.states; shapes = m.shapes; alerts = []; dirty = [] }) in
      let m' = record m { states = o.states; shapes = o.shapes } in
      let e = deliver m' now o.alerts in (m', record e { saved = o.dirty })
