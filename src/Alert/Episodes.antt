-- ===== src/Alert/Episodes.antt =====
-- Acknowledgements: what an evaluation leaves of them.
use smokeng.Common.{◌≡◌, ◌≢◌, true, false, List, [], ◌∷◌, arith}
use smokeng.Common.Int.{ℤ}
use smokeng.Common.Float.{FloatOps}
use smokeng.Alert.Rule.{Rule, State, fired, resolved, acked}
use smokeng.Alert.Evaluate.{evaluate_value}
use smokeng.Alert.Hysteresis.{Observation, Seen, step, run}

-- A rule that is clear carries no acknowledgement.
abbrev pub AckEnds : {F : Type 0} → State F → Type 0
AckEnds st = st.firing ≡ false → st.acked_since ≡ 0

module _ {F : Type 0} (fl : FloatOps F) (r : Rule F) (interval_s : ℤ) where
  step-AckEnds :
      (st : State F) (o : Observation F) → AckEnds st → AckEnds (step fl r interval_s st o).1
  unfolding evaluate_value
  step-AckEnds st o h = ground arith

  run-AckEnds :
      (os : List (Observation F)) (st : State F) (hist : List Seen)
      → AckEnds st
      → AckEnds (run fl r interval_s st hist os).0
  run-AckEnds [] st hist h = h
  run-AckEnds (o ∷ os) st hist h = run-AckEnds os _ _ (step-AckEnds st o h)

  fired-unacked :
      (st : State F) (o : Observation F)
      → AckEnds st
      → (step fl r interval_s st o).0 ≡ fired
      → acked (step fl r interval_s st o).1 ≡ false
  unfolding evaluate_value acked
  fired-unacked st o h f = ground arith

  -- An acknowledgement mutes one episode only. From a state that carries none while clear, after any
  -- run of measurements, a rule that fires is not acknowledged.
  pub run-fired-unacked :
      (st : State F) (os : List (Observation F)) (o : Observation F)
      → AckEnds st
      → (step fl r interval_s (run fl r interval_s st [] os).0 o).0 ≡ fired
      → acked (step fl r interval_s (run fl r interval_s st [] os).0 o).1 ≡ false
  run-fired-unacked st os o h f = fired-unacked _ o (run-AckEnds os st [] h) f

  -- While the rule goes on firing, the acknowledgement of the episode stays: whatever is measured,
  -- an evaluation that does not resolve keeps it.
  pub acked-kept :
      (st : State F) (o : Observation F)
      → acked st ≡ true
      → (step fl r interval_s st o).0 ≢ resolved
      → acked (step fl r interval_s st o).1 ≡ true
  unfolding evaluate_value acked
  acked-kept st o a n = ground (arith, n)
