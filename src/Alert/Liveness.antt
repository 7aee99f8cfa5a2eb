-- ===== src/Alert/Liveness.antt =====
-- A condition that holds fires its rule, and after as many intervals as the rule says.
use smokeng.Common.{ℕ, suc, ◌+◌, ◌<◌, ◌≡◌, true, false, some, List, [], ◌∷◌, ◌++◌, arith, length}
use smokeng.Common.Int.{ℤ, pos_part}
use smokeng.Common.Float.{FloatOps}
use smokeng.Alert.Rule.{Rule, State, no_change, fired}
use smokeng.Alert.Evaluate.{is_gap, matches, evaluate_value}
use smokeng.Alert.Hysteresis.{Observation, Seen, step, seen, run}

module _ {F : Type 0} (fl : FloatOps F) (r : Rule F) (interval_s : ℤ) where
  -- A trusted value on the firing side, with no gap since the measurement at `last`.
  pub record Holds (last : ℕ) (o : Observation F) : Type 0 where
    pub v : F
    pub value : o.value ≡ some v
    pub matching : matches fl r v ≡ true
    pub trusted : o.trusted ≡ true
    pub on_time : is_gap last o.ts interval_s ≡ false

  -- Every measurement of the list holds, each after the one before it.
  abbrev pub Steady : ℕ → List (Observation F) → Type 0
  Steady last [] = Unit
  Steady last (o ∷ os) = Holds last o × Steady o.ts os

  module _ (on : r.enabled ≡ true) where
    Holds-counts :
        (st : State F) (o : Observation F)
        → Holds st.last_ts o
        → st.firing ≡ false
        → suc st.streak < pos_part r.for_intervals
        → ((step fl r interval_s st o).1.streak ≡ suc st.streak)
          × ((step fl r interval_s st o).1.firing ≡ false)
          × ((step fl r interval_s st o).1.last_ts ≡ o.ts)
          × ((step fl r interval_s st o).0 ≡ no_change)
    unfolding evaluate_value
    Holds-counts st o h clear more = ground (arith, h, h.value, h.matching, h.trusted, h.on_time)

    Holds-fires :
        (st : State F) (o : Observation F)
        → Holds st.last_ts o
        → st.firing ≡ false
        → suc st.streak ≡ pos_part r.for_intervals
        → ((step fl r interval_s st o).0 ≡ fired)
          × ((step fl r interval_s st o).1.firing ≡ true)
          × ((step fl r interval_s st o).1.since ≡ o.ts)
    unfolding evaluate_value
    Holds-fires st o h clear full = ground (arith, h.value, h.matching, h.trusted, h.on_time)

    -- From a clear rule: measurements that hold, as many as are missing with the last one, fire the
    -- rule at the last one and not before it.
    pub Steady-fires :
        (os : List (Observation F)) (o : Observation F) (st : State F) (hist : List Seen)
        → Steady st.last_ts (os ++ o ∷ [])
        → st.firing ≡ false
        → st.streak + length os + 1 ≡ pos_part r.for_intervals
        → let st' = (run fl r interval_s st hist os).0 in
          (st'.firing ≡ false)
          × ((step fl r interval_s st' o).0 ≡ fired)
          × ((step fl r interval_s st' o).1.since ≡ o.ts)
    Steady-fires [] o st hist h clear count =
        let f = Holds-fires st o h.0 clear (omega arith) in (clear, f.0, f.2)
    Steady-fires (x ∷ os) o st hist h clear count =
        let c = Holds-counts st x h.0 clear (omega arith) in
        let rest : Steady (step fl r interval_s st x).1.last_ts (os ++ o ∷ []) = rw c.2 h.1 in
        Steady-fires os o (step fl r interval_s st x).1 (seen fl r interval_s st x ∷ hist) rest c.1
          (omega (arith, c.0))
