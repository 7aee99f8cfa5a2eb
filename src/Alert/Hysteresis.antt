-- ===== src/Alert/Hysteresis.antt =====
-- What hysteresis promises of `EvaluateValue` over any run of measurements.
use smokeng.Common.{
  ℕ, zero, suc, ◌≤◌, ◌<◌, ◌≡◌, ◌⊎◌, inl, inr, Bool, true, false, not, ◌&&◌, Option, none, some,
  List, [], ◌∷◌, arith, ◌∙◌, Bool-cases,
}
use smokeng.Common.Int.{ℤ, pos_part}
use smokeng.Common.Float.{FloatOps}
use smokeng.Alert.Rule.{Rule, State, Transition, no_change, fired, resolved, acked}
use smokeng.Alert.Evaluate.{is_gap, matches, evaluate_value}

-- One evaluation's inputs: the value if there is one, whether it can be trusted, and when it was.
pub record Observation (F : Type 0) : Type 0 where
  pub value : Option F
  pub trusted : Bool
  pub ts : ℕ

-- What an evaluation saw: whether the measurement counted, on which side of the threshold it was,
-- and whether the rule was firing.
pub record Seen : Type 0 where
  pub counted : Bool
  pub matched : Bool
  pub firing : Bool

-- The last `k` evaluations counted, were on the side `b`, and found the rule in the other state.
abbrev pub Pushed : ℕ → Bool → List Seen → Type 0
Pushed zero b hist = Unit
Pushed (suc k) b [] = ⊥
Pushed (suc k) b (s ∷ hist) =
    (s.counted ≡ true) × (s.matched ≡ b) × (s.firing ≡ not b) × Pushed k b hist

module _ {F : Type 0} (fl : FloatOps F) (r : Rule F) (interval_s : ℤ) where
  abbrev pub step : State F → Observation F → Transition × State F
  step st o = evaluate_value fl r st o.value o.trusted o.ts interval_s

  abbrev seen_value : State F → Observation F → Option F → Seen
  seen_value st o none = record { counted = false; matched = false; firing = st.firing }
  seen_value st o (some value) = record {
    counted = r.enabled && not (is_gap st.last_ts o.ts interval_s) && o.trusted;
    matched = matches fl r value;
    firing = st.firing;
  }

  abbrev pub seen : State F → Observation F → Seen
  seen st o = seen_value st o o.value

  -- The state after a run, and what was seen, the newest first.
  abbrev pub run : State F → List Seen → List (Observation F) → State F × List Seen
  run st hist [] = (st, hist)
  run st hist (o ∷ rest) = run (step st o).1 (seen st o ∷ hist) rest

  firing-seen : (st : State F) (o : Observation F) → (seen st o).firing ≡ st.firing
  firing-seen st o = ground arith

  -- What an evaluation does to the streak.
  data Moved (st : State F) (o : Observation F) (t : Transition) (st' : State F) : Type 0 where
    still : t ≡ no_change → st'.streak ≡ 0 → st'.firing ≡ st.firing → Moved st o t st'
    kept : r.enabled ≡ false → t ≡ no_change → st' ≡ st → Moved st o t st'
    counting :
        t ≡ no_change
        → (seen st o).counted ≡ true
        → (seen st o).matched ≡ not st.firing
        → st'.streak ≡ suc st.streak
        → st'.firing ≡ st.firing
        → (st.firing ≡ false → suc st.streak < pos_part r.for_intervals)
        → (st.firing ≡ true → suc st.streak < pos_part r.clear_intervals)
        → Moved st o t st'
    firing :
        t ≡ fired
        → (seen st o).counted ≡ true
        → (seen st o).matched ≡ true
        → st.firing ≡ false
        → st'.firing ≡ true
        → st'.streak ≡ 0
        → st'.since ≡ o.ts
        → pos_part r.for_intervals ≤ suc st.streak
        → Moved st o t st'
    clearing :
        t ≡ resolved
        → (seen st o).counted ≡ true
        → (seen st o).matched ≡ false
        → st.firing ≡ true
        → st'.firing ≡ false
        → st'.streak ≡ 0
        → acked st' ≡ false
        → pos_part r.clear_intervals ≤ suc st.streak
        → Moved st o t st'

  step-Moved : (st : State F) (o : Observation F) → Moved st o (step st o).0 (step st o).1
  unfolding evaluate_value acked
  step-Moved st o = grind (arith, still, kept, counting, firing, clearing)

  -- Between evaluations: the streak counts evaluations in a row that pushed to the other state, and
  -- has not reached what the change takes.
  record Inv (st : State F) (hist : List Seen) : Type 0 where
    pushed : Pushed st.streak (not st.firing) hist
    below_for : st.firing ≡ false → st.streak < pos_part r.for_intervals
    below_clear : st.firing ≡ true → st.streak < pos_part r.clear_intervals

  disabled-silent :
      (st : State F) (o : Observation F)
      → r.enabled ≡ false
      → ¬ (((step st o).0 ≡ fired) ⊎ ((step st o).0 ≡ resolved))
  unfolding evaluate_value
  disabled-silent st o off x = ground arith

  module _ (for_pos : 0 < pos_part r.for_intervals)
      (clear_pos : 0 < pos_part r.clear_intervals) where
    reset-Inv : (st : State F) (hist : List Seen) → st.streak ≡ 0 → Inv st hist
    reset-Inv st hist e = record {
      pushed = rw e tt;
      below_for = λ _. omega arith;
      below_clear = λ _. omega arith;
    }

    firing_unmatched :
        (st : State F) (s : Seen) → s.firing ≡ st.firing → s.firing ≡ not (not st.firing)
    firing_unmatched st s e = ground arith

    Moved-Inv :
        (st st' : State F) (o : Observation F) (t : Transition) (hist : List Seen)
        → r.enabled ≡ true
        → Inv st hist
        → Moved st o t st'
        → Inv st' (seen st o ∷ hist)
    Moved-Inv st st' o t hist on i (still e z f) = reset-Inv st' _ z
    Moved-Inv st st' o t hist on i (kept off e s) = cc
    Moved-Inv st st' o t hist on i (counting e c m z f below clear) = record {
      pushed = rw (z, f) (c, m, firing_unmatched st (seen st o) (firing-seen st o), i.pushed);
      below_for = λ x. ground (arith, below);
      below_clear = λ x. ground (arith, clear);
    }
    Moved-Inv st st' o t hist on i (firing e c m f g z s b) = reset-Inv st' _ z
    Moved-Inv st st' o t hist on i (clearing e c m f g z s b) = reset-Inv st' _ z

    run-Inv :
        (st : State F) (hist : List Seen) (os : List (Observation F))
        → r.enabled ≡ true
        → Inv st hist
        → Inv (run st hist os).0 (run st hist os).1
    run-Inv st hist [] on i = i
    run-Inv st hist (o ∷ os) on i =
        run-Inv (step st o).1 (seen st o ∷ hist) os on
          (Moved-Inv st (step st o).1 o (step st o).0 hist on i (step-Moved st o))

    -- The threshold is met exactly: one more push than the streak that was below it.
    Moved-fired :
        (st st' : State F) (o : Observation F) (t : Transition) (hist : List Seen)
        → Inv st hist
        → Moved st o t st'
        → t ≡ fired
        → Pushed (pos_part r.for_intervals) true (seen st o ∷ hist)
    Moved-fired st st' o t hist i (still e z f) x = cc
    Moved-fired st st' o t hist i (kept off e s) x = cc
    Moved-fired st st' o t hist i (counting e c m z f below clear) x = cc
    Moved-fired st st' o t hist i (clearing e c m f g z s b) x = cc
    Moved-fired st st' o t hist i (firing e c m f g z s b) x =
        let exact : pos_part r.for_intervals ≡ suc st.streak = omega (arith, i.below_for f) in
        let unlit : Pushed st.streak (not false) hist = rw f at i.pushed in
        rw exact (c, m, firing-seen st o ∙ f, unlit)

    Moved-resolved :
        (st st' : State F) (o : Observation F) (t : Transition) (hist : List Seen)
        → Inv st hist
        → Moved st o t st'
        → t ≡ resolved
        → Pushed (pos_part r.clear_intervals) false (seen st o ∷ hist)
    Moved-resolved st st' o t hist i (still e z f) x = cc
    Moved-resolved st st' o t hist i (kept off e s) x = cc
    Moved-resolved st st' o t hist i (counting e c m z f below clear) x = cc
    Moved-resolved st st' o t hist i (firing e c m f g z s b) x = cc
    Moved-resolved st st' o t hist i (clearing e c m f g z s b) x =
        let exact : pos_part r.clear_intervals ≡ suc st.streak = omega (arith, i.below_clear f) in
        let lit : Pushed st.streak (not true) hist = rw f at i.pushed in
        rw exact (c, m, firing-seen st o ∙ f, lit)

    -- A rule with thresholds of at least one interval, whatever its past, starting from a streak of
    -- 0: if it fires, the last `for_intervals` evaluations all counted (enabled, a value, trusted,
    -- no gap), were all on the firing side, and found the rule clear.
    pub fired-Pushed :
        (st : State F) (os : List (Observation F)) (o : Observation F)
        → st.streak ≡ 0
        → (step (run st [] os).0 o).0 ≡ fired
        → Pushed (pos_part r.for_intervals) true (seen (run st [] os).0 o ∷ (run st [] os).1)
    fired-Pushed st os o z f = elim (Bool-cases r.enabled) [
      | inl on ↦
          let (st', hist) = run st [] os in
          Moved-fired st' (step st' o).1 o (step st' o).0 hist
            (run-Inv st [] os on (reset-Inv st [] z)) (step-Moved st' o) f
      | inr off ↦ absurd (disabled-silent (run st [] os).0 o off (inl f))
    ]

    -- The same for clearing: the last `clear_intervals` evaluations all counted, were all off the
    -- firing side, and found the rule firing.
    pub resolved-Pushed :
        (st : State F) (os : List (Observation F)) (o : Observation F)
        → st.streak ≡ 0
        → (step (run st [] os).0 o).0 ≡ resolved
        → Pushed (pos_part r.clear_intervals) false (seen (run st [] os).0 o ∷ (run st [] os).1)
    resolved-Pushed st os o z f = elim (Bool-cases r.enabled) [
      | inl on ↦
          let (st', hist) = run st [] os in
          Moved-resolved st' (step st' o).1 o (step st' o).0 hist
            (run-Inv st [] os on (reset-Inv st [] z)) (step-Moved st' o) f
      | inr off ↦ absurd (disabled-silent (run st [] os).0 o off (inr f))
    ]
