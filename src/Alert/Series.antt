-- ===== src/Alert/Series.antt =====
-- The manager keeps one hysteresis for each series: what `Observe` does to the state of a key is a
-- run of `Evaluate` over that key's own measurements.
use smokeng.Common.{
  ℕ, ◌≡◌, ◌≢◌, refl, ◌⊎◌, inl, inr, Bool, true, false, ◌&&◌, Option, some, List, [], ◌∷◌, arith,
  if◌then◌else◌, ◌==◌, keep, Bool-cases, Option-cases, ◌∙◌, All, ap,
}
use smokeng.Common.Int.{ℤ}
use smokeng.Common.Float.{FloatOps}
use smokeng.Alert.Rule.{Input, Rule, State, is_shape}
use smokeng.Alert.Evaluate.{evaluate}
use smokeng.Alert.States.{state_at-put_state, OfKey, has_key-of, current-OfKey, judge-OfKey}
use smokeng.Alert.Manager.{Applicable, state_at, applicable_at}
use smokeng.Alert.Observe.{
  Observed, current, judge, observe_rule, observe_rules, observe_input, observe_inputs,
}

module _ {F : Type 0} (fl : FloatOps F) where
  -- A run of `Evaluate`.
  abbrev pub evaluate_all : Rule F → ℤ → State F → List Input → State F
  evaluate_all r interval_s st [] = st
  evaluate_all r interval_s st (meas ∷ rest) =
      evaluate_all r interval_s (evaluate fl r st meas interval_s).1 rest

module _ {F H : Type 0} (fl : FloatOps F) (zero_value : F)
    (shape_value : H → Rule F → Input → H × Option F) where
  abbrev pub current' : List (State F) → (rule target agent : ℕ) → State F
  current' = current fl zero_value shape_value

  -- The state of one key after one rule is evaluated on one measurement.
  observe_rule-state_at :
      (app : Applicable F) (now : ℕ) (meas : Input) (q : Rule F)
      (o : Observed fl zero_value shape_value) (rule target agent : ℕ)
      → state_at (observe_rule fl zero_value shape_value app now meas q o).states rule target agent
        ≡ (if (q.id == rule) && (meas.target_id == target) && (meas.agent_id == agent)
            then some
                (judge fl zero_value shape_value o.shapes q
                  (current' o.states q.id meas.target_id meas.agent_id)
                  meas
                  app.interval_s).2
            else state_at o.states rule target agent)
  unfolding observe_rule
  observe_rule-state_at app now meas q o rule target agent =
      let cur = current' o.states q.id meas.target_id meas.agent_id in
      let st = (judge fl zero_value shape_value o.shapes q cur meas app.interval_s).2 in
      let k : OfKey q.id meas.target_id meas.agent_id st =
        judge-OfKey fl zero_value shape_value o.shapes q cur meas app.interval_s q.id meas.target_id
          meas.agent_id
          (current-OfKey fl zero_value shape_value o.states q.id meas.target_id meas.agent_id) in
      state_at-put_state st o.states rule target agent
      ∙ ap (λ (b : Bool). if b then some st else state_at o.states rule target agent)
          (has_key-of rule target agent st k)

  abbrev at : Observed fl zero_value shape_value → (rule target agent : ℕ) → State F
  at o rule target agent = current' o.states rule target agent

  current-state_at :
      (states states' : List (State F)) (rule target agent : ℕ)
      → state_at states rule target agent ≡ state_at states' rule target agent
      → current' states rule target agent ≡ current' states' rule target agent
  unfolding current
  current-state_at states states' rule target agent e = rw e

  current-some :
      (states : List (State F)) (rule target agent : ℕ) (st : State F)
      → state_at states rule target agent ≡ some st
      → current' states rule target agent ≡ st
  unfolding current
  current-some states rule target agent st e = rw e

  -- Rules with other ids, and measurements of another series, leave the state of a key alone.
  rule-other :
      (app : Applicable F) (now : ℕ) (meas : Input) (q : Rule F)
      (o : Observed fl zero_value shape_value) (rule target agent : ℕ)
      → ((q.id == rule) && (meas.target_id == target) && (meas.agent_id == agent)) ≡ false
      → at (observe_rule fl zero_value shape_value app now meas q o) rule target agent
        ≡ at o rule target agent
  rule-other app now meas q o rule target agent e =
      current-state_at _ _ rule target agent
        (observe_rule-state_at app now meas q o rule target agent ∙ rw e)

  module _ (r : Rule F) (scalar : is_shape r.metric ≡ false) (target agent : ℕ) where
    judge-scalar :
        (shapes : H) (st : State F) (meas : Input) (interval_s : ℤ)
        → (judge fl zero_value shape_value shapes r st meas interval_s).2
          ≡ (evaluate fl r st meas interval_s).1
    unfolding judge
    judge-scalar shapes st meas interval_s = rw scalar

    abbrev mine : Input → Bool
    mine meas = (meas.target_id == target) && (meas.agent_id == agent)

    rule-own :
        (app : Applicable F) (now : ℕ) (meas : Input) (o : Observed fl zero_value shape_value)
        → meas.target_id ≡ target
        → meas.agent_id ≡ agent
        → at (observe_rule fl zero_value shape_value app now meas r o) r.id target agent
          ≡ (evaluate fl r (at o r.id target agent) meas app.interval_s).1
    rule-own app now meas o t a =
        let hit : ((r.id == r.id) && (meas.target_id == target) && (meas.agent_id == agent))
            ≡ true =
          ground arith in
        let cur = at o r.id meas.target_id meas.agent_id in
        let st = (judge fl zero_value shape_value o.shapes r cur meas app.interval_s).2 in
        let same : cur ≡ at o r.id target agent = rw (t, a) in
        let written : state_at (observe_rule fl zero_value shape_value app now meas r o).states r.id
              target agent
            ≡ some st =
          observe_rule-state_at app now meas r o r.id target agent
          ∙ ap (λ (b : Bool). if b then some st else state_at o.states r.id target agent) hit in
        current-some _ r.id target agent st written
        ∙ judge-scalar o.shapes cur meas app.interval_s
        ∙ ap (λ (s : State F). (evaluate fl r s meas app.interval_s).1) same

    -- `r` is in the list once.
    abbrev Once : List (Rule F) → Type 0
    Once [] = ⊥
    Once (q ∷ rest) =
        ((q ≡ r) × All (λ (p : Rule F). p.id ≢ r.id) rest) ⊎ ((q.id ≢ r.id) × Once rest)

    rules-other :
        (app : Applicable F) (now : ℕ) (meas : Input) (rules : List (Rule F))
        (o : Observed fl zero_value shape_value)
        → All (λ (p : Rule F). p.id ≢ r.id) rules
        → at (observe_rules fl zero_value shape_value app now meas rules o) r.id target agent
          ≡ at o r.id target agent
    unfolding observe_rules
    rules-other app now meas [] o h = refl
    rules-other app now meas (q ∷ rest) o h =
        rules-other app now meas rest (observe_rule fl zero_value shape_value app now meas q o) h.1
        ∙ rule-other app now meas q o r.id target agent (ground (arith, h.0))

    rules-own :
        (app : Applicable F) (now : ℕ) (meas : Input) (rules : List (Rule F))
        (o : Observed fl zero_value shape_value)
        → meas.target_id ≡ target
        → meas.agent_id ≡ agent
        → Once rules
        → at (observe_rules fl zero_value shape_value app now meas rules o) r.id target agent
          ≡ (evaluate fl r (at o r.id target agent) meas app.interval_s).1
    unfolding observe_rules
    rules-own app now meas [] o t a once = absurd once
    rules-own app now meas (q ∷ rest) o t a (inl h) = rw h.0 (
        rules-other app now meas rest (observe_rule fl zero_value shape_value app now meas r o) h.1
        ∙ rule-own app now meas o t a)
    rules-own app now meas (q ∷ rest) o t a (inr h) =
        rules-own app now meas rest (observe_rule fl zero_value shape_value app now meas q o) t a
          h.1
        ∙ ap (λ (s : State F). (evaluate fl r s meas app.interval_s).1)
            (rule-other app now meas q o r.id target agent (ground (arith, h.0)))

    rules-elsewhere :
        (app : Applicable F) (now : ℕ) (meas : Input) (rules : List (Rule F))
        (o : Observed fl zero_value shape_value)
        → mine meas ≡ false
        → at (observe_rules fl zero_value shape_value app now meas rules o) r.id target agent
          ≡ at o r.id target agent
    unfolding observe_rules
    rules-elsewhere app now meas [] o e = refl
    rules-elsewhere app now meas (q ∷ rest) o e =
        rules-elsewhere app now meas rest (observe_rule fl zero_value shape_value app now meas q o)
          e
        ∙ rule-other app now meas q o r.id target agent (ground (arith, e))

    input-own :
        (apps : List (Applicable F)) (app : Applicable F) (now : ℕ) (meas : Input)
        (o : Observed fl zero_value shape_value)
        → applicable_at apps target ≡ some app
        → Once app.rules
        → meas.target_id ≡ target
        → meas.agent_id ≡ agent
        → at (observe_input fl zero_value shape_value apps now meas o) r.id target agent
          ≡ (evaluate fl r (at o r.id target agent) meas app.interval_s).1
    unfolding observe_input
    input-own apps app now meas o known once t a =
        let found : applicable_at apps meas.target_id ≡ some app = rw t known in
        rw (found, observe_input) (rules-own app now meas app.rules o t a once)

    input-elsewhere :
        (apps : List (Applicable F)) (now : ℕ) (meas : Input)
        (o : Observed fl zero_value shape_value)
        → mine meas ≡ false
        → at (observe_input fl zero_value shape_value apps now meas o) r.id target agent
          ≡ at o r.id target agent
    unfolding observe_input
    input-elsewhere apps now meas o e = elim (Option-cases (applicable_at apps meas.target_id)) [
      | inl n ↦ rw (n, observe_input)
      | inr (app, n) ↦ rw (n, observe_input) (rules-elsewhere app now meas app.rules o e)
    ]

    -- `Observe` refines one hysteresis for each series. For a rule on a single interval that the
    -- target's rules hold once, the state of (rule, target, agent) after any measurements, of any
    -- series in any order, is a run of `Evaluate` over the measurements of that target and agent.
    pub observe_inputs-evaluate_all :
        (apps : List (Applicable F)) (app : Applicable F) (now : ℕ) (ms : List Input)
        (o : Observed fl zero_value shape_value)
        → applicable_at apps target ≡ some app
        → Once app.rules
        → current fl zero_value shape_value
            (observe_inputs fl zero_value shape_value apps now ms o).states
            r.id
            target
            agent
          ≡ evaluate_all fl r app.interval_s
              (current fl zero_value shape_value o.states r.id target agent)
              (keep mine ms)
    unfolding observe_inputs keep
    observe_inputs-evaluate_all apps app now [] o known once = refl
    observe_inputs-evaluate_all apps app now (meas ∷ rest) o known once =
        elim (Bool-cases (mine meas)) [
          | inl e ↦ rw e (
              observe_inputs-evaluate_all apps app now rest
                (observe_input fl zero_value shape_value apps now meas o) known once
              ∙ ap (λ (s : State F). evaluate_all fl r app.interval_s s (keep mine rest))
                  (input-own apps app now meas o known once (ground (arith, e))
                    (ground (arith, e))))
          | inr e ↦ rw e (
              observe_inputs-evaluate_all apps app now rest
                (observe_input fl zero_value shape_value apps now meas o) known once
              ∙ ap (λ (s : State F). evaluate_all fl r app.interval_s s (keep mine rest))
                  (input-elsewhere apps now meas o e))
        ]
