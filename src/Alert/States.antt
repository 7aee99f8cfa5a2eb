-- ===== src/Alert/States.antt =====
-- The manager's map of states: its laws, and that every state stands under its own key.
use smokeng.Common.{
  ℕ, ◌≡◌, refl, inl, inr, Bool, true, ◌&&◌, Option, some, List, [], ◌∷◌, arith, if◌then◌else◌, ◌==◌,
  find, Bool-cases, Option-cases,
}
use mathlib.Core.Path.{subst}
use smokeng.Common.Int.{ℤ}
use smokeng.Common.Float.{FloatOps}
use smokeng.Alert.Rule.{Input, Rule, State, is_shape}
use smokeng.Alert.Evaluate.{evaluate, evaluate_value, metric_value, trustworthy}
use smokeng.Alert.Manager.{has_key, state_at, put_state, fresh_state}
use smokeng.Alert.Observe.{current, judge}

module _ {F : Type 0} where
  -- The map laws of the states, in `if` form.
  pub state_at-put_state :
      (st : State F) (states : List (State F)) (rule target agent : ℕ)
      → state_at (put_state st states) rule target agent
        ≡ (if has_key rule target agent st then some st else state_at states rule target agent)
  unfolding state_at put_state find has_key
  state_at-put_state st [] rule target agent = refl
  state_at-put_state st (x ∷ rest) rule target agent =
      ground (arith, state_at-put_state st rest rule target agent)

  pub state_at-has_key :
      (states : List (State F)) (rule target agent : ℕ) {st : State F}
      → state_at states rule target agent ≡ some st
      → has_key rule target agent st ≡ true
  unfolding state_at find
  state_at-has_key [] rule target agent h = cc
  state_at-has_key (x ∷ rest) rule target agent {st} h =
      elim (Bool-cases (has_key rule target agent x)) [
        | inl e ↦
            let is : some x ≡ some st = rw (e, find) at h in
            let same : x ≡ st = cc is in
            subst (λ (s : State F). has_key rule target agent s ≡ true) same e
        | inr e ↦ state_at-has_key rest rule target agent (rw (e, find) at h)
      ]

  -- A state of the key (rule, target, agent).
  pub record OfKey (rule target agent : ℕ) (st : State F) : Type 0 where
    pub rule_is : st.rule_id ≡ rule
    pub target_is : st.target_id ≡ target
    pub agent_is : st.agent_id ≡ agent

  has_key-OfKey :
      (rule target agent : ℕ) (st : State F)
      → has_key rule target agent st ≡ true
      → OfKey rule target agent st
  unfolding has_key
  has_key-OfKey rule target agent st h = ground arith

  pub has_key-of :
      (rule target agent : ℕ) (st : State F) {q t a : ℕ}
      → OfKey q t a st
      → has_key rule target agent st ≡ ((q == rule) && (t == target) && (a == agent))
  unfolding has_key
  has_key-of rule target agent st k = rw (k.rule_is, k.target_is, k.agent_is)

  pub state_at-OfKey :
      (states : List (State F)) (rule target agent : ℕ) {st : State F}
      → state_at states rule target agent ≡ some st
      → OfKey rule target agent st
  state_at-OfKey states rule target agent {st} h =
      has_key-OfKey rule target agent st (state_at-has_key states rule target agent h)

module _ {F : Type 0} (fl : FloatOps F) where
  evaluate_value-OfKey :
      (r : Rule F) (st : State F) (value : Option F) (trusted : Bool) (ts : ℕ) (interval_s : ℤ)
      (rule target agent : ℕ)
      → OfKey rule target agent st
      → OfKey rule target agent (evaluate_value fl r st value trusted ts interval_s).1
  unfolding evaluate_value
  evaluate_value-OfKey r st value trusted ts interval_s rule target agent k = ground arith

module _ {F H : Type 0} (fl : FloatOps F) (zero_value : F)
    (shape_value : H → Rule F → Input → H × Option F) where
  pub current-OfKey :
      (states : List (State F)) (rule target agent : ℕ)
      → OfKey rule target agent (current fl zero_value shape_value states rule target agent)
  unfolding current fresh_state
  current-OfKey states rule target agent = elim (Option-cases (state_at states rule target agent)) [
    | inl e ↦ rw e (record { rule_is = refl; target_is = refl; agent_is = refl })
    | inr (st, e) ↦ rw e (state_at-OfKey states rule target agent e)
  ]

  pub judge-OfKey :
      (shapes : H) (r : Rule F) (st : State F) (meas : Input) (interval_s : ℤ)
      (rule target agent : ℕ)
      → OfKey rule target agent st
      → OfKey rule target agent (judge fl zero_value shape_value shapes r st meas interval_s).2
  unfolding judge evaluate trustworthy
  judge-OfKey shapes r st meas interval_s rule target agent k =
      elim (Bool-cases (is_shape r.metric)) [
        | inl e ↦ rw e (
            evaluate_value-OfKey fl r st (shape_value shapes r meas).1 meas.rtt_trusted meas.ts
              interval_s rule target agent k)
        | inr e ↦ rw e (
            evaluate_value-OfKey fl r st (metric_value fl meas r.metric) (trustworthy meas r.metric)
              meas.ts interval_s rule target agent k)
      ]
