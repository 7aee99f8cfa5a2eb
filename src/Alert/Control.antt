-- ===== src/Alert/Control.antt =====
-- `Firing`, `Repeat`, `Acknowledge`, `AddSilence` and `RemoveSilence` of internal/alert/manager.go.
use smokeng.Common.{
  ℕ, Bool, true, false, not, Option, none, some, List, [], ◌∷◌, ◌++◌, if◌then◌else◌, ◌==◌, find,
  keep,
}
use smokeng.Alert.Rule.{Rule, State}
use smokeng.Alert.Silence.{Silence}
use smokeng.Alert.Manager.{
  Alert, Manager, Effects, state_at, put_state, applicable_at, alert_locked, alert_silenced,
  deliver,
}

module _ {F : Type 0} where
  unfoldable pub mark_acked : (ack : Bool) → (now : ℕ) → (by : List ℕ) → State F → State F
  mark_acked true now by st = record st { acked_since = st.since; acked_at = now; acked_by = by }
  mark_acked false now by st = record st { acked_since = 0; acked_at = 0; acked_by = [] }

  unfoldable pub mark_silenced : Bool × ℕ → Alert F → Alert F
  mark_silenced (true, until) a = record a { silenced_until = some until }
  mark_silenced (false, until) a = a

module _ {F H : Type 0} where
  -- The body of the loop of `Firing`: nothing for a state that is clear, or whose rule or target is
  -- gone.
  unfoldable pub firing_alert : Manager F H → (now : ℕ) → State F → Option (Alert F)
  firing_alert m now st =
      if not st.firing then none else elim (find (λ (r : Rule F). r.id == st.rule_id) m.rules) [
        | none ↦ none
        | some r ↦ elim (applicable_at m.by_target st.target_id) [
          | none ↦ none
          | some app ↦
              let a = alert_locked r st app now true in
              some (mark_silenced (alert_silenced m now a) a)
        ]
      ]

  -- Firing
  unfoldable pub firing_alerts : Manager F H → (now : ℕ) → List (State F) → List (Alert F)
  unfolding firing_alert
  firing_alerts m now [] = []
  firing_alerts m now (st ∷ rest) = elim (firing_alert m now st) [
    | none ↦ firing_alerts m now rest
    | some a ↦ a ∷ firing_alerts m now rest
  ]

  -- Repeat: with a notifier, everything that is still firing is delivered again.
  unfoldable pub repeat : Manager F H → (now : ℕ) → Effects F
  repeat m now =
      if m.delivers
      then deliver m now (firing_alerts m now m.states)
      else record { saved = []; logged = []; posted = [] }

  -- Acknowledge, up to the answer of the store: whether a firing alert was found, and its new state.
  unfoldable pub acknowledge :
      Manager F H
      → (rule target agent now : ℕ) → (ack : Bool) → (by : List ℕ) → Manager F H × Option (State F)
  acknowledge m rule target agent now ack by = elim (state_at m.states rule target agent) [
    | none ↦ (m, none)
    | some st ↦
        if not st.firing
        then (m, none)
        else (let st' = mark_acked ack now by st in
            (record m { states = put_state st' m.states }, some st'))
  ]

  -- AddSilence behind a store that accepted it, and RemoveSilence behind one that deleted it.
  unfoldable pub add_silence : Manager F H → Silence → Manager F H
  add_silence m s = record m { silences = m.silences ++ s ∷ [] }

  unfoldable pub remove_silence : Manager F H → ℕ → Manager F H
  remove_silence m id = record m { silences = keep (λ (s : Silence). not (s.id == id)) m.silences }
