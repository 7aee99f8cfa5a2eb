-- ===== src/Scenarios/Managers.antt =====
-- A manager that watches one target with a loss rule, under a silence.
use smokeng.Common.{
  ℕ, ◌≡◌, refl, inl, true, Option, none, some, List, [], ◌∷◌, arith, find, keep, In, All,
  if◌then◌else◌, ◌↔◌, ◌≤◌, ◌==◌, ◌&&◌, ◌⊎◌,
}
use smokeng.Common.Int.{pos}
use smokeng.Common.Text.{codes}
use smokeng.Scenarios.Fixed.{fixed}
use smokeng.Scenarios.Alerts.{rule, burning}
use smokeng.Alert.Rule.{Input, Rule, State, acked, is_shape}
use smokeng.Alert.Silence.{Silence, silenced}
use smokeng.Alert.Silenced.{Covered, Covers, silenced-exact}
use smokeng.Alert.Manager.{Applicable, Event, Manager, state_at, has_key, applicable_at}
use smokeng.Alert.Observe.{Observed, observe_inputs, current}
use smokeng.Alert.Control.{repeat, acknowledge}
use smokeng.Alert.Series.{evaluate_all, observe_inputs-evaluate_all}
use smokeng.Alert.Delivery.{repeat-logs, acknowledge-acked}

-- Silences the group 2 from 100 to 200.
abbrev night : Silence
night = record {
  id = 1;
  target_id = some 2;
  agent_id = none;
  rule_id = none;
  starts_at = 100;
  ends_at = 200;
  reason = codes "work";
  created_by = codes "tim";
  created_at = 90;
}

silenced-exact_example :
    let r = silenced 150 7 1 (3 ∷ 2 ∷ 1 ∷ []) (night ∷ []) in
    ((r.0 ≡ true) ↔ Covered 150 7 1 (3 ∷ 2 ∷ 1 ∷ []) (night ∷ []))
    × All (λ s. (¬ Covers 150 7 1 (3 ∷ 2 ∷ 1 ∷ []) s) ⊎ (s.ends_at ≤ r.1)) (night ∷ [])
    × ((r.1 ≡ 0)
        ⊎ ((s : Silence) × In s (night ∷ [])
            × Covers 150 7 1 (3 ∷ 2 ∷ 1 ∷ []) s
            × (r.1 ≡ s.ends_at)))
silenced-exact_example = silenced-exact 150 7 1 (3 ∷ 2 ∷ 1 ∷ []) (night ∷ [])

abbrev watched : Applicable ℕ
watched = record {
  target = 3;
  rules = rule ∷ [];
  interval_s = pos 60;
  path = codes "/dns/quad9";
  host = codes "9.9.9.9";
}

-- No shape rule is used: no value, and no memory.
abbrev no_shape : Unit {0} → Rule ℕ → Input → Unit {0} × Option ℕ
no_shape h r m = (h, none)

abbrev pub manager : Manager ℕ (Unit {0})
manager = record {
  by_target = watched ∷ [];
  states = burning ∷ [];
  rules = rule ∷ [];
  silences = [];
  ancestors = (3, 3 ∷ 2 ∷ 1 ∷ []) ∷ [];
  shapes = tt;
  delivers = true;
}

abbrev lost : ℕ → ℕ → Input
lost agent ts = record {
  target_id = 3;
  agent_id = agent;
  ts = ts;
  sent = 20;
  received = 10;
  samples = [];
  loss_trusted = true;
  rtt_trusted = true;
}

abbrev batch : List Input
batch = lost 1 180 ∷ lost 2 180 ∷ lost 1 240 ∷ lost 2 240 ∷ []

abbrev start : Observed fixed 0 no_shape
start = record { states = burning ∷ []; shapes = tt; alerts = []; dirty = [] }

observe_inputs-evaluate_all_example :
    current fixed 0 no_shape
      (observe_inputs fixed 0 no_shape (watched ∷ []) 240 batch start).states
      7
      3
      2
    ≡ evaluate_all fixed rule
        (pos 60)
        (current fixed 0 no_shape (burning ∷ []) 7 3 2)
        (keep (λ (m : Input). (m.target_id == 3) && (m.agent_id == 2)) batch)
unfolding applicable_at find is_shape
observe_inputs-evaluate_all_example =
    observe_inputs-evaluate_all fixed 0 no_shape rule refl 3 2 (watched ∷ []) watched 240 batch
      start refl (inl (refl, tt))

repeat-logs_example :
    (e : Event ℕ) × In e (repeat manager 300).logged
    × (e.firing ≡ true)
    × (e.rule_id ≡ 7)
    × (e.target_id ≡ 3)
    × (e.agent_id ≡ 1)
unfolding applicable_at find
repeat-logs_example = repeat-logs manager 300 burning rule watched refl (inl refl) refl refl refl

acknowledge-acked_example :
    let (m', found) = acknowledge manager 7 3 1 300 true (codes "tim") in
    (st' : State ℕ) × (found ≡ some st')
    × (acked st' ≡ true)
    × (state_at m'.states 7 3 1 ≡ some st')
    × (state_at m'.states 7 3 2
        ≡ (if has_key 7 3 2 burning then some st' else state_at (burning ∷ []) 7 3 2))
unfolding state_at find
acknowledge-acked_example =
    acknowledge-acked manager 300 7 3 1 true (codes "tim") burning 7 3 2 refl refl (omega arith)
