-- ===== src/Alert/Manager.antt =====
-- internal/alert/manager.go: the manager that holds the rules' states and delivers what changes. Its
-- mutex guards the record below, and a method is a function that returns the new record. It is one step,
-- at one time: that another method may run where `Observe` has released the mutex and `deliver` has not
-- taken it again is left out. The store and the notifier are what `Effects` lists.
use smokeng.Common.{
  ℕ, Bool, true, false, not, ◌&&◌, Option, none, some, List, [], ◌∷◌, map, if◌then◌else◌, ◌==◌,
  find, keep,
}
use smokeng.Common.Int.{ℤ}
use smokeng.Alert.Rule.{Rule, State, Transition, no_change, fired, resolved, acked}
use smokeng.Alert.Silence.{Silence, silenced}

-- A leaf's resolved alerting context, as `Reload` left it.
pub record Applicable (F : Type 0) : Type 0 where
  pub target : ℕ
  pub rules : List (Rule F)
  pub interval_s : ℤ
  pub path : List ℕ
  pub host : List ℕ

-- The notification of one transition. The agent's name, a text for display, is left out, and so is the
-- rule's description in an event of the log.
pub record Alert (F : Type 0) : Type 0 where
  pub rule : Rule F
  pub target_id : ℕ
  pub agent_id : ℕ
  pub path : List ℕ
  pub host : List ℕ
  pub firing : Bool
  pub value : F
  pub since : ℕ
  pub ended : Option ℕ
  pub acked : Bool
  pub acked_by : List ℕ
  pub acked_at : ℕ
  pub silenced_until : Option ℕ

-- A row of the transition log.
pub record Event (F : Type 0) : Type 0 where
  pub ts : ℕ
  pub rule_id : ℕ
  pub target_id : ℕ
  pub agent_id : ℕ
  pub firing : Bool
  pub rule_name : List ℕ
  pub value : F

-- The states are one for each key (rule, target, agent), which a state holds itself.
pub record Manager (F H : Type 0) : Type 0 where
  pub by_target : List (Applicable F)
  pub states : List (State F)
  pub rules : List (Rule F)
  pub silences : List Silence
  -- Every target with its ancestors, itself included.
  pub ancestors : List (ℕ × List ℕ)
  -- The memory of the shape rules.
  pub shapes : H
  pub delivers : Bool

-- What a step asks of the outside: states to save, rows for the log, alerts to post.
pub record Effects (F : Type 0) : Type 0 where
  pub saved : List (State F)
  pub logged : List (Event F)
  pub posted : List (Alert F)

module _ {F : Type 0} where
  unfoldable pub has_key : (rule target agent : ℕ) → State F → Bool
  has_key rule target agent st =
      (st.rule_id == rule) && (st.target_id == target) && (st.agent_id == agent)

  -- m.states[key]
  unfoldable pub state_at : List (State F) → (rule target agent : ℕ) → Option (State F)
  unfolding has_key
  state_at states rule target agent = find (has_key rule target agent) states

  -- The write through the pointer that the map holds, or the entry made for a key that had none.
  unfoldable pub put_state : State F → List (State F) → List (State F)
  unfolding has_key
  put_state st [] = st ∷ []
  put_state st (x ∷ rest) =
      if has_key st.rule_id st.target_id st.agent_id x then st ∷ rest else x ∷ put_state st rest

  -- m.byTarget[id]
  unfoldable pub applicable_at : List (Applicable F) → ℕ → Option (Applicable F)
  applicable_at apps target = find (λ (a : Applicable F). a.target == target) apps

  -- alertLocked
  unfoldable pub alert_locked : Rule F → State F → Applicable F → (now : ℕ) → Bool → Alert F
  unfolding acked
  alert_locked r st app now firing = record {
    rule = r;
    target_id = st.target_id;
    agent_id = st.agent_id;
    path = app.path;
    host = app.host;
    firing = firing;
    value = st.value;
    since = st.since;
    ended = if firing then none else some (if st.last_ts == 0 then now else st.last_ts);
    acked = acked st;
    acked_by = if acked st then st.acked_by else [];
    acked_at = if acked st then st.acked_at else 0;
    silenced_until = none;
  }

  -- m.ancestors[id]
  unfoldable pub above_of : {H : Type 0} → Manager F H → ℕ → List ℕ
  above_of m id = elim (find (λ (a : ℕ × List ℕ). a.0 == id) m.ancestors) [
    | none ↦ []
    | some a ↦ a.1
  ]

  -- silencedLocked on an alert
  unfoldable pub alert_silenced : {H : Type 0} → Manager F H → (now : ℕ) → Alert F → Bool × ℕ
  unfolding above_of
  alert_silenced m now a = silenced now a.rule.id a.agent_id (above_of m a.target_id) m.silences

  -- record, transitionTS
  unfoldable pub event_of : (now : ℕ) → Alert F → Event F
  event_of now a = record {
    ts = if a.firing && not (a.since == 0) then a.since else now;
    rule_id = a.rule.id;
    target_id = a.target_id;
    agent_id = a.agent_id;
    firing = a.firing;
    rule_name = a.rule.name;
    value = a.value;
  }

  -- deliver: record everything, post what no silence covers.
  unfoldable pub unsilenced : {H : Type 0} → Manager F H → (now : ℕ) → Alert F → Bool
  unfolding alert_silenced
  unsilenced m now a = not (alert_silenced m now a).0

  unfoldable pub deliver : {H : Type 0} → Manager F H → (now : ℕ) → List (Alert F) → Effects F
  deliver m now alerts = record {
    saved = [];
    logged = map (event_of now) alerts;
    posted = if m.delivers then keep (unsilenced m now) alerts else [];
  }

  -- The state of a key that has none yet.
  unfoldable pub fresh_state : (zero_value : F) → (rule target agent : ℕ) → State F
  fresh_state zero_value rule target agent = record {
    rule_id = rule;
    target_id = target;
    agent_id = agent;
    firing = false;
    since = 0;
    streak = 0;
    last_ts = 0;
    value = zero_value;
    acked_since = 0;
    acked_at = 0;
    acked_by = [];
  }

  abbrev pub or_fresh : Option (State F) → State F → State F
  or_fresh none st = st
  or_fresh (some st) _ = st

  -- The alerts of a transition.
  abbrev pub announce : Transition → Rule F → State F → Applicable F → (now : ℕ) → List (Alert F)
  announce no_change r st app now = []
  announce fired r st app now = alert_locked r st app now true ∷ []
  announce resolved r st app now = alert_locked r st app now false ∷ []
