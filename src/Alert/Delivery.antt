-- ===== src/Alert/Delivery.antt =====
-- What the manager logs and posts, and what an acknowledgement changes.
use smokeng.Common.{
  ℕ, ◌<◌, ◌≡◌, refl, inl, inr, Bool, true, false, ◌∙◌, some, List, [], ◌∷◌, arith, map,
  if◌then◌else◌, ◌==◌, In, find, ap, Option-cases,
}
use mathlib.Core.Path.{subst, sym}
use smokeng.Alert.Rule.{Rule, State, acked}
use smokeng.Alert.States.{state_at-put_state, state_at-has_key}
use smokeng.Alert.Manager.{
  Applicable, Alert, Event, Manager, state_at, put_state, has_key, applicable_at, deliver, event_of,
  alert_silenced, alert_locked,
}
use smokeng.Alert.Control.{
  firing_alert, firing_alerts, mark_silenced, mark_acked, repeat, acknowledge,
}

event_of-mark_silenced :
    {F : Type 0} (now : ℕ) (h : Bool × ℕ) (a : Alert F)
    → event_of now (mark_silenced h a) ≡ event_of now a
unfolding event_of mark_silenced
event_of-mark_silenced now (true, until) a = refl
event_of-mark_silenced now (false, until) a = refl

map-In : {A B : Type 0} (f : A → B) (xs : List A) (x : A) → In x xs → In (f x) (map f xs)
map-In f [] x i = i
map-In f (y ∷ xs) x (inl e) = inl (ap f e)
map-In f (y ∷ xs) x (inr i) = inr (map-In f xs x i)

module _ {F H : Type 0} (m : Manager F H) (now : ℕ) where
  firing_alert-some :
      (st : State F) (r : Rule F) (app : Applicable F)
      → st.firing ≡ true
      → find (λ (q : Rule F). q.id == st.rule_id) m.rules ≡ some r
      → applicable_at m.by_target st.target_id ≡ some app
      → firing_alert m now st
        ≡ some (
            mark_silenced
              (alert_silenced m now (alert_locked r st app now true))
              (alert_locked r st app now true))
  unfolding firing_alert
  firing_alert-some st r app f er ea = ground (arith, f, er, ea)

  firing_alerts-In :
      (states : List (State F)) (st : State F) {a : Alert F}
      → In st states
      → firing_alert m now st ≡ some a
      → In a (firing_alerts m now states)
  unfolding firing_alerts
  firing_alerts-In [] st i e = absurd i
  firing_alerts-In (x ∷ rest) st {a} (inl same) e =
      let e' : firing_alert m now x ≡ some a =
        subst (λ (s : State F). firing_alert m now s ≡ some a) (sym same) e in
      rw (e', firing_alerts) (inl refl)
  firing_alerts-In (x ∷ rest) st {a} (inr i) e = elim (Option-cases (firing_alert m now x)) [
    | inl n ↦ rw (n, firing_alerts) (firing_alerts-In rest st i e)
    | inr (b, n) ↦ rw (n, firing_alerts) (inr (firing_alerts-In rest st i e))
  ]

  -- With a notifier, a repeat writes to the transition log. For every state that is firing, with its
  -- rule and its target known, it logs one more row that says the rule fired, though nothing fired.
  pub repeat-logs :
      (st : State F) (r : Rule F) (app : Applicable F)
      → m.delivers ≡ true
      → In st m.states
      → st.firing ≡ true
      → find (λ (q : Rule F). q.id == st.rule_id) m.rules ≡ some r
      → applicable_at m.by_target st.target_id ≡ some app
      → (e : Event F) × In e (repeat m now).logged
        × (e.firing ≡ true)
        × (e.rule_id ≡ r.id)
        × (e.target_id ≡ st.target_id)
        × (e.agent_id ≡ st.agent_id)
  unfolding repeat deliver
  repeat-logs st r app d i f er ea =
      let a = alert_locked r st app now true in
      let logged : In (event_of now (mark_silenced (alert_silenced m now a) a))
          (map (event_of now) (firing_alerts m now m.states)) =
        map-In (event_of now) (firing_alerts m now m.states) _
          (firing_alerts-In m.states st i (firing_alert-some st r app f er ea)) in
      (
        event_of now a,
        simp d (rw event_of-mark_silenced at logged),
        unfold event_of alert_locked in refl,
        unfold event_of alert_locked in refl,
        unfold event_of alert_locked in refl,
        unfold event_of alert_locked in refl,
      )

  acknowledge_found :
      (rule target agent : ℕ) (ack : Bool) (by : List ℕ) (st : State F)
      → state_at m.states rule target agent ≡ some st
      → st.firing ≡ true
      → acknowledge m rule target agent now ack by ≡ (
        record m { states = put_state (mark_acked ack now by st) m.states },
        some (mark_acked ack now by st),
      )
  unfolding acknowledge
  acknowledge_found rule target agent ack by st e f = rw (e, f, acknowledge)

  mark_acked-key :
      (ack : Bool) (by : List ℕ) (st : State F) (r t a : ℕ)
      → has_key r t a (mark_acked ack now by st) ≡ has_key r t a st
  unfolding mark_acked has_key
  mark_acked-key true by st r t a = refl
  mark_acked-key false by st r t a = refl

  mark_acked-acked :
      (ack : Bool) (by : List ℕ) (st : State F)
      → st.firing ≡ true
      → 0 < st.since
      → acked (mark_acked ack now by st) ≡ ack
  unfolding mark_acked acked
  mark_acked-acked ack by st f s = ground arith

  -- Acknowledging a key whose state is firing, since a time other than 0: its episode is acknowledged
  -- afterwards exactly as asked, and the map holds the new state under that key and at every other
  -- key (r, t, a) what it held before.
  pub acknowledge-acked :
      (rule target agent : ℕ) (ack : Bool) (by : List ℕ) (st : State F) (r t a : ℕ)
      → state_at m.states rule target agent ≡ some st
      → st.firing ≡ true
      → 0 < st.since
      → let (m', found) = acknowledge m rule target agent now ack by in
        (st' : State F) × (found ≡ some st')
        × (acked st' ≡ ack)
        × (state_at m'.states rule target agent ≡ some st')
        × (state_at m'.states r t a
            ≡ (if has_key r t a st then some st' else state_at m.states r t a))
  acknowledge-acked rule target agent ack by st r t a e f s =
      let st' = mark_acked ack now by st in
      let own : has_key rule target agent st' ≡ true =
        mark_acked-key ack by st rule target agent
        ∙ state_at-has_key m.states rule target agent e in
      rw (acknowledge_found rule target agent ack by st e f) (
        st',
        refl,
        mark_acked-acked ack by st f s,
        state_at-put_state st' m.states rule target agent ∙ rw own,
        state_at-put_state st' m.states r t a ∙ rw (mark_acked-key ack by st r t a),
      )
